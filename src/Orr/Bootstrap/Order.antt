-- ===== src/Orr/Bootstrap/Order.antt =====
-- On which of two routers begins a bootstrap, by orr/src/bootstrap.rs.
use dkms.Prelude.{
  ◌≡◌, ◌≢◌, ◌⊎◌, refl, true, false, not, String, Option, none, some, [], ◌∷◌, arith, inl, inr,
  Bool-cases, choose, ==_iff, ◌==◌,
}
use dkms.Prelude.Bytes.{Bytes}
use dkms.Orr.Peers.{PeerRegistry, has_bootstrap, public_key}
use dkms.Orr.Bootstrap.{bytes_ltb}
use dkms.Orr.Bootstrap.Peer.{passive, side_of_key, begins, side}

bytes_ltb-total : (xs ys : Bytes) → xs ≢ ys → bytes_ltb xs ys ≡ not (bytes_ltb ys xs)
unfolding bytes_ltb
bytes_ltb-total [] [] n = absurd (n refl)
bytes_ltb-total [] (y ∷ ys) n = refl
bytes_ltb-total (x ∷ xs) [] n = refl
bytes_ltb-total (x ∷ xs) (y ∷ ys) n = elim (Bool-cases (x == y)) [
  | inl e ↦
      let same : x ≡ y = (==_iff x y).0 e in
      let ih = bytes_ltb-total xs ys (λ h. n (cc)) in ground (arith, same, ih)
  | inr e ↦ ground (arith, e)
]

module _ (as_bytes : String → Bytes) where
  key_active : (o : Option Bytes) → side_of_key o ≢ passive
  unfolding side_of_key
  key_active none = λ h. cc
  key_active (some pk) = λ h. cc

  active :
      (p : PeerRegistry) (a b : String) → begins as_bytes a b ≡ true → side as_bytes p a b ≢ passive
  unfolding side
  active p a b h =
      rw h (
        choose (has_bootstrap p b) (λ s. s ≢ passive) (λ _ e. cc)
          (λ _. key_active (public_key p b)))

  waiting :
      (p : PeerRegistry) (a b : String)
      → begins as_bytes a b ≡ false
      → side as_bytes p a b ≡ passive
  unfolding side
  waiting p a b h = rw h

  -- Of two routers with different ids exactly one waits for the other, whatever they hold.
  pub one_begins :
      (pa pb : PeerRegistry) (a b : String)
      → as_bytes a ≢ as_bytes b
      → ((side as_bytes pa a b ≡ passive) × (side as_bytes pb b a ≢ passive))
        ⊎ ((side as_bytes pa a b ≢ passive) × (side as_bytes pb b a ≡ passive))
  unfolding begins
  one_begins pa pb a b n =
      let total = bytes_ltb-total (as_bytes a) (as_bytes b) n in
      elim (Bool-cases (bytes_ltb (as_bytes b) (as_bytes a))) [
        | inl e ↦ inl (waiting pa a b (rw e at total), active pb b a e)
        | inr e ↦ inr (active pa a b (rw e at total), waiting pb b a e)
      ]
