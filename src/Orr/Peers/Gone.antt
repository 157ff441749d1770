-- ===== src/Orr/Peers/Gone.antt =====
-- On the ephemeral keys that `PeerRegistry` of orr/src/peers.rs holds no longer.
use dkms.Prelude.{
  ℕ, max, ◌≡◌, ◌≢◌, ◌⊎◌, refl, String, Option, none, some, arith, inl, inr, Option-cases,
  Bool-cases, subst, sym,
}
use dkms.Prelude.Assoc.{
  Assoc, string_keys, nat_keys, lookup, insert, remove, lookup-insert, lookup-insert_self,
  lookup-remove, lookup-remove_self, ◌==◌ as same_text,
}
use dkms.Prelude.Bytes.{Bytes}
use dkms.Prelude.Epochs.{Secrets, put, evict}
use dkms.Prelude.Epochs.Lookup.{lookup-put, evict_missing}
use dkms.Orr.Peers.{
  PeerRegistry, modify_at, modified, taken, found_in, or_default, drop_old_epochs_for,
  store_ephemeral_sk, take_ephemeral_sk, max_ephemeral_per_peer,
}

remove_missing_at :
    (e epoch : ℕ) (s : Secrets) → lookup e s ≡ none → lookup e (remove epoch s) ≡ none
remove_missing_at e epoch s h = ground (arith, lookup-remove epoch e s, h)

put_missing :
    (e epoch : ℕ) (secret : Bytes) (s : Secrets)
    → epoch ≢ e
    → lookup e s ≡ none
    → lookup e (put epoch secret s) ≡ none
put_missing e epoch secret s ne h = ground (arith, lookup-put e epoch secret s, h)

module _ (x : String) (y : ℕ) where
  -- Nothing is held for the epoch `y` of the peer `x`.
  abbrev pub IsGone : Assoc String Secrets → Type 0
  IsGone m = found_in (lookup x m) y ≡ none

  insert-IsGone :
      (k : String) (s : Secrets) (m : Assoc String Secrets)
      → (k ≡ x → lookup y s ≡ none)
      → IsGone m
      → IsGone (insert k s m)
  unfolding found_in
  insert-IsGone k s m h g = elim (Bool-cases (same_text k x)) [
    | inl e ↦ rw (lookup-insert k x s m, e, found_in) (h ((string_keys.agrees k x).0 e))
    | inr e ↦ rw (lookup-insert k x s m, e) g
  ]

  missing_in :
      (k : String) (m : Assoc String Secrets) (s : Secrets)
      → k ≡ x
      → lookup k m ≡ some s
      → IsGone m
      → lookup y s ≡ none
  unfolding found_in
  missing_in k m s same e g =
      let here : found_in (lookup k m) y ≡ none =
        subst (λ z. found_in (lookup z m) y ≡ none) (sym same) g in
      subst (λ (o : Option Secrets). found_in o y ≡ none) e here

  modified-IsGone :
      (k : String) (f : Secrets → Secrets) (m : Assoc String Secrets) (o : Option Secrets)
      → lookup k m ≡ o
      → ((s : Secrets) → lookup y s ≡ none → lookup y (f s) ≡ none)
      → IsGone m
      → IsGone (modified k f m o)
  unfolding modified
  modified-IsGone k f m none e h g = g
  modified-IsGone k f m (some s) e h g =
      insert-IsGone k (f s) m (λ same. h s (missing_in k m s same e g)) g

  taken-IsGone :
      (p : PeerRegistry) (k : String) (epoch : ℕ) (o : Option Secrets)
      → lookup k p.ephemeral_sks ≡ o
      → IsGone p.ephemeral_sks
      → IsGone (taken p k epoch o).0.ephemeral_sks
  unfolding taken
  taken-IsGone p k epoch none e g = g
  taken-IsGone p k epoch (some s) e g =
      insert-IsGone k (remove epoch s) p.ephemeral_sks
        (λ same. remove_missing_at y epoch s (missing_in k p.ephemeral_sks s same e g)) g

  pub take-IsGone :
      (p : PeerRegistry) (k : String) (epoch : ℕ)
      → IsGone p.ephemeral_sks
      → IsGone (take_ephemeral_sk p k epoch).0.ephemeral_sks
  unfolding take_ephemeral_sk
  take-IsGone p k epoch g = taken-IsGone p k epoch (lookup k p.ephemeral_sks) refl g

  pub drop_old_epochs_for-IsGone :
      (p : PeerRegistry) (k : String) (keep : ℕ)
      → IsGone p.ephemeral_sks
      → IsGone (drop_old_epochs_for p k keep).ephemeral_sks
  unfolding drop_old_epochs_for modify_at
  drop_old_epochs_for-IsGone p k keep g =
      modified-IsGone k (evict (max keep 2)) p.ephemeral_sks (lookup k p.ephemeral_sks) refl
        (λ s h. evict_missing y (max keep 2) s h) g

  held_in-IsGone : (o : Option Secrets) → found_in o y ≡ none → lookup y (or_default o) ≡ none
  unfolding found_in or_default lookup
  held_in-IsGone none g = refl
  held_in-IsGone (some s) g = g

  -- A key that is stored is one of another peer or of another epoch.
  pub store-IsGone :
      (p : PeerRegistry) (k : String) (epoch : ℕ) (esk : Bytes)
      → (k ≢ x) ⊎ (epoch ≢ y)
      → IsGone p.ephemeral_sks
      → IsGone (store_ephemeral_sk p k epoch esk).ephemeral_sks
  unfolding store_ephemeral_sk
  store-IsGone p k epoch esk (inl n) g =
      insert-IsGone k
        (evict max_ephemeral_per_peer (put epoch esk (or_default (lookup k p.ephemeral_sks))))
        p.ephemeral_sks (λ same. absurd (n same)) g
  store-IsGone p k epoch esk (inr n) g =
      let held = or_default (lookup k p.ephemeral_sks) in
      insert-IsGone k (evict max_ephemeral_per_peer (put epoch esk held)) p.ephemeral_sks
        (λ same. evict_missing y max_ephemeral_per_peer (put epoch esk held) (
          put_missing y epoch esk held n (
            held_in-IsGone (lookup k p.ephemeral_sks)
              (subst (λ z. found_in (lookup z p.ephemeral_sks) y ≡ none) (sym same) g))))
        g

taken-IsGone_self :
    (p : PeerRegistry) (k : String) (epoch : ℕ) (o : Option Secrets)
    → lookup k p.ephemeral_sks ≡ o
    → IsGone k epoch (taken p k epoch o).0.ephemeral_sks
unfolding taken found_in
taken-IsGone_self p k epoch none e = rw e
taken-IsGone_self p k epoch (some s) e =
    rw (lookup-insert_self k (remove epoch s) p.ephemeral_sks) (lookup-remove_self epoch s)

-- What was taken is held no longer.
pub take-IsGone_self :
    (p : PeerRegistry) (k : String) (epoch : ℕ)
    → IsGone k epoch (take_ephemeral_sk p k epoch).0.ephemeral_sks
unfolding take_ephemeral_sk
take-IsGone_self p k epoch = taken-IsGone_self p k epoch (lookup k p.ephemeral_sks) refl

pub take_gone :
    (p : PeerRegistry) (k : String) (epoch : ℕ)
    → IsGone k epoch p.ephemeral_sks
    → (take_ephemeral_sk p k epoch).1 ≡ none
unfolding take_ephemeral_sk found_in
take_gone p k epoch g = elim (Option-cases (lookup k p.ephemeral_sks)) [
  | inl n ↦ rw (n, taken)
  | inr (s, e) ↦ rw (e, taken) (rw e at g)
]
