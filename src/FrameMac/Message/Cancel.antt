-- ===== src/FrameMac/Message/Cancel.antt =====
-- On the fields of the message that `build` of common/src/crypto/frame_mac.rs makes, one by one.
use dkms.Prelude.{
  ℕ, ◌^◌, ◌<◌, ◌≡◌, refl, sym, ◌∙◌, ap, List, [], ◌∷◌, ◌++◌, length, take, drop, take-append,
  drop-append, append_assoc, leb, Bool-cases, inl, inr, arith,
}
use dkms.Prelude.Bytes.{Bytes, be_bytes, from_be, length-be_bytes, from_be-be_bytes}
use dkms.Prelude.Outcome.{Outcome, ok, panic, >>=-eq-ok}
use dkms.FrameMac.Message.{MacError, write_lp16, write_key_ids}

pub cancel :
    (xs xs' ys ys' : Bytes)
    → length xs ≡ length xs'
    → xs ++ ys ≡ xs' ++ ys'
    → (xs ≡ xs') × (ys ≡ ys')
cancel xs xs' ys ys' l e = (
  sym (take-append xs ys l) ∙ (ap (take (length xs')) e ∙ take-append xs' ys' refl),
  sym (drop-append xs ys l) ∙ (ap (drop (length xs')) e ∙ drop-append xs' ys' refl),
)

-- A field of a fixed width.
pub cancel_field :
    (n a b : ℕ) (ys ys' : Bytes)
    → a < 256 ^ n
    → b < 256 ^ n
    → be_bytes n a ++ ys ≡ be_bytes n b ++ ys'
    → (a ≡ b) × (ys ≡ ys')
cancel_field n a b ys ys' h k e =
    let both =
      cancel (be_bytes n a) (be_bytes n b) ys ys' (length-be_bytes n a ∙ sym (length-be_bytes n b))
        e in
    (sym (from_be-be_bytes n a h) ∙ (ap from_be both.0 ∙ from_be-be_bytes n b k), both.1)

pub ok_eq : {v w : Bytes} → ◌≡◌ {A = Outcome MacError Bytes} (ok v) (ok w) → v ≡ w
ok_eq e = cc

write_lp16-ok :
    (x u : Bytes) → write_lp16 x ≡ ok u → (length x < 256 ^ 2) × (u ≡ be_bytes 2 (length x) ++ x)
unfolding write_lp16
write_lp16-ok x u h = elim (Bool-cases (leb (length x) 65_535)) [
  | inl l ↦ (ground arith, sym (ok_eq (rw l at h)))
  | inr m ↦ absurd (not_ok (rw m at h))
]
  where
    not_ok : {w : Bytes} → ◌≡◌ {A = Outcome MacError Bytes} panic (ok w) → ⊥
    not_ok e = cc

-- A field with its length before it.
pub cancel_lp16 :
    (x y u v ys ys' : Bytes)
    → write_lp16 x ≡ ok u
    → write_lp16 y ≡ ok v
    → u ++ ys ≡ v ++ ys'
    → (x ≡ y) × (ys ≡ ys')
cancel_lp16 x y u v ys ys' h k e =
    let (lx, ux) = write_lp16-ok x u h in
    let (ly, vy) = write_lp16-ok y v k in
    let flat =
      sym (append_assoc (be_bytes 2 (length x)) x ys)
      ∙ (ap (λ w. w ++ ys) (sym ux)
          ∙ (e ∙ (ap (λ w. w ++ ys') vy ∙ append_assoc (be_bytes 2 (length y)) y ys'))) in
    let (l, r) = cancel_field 2 (length x) (length y) (x ++ ys) (y ++ ys') lx ly flat in
    cancel x y ys ys' l r

pub cancel_key_ids :
    (xs ys : List Bytes) (u v r s : Bytes)
    → length xs ≡ length ys
    → write_key_ids xs ≡ ok u
    → write_key_ids ys ≡ ok v
    → u ++ r ≡ v ++ s
    → (xs ≡ ys) × (r ≡ s)
unfolding write_key_ids
cancel_key_ids [] [] u v r s l h k e =
    (refl, ap (λ w. w ++ r) (ok_eq h) ∙ (e ∙ ap (λ w. w ++ s) (sym (ok_eq k))))
cancel_key_ids [] (y ∷ ys) u v r s l h k e = absurd (omega (arith, l))
cancel_key_ids (x ∷ xs) [] u v r s l h k e = absurd (omega (arith, l))
cancel_key_ids (x ∷ xs) (y ∷ ys) u v r s l h k e =
    let (a, ha, h1) = >>=-eq-ok (write_lp16 x) _ h in
    let (w, hw, h2) = >>=-eq-ok (write_key_ids xs) _ h1 in
    let (b, kb, k1) = >>=-eq-ok (write_lp16 y) _ k in
    let (z, kz, k2) = >>=-eq-ok (write_key_ids ys) _ k1 in
    let flat =
      sym (append_assoc a w r)
      ∙ (ap (λ q. q ++ r) (ok_eq h2)
          ∙ (e ∙ (ap (λ q. q ++ s) (sym (ok_eq k2)) ∙ append_assoc b z s))) in
    let (one, rest) = cancel_lp16 x y a b (w ++ r) (z ++ s) ha kb flat in
    let (more, last) = cancel_key_ids xs ys w z r s (omega (arith, l)) hw kz rest in
    (ap (λ q. q ∷ xs) one ∙ ap (λ q. y ∷ q) more, last)
