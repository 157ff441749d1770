-- ===== src/Qkc/KeyStore/Ring.antt =====
-- On the ring `enc` of `KeyStore` of qkc/src/keystore.rs.
use dkms.Prelude.{
  ℕ, zero, suc, ◌+◌, ◌-◌, ◌≤◌, ◌≡◌, refl, sym, ◌∙◌, ap, List, [], ◌∷◌, ◌++◌, arith, length,
  length-append, take, take_all, drop, append-nil, append_assoc, Bool-cases, inl, inr, ltb,
}
use dkms.Qkc.KeyStore.{
  OtpKey, KeyStore, enc_capacity, pop_batch, take_enc_batch, push_key, push_keys, absorb_enc_keys,
}

abbrev Pushed : Type 0
Pushed = List OtpKey × ℕ

pair : {a a' : List OtpKey} {b b' : ℕ} → a ≡ a' → b ≡ b' → ◌≡◌ {A = Pushed} (a, b) (a', b')
pair {a' = a'} {b = b} p q = ap (λ (x : List OtpKey). (x, b)) p ∙ ap (λ (y : ℕ). (a', y)) q

-- With room for `r` more keys.
push_keys_room :
    (enc : List OtpKey) (n : ℕ) (ks : List OtpKey) (r : ℕ)
    → length enc + r ≡ enc_capacity
    → push_keys (enc, n) ks ≡ (enc ++ take r ks, n + (length ks - r))
unfolding push_keys push_key
push_keys_room enc n [] r h =
    pair (sym (ap (λ x. enc ++ x) (take_all [] r (omega arith)) ∙ append-nil enc)) (omega arith)
push_keys_room enc n (k ∷ ks) zero h = elim (Bool-cases (ltb (length enc) enc_capacity)) [
  | inl room ↦ absurd (ground arith)
  | inr full ↦ rw full (push_keys_room enc (suc n) ks zero h ∙ pair refl (omega arith))
]
push_keys_room enc n (k ∷ ks) (suc r) h = elim (Bool-cases (ltb (length enc) enc_capacity)) [
  | inr full ↦ absurd (ground arith)
  | inl room ↦ rw room (
      push_keys_room (enc ++ k ∷ []) n ks r (omega (arith, length-append enc (k ∷ [])))
      ∙ pair (append_assoc enc (k ∷ []) (take r ks)) (omega arith))
]

-- Keys that are absorbed go to the back of the ring in their order as far as there is room, and
-- the others are counted as dropped.
pub push_keys_lem :
    (enc : List OtpKey) (ks : List OtpKey)
    → length enc ≤ enc_capacity
    → push_keys (enc, 0) ks
      ≡ (enc ++ take (enc_capacity - length enc) ks, length ks - (enc_capacity - length enc))
push_keys_lem enc ks h =
    push_keys_room enc 0 ks (enc_capacity - length enc) (omega arith) ∙ pair refl (omega arith)

pub pop_batch_lem : (enc : List OtpKey) (n : ℕ) → pop_batch enc n ≡ (drop n enc, take n enc)
unfolding pop_batch
pop_batch_lem enc zero = refl
pop_batch_lem [] (suc n) = refl
pop_batch_lem (k ∷ enc) (suc n) = ap (λ r. (r.0, k ∷ r.1)) (pop_batch_lem enc n)

-- A batch that is taken after an empty ring with room for them has absorbed keys is the first keys
-- in their order, and what is left are the others.
pub take_enc_batch-absorb_enc_keys :
    (s : KeyStore) (keys : List OtpKey) (n : ℕ)
    → s.enc ≡ []
    → length keys ≤ enc_capacity
    → let r = take_enc_batch (absorb_enc_keys s keys).0 n in
      (r.1 ≡ take n keys) × (r.0.enc ≡ drop n keys)
unfolding take_enc_batch absorb_enc_keys
take_enc_batch-absorb_enc_keys s keys n e h =
    let ring : (push_keys (s.enc, 0) keys).0 ≡ keys =
      ap (λ x. (push_keys (x, 0) keys).0) e
      ∙ (ap (λ r. r.0) (push_keys_lem [] keys (omega arith)) ∙ take_all keys enc_capacity h) in
    let popped = pop_batch_lem (push_keys (s.enc, 0) keys).0 n in
    (ap (λ r. r.1) popped ∙ ap (take n) ring, ap (λ r. r.0) popped ∙ ap (drop n) ring)
