-- ===== src/Qkc/KeyStore/Wait.antt =====
-- qkc/src/keystore.rs: `wait_enc_batch` and `wait_dec`. What the workers bring before the deadline of
-- the call is an argument, in the order of the wake-ups.
use dkms.Prelude.{ℕ, ◌-◌, Option, none, some, List, [], ◌∷◌, ◌++◌, length, ltb, ◌==◌, if◌then◌else◌}
use dkms.Prelude.Outcome.{Outcome, ok, err}
use dkms.Qkc.KeyStore.{OtpKey, KeyStore, take_enc_batch, absorb_enc_keys, lookup_dec, dec_answered}

-- The store, and the result or the number of keys that are missing.
abbrev pub Waited : Type 0 → Type 0
Waited A = KeyStore × Outcome ℕ A

-- The first part of a round: what is still needed is taken.
unfoldable pub take_more : KeyStore → ℕ → List OtpKey → KeyStore × List OtpKey
take_more s n out = let (s', extra) = take_enc_batch s (n - length out) in (s', out ++ extra)

unfoldable pub enc_rounds : ℕ → List (List OtpKey) → KeyStore × List OtpKey → Waited (List OtpKey)
enc_rounds n [] held =
    let r = take_more held.0 n held.1 in
    if ltb (length held.1) n
    then (if length r.1 == n then (r.0, ok r.1) else (r.0, err (n - length r.1)))
    else (held.0, ok held.1)
enc_rounds n (keys ∷ later) held =
    let r = take_more held.0 n held.1 in
    let rest = enc_rounds n later ((absorb_enc_keys r.0 keys).0, r.1) in
    if ltb (length held.1) n
    then (if length r.1 == n then (r.0, ok r.1) else rest)
    else (held.0, ok held.1)

unfoldable pub wait_enc_batch : KeyStore → ℕ → List (List OtpKey) → Waited (List OtpKey)
wait_enc_batch s n later = enc_rounds n later (take_enc_batch s n)

-- What a `dec_keys` was asked and answered.
abbrev pub Answers : Type 0
Answers = List (List ℕ × Option (List OtpKey))

unfoldable pub wait_dec : ℕ → Answers → KeyStore → Waited (List ℕ)
wait_dec id [] s =
    let r = lookup_dec s id in elim r.1 [ some v ↦ (r.0, ok v) | none ↦ (r.0, err 1) ]
wait_dec id ((ids, answer) ∷ later) s =
    let r = lookup_dec s id in
    elim r.1 [ some v ↦ (r.0, ok v) | none ↦ wait_dec id later (dec_answered r.0 ids answer) ]
