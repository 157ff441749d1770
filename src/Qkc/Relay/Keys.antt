-- ===== src/Qkc/Relay/Keys.antt =====
-- On the keys that the relay of qkc/src/relay.rs takes and looks up.
use mathlib.Core.Path.{fun_ext}
use dkms.Prelude.{
  ℕ, ◌≤◌, ◌≡◌, refl, ap, ◌∙◌, false, Option, none, some, List, [], ◌∷◌, map, length, take, All,
  length-take, arith, ltb-false, ◌==◌, ==_refl,
}
use dkms.Prelude.Assoc.{nat_keys, lookup, remove, lookup-remove}
use dkms.Prelude.Bytes.{Bytes}
use dkms.Prelude.Outcome.{ok}
use dkms.Qkc.Crypto.{find_key, material_of}
use dkms.Qkc.Crypto.RoundTrip.{IsHeld, ids_of}
use dkms.Qkc.KeyStore.{OtpKey, KeyStore, take_enc_batch, lookup_dec}
use dkms.Qkc.KeyStore.Ring.{pop_batch_lem}
use dkms.Qkc.KeyStore.Wait.{Answers, wait_enc_batch, enc_rounds}
use dkms.Qkc.Relay.{take_or_fetch_enc, of_wait, lookup_or_fetch_dec, fetch_missing, parse_key_ids}

batch_taken : (ks : KeyStore) (n : ℕ) → (take_enc_batch ks n).1 ≡ take n ks.enc
unfolding take_enc_batch
batch_taken ks n = ap (λ (r : List OtpKey × List OtpKey). r.1) (pop_batch_lem ks.enc n)

rounds_done :
    (n : ℕ) (later : List (List OtpKey)) (held : KeyStore × List OtpKey)
    → n ≤ length held.1
    → enc_rounds n later held ≡ (held.0, ok held.1)
unfolding enc_rounds
rounds_done n [] held l = rw (ltb-false (length held.1) n l)
rounds_done n (keys ∷ later) held l = rw (ltb-false (length held.1) n l)

-- Where the ring holds enough keys, the first ones are taken at once.
pub take_or_fetch_enc_held :
    (later : List (List OtpKey)) (n : ℕ) (ks : KeyStore)
    → n ≤ length ks.enc
    → (take_or_fetch_enc later n ks).1 ≡ ok (take n ks.enc)
unfolding take_or_fetch_enc wait_enc_batch of_wait
take_or_fetch_enc_held later n ks l =
    let enough : n ≤ length (take_enc_batch ks n).1 =
      omega (arith, ap length (batch_taken ks n), length-take n ks.enc) in
    rw (rounds_done n later (take_enc_batch ks n) enough) (ap ok (batch_taken ks n))

-- No two of the keys have the same id.
abbrev pub AreDistinct : List OtpKey → Type 0
AreDistinct [] = Unit
AreDistinct (k ∷ ks) = All (λ (j : OtpKey). (k.key_id == j.key_id) ≡ false) ks × AreDistinct ks

-- Each of the keys is held to decrypt with.
abbrev pub AreReady : List OtpKey → KeyStore → Type 0
AreReady keys s = All (λ (k : OtpKey). lookup k.key_id s.dec ≡ some k.material) keys

dec-lookup_dec :
    (s : KeyStore) (id : ℕ) (v : Bytes)
    → lookup id s.dec ≡ some v
    → ((lookup_dec s id).1 ≡ some v) × ((lookup_dec s id).0.dec ≡ remove id s.dec)
unfolding lookup_dec
dec-lookup_dec s id v h = (rw (lookup_dec, h), rw (lookup_dec, h))

still_ready :
    (k : OtpKey) (keys : List OtpKey) (s s' : KeyStore)
    → All (λ (j : OtpKey). (k.key_id == j.key_id) ≡ false) keys
    → s'.dec ≡ remove k.key_id s.dec
    → AreReady keys s
    → AreReady keys s'
still_ready k [] s s' d e r = tt
still_ready k (j ∷ keys) s s' d e r = (
  rw e (lookup-remove k.key_id j.key_id s.dec ∙ rw (d.0) (r.0)),
  still_ready k keys s s' d.1 e r.1,
)

found_lem :
    (id : ℕ) (later : Answers) (r : KeyStore × Option (List ℕ)) (v : Bytes)
    → r.1 ≡ some v
    → fetch_missing id later r ≡ (r.0, ok v)
unfolding fetch_missing
found_lem id later (s, none) v h = cc
found_lem id later (s, some w) v h = ap (λ (o : Option Bytes). fetch_missing id later (s, o)) h

-- Keys that are held are found in their order.
pub lookup_or_fetch_dec_held :
    (later : ℕ → Answers) (keys : List OtpKey) (s : KeyStore)
    → AreDistinct keys
    → AreReady keys s
    → (lookup_or_fetch_dec later (ids_of keys) s).1 ≡ ok keys
unfolding lookup_or_fetch_dec
lookup_or_fetch_dec_held later [] s d r = refl
lookup_or_fetch_dec_held later (k ∷ keys) s d r =
    let (found, left) = dec-lookup_dec s k.key_id k.material r.0 in
    let s' = (lookup_dec s k.key_id).0 in
    let rest = lookup_or_fetch_dec_held later keys s' d.1 (still_ready k keys s s' d.0 left r.1) in
    let first = found_lem k.key_id (later k.key_id) (lookup_dec s k.key_id) k.material found in
    rw (lookup_or_fetch_dec, first, first, rest)

module _ (parse_uuid : Bytes → Option ℕ) (uuid_text : ℕ → Bytes)
    (reads : (id : ℕ) → parse_uuid (uuid_text id) ≡ some id) where
  pub parse_key_ids-map : (ids : List ℕ) → parse_key_ids parse_uuid (map uuid_text ids) ≡ ok ids
  unfolding parse_key_ids
  parse_key_ids-map [] = refl
  parse_key_ids-map (id ∷ ids) = rw (parse_key_ids, reads id, parse_key_ids-map ids)

own_rest :
    (n : ℕ) (k : OtpKey) (keys js : List OtpKey)
    → All (λ (j : OtpKey). (k.key_id == j.key_id) ≡ false) js
    → All (IsHeld n (find_key keys)) js
    → All (IsHeld n (find_key (k ∷ keys))) js
unfolding find_key
own_rest n k keys [] d h = tt
own_rest n k keys (j ∷ js) d h = ((h.0.0, rw (d.0) (h.0.1)), own_rest n k keys js d.1 h.1)

find_key_own :
    (n : ℕ) (keys : List OtpKey)
    → AreDistinct keys
    → All (λ (k : OtpKey). length k.material ≡ n) keys
    → All (IsHeld n (find_key keys)) keys
unfolding find_key
find_key_own n [] d l = tt
find_key_own n (k ∷ keys) d l =
    ((l.0, rw (==_refl k.key_id)), own_rest n k keys keys d.0 (find_key_own n keys d.1 l.1))

few_material : (keys : List OtpKey) → length keys ≤ 8 → material_of keys ≡ find_key keys
unfolding material_of
few_material keys l = fun_ext (λ id. rw (ltb-false 8 (length keys) l))

-- A few keys with distinct ids are found among themselves.
pub material_of_own :
    (n : ℕ) (keys : List OtpKey)
    → length keys ≤ 8
    → AreDistinct keys
    → All (λ (k : OtpKey). length k.material ≡ n) keys
    → All (IsHeld n (material_of keys)) keys
material_of_own n keys l d sizes = rw (few_material keys l) (find_key_own n keys d sizes)
