-- ===== src/Qkc/Tests/Secrets.antt =====
-- Secrets, keys and ciphertexts on which the theorems about the pad of a link are used.
use dkms.Prelude.{
  ℕ, ◌*◌, ◌≤◌, Option, false, ltb, if◌then◌else◌, ◌≡◌, refl, none, some, List, [], ◌∷◌, length, All,
  replicate, length-replicate, arith,
}
use dkms.Prelude.Assoc.{nat_keys, lookup}
use dkms.Prelude.Bytes.{Bytes}
use dkms.Prelude.Outcome.{ok}
use dkms.Qkc.Crypto.{num_chunks, material_of, find_key}
use dkms.Qkc.Crypto.RoundTrip.{IsHeld, IsCarried, decrypt-encrypt}
use dkms.Qkc.KeyStore.{OtpKey}
use dkms.Prelude.Epochs.{last_epoch, first_epoch}
use dkms.Qkc.SecretStore.{SecretStore, get, highest, lowest}
use dkms.Qkc.SecretStore.Window.{IsValid}
use dkms.Qkc.PqcSource.{PqcKeySource, Arrivals, active_epoch, derive_material}
use dkms.Qkc.PqcSource.Derive.{derive_material_total}
use dkms.Qkc.PqcSource.Keys.{enc_keys, dec_keys}
use dkms.Qkc.PqcSource.Agree.{asked, dec_keys-enc_keys}

abbrev pub key_7 : OtpKey
key_7 = record { key_id = 7; material = 1 ∷ 2 ∷ [] }

abbrev pub key_8 : OtpKey
key_8 = record { key_id = 8; material = 3 ∷ 4 ∷ [] }

abbrev keys : List OtpKey
keys = key_7 ∷ key_8 ∷ []

abbrev bytes : Bytes
bytes = 9 ∷ 9 ∷ 9 ∷ []

abbrev held : List OtpKey
held = key_8 ∷ key_7 ∷ []

keys_held : All (IsHeld 2 (material_of held)) keys
unfolding material_of find_key
keys_held = ((refl, refl), ((refl, refl), tt))

two_chunks : num_chunks (length bytes) 2 ≡ ok 2
unfolding num_chunks
two_chunks = refl

decrypt-encrypt_example : (r : Bytes × List ℕ) × IsCarried bytes keys held 2 2 r
decrypt-encrypt_example =
    decrypt-encrypt bytes keys held 2 2 (omega arith) two_chunks (omega arith) keys_held

abbrev store : SecretStore
store = record { inner = (3, 30 ∷ []) ∷ (4, 40 ∷ []) ∷ []; keep = 2; resync_epoch = 0 }

store-IsValid : IsValid store
store-IsValid = omega arith

-- As many bytes as are asked for, all of one value, but 8160 at most.
abbrev expand : Bytes → Bytes → ℕ → Option Bytes
expand secret info n = if ltb 8160 n then none else some (replicate n 5)

expands :
    (secret info : Bytes) (n : ℕ)
    → n ≤ 255 * 32
    → (okm : Bytes) × (expand secret info n ≡ some okm) × (length okm ≡ n)
expands secret info n h =
    let small : ltb 8160 n ≡ false = ground arith in (replicate n 5, rw small, length-replicate n 5)

derive_material_total_example :
    (out : Bytes) × (derive_material expand (1 ∷ []) 7 9000 ≡ ok out) × (length out ≡ 9000)
derive_material_total_example = derive_material_total expand expands (1 ∷ []) 7 9000 (omega arith)

abbrev source : PqcKeySource
source = record { key_bytes = 2; lookahead = 1; clock = none }

abbrev uuids : List ℕ
uuids = 1 ∷ 2 ∷ []

abbrev waits : OtpKey → Arrivals
waits k = []

highest_4 : highest store ≡ some 4
unfolding highest last_epoch
highest_4 = refl

active_3 : get store (active_epoch source store 4) ≡ some (30 ∷ [])
unfolding get active_epoch lowest first_epoch lookup
active_3 = refl

dec_keys-enc_keys_example :
    (ks : List OtpKey) × ((enc_keys expand source store [] uuids).2 ≡ ok ks)
    × (length ks ≡ length uuids)
    × All (λ (k : OtpKey). length k.material ≡ source.key_bytes) ks
    × (dec_keys expand source store (asked waits ks) ≡ (store, ok ks))
dec_keys-enc_keys_example =
    dec_keys-enc_keys expand expands source source refl (omega arith) waits store store 4 (30 ∷ [])
      [] uuids highest_4 active_3 store-IsValid active_3
