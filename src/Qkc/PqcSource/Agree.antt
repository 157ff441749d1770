-- ===== src/Qkc/PqcSource/Agree.antt =====
-- On `enc_keys` at one end and `dec_keys` at the other of qkc/src/pqc_source.rs.
use dkms.Prelude.{
  ℕ, suc, ◌+◌, ◌^◌, ◌*◌, ◌≤◌, ◌<◌, ◌≡◌, refl, sym, ap, ◌∙◌, Option, none, some, List, [], ◌∷◌, map,
  length, All, arith, false, ltb, inl, inr, Bool-cases,
}
use dkms.Prelude.Assoc.{nat_keys, lookup}
use dkms.Prelude.Bytes.{Bytes}
use dkms.Prelude.Outcome.{ok}
use dkms.Prelude.Sets.{contains}
use dkms.Qkc.KeyStore.{OtpKey}
use dkms.Prelude.Epochs.{Secrets, first_epoch, IsSorted}
use dkms.Prelude.Epochs.Lookup.{lookup-Above}
use dkms.Qkc.SecretStore.{SecretStore, get, highest, lowest}
use dkms.Qkc.SecretStore.Window.{IsValid}
use dkms.Qkc.PqcSource.{
  PqcKeySource, Arrivals, active_epoch, await_any, await_epoch, derive_key, epoch_of, is_below,
  make_key_id, make_keys, max_of, resync_if,
}
use dkms.Qkc.PqcSource.Derive.{derive_material_total, epoch_of-make_key_id}
use dkms.Qkc.PqcSource.Keys.{enc_from, enc_at, enc_keys, dec_found, dec_one, dec_each, dec_keys}

-- An epoch that is held is not below the lowest.
nothing : {v : Bytes} → some v ≡ none → ⊥
nothing h = cc

held_in_window :
    (m : Secrets) (e : ℕ) (v : Bytes)
    → IsSorted m
    → lookup e m ≡ some v
    → is_below e (first_epoch m) ≡ false
unfolding is_below first_epoch
held_in_window [] e v a h = refl
held_in_window ((j, w) ∷ m) e v a h = elim (Bool-cases (ltb e j)) [
  | inr n ↦ n
  | inl l ↦
      absurd (nothing (sym h ∙ lookup-Above (e + 0) e ((j, w) ∷ m) (ground arith, a) (omega arith)))
]

window_held :
    (t : SecretStore) (e : ℕ) (v : Bytes)
    → IsValid t
    → get t e ≡ some v
    → is_below e (lowest t) ≡ false
unfolding get lowest
window_held t e v i h = held_in_window t.inner e v i.sorted h

await_held :
    (s : SecretStore) (epoch : ℕ) (later : Arrivals) (secret : Bytes)
    → get s epoch ≡ some secret
    → await_epoch s epoch later ≡ ((s, later), some secret)
unfolding await_epoch
await_held s epoch [] secret h = rw h
await_held s epoch ((e, v) ∷ later) secret h = rw (await_epoch, h)

await_any_held :
    (s : SecretStore) (later : Arrivals) (high : ℕ)
    → highest s ≡ some high
    → await_any s later ≡ ((s, later), some high)
unfolding await_any
await_any_held s [] high h = rw h
await_any_held s ((e, v) ∷ later) high h = rw (await_any, h)

-- What is asked of the other end, each id with what comes while it is waited for.
abbrev pub asked : (OtpKey → Arrivals) → List OtpKey → List (ℕ × Arrivals)
asked waits keys = map (λ (k : OtpKey). (k.key_id, waits k)) keys

module _ (expand : Bytes → Bytes → ℕ → Option Bytes)
    (expands : (secret info : Bytes) (n : ℕ)
      → n ≤ 255 * 32
      → (okm : Bytes) × (expand secret info n ≡ some okm) × (length okm ≡ n))
    (p q : PqcKeySource) (same_size : q.key_bytes ≡ p.key_bytes) (small : p.key_bytes < 2 ^ 32)
    (waits : OtpKey → Arrivals) where
  derive_key_total :
      (secret : Bytes) (id : ℕ)
      → (k : OtpKey) × (derive_key expand p secret id ≡ ok k)
        × (k.key_id ≡ id)
        × (length k.material ≡ p.key_bytes)
        × (derive_key expand q secret id ≡ ok k)
  unfolding derive_key
  derive_key_total secret id =
      let (out, done, same) = derive_material_total expand expands secret id p.key_bytes small in
      (record { key_id = id; material = out }, rw done, refl, same, rw (same_size, done))

  dec_one_held :
      (t : SecretStore) (secret : Bytes) (id : ℕ) (later : Arrivals) (k : OtpKey)
      → is_below (epoch_of id) (lowest t) ≡ false
      → get t (epoch_of id) ≡ some secret
      → derive_key expand q secret id ≡ ok k
      → dec_one expand q (lowest t) t [] id later ≡ ((t, []), ok (k ∷ []))
  unfolding dec_one dec_found contains
  dec_one_held t secret id later k b g made =
      rw (b, await_held t (epoch_of id) later secret g, made)

  keys_agree :
      (t : SecretStore) (secret : Bytes) (epoch : ℕ) (uuids : List ℕ)
      → is_below epoch (lowest t) ≡ false
      → get t epoch ≡ some secret
      → (keys : List OtpKey) × (make_keys expand p secret epoch uuids ≡ ok keys)
        × (length keys ≡ length uuids)
        × All (λ (k : OtpKey). length k.material ≡ p.key_bytes) keys
        × (dec_each expand q (lowest t) (t, []) (asked waits keys) ≡ ((t, []), ok keys))
  unfolding make_keys dec_each
  keys_agree t secret epoch [] b g = ([], refl, refl, tt, refl)
  keys_agree t secret epoch (uuid ∷ uuids) b g =
      let (k, made, id, size, other) = derive_key_total secret (make_key_id epoch uuid) in
      let (keys, done, count, sizes, rest) = keys_agree t secret epoch uuids b g in
      let at : epoch_of k.key_id ≡ epoch = ap epoch_of id ∙ epoch_of-make_key_id epoch uuid in
      (
        k ∷ keys,
        rw (made, done),
        ap suc count,
        (size, sizes),
        rw (dec_one_held t secret k.key_id (waits k) k (rw at b) (rw at g) (rw id other), rest),
      )

  dec_keys_lem :
      (t : SecretStore) (ids : List (ℕ × Arrivals)) (keys : List OtpKey)
      → dec_each expand q (lowest t) (t, []) ids ≡ ((t, []), ok keys)
      → dec_keys expand q t ids ≡ (t, ok keys)
  unfolding dec_keys dec_each max_of resync_if
  dec_keys_lem t [] keys e = ap (λ r. (r.0.0, r.1)) e
  dec_keys_lem t (id ∷ ids) keys e = ap (λ r. (resync_if r.0.0 (max_of r.0.1), r.1)) e

  -- Where HKDF gives as many bytes as it is asked for, up to 255 * 32: two ends with keys of the
  -- same size below 2 ^ 32 bytes; where the one holds some epoch and the
  -- secret of its active epoch, it makes as many keys as it draws UUIDs, each of that size; and the
  -- other, where it keeps the invariant of its store and has the same secret for that epoch, derives
  -- from their ids the same keys in the same order, without a wait and without a change.
  pub dec_keys-enc_keys :
      (s t : SecretStore) (high : ℕ) (secret : Bytes) (later : Arrivals) (uuids : List ℕ)
      → highest s ≡ some high
      → get s (active_epoch p s high) ≡ some secret
      → IsValid t
      → get t (active_epoch p s high) ≡ some secret
      → (keys : List OtpKey) × ((enc_keys expand p s later uuids).2 ≡ ok keys)
        × (length keys ≡ length uuids)
        × All (λ (k : OtpKey). length k.material ≡ p.key_bytes) keys
        × (dec_keys expand q t (asked waits keys) ≡ (t, ok keys))
  unfolding enc_keys enc_at enc_from dec_keys
  dec_keys-enc_keys s t high secret later [] h g v o = ([], refl, refl, tt, refl)
  dec_keys-enc_keys s t high secret later (uuid ∷ uuids) h g v o =
      let epoch = active_epoch p s high in
      let (keys, made, count, sizes, derived) =
        keys_agree t secret epoch (uuid ∷ uuids) (window_held t epoch secret v o) o in
      (
        keys,
        rw (await_any_held s later high h, await_held s epoch later secret g, enc_from, made),
        count,
        sizes,
        dec_keys_lem t (asked waits keys) keys derived,
      )
