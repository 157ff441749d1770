-- ===== src/Qkc/PqcSource/Derive.antt =====
-- On `derive_material` and the ids of keys of qkc/src/pqc_source.rs.
use dkms.Prelude.{
  ℕ, zero, suc, ◌+◌, ◌-◌, ◌*◌, some, Option, ◌%◌, ◌^◌, ◌<◌, ◌≤◌, ◌≡◌, refl, [], ◌++◌, length,
  length-append, arith, min, leb, ◌==◌, false, inl, inr, Bool-cases,
}
use dkms.Prelude.Bytes.{Bytes, be_bytes}
use dkms.Prelude.Outcome.{ok}
use dkms.Qkc.PqcSource.{
  expect_expand, derive_in, derive_material, hkdf_max_output, epoch_of, make_key_id,
}

pub epoch_of-make_key_id : (epoch uuid : ℕ) → epoch_of (make_key_id epoch uuid) ≡ epoch
unfolding epoch_of make_key_id
epoch_of-make_key_id epoch uuid = omega arith

module _ (expand : Bytes → Bytes → ℕ → Option Bytes)
    (expands : (secret info : Bytes) (n : ℕ)
      → n ≤ 255 * 32
      → (okm : Bytes) × (expand secret info n ≡ some okm) × (length okm ≡ n)) where
  derive_in_total :
      (rounds : ℕ) (secret info : Bytes) (left chunk_idx : ℕ)
      → left ≤ rounds
      → chunk_idx + left < 2 ^ 32
      → (out : Bytes) × (derive_in expand rounds secret info left chunk_idx ≡ ok out)
        × (length out ≡ left)
  unfolding derive_in expect_expand
  derive_in_total zero secret info left chunk_idx l b = ([], refl, omega arith)
  derive_in_total (suc rounds) secret info left chunk_idx l b = elim (Bool-cases (left == 0)) [
    | inl e ↦ ([], rw e, ground arith)
    | inr e ↦
        let n = min left hkdf_max_output in
        let pos : 0 < left = ground arith in
        let small : leb (2 ^ 32) (chunk_idx + 1) ≡ false = ground arith in
        let (okm, given, count) = expands secret (info ++ be_bytes 4 chunk_idx) n (omega arith) in
        let (out, done, same) =
          derive_in_total rounds secret info (left - n) (chunk_idx + 1) (omega arith)
            (omega arith) in
        (
          okm ++ out,
          rw (e, expect_expand, given, small, done),
          omega (arith, length-append okm out, count, same),
        )
  ]

  -- Where HKDF gives as many bytes as it is asked for, up to 255 * 32, the loop ends for every length
  -- below 2 ^ 32 without a panic and gives that many bytes: neither does it ask HKDF for more at
  -- once, nor does the number of a chunk overflow.
  pub derive_material_total :
      (secret : Bytes) (key_id len : ℕ)
      → len < 2 ^ 32
      → (out : Bytes) × (derive_material expand secret key_id len ≡ ok out) × (length out ≡ len)
  unfolding derive_material
  derive_material_total secret key_id len h =
      derive_in_total len secret (be_bytes 16 key_id ++ be_bytes 4 (len % 2 ^ 32)) len 0
        (omega arith) (omega arith)
