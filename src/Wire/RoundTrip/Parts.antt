-- ===== src/Wire/RoundTrip/Parts.antt =====
-- On the parts of a frame of wire/src/lib.rs and their readers.
use mathlib.Core.List.{flatten}
use dkms.Prelude.{
  ℕ, ◌+◌, ◌*◌, ◌%◌, ◌^◌, ◌≤◌, ◌≡◌, refl, ap, Bool, true, String, List, [], ◌∷◌, ◌++◌, arith, length,
  All, all, ltb-false, length-append, append_assoc, ◌==◌,
}
use dkms.Prelude.Bytes.{Bytes, le_bytes, length-le_bytes, length-be_bytes}
use dkms.Prelude.Outcome.{ok, >>=-eq-ok}
use dkms.Wire.Frame.{Frame, max_total_len, fixed_prefix}
use dkms.Wire.Cursor.{get_le-le_bytes, copy_to_slice-append}
use dkms.Wire.Encode.{
  first_len, total_len, body_len, validate_for_encode, encode_body, encode, write_frame,
}
use dkms.Wire.Decode.{read_key_ids, read_lp16}

-- What `validate_for_encode` checks.
pub record Fits (f : Frame) : Type 0 where
  pub count : length f.key_ids ≤ 255
  pub key_id : first_len f.key_ids ≤ 255
  pub uniform : All (λ k. length k ≡ first_len f.key_ids) f.key_ids
  pub header_orr : length f.header_orr_mp ≤ 65535
  pub header_dkms : length f.header_dkms_mp ≤ 65535
  pub total : total_len f ≤ max_total_len

all-All :
    (n : ℕ) (ks : List Bytes) → all (λ k. length k == n) ks ≡ true → All (λ k. length k ≡ n) ks
all-All n [] h = tt
all-All n (k ∷ ks) h = (ground arith, all-All n ks (ground arith))

pub validate-Fits : (f : Frame) {u : Unit {0}} → validate_for_encode f ≡ ok u → Fits f
unfolding validate_for_encode
validate-Fits f h = record {
  count = ground arith;
  key_id = ground arith;
  uniform = all-All (first_len f.key_ids) f.key_ids (ground arith);
  header_orr = ground arith;
  header_dkms = ground arith;
  total = ground arith;
}

pub write_frame-ok :
    (f : Frame) {sent : Bytes} → write_frame f ≡ ok sent → Fits f × (sent ≡ encode f)
unfolding write_frame
write_frame-ok f h =
    let (u, checked, e) = >>=-eq-ok (validate_for_encode f) (λ _. ok (encode f)) h in
    (validate-Fits f checked, cc)

pub length-flatten :
    (n : ℕ) (ks : List Bytes) → All (λ k. length k ≡ n) ks → length (flatten ks) ≡ n * length ks
unfolding flatten
length-flatten n [] h = omega arith
length-flatten n (k ∷ ks) h =
    omega (arith, length-append k (flatten ks), length-flatten n ks h.1, h.0)

pub read_lp16-append :
    (what : String) (h rest : Bytes)
    → length h ≤ 65535
    → read_lp16 what (le_bytes 2 (length h % 2 ^ 16) ++ (h ++ rest)) ≡ ok (h, rest)
unfolding read_lp16
read_lp16-append what h rest fits =
    let e : length h % 2 ^ 16 ≡ length h = omega arith in
    rw e (
      rw (
        ltb-false (length (le_bytes 2 (length h) ++ (h ++ rest))) 2 (
            omega (
              arith,
              length-append (le_bytes 2 (length h)) (h ++ rest),
              length-le_bytes 2 (length h),
            )),
        get_le-le_bytes (h ++ rest) 2 (length h) (omega arith),
        ltb-false (length (h ++ rest)) (length h) (omega (arith, length-append h rest)),
        copy_to_slice-append rest h refl,
      ))

module _ (is_utf8 : Bytes → Bool) where
  pub read_key_ids-flatten :
      (n : ℕ) (ks : List Bytes) (rest : Bytes)
      → All (λ k. length k ≡ n) ks
      → All (λ k. is_utf8 k ≡ true) ks
      → read_key_ids is_utf8 (length ks) n (flatten ks ++ rest) ≡ ok (ks, rest)
  unfolding read_key_ids flatten
  read_key_ids-flatten n [] rest h u = refl
  read_key_ids-flatten n (k ∷ ks) rest h u = rw (append_assoc k (flatten ks) rest) (
      rw (copy_to_slice-append (flatten ks ++ rest) k h.0, u.0)
        (rw (read_key_ids-flatten n ks rest h.1 u.1)))

pub cut_len : (f : Frame) → Fits f → first_len f.key_ids % 256 ≡ first_len f.key_ids
cut_len f v = omega (arith, v.key_id)

pub length-encode_body : (f : Frame) → Fits f → length (encode_body f) ≡ body_len f
unfolding encode_body body_len
length-encode_body f v =
    simp (length-append, length-le_bytes, length-be_bytes)
      (omega (
        arith,
        length-flatten (first_len f.key_ids) f.key_ids v.uniform,
        ap (λ (t : ℕ). t * length f.key_ids) (cut_len f v),
      ))

-- What stands behind the key ids' lengths.
abbrev pub tail_bytes : Frame → Bytes
tail_bytes f =
    le_bytes 2 (length f.header_orr_mp % 2 ^ 16)
    ++ (f.header_orr_mp
        ++ (le_bytes 2 (length f.header_dkms_mp % 2 ^ 16)
            ++ (f.header_dkms_mp ++ (le_bytes 4 (length f.payload % 2 ^ 32) ++ f.payload))))

pub length-tail_bytes : (f : Frame) → 8 ≤ length (tail_bytes f)
length-tail_bytes f = simp (length-append, length-le_bytes) (omega arith)

pub length-payload_part :
    (f : Frame)
    → length (le_bytes 4 (length f.payload % 2 ^ 32) ++ f.payload) ≡ 4 + length f.payload
length-payload_part f = simp (length-append, length-le_bytes)

pub ids_present :
    (f : Frame)
    → Fits f
    → first_len f.key_ids * 0 + length f.key_ids * first_len f.key_ids + 2
      ≤ length (flatten f.key_ids ++ tail_bytes f)
ids_present f v = omega (
  arith,
  length-append (flatten f.key_ids) (tail_bytes f),
  length-tail_bytes f,
  length-flatten (first_len f.key_ids) f.key_ids v.uniform,
)

-- The announced length is what the writer's limit counts, less the prefix.
pub body_len-total_len : (f : Frame) → Fits f → body_len f + fixed_prefix ≡ total_len f
unfolding body_len total_len
body_len-total_len f v = omega (arith, ap (λ (t : ℕ). t * length f.key_ids) (cut_len f v))

pub body_len_ge : (f : Frame) → 28 + length f.payload ≤ body_len f
unfolding body_len
body_len_ge f = omega arith
