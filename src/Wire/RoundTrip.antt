-- ===== src/Wire/RoundTrip.antt =====
-- On `write_frame` and `read_frame` of wire/src/lib.rs.
mod Parts
mod Stream
use mathlib.Core.List.{flatten}
use dkms.Prelude.{
  ℕ, ◌+◌, ◌*◌, ◌%◌, ◌^◌, ◌<◌, ◌≤◌, ◌≡◌, refl, sym, ap, ◌∙◌, Bool, true, false, List, [], ◌∷◌, ◌++◌,
  arith, length, All, all, ltb, ltb-false, length-append, append_assoc, append-nil, ◌==◌,
}
use dkms.Prelude.Bytes.{Bytes, le_bytes, be_bytes, length-le_bytes, length-be_bytes}
use dkms.Prelude.Outcome.{Outcome, ok, err}
use dkms.Wire.Frame.{Frame, IsTyped, max_total_len, fixed_prefix}
use dkms.Wire.Cursor.{get_le-le_bytes, get_be-be_bytes, copy_to_slice_all, read_exact-append}
use dkms.Wire.Encode.{
  first_len, total_len, body_len, validate_for_encode, encode_body, encode, write_frame,
}
use dkms.Wire.Decode.{decode_body, read_frame, read_key_ids, read_lp16, read_body}
use Parts.{
  read_lp16-append, read_key_ids-flatten, length-encode_body, Fits, write_frame-ok, validate-Fits,
  cut_len, tail_bytes, ids_present, length-payload_part, body_len_ge, body_len-total_len,
}
pub use Stream.{read_body_lem}
pub use Parts.{length-flatten}
use Stream.{
  read_body-append, prefix, encode-prefix, announced, length-prefix, prefix-magic, prefix_bytes,
}

module _ (is_utf8 : Bytes → Bool) where
  decode_body-encode_body :
      (f : Frame)
      → IsTyped f
      → Fits f
      → All (λ k. is_utf8 k ≡ true) f.key_ids
      → decode_body is_utf8 (encode_body f) ≡ ok (record f { kind = 0; grade = 0 })
  unfolding decode_body
  decode_body-encode_body f t v u =
      let c : length f.key_ids % 256 ≡ length f.key_ids = omega (arith, v.count) in
      let p : length f.payload % 2 ^ 32 ≡ length f.payload =
        omega (arith, v.total, body_len_ge f, body_len-total_len f v) in
      let q = length-payload_part f in
      rw
        (ltb-false (length (encode_body f)) 20
          (omega (arith, length-encode_body f v, body_len_ge f)))
        (unfold encode_body in
          rw (
            get_le-le_bytes _ 4 f.sender_id t.sender_id,
            get_le-le_bytes _ 4 f.receiver_id t.receiver_id,
            get_le-le_bytes _ 4 f.dest_final t.dest_final,
            get_le-le_bytes _ 2 f.key_size_bits t.key_size_bits,
            get_be-be_bytes _ 4 f.epoch_id t.epoch_id,
            get_le-le_bytes _ 1 (length f.key_ids % 256) (omega arith),
            get_le-le_bytes _ 1 (first_len f.key_ids % 256) (omega arith),
            c,
            cut_len f v,
            ltb-false (length (flatten f.key_ids ++ tail_bytes f))
                (length f.key_ids * first_len f.key_ids + 2) (omega (arith, ids_present f v)),
            read_key_ids-flatten is_utf8 (first_len f.key_ids) f.key_ids (tail_bytes f) v.uniform u,
            read_lp16-append "header_orr" f.header_orr_mp _ v.header_orr,
            read_lp16-append "header_dkms" f.header_dkms_mp _ v.header_dkms,
            ltb-false (length (le_bytes 4 (length f.payload % 2 ^ 32) ++ f.payload)) 4
                (omega (arith, q)),
            get_le-le_bytes f.payload 4 (length f.payload % 2 ^ 32) (omega arith),
            p,
            ltb-false (length f.payload) (length f.payload) (omega arith),
            copy_to_slice_all f.payload,
          ))

  -- A frame within the ranges of its types, whose key ids are text, is read back whole from what
  -- `write_frame` puts on the stream, and what follows it on the stream is left for the next read.
  pub read_frame-write_frame :
      (f : Frame) (sent rest : Bytes)
      → IsTyped f
      → All (λ k. is_utf8 k ≡ true) f.key_ids
      → write_frame f ≡ ok sent
      → read_frame is_utf8 (sent ++ rest) ≡ ok (f, rest)
  unfolding read_frame
  read_frame-write_frame f sent rest t u h =
      let (v, e) = write_frame-ok f h in
      let k : f.kind % 256 ≡ f.kind = omega (arith, t.kind) in
      let g : f.grade % 256 ≡ f.grade = omega (arith, t.grade) in
      let fits : body_len f ≤ max_total_len = omega (arith, v.total, body_len-total_len f v) in
      let n : body_len f % 2 ^ 32 ≡ body_len f = omega arith in
      rw (e, encode-prefix f rest)
        (rw (read_exact-append (encode_body f ++ rest) (prefix f) (length-prefix f), prefix-magic f)
          (rw (announced f, n)
            (rw (ltb-false max_total_len (body_len f) fits) (
              rw (read_body-append (encode_body f) rest (length-encode_body f v)) (
                rw (decode_body-encode_body f t v u)
                  (rw ((prefix_bytes f).0, (prefix_bytes f).1, k, g)))))))
