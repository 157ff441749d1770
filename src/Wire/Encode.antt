-- ===== src/Wire/Encode.antt =====
-- wire/src/lib.rs: `validate_for_encode`, `encode` and `write_frame`.
use mathlib.Core.List.{flatten}
use dkms.Prelude.{ℕ, ◌+◌, ◌*◌, ◌%◌, ◌^◌, not, List, [], ◌∷◌, ◌++◌, all, length, ltb, ◌==◌}
use dkms.Prelude.Bytes.{Bytes, le_bytes, be_bytes}
use dkms.Prelude.Outcome.{ok, refuse_if, ◌>>◌}
use dkms.Wire.Frame.{Frame, Io, field_too_long, too_large, fixed_prefix, max_total_len, magic}

-- `self.key_ids.first().map_or(0, |s| s.len())`
unfoldable pub first_len : List Bytes → ℕ
first_len [] = 0
first_len (k ∷ ks) = length k

unfoldable pub total_len : Frame → ℕ
total_len f =
    fixed_prefix
    + 4
    + 4
    + 4
    + 2
    + 4
    + 1
    + 1
    + first_len f.key_ids * length f.key_ids
    + 2
    + length f.header_orr_mp
    + 2
    + length f.header_dkms_mp
    + 4
    + length f.payload

unfoldable pub validate_for_encode : Frame → Io (Unit {0})
validate_for_encode f = do
  let key_id_len = first_len f.key_ids
  refuse_if (ltb 255 (length f.key_ids)) (field_too_long "key_ids count")
  refuse_if (ltb 255 key_id_len) (field_too_long "key_id length")
  refuse_if (not (all (λ k. length k == key_id_len) f.key_ids))
      (field_too_long "non-uniform key_id length")
  refuse_if (ltb 65535 (length f.header_orr_mp)) (field_too_long "header_orr_mp")
  refuse_if (ltb 65535 (length f.header_dkms_mp)) (field_too_long "header_dkms_mp")
  refuse_if (ltb max_total_len (total_len f)) (too_large (total_len f % 2 ^ 32))

-- `key_id_len` is cut to a `u8`, as the source casts it.
unfoldable pub body_len : Frame → ℕ
body_len f =
    4
    + 4
    + 4
    + 2
    + 4
    + 1
    + 1
    + first_len f.key_ids % 256 * length f.key_ids
    + 2
    + length f.header_orr_mp
    + 2
    + length f.header_dkms_mp
    + 4
    + length f.payload

-- Each cast `as u8`, `as u16`, `as u32` of a length is a `%`.
unfoldable pub encode_body : Frame → Bytes
encode_body f =
    le_bytes 4 f.sender_id
    ++ (le_bytes 4 f.receiver_id
        ++ (le_bytes 4 f.dest_final
            ++ (le_bytes 2 f.key_size_bits
                ++ (be_bytes 4 f.epoch_id
                    ++ (le_bytes 1 (length f.key_ids % 256)
                        ++ (le_bytes 1 (first_len f.key_ids % 256)
                            ++ (flatten f.key_ids
                                ++ (le_bytes 2 (length f.header_orr_mp % 2 ^ 16)
                                    ++ (f.header_orr_mp
                                        ++ (le_bytes 2 (length f.header_dkms_mp % 2 ^ 16)
                                            ++ (f.header_dkms_mp
                                                ++ (le_bytes 4 (length f.payload % 2 ^ 32)
                                                    ++ f.payload))))))))))))

unfoldable pub encode : Frame → Bytes
encode f =
    magic
    ++ (le_bytes 1 f.kind
        ++ (le_bytes 1 f.grade ++ (le_bytes 4 (body_len f % 2 ^ 32) ++ encode_body f)))

-- What `write_frame` puts on the stream.
unfoldable pub write_frame : Frame → Io Bytes
write_frame f = do validate_for_encode f; ok (encode f)
