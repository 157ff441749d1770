-- ===== src/Wire/Notify/RoundTrip.antt =====
-- On `encode_notify_payload` and `decode_notify_payload` of wire/src/lib.rs.
use mathlib.Core.List.{flatten}
use dkms.Prelude.{
  ◌+◌, ◌*◌, ◌%◌, ◌^◌, ◌<◌, ◌≡◌, refl, List, [], ◌∷◌, ◌++◌, arith, length, All, ltb-false,
  length-append, append_assoc, take-append, drop-append,
}
use dkms.Prelude.Bytes.{Bytes, le_bytes, length-le_bytes, from_le-le_bytes}
use dkms.Prelude.Outcome.{ok}
use dkms.Wire.Cursor.{copy_to_slice-append}
use dkms.Wire.RoundTrip.{length-flatten}
use dkms.Wire.Notify.{encode_notify_payload, decode_notify_payload, read_ids}

read_ids-flatten :
    (ids : List Bytes) (rest : Bytes)
    → All (λ id. length id ≡ 16) ids
    → read_ids (length ids) (flatten ids ++ rest) ≡ ok ids
unfolding read_ids flatten
read_ids-flatten [] rest h = refl
read_ids-flatten (id ∷ ids) rest h =
    rw (append_assoc id (flatten ids) rest)
      (rw (copy_to_slice-append (flatten ids ++ rest) id h.0, read_ids-flatten ids rest h.1))

-- Fewer than 2 ^ 32 ids of 16 bytes each are decoded to themselves, in order; bytes behind them are
-- ignored.
pub decode-encode_notify_payload :
    (ids : List Bytes) (rest : Bytes)
    → All (λ id. length id ≡ 16) ids
    → length ids < 2 ^ 32
    → decode_notify_payload (encode_notify_payload ids ++ rest) ≡ ok ids
unfolding decode_notify_payload encode_notify_payload
decode-encode_notify_payload ids rest h small =
    let n : length ids % 2 ^ 32 ≡ length ids = omega arith in
    let b = le_bytes 4 (length ids) in
    let l = length-le_bytes 4 (length ids) in
    let size = length-append b (flatten ids ++ rest) in
    let size' = length-append (flatten ids) rest in
    let size'' = length-flatten 16 ids h in
    rw (n, append_assoc b (flatten ids) rest)
      (rw (
        ltb-false (length (b ++ (flatten ids ++ rest))) 4 (omega (arith, size, l)),
        take-append b (flatten ids ++ rest) l,
        drop-append b (flatten ids ++ rest) l,
        from_le-le_bytes 4 (length ids) small,
        ltb-false (length (b ++ (flatten ids ++ rest))) (4 + length ids * 16)
            (omega (arith, size, size', size'', l)),
        read_ids-flatten ids rest h,
      ))
