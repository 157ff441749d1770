-- ===== src/Wire/Notify.antt =====
-- wire/src/lib.rs: the payload of `FRAME_KEY_IDS_NOTIFY`, a count and as many ids of 16 bytes.
pub mod RoundTrip
use mathlib.Core.List.{flatten}
use dkms.Prelude.{ℕ, zero, suc, ◌+◌, ◌*◌, ◌%◌, ◌^◌, List, [], ◌∷◌, ◌++◌, length, take, drop, ltb}
use dkms.Prelude.Bytes.{Bytes, le_bytes, from_le}
use dkms.Prelude.Outcome.{Outcome, ok, refuse_if, ◌>>=◌, ◌>>◌}
use dkms.Wire.Frame.{Io, truncated}
use dkms.Wire.Cursor.{copy_to_slice}

unfoldable pub encode_notify_payload : List Bytes → Bytes
encode_notify_payload ids = le_bytes 4 (length ids % 2 ^ 32) ++ flatten ids

-- `cur` moves by 16 on each round; the slice `buf[cur..cur + 16]` panics past the end.
unfoldable pub read_ids : ℕ → Bytes → Io (List Bytes)
read_ids zero buf = ok []
read_ids (suc n) buf = do (id, rest) ← copy_to_slice 16 buf; out ← read_ids n rest; ok (id ∷ out)

unfoldable pub decode_notify_payload : Bytes → Io (List Bytes)
decode_notify_payload buf = do
  refuse_if (ltb (length buf) 4) (truncated "notify count")
  let count = from_le (take 4 buf)
  refuse_if (ltb (length buf) (4 + count * 16)) (truncated "notify ids")
  read_ids count (drop 4 buf)
