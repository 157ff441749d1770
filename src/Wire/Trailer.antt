-- ===== src/Wire/Trailer.antt =====
-- wire/src/lib.rs: the authentication trailer `session ‖ counter ‖ tag` at the end of a payload.
pub mod RoundTrip
use dkms.Prelude.{ℕ, ◌+◌, ◌-◌, List, ◌++◌, length, take, drop, ltb}
use dkms.Prelude.Bytes.{Bytes, le_bytes, from_le}
use dkms.Prelude.Outcome.{Outcome, ok, refuse_if, ◌>>=◌, ◌>>◌}
use dkms.Wire.Frame.{Io, truncated}

-- 8 + 8 + 32
abbrev pub auth_trailer_len : ℕ
auth_trailer_len = 48

unfoldable pub append_auth_trailer : Bytes → ℕ → ℕ → Bytes → Bytes
append_auth_trailer payload session counter tag =
    payload ++ (le_bytes 8 session ++ (le_bytes 8 counter ++ tag))

-- `(body, session, counter, tag)`
unfoldable pub split_auth_trailer : Bytes → Io (Bytes × ℕ × ℕ × Bytes)
split_auth_trailer payload = do
  refuse_if (ltb (length payload) auth_trailer_len) (truncated "auth trailer")
  let cut = length payload - auth_trailer_len
  let body = take cut payload
  let tr = drop cut payload
  ok (body, from_le (take 8 tr), from_le (take 8 (drop 8 tr)), drop 16 tr)
