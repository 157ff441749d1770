-- ===== src/Wire/Cursor.antt =====
-- The reads of `bytes::Buf` on a slice and of `AsyncReadExt` on a stream, as functions of the bytes
-- that are left. A read past the end of a slice panics; past the end of a stream it is an error.
use dkms.Prelude.{
  ℕ, ◌≡◌, false, ◌<◌, ◌^◌, [], ◌++◌, arith, ltb, if◌then◌else◌, length, take, drop, take_all,
  drop_all, take-length-append, drop-length-append, length-append, ltb-false,
}
use dkms.Prelude.Bytes.{
  Bytes, le_bytes, from_le, be_bytes, from_be, length-le_bytes, length-be_bytes, from_le-le_bytes,
  from_be-be_bytes,
}
use dkms.Prelude.Outcome.{ok, err, panic}
use dkms.Wire.Frame.{Io, io, unexpected_eof}

-- `copy_to_slice` and `body[..n]` with `advance(n)`
unfoldable pub copy_to_slice : ℕ → Bytes → Io (Bytes × Bytes)
copy_to_slice n b = if ltb (length b) n then panic else ok (take n b, drop n b)

-- `get_u8`, `get_u16_le`, `get_u32_le` for n = 1, 2, 4
unfoldable pub get_le : ℕ → Bytes → Io (ℕ × Bytes)
get_le n b = if ltb (length b) n then panic else ok (from_le (take n b), drop n b)

-- `get_u32` for n = 4
unfoldable pub get_be : ℕ → Bytes → Io (ℕ × Bytes)
get_be n b = if ltb (length b) n then panic else ok (from_be (take n b), drop n b)

-- `stream.read_exact`
unfoldable pub read_exact : ℕ → Bytes → Io (Bytes × Bytes)
read_exact n s = if ltb (length s) n then err (io unexpected_eof) else ok (take n s, drop n s)

not_short : (xs ys : Bytes) → ltb (length (xs ++ ys)) (length xs) ≡ false
not_short xs ys = ltb-false _ _ (omega (arith, length-append xs ys))

pub copy_to_slice_all : (xs : Bytes) → copy_to_slice (length xs) xs ≡ ok (xs, [])
unfolding copy_to_slice
copy_to_slice_all xs = rw (
  ltb-false (length xs) (length xs) (omega arith),
  take_all xs (length xs) (omega arith),
  drop_all xs (length xs) (omega arith),
)

module _ (rest : Bytes) where
  pub copy_to_slice-append :
      (xs : Bytes) {n : ℕ} → length xs ≡ n → copy_to_slice n (xs ++ rest) ≡ ok (xs, rest)
  copy_to_slice-append xs e = rw (← e) (
      unfold copy_to_slice in
      rw (not_short xs rest, take-length-append xs rest, drop-length-append xs rest))

  pub read_exact-append :
      (xs : Bytes) {n : ℕ} → length xs ≡ n → read_exact n (xs ++ rest) ≡ ok (xs, rest)
  read_exact-append xs e = rw (← e) (
      unfold read_exact in
      rw (not_short xs rest, take-length-append xs rest, drop-length-append xs rest))

  get_le-append :
      (xs : Bytes) {n : ℕ} → length xs ≡ n → get_le n (xs ++ rest) ≡ ok (from_le xs, rest)
  get_le-append xs e = rw (← e) (
      unfold get_le in
      rw (not_short xs rest, take-length-append xs rest, drop-length-append xs rest))

  get_be-append :
      (xs : Bytes) {n : ℕ} → length xs ≡ n → get_be n (xs ++ rest) ≡ ok (from_be xs, rest)
  get_be-append xs e = rw (← e) (
      unfold get_be in
      rw (not_short xs rest, take-length-append xs rest, drop-length-append xs rest))

  -- A number that fits its width is read back.
  pub get_le-le_bytes : (n x : ℕ) → x < 256 ^ n → get_le n (le_bytes n x ++ rest) ≡ ok (x, rest)
  get_le-le_bytes n x h =
      rw (get_le-append (le_bytes n x) (length-le_bytes n x), from_le-le_bytes n x h)

  pub get_be-be_bytes : (n x : ℕ) → x < 256 ^ n → get_be n (be_bytes n x ++ rest) ≡ ok (x, rest)
  get_be-be_bytes n x h =
      rw (get_be-append (be_bytes n x) (length-be_bytes n x), from_be-be_bytes n x h)
