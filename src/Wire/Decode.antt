-- ===== src/Wire/Decode.antt =====
-- wire/src/lib.rs: `decode_body`, `read_lp16`, `read_frame`, `read_frame_body_timeout`, `read_body`.
-- A stream is the bytes that it will deliver before its end. `String::from_utf8` accepts what the
-- parameter `is_utf8` accepts. Whether the timer of `tokio::time::timeout` fires before the body is
-- complete is an argument.
use dkms.Prelude.{
  ℕ, zero, suc, ◌+◌, ◌*◌, ◌-◌, ◌/◌, Bool, true, false, not, String, List, [], ◌∷◌, ◌++◌, length,
  take, drop, ltb, ◌==◌, if◌then◌else◌, min, get_or,
}
use dkms.Prelude.Bytes.{Bytes, from_le}
use dkms.Prelude.Outcome.{ok, err, panic, refuse_if, ◌>>=◌, ◌>>◌}
use dkms.Wire.Frame.{
  Frame, Io, io, timed_out, bad_magic, truncated, too_large, fixed_prefix, max_total_len, magic,
}
use dkms.Wire.Cursor.{copy_to_slice, get_le, get_be, read_exact}

unfoldable pub read_lp16 : String → Bytes → Io (Bytes × Bytes)
read_lp16 what body = do
  refuse_if (ltb (length body) 2) (truncated what)
  (len, rest) ← get_le 2 body
  refuse_if (ltb (length rest) len) (truncated what)
  copy_to_slice len rest

abbrev pub chunk : ℕ
chunk = 16 * 1024

-- The loop of `read_body`; it would panic where the fuel ran out.
unfoldable pub read_chunks : ℕ → ℕ → Bytes → Bytes → Io (Bytes × Bytes)
read_chunks zero remaining s body = if ltb 0 remaining then panic else ok (body, s)
read_chunks (suc fuel) remaining s body =
    let n = min remaining chunk in
    let more =
      read_exact n s >>= λ (piece, s'). read_chunks fuel (remaining - n) s' (body ++ piece) in
    if ltb 0 remaining then more else ok (body, s)

unfoldable pub read_body : ℕ → Bytes → Io (Bytes × Bytes)
read_body total s = read_chunks (total / chunk + 1) total s []

abbrev pub same : Bytes → Bytes → Bool
same [] [] = true
same (a ∷ as') (b ∷ bs) = if a == b then same as' bs else false
same _ _ = false

module _ (is_utf8 : Bytes → Bool) where
  unfoldable pub read_key_ids : ℕ → ℕ → Bytes → Io (List Bytes × Bytes)
  read_key_ids zero len body = ok ([], body)
  read_key_ids (suc n) len body = do
    (k, rest) ← copy_to_slice len body
    refuse_if (not (is_utf8 k)) (truncated "key_id utf-8")
    (ks, rest') ← read_key_ids n len rest
    ok (k ∷ ks, rest')

  unfoldable pub decode_body : Bytes → Io Frame
  decode_body body = do
    refuse_if (ltb (length body) 20) (truncated "header")
    (sender_id, b1) ← get_le 4 body
    (receiver_id, b2) ← get_le 4 b1
    (dest_final, b3) ← get_le 4 b2
    (key_size_bits, b4) ← get_le 2 b3
    (epoch_id, b5) ← get_be 4 b4
    (n_key_ids, b6) ← get_le 1 b5
    (key_id_len, b7) ← get_le 1 b6
    refuse_if (ltb (length b7) (n_key_ids * key_id_len + 2)) (truncated "key_ids")
    (key_ids, b8) ← read_key_ids n_key_ids key_id_len b7
    (header_orr_mp, b9) ← read_lp16 "header_orr" b8
    (header_dkms_mp, b10) ← read_lp16 "header_dkms" b9
    refuse_if (ltb (length b10) 4) (truncated "payload_len")
    (payload_len, b11) ← get_le 4 b10
    refuse_if (ltb (length b11) payload_len) (truncated "payload")
    (payload, _) ← copy_to_slice payload_len b11
    ok (record {
      kind = 0;
      grade = 0;
      sender_id = sender_id;
      receiver_id = receiver_id;
      dest_final = dest_final;
      key_size_bits = key_size_bits;
      epoch_id = epoch_id;
      key_ids = key_ids;
      header_orr_mp = header_orr_mp;
      header_dkms_mp = header_dkms_mp;
      payload = payload;
    })

  unfoldable pub read_frame : Bytes → Io (Frame × Bytes)
  read_frame stream = do
    (prefix, s) ← read_exact fixed_prefix stream
    refuse_if (not (same (take 4 prefix) magic)) bad_magic
    let total_len = from_le (drop 6 prefix)
    refuse_if (ltb max_total_len total_len) (too_large total_len)
    (body, rest) ← read_body total_len s
    f ← decode_body body
    ok (record f { kind = get_or prefix 4 0; grade = get_or prefix 5 0 }, rest)

  unfoldable pub read_frame_body_timeout : Bool → Bytes → Io (Frame × Bytes)
  read_frame_body_timeout fires stream = do
    (prefix, s) ← read_exact fixed_prefix stream
    refuse_if (not (same (take 4 prefix) magic)) bad_magic
    let total_len = from_le (drop 6 prefix)
    refuse_if (ltb max_total_len total_len) (too_large total_len)
    (body, rest) ← (if fires then err (io timed_out) else read_body total_len s)
    f ← decode_body body
    ok (record f { kind = get_or prefix 4 0; grade = get_or prefix 5 0 }, rest)
