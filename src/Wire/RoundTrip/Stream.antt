-- ===== src/Wire/RoundTrip/Stream.antt =====
-- On the prefix of a frame of wire/src/lib.rs, and on `read_body` as one read.
use dkms.Prelude.{
  ℕ, zero, suc, ◌+◌, ◌*◌, ◌-◌, ◌%◌, ◌/◌, ◌^◌, ◌≤◌, ◌≡◌, refl, ap, ◌∙◌, true, [], ◌++◌, arith,
  length, ltb, ltb-false, ltb-true, le_of_ltb, append_assoc, append-nil, take, drop, get_or, min,
  length-drop, take-add, drop-drop, if◌then◌else◌, Bool-cases, inl, inr,
}
use dkms.Prelude.Bytes.{Bytes, le_bytes, from_le, from_le-le_bytes}
use dkms.Prelude.Outcome.{ok, err, ◌>>=◌}
use dkms.Wire.Frame.{Frame, Io, io, unexpected_eof, magic, fixed_prefix}
use dkms.Wire.Cursor.{read_exact, read_exact-append}
use dkms.Wire.Encode.{body_len, encode_body, encode}
use dkms.Wire.Decode.{read_body, read_chunks, chunk, same}

pub prefix : Frame → Bytes
prefix f = magic ++ (le_bytes 1 f.kind ++ (le_bytes 1 f.grade ++ le_bytes 4 (body_len f % 2 ^ 32)))

-- What a read of `n` bytes behind `body` gives.
abbrev cut_at : ℕ → Bytes → Bytes → Io (Bytes × Bytes)
cut_at n s body =
    if ltb (length s) n then err (io unexpected_eof) else ok (body ++ take n s, drop n s)

-- One round and the rest of the loop read what one read would.
cut_at_step :
    (n remaining : ℕ) (s body : Bytes)
    → n ≤ remaining
    → n ≤ length s
    → cut_at (remaining - n) (drop n s) (body ++ take n s) ≡ cut_at remaining s body
cut_at_step n remaining s body h k =
    let e : n + (remaining - n) ≡ remaining = omega arith in
    let taken : body ++ take n s ++ take (remaining - n) (drop n s) ≡ body ++ take remaining s =
      append_assoc body (take n s) (take (remaining - n) (drop n s))
      ∙ ap (◌++◌ body) (take-add n (remaining - n) s ∙ ap (λ m. take m s) e) in
    let left : drop (remaining - n) (drop n s) ≡ drop remaining s =
      drop-drop n (remaining - n) s ∙ ap (λ m. drop m s) e in
    ground (arith, taken, left, length-drop n s)

cut_at_done :
    (remaining : ℕ) (s body : Bytes) → remaining ≡ 0 → ok (body, s) ≡ cut_at remaining s body
cut_at_done remaining s body e =
    rw e (rw (ltb-false (length s) 0 (omega arith)) (rw (append-nil body)))

read_chunks_round :
    (fuel remaining : ℕ) (s body : Bytes)
    → ltb 0 remaining ≡ true
    → remaining ≤ suc fuel * chunk
    → ((r : ℕ) (t b : Bytes) → r ≤ fuel * chunk → read_chunks fuel r t b ≡ cut_at r t b)
    → (read_exact (min remaining chunk) s >>= λ (piece, s').
        read_chunks fuel (remaining - min remaining chunk) s' (body ++ piece))
      ≡ cut_at remaining s body
unfolding read_exact
read_chunks_round fuel remaining s body more h ih =
    let n = min remaining chunk in
    let small : n ≤ remaining = omega arith in
    let left : remaining - n ≤ fuel * chunk = omega arith in
    elim (Bool-cases (ltb (length s) n)) [
      | inl short ↦ rw (short, ltb-true (length s) remaining (ground arith))
      | inr enough ↦
          rw (enough, ih (remaining - n) (drop n s) (body ++ take n s) left)
            (cut_at_step n remaining s body small (le_of_ltb (length s) n enough))
    ]

read_chunks_lem :
    (fuel remaining : ℕ) (s body : Bytes)
    → remaining ≤ fuel * chunk
    → read_chunks fuel remaining s body ≡ cut_at remaining s body
unfolding read_chunks
read_chunks_lem zero remaining s body h =
    rw (ltb-false 0 remaining (omega arith)) (cut_at_done remaining s body (omega arith))
read_chunks_lem (suc fuel) remaining s body h = elim (Bool-cases (ltb 0 remaining)) [
  | inl more ↦ rw more (read_chunks_round fuel remaining s body more h (read_chunks_lem fuel))
  | inr done ↦ rw done (cut_at_done remaining s body (ground arith))
]

-- The loop over chunks reads `total` bytes, or fails at the end of the stream; it never runs dry.
pub read_body_lem : (total : ℕ) (s : Bytes) → read_body total s ≡ read_exact total s
unfolding read_body read_exact
read_body_lem total s = read_chunks_lem (total / chunk + 1) total s [] (omega arith)

pub read_body-append :
    (xs rest : Bytes) {n : ℕ} → length xs ≡ n → read_body n (xs ++ rest) ≡ ok (xs, rest)
read_body-append xs rest e = rw (read_body_lem _ (xs ++ rest)) (read_exact-append rest xs e)

pub encode-prefix :
    (f : Frame) (rest : Bytes) → encode f ++ rest ≡ prefix f ++ (encode_body f ++ rest)
unfolding encode prefix le_bytes
encode-prefix f rest = refl

pub length-prefix : (f : Frame) → length (prefix f) ≡ fixed_prefix
unfolding prefix le_bytes
length-prefix f = refl

pub prefix-magic : (f : Frame) → same (take 4 (prefix f)) magic ≡ true
unfolding prefix
prefix-magic f = refl

pub prefix_bytes :
    (f : Frame) → (get_or (prefix f) 4 0 ≡ f.kind % 256) × (get_or (prefix f) 5 0 ≡ f.grade % 256)
unfolding prefix le_bytes
prefix_bytes f = (refl, refl)

pub announced : (f : Frame) → from_le (drop 6 (prefix f)) ≡ body_len f % 2 ^ 32
unfolding prefix le_bytes
announced f = from_le-le_bytes 4 (body_len f % 2 ^ 32) (omega arith)
