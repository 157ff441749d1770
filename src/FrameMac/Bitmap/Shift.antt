-- ===== src/FrameMac/Bitmap/Shift.antt =====
-- On `shift_bits` of common/src/crypto/frame_mac.rs, and on words within 64 digits.
use Prim.Native.Nat.{bit_or}
use dkms.Prelude.{
  ℕ, zero, suc, ◌+◌, ◌-◌, ◌*◌, ◌/◌, ◌%◌, ◌^◌, ◌≤◌, ◌<◌, ◌≡◌, true, false, List, arith, length,
  get_or, ltb, leb, if◌then◌else◌, Bool-cases, inl, inr, replicate, ◌⊎◌,
}
use dkms.Prelude.Bits.{digit, digit-zero, digit-or, digit-div_pow, digit-mod_pow, digit-pow}
use dkms.FrameMac.Bitmap.{set_bit, clear, shift_words, shift_carry, shift_bits}
use dkms.FrameMac.Bitmap.Laws.{
  place, IsWords, get_or-set, get_or_past, get_or-clear, get_or-replicate, shift_words_lem,
  shift_carry_lem, length-shift_carry, length-shift_words, digit-shift_carry,
}

-- The words after the move by whole words.
moved : List ℕ → ℕ → List ℕ
moved bits words = if ltb 0 words then shift_words (length bits) words bits else bits

length-moved : (bits : List ℕ) (words : ℕ) → length (moved bits words) ≡ length bits
unfolding moved
length-moved bits words = ground (arith, length-shift_words (length bits) words bits)

moved_lem :
    (bits : List ℕ) (words j : ℕ)
    → get_or (moved bits words) j 0
      ≡ (if leb (length bits) j then 0 else if leb words j then get_or bits (j - words) 0 else 0)
unfolding moved
moved_lem bits zero j = let z : j - 0 ≡ j = omega arith in rw z (ground (arith, get_or_past bits j))
moved_lem bits (suc words) j =
    ground (arith, shift_words_lem (length bits) (suc words) bits j, get_or_past bits j)

moved-IsWords : (bits : List ℕ) (words : ℕ) → IsWords bits → IsWords (moved bits words)
moved-IsWords bits words v = record {
  high =
      λ j i h. rw (moved_lem bits words j) (ground (arith, v.high (j - words) i h, digit-zero i));
}

shift_carry-IsWords :
    (rem : ℕ) (ws : List ℕ) → rem < 64 → IsWords ws → IsWords (shift_carry rem 0 ws)
shift_carry-IsWords rem ws k v = record {
  high = λ j i h. at j i h (Bool-cases (ltb j (length ws)));
}
  where
    at :
        (j i : ℕ)
        → 64 ≤ i
        → (ltb j (length ws) ≡ true) ⊎ (ltb j (length ws) ≡ false)
        → digit (get_or (shift_carry rem 0 ws) j 0) i ≡ 0
    at zero i h (inl m) = rw (shift_carry_lem rem 0 ws zero (ground arith)) (
        ground (
          arith,
          digit-or (get_or ws 0 0 * 2 ^ rem % 2 ^ 64) 0 i,
          digit-mod_pow 64 i (get_or ws 0 0 * 2 ^ rem),
          digit-zero i,
        ))
    at (suc j) i h (inl m) = rw (shift_carry_lem rem 0 ws (suc j) (ground arith)) (
        ground (
          arith,
          digit-or (get_or ws (suc j) 0 * 2 ^ rem % 2 ^ 64) (get_or ws j 0 / 2 ^ (64 - rem)) i,
          digit-mod_pow 64 i (get_or ws (suc j) 0 * 2 ^ rem),
          digit-div_pow (64 - rem) i (get_or ws j 0),
          v.high j (i + (64 - rem)),
        ))
    at j i h (inr m) =
        rw (get_or_past (shift_carry rem 0 ws) j (ground (arith, length-shift_carry rem 0 ws)))
          (digit-zero i)

pub shift_bits-IsWords : (bits : List ℕ) (by : ℕ) → IsWords bits → IsWords (shift_bits bits by)
unfolding shift_bits moved
shift_bits-IsWords bits by v = elim (Bool-cases (ltb 0 (by % 64))) [
  | inl some_rem ↦ rw some_rem (
      shift_carry-IsWords (by % 64) (moved bits (by / 64)) (omega arith)
        (moved-IsWords bits (by / 64) v))
  | inr no_rem ↦ rw no_rem (moved-IsWords bits (by / 64) v)
]

pub set_bit-IsWords :
    (bits : List ℕ) (k : ℕ) → k < 64 * length bits → IsWords bits → IsWords (set_bit bits k)
unfolding set_bit
set_bit-IsWords bits k h v = record {
  high = λ j i m. ground (
    arith,
    get_or-set bits (k / 64) j (bit_or (get_or bits (k / 64) 0) (2 ^ (k % 64))),
    digit-or (get_or bits (k / 64) 0) (2 ^ (k % 64)) i,
    digit-pow (k % 64) i,
    v.high (k / 64) i m,
    v.high j i m,
  );
}

pub clear-IsWords : (bits : List ℕ) → IsWords (clear bits)
clear-IsWords bits = record { high = λ j i h. rw (get_or-clear bits j) (digit-zero i) }

pub replicate-IsWords : (n : ℕ) → IsWords (replicate n 0)
replicate-IsWords n = record { high = λ j i h. rw (get_or-replicate n j) (digit-zero i) }

place-moved :
    (bits : List ℕ) (by i : ℕ)
    → by % 64 ≡ 0
    → i < 64 * length bits
    → place (moved bits (by / 64)) i ≡ (if ltb i by then 0 else place bits (i - by))
unfolding place
place-moved bits by i e h = elim (Bool-cases (ltb i by)) [
  | inl low ↦ rw (low, moved_lem bits (by / 64) (i / 64)) (ground (arith, digit-zero (i % 64)))
  | inr high ↦
      let le : by ≤ i = ground arith in
      let j : (i - by) / 64 ≡ i / 64 - by / 64 = omega arith in
      let r : (i - by) % 64 ≡ i % 64 = omega arith in
      rw (high, moved_lem bits (by / 64) (i / 64), j, r) (ground arith)
]

place-shift_carry :
    (bits : List ℕ) (by i : ℕ)
    → IsWords bits
    → 0 < by % 64
    → i < 64 * length bits
    → place (shift_carry (by % 64) 0 (moved bits (by / 64))) i
      ≡ (if ltb i by then 0 else place bits (i - by))
unfolding place
place-shift_carry bits by i v e h =
    let ws = moved bits (by / 64) in
    rw
      (
        digit-shift_carry (by % 64) ws (i / 64) (i % 64) e (omega arith) (omega arith)
            (omega (arith, length-moved bits (by / 64))) (moved-IsWords bits (by / 64) v),
        moved_lem bits (by / 64) (i / 64),
        moved_lem bits (by / 64) (i / 64 - 1),
      )
      (elim (Bool-cases (ltb i by)) [
        | inl low ↦
            rw low
              (ground (arith, digit-zero (i % 64 + (64 - by % 64)), digit-zero (i % 64 - by % 64)))
        | inr high ↦ elim (Bool-cases (ltb (i % 64) (by % 64))) [
          | inl borrow ↦
              let le : by ≤ i = ground arith in
              let less : i % 64 < by % 64 = ground arith in
              let j : (i - by) / 64 ≡ i / 64 - 1 - by / 64 = omega arith in
              let r : (i - by) % 64 ≡ i % 64 + (64 - by % 64) = omega arith in
              rw (high, borrow, j, r) (ground arith)
          | inr plain ↦
              let le : by ≤ i = ground arith in
              let more : by % 64 ≤ i % 64 = ground arith in
              let j : (i - by) / 64 ≡ i / 64 - by / 64 = omega arith in
              let r : (i - by) % 64 ≡ i % 64 - by % 64 = omega arith in
              rw (high, plain, j, r) (ground arith)
        ]
      ])

-- `shift_bits` moves each place up by `by` and fills with zeros from below; what leaves at the top
-- is lost.
pub place-shift_bits :
    (bits : List ℕ) (by i : ℕ)
    → IsWords bits
    → i < 64 * length bits
    → place (shift_bits bits by) i ≡ (if ltb i by then 0 else place bits (i - by))
unfolding shift_bits moved
place-shift_bits bits by i v h = elim (Bool-cases (ltb 0 (by % 64))) [
  | inl some_rem ↦ rw some_rem (place-shift_carry bits by i v (ground arith) h)
  | inr no_rem ↦ rw no_rem (place-moved bits by i (ground arith) h)
]
