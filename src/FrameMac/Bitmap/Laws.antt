-- ===== src/FrameMac/Bitmap/Laws.antt =====
-- Each operation on the bitmap as a function of single places. Place `i` is digit `i % 64` of word
-- `i / 64`; a word has no digit from 64 on.
use Prim.Native.Nat.{bit_or}
use native.Mathlib.Nat.{one-le-pow}
use dkms.Prelude.{
  not, ℕ, zero, suc, ◌+◌, ◌-◌, ◌*◌, ◌/◌, ◌%◌, ◌^◌, ◌≤◌, ◌<◌, ◌≡◌, refl, ap, ◌∙◌, List, [], ◌∷◌,
  arith, length, get_or, set, length-set, ltb, leb, ◌==◌, if◌then◌else◌, replicate,
}
use dkms.Prelude.Bits.{
  digit, digit-zero, digit-le-one, digit-or, digit-mul_pow, digit-div_pow, digit-mod_pow, digit-pow,
  and-pow,
}
use dkms.FrameMac.Bitmap.{is_set, set_bit, clear, shift_words, shift_carry, shift_bits}

unfoldable pub place : List ℕ → ℕ → ℕ
place bits i = digit (get_or bits (i / 64) 0) (i % 64)

pub record IsWords (bits : List ℕ) : Type 0 where
  pub high : (j i : ℕ) → 64 ≤ i → digit (get_or bits j 0) i ≡ 0

pub get_or-set :
    (xs : List ℕ) (k j v : ℕ)
    → k < length xs
    → get_or (set xs k v) j 0 ≡ (if j == k then v else get_or xs j 0)
get_or-set [] k j v h = absurd (omega arith)
get_or-set (x ∷ xs) zero zero v h = refl
get_or-set (x ∷ xs) zero (suc j) v h = ground arith
get_or-set (x ∷ xs) (suc k) zero v h = ground arith
get_or-set (x ∷ xs) (suc k) (suc j) v h = ground (arith, get_or-set xs k j v (omega arith))

pub get_or_past : (xs : List ℕ) (j : ℕ) → length xs ≤ j → get_or xs j 0 ≡ 0
get_or_past [] j h = refl
get_or_past (x ∷ xs) zero h = absurd (omega arith)
get_or_past (x ∷ xs) (suc j) h = get_or_past xs j (omega arith)

pub get_or-clear : (bits : List ℕ) (j : ℕ) → get_or (clear bits) j 0 ≡ 0
unfolding clear
get_or-clear [] j = refl
get_or-clear (x ∷ xs) zero = refl
get_or-clear (x ∷ xs) (suc j) = get_or-clear xs j

pub get_or-replicate : (n j : ℕ) → get_or {A = ℕ} (replicate n 0) j 0 ≡ 0
get_or-replicate zero j = refl
get_or-replicate (suc n) zero = refl
get_or-replicate (suc n) (suc j) = get_or-replicate n j

pub length-clear : (bits : List ℕ) → length (clear bits) ≡ length bits
unfolding clear
length-clear [] = refl
length-clear (x ∷ xs) = ap suc (length-clear xs)

pub length-set_bit : (bits : List ℕ) (i : ℕ) → length (set_bit bits i) ≡ length bits
unfolding set_bit
length-set_bit bits i = length-set bits _ _

pub place-clear : (bits : List ℕ) (i : ℕ) → place (clear bits) i ≡ 0
unfolding place
place-clear bits i = rw (get_or-clear bits (i / 64)) (digit-zero (i % 64))

pub place-replicate : (n i : ℕ) → place (replicate n 0) i ≡ 0
unfolding place
place-replicate n i = rw (get_or-replicate n (i / 64)) (digit-zero (i % 64))

pub place-set_bit :
    (bits : List ℕ) (k i : ℕ)
    → k < 64 * length bits
    → place (set_bit bits k) i ≡ (if i == k then 1 else place bits i)
unfolding place set_bit
place-set_bit bits k i h =
    let w = get_or bits (k / 64) 0 in
    ground (
      arith,
      get_or-set bits (k / 64) (i / 64) (bit_or w (2 ^ (k % 64))) (omega arith),
      digit-or w (2 ^ (k % 64)) (i % 64),
      digit-pow (k % 64) (i % 64),
      digit-le-one (i % 64) w,
    )

digit_scaled : (d p : ℕ) → d ≤ 1 → 1 ≤ p → not (d * p == 0) ≡ (d == 1)
digit_scaled zero p h k = ground arith
digit_scaled (suc zero) p h k = ground arith
digit_scaled (suc (suc d)) p h k = absurd (omega arith)

pub is_set-place : (bits : List ℕ) (i : ℕ) → is_set bits i ≡ (place bits i == 1)
unfolding is_set place
is_set-place bits i =
    let w = get_or bits (i / 64) 0 in
    rw (and-pow w (i % 64)) (
      digit_scaled (digit w (i % 64)) (2 ^ (i % 64)) (digit-le-one (i % 64) w)
        (one-le-pow (i % 64) 2 (omega arith)))

pub shift_words_lem :
    (k words : ℕ) (bits : List ℕ) (j : ℕ)
    → 0 < words
    → k ≤ length bits
    → get_or (shift_words k words bits) j 0 ≡ (
        if ltb j k then (if leb words j then get_or bits (j - words) 0 else 0) else get_or bits j 0)
unfolding shift_words
shift_words_lem zero words bits j p h = ground arith
shift_words_lem (suc k) words bits j p h =
    let v : ℕ = if leb words k then get_or bits (k - words) 0 else 0 in
    rw (shift_words_lem k words (set bits k v) j p (omega (arith, length-set bits k v))) (
      ground
        (arith, get_or-set bits k j v (omega arith), get_or-set bits k (j - words) v (omega arith)))

-- What the word `j` takes over from the word below it.
abbrev pub incoming : ℕ → ℕ → List ℕ → ℕ → ℕ
incoming rem carry ws zero = carry
incoming rem carry ws (suc j) = get_or ws j 0 / 2 ^ (64 - rem)

pub shift_carry_lem :
    (rem carry : ℕ) (ws : List ℕ) (j : ℕ)
    → j < length ws
    → get_or (shift_carry rem carry ws) j 0
      ≡ bit_or (get_or ws j 0 * 2 ^ rem % 2 ^ 64) (incoming rem carry ws j)
unfolding shift_carry
shift_carry_lem rem carry [] j h = absurd (omega arith)
shift_carry_lem rem carry (w ∷ ws) zero h = refl
shift_carry_lem rem carry (w ∷ ws) (suc zero) h =
    shift_carry_lem rem (w / 2 ^ (64 - rem)) ws zero (omega arith)
shift_carry_lem rem carry (w ∷ ws) (suc (suc j)) h =
    shift_carry_lem rem (w / 2 ^ (64 - rem)) ws (suc j) (omega arith)

pub length-shift_carry :
    (rem carry : ℕ) (ws : List ℕ) → length (shift_carry rem carry ws) ≡ length ws
unfolding shift_carry
length-shift_carry rem carry [] = refl
length-shift_carry rem carry (w ∷ ws) = ap suc (length-shift_carry rem (w / 2 ^ (64 - rem)) ws)

pub length-shift_words :
    (k words : ℕ) (bits : List ℕ) → length (shift_words k words bits) ≡ length bits
unfolding shift_words
length-shift_words zero words bits = refl
length-shift_words (suc k) words bits =
    let v : ℕ = if leb words k then get_or bits (k - words) 0 else 0 in
    length-shift_words k words (set bits k v) ∙ length-set bits k v

pub length-shift_bits : (bits : List ℕ) (by : ℕ) → length (shift_bits bits by) ≡ length bits
unfolding shift_bits
length-shift_bits bits by =
    let moved = shift_words (length bits) (by / 64) bits in
    ground (
      arith,
      length-shift_carry (by % 64) 0 moved,
      length-shift_carry (by % 64) 0 bits,
      length-shift_words (length bits) (by / 64) bits,
    )

-- A digit of a word that was shifted by `rem` places with a carry.
pub digit-shift_carry :
    (rem : ℕ) (ws : List ℕ) (j r : ℕ)
    → 0 < rem
    → rem < 64
    → r < 64
    → j < length ws
    → IsWords ws
    → digit (get_or (shift_carry rem 0 ws) j 0) r ≡ (
        if ltb r rem
        then (if j == 0 then 0 else digit (get_or ws (j - 1) 0) (r + (64 - rem)))
        else digit (get_or ws j 0) (r - rem))
digit-shift_carry rem ws zero r h k l m v = rw (shift_carry_lem rem 0 ws zero m) (
    ground (
      arith,
      digit-or (get_or ws 0 0 * 2 ^ rem % 2 ^ 64) 0 r,
      digit-mod_pow 64 r (get_or ws 0 0 * 2 ^ rem),
      digit-mul_pow rem r (get_or ws 0 0),
      digit-zero r,
    ))
digit-shift_carry rem ws (suc j) r h k l m v =
    let z : suc j - 1 ≡ j = omega arith in
    rw (shift_carry_lem rem 0 ws (suc j) m, z)
      (ground (
        arith,
        digit-or (get_or ws (suc j) 0 * 2 ^ rem % 2 ^ 64) (get_or ws j 0 / 2 ^ (64 - rem)) r,
        digit-mod_pow 64 r (get_or ws (suc j) 0 * 2 ^ rem),
        digit-mul_pow rem r (get_or ws (suc j) 0),
        digit-div_pow (64 - rem) r (get_or ws j 0),
        v.high j (r + (64 - rem)),
      ))
