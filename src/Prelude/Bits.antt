-- ===== src/Prelude/Bits.antt =====
-- The binary digits of a number, and what `|`, `&`, `<<`, `>>` and a cut to 64 bits do to each.
use Prim.Native.Nat.{
  ℕ, zero, suc, ◌+◌, ◌*◌, ◌-◌, ◌/◌, ◌%◌, ◌^◌, ◌≤◌, min, max, digits, bit_and, bit_or,
  bit_and-bitwise, bit_or-bitwise,
}
use mathlib.Core.Path.{◌≡◌, refl, sym, ap}
use native.Mathlib.Omega.{arith}
use native.Mathlib.Nat.{div-div-eq-div-mul, mod-eq-sub-div-mul, div-mul-le_self, pow-suc, mul_comm}
use dkms.Prelude.Tests.{if◌then◌else◌, ltb, ◌==◌}

unfoldable pub digit : ℕ → ℕ → ℕ
digit w zero = w % 2
digit w (suc i) = digit (w / 2) i

pub digit-le-one : (i w : ℕ) → digit w i ≤ 1
unfolding digit
digit-le-one zero w = omega arith
digit-le-one (suc i) w = digit-le-one i (w / 2)

pub digit-zero : (i : ℕ) → digit 0 i ≡ 0
unfolding digit
digit-zero zero = refl
digit-zero (suc i) = digit-zero i

digit-digits_or :
    (i n a b : ℕ) → a ≤ n → digit (digits (λ y. y) max n a b) i ≡ max (digit a i) (digit b i)
unfolding digit
digit-digits_or zero zero zero b h = omega arith
digit-digits_or zero zero (suc a) b h = absurd (omega arith)
digit-digits_or zero (suc n) zero b h = omega arith
digit-digits_or zero (suc n) (suc a) b h = omega arith
digit-digits_or (suc i) zero zero b h = omega (arith, digit-zero i)
digit-digits_or (suc i) zero (suc a) b h = absurd (omega arith)
digit-digits_or (suc i) (suc n) zero b h = omega (arith, digit-zero i)
digit-digits_or (suc i) (suc n) (suc a) b h =
    let d = digits (λ y. y) max n (suc a / 2) (b / 2) in
    let e : (d * 2 + max (suc a % 2) (b % 2)) / 2 ≡ d = omega arith in
    rw e (digit-digits_or i n (suc a / 2) (b / 2) (omega arith))

pub digit-or : (a b i : ℕ) → digit (bit_or a b) i ≡ max (digit a i) (digit b i)
digit-or a b i = rw (bit_or-bitwise a b) (digit-digits_or i a a b (omega arith))

pub digit-mul_pow : (k i w : ℕ) → digit (w * 2 ^ k) i ≡ (if ltb i k then 0 else digit w (i - k))
unfolding digit
digit-mul_pow zero i w =
    let e : w * 1 ≡ w = omega arith in let z : i - 0 ≡ i = omega arith in rw (e, z) (ground arith)
digit-mul_pow (suc k) zero w =
    let e : w * 2 ^ suc k % 2 ≡ 0 = omega (arith, ap (λ (p : ℕ). w * p) (pow-suc 2 k)) in
    rw e (ground arith)
digit-mul_pow (suc k) (suc i) w =
    let e : w * 2 ^ suc k / 2 ≡ w * 2 ^ k = omega (arith, ap (λ (p : ℕ). w * p) (pow-suc 2 k)) in
    let z : suc i - suc k ≡ i - k = omega arith in rw (e, z) (ground (arith, digit-mul_pow k i w))

digit-suc : (w i : ℕ) → digit w (suc i) ≡ digit (w / 2) i
unfolding digit
digit-suc w i = refl

half_first : (w k : ℕ) → w / 2 ^ suc k ≡ w / 2 / 2 ^ k
half_first w k = rw (pow-suc 2 k, mul_comm (2 ^ k) 2) (sym (div-div-eq-div-mul w 2 (2 ^ k)))

pub digit-div_pow : (k i w : ℕ) → digit (w / 2 ^ k) i ≡ digit w (i + k)
digit-div_pow zero i w =
    let e : w / 1 ≡ w = omega arith in let z : i + 0 ≡ i = omega arith in rw (e, z)
digit-div_pow (suc k) i w =
    let z : i + suc k ≡ suc (i + k) = omega arith in
    rw (z, half_first w k, digit-suc w (i + k)) (digit-div_pow k i (w / 2))

mod_split : (w n : ℕ) → w % 2 ^ suc n ≡ w / 2 % 2 ^ n * 2 + w % 2
mod_split w n = omega (
  arith,
  mod-eq-sub-div-mul w (2 ^ suc n),
  mod-eq-sub-div-mul (w / 2) (2 ^ n),
  div-mul-le_self (w / 2) (2 ^ n),
  ap (λ (q : ℕ). q * 2 ^ suc n) (half_first w n),
  ap (λ (p : ℕ). w / 2 / 2 ^ n * p) (pow-suc 2 n),
)

pub digit-mod_pow : (n i w : ℕ) → digit (w % 2 ^ n) i ≡ (if ltb i n then digit w i else 0)
unfolding digit
digit-mod_pow zero i w = let e : w % 1 ≡ 0 = omega arith in rw e (ground (arith, digit-zero i))
digit-mod_pow (suc n) zero w = rw (mod_split w n) (ground arith)
digit-mod_pow (suc n) (suc i) w =
    let e : (w / 2 % 2 ^ n * 2 + w % 2) / 2 ≡ w / 2 % 2 ^ n = omega arith in
    rw (mod_split w n) (rw e (ground (arith, digit-mod_pow n i (w / 2))))

digit-one : (i : ℕ) → digit 1 i ≡ (if i == 0 then 1 else 0)
unfolding digit
digit-one zero = refl
digit-one (suc i) = rw (digit-zero i) (ground arith)

-- `1 << k` has one digit.
pub digit-pow : (k i : ℕ) → digit (2 ^ k) i ≡ (if i == k then 1 else 0)
digit-pow k i =
    let e : 2 ^ k ≡ 1 * 2 ^ k = omega arith in
    rw e (ground (arith, digit-mul_pow k i 1, digit-one (i - k)))

digits_and-zero : (n a : ℕ) → a ≤ n → digits (λ y. 0) min n a 0 ≡ 0
digits_and-zero zero a h = refl
digits_and-zero (suc n) zero h = refl
digits_and-zero (suc n) (suc a) h = omega (arith, digits_and-zero n (suc a / 2) (omega arith))

digits_and-pow : (k n a : ℕ) → a ≤ n → digits (λ y. 0) min n a (2 ^ k) ≡ digit a k * 2 ^ k
unfolding digit
digits_and-pow zero zero zero h = refl
digits_and-pow zero zero (suc a) h = absurd (omega arith)
digits_and-pow zero (suc n) zero h = refl
digits_and-pow zero (suc n) (suc a) h = omega (arith, digits_and-zero n (suc a / 2) (omega arith))
digits_and-pow (suc k) zero zero h = rw (digit-zero k) (omega arith)
digits_and-pow (suc k) zero (suc a) h = absurd (omega arith)
digits_and-pow (suc k) (suc n) zero h = rw (digit-zero k) (omega arith)
digits_and-pow (suc k) (suc n) (suc a) h =
    let half : 2 ^ suc k / 2 ≡ 2 ^ k = omega (arith, pow-suc 2 k) in
    let even : 2 ^ suc k % 2 ≡ 0 = omega (arith, pow-suc 2 k) in
    let ih = digits_and-pow k n (suc a / 2) (omega arith) in
    rw (half, even) (omega (arith, ih, ap (λ (p : ℕ). digit (suc a / 2) k * p) (pow-suc 2 k)))

-- `w & (1 << k)` is the digit at its place, so it is not 0 exactly if the digit is 1.
pub and-pow : (w k : ℕ) → bit_and w (2 ^ k) ≡ digit w k * 2 ^ k
and-pow w k = rw (bit_and-bitwise w (2 ^ k)) (digits_and-pow k w w (omega arith))
