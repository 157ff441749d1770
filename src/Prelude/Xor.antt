-- ===== src/Prelude/Xor.antt =====
-- `^` of two numbers, digit by digit, and of two byte strings.
use Prim.Native.Nat.{
  ℕ, zero, suc, ◌+◌, ◌*◌, ◌/◌, ◌%◌, ◌≤◌, ◌<◌, digits, differ, bit_xor, bit_xor-bitwise,
}
use mathlib.Core.Path.{◌≡◌, refl, ap}
use mathlib.Core.List.{[], ◌∷◌}
use native.Mathlib.Omega.{arith}
use dkms.Prelude.Lists.{length}
use dkms.Prelude.Bytes.{Bytes}

xor_digits : ℕ → ℕ → ℕ → ℕ
xor_digits n a b = digits (λ y. y) differ n a b

xor_digits_fuel : (n m a b : ℕ) → a ≤ n → a ≤ m → xor_digits n a b ≡ xor_digits m a b
unfolding xor_digits
xor_digits_fuel zero zero a b p q = refl
xor_digits_fuel zero (suc m) zero b p q = refl
xor_digits_fuel zero (suc m) (suc a) b p q = absurd (omega arith)
xor_digits_fuel (suc n) zero zero b p q = refl
xor_digits_fuel (suc n) zero (suc a) b p q = absurd (omega arith)
xor_digits_fuel (suc n) (suc m) zero b p q = refl
xor_digits_fuel (suc n) (suc m) (suc a) b p q =
    let e = xor_digits_fuel n m (suc a / 2) (b / 2) (omega arith) (omega arith) in
    ap (λ (t : ℕ). t * 2 + differ (suc a % 2) (b % 2)) e

zero-xor : (b : ℕ) → bit_xor 0 b ≡ b
zero-xor b = bit_xor-bitwise 0 b

xor_step : (a b : ℕ) → bit_xor a b ≡ bit_xor (a / 2) (b / 2) * 2 + differ (a % 2) (b % 2)
unfolding xor_digits
xor_step zero b = omega (arith, zero-xor b, zero-xor (b / 2))
xor_step (suc a) b = omega (
  arith,
  bit_xor-bitwise (suc a) b,
  bit_xor-bitwise (suc a / 2) (b / 2),
  xor_digits_fuel a (suc a / 2) (suc a / 2) (b / 2) (omega arith) (omega arith),
)

differ_small : (x y : ℕ) → x < 2 → y < 2 → differ x y < 2
differ_small zero y p q = q
differ_small (suc zero) zero p q = p
differ_small (suc zero) (suc zero) p q = omega arith
differ_small (suc zero) (suc (suc y)) p q = absurd (omega arith)
differ_small (suc (suc x)) y p q = absurd (omega arith)

differ_twice : (x y : ℕ) → x < 2 → y < 2 → differ (differ x y) y ≡ x
differ_twice zero zero p q = refl
differ_twice zero (suc zero) p q = refl
differ_twice zero (suc (suc y)) p q = absurd (omega arith)
differ_twice (suc zero) zero p q = refl
differ_twice (suc zero) (suc zero) p q = refl
differ_twice (suc zero) (suc (suc y)) p q = absurd (omega arith)
differ_twice (suc (suc x)) y p q = absurd (omega arith)

xor_twice_below : (n a b : ℕ) → a ≤ n → b ≤ n → bit_xor (bit_xor a b) b ≡ a
xor_twice_below zero a b p q =
    let x : a ≡ 0 = omega arith in let y : b ≡ 0 = omega arith in rw (x, y)
xor_twice_below (suc n) a b p q =
    let s = xor_step a b in
    let d = differ_small (a % 2) (b % 2) (omega arith) (omega arith) in
    let half : bit_xor a b / 2 ≡ bit_xor (a / 2) (b / 2) = omega arith in
    let low : bit_xor a b % 2 ≡ differ (a % 2) (b % 2) = omega arith in
    rw
      (
        xor_step (bit_xor a b) b,
        half,
        low,
        differ_twice (a % 2) (b % 2) (omega arith) (omega arith),
      )
      (omega (arith, xor_twice_below n (a / 2) (b / 2) (omega arith) (omega arith)))

-- What is masked twice with the same number is as it was.
pub xor_twice : (a b : ℕ) → bit_xor (bit_xor a b) b ≡ a
xor_twice a b = xor_twice_below (a + b) a b (omega arith) (omega arith)

-- `a.iter().zip(b.iter())`, each pair by `^`
unfoldable pub xor_zip : Bytes → Bytes → Bytes
xor_zip [] bs = []
xor_zip (a ∷ aa) [] = []
xor_zip (a ∷ aa) (b ∷ bs) = bit_xor a b ∷ xor_zip aa bs

pub length-xor_zip : (xs ys : Bytes) → length xs ≤ length ys → length (xor_zip xs ys) ≡ length xs
unfolding xor_zip
length-xor_zip [] ys h = refl
length-xor_zip (x ∷ xs) [] h = absurd (omega arith)
length-xor_zip (x ∷ xs) (y ∷ ys) h = ap suc (length-xor_zip xs ys (omega arith))

pub xor_zip_twice : (xs ys : Bytes) → length xs ≤ length ys → xor_zip (xor_zip xs ys) ys ≡ xs
unfolding xor_zip
xor_zip_twice [] ys h = refl
xor_zip_twice (x ∷ xs) [] h = absurd (omega arith)
xor_zip_twice (x ∷ xs) (y ∷ ys) h =
    rw (xor_twice x y) (ap (◌∷◌ x) (xor_zip_twice xs ys (omega arith)))
