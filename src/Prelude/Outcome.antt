-- ===== src/Prelude/Outcome.antt =====
-- The result of code that returns an error, or panics.
use mathlib.Core.Path.{◌≡◌, refl, subst}
use mathlib.Core.Logic.{◌≢◌}
use mathlib.Core.Bool.{Bool, true, false}

-- `panic` is a Rust panic: a slice or `Buf` read past the end, a failed `assert!`.
pub data Outcome {ℓ κ} (E : Type ℓ) (A : Type κ) : Type (ℓ ⊔ κ) where
  ok : A → Outcome E A
  err : E → Outcome E A
  panic : Outcome E A

infixl 5 ◌>>=◌ ◌>>◌
abbrev pub ◌>>=◌ {ℓ κ μ} :
    {E : Type ℓ} {A : Type κ} {B : Type μ} → Outcome E A → (A → Outcome E B) → Outcome E B
panic >>= next = panic
err failure >>= next = err failure
ok value >>= next = next value

abbrev pub ◌>>◌ {ℓ μ} : {E : Type ℓ} {B : Type μ} → Outcome E (Unit {0}) → Outcome E B → Outcome E B
first >> second = first >>= λ _. second

-- `if failed { return Err(e); }`
abbrev pub refuse_if {ℓ} : {E : Type ℓ} → Bool → E → Outcome E (Unit {0})
refuse_if true e = err e
refuse_if false e = ok tt

-- Inversion of a `do` block that succeeded.
pub >>=-eq-ok {ℓ κ μ} :
    {E : Type ℓ} {A : Type κ} {B : Type μ} {result : B} (first : Outcome E A)
    (next : A → Outcome E B)
    → (first >>= next) ≡ ok result
    → (value : A) × (first ≡ ok value) × (next value ≡ ok result)
>>=-eq-ok panic next e = cc
>>=-eq-ok (err failure) next e = cc
>>=-eq-ok (ok value) next e = (value, refl, e)

pub refuse_if-ok {ℓ} :
    {E : Type ℓ} (b : Bool) (e : E) {u : Unit {0}} → refuse_if b e ≡ ok u → b ≡ false
refuse_if-ok true e h = cc
refuse_if-ok false e h = refl

-- No panic, and a result only if it satisfies `P`.
pub data Yields {E A : Type 0} (P : A → Type 0) : Outcome E A → Type 0 where
  gives : (a : A) → P a → Yields P (ok a)
  refuses : (e : E) → Yields P (err e)

pub Yields-refuse_if : {E : Type 0} (b : Bool) (e : E) → Yields (λ _. b ≡ false) (refuse_if b e)
Yields-refuse_if true e = refuses e
Yields-refuse_if false e = gives tt refl

module _ {E A : Type 0} where
  pub Yields-mono :
      {P Q : A → Type 0} {m : Outcome E A} → ((a : A) → P a → Q a) → Yields P m → Yields Q m
  Yields-mono h (gives a p) = gives a (h a p)
  Yields-mono h (refuses e) = refuses e

  pub Yields-ne-panic : {P : A → Type 0} {m : Outcome E A} → Yields P m → m ≢ panic
  Yields-ne-panic (gives a p) e = cc
  Yields-ne-panic (refuses x) e = cc

  pub Yields-ok : {P : A → Type 0} {m : Outcome E A} {a : A} → Yields P m → m ≡ ok a → P a
  Yields-ok {P} (gives a p) e = subst P (cc) p
  Yields-ok (refuses x) e = cc

pub Yields-bind :
    {E A B : Type 0} {P : A → Type 0} {Q : B → Type 0} {m : Outcome E A} (f : A → Outcome E B)
    → Yields P m
    → ((a : A) → P a → Yields Q (f a))
    → Yields Q (m >>= f)
Yields-bind f (gives a p) k = k a p
Yields-bind f (refuses e) k = refuses e
