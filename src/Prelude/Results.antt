-- ===== src/Prelude/Results.antt =====
-- The result of code that can stop at a failed assertion, reach outside a buffer or through NULL
-- (`out_of_bounds`), or run out of the model's fuel.
use mathlib.Core.Bool.{Bool, true, false}

pub data Run {ℓ} (A : Type ℓ) : Type ℓ where
  done : A → Run A
  assert_failed : Run A
  out_of_bounds : Run A
  out_of_fuel : Run A

infixl 5 ◌>>=◌ ◌>>◌
abbrev pub ◌>>=◌ {ℓ κ} : {A : Type ℓ} {B : Type κ} → Run A → (A → Run B) → Run B
done a >>= f = f a
assert_failed >>= f = assert_failed
out_of_bounds >>= f = out_of_bounds
out_of_fuel >>= f = out_of_fuel

abbrev pub ◌>>◌ {ℓ} : {B : Type ℓ} → Run (Unit {0}) → Run B → Run B
m >> k = m >>= λ _. k

-- `assert(b)`
abbrev pub check : Bool → Run (Unit {0})
check true = done tt
check false = assert_failed

-- The code comes to an end within its buffers, and what it returns has the property; it may stop at
-- an assertion.
abbrev pub Ensures {ℓ} : {A : Type ℓ} → (A → Type 0) → Run A → Type 0
Ensures P (done a) = P a
Ensures P assert_failed = Unit
Ensures P out_of_bounds = ⊥
Ensures P out_of_fuel = ⊥

-- Two steps in a row.
pub Ensures-bind {ℓ κ} :
    {A : Type ℓ} {B : Type κ} (P : A → Type 0) (Q : B → Type 0) (m : Run A) (k : A → Run B)
    → Ensures P m
    → ((a : A) → P a → Ensures Q (k a))
    → Ensures Q (m >>= k)
Ensures-bind P Q (done a) k h f = f a h
Ensures-bind P Q assert_failed k h f = tt
Ensures-bind P Q out_of_bounds k h f = h
Ensures-bind P Q out_of_fuel k h f = h

pub Ensures-map {ℓ} :
    {A : Type ℓ} (P Q : A → Type 0) (m : Run A) → ((a : A) → P a → Q a) → Ensures P m → Ensures Q m
Ensures-map P Q (done a) f h = f a h
Ensures-map P Q assert_failed f h = tt
Ensures-map P Q out_of_bounds f h = h
Ensures-map P Q out_of_fuel f h = h

pub Ensures-and {ℓ} :
    {A : Type ℓ} (P Q : A → Type 0) (m : Run A)
    → Ensures P m
    → Ensures Q m
    → Ensures (λ a. P a × Q a) m
Ensures-and P Q (done a) h k = (h, k)
Ensures-and P Q assert_failed h k = tt
Ensures-and P Q out_of_bounds h k = absurd h
Ensures-and P Q out_of_fuel h k = absurd h

-- If the code returns, what it returns has the property.
abbrev pub WhenDone {ℓ} : {A : Type ℓ} → (A → Type 0) → Run A → Type 0
WhenDone P (done a) = P a
WhenDone P assert_failed = Unit
WhenDone P out_of_bounds = Unit
WhenDone P out_of_fuel = Unit

pub WhenDone-bind {ℓ κ} :
    {A : Type ℓ} {B : Type κ} (P : A → Type 0) (Q : B → Type 0) (m : Run A) (k : A → Run B)
    → WhenDone P m
    → ((a : A) → P a → WhenDone Q (k a))
    → WhenDone Q (m >>= k)
WhenDone-bind P Q (done a) k h f = f a h
WhenDone-bind P Q assert_failed k h f = tt
WhenDone-bind P Q out_of_bounds k h f = tt
WhenDone-bind P Q out_of_fuel k h f = tt

pub Ensures-WhenDone {ℓ} : {A : Type ℓ} (P : A → Type 0) (m : Run A) → Ensures P m → WhenDone P m
Ensures-WhenDone P (done a) h = h
Ensures-WhenDone P assert_failed h = tt
Ensures-WhenDone P out_of_bounds h = tt
Ensures-WhenDone P out_of_fuel h = tt
