-- ===== src/Base/Fallible.antt =====
-- A run of the program's code: it returns, or it panics.
use mathlib.Core.Path.{◌≡◌, refl, subst}

pub data Panic : Type 0 where
  index_out_of_bounds : Panic
  overflow : Panic
  remainder_by_zero : Panic
  unreachable : Panic
  todo : Panic
  expect_failed : Panic
  wrong_metric : Panic

pub data Run {ℓ} (A : Type ℓ) : Type ℓ where
  panic : Panic → Run A
  ok : A → Run A

infixl 5 ◌>>=◌
abbrev pub ◌>>=◌ {ℓ κ} : {A : Type ℓ} {B : Type κ} → Run A → (A → Run B) → Run B
panic reason >>= next = panic reason
ok a >>= next = next a

-- The run ends normally, in a value that satisfies `P`.
abbrev pub Returns {ℓ κ} : {A : Type ℓ} (run : Run A) (P : A → Type κ) → Type (ℓ ⊔ κ)
Returns {A} run P = (result : A) × (run ≡ ok result) × P result

pub data Never {κ} : Type κ where

pub data Allowed {κ} : Type κ where
  allowed : Allowed

-- The same without the value: the run does not panic, and what it returns satisfies `P`.
abbrev pub Ends {ℓ κ} : {A : Type ℓ} → (A → Type κ) → Run A → Type κ
Ends P (ok a) = P a
Ends P (panic e) = Never

pub Ends-mono {ℓ κ μ} :
    {A : Type ℓ} {P : A → Type κ} {Q : A → Type μ} (r : Run A)
    → ((a : A) → P a → Q a)
    → Ends P r
    → Ends Q r
Ends-mono (ok a) f h = f a h
Ends-mono (panic e) f h = elim h [ ]

pub Ends-ok {ℓ κ} : {A : Type ℓ} (P : A → Type κ) {r : Run A} {a : A} → r ≡ ok a → Ends P r → P a
Ends-ok P e h = subst (Ends P) e h

pub Ends-Returns {ℓ κ} : {A : Type ℓ} {P : A → Type κ} (r : Run A) → Ends P r → Returns r P
Ends-Returns (ok a) h = (a, refl, h)
Ends-Returns (panic e) h = elim h [ ]

-- If the run returns, then what it returns satisfies `P`; a panic is permitted.
abbrev pub Permits {ℓ κ} : {A : Type ℓ} → (A → Type κ) → Run A → Type κ
Permits P (ok a) = P a
Permits P (panic e) = Allowed

pub Permits-bind {ℓ κ μ} :
    {A : Type ℓ} {B : Type κ} (P : B → Type μ) (r : Run A) (f : A → Run B)
    → ((a : A) → r ≡ ok a → Permits P (f a))
    → Permits P (r >>= f)
Permits-bind P (ok a) f h = h a refl
Permits-bind P (panic e) f h = allowed

pub Permits-ok {ℓ κ} :
    {A : Type ℓ} (P : A → Type κ) {r : Run A} {a : A} → r ≡ ok a → Permits P r → P a
Permits-ok P e h = subst (Permits P) e h

pub Permits-mono {ℓ κ μ} :
    {A : Type ℓ} {P : A → Type κ} {Q : A → Type μ} (r : Run A)
    → ((a : A) → P a → Q a)
    → Permits P r
    → Permits Q r
Permits-mono (ok a) f h = f a h
Permits-mono (panic e) f h = allowed

pub Ends-bind {ℓ κ μ ν} :
    {A : Type ℓ} {B : Type κ} (Q : A → Type μ) (P : B → Type ν) (r : Run A) (f : A → Run B)
    → Ends Q r
    → ((a : A) → Q a → Ends P (f a))
    → Ends P (r >>= f)
Ends-bind Q P (ok a) f h k = k a h
Ends-bind Q P (panic e) f h k = elim h [ ]

-- The run does not panic.
abbrev pub Defined {ℓ} : {A : Type ℓ} → Run A → Type 0
Defined (ok a) = Unit
Defined (panic e) = Never

pub Defined-Permits {ℓ κ} :
    {A : Type ℓ} (P : A → Type κ) (r : Run A) → Defined r → Permits P r → Ends P r
Defined-Permits P (ok a) h k = k
Defined-Permits P (panic e) h k = elim h [ ]

pub Defined-bind {ℓ κ} :
    {A : Type ℓ} {B : Type κ} (r : Run A) (f : A → Run B)
    → Defined r
    → ((a : A) → r ≡ ok a → Defined (f a))
    → Defined (r >>= f)
Defined-bind (ok a) f h k = k a refl
Defined-bind (panic e) f h k = elim h [ ]

pub Defined-Ends {ℓ κ} : {A : Type ℓ} (P : A → Type κ) (r : Run A) → Ends P r → Defined r
Defined-Ends P (ok a) h = tt
Defined-Ends P (panic e) h = elim h [ ]
