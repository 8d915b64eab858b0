-- ===== src/Prelude/Outcomes.antt =====
-- How a call ends. `LogFatalStream` and a failed `ENSURE` or `assert` end the process (`aborted`);
-- `undefined` is C++'s undefined behaviour; `thrown` is an exception that leaves the function;
-- `waits` is a call that blocks for ever if no other thread goes on.
use mathlib.Core.Path.{◌≡◌, refl}
use mathlib.Core.Bool.{Bool, true, false}
use mathlib.Core.Option.{Option, none, some}

pub data Outcome {ℓ} (A : Type ℓ) : Type ℓ where
  ok : A → Outcome A
  aborted : Outcome A
  undefined : Outcome A
  thrown : Outcome A
  waits : Outcome A

infixl 5 ◌>>=◌
-- What follows a call that returns; any other ending is passed on.
abbrev pub ◌>>=◌ {a b} : {X : Type a} {Y : Type b} → Outcome X → (X → Outcome Y) → Outcome Y
undefined >>= next = undefined
aborted >>= next = aborted
thrown >>= next = thrown
waits >>= next = waits
ok x >>= next = next x

-- The value of an option, or the given failure.
abbrev pub or_fail {ℓ} : {A : Type ℓ} → Option A → Outcome A → Outcome A
or_fail none e = e
or_fail (some a) e = ok a

-- The call returns.
abbrev pub is_ok {ℓ} : {A : Type ℓ} → Outcome A → Bool
is_ok (ok a) = true
is_ok aborted = false
is_ok undefined = false
is_ok thrown = false
is_ok waits = false

pub ok_value {ℓ} : {A : Type ℓ} (m : Outcome A) → is_ok m ≡ true → (a : A) × (m ≡ ok a)
ok_value (ok a) h = (a, refl)
ok_value aborted h = cc
ok_value undefined h = cc
ok_value thrown h = cc
ok_value waits h = cc

-- A bind that returns passed through a value of its first call.
pub >>=-eq-ok {a b} :
    {X : Type a} {Y : Type b} (call : Outcome X) (next : X → Outcome Y) {y : Y}
    → (call >>= next) ≡ ok y
    → (x : X) × (call ≡ ok x) × (next x ≡ ok y)
>>=-eq-ok aborted next returns = cc
>>=-eq-ok undefined next returns = cc
>>=-eq-ok thrown next returns = cc
>>=-eq-ok waits next returns = cc
>>=-eq-ok (ok x) next returns = (x, refl, returns)

pub >>=-assoc {a b c} :
    {X : Type a} {Y : Type b} {Z : Type c} (m : Outcome X) (f : X → Outcome Y) (g : Y → Outcome Z)
    → (m >>= f >>= g) ≡ (m >>= λ x. f x >>= g)
>>=-assoc (ok x) f g = refl
>>=-assoc aborted f g = refl
>>=-assoc undefined f g = refl
>>=-assoc thrown f g = refl
>>=-assoc waits f g = refl

pub >>=-ext {a b} :
    {X : Type a} {Y : Type b} (m : Outcome X) (f g : X → Outcome Y)
    → ((x : X) → f x ≡ g x)
    → (m >>= f) ≡ (m >>= g)
>>=-ext (ok x) f g e = e x
>>=-ext aborted f g e = refl
>>=-ext undefined f g e = refl
>>=-ext thrown f g e = refl
>>=-ext waits f g e = refl

pub ok-injective {ℓ} : {A : Type ℓ} {a b : A} → ok a ≡ ok b → a ≡ b
ok-injective h = cc
