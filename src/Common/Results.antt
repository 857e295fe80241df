-- ===== src/Common/Results.antt =====
-- How a call ends that may not come back: the program asserts, or does what C++ leaves undefined.
use mathlib.Core.Bool.{Bool, true, false}
use mathlib.Core.Path.{◌≡◌, refl}
use mathlib.Core.Logic.{◌⊎◌, inl, inr}

-- `assertion`: a failed `assert`, which aborts (the build never defines NDEBUG). `memory`: an access
-- outside an object or through a null pointer. `overflow`: a signed value out of its type's range.
pub data Fault : Type 0 where
  assertion memory overflow : Fault

pub data Outcome {ℓ} (A : Type ℓ) : Type ℓ where
  ok : A → Outcome A
  fault : Fault → Outcome A

infixl 5 ◌>>=◌ ◌>>◌
abbrev pub ◌>>=◌ {ℓ κ} : {A : Type ℓ} {B : Type κ} → Outcome A → (A → Outcome B) → Outcome B
fault reason >>= next = fault reason
ok value >>= next = next value

abbrev pub ◌>>◌ {ℓ} : {B : Type ℓ} → Outcome (Unit {0}) → Outcome B → Outcome B
fault reason >> next = fault reason
ok _ >> next = next

-- `assert(b)`
abbrev pub assert : Bool → Outcome (Unit {0})
assert true = ok tt
assert false = fault assertion

-- An access that is defined only where `b` holds.
abbrev pub defined : Bool → Outcome (Unit {0})
defined true = ok tt
defined false = fault memory

pub Outcome-cases {ℓ} :
    {A : Type ℓ} (o : Outcome A) → ((a : A) × (o ≡ ok a)) ⊎ ((f : Fault) × (o ≡ fault f))
Outcome-cases (ok a) = inl (a, refl)
Outcome-cases (fault f) = inr (f, refl)

-- What holds of a result, where there is one.
abbrev pub Then {ℓ} : {A : Type ℓ} → (A → Type 0) → Outcome A → Type 0
Then P (ok a) = P a
Then P (fault e) = Unit {0}

pub Then-ok {ℓ} : {A : Type ℓ} (P : A → Type 0) {m : Outcome A} {a : A} → Then P m → m ≡ ok a → P a
Then-ok P h e = rw e at h

pub Then-all {ℓ} : {A : Type ℓ} (P : A → Type 0) (m : Outcome A) → ((a : A) → P a) → Then P m
Then-all P (ok a) h = h a
Then-all P (fault e) h = tt
