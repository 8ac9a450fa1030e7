-- ===== src/Base/Results.antt =====
-- Operations that may raise: the error is a value, and the state of a failed operation is dropped.
use mathlib.Core.Path.{◌≡◌, refl, ap}
use mathlib.Core.Option.{some}
use mathlib.Core.Bool.{Bool, true, false}
use codex_loop.Base.Tests.{if◌then◌else◌}

-- What was raised, or what was returned.
pub data Result {ℓ κ} (E : Type ℓ) (A : Type κ) : Type (ℓ ⊔ κ) where
  err : E → Result E A
  ok : A → Result E A

-- `if test: raise e`
abbrev pub reject {ℓ} : {E : Type ℓ} → Bool → E → Result E (Unit {0})
reject test error = if test then err error else ok tt

infixl 5 ◌>>=◌
abbrev pub ◌>>=◌ {ℓ κ μ} :
    {E : Type ℓ} {A : Type κ} {B : Type μ} → Result E A → (A → Result E B) → Result E B
err raised >>= next = err raised
ok value >>= next = next value

infixl 5 ◌>>◌
abbrev pub ◌>>◌ {ℓ κ} : {E : Type ℓ} {B : Type κ} → Result E (Unit {0}) → Result E B → Result E B
first >> second = first >>= λ _. second

-- A successful chain has a successful first step.
pub >>=-eq-ok {ℓ κ μ} :
    {E : Type ℓ} {A : Type κ} {B : Type μ} (first : Result E A) (next : A → Result E B) {result : B}
    → (first >>= next) ≡ ok result
    → (value : A) × (first ≡ ok value) × (next value ≡ ok result)
>>=-eq-ok (err raised) next h = cc
>>=-eq-ok (ok value) next h = (value, refl, h)

-- What a passed guard says.
pub reject-eq-ok {ℓ κ} :
    {E : Type ℓ} {A : Type κ} (b : Bool) (e : E) (m : Result E A) {a : A}
    → (reject b e >> m) ≡ ok a
    → (b ≡ false) × (m ≡ ok a)
reject-eq-ok true e m h = cc
reject-eq-ok false e m h = (refl, h)

-- A guard alone.
pub reject_ok {ℓ} : {E : Type ℓ} (b : Bool) (e : E) → reject b e ≡ ok tt → b ≡ false
reject_ok true e h = cc
reject_ok false e h = refl

pub ok_injective {ℓ κ} :
    {E : Type ℓ} {A : Type κ} {a b : A} → ◌≡◌ {A = Result E A} (ok a) (ok b) → a ≡ b
ok_injective h = cc

pub some_injective {ℓ} : {A : Type ℓ} {a b : A} → some a ≡ some b → a ≡ b
some_injective h = cc

-- A chain that gives the first half of what its only step gave.
pub first-eq-ok {ℓ κ μ} :
    {E : Type ℓ} {A : Type κ} {B : Type μ} (m : Result E (A × B)) {a : A}
    → (m >>= λ r. ok r.0) ≡ ok a
    → (b : B) × (m ≡ ok (a, b))
first-eq-ok (ok (a, b)) h = (b, ap (λ x. ok (x, b)) (ok_injective h))
first-eq-ok (err e) h = cc
