-- ===== src/Base/Posts.antt =====
-- What holds of a result, if there is one, along a chain of operations that may raise.
use mathlib.Core.Path.{◌≡◌, refl, subst}
use mathlib.Core.Bool.{Bool, true, false}
use codex_loop.Base.Results.{Result, err, ok, reject, ◌>>=◌, ◌>>◌, ok_injective}

pub record Post {ℓ κ μ} {E : Type ℓ} {A : Type κ} (P : A → Type μ) (m : Result E A)
    : Type (ℓ ⊔ κ ⊔ μ) where
  pub holds : (a : A) → m ≡ ok a → P a

pub Post-ok {ℓ κ μ} :
    {E : Type ℓ} {A : Type κ} {P : A → Type μ} (a : A) → P a → Post {E = E} P (ok a)
Post-ok {P = P} a p = record { holds = λ b h. subst P (ok_injective h) p }

pub Post-err {ℓ κ μ} : {E : Type ℓ} {A : Type κ} {P : A → Type μ} (e : E) → Post {A = A} P (err e)
Post-err e = record { holds = λ b h. cc }

-- After a guard.
pub Post-reject {ℓ κ μ} :
    {E : Type ℓ} {A : Type κ} {P : A → Type μ} (b : Bool) (e : E) (m : Result E A)
    → (b ≡ false → Post P m)
    → Post P (reject b e >> m)
Post-reject true e m h = Post-err e
Post-reject false e m h = h refl

-- After a step of which something is known.
pub Post-bind {ℓ κ μ ν ξ} :
    {E : Type ℓ} {A : Type κ} {B : Type μ} {Q : A → Type ν} {P : B → Type ξ} (m : Result E A)
    (next : A → Result E B)
    → Post Q m
    → ((a : A) → Q a → Post P (next a))
    → Post P (m >>= next)
Post-bind (err e) next q h = Post-err e
Post-bind (ok a) next q h = h a (q.holds a refl)

-- After a step whose result is remembered.
pub Post-step {ℓ κ μ ν} :
    {E : Type ℓ} {A : Type κ} {B : Type μ} {P : B → Type ν} (m : Result E A) (next : A → Result E B)
    → ((a : A) → m ≡ ok a → Post P (next a))
    → Post P (m >>= next)
Post-step (err e) next h = Post-err e
Post-step (ok a) next h = h a refl

pub Post-map {ℓ κ μ ν} :
    {E : Type ℓ} {A : Type κ} {P : A → Type μ} {Q : A → Type ν} {m : Result E A}
    → Post P m
    → ((a : A) → P a → Q a)
    → Post Q m
Post-map p h = record { holds = λ a e. h a (p.holds a e) }

pub Post-first {ℓ κ μ ν} :
    {E : Type ℓ} {A : Type κ} {P : A → Type μ} {Q : A → Type ν} {m : Result E A}
    → Post (λ a. P a × Q a) m
    → Post P m
Post-first p = record { holds = λ a e. (p.holds a e).0 }
