-- ===== src/Store/Isolations/Rows.antt =====
-- Finding and updating rows of `isolations` and `semantic_work`.
use codex_loop.Base.{
  ℕ, ◌≤◌, String, ◌≡◌, refl, inl, inr, Bool, true, false, Option, none, some, List, [], ◌∷◌, count,
  if◌then◌else◌, Bool-cases, str_eq, eq_iff, eq_refl, subst, arith, some_injective,
}
use codex_loop.Store.{Isolation, SemanticWork, WorkStatus}
use codex_loop.Store.Status.{is_active_work}
use codex_loop.Store.Cancel.{first_active, abort_rows, abort_work}
use codex_loop.Store.Isolations.{find_isolation, find_work, update_isolation, update_work}

abbrev pub is_active_row : Isolation → Bool
is_active_row i = is_active_work i.status

abbrev pub is_active_semantic : SemanticWork → Bool
is_active_semantic w = is_active_work w.status

abbrev pub map_when {ℓ} : {A : Type ℓ} → Bool → (A → A) → Option A → Option A
map_when here f none = none
map_when here f (some a) = some (if here then f a else a)

pub map_when-false {ℓ} : {A : Type ℓ} (f : A → A) (o : Option A) → map_when false f o ≡ o
map_when-false f none = refl
map_when-false f (some a) = refl

pub map_when-true {ℓ} :
    {A : Type ℓ} (f : A → A) (o : Option A) {b : A}
    → map_when true f o ≡ some b
    → (a : A) × (o ≡ some a) × (f a ≡ b)
map_when-true f none h = cc
map_when-true f (some a) h = (a, refl, some_injective h)

pub find-update_isolation :
    (j k : String) (f : Isolation → Isolation) (rows : List Isolation)
    → ((i : Isolation) → (f i).isolation_id ≡ i.isolation_id)
    → find_isolation j (update_isolation k f rows) ≡ map_when (str_eq j k) f (find_isolation j rows)
unfolding find_isolation update_isolation
find-update_isolation j k f [] keeps = refl
find-update_isolation j k f (i ∷ rest) keeps = ground (
  arith,
  keeps i,
  find-update_isolation j k f rest keeps,
  eq_iff i.isolation_id k,
  eq_iff i.isolation_id j,
  eq_iff j k,
)

pub find-update_work :
    (j k : String) (f : SemanticWork → SemanticWork) (rows : List SemanticWork)
    → ((w : SemanticWork) → (f w).isolation_id ≡ w.isolation_id)
    → find_work j (update_work k f rows) ≡ map_when (str_eq j k) f (find_work j rows)
unfolding find_work update_work
find-update_work j k f [] keeps = refl
find-update_work j k f (w ∷ rest) keeps = ground (
  arith,
  keeps w,
  find-update_work j k f rest keeps,
  eq_iff w.isolation_id k,
  eq_iff w.isolation_id j,
  eq_iff j k,
)

-- Both aborts write a row only if it is active.
abbrev pub abort_row : ℕ → Isolation → Isolation
abort_row generation i =
    if is_active_row i
    then record i { status = WorkStatus.aborted; exit_generation = some generation }
    else i

abbrev pub abort_semantic : SemanticWork → SemanticWork
abort_semantic w = if is_active_semantic w then record w { status = WorkStatus.aborted } else w

pub abort_rows_lem :
    (k : String) (generation : ℕ) (rows : List Isolation)
    → abort_rows k generation rows ≡ update_isolation k (abort_row generation) rows
unfolding abort_rows update_isolation
abort_rows_lem k generation [] = refl
abort_rows_lem k generation (i ∷ rest) = ground (arith, abort_rows_lem k generation rest)

pub abort_work_lem :
    (k : String) (rows : List SemanticWork) → abort_work k rows ≡ update_work k abort_semantic rows
unfolding abort_work update_work
abort_work_lem k [] = refl
abort_work_lem k (w ∷ rest) = ground (arith, abort_work_lem k rest)

-- An update that activates no row leaves no more active rows.
pub count-update_isolation :
    (k : String) (f : Isolation → Isolation) (rows : List Isolation)
    → ((i : Isolation) → is_active_row (f i) ≡ true → is_active_row i ≡ true)
    → count is_active_row (update_isolation k f rows) ≤ count is_active_row rows
unfolding update_isolation
count-update_isolation k f [] fewer = omega arith
count-update_isolation k f (i ∷ rest) fewer =
    ground (arith, fewer i, count-update_isolation k f rest fewer)

pub find_active :
    (k : String) (rows : List Isolation) {i : Isolation}
    → find_isolation k rows ≡ some i
    → is_active_row i ≡ true
    → 1 ≤ count is_active_row rows
unfolding find_isolation
find_active k [] e a = cc
find_active k (j ∷ rest) {i} e a = ground (arith, find_active k rest {i = i})

pub first_active-none :
    (rows : List Isolation) → first_active rows ≡ none → count is_active_row rows ≡ 0
unfolding first_active
first_active-none [] e = refl
first_active-none (i ∷ rest) e = ground (arith, first_active-none rest)

pub first_active_zero :
    (rows : List Isolation) → count is_active_row rows ≡ 0 → first_active rows ≡ none
unfolding first_active
first_active_zero [] e = refl
first_active_zero (i ∷ rest) e = ground (arith, first_active_zero rest)

-- Where one row at most is active, aborting the first active one leaves none.
pub abort_first :
    (generation : ℕ) (rows : List Isolation) {i : Isolation}
    → count is_active_row rows ≤ 1
    → first_active rows ≡ some i
    → count is_active_row (update_isolation i.isolation_id (abort_row generation) rows) ≡ 0
unfolding first_active update_isolation
abort_first generation [] one e = cc
abort_first generation (j ∷ rest) {i} one e = elim (Bool-cases (is_active_row j)) [
  | inl here ↦
      let own : j ≡ i = some_injective (rw here at e) in
      subst
        (λ (x : Isolation).
          count is_active_row (update_isolation x.isolation_id (abort_row generation) (j ∷ rest))
          ≡ 0)
        own
        (rw (eq_refl j.isolation_id, here)
          (ground (
            arith,
            count-update_isolation j.isolation_id (abort_row generation) rest (λ x h. ground arith),
          )))
  | inr later ↦
      let below : first_active rest ≡ some i = rw later at e in
      ground (arith, abort_first generation rest {i = i} (ground arith) below)
]
