-- ===== src/Store/External/Rows.antt =====
-- Finding, updating and counting rows of `external_actions`.
use codex_loop.Base.{
  suc, ◌≤◌, String, ◌≡◌, refl, ap, inl, inr, Bool, true, Option, none, some, List, [], ◌∷◌, length,
  count, select, All, if◌then◌else◌, Bool-cases, str_eq, eq_iff, arith,
}
use codex_loop.Store.{Action}
use codex_loop.Store.External.{find_action}
use codex_loop.Store.External.Transact.{update_action}

-- `action_id` is the primary key.
abbrev pub UniqueIds : List Action → Type 0
UniqueIds [] = Unit
UniqueIds (a ∷ rest) = (find_action a.action_id rest ≡ none) × UniqueIds rest

abbrev pub KeepsId : (Action → Action) → Type 0
KeepsId f = (a : Action) → (f a).action_id ≡ a.action_id

pub update_missing :
    (k : String) (f : Action → Action) (rows : List Action)
    → find_action k rows ≡ none
    → update_action k f rows ≡ rows
unfolding find_action update_action
update_missing k f [] h = refl
update_missing k f (a ∷ rest) h = elim (Bool-cases (str_eq a.action_id k)) [
  | inl hit ↦ absurd (cc (rw hit at h))
  | inr miss ↦ rw miss (ap (λ t. a ∷ t) (update_missing k f rest (rw miss at h)))
]

pub find_action_id :
    (k : String) (rows : List Action) {a : Action} → find_action k rows ≡ some a → a.action_id ≡ k
unfolding find_action
find_action_id k [] h = cc
find_action_id k (b ∷ rest) h = elim (Bool-cases (str_eq b.action_id k)) [
  | inl hit ↦ ground (arith, eq_iff b.action_id k)
  | inr miss ↦ find_action_id k rest (rw miss at h)
]

abbrev pub map_when : Bool → (Action → Action) → Option Action → Option Action
map_when here f none = none
map_when here f (some a) = some (if here then f a else a)

-- An update leaves the rows under other keys alone, and writes the row under its own.
pub find-update :
    (j k : String) (f : Action → Action) (rows : List Action)
    → KeepsId f
    → find_action j (update_action k f rows) ≡ map_when (str_eq j k) f (find_action j rows)
unfolding find_action update_action
find-update j k f [] keeps = refl
find-update j k f (a ∷ rest) keeps = ground (
  arith,
  keeps a,
  find-update j k f rest keeps,
  eq_iff a.action_id k,
  eq_iff a.action_id j,
  eq_iff j k,
)

pub find-update_none :
    (j k : String) (f : Action → Action) (rows : List Action)
    → KeepsId f
    → find_action j rows ≡ none
    → find_action j (update_action k f rows) ≡ none
find-update_none j k f rows keeps h = rw (find-update j k f rows keeps, h)

pub update-UniqueIds :
    (k : String) (f : Action → Action) (rows : List Action)
    → KeepsId f
    → UniqueIds rows
    → UniqueIds (update_action k f rows)
unfolding update_action
update-UniqueIds k f [] keeps u = tt
update-UniqueIds k f (a ∷ rest) keeps u = (
  elim (Bool-cases (str_eq a.action_id k)) [
    | inl hit ↦ rw (hit, keeps a) (find-update_none a.action_id k f rest keeps u.0)
    | inr miss ↦ rw miss (find-update_none a.action_id k f rest keeps u.0)
  ],
  update-UniqueIds k f rest keeps u.1,
)

-- A test that the found row passes after the update as before has as many rows.
pub count-update :
    (p : Action → Bool) (k : String) (f : Action → Action) (rows : List Action)
    → UniqueIds rows
    → ((a : Action) → find_action k rows ≡ some a → p (f a) ≡ p a)
    → count p (update_action k f rows) ≡ count p rows
unfolding find_action update_action
count-update p k f [] u same = refl
count-update p k f (a ∷ rest) u same = elim (Bool-cases (str_eq a.action_id k)) [
  | inl hit ↦
      let own : a.action_id ≡ k = (eq_iff a.action_id k).0 hit in
      let alone : find_action k rest ≡ none = rw own at u.0 in
      rw (update_missing k f rest alone, hit) (rw (same a (rw hit)))
  | inr miss ↦ rw (miss, count-update p k f rest u.1 (λ b e. same b (rw miss e)))
]

-- A test that the found row passes after the update only if it did before has no more rows.
pub count-update_le :
    (p : Action → Bool) (k : String) (f : Action → Action) (rows : List Action)
    → UniqueIds rows
    → ((a : Action) → find_action k rows ≡ some a → p (f a) ≡ true → p a ≡ true)
    → count p (update_action k f rows) ≤ count p rows
unfolding find_action update_action
count-update_le p k f [] u fewer = omega arith
count-update_le p k f (a ∷ rest) u fewer = elim (Bool-cases (str_eq a.action_id k)) [
  | inl hit ↦
      let own : a.action_id ≡ k = (eq_iff a.action_id k).0 hit in
      let alone : find_action k rest ≡ none = rw own at u.0 in
      rw (update_missing k f rest alone, hit) (ground (arith, fewer a (rw hit)))
  | inr miss ↦ rw miss (omega (arith, count-update_le p k f rest u.1 (λ b e. fewer b (rw miss e))))
]

pub All-update :
    (P : Action → Type 0) (k : String) (f : Action → Action) (rows : List Action)
    → ((a : Action) → P a → P (f a))
    → All P rows
    → All P (update_action k f rows)
unfolding update_action
All-update P k f [] keeps h = tt
All-update P k f (a ∷ rest) keeps h = elim (Bool-cases (str_eq a.action_id k)) [
  | inl hit ↦ rw hit (keeps a h.0, All-update P k f rest keeps h.1)
  | inr miss ↦ rw miss (h.0, All-update P k f rest keeps h.1)
]

pub length-select : (p : Action → Bool) (rows : List Action) → length (select p rows) ≡ count p rows
length-select p [] = refl
length-select p (a ∷ rest) = ground (arith, length-select p rest)

pub length-update :
    (k : String) (f : Action → Action) (rows : List Action)
    → length (update_action k f rows) ≡ length rows
unfolding update_action
length-update k f [] = refl
length-update k f (a ∷ rest) = ap suc (length-update k f rest)
