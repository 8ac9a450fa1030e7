-- ===== src/Collab/Choose/Chosen.antt =====
-- scripts/codex_loop_runtime/local_collaboration.py: the four rankings of `_choose_slot` over a list of slots.
use codex_loop.Base.{
  ℕ, ◌≡◌, sym, ◌∙◌, refl, inl, inr, String, Bool, true, ◌||◌, Option, none, some, List, [], ◌∷◌,
  ◌++◌, select, All, Bool-cases, if◌then◌else◌, either_branch,
}
use codex_loop.Collab.{Run, Slot}
use codex_loop.Collab.Rows.{is_available, is_claimed}
use codex_loop.Collab.Choose.Pick.{least, least_from, comes_before}
use codex_loop.Collab.Choose.Final.{
  chosen, rescue, ready_or_stale, unless_urgent, or_else, is_overdue, is_urgent, urgent_key,
  ready_key, stale_key, is_critical,
}

module _ {A : Type 0} (P : A → Type 0) where
  pub All-select_both :
      (p : A → Bool) (xs : List A) → All P xs → All (λ x. (p x ≡ true) × P x) (select p xs)
  All-select_both p [] h = tt
  All-select_both p (x ∷ xs) h = elim (Bool-cases (p x)) [
    | inl hit ↦ rw hit ((hit, h.0), All-select_both p xs h.1)
    | inr miss ↦ rw miss (All-select_both p xs h.1)
  ]

  pub All-both : (xs ys : List A) → All P xs → All P ys → All P (xs ++ ys)
  All-both [] ys h k = k
  All-both (x ∷ xs) ys h k = (h.0, All-both xs ys h.1 k)

-- What holds of the selected holds of all that pass.
pub unselect :
    {A : Type 0} (Q : A → Type 0) (p : A → Bool) (xs : List A)
    → All Q (select p xs)
    → All (λ x. p x ≡ true → Q x) xs
unselect Q p [] h = tt
unselect Q p (x ∷ xs) h = elim (Bool-cases (p x)) [
  | inl hit ↦ let both = rw hit at h in (λ _. both.0, unselect Q p xs both.1)
  | inr miss ↦ (λ e. absurd (cc (sym miss ∙ e)), unselect Q p xs (rw miss at h))
]

pub All_split :
    {A : Type 0} (P : A → Type 0) (xs ys : List A) → All P (xs ++ ys) → All P xs × All P ys
All_split P [] ys h = (tt, h)
All_split P (x ∷ xs) ys h = let rest = All_split P xs ys h.1 in ((h.0, rest.0), rest.1)

pub All_join :
    {A : Type 0} (P Q : A → Type 0) {R : A → Type 0} (xs : List A)
    → ((x : A) → P x → Q x → R x)
    → All P xs
    → All Q xs
    → All R xs
All_join P Q [] f h k = tt
All_join P Q (x ∷ xs) f h k = (f x h.0 k.0, All_join P Q xs f h.1 k.1)

pub All_then :
    {A : Type 0} {P Q : A → Type 0} (xs : List A) → ((x : A) → P x → Q x) → All P xs → All Q xs
All_then [] f h = tt
All_then (x ∷ xs) f h = (f x h.0, All_then xs f h.1)

-- A chosen slot has what all the slots have from which it is chosen.
abbrev pub Holds : (Slot → Type 0) → Option Slot → Type 0
Holds P none = Unit {0}
Holds P (some s) = P s

module _ (P : Slot → Type 0) where
  least_from-All :
      (key : Slot → List ℕ) (xs : List Slot) (best : Slot)
      → P best
      → All P xs
      → P (least_from key best xs)
  unfolding least_from
  least_from-All key [] best p h = p
  least_from-All key (x ∷ xs) best p h =
      least_from-All key xs (if comes_before (key x) (key best) then x else best)
        (either_branch P (comes_before (key x) (key best)) x best h.0 p) h.1

  least-Holds : (key : Slot → List ℕ) (xs : List Slot) → All P xs → Holds P (least key xs)
  unfolding least
  least-Holds key [] h = tt
  least-Holds key (x ∷ xs) h = least_from-All key xs x h.0 h.1

  selected : (p : Slot → Bool) (xs : List Slot) → All P xs → All P (select p xs)
  selected p xs h = All_then (select p xs) (λ x b. b.1) (All-select_both P p xs h)

  or_else-Holds : (o : Option Slot) (s : Slot) → Holds P o → P s → P (or_else o s)
  unfolding or_else
  or_else-Holds none s h p = p
  or_else-Holds (some t) s h p = h

  ready_or_stale-Holds :
      (now : ℕ) (task : String) (r : Run) (stale : List Slot) (best : Option Slot)
      → All P stale
      → Holds P best
      → Holds P (ready_or_stale now task r stale best)
  unfolding ready_or_stale rescue
  ready_or_stale-Holds now task r stale none h p = least-Holds (stale_key now task r) stale h
  ready_or_stale-Holds now task r stale (some best) h p =
      either_branch P (is_overdue r best) best _ p (
        or_else-Holds _ best
          (least-Holds (stale_key now task r) (select (is_critical now task r best) stale)
            (selected (is_critical now task r best) stale h))
          p)

  unless_urgent-Holds : (a b : Option Slot) → Holds P a → Holds P b → Holds P (unless_urgent a b)
  unfolding unless_urgent
  unless_urgent-Holds none b h k = k
  unless_urgent-Holds (some s) b h k = h

  pub chosen-Holds :
      (now : ℕ) (task : String) (r : Run) (slots : List Slot)
      → All P slots
      → Holds P (chosen now task r slots)
  unfolding chosen
  chosen-Holds now task r slots h =
      let stale = select (λ (s : Slot). is_claimed s.status) slots in
      let ready = select (λ (s : Slot). is_available s.status) slots in
      let stales = selected (λ (s : Slot). is_claimed s.status) slots h in
      unless_urgent-Holds _ _
        (least-Holds (urgent_key now task r) (select (λ s. is_urgent now s) stale)
          (selected (λ s. is_urgent now s) stale stales))
        (ready_or_stale-Holds now task r stale _ stales (
          least-Holds (ready_key now r) ready
            (selected (λ (s : Slot). is_available s.status) slots h)))

-- Nothing is chosen only where there is nothing.
least-none : (key : Slot → List ℕ) (xs : List Slot) → least key xs ≡ none → xs ≡ []
unfolding least
least-none key [] h = refl
least-none key (x ∷ xs) h = cc

unless_urgent-none : (a b : Option Slot) → unless_urgent a b ≡ none → (a ≡ none) × (b ≡ none)
unfolding unless_urgent
unless_urgent-none none b h = (refl, h)
unless_urgent-none (some s) b h = cc

ready_or_stale-none :
    (now : ℕ) (task : String) (r : Run) (stale : List Slot) (best : Option Slot)
    → ready_or_stale now task r stale best ≡ none
    → (best ≡ none) × (stale ≡ [])
unfolding ready_or_stale
ready_or_stale-none now task r stale none h = (refl, least-none (stale_key now task r) stale h)
ready_or_stale-none now task r stale (some best) h = cc

pub chosen-none :
    (now : ℕ) (task : String) (r : Run) (slots : List Slot)
    → All (λ (s : Slot). (is_available s.status || is_claimed s.status) ≡ true) slots
    → chosen now task r slots ≡ none
    → slots ≡ []
unfolding chosen
chosen-none now task r [] h e = refl
chosen-none now task r (s ∷ slots) h e =
    let stale = select (λ (t : Slot). is_claimed t.status) (s ∷ slots) in
    let ready = select (λ (t : Slot). is_available t.status) (s ∷ slots) in
    let parts =
      unless_urgent-none (least (urgent_key now task r) (select (λ t. is_urgent now t) stale))
        (ready_or_stale now task r stale (least (ready_key now r) ready)) e in
    let lists = ready_or_stale-none now task r stale (least (ready_key now r) ready) parts.1 in
    let none_ready = least-none (ready_key now r) ready lists.0 in
    elim (Bool-cases (is_available s.status)) [
      | inl hit ↦ cc (rw hit at none_ready)
      | inr miss ↦ cc (rw (rw miss at h.0) at lists.1)
    ]
