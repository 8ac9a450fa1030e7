-- ===== src/Collab/Moves/Slots.antt =====
-- scripts/codex_loop_runtime/local_collaboration.py: rows of `slots` that are changed or added.
use codex_loop.Base.{
  ℕ, suc, ◌+◌, ◌≤◌, ◌≡◌, refl, sym, ap, ◌∙◌, subst, inl, inr, String, Bool, true, false, Option,
  none, some, List, [], ◌∷◌, ◌++◌, length, ◌==◌, str_eq, if◌then◌else◌, Bool-cases, both_true,
  some_injective, all, arith,
}
use codex_loop.Collab.{Slot}
use codex_loop.Collab.Rows.{
  find_number, find_held, holds, update_slot, next_number, find_key, key_of, is_text, is_claimed,
  is_done,
}
use codex_loop.Collab.Moves.{Follows, Follows-refl, Extends, Extends-refl, IsNumbered}

-- The first that passes a test.
abbrev pub find_first : (Slot → Bool) → List Slot → Option Slot
find_first p [] = none
find_first p (x ∷ xs) = if p x then some x else find_first p xs

pub eq_sound : (m n : ℕ) → (m == n) ≡ true → m ≡ n
eq_sound m n h = ground arith

eq_same : (n : ℕ) → (n == n) ≡ true
eq_same n = ground arith

eq_differ : (m n : ℕ) → suc m ≤ n → (m == n) ≡ false
eq_differ m n h = ground arith

-- Numbers before the first are not used.
pub find_number_low :
    (m n : ℕ) (xs : List Slot) → suc m ≤ n → IsNumbered n xs → find_number m xs ≡ none
unfolding find_number IsNumbered
find_number_low m n [] lt h = refl
find_number_low m n (x ∷ xs) lt h = elim (Bool-cases (x.number == m)) [
  | inl hit ↦ absurd (omega (arith, eq_sound x.number m hit, h.0, lt))
  | inr miss ↦ rw miss (find_number_low m (suc n) xs (omega (arith, lt)) h.1)
]

pub update_slot_low :
    (m n : ℕ) (f : Slot → Slot) (xs : List Slot)
    → suc m ≤ n
    → IsNumbered n xs
    → update_slot m f xs ≡ xs
unfolding update_slot IsNumbered
update_slot_low m n f [] lt h = refl
update_slot_low m n f (x ∷ xs) lt h = elim (Bool-cases (x.number == m)) [
  | inl hit ↦ absurd (omega (arith, eq_sound x.number m hit, h.0, lt))
  | inr miss ↦ rw (miss, update_slot_low m (suc n) f xs (omega (arith, lt)) h.1) refl
]

-- An update of the slot that a number finds.
pub Extends-update_slot :
    (m n : ℕ) (f : Slot → Slot) (xs : List Slot)
    → IsNumbered n xs
    → ((s : Slot) → find_number m xs ≡ some s → Follows s (f s))
    → Extends xs (update_slot m f xs)
unfolding Extends update_slot find_number IsNumbered
Extends-update_slot m n f [] h follows = tt
Extends-update_slot m n f (x ∷ xs) h follows = elim (Bool-cases (x.number == m)) [
  | inl hit ↦ rw hit (
    follows x (rw hit refl),
    rw (update_slot_low m (suc n) f xs (omega (arith, eq_sound x.number m hit, h.0)) h.1)
        (Extends-refl xs),
  )
  | inr miss ↦ rw miss (
    Follows-refl x,
    Extends-update_slot m (suc n) f xs h.1 (λ s found. follows s (rw miss found)),
  )
]

-- The numbers stay, where an update keeps that of each row.
pub IsNumbered-update_slot :
    (m n : ℕ) (f : Slot → Slot) (xs : List Slot)
    → ((s : Slot) → (f s).number ≡ s.number)
    → IsNumbered n xs
    → IsNumbered n (update_slot m f xs)
unfolding update_slot IsNumbered
IsNumbered-update_slot m n f [] keeps h = tt
IsNumbered-update_slot m n f (x ∷ xs) keeps h = (
  elim (Bool-cases (x.number == m)) [ inl hit ↦ rw hit (keeps x ∙ h.0) | inr miss ↦ rw miss h.0 ],
  IsNumbered-update_slot m (suc n) f xs keeps h.1,
)

pub Extends-append : (xs ys : List Slot) → Extends xs (xs ++ ys)
unfolding Extends
Extends-append [] ys = tt
Extends-append (x ∷ xs) ys = (Follows-refl x, Extends-append xs ys)

pub IsNumbered-append :
    (n : ℕ) (xs ys : List Slot)
    → IsNumbered n xs
    → IsNumbered (n + length xs) ys
    → IsNumbered n (xs ++ ys)
unfolding IsNumbered
IsNumbered-append n [] ys h k = subst (λ i. IsNumbered i ys) (omega arith) k
IsNumbered-append n (x ∷ xs) ys h k =
    (h.0, IsNumbered-append (suc n) xs ys h.1 (subst (λ i. IsNumbered i ys) (omega arith) k))

next_number_from :
    (n : ℕ) (x : Slot) (xs : List Slot)
    → IsNumbered n (x ∷ xs)
    → next_number (x ∷ xs) ≡ n + length (x ∷ xs)
unfolding next_number IsNumbered
next_number_from n x [] h = omega (arith, h.0)
next_number_from n x (y ∷ xs) h =
    let later = next_number_from (suc n) y xs h.1 in omega (arith, h.0, later)

-- The next number continues the numbering.
pub next_number-IsNumbered : (xs : List Slot) → IsNumbered 1 xs → next_number xs ≡ 1 + length xs
unfolding next_number
next_number-IsNumbered [] h = refl
next_number-IsNumbered (x ∷ xs) h = next_number_from 1 x xs h

find_number_self :
    (n : ℕ) (p : Slot → Bool) (xs : List Slot) (s : Slot)
    → IsNumbered n xs
    → find_first p xs ≡ some s
    → (find_number s.number xs ≡ some s) × (n ≤ s.number)
unfolding find_number IsNumbered
find_number_self n p [] s h found = cc
find_number_self n p (x ∷ xs) s h found = elim (Bool-cases (p x)) [
  | inl hit ↦
      subst (λ t. (find_number t.number (x ∷ xs) ≡ some t) × (n ≤ t.number))
        (some_injective (rw hit at found)) (rw (eq_same x.number) refl, omega (arith, h.0))
  | inr miss ↦
      let later = find_number_self (suc n) p xs s h.1 (rw miss at found) in
      (
        rw (eq_differ x.number s.number (omega (arith, h.0, later.1))) later.0,
        omega (arith, later.1),
      )
]

-- The slot of a task is the one that its number finds, and so is that of a key.
find_held_first :
    (worker : String) (xs : List Slot) → find_held worker xs ≡ find_first (holds worker) xs
unfolding find_held
find_held_first worker [] = refl
find_held_first worker (x ∷ xs) = rw (find_held_first worker xs) refl

find_key_first :
    (key : String) (xs : List Slot) → find_key key xs ≡ find_first (λ s. str_eq (key_of s) key) xs
unfolding find_key
find_key_first key [] = refl
find_key_first key (x ∷ xs) = rw (find_key_first key xs) refl

pub find_held-find_number :
    (worker : String) (xs : List Slot) (s : Slot)
    → IsNumbered 1 xs
    → find_held worker xs ≡ some s
    → find_number s.number xs ≡ some s
find_held-find_number worker xs s h found =
    (find_number_self 1 (holds worker) xs s h (sym (find_held_first worker xs) ∙ found)).0

pub find_key-find_number :
    (key : String) (xs : List Slot) (s : Slot)
    → IsNumbered 1 xs
    → find_key key xs ≡ some s
    → find_number s.number xs ≡ some s
find_key-find_number key xs s h found =
    (find_number_self 1 (λ s. str_eq (key_of s) key) xs s h (sym (find_key_first key xs) ∙ found)).0

-- What a held slot is.
pub find_held-claimed :
    (worker : String) (xs : List Slot) (s : Slot)
    → find_held worker xs ≡ some s
    → is_claimed s.status ≡ true
unfolding find_held holds
find_held-claimed worker [] s found = cc
find_held-claimed worker (x ∷ xs) s found = elim (Bool-cases (holds worker x)) [
  | inl hit ↦
      subst (λ t. is_claimed t.status ≡ true) (some_injective (rw hit at found))
        (both_true (is_claimed x.status) (is_text x.task_id worker) hit).0
  | inr miss ↦ find_held-claimed worker xs s (rw miss at found)
]

-- An update that keeps which slots are done.
pub all_done-update_slot :
    (m : ℕ) (f : Slot → Slot) (xs : List Slot)
    → ((s : Slot) → is_done (f s).status ≡ is_done s.status)
    → all (λ (s : Slot). is_done s.status) xs ≡ true
    → all (λ (s : Slot). is_done s.status) (update_slot m f xs) ≡ true
unfolding update_slot
all_done-update_slot m f [] keeps h = refl
all_done-update_slot m f (x ∷ xs) keeps h =
    let both = both_true (is_done x.status) (all (λ (s : Slot). is_done s.status) xs) h in
    let rest = all_done-update_slot m f xs keeps both.1 in
    elim (Bool-cases (x.number == m)) [
      | inl hit ↦ rw (hit, keeps x, both.0) rest
      | inr miss ↦ rw (miss, both.0) rest
    ]

pub length-update_slot :
    (m : ℕ) (f : Slot → Slot) (xs : List Slot) → length (update_slot m f xs) ≡ length xs
unfolding update_slot
length-update_slot m f [] = refl
length-update_slot m f (x ∷ xs) = ap (λ n. suc n) (length-update_slot m f xs)

find_number_first : (m : ℕ) (xs : List Slot) → find_number m xs ≡ find_first (λ s. s.number == m) xs
unfolding find_number
find_number_first m [] = refl
find_number_first m (x ∷ xs) = rw (find_number_first m xs) refl

pub find_number_again :
    (m : ℕ) (xs : List Slot) (s : Slot)
    → IsNumbered 1 xs
    → find_number m xs ≡ some s
    → find_number s.number xs ≡ some s
find_number_again m xs s n found =
    (find_number_self 1 (λ s. s.number == m) xs s n (sym (find_number_first m xs) ∙ found)).0
