-- ===== src/Collab/Layers/Sets.antt =====
-- Selections of a list by a test, and membership by a test.
use mathlib.Core.List.Perm
use mathlib.Core.List.{Perm, perm_middle}
use codex_loop.Base.{
  ◌+◌, String, ◌≡◌, refl, inl, inr, Bool, true, false, ◌&&◌, ◌||◌, not, List, [], ◌∷◌, ◌++◌, map,
  any, select, length, member, All, Bool-cases, arith, str_eq, eq_iff,
}
use codex_loop.Collab.Checks.{is_subset}

module _ {A : Type 0} where
  pub All_map : {P Q : A → Type 0} (xs : List A) → ((x : A) → P x → Q x) → All P xs → All Q xs
  All_map [] f h = tt
  All_map (x ∷ xs) f h = (f x h.0, All_map xs f h.1)

  pub All_zip :
      {P Q R : A → Type 0} (xs : List A)
      → ((x : A) → P x → Q x → R x)
      → All P xs
      → All Q xs
      → All R xs
  All_zip [] f h k = tt
  All_zip (x ∷ xs) f h k = (f x h.0 k.0, All_zip xs f h.1 k.1)

  pub All-append : (P : A → Type 0) (xs ys : List A) → All P xs → All P ys → All P (xs ++ ys)
  All-append P [] ys h k = k
  All-append P (x ∷ xs) ys h k = (h.0, All-append P xs ys h.1 k)

  pub select_cong :
      (p q : A → Bool) (xs : List A) → All (λ x. p x ≡ q x) xs → select p xs ≡ select q xs
  select_cong p q [] h = refl
  select_cong p q (x ∷ xs) h = ground (arith, h.0, select_cong p q xs h.1)

  pub select-select :
      (p q : A → Bool) (xs : List A) → select q (select p xs) ≡ select (λ x. p x && q x) xs
  select-select p q [] = refl
  select-select p q (x ∷ xs) = ground (arith, select-select p q xs)

  pub length-select-add :
      (p : A → Bool) (xs : List A)
      → length (select p xs) + length (select (λ x. not (p x)) xs) ≡ length xs
  length-select-add p [] = omega arith
  length-select-add p (x ∷ xs) = ground (arith, length-select-add p xs)

  pub select-append-select-perm :
      (p : A → Bool) (xs : List A) → Perm (select p xs ++ select (λ x. not (p x)) xs) xs
  select-append-select-perm p [] = Perm.rfl
  select-append-select-perm p (x ∷ xs) =
      let kept = Perm.cons x (select-append-select-perm p xs) in
      ground (arith, Perm.trans (perm_middle (select p xs) _) kept)

  pub All-select :
      (p : A → Bool) (P : A → Type 0) (xs : List A)
      → All P xs
      → All (λ x. P x × (p x ≡ true)) (select p xs)
  All-select p P [] h = tt
  All-select p P (x ∷ xs) h = elim (Bool-cases (p x)) [
    | inl hit ↦ rw hit ((h.0, hit), All-select p P xs h.1)
    | inr miss ↦ rw miss (All-select p P xs h.1)
  ]

  pub any-append : (p : A → Bool) (xs ys : List A) → any p (xs ++ ys) ≡ (any p xs || any p ys)
  any-append p [] ys = refl
  any-append p (x ∷ xs) ys = ground (arith, any-append p xs ys)

  pub any-select-false :
      (p q : A → Bool) (xs : List A) → any q xs ≡ false → any q (select p xs) ≡ false
  any-select-false p q [] h = refl
  any-select-false p q (x ∷ xs) h = ground (arith, any-select-false p q xs)

  pub any-false : (p : A → Bool) (xs : List A) → any p xs ≡ false → All (λ x. p x ≡ false) xs
  any-false p [] h = tt
  any-false p (x ∷ xs) h = ground (arith, any-false p xs)

  -- What a selection that took nothing says.
  pub select_nil : (p : A → Bool) (xs : List A) → select p xs ≡ [] → All (λ x. p x ≡ false) xs
  select_nil p [] h = tt
  select_nil p (x ∷ xs) h = elim (Bool-cases (p x)) [
    | inl hit ↦ absurd (cc (rw hit at h))
    | inr miss ↦ (miss, select_nil p xs (rw miss at h))
  ]

  pub any-map :
      {B : Type 0} (p : B → Bool) (f : A → B) (xs : List A)
      → any p (map f xs) ≡ any (λ x. p (f x)) xs
  any-map p f [] = refl
  any-map p f (x ∷ xs) = ground (arith, any-map p f xs)

pub member-any : (k : String) (xs : List String) → member k xs ≡ any (λ x. str_eq k x) xs
member-any k [] = refl
member-any k (x ∷ xs) = ground (arith, member-any k xs)

pub is_subset_mono :
    (xs ys zs : List String)
    → ((k : String) → member k ys ≡ true → member k zs ≡ true)
    → is_subset xs ys ≡ true
    → is_subset xs zs ≡ true
is_subset_mono [] ys zs f h = refl
is_subset_mono (x ∷ xs) ys zs f h = ground (arith, f x, is_subset_mono xs ys zs f)

pub is_subset-false :
    (xs ys : List String)
    → is_subset xs ys ≡ false
    → (k : String) × (member k xs ≡ true) × (member k ys ≡ false)
is_subset-false [] ys h = cc
is_subset-false (x ∷ xs) ys h = elim (Bool-cases (member x ys)) [
  | inl hit ↦
      let (k, here, missing) = is_subset-false xs ys (rw hit at h) in (k, ground arith, missing)
  | inr miss ↦ (x, ground (arith, eq_iff x x), miss)
]
