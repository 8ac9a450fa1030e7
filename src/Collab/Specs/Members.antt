-- ===== src/Collab/Specs/Members.antt =====
-- The tests of a list of texts and the library's predicates of it.
use mathlib.Core.Bool.{Bool-set}
use mathlib.Core.Logic.Or
use mathlib.Core.List.Perm
use mathlib.Core.List.{
  Perm, foldr, Mem, Nodup, Nodup-cons, Nodup-nil, not-mem-nil, mem-cons_self, mem-cons_of_mem,
  eq-or-mem_of_mem-cons,
}
use codex_loop.Base.{
  String, ◌≡◌, refl, sym, ◌∙◌, inl, inr, Bool, true, false, ◌&&◌, ◌||◌, List, [], ◌∷◌, map, all,
  member, Bool-cases, str_eq, eq_iff,
}
use codex_loop.Collab.Checks.{has_duplicates}

member→Mem : (k : String) (xs : List String) → member k xs ≡ true → Mem k xs
member→Mem k [] h = cc
member→Mem k (x ∷ xs) h = elim (Bool-cases (str_eq k x)) [
  | inl hit ↦ rw ((eq_iff k x).0 hit) mem-cons_self
  | inr miss ↦ mem-cons_of_mem x (member→Mem k xs (rw miss at h))
]

Mem→member : (k : String) (xs : List String) → Mem k xs → member k xs ≡ true
Mem→member k [] h = absurd (not-mem-nil h)
Mem→member k (x ∷ xs) h =
    Or.elim (Bool-set _ _) (eq-or-mem_of_mem-cons h) (λ e. rw ((eq_iff k x).1 e) refl)
      (λ later. past (str_eq k x) (Mem→member k xs later))
  where
    past : (a : Bool) {b : Bool} → b ≡ true → (a || b) ≡ true
    past true e = refl
    past false e = e

pub has_duplicates→Nodup : (xs : List String) → has_duplicates xs ≡ false → Nodup xs
has_duplicates→Nodup [] h = Nodup-nil
has_duplicates→Nodup (x ∷ xs) h = elim (Bool-cases (member x xs)) [
  | inl twice ↦ absurd (cc (rw twice at h))
  | inr once ↦ Nodup-cons.1 (
    (λ there. absurd (cc (sym once ∙ Mem→member x xs there))),
    has_duplicates→Nodup xs (rw once at h),
  )
]

pub Nodup→has_duplicates : (xs : List String) → Nodup xs → has_duplicates xs ≡ false
Nodup→has_duplicates [] h = refl
Nodup→has_duplicates (x ∷ xs) h = elim (Bool-cases (member x xs)) [
  | inl twice ↦ absurd ((Nodup-cons.0 h).0 (member→Mem x xs twice))
  | inr once ↦ rw once (Nodup→has_duplicates xs (Nodup-cons.0 h).1)
]

-- The order of a list does not change whether all pass a test, or whether a text stands twice in it.
all-foldr : {A : Type 0} (p : A → Bool) (xs : List A) → all p xs ≡ foldr (λ x b. p x && b) true xs
all-foldr p [] = refl
all-foldr p (x ∷ xs) = rw (all-foldr p xs) refl

pub all-perm : {A : Type 0} (p : A → Bool) {xs ys : List A} → Perm xs ys → all p xs ≡ all p ys
all-perm p {xs} {ys} same =
    all-foldr p xs
    ∙ Perm.foldr-eq Bool-set (λ x b. p x && b) (λ x y c. comm (p x) (p y) c) same true
    ∙ sym (all-foldr p ys)
  where
    comm : (a b c : Bool) → (a && (b && c)) ≡ (b && (a && c))
    comm true true c = refl
    comm true false c = refl
    comm false true c = refl
    comm false false c = refl

pub has_duplicates-perm :
    {A : Type 0} (f : A → String) {xs ys : List A}
    → Perm xs ys
    → has_duplicates (map f ys) ≡ false
    → has_duplicates (map f xs) ≡ false
has_duplicates-perm f {xs} {ys} same h =
    Nodup→has_duplicates (map f xs)
      (Perm.nodup (Perm.symm (Perm.map f same)) (has_duplicates→Nodup (map f ys) h))
