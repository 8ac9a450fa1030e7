-- ===== src/Collab/Specs/Ranks.antt =====
-- Ranks of the tasks of a graph (scripts/codex_loop_runtime/local_collaboration.py).
use mathlib.Core.List.{Perm}
use codex_loop.Base.{
  ℕ, suc, ◌<◌, String, ◌≡◌, refl, sym, ◌∙◌, inl, inr, Bool, true, false, ◌||◌, List, [], ◌∷◌, map,
  all, member, All, Bool-cases, arith, ltb, str_eq, eq_iff, eq_refl, if◌then◌else◌,
}
use codex_loop.Collab.Checks.{has_duplicates}
use codex_loop.Collab.Layers.Sets.{All_map}
use codex_loop.Collab.Layers.Order.{IsOrdered}
use codex_loop.Collab.Layers.Cycles.{IsRanked}
use codex_loop.Collab.Specs.{Spec, spec_graph}
use codex_loop.Collab.Specs.Members.{all-perm}
use codex_loop.Collab.Specs.Graphs.{str_eq_comm, is_subset-member}

-- Numbers along a list.
pub Numbered : (String → ℕ) → ℕ → List Spec → Type 0
Numbered rank n [] = Unit {0}
Numbered rank n (s ∷ specs) = (rank s.key ≡ n) × Numbered rank (suc n) specs

-- The place of a key in a list.
abbrev pub place : List Spec → String → ℕ
place [] k = 0
place (s ∷ specs) k = if str_eq k s.key then 0 else suc (place specs k)

Numbered-later :
    (s : Spec) (later : List Spec) (n : ℕ) (specs : List Spec)
    → member s.key (map (λ (t : Spec). t.key) specs) ≡ false
    → Numbered (place later) n specs
    → Numbered (place (s ∷ later)) (suc n) specs
unfolding Numbered
Numbered-later s later n [] h o = tt
Numbered-later s later n (t ∷ specs) h o = elim (Bool-cases (str_eq s.key t.key)) [
  | inl hit ↦ absurd (cc (rw hit at h))
  | inr miss ↦ (
    rw (str_eq_comm t.key s.key, miss, o.0) refl,
    Numbered-later s later (suc n) specs (rw miss at h) o.1,
  )
]

pub Numbered-place :
    (specs : List Spec)
    → has_duplicates (map (λ (s : Spec). s.key) specs) ≡ false
    → Numbered (place specs) 0 specs
unfolding Numbered
Numbered-place [] h = tt
Numbered-place (s ∷ specs) h = elim (Bool-cases (member s.key (map (λ (t : Spec). t.key) specs))) [
  | inl twice ↦ absurd (cc (rw twice at h))
  | inr once ↦ (
    rw (eq_refl s.key) refl,
    Numbered-later s specs 0 specs once (Numbered-place specs (rw once at h)),
  )
]

-- In a list where each task stands after its dependencies the places are ranks.
pub IsOrdered-IsRanked :
    (rank : String → ℕ) (n : ℕ) (seen : List String) (specs : List Spec)
    → ((k : String) → member k seen ≡ true → rank k < n)
    → Numbered rank n specs
    → IsOrdered spec_graph seen specs
    → IsRanked spec_graph rank specs
unfolding Numbered
IsOrdered-IsRanked rank n seen [] low numbered o = tt
IsOrdered-IsRanked rank n seen (s ∷ specs) low numbered o = (
  λ d there. rw numbered.0 (low d (is_subset-member s.depends_on seen d o.0 there)),
  IsOrdered-IsRanked rank (suc n) (s.key ∷ seen) specs
      (λ k there. elim (Bool-cases (str_eq k s.key)) [
        | inl hit ↦ rw ((eq_iff k s.key).0 hit, numbered.0) (omega arith)
        | inr miss ↦ omega (arith, low k (rw miss at there))
      ])
      numbered.1 o.1,
)

-- The ranks of the other order of the same tasks.
below : (String → ℕ) → Spec → Bool
below rank s = all (λ d. ltb (rank d) (rank s.key)) s.depends_on

below-of :
    (rank : String → ℕ) (n : ℕ) (ds : List String)
    → ((d : String) → member d ds ≡ true → rank d < n)
    → all (λ d. ltb (rank d) n) ds ≡ true
below-of rank n [] h = refl
below-of rank n (d ∷ ds) h =
    rw (lt→ltb (rank d) n (h d (rw (eq_refl d) refl)))
      (below-of rank n ds (λ c there. h c (past (str_eq c d) there)))
  where
    past : (a : Bool) {b : Bool} → b ≡ true → (a || b) ≡ true
    past true e = refl
    past false e = e

    lt→ltb : (a b : ℕ) → a < b → ltb a b ≡ true
    lt→ltb a b h = ground arith

of-below :
    (rank : String → ℕ) (n : ℕ) (ds : List String) (d : String)
    → all (λ d. ltb (rank d) n) ds ≡ true
    → member d ds ≡ true
    → rank d < n
of-below rank n [] d h there = cc
of-below rank n (x ∷ ds) d h there = elim (Bool-cases (str_eq d x)) [
  | inl hit ↦ rw ((eq_iff d x).0 hit) (ground arith)
  | inr miss ↦ of-below rank n ds d (ground arith) (rw miss at there)
]

all-All : (p : Spec → Bool) (specs : List Spec) → all p specs ≡ true → All (λ s. p s ≡ true) specs
all-All p [] h = tt
all-All p (s ∷ specs) h = (ground arith, all-All p specs (ground arith))

All-all : (p : Spec → Bool) (specs : List Spec) → All (λ s. p s ≡ true) specs → all p specs ≡ true
All-all p [] h = refl
All-all p (s ∷ specs) h = rw (h.0) (All-all p specs h.1)

pub IsRanked-perm :
    (rank : String → ℕ) {xs ys : List Spec}
    → Perm xs ys
    → IsRanked spec_graph rank xs
    → IsRanked spec_graph rank ys
unfolding below
IsRanked-perm rank {xs} {ys} same h =
    All_map ys (λ s e d there. of-below rank (rank s.key) s.depends_on d e there)
      (all-All (below rank) ys (
        sym (all-perm (below rank) same)
        ∙ All-all (below rank) xs
            (All_map xs (λ s low. below-of rank (rank s.key) s.depends_on low) h)))
