-- ===== src/Collab/Specs/Graphs.antt =====
-- Which graphs of tasks are accepted (scripts/codex_loop_runtime/local_collaboration.py).
use codex_loop.Base.{
  ◌+◌, String, ◌≡◌, refl, sym, ◌∙◌, inl, inr, Bool, true, false, ◌&&◌, not, not-false, List, [],
  ◌∷◌, map, any, all, member, length, All, Bool-cases, arith, str_eq, eq_iff, ok, reject-eq-ok,
  ok_injective,
}
use codex_loop.Collab.{CollabError, duplicate_keys, unknown_dependency, dependency_cycle}
use codex_loop.Collab.Checks.{is_subset, has_duplicates}
use codex_loop.Collab.Layers.{Outcome, ordered, stuck, out_of_rounds, layers}
use codex_loop.Collab.Layers.Rounds.{Unique, Names}
use codex_loop.Collab.Layers.Cycles.{IsKnown}
use codex_loop.Collab.Specs.{Spec, spec_graph, planned, check_graph}

pub spec_graph-Names : Names spec_graph
spec_graph-Names = eq_iff

pub str_eq_comm : (s t : String) → str_eq s t ≡ str_eq t s
str_eq_comm s t = ground (arith, eq_iff s t, eq_iff t s)

pub member-is_placed :
    (k : String) (ts : List Spec)
    → member k (map (λ (s : Spec). s.key) ts) ≡ any (λ u. str_eq u.key k) ts
member-is_placed k [] = refl
member-is_placed k (t ∷ ts) = rw (member-is_placed k ts, str_eq_comm k t.key) refl

pub has_duplicates-Unique :
    (specs : List Spec)
    → has_duplicates (map (λ (s : Spec). s.key) specs) ≡ false
    → Unique spec_graph specs
has_duplicates-Unique [] h = tt
has_duplicates-Unique (s ∷ specs) h =
    elim (Bool-cases (member s.key (map (λ (s : Spec). s.key) specs))) [
      | inl twice ↦ absurd (cc (rw twice at h))
      | inr once ↦
          (sym (member-is_placed s.key specs) ∙ once, has_duplicates-Unique specs (rw once at h))
    ]

-- A Boolean test of a subset, for each member.
pub is_subset-member :
    (xs ys : List String) (k : String)
    → is_subset xs ys ≡ true
    → member k xs ≡ true
    → member k ys ≡ true
is_subset-member [] ys k h there = cc
is_subset-member (x ∷ xs) ys k h there = elim (Bool-cases (str_eq k x)) [
  | inl hit ↦ rw ((eq_iff k x).0 hit) (left _ _ h)
  | inr miss ↦ is_subset-member xs ys k (right _ _ h) (rw miss at there)
]
  where
    left : (a b : Bool) → (a && b) ≡ true → a ≡ true
    left true b h = refl
    left false b h = h

    right : (a b : Bool) → (a && b) ≡ true → b ≡ true
    right true b h = h
    right false b h = cc

known :
    (keys : List String) (specs : List Spec)
    → all (λ (s : Spec). is_subset s.depends_on keys) specs ≡ true
    → All (λ (s : Spec). (d : String) → member d s.depends_on ≡ true → member d keys ≡ true) specs
known keys [] h = tt
known keys (s ∷ specs) h = elim (Bool-cases (is_subset s.depends_on keys)) [
  | inl inside ↦ (
    λ d there. is_subset-member s.depends_on keys d inside there,
    known keys specs (rw inside at h),
  )
  | inr outside ↦ absurd (cc (rw outside at h))
]

pub planned-ok :
    {A : Type 0} (e : CollabError) (o : Outcome A) {plan : List A}
    → planned e o ≡ ok plan
    → o ≡ ordered plan
planned-ok e (ordered ts) h = rw (ok_injective h) refl
planned-ok e stuck h = cc
planned-ok e out_of_rounds h = cc

-- What the checks of a graph are, once its keys are unique and known.
pub check_graph_ok :
    (specs : List Spec) {plan : List Spec}
    → check_graph specs ≡ ok plan
    → Unique spec_graph specs
      × IsKnown spec_graph specs
      × (layers spec_graph (length specs + 1) specs [] ≡ ordered plan)
unfolding check_graph
check_graph_ok specs h =
    let keys = map (λ (s : Spec). s.key) specs in
    let a = reject-eq-ok (has_duplicates keys) duplicate_keys _ h in
    let b =
      reject-eq-ok (not (all (λ (s : Spec). is_subset s.depends_on keys) specs)) unknown_dependency
        _ a.1 in
    (
      has_duplicates-Unique specs a.0,
      known keys specs (not-false _ b.0),
      planned-ok dependency_cycle _ b.1,
    )
