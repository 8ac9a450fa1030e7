-- ===== src/Collab/Specs/Accept.antt =====
-- Which tasks are accepted, and in which order (scripts/codex_loop_runtime/local_collaboration.py).
use codex_loop.Base.{
  ℕ, ◌+◌, String, ◌≡◌, ◌≢◌, ◌↔◌, refl, Bool, true, false, ◌||◌, List, [], ◌∷◌, ◌==◌, map, all,
  member, length, All, arith, ltb, str_eq, eq_refl, ok, >>=-eq-ok, reject-eq-ok,
}
use codex_loop.Collab.{CollabError, duplicate_keys, dependency_cycle}
use codex_loop.Collab.Checks.{is_subset, has_duplicates}
use codex_loop.Collab.Layers.{Outcome, ordered, stuck, out_of_rounds}
use codex_loop.Collab.Layers.Loop.{layers_enough}
use codex_loop.Collab.Layers.Order.{layers-IsOrdered}
use codex_loop.Collab.Layers.Cycles.{IsRanked, IsKnown, layers-ne-stuck}
use codex_loop.Collab.Specs.{
  Spec, TaskInput, spec_graph, planned, check_graph, specs_from, task_specs,
}
use codex_loop.Collab.Specs.Members.{has_duplicates-perm}
use codex_loop.Collab.Specs.Graphs.{spec_graph-Names, has_duplicates-Unique, check_graph_ok}
use codex_loop.Collab.Specs.Ranks.{place, Numbered-place, IsOrdered-IsRanked, IsRanked-perm}

-- The keys are unique, every dependency is a key, and some ranks put each dependency below its task.
pub record IsAcyclic (specs : List Spec) : Type 0 where
  pub unique_keys : has_duplicates (map (λ (s : Spec). s.key) specs) ≡ false
  pub known_keys : IsKnown spec_graph specs
  pub rank : String → ℕ
  pub ranked : IsRanked spec_graph rank specs

is_subset-of :
    (xs ys : List String)
    → ((k : String) → member k xs ≡ true → member k ys ≡ true)
    → is_subset xs ys ≡ true
is_subset-of [] ys f = refl
is_subset-of (x ∷ xs) ys f =
    rw (f x (rw (eq_refl x) refl)) (is_subset-of xs ys (λ k there. f k (past (str_eq k x) there)))
  where
    past : (a : Bool) {b : Bool} → b ≡ true → (a || b) ≡ true
    past true e = refl
    past false e = e

all_known :
    (keys : List String) (specs : List Spec)
    → All (λ (s : Spec). (d : String) → member d s.depends_on ≡ true → member d keys ≡ true) specs
    → all (λ (s : Spec). is_subset s.depends_on keys) specs ≡ true
all_known keys [] h = refl
all_known keys (s ∷ specs) h = rw (is_subset-of s.depends_on keys h.0) (all_known keys specs h.1)

pub check_graph-IsAcyclic :
    (specs : List Spec) {plan : List Spec} → check_graph specs ≡ ok plan → IsAcyclic specs
unfolding check_graph
check_graph-IsAcyclic specs {plan} h =
    let once =
      (reject-eq-ok (has_duplicates (map (λ (s : Spec). s.key) specs)) duplicate_keys _ h).0 in
    let (unique, known, sorted) = check_graph_ok specs h in
    let (same, o) =
      layers-IsOrdered spec_graph spec_graph-Names (length specs + 1) specs unique sorted in
    record {
      unique_keys = once;
      known_keys = known;
      rank = place plan;
      ranked = IsRanked-perm (place plan) same (
          IsOrdered-IsRanked (place plan) 0 [] plan (λ k there. cc)
            (Numbered-place plan (has_duplicates-perm (λ (s : Spec). s.key) same once)) o);
    }

-- Neither outcome but an order is left.
pub planned_total :
    {A : Type 0} (e : CollabError) (o : Outcome A)
    → o ≢ stuck
    → o ≢ out_of_rounds
    → (plan : List A) × (planned e o ≡ ok plan)
planned_total e (ordered plan) h k = (plan, refl)
planned_total e stuck h k = absurd (h refl)
planned_total e out_of_rounds h k = absurd (k refl)

IsAcyclic-check_graph :
    (specs : List Spec) → IsAcyclic specs → (plan : List Spec) × (check_graph specs ≡ ok plan)
unfolding check_graph
IsAcyclic-check_graph specs a =
    let unique = has_duplicates-Unique specs a.unique_keys in
    rw (a.unique_keys, all_known (map (λ (s : Spec). s.key) specs) specs a.known_keys)
      (planned_total dependency_cycle _
        (layers-ne-stuck spec_graph spec_graph-Names a.rank (length specs + 1) specs unique
          a.known_keys a.ranked)
        (layers_enough spec_graph (length specs + 1) specs [] (omega arith)))

-- Tasks of a number from 1 to 10000, each of which passes its own checks, are accepted exactly when
-- their keys are unique, every dependency is a key, and the dependencies have no cycle.
pub task_specs-IsAcyclic :
    (tasks : List TaskInput) {specs : List Spec}
    → ((length tasks == 0) || ltb 10000 (length tasks)) ≡ false
    → specs_from 1 tasks ≡ ok specs
    → (task_specs tasks ≡ ok specs) ↔ IsAcyclic specs
unfolding task_specs
task_specs-IsAcyclic tasks {specs} some_tasks checked = (
  λ h.
      let (plan, planned, _) =
        >>=-eq-ok (check_graph specs) (λ _. ok specs) (rw (some_tasks, checked) at h) in
      check_graph-IsAcyclic specs planned,
  λ a.
      let (plan, planned) = IsAcyclic-check_graph specs a in rw (some_tasks, checked, planned) refl,
)
