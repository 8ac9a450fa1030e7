-- ===== src/Collab/Tasks/Order.antt =====
-- scripts/codex_loop_runtime/local_collaboration.py: the slots of a created run have an order.
use mathlib.Core.List.{Perm}
use codex_loop.Base.{
  ℕ, ◌+◌, ◌<◌, String, ◌≡◌, refl, sym, ap, subst, true, false, List, [], ◌∷◌, ◌==◌, map, any,
  member, length, ltb, All, arith, Option, ok, Post, Post-ok, Post-bind, Post-step, Post-reject,
  ◌||◌,
}
use codex_loop.Collab.{Run, Slot, invalid_graph}
use codex_loop.Collab.Checks.{text}
use codex_loop.Collab.Rows.{key_of}
use codex_loop.Collab.Layers.Loop.{layers_enough}
use codex_loop.Collab.Layers.Rounds.{Unique, Names}
use codex_loop.Collab.Layers.Order.{IsOrdered, layers-IsOrdered}
use codex_loop.Collab.Layers.Cycles.{IsRanked, layers-ne-stuck}
use codex_loop.Collab.Specs.{
  Spec, TaskInput, spec_graph, slot_graph, ordered_slots, task_specs, specs_from, check_graph,
}
use codex_loop.Collab.Specs.Accept.{IsAcyclic, check_graph-IsAcyclic, planned_total}
use codex_loop.Collab.Specs.Graphs.{planned-ok}
use codex_loop.Collab.Tasks.{Identity, create_run, tail_of, new_slots}

slot_graph-Names : Names slot_graph
slot_graph-Names b c = (λ h. ground arith, λ h. ground (arith, h))

not_numbered :
    (m n : ℕ) (specs : List Spec)
    → m < n
    → any (λ (u : Slot). u.number == m) (new_slots n specs) ≡ false
unfolding new_slots
not_numbered m n [] lt = refl
not_numbered m n (spec ∷ specs) lt =
    rw (differ n m lt, not_numbered m (n + 1) specs (omega arith)) refl
  where
    differ : (a b : ℕ) → b < a → (a == b) ≡ false
    differ a b h = ground arith

new_slots-Unique : (n : ℕ) (specs : List Spec) → Unique slot_graph (new_slots n specs)
unfolding new_slots
new_slots-Unique n [] = tt
new_slots-Unique n (spec ∷ specs) =
    (not_numbered n (n + 1) specs (omega arith), new_slots-Unique (n + 1) specs)

-- The keys of new slots are those of their tasks.
new_slots-keys :
    (n : ℕ) (specs : List Spec) → map key_of (new_slots n specs) ≡ map (λ (s : Spec). s.key) specs
unfolding new_slots key_of
new_slots-keys n [] = refl
new_slots-keys n (spec ∷ specs) = ap (λ ks. spec.key ∷ ks) (new_slots-keys (n + 1) specs)

new_slots-IsKnown :
    (keys : List String) (n : ℕ) (specs : List Spec)
    → All (λ (s : Spec). (d : String) → member d s.depends_on ≡ true → member d keys ≡ true) specs
    → All
        (λ (s : Slot). (d : String) → member d s.depends_on ≡ true → member d keys ≡ true)
        (new_slots n specs)
unfolding new_slots
new_slots-IsKnown keys n [] h = tt
new_slots-IsKnown keys n (spec ∷ specs) h = (h.0, new_slots-IsKnown keys (n + 1) specs h.1)

new_slots-IsRanked :
    (rank : String → ℕ) (n : ℕ) (specs : List Spec)
    → IsRanked spec_graph rank specs
    → IsRanked slot_graph rank (new_slots n specs)
unfolding new_slots key_of
new_slots-IsRanked rank n [] h = tt
new_slots-IsRanked rank n (spec ∷ specs) h = (h.0, new_slots-IsRanked rank (n + 1) specs h.1)

pub Post-task_specs : (tasks : List TaskInput) → Post IsAcyclic (task_specs tasks)
unfolding task_specs
Post-task_specs tasks = Post-reject ((length tasks == 0) || ltb 10000 (length tasks)) _ _ (λ h.
    Post-step (specs_from 1 tasks) _ (λ specs h.
      Post-step (check_graph specs) _
        (λ plan checked. Post-ok specs (check_graph-IsAcyclic specs checked))))

abbrev pub HasOrder : List Slot → Type 0
HasOrder slots =
    (plan : List Slot) × (ordered_slots slots ≡ ok plan)
    × Perm plan slots
    × IsOrdered slot_graph [] plan

IsAcyclic-HasOrder : (specs : List Spec) → IsAcyclic specs → HasOrder (new_slots 1 specs)
unfolding ordered_slots
IsAcyclic-HasOrder specs a =
    let slots = new_slots 1 specs in
    let unique = new_slots-Unique 1 specs in
    let known = new_slots-IsKnown (map key_of slots) 1 specs (
      subst
        (λ keys.
          All (λ (s : Spec). (d : String) → member d s.depends_on ≡ true → member d keys ≡ true)
            specs)
        (sym (new_slots-keys 1 specs)) a.known_keys) in
    let plan =
      planned_total invalid_graph _
        (layers-ne-stuck slot_graph slot_graph-Names a.rank (length slots + 1) slots unique known
          (new_slots-IsRanked a.rank 1 specs a.ranked))
        (layers_enough slot_graph (length slots + 1) slots [] (omega arith)) in
    let order =
      layers-IsOrdered slot_graph slot_graph-Names (length slots + 1) slots unique
        (planned-ok invalid_graph _ plan.1) in
    (plan.0, plan.1, order.0, order.1)

-- Whatever tasks `create_run` accepts, the slots of the new run are put in order without an error: the
-- order has exactly the slots of the run, and each slot stands after all that it depends on. So the
-- integration and the ancestors of a slot never meet an invalid graph there.
pub create_run-ordered_slots :
    (i : Identity) (tasks : List TaskInput) (goal : String) (tail : Option String) (r : Run)
    → create_run i tasks goal tail ≡ ok r
    → HasOrder r.slots
unfolding create_run
create_run-ordered_slots i tasks goal tail r h =
    (Post-bind (task_specs tasks) _ (Post-task_specs tasks) (λ specs acyclic.
        Post-step (tail_of tail) _ (λ t h. Post-step (text 200 goal) _ (λ g h.
          Post-ok {P = λ (r : Run). HasOrder r.slots} _ (IsAcyclic-HasOrder specs acyclic))))).holds
      r h
