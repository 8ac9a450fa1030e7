-- ===== src/Collab/Tests/Chain.antt =====
-- Two slots in their order, and the ancestors of the second
-- (scripts/codex_loop_runtime/local_collaboration.py).
use mathlib.Core.List.Perm
use codex_loop.Base.{ℕ, map, member, ◌≡◌, ◌↔◌, refl, String, true, none, some, List, [], ◌∷◌, ok}
use codex_loop.Collab.{Slot}
use codex_loop.Collab.Rows.{key_of}
use codex_loop.Collab.Layers.Order.{IsOrdered}
use codex_loop.Collab.Checks.{is_subset}
use codex_loop.Collab.Specs.{slot_graph, ordered_slots}
use codex_loop.Collab.Tasks.Order.{HasOrder}
use codex_loop.Collab.Ancestors.{ancestors}
use codex_loop.Collab.Ancestors.Collect.{Needs}
use codex_loop.Collab.Ancestors.Total.{ancestors-Needs}
use codex_loop.Collab.Tests.{some_slot}

-- A chain of two slots, in their order.
abbrev link : ℕ → String → List String → Slot
link number key deps = record (some_slot none) {
  number = number;
  task_key = some key;
  depends_on = deps;
}

abbrev chain : List Slot
chain = link 1 "first" [] ∷ link 2 "second" ("first" ∷ []) ∷ []

chain_sorts : ordered_slots chain ≡ ok chain
unfolding ordered_slots key_of
chain_sorts = refl

chain_follows : IsOrdered slot_graph [] chain
unfolding key_of
chain_follows = (refl, (refl, tt))

first_is_known : is_subset ("first" ∷ []) (map key_of chain) ≡ true
unfolding key_of
first_is_known = refl

abbrev order : HasOrder chain
order = (chain, chain_sorts, Perm.refl chain, chain_follows)

ancestors-Needs_example :
    (result : List Slot) × (ancestors chain (link 2 "second" ("first" ∷ [])) ≡ ok result)
    × ((k : String)
        → (member k (map key_of result) ≡ true) ↔ Needs chain (link 2 "second" ("first" ∷ [])) k)
ancestors-Needs_example =
    ancestors-Needs chain order (link 2 "second" ("first" ∷ [])) first_is_known
