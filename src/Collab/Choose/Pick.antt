-- ===== src/Collab/Choose/Pick.antt =====
-- scripts/codex_loop_runtime/local_collaboration.py: `min(slots, key=…)`, where a key is a tuple of numbers.
use codex_loop.Base.{ℕ, Bool, true, false, Option, none, some, List, [], ◌∷◌, ltb, if◌then◌else◌}
use codex_loop.Collab.{Slot}

-- Tuples in Python's order.
unfoldable pub comes_before : List ℕ → List ℕ → Bool
comes_before [] [] = false
comes_before [] (b ∷ others) = true
comes_before (a ∷ rest) [] = false
comes_before (a ∷ rest) (b ∷ others) =
    if ltb a b then true else if ltb b a then false else comes_before rest others

unfoldable pub least_from : (Slot → List ℕ) → Slot → List Slot → Slot
unfolding comes_before
least_from key best [] = best
least_from key best (s ∷ slots) =
    least_from key (if comes_before (key s) (key best) then s else best) slots

-- The first of the least, and nothing for an empty list.
unfoldable pub least : (Slot → List ℕ) → List Slot → Option Slot
unfolding least_from
least key [] = none
least key (s ∷ slots) = some (least_from key s slots)
