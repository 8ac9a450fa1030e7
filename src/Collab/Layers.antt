-- ===== src/Collab/Layers.antt =====
-- scripts/codex_loop_runtime/local_collaboration.py: the loop that `_task_specs` and `_ordered_slots`
-- share. A round takes every item that is not placed yet and whose dependencies all are. An item has a
-- name, by which it is known to be placed, and a key, by which others depend on it.
pub mod Sets
pub mod Loop
pub mod Rounds
pub mod Order
pub mod Cycles
use codex_loop.Base.{
  ℕ, zero, suc, String, Bool, true, false, ◌&&◌, not, List, [], ◌∷◌, ◌++◌, map, any, select, length,
  leb,
}
use codex_loop.Collab.Checks.{is_subset}

pub data Outcome (A : Type 0) : Type 0 where
  ordered : List A → Outcome A
  stuck : Outcome A
  out_of_rounds : Outcome A

-- What a loop goes by.
pub record Graph (A B : Type 0) : Type 0 where
  pub name : A → B
  pub same : B → B → Bool
  pub key : A → String
  pub deps : A → List String

module _ {A B : Type 0} (g : Graph A B) where
  abbrev pub is_placed : List A → A → Bool
  is_placed placed t = any (λ u. g.same (g.name u) (g.name t)) placed

  abbrev pub is_satisfied : List A → A → Bool
  is_satisfied placed t = is_subset (g.deps t) (map g.key placed)

  abbrev pub next_layer : List A → List A → List A
  next_layer all placed = select (λ t. not (is_placed placed t) && is_satisfied placed t) all

  -- `while len(removed) < len(pending)`
  unfoldable pub layers : ℕ → List A → List A → Outcome A
  layers zero all placed = out_of_rounds
  layers (suc n) all placed = elim (leb (length all) (length placed)) [
    | true ↦ ordered placed
    | false ↦ elim (next_layer all placed) [
      | [] ↦ stuck
      | t ∷ ts ↦ layers n all (placed ++ (t ∷ ts))
    ]
  ]
