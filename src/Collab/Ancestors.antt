-- ===== src/Collab/Ancestors.antt =====
-- scripts/codex_loop_runtime/local_collaboration.py: the slots whose commits a slot starts from.
pub mod Weight
pub mod Collect
pub mod Total
use codex_loop.Base.{
  ℕ, zero, suc, ◌+◌, String, Bool, true, false, Option, none, some, List, [], ◌∷◌, ◌++◌, select,
  length, member, if◌then◌else◌, str_eq, Result, ok, err, ◌>>=◌,
}
use codex_loop.Collab.{Slot, CollabError, unknown_key, invalid_graph}
use codex_loop.Collab.Rows.{key_of}
use codex_loop.Collab.Specs.{ordered_slots}

-- `frontier.extend(keys)` where the end of the Python list is the head here.
unfoldable pub push_all : List String → List String → List String
push_all [] frontier = frontier
push_all (k ∷ keys) frontier = push_all keys (k ∷ frontier)

-- `by_key`, in which a later slot replaces an earlier one.
unfoldable pub by_key : String → List Slot → Option Slot
unfolding key_of
by_key k [] = none
by_key k (s ∷ slots) = elim (by_key k slots) [
  | some t ↦ some t
  | none ↦ if str_eq (key_of s) k then some s else none
]

-- `while frontier`, with the fuel of one step for each key that is taken from the frontier.
unfoldable pub collect :
    ℕ → List Slot → List String → List String → Result CollabError (List String)
unfolding push_all by_key
collect zero slots required frontier = err invalid_graph
collect (suc n) slots required [] = ok required
collect (suc n) slots required (k ∷ frontier) = elim (member k required) [
  | true ↦ collect n slots required frontier
  | false ↦ elim (by_key k slots) [
    | none ↦ err unknown_key
    | some s ↦ collect n slots (k ∷ required) (push_all s.depends_on frontier)
  ]
]

unfoldable pub dependency_count : List Slot → ℕ
dependency_count [] = 0
dependency_count (s ∷ slots) = length s.depends_on + dependency_count slots

-- `_ancestors`
unfoldable pub ancestors : List Slot → Slot → Result CollabError (List Slot)
unfolding ordered_slots collect push_all dependency_count
ancestors slots target = do
  ordered ← ordered_slots slots
  required ←
      collect (suc (length target.depends_on + dependency_count ordered)) ordered []
        (push_all target.depends_on [])
  ok (select (λ s. member (key_of s) required) ordered)
