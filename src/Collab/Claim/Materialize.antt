-- ===== src/Collab/Claim/Materialize.antt =====
-- scripts/codex_loop_runtime/local_collaboration.py: the transactions of `claim` that follow the work of Git
-- on the worktree of the slot.
use codex_loop.Base.{
  ℕ, String, ◌&&◌, not, some, List, [], ◌∷◌, ◌++◌, any, ◌==◌, if◌then◌else◌, str_eq, Result, ok,
  ◌>>=◌, ◌>>◌, reject,
}
use codex_loop.Collab.{Run, Slot, CollabError, assignment_changed, integrity}
use codex_loop.Collab.Rows.{is_text, update_slot, active_owner}

-- `INSERT OR IGNORE INTO worker_inputs`
unfoldable pub put_input : String → ℕ → List (String × ℕ) → List (String × ℕ)
put_input worker source inputs =
    if any (λ x. str_eq x.0 worker && x.1 == source) inputs
    then inputs
    else inputs ++ (worker, source) ∷ []

-- One dependency stands in the worktree.
unfoldable pub record_input : String → ℕ → Run → Run
unfolding put_input
record_input worker source r = record r { worker_inputs = put_input worker source r.worker_inputs }

abbrev pub materialized : String → String → Slot → Slot
materialized path head s = record s { worktree = some path; start_commit = some head }

-- The inputs of the slot are complete: `claim`'s last transaction.
unfoldable pub materialize : String → ℕ → ℕ → String → String → Run → Result CollabError Run
unfolding active_owner update_slot
materialize worker number generation path head r = do
  s ← active_owner worker (some generation) r
  reject (not (s.number == number)) assignment_changed
  reject (any (λ t. not (t.number == number) && is_text t.worktree path) r.slots) integrity
  ok (record r { slots = update_slot number (materialized path head) r.slots })
