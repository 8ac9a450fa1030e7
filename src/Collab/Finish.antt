-- ===== src/Collab/Finish.antt =====
-- scripts/codex_loop_runtime/local_collaboration.py: `finish`. What Git says of the worktree is read
-- between the two transactions, and other operations may run there too.
pub mod Late
pub mod Flow
use codex_loop.Base.{
  ℕ, String, Bool, true, false, ◌&&◌, ◌||◌, not, Option, none, some, List, [], ◌∷◌, any, select,
  ltb, ◌==◌, if◌then◌else◌, str_eq, is_some, Result, ok, err, ◌>>=◌, ◌>>◌, reject,
}
use codex_loop.Collab.{
  Run, Slot, SlotStatus, Worker, CollabError, invalid_commit, bad_slot_number, other_slot,
  ambiguous_finish, ownership_changed, not_materialized, git_refused, unfinished_delegations,
  run_closed,
}
use codex_loop.Collab.Checks.{task, is_ref}
use codex_loop.Collab.Rows.{is_opened, is_claimed, is_done, is_text, find_held, update_slot}
use codex_loop.Collab.Leases.{Git, is_missing}
use codex_loop.Collab.Offers.{is_offered, is_accepted}
use codex_loop.Collab.Election.{Election, elect_now, is_integrating}
use codex_loop.Collab.Claim.Materialize.{put_input}

-- What the first transaction of `finish` finds.
pub data Found : Type 0 where
  -- recorded before; the slot is the one that the worker holds now
  repeated : Option Slot → Bool → Found
  -- the slot to finish
  current : Slot → Found
  -- a lease that is not held any more: the slot and the generation
  lost : ℕ → ℕ → Found

abbrev pub is_number : Option ℕ → ℕ → Bool
is_number none n = true
is_number (some m) n = m == n

-- `prior`: the last slot that this worker has finished with this commit.
unfoldable pub find_prior : String → String → Option ℕ → List Slot → Option Slot
find_prior worker commit number [] = none
find_prior worker commit number (s ∷ rest) = elim (find_prior worker commit number rest) [
  | some t ↦ some t
  | none ↦
      if is_text s.completed_by worker
        && is_text s.commit_sha commit
        && is_done s.status
        && is_number number s.number
      then some s
      else none
]

abbrev pub is_zero_number : Option ℕ → Bool
is_zero_number none = false
is_zero_number (some n) = n == 0

abbrev pub differs_from : Option ℕ → Option Slot → Bool
differs_from (some n) (some s) = not (n == s.number)
differs_from _ _ = false

abbrev pub starts_at : String → Option Slot → Bool
starts_at commit none = false
starts_at commit (some s) = is_text s.start_commit commit

abbrev pub is_old_lease : Option ℕ → Slot → Bool
is_old_lease none s = ltb 1 s.lease_generation
is_old_lease (some g) s = not (g == s.lease_generation)

-- An answer to a call whose result is recorded.
unfoldable pub repeat_finish :
    String → String → Option ℕ → Option Slot → Run → Result CollabError Found
repeat_finish worker commit number active r = do
  reject (not (is_some number) && starts_at commit active) ambiguous_finish
  ok (repeated active (is_integrating r.state && is_text r.integrator_task worker))

unfoldable pub held_finish : Option ℕ → Slot → Result CollabError Found
held_finish generation s = do
  reject (is_old_lease generation s) ownership_changed
  reject (is_missing s.worktree || is_missing s.start_commit) not_materialized
  ok (current s)

unfoldable pub lost_finish : Option ℕ → Option ℕ → Result CollabError Found
lost_finish (some number) (some generation) = ok (lost number generation)
lost_finish _ _ = err not_materialized

unfoldable pub find_finish :
    String
    → String
    → Option ℕ
    → Option ℕ
    → Option Slot
    → Option Slot
    → Run
    → Result CollabError Found
unfolding repeat_finish held_finish lost_finish
find_finish worker commit number generation active (some prior) r =
    repeat_finish worker commit number active r
find_finish worker commit number generation (some s) none r = held_finish generation s
find_finish worker commit number generation none none r = lost_finish number generation

-- `finish`: what is read first.
unfoldable pub finish_read :
    String → String → Option ℕ → Option ℕ → Run → Result CollabError (String × Found)
unfolding task is_ref find_held find_prior find_finish
finish_read given commit number generation r = do
  worker ← task given
  reject (not (is_ref commit)) invalid_commit
  reject (is_zero_number number) bad_slot_number
  let active = find_held worker r.slots
  let prior = find_prior worker commit number r.slots
  reject (differs_from number active && not (is_some prior)) other_slot
  found ← find_finish worker commit number generation active prior r
  ok (worker, found)

abbrev pub finished_slot : String → String → Slot → Slot
finished_slot worker commit s = record s {
  status = SlotStatus.done;
  commit_sha = some commit;
  completed_by = some worker;
  task_id = none;
  worktree = none;
}

abbrev pub with_commit : String → String → List Worker → List Worker
with_commit worker commit [] = []
with_commit worker commit (w ∷ rest) =
    (if str_eq w.task_id worker then record w { last_commit = some commit } else w)
    ∷ with_commit worker commit rest

abbrev pub done_if_claimed : String → String → Slot → Slot
done_if_claimed worker commit s = if is_claimed s.status then finished_slot worker commit s else s

-- The rows of a run once a slot is finished.
unfoldable pub record_done : String → String → ℕ → (Slot → Slot) → Run → Run
unfolding update_slot put_input
record_done worker commit number finish r = record r {
  slots = update_slot number finish r.slots;
  workers = with_commit worker commit r.workers;
  worker_inputs = put_input worker number r.worker_inputs;
}

abbrev pub is_owed : String → Run → Bool
is_owed worker r =
    any (λ o. is_text o.recipient worker && (is_offered o.status || is_accepted o.status))
      r.delegations

unfoldable pub held_or : Option Slot → Result CollabError Slot
held_or none = err ownership_changed
held_or (some s) = ok s

-- The second transaction, in which the lease that was read is checked again.
unfoldable pub finish_write :
    String → String → ℕ → ℕ → ℕ → Run → Result CollabError (Run × Election)
unfolding find_held held_or record_done elect_now
finish_write worker commit number generation now r = do
  s ← held_or (find_held worker r.slots)
  reject (not (s.number == number) || not (s.lease_generation == generation)) ownership_changed
  reject (is_owed worker r) unfinished_delegations
  reject (not (is_opened r.state)) run_closed
  ok (elect_now worker now (record_done worker commit s.number (done_if_claimed worker commit) r))

-- A worker that holds the slot still: HEAD is the commit, and the checks of descent, of a clean
-- worktree and of the commits of delegated work pass.
unfoldable pub finish_held :
    String → String → Slot → Git → ℕ → Run → Result CollabError (Run × Election)
unfolding finish_write
finish_held worker commit s git now after = do
  reject (not (str_eq git.head commit && git.accepts)) git_refused
  finish_write worker commit s.number s.lease_generation now after
