-- ===== src/Collab/Claim.antt =====
-- scripts/codex_loop_runtime/local_collaboration.py: the transaction in which a worker claims a slot. What
-- the database holds of other runs, and the paths that the file system resolves, are one record.
pub mod Taking
pub mod Adopt
pub mod Settle
pub mod Materialize
use codex_loop.Base.{
  ℕ, ◌+◌, String, Bool, true, false, ◌&&◌, ◌||◌, not, Option, none, some, List, [], ◌∷◌, select,
  str_eq, if◌then◌else◌,
}
use codex_loop.Collab.{Run, RunState, Slot, Worker, Waiting, Reclaim}

pub record Outside : Type 0 where
  -- the name of the checkout, in which each run of other characters is `-`
  pub project : String
  -- `parent`, resolved
  pub parent : String
  -- the path that a worktree of this worker gets
  pub own_path : String
  -- a slot of another run names this task
  pub is_held_elsewhere : Bool
  -- a worker of another active run has this worktree
  pub is_taken : String → Bool

-- What a claim returns when no slot is held.
pub data Answer : Type 0 where
  finished : RunState → Answer
  registered : Slot → Worker → RunState → Answer
  waiting : RunState → Answer

pub record Grant : Type 0 where
  pub slot : Slot
  pub path : String
  pub recovery : Option Reclaim
  pub expected_head : Option String

-- A slot that the worker holds now, or what to answer.
pub data Turn : Type 0 where
  taken : Slot → Turn
  answered : Answer → Turn

pub data Claimed : Type 0 where
  granted : Grant → Claimed
  no_slot : Answer → Claimed

abbrev pub without_waiting : String → Run → Run
without_waiting worker r = record r {
  waiting_workers = select (λ w. not (str_eq w.task_id worker)) r.waiting_workers;
}

abbrev pub put_waiting : String → ℕ → List Waiting → List Waiting
put_waiting worker now [] = record { task_id = worker; last_seen = now } ∷ []
put_waiting worker now (w ∷ rest) =
    if str_eq w.task_id worker
    then record w { last_seen = now } ∷ rest
    else w ∷ put_waiting worker now rest
