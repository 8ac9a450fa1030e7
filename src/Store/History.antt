-- ===== src/Store/History.antt =====
-- scripts/codex_loop_runtime/state.py: the operations of `StateStore` one after another. Each is one
-- transaction, which an error rolls back, or makes its checks before its first write: a failed
-- operation leaves the tables as they were. `configure_task`, which empties every table for a new task,
-- is not among them.
pub mod Effects
pub mod Quiet
pub mod Invariant
pub mod Machine
pub mod Configured
use codex_loop.Base.{ℕ, String, Bool, Option, List, [], ◌∷◌, Result, ok, err, ◌>>=◌}
use codex_loop.Store.{Store, StoreError}
use codex_loop.Store.External.Transact.{record_external, resolve_external_failure}
use codex_loop.Store.Status.{pause, block, resume, mark_complete, bump_generation, record_steer}
use codex_loop.Store.Plan.{set_plan}
use codex_loop.Store.Cancel.{cancel}
use codex_loop.Store.Isolations.{Digest, Proposal, create_isolation}
use codex_loop.Store.Isolations.Finish.{
  Outcome, record_isolation_event, finish_isolation, abort_isolation,
}
use codex_loop.Store.Processes.{
  Report, upsert_process, mark_running_processes_orphaned, resolve_orphaned_process,
}

-- The arguments of one call of `record_external`.
pub record Recording : Type 0 where
  pub fresh : String
  pub kind : String
  pub state : String
  pub identity : Option String
  pub details : Option String
  pub action_class : String
  pub action_id : Option String

pub data Op : Type 0 where
  -- the status and the request
  pausing resuming completing bumping : Op
  blocking : String → Op
  cancelling : Option String → Op
  steering : String → String → Op
  -- the plan
  planning : List (String × String) → Op
  -- external actions
  recording : Recording → Op
  resolving_failure : String → String → Op
  -- isolations
  creating : Proposal → Op
  noting : String → String → Option String → Op
  finishing : String → Outcome → Op
  aborting : String → String → Option ℕ → Op
  -- processes
  reporting : Report → Op
  orphaning : String → Op
  resolving_process : String → String → Op

module _ (redact : String → String) (digest : Digest) where
  unfoldable pub attempt : Op → Store → Result StoreError Store
  attempt pausing s = pause s
  attempt resuming s = resume s >>= λ r. ok r.0
  attempt completing s = mark_complete s
  attempt bumping s = ok (bump_generation s)
  attempt (blocking reason) s = block redact reason s
  attempt (cancelling reason) s = cancel redact reason s
  attempt (steering fresh text) s = record_steer fresh text s >>= λ r. ok r.0
  attempt (planning items) s = set_plan redact items s >>= λ r. ok r.0
  attempt (recording a) s =
      record_external redact a.fresh a.kind a.state a.identity a.details a.action_class a.action_id
        s
      >>= λ r. ok r.0
  attempt (resolving_failure k evidence) s = resolve_external_failure redact k evidence s
  attempt (creating p) s = create_isolation redact digest p s >>= λ r. ok r.0
  attempt (noting k kind details) s = record_isolation_event redact k kind details s
  attempt (finishing k o) s = finish_isolation digest k o s
  attempt (aborting k reason generation) s = abort_isolation redact k reason generation s
  attempt (reporting r) s = ok (upsert_process redact r s)
  attempt (orphaning reason) s = ok (mark_running_processes_orphaned redact reason s).0
  attempt (resolving_process k evidence) s = resolve_orphaned_process redact k evidence s

  unfoldable pub step : Op → Store → Store
  unfolding attempt
  step op s = elim (attempt op s) [ ok t ↦ t | err _ ↦ s ]

  unfoldable pub run : List Op → Store → Store
  unfolding step
  run [] s = s
  run (op ∷ ops) s = run ops (step op s)
