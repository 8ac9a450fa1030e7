-- ===== src/Store/Tests.antt =====
-- Runs of the operations of `StateStore` (scripts/codex_loop_runtime/state.py) on small tables.
mod Work
use codex_loop.Base.{
  ℕ, suc, String, ◌≡◌, ◌≢◌, refl, ap, sym, ◌∙◌, ◌≤◌, ◌<◌, Bool, true, false, Option, none, some,
  List, [], ◌∷◌, length, count, is_empty, strip, char_count, arith, Result, ok, err,
}
use codex_loop.Store.{
  Store, StoreError, TaskStatus, Profile, PlanItem, PlanStatus, Action, ActionState, ActionClass,
  Isolation, SemanticWork, WorkStatus, MutationPolicy, Process, ProcessStatus, IsolationEvent,
}
use codex_loop.Store.Clean.{scrub_persisted_text}
use codex_loop.Store.Events.{IsBounded}
use codex_loop.Store.External.{find_action}
use codex_loop.Store.External.Transact.{
  record_external, unresolved_external_count, unresolved_external_failure_count,
  resolve_external_failure, ambiguous_non_idempotent_identity_count,
}
use codex_loop.Store.External.Rows.{UniqueIds}
use codex_loop.Store.External.Ledger.{IsLedger, record_external-IsLedger}
use codex_loop.Store.External.Ambiguous.{ambiguous-IsLedger}
use codex_loop.Store.External.Machine.{Extends, record_external-Extends, record_external_inactive}
use codex_loop.Store.External.Failures.{resolve_row, resolve_external_failure_lem}
use codex_loop.Store.Isolations.{Digest, find_isolation, find_work, Proposal, SemanticSpec}
use codex_loop.Store.Isolations.Invariant.{IsSerial}
use codex_loop.Store.History.{
  Op, run, pausing, resuming, completing, cancelling, planning, recording, creating, steering,
}
use codex_loop.Store.Status.{configure_task}
use codex_loop.Store.History.Configured.{run-configure_task}
use codex_loop.Store.History.Invariant.{IsSound, run-IsSound}
use codex_loop.Store.History.Machine.{run_settled}

abbrev pub keep : String → String
keep s = s

-- A digest that tells apart requests with a different number of steers.
abbrev pub unary : List String → String
unary [] = ""
unary (x ∷ xs) = String.◌∷◌ "x" (unary xs)

abbrev pub digest : Digest
digest anchor steers = unary steers

abbrev pub fresh_task : Store
fresh_task = record {
  task_id = "demo";
  request_anchor = "fix the bug";
  profile = Profile.bug_fix;
  requires_validation = false;
  requires_clean_process_exit = false;
  generation = 0;
  plan = [];
  plan_revision = 0;
  task_status = TaskStatus.active;
  blocked_reason = none;
  cancel_reason = none;
  external_actions = [];
  isolations = [];
  semantic_work = [];
  isolation_events = [];
  processes = [];
  steers = [];
}

pub fresh_task-IsSound : IsSound fresh_task
unfolding find_work
fresh_task-IsSound = (
  record { unique_ids = tt; unique_owners = λ k i. omega arith; identified = tt },
  record { one_active = omega arith; bound = λ k w found live. cc },
  (omega arith, omega arith, tt),
  (omega arith, omega arith),
)

abbrev ops : List Op
ops =
    planning (("reproduce", "completed") ∷ ("repair", "in_progress") ∷ [])
    ∷ pausing
    ∷ resuming
    ∷ cancelling none
    ∷ completing
    ∷ []

run-IsSound_example : IsSound (run keep digest ops fresh_task)
run-IsSound_example = run-IsSound keep digest ops fresh_task fresh_task-IsSound

-- The finished task's database is used again for the same request.
configuring_runs :
    configure_task "demo" "fix the bug" Profile.bug_fix false false
      (record fresh_task { task_status = TaskStatus.complete; generation = 3 })
    ≡ ok fresh_task
unfolding configure_task
configuring_runs = refl

run-configure_task_example : IsSound (run keep digest ops fresh_task)
run-configure_task_example =
    run-configure_task keep digest "demo" "fix the bug" Profile.bug_fix false false ops
      (record fresh_task { task_status = TaskStatus.complete; generation = 3 }) configuring_runs

abbrev cancelled_task : Store
cancelled_task = record fresh_task { task_status = TaskStatus.cancelled }

run_settled_example :
    ((run keep digest ops cancelled_task).task_status ≡ TaskStatus.cancelled)
    × (0 ≤ (run keep digest ops cancelled_task).plan_revision)
    × (0 ≤ (run keep digest ops cancelled_task).generation)
run_settled_example = run_settled keep digest ops cancelled_task refl

-- A publication: planned, dispatched, failed, resolved.
abbrev publication : ActionState → Option String → Action
publication state details = record {
  action_id = "a1";
  kind = "git_push";
  identity = some "main";
  action_class = ActionClass.external_non_idempotent;
  state = state;
  details = details;
  failure_resolved = false;
  resolution = none;
}

abbrev planned_task : Store
planned_task = record fresh_task { external_actions = publication ActionState.planned none ∷ [] }

planned-IsLedger : IsLedger planned_task.external_actions
unfolding find_action
planned-IsLedger = record {
  unique_ids = (refl, tt);
  unique_owners = λ k i. ground arith;
  identified = (λ h. refl, tt);
}

recording_runs :
    record_external keep "a1" "git_push" "planned"
      (some "main")
      none
      "external_non_idempotent"
      none
      fresh_task
    ≡ ok (planned_task, "a1")
unfolding record_external
recording_runs = refl

record_external-IsLedger_example : IsLedger planned_task.external_actions
record_external-IsLedger_example =
    record_external-IsLedger keep "a1" "git_push" "planned" (some "main") none
      "external_non_idempotent" none fresh_task fresh_task-IsSound.0 recording_runs

ambiguous-IsLedger_example : ambiguous_non_idempotent_identity_count planned_task ≡ 0
ambiguous-IsLedger_example = ambiguous-IsLedger planned_task planned-IsLedger

abbrev dispatched_task : Store
dispatched_task = record fresh_task {
  external_actions = publication ActionState.dispatched none ∷ [];
}

dispatching_runs :
    record_external keep "u" "git_push" "dispatched"
      (some "main")
      none
      "external_non_idempotent"
      (some "a1")
      planned_task
    ≡ ok (dispatched_task, "a1")
unfolding record_external
dispatching_runs = refl

record_external-Extends_example :
    Extends planned_task.external_actions dispatched_task.external_actions
record_external-Extends_example =
    record_external-Extends keep "u" "git_push" "dispatched" (some "main") none
      "external_non_idempotent" (some "a1") planned_task dispatching_runs

abbrev cancelled_in_flight : Store
cancelled_in_flight = record dispatched_task { task_status = TaskStatus.cancelled }

abbrev reconciled : Store
reconciled = record cancelled_in_flight {
  external_actions = publication ActionState.terminal_success (some "pushed") ∷ [];
}

reconciling_runs :
    record_external keep "u" "git_push" "terminal_success"
      (some "main")
      (some "pushed")
      "external_non_idempotent"
      (some "a1")
      cancelled_in_flight
    ≡ ok (reconciled, "a1")
unfolding record_external
reconciling_runs = refl

dispatched-IsLedger : IsLedger dispatched_task.external_actions
unfolding find_action
dispatched-IsLedger = record {
  unique_ids = (refl, tt);
  unique_owners = λ k i. ground arith;
  identified = (λ h. refl, tt);
}

record_external_inactive_example :
    (length reconciled.external_actions ≡ length cancelled_in_flight.external_actions)
    × (unresolved_external_count reconciled ≤ unresolved_external_count cancelled_in_flight)
record_external_inactive_example =
    record_external_inactive keep "u" "git_push" "terminal_success" (some "main") (some "pushed")
      "external_non_idempotent" (some "a1") cancelled_in_flight dispatched-IsLedger.unique_ids
      (λ h. cc) reconciling_runs

abbrev failed_task : Store
failed_task = record fresh_task {
  external_actions = publication ActionState.terminal_failure (some "refused") ∷ [];
}

failed-IsLedger : IsLedger failed_task.external_actions
unfolding find_action
failed-IsLedger = record {
  unique_ids = (refl, tt);
  unique_owners = λ k i. ground arith;
  identified = (λ h. refl, tt);
}

failed_found :
    find_action "a1" failed_task.external_actions
    ≡ some (publication ActionState.terminal_failure (some "refused"))
unfolding find_action
failed_found = refl

evidence_given : is_empty (strip (scrub_persisted_text keep 4096 "pushed by hand")) ≡ false
unfolding strip scrub_persisted_text
evidence_given = refl

resolve_external_failure_lem_example :
    (t : Store) × (resolve_external_failure keep "a1" "pushed by hand" failed_task ≡ ok t)
    × (find_action "a1" t.external_actions
        ≡ some (
            resolve_row
              (scrub_persisted_text keep 4096 "pushed by hand")
              (publication ActionState.terminal_failure (some "refused"))))
    × (unresolved_external_failure_count failed_task ≡ suc (unresolved_external_failure_count t))
resolve_external_failure_lem_example =
    resolve_external_failure_lem keep "a1" "pushed by hand" failed_task failed-IsLedger failed_found
      refl evidence_given
