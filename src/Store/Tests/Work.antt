-- ===== src/Store/Tests/Work.antt =====
-- Runs of the isolations, the plan, the processes and the cancellation
-- (scripts/codex_loop_runtime/state.py) on small tables.
use codex_loop.Base.{
  suc, ◌+◌, String, ◌≡◌, ◌≢◌, refl, ap, ◌≤◌, false, none, some, List, [], ◌∷◌, length, count, ok,
}
use codex_loop.Store.{
  Store, IsolationEvent, TaskStatus, PlanItem, PlanStatus, Isolation, SemanticWork, WorkStatus,
  MutationPolicy, Process, ProcessStatus,
}
use codex_loop.Store.External.Transact.{
  unresolved_external_count, unresolved_external_failure_count,
}
use codex_loop.Store.Events.{IsBounded, log_event, log_event-IsBounded}
use codex_loop.Store.Status.{record_steer}
use codex_loop.Store.Plan.{set_plan, plan, is_in_progress}
use codex_loop.Store.Plan.Bounds.{set_plan-plan}
use codex_loop.Store.Cancel.{first_active, cancel}
use codex_loop.Store.Cancel.Settles.{is_in_flight, cancel_settles}
use codex_loop.Store.Isolations.{effective_request_sha256, find_work}
use codex_loop.Store.Isolations.Rows.{is_active_semantic}
use codex_loop.Store.Isolations.Finish.{Outcome, finish_row, finish_work, finish_isolation}
use codex_loop.Store.Isolations.Authority.{record_steer_stale}
use codex_loop.Store.Processes.{
  live_process_rows, orphaned_process_count, unresolved_process_failure_count,
  mark_running_processes_orphaned, find_process,
}
use codex_loop.Store.Processes.Orphans.{lost_row, given_reason, mark_running_processes_orphaned_lem}
use codex_loop.Store.Tests.{keep, digest, fresh_task, fresh_task-IsSound}

abbrev planned_steps : List PlanItem
planned_steps =
    record { step = "reproduce"; status = PlanStatus.completed }
    ∷ record { step = "repair"; status = PlanStatus.in_progress }
    ∷ []

abbrev planned : Store
planned = record fresh_task { plan = planned_steps; plan_revision = 1 }

abbrev steps : List (String × String)
steps = ("  reproduce ", "completed") ∷ ("repair", " in_progress") ∷ []

planning_runs : set_plan keep steps fresh_task ≡ ok (planned, planned_steps)
unfolding set_plan
planning_runs = refl

set_plan-plan_example :
    (plan planned ≡ planned_steps)
    × (length planned_steps ≡ 2)
    × (length planned_steps ≤ 32)
    × (count is_in_progress planned_steps ≤ 1)
    × (1 ≡ 0 + 1)
set_plan-plan_example = set_plan-plan keep steps fresh_task planning_runs

abbrev cancelled_task : Store
cancelled_task = record fresh_task { task_status = TaskStatus.cancelled }

cancelling_runs : cancel keep none fresh_task ≡ ok cancelled_task
unfolding cancel
cancelling_runs = refl

cancel_settles_example :
    (cancelled_task.task_status ≡ TaskStatus.cancelled)
    × (first_active cancelled_task.isolations ≡ none)
    × ((k : String) (w : SemanticWork)
        → find_work k cancelled_task.semantic_work ≡ some w
        → is_active_semantic w ≡ false)
    × (unresolved_external_count cancelled_task ≡ count is_in_flight fresh_task.external_actions)
    × (unresolved_external_failure_count cancelled_task
        ≡ unresolved_external_failure_count fresh_task)
    × (cancelled_task.processes ≡ fresh_task.processes)
cancel_settles_example = cancel_settles keep none fresh_task fresh_task-IsSound.1 cancelling_runs

-- A review that runs in an isolation.
abbrev review : Isolation
review = record {
  isolation_id = "i1";
  role = "reviewer";
  objective = "review the change";
  status = WorkStatus.active;
  parent_generation = 0;
  exit_generation = none;
  requested_executor = "logical_isolation";
  actual_executor = "logical_isolation";
  capabilities = "{}";
  mutation_policy = MutationPolicy.read_only;
  context_spec = "{}";
  result = none;
  checkpoint_id = none;
  workspace_changed = false;
}

abbrev review_work : SemanticWork
review_work = record {
  isolation_id = "i1";
  consumer = "review";
  stage = "final";
  input_sha256 = "in";
  instruction_sha256 = "how";
  request_sha256 = "";
  parent_generation = 0;
  status = WorkStatus.active;
  semantic_result_id = none;
  result_generation = none;
}

abbrev reviewing : Store
reviewing = record fresh_task { isolations = review ∷ []; semantic_work = review_work ∷ [] }

abbrev verdict : Outcome
verdict = record {
  result = "sound";
  exit_generation = 0;
  workspace_changed = false;
  semantic_result_id = some "r1";
}

abbrev reviewed : Store
reviewed = record reviewing {
  isolations = finish_row verdict review ∷ [];
  semantic_work = finish_work verdict review_work ∷ [];
  isolation_events =
      record { isolation_id = "i1"; kind = "finished"; generation = 0; details = none } ∷ [];
}

work_found : find_work "i1" reviewing.semantic_work ≡ some review_work
unfolding find_work
work_found = refl

unary-apart :
    (a b : String) (xs ys : List String) → digest a xs ≡ digest b ys → length xs ≡ length ys
unary-apart a b [] [] h = refl
unary-apart a b [] (y ∷ ys) h = cc
unary-apart a b (x ∷ xs) [] h = cc
unary-apart a b (x ∷ xs) (y ∷ ys) h = ap suc (unary-apart a b xs ys cc)

abbrev steered : Store
steered = record reviewing { steers = ("s1", "also fix the docs") ∷ []; plan_revision = 1 }

steering_runs : record_steer "s1" "also fix the docs" reviewing ≡ ok (steered, "s1")
unfolding record_steer
steering_runs = refl

request_is : review_work.request_sha256 ≡ effective_request_sha256 digest reviewing
unfolding effective_request_sha256
request_is = refl

record_steer_stale_example : finish_isolation digest "i1" verdict steered ≢ ok reviewed
record_steer_stale_example =
    record_steer_stale digest unary-apart "s1" "also fix the docs" "i1" verdict reviewing work_found
      request_is steering_runs

abbrev lost : Process
lost = record {
  handle = "p1";
  pid = some 17;
  argv = "[\"pytest\"]";
  cwd = "/repo";
  state = ProcessStatus.orphaned;
  exit_code = none;
  failure_message = some "helper ownership lost";
  failure_resolved = false;
  resolution = none;
}

abbrev with_lost : Store
with_lost = record fresh_task { processes = lost ∷ [] }

abbrev running : Store
running = record fresh_task {
  processes = record lost { state = ProcessStatus.running; failure_message = none } ∷ lost ∷ [];
}

mark_running_processes_orphaned_lem_example :
    ((k : String)
      → find_process k (mark_running_processes_orphaned keep "host gone" running).0.processes
        ≡ (elim (find_process k running.processes) [
          | none ↦ none
          | some p ↦ some (lost_row (given_reason keep "host gone") p)
        ]))
    × ((mark_running_processes_orphaned keep "host gone" running).1
        ≡ length (live_process_rows running))
    × (live_process_rows (mark_running_processes_orphaned keep "host gone" running).0 ≡ [])
    × (orphaned_process_count (mark_running_processes_orphaned keep "host gone" running).0
        ≡ length (live_process_rows running) + orphaned_process_count running)
    × (unresolved_process_failure_count (mark_running_processes_orphaned keep "host gone" running).0
        ≡ unresolved_process_failure_count running)
mark_running_processes_orphaned_lem_example =
    mark_running_processes_orphaned_lem keep "host gone" running

abbrev warning : IsolationEvent
warning = record { isolation_id = "i1"; kind = "warning"; generation = 0; details = none }

log_event-IsBounded_example : IsBounded 64 448 (log_event warning (warning ∷ []))
log_event-IsBounded_example = log_event-IsBounded warning (warning ∷ [])
