-- ===== src/Completion/Tests.antt =====
-- A task that may be finished, and one that may not (scripts/codex_loop_runtime/completion.py).
use codex_loop.Base.{
  ◌≡◌, ◌≢◌, ◌↔◌, refl, true, false, none, List, [], ◌∷◌, String, ℤ, ok, strip, arith,
}
use codex_loop.Store.{Store, TaskStatus, Profile}
use codex_loop.Store.Cancel.{first_active}
use codex_loop.Store.External.Transact.{
  unresolved_external_count, unresolved_external_failure_count,
  ambiguous_non_idempotent_identity_count,
}
use codex_loop.Store.Processes.{
  live_process_rows, orphaned_process_count, unresolved_process_failure_count,
}
use codex_loop.Supervision.{ExecutionObservation, validate_observation, inferred}
use codex_loop.Supervision.Evidence.{IsConsistent, validate_observation-IsConsistent}
use codex_loop.Validation.{Validation, validation_state_for_generation}
use codex_loop.Validation.Latest.{host_row}
use codex_loop.Completion.{
  View, pass, continue, no_validation_pass, workspace_blockers, cmd_completion,
}
use codex_loop.Completion.Finish.{IsClear}
use codex_loop.Completion.Command.{completed, cmd_completion-IsHonest, cmd_completion_finishes}

abbrev keep : String → String
keep s = s

abbrev task : Store
task = record {
  task_id = "demo";
  request_anchor = "fix the bug";
  profile = Profile.bug_fix;
  requires_validation = true;
  requires_clean_process_exit = false;
  generation = 2;
  plan = [];
  plan_revision = 0;
  task_status = TaskStatus.active;
  blocked_reason = none;
  cancel_reason = none;
  external_actions = [];
  isolations = [];
  semantic_work = [];
  isolation_events = [];
  processes = [];
  steers = [];
}

abbrev view : View
view = record { obstacle = none; binding = none }

abbrev passing : ExecutionObservation
passing = inferred (ℤ.pos 0) "all tests pass"

abbrev run_now : Validation
run_now = host_row 2 "pytest" "/repo" "all tests pass" passing

abbrev failing_before : Validation
failing_before = host_row 2 "pytest" "/repo" "one fails" (inferred (ℤ.pos 1) "one fails")

validate_observation-IsConsistent_example :
    (validate_observation passing ≡ ok passing) ↔ IsConsistent passing
validate_observation-IsConsistent_example = validate_observation-IsConsistent passing

abbrev rows : List Validation
rows = run_now ∷ failing_before ∷ []

task-IsClear : IsClear view (validation_state_for_generation 2 rows) task
unfolding strip validation_state_for_generation ambiguous_non_idempotent_identity_count
    orphaned_process_count first_active unresolved_external_count unresolved_external_failure_count
    live_process_rows unresolved_process_failure_count inferred workspace_blockers
task-IsClear = record {
  anchored = refl;
  cleaned = refl;
  unorphaned = refl;
  unambiguous = refl;
  no_orphans = refl;
  workspace = λ w e. cc;
  collaborated = λ text e. cc;
  validated = λ e. omega arith;
  torn_down = λ e. refl;
  no_isolation = refl;
  no_external = refl;
  no_failures = refl;
  no_live = refl;
  no_process_failures = refl;
}

cmd_completion_finishes_example :
    cmd_completion view rows task ≡ ok (completed task, record { status = pass; reasons = [] })
cmd_completion_finishes_example = cmd_completion_finishes view rows task refl task-IsClear

-- Without the passing run the task goes on.
waiting_runs :
    cmd_completion view (failing_before ∷ []) task
    ≡ ok (task, record { status = continue; reasons = no_validation_pass ∷ [] })
unfolding cmd_completion inferred
waiting_runs = refl

cmd_completion-IsHonest_example :
    (continue ≡ pass
      → (TaskStatus.active ≡ TaskStatus.active)
        × IsClear view (validation_state_for_generation 2 (failing_before ∷ [])) task
        × (task ≡ completed task))
    × (continue ≢ pass → task ≡ task)
cmd_completion-IsHonest_example =
    cmd_completion-IsHonest view (failing_before ∷ []) task (λ h. cc) waiting_runs
