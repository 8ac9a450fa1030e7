-- ===== src/Store.antt =====
-- scripts/codex_loop_runtime/state.py: the tables of a task's state database, as one record.
-- A row of `metadata` is a field here; a missing row is the constructor or value that stands for
-- its default. Time stamps are left out: nothing but the order of listings depends on them.
pub mod Clean
pub mod External
pub mod Events
pub mod Status
pub mod Plan
pub mod Cancel
pub mod Isolations
pub mod Processes
pub mod History
mod Tests
use codex_loop.Base.{ℤ, ℕ, String, Bool, Option, none, some, List, []}

-- `TASK_STATUSES`, and the default of a database that no task was configured in.
pub data TaskStatus : Type 0 where
  uninitialized active paused blocked complete cancelled : TaskStatus

-- `PROFILES`
pub data Profile : Type 0 where
  regular bug_fix feature refactor test_repair ci_repair : Profile
  code_review review_fix command_only investigation : Profile

-- `PLAN_STATUSES`
pub data PlanStatus : Type 0 where
  pending in_progress completed : PlanStatus

pub record PlanItem : Type 0 where
  pub step : String
  pub status : PlanStatus

pub data ActionState : Type 0 where
  planned dispatched terminal_success terminal_failure : ActionState
  outcome_unknown cancelled_before_dispatch : ActionState

pub data ActionClass : Type 0 where
  read_only recheckable external_non_idempotent : ActionClass

-- A row of `external_actions`; `details` is the text of `details_json`.
pub record Action : Type 0 where
  pub action_id : String
  pub kind : String
  pub identity : Option String
  pub action_class : ActionClass
  pub state : ActionState
  pub details : Option String
  pub failure_resolved : Bool
  pub resolution : Option String

pub data WorkStatus : Type 0 where
  active finished aborted : WorkStatus

pub data MutationPolicy : Type 0 where
  read_only workspace_write : MutationPolicy

-- A row of `isolations`; the capability maps and the context are texts of JSON.
pub record Isolation : Type 0 where
  pub isolation_id : String
  pub role : String
  pub objective : String
  pub status : WorkStatus
  pub parent_generation : ℕ
  pub exit_generation : Option ℕ
  pub requested_executor : String
  pub actual_executor : String
  pub capabilities : String
  pub mutation_policy : MutationPolicy
  pub context_spec : String
  pub result : Option String
  pub checkpoint_id : Option ℕ
  pub workspace_changed : Bool

-- A row of `semantic_work`.
pub record SemanticWork : Type 0 where
  pub isolation_id : String
  pub consumer : String
  pub stage : String
  pub input_sha256 : String
  pub instruction_sha256 : String
  pub request_sha256 : String
  pub parent_generation : ℕ
  pub status : WorkStatus
  pub semantic_result_id : Option String
  pub result_generation : Option ℕ

-- A row of `isolation_events`.
pub record IsolationEvent : Type 0 where
  pub isolation_id : String
  pub kind : String
  pub generation : ℕ
  pub details : Option String

pub data ProcessStatus : Type 0 where
  running draining exited failed orphaned resolved : ProcessStatus

-- A row of `processes`.
pub record Process : Type 0 where
  pub handle : String
  pub pid : Option ℕ
  pub argv : String
  pub cwd : String
  pub state : ProcessStatus
  pub exit_code : Option ℤ
  pub failure_message : Option String
  pub failure_resolved : Bool
  pub resolution : Option String

-- Each table is a list, the newest row first.
pub record Store : Type 0 where
  pub task_id : String
  pub request_anchor : String
  pub profile : Profile
  pub requires_validation : Bool
  pub requires_clean_process_exit : Bool
  pub generation : ℕ
  pub plan : List PlanItem
  pub plan_revision : ℕ
  pub task_status : TaskStatus
  pub blocked_reason : Option String
  pub cancel_reason : Option String
  pub external_actions : List Action
  pub isolations : List Isolation
  pub semantic_work : List SemanticWork
  pub isolation_events : List IsolationEvent
  pub processes : List Process
  pub steers : List (String × String)

-- The errors that the operations raise, one constructor for each message.
pub data StoreError : Type 0 where
  -- the status and the request
  invalid_task_status not_resumable not_active invalid_status_transition : StoreError
  blank_blocked_reason cannot_cancel invalid_task_id blank_anchor anchor_immutable : StoreError
  request_too_long blank_steer : StoreError
  -- the plan
  plan_too_long blank_step invalid_plan_status two_in_progress : StoreError
  -- external actions
  invalid_action_state invalid_action_class blank_kind identity_required : StoreError
  details_required details_too_large identity_ambiguous identity_taken : StoreError
  identity_exists create_while_inactive advance_while_inactive : StoreError
  dispatch_while_inactive undispatched_outcome kind_immutable identity_changed : StoreError
  invalid_action_transition unknown_action not_a_failure blank_evidence : StoreError
  -- isolations
  blank_isolation_field unsupported_policy semantic_not_read_only context_too_large : StoreError
  blank_semantic_field nested_isolation duplicate_isolation unknown_isolation : StoreError
  blank_event_kind event_too_large : StoreError
  isolation_not_active result_too_large must_finish_semantic not_semantic : StoreError
  semantic_not_active not_logical stale_request stale_workspace duplicate_result_id
        blank_abort_reason :
      StoreError
  -- processes
  unknown_handle not_resolvable : StoreError
