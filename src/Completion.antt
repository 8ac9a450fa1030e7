-- ===== src/Completion.antt =====
-- scripts/codex_loop_runtime/completion.py: the deterministic blockers of a finish, and the command
-- `completion` of scripts/codex_loop_kernel.py. The tables are those after `sync_generation`. What
-- git, the file system and the database of the local collaboration say is the record `View`. The
-- decision's `details` are left out.
pub mod Kept
pub mod Finish
pub mod Command
mod Tests
use codex_loop.Base.{
  ℕ, String, Bool, true, false, ◌&&◌, ◌||◌, not, Option, none, some, List, [], ◌∷◌, ◌++◌, any,
  length, ltb, if◌then◌else◌, is_some, is_empty, strip, str_eq, Result, ok, err, ◌>>=◌,
}
use codex_loop.Store.{Store, StoreError, TaskStatus, Profile}
use codex_loop.Store.Clean.{or_none}
use codex_loop.Store.Status.{mark_complete}
use codex_loop.Store.Cancel.{first_active}
use codex_loop.Store.External.Transact.{
  unresolved_external_count, unresolved_external_failure_count,
  ambiguous_non_idempotent_identity_count,
}
use codex_loop.Store.Processes.{
  live_process_rows, orphaned_process_count, unresolved_process_failure_count,
}
use codex_loop.Validation.{Validation, ValidationState, validation_state_for_generation}

pub data CompletionStatus : Type 0 where
  pass continue blocked : CompletionStatus

-- One constructor for each message.
pub data Obstacle : Type 0 where
  task_cancelled task_paused task_inactive : Obstacle
  task_blocked : Option String → Obstacle
  missing_anchor validation_cleanup ambiguous_identity : Obstacle
  orphaned_processes : ℕ → Obstacle
  binding_mismatch protected_changed read_only_changed command_only_changed : Obstacle
  collaboration : String → Obstacle
  no_validation_pass teardown_stalled : Obstacle
  active_isolation : String → Obstacle
  unresolved_external unresolved_failures live_processes process_failures : ℕ → Obstacle

-- What `git_state` says.
pub record Git : Type 0 where
  pub head : Option String
  pub branch : Option String
  pub status : Option String

-- What `changes` says when the baseline is enabled; otherwise the hashes of the protected paths,
-- before and now, and the state of git, before and now.
pub data Tracking : Type 0 where
  tracked : (unexpected changed : Bool) → Tracking
  untracked : List (Option String × Option String) → Git → Git → Tracking

pub record Workspace : Type 0 where
  pub matches : Bool
  pub tracking : Tracking

-- `binding` is missing when the task has no workspace.
pub record View : Type 0 where
  pub obstacle : Option String
  pub binding : Option Workspace

pub record Decision : Type 0 where
  pub status : CompletionStatus
  pub reasons : List Obstacle

abbrev pub add_when : Bool → Obstacle → List Obstacle → List Obstacle
add_when test o rest = if test then o ∷ rest else rest

abbrev pub is_read_only : Profile → Bool
is_read_only Profile.code_review = true
is_read_only Profile.investigation = true
is_read_only _ = false

abbrev pub is_command_only : Profile → Bool
is_command_only Profile.command_only = true
is_command_only _ = false

abbrev pub same_text : Option String → Option String → Bool
same_text none none = true
same_text (some a) (some b) = str_eq a b
same_text _ _ = false

unfoldable pub changed_any : Profile → Tracking → Bool
changed_any profile (tracked unexpected changed) = changed
changed_any profile (untracked hashes before now) =
    (is_read_only profile || is_command_only profile)
    && (any (λ h. not (same_text h.1 h.0)) hashes
        || not (same_text now.head before.head)
        || not (same_text now.branch before.branch)
        || not (same_text now.status before.status))

abbrev pub unexpected : Tracking → Bool
unexpected (tracked u changed) = u
unexpected (untracked _ _ _) = false

unfoldable pub workspace_blockers : Profile → Option Workspace → List Obstacle
unfolding changed_any
workspace_blockers profile none = []
workspace_blockers profile (some w) = add_when (not w.matches) binding_mismatch (
    add_when (unexpected w.tracking) protected_changed (
      add_when (is_read_only profile && changed_any profile w.tracking) read_only_changed (
        add_when (is_command_only profile && changed_any profile w.tracking) command_only_changed
          [])))

unfoldable pub blockers : View → ValidationState → Store → List Obstacle
unfolding strip ambiguous_non_idempotent_identity_count orphaned_process_count workspace_blockers
blockers view v s = add_when (is_empty (strip s.request_anchor)) missing_anchor (
    add_when (ltb 0 v.cleanup_failed_count || ltb 0 v.orphaned_count) validation_cleanup (
      add_when (ltb 0 (ambiguous_non_idempotent_identity_count s)) ambiguous_identity (
        add_when (ltb 0 (orphaned_process_count s)) (orphaned_processes (orphaned_process_count s))
          (workspace_blockers s.profile view.binding))))

unfoldable pub isolation_reason : Store → List Obstacle → List Obstacle
unfolding first_active
isolation_reason s rest = elim (first_active s.isolations) [
  | none ↦ rest
  | some i ↦ active_isolation i.isolation_id ∷ rest
]

abbrev pub collaboration_reason : Option String → List Obstacle → List Obstacle
collaboration_reason none rest = rest
collaboration_reason (some text) rest = if is_empty text then rest else collaboration text ∷ rest

unfoldable pub reasons : View → ValidationState → Store → List Obstacle
unfolding isolation_reason unresolved_external_count unresolved_external_failure_count
    live_process_rows unresolved_process_failure_count
reasons view v s = collaboration_reason view.obstacle (
    add_when (s.requires_validation && ltb v.passed_count 1) no_validation_pass (
      add_when (s.requires_clean_process_exit && ltb 0 v.teardown_stalled_count) teardown_stalled (
        isolation_reason s (
          add_when (ltb 0 (unresolved_external_count s))
            (unresolved_external (unresolved_external_count s))
            (add_when (ltb 0 (unresolved_external_failure_count s))
              (unresolved_failures (unresolved_external_failure_count s))
              (add_when (ltb 0 (length (live_process_rows s)))
                (live_processes (length (live_process_rows s)))
                (add_when (ltb 0 (unresolved_process_failure_count s))
                  (process_failures (unresolved_process_failure_count s)) [])))))))

-- `BLOCKED if blockers else (CONTINUE if reasons else PASS)`
unfoldable pub decide : List Obstacle → List Obstacle → Decision
decide [] [] = record { status = pass; reasons = [] }
decide [] (r ∷ rs) = record { status = continue; reasons = r ∷ rs }
decide (b ∷ bs) rs = record { status = blocked; reasons = (b ∷ bs) ++ rs }

abbrev pub blocked_by : Obstacle → Decision
blocked_by o = record { status = blocked; reasons = o ∷ [] }

unfoldable pub assess_active : View → List Validation → Store → Decision
unfolding validation_state_for_generation blockers reasons decide
assess_active view rows s =
    let v = validation_state_for_generation s.generation rows in
    decide (blockers view v s) (reasons view v s)

-- `str(store.get_meta("blocked_reason", "") or "").strip()`, and nothing for an empty text.
unfoldable pub block_message : Option String → Option String
unfolding strip or_none
block_message none = none
block_message (some reason) = or_none (strip reason)

-- The status of a database without a task is refused by `task_status`.
unfoldable pub assess_status :
    TaskStatus → View → List Validation → Store → Result StoreError Decision
unfolding assess_active block_message
assess_status TaskStatus.uninitialized view rows s = err StoreError.invalid_task_status
assess_status TaskStatus.complete view rows s = ok (record { status = pass; reasons = [] })
assess_status TaskStatus.cancelled view rows s = ok (blocked_by task_cancelled)
assess_status TaskStatus.paused view rows s = ok (blocked_by task_paused)
assess_status TaskStatus.blocked view rows s =
    ok (blocked_by (task_blocked (block_message s.blocked_reason)))
assess_status TaskStatus.active view rows s = ok (assess_active view rows s)

unfoldable pub assess : View → List Validation → Store → Result StoreError Decision
unfolding assess_status
assess view rows s = assess_status s.task_status view rows s

unfoldable pub finish_at :
    CompletionStatus → Decision → Store → Result StoreError (Store × Decision)
unfolding mark_complete
finish_at pass d s = mark_complete s >>= λ t. ok (t, d)
finish_at continue d s = ok (s, d)
finish_at blocked d s = ok (s, d)

unfoldable pub completion_at :
    TaskStatus → View → List Validation → Store → Result StoreError (Store × Decision)
unfolding assess finish_at
completion_at TaskStatus.complete view rows s = ok (s, record { status = pass; reasons = [] })
completion_at _ view rows s = assess view rows s >>= λ d. finish_at d.status d s

-- `cmd_completion`
unfoldable pub cmd_completion :
    View → List Validation → Store → Result StoreError (Store × Decision)
unfolding completion_at
cmd_completion view rows s = completion_at s.task_status view rows s
