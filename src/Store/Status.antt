-- ===== src/Store/Status.antt =====
-- scripts/codex_loop_runtime/state.py: the status of a task, its request and its plan.
use codex_loop.Base.{
  ◌+◌, String, Bool, true, false, ◌&&◌, not, Option, none, some, [], ◌∷◌, if◌then◌else◌, Result, ok,
  err, ◌>>=◌, ◌>>◌, reject, is_empty, strip, str_eq,
}
use codex_loop.Store.{
  Store, StoreError, TaskStatus, Profile, WorkStatus, invalid_task_status, not_resumable,
  not_active, invalid_status_transition, blank_blocked_reason, blank_anchor, anchor_immutable,
  blank_steer,
}
use codex_loop.Store.Clean.{validate_task_id, clean_text, normalize_request_authority_text}

abbrev pub status_eq : TaskStatus → TaskStatus → Bool
status_eq TaskStatus.uninitialized TaskStatus.uninitialized = true
status_eq TaskStatus.active TaskStatus.active = true
status_eq TaskStatus.paused TaskStatus.paused = true
status_eq TaskStatus.blocked TaskStatus.blocked = true
status_eq TaskStatus.complete TaskStatus.complete = true
status_eq TaskStatus.cancelled TaskStatus.cancelled = true
status_eq _ _ = false

-- `RESUMABLE_TASK_STATUSES`
abbrev pub is_resumable : TaskStatus → Bool
is_resumable TaskStatus.active = true
is_resumable TaskStatus.paused = true
is_resumable TaskStatus.blocked = true
is_resumable _ = false

-- `task_status`: a database without a task has no valid status.
unfoldable pub read_status : Store → Result StoreError TaskStatus
read_status s =
    if status_eq s.task_status TaskStatus.uninitialized
    then err invalid_task_status
    else ok s.task_status

unfoldable pub ensure_resumable : Store → Result StoreError (Unit {0})
unfolding read_status
ensure_resumable s = do status ← read_status s; reject (not (is_resumable status)) not_resumable

unfoldable pub ensure_active : Store → Result StoreError (Unit {0})
unfolding read_status
ensure_active s = do
  status ← read_status s
  reject (not (status_eq status TaskStatus.active)) not_active

-- `_transition_status` for a target other than `blocked`, with a set of one expected status.
unfoldable pub transition : TaskStatus → TaskStatus → Store → Result StoreError Store
transition expected target s = do
  reject (not (status_eq s.task_status expected)) invalid_status_transition
  ok (record s { task_status = target; blocked_reason = none })

unfoldable pub pause : Store → Result StoreError Store
unfolding transition
pause = transition TaskStatus.active TaskStatus.paused

-- `_transition_status` for the target `blocked`.
unfoldable pub block : (String → String) → String → Store → Result StoreError Store
unfolding clean_text
block redact reason s = do
  reject (not (status_eq s.task_status TaskStatus.active)) invalid_status_transition
  let clean = clean_text redact 2048 reason
  reject (is_empty clean) blank_blocked_reason
  ok (record s { task_status = TaskStatus.blocked; blocked_reason = some clean })

unfoldable pub reactivate :
    TaskStatus → Store → Result StoreError (Store × TaskStatus × Option String)
unfolding transition
reactivate status s = do t ← transition status TaskStatus.active s; ok (t, status, s.blocked_reason)

-- The new state, the status before and the reason of a block.
unfoldable pub resume_from :
    TaskStatus → Store → Result StoreError (Store × TaskStatus × Option String)
unfolding reactivate
resume_from TaskStatus.active s = ok (s, TaskStatus.active, none)
resume_from TaskStatus.paused s = reactivate TaskStatus.paused s
resume_from TaskStatus.blocked s = reactivate TaskStatus.blocked s
resume_from _ s = err not_resumable

unfoldable pub resume : Store → Result StoreError (Store × TaskStatus × Option String)
unfolding read_status resume_from
resume s = do status ← read_status s; resume_from status s

unfoldable pub mark_complete : Store → Result StoreError Store
unfolding transition
mark_complete = transition TaskStatus.active TaskStatus.complete

unfoldable pub bump_generation : Store → Store
bump_generation s = record s { generation = s.generation + 1 }

-- `configure_task`: every table is emptied, every row of `metadata` deleted.
unfoldable pub configure_task :
    String → String → Profile → Bool → Bool → Store → Result StoreError Store
unfolding validate_task_id normalize_request_authority_text strip
configure_task task_id anchor profile requires_validation requires_clean_process_exit s = do
  chosen ← validate_task_id task_id
  request ← normalize_request_authority_text anchor
  reject (is_empty (strip request)) blank_anchor
  reject (not (is_empty s.request_anchor) && not (str_eq s.request_anchor request)) anchor_immutable
  ok (record {
    task_id = chosen;
    request_anchor = request;
    profile = profile;
    requires_validation = requires_validation;
    requires_clean_process_exit = requires_clean_process_exit;
    generation = 0;
    plan = [];
    plan_revision = 0;
    task_status = TaskStatus.active;
    blocked_reason = none;
    cancel_reason = none;
    external_actions = [];
    isolations = [];
    semantic_work = [];
    isolation_events = [];
    processes = [];
    steers = [];
  })

unfoldable pub record_steer : String → String → Store → Result StoreError (Store × String)
unfolding normalize_request_authority_text strip
record_steer fresh text s = do
  clean ← normalize_request_authority_text text
  reject (is_empty (strip clean)) blank_steer
  ok (record s { steers = (fresh, clean) ∷ s.steers; plan_revision = s.plan_revision + 1 }, fresh)

abbrev pub is_active_work : WorkStatus → Bool
is_active_work WorkStatus.active = true
is_active_work _ = false
