-- ===== src/Store/Cancel.antt =====
-- scripts/codex_loop_runtime/state.py: the cancellation of a task.
pub mod Settles
use codex_loop.Base.{
  ℕ, String, true, ◌&&◌, not, Option, none, some, List, [], ◌∷◌, map, if◌then◌else◌, Result, ok,
  ◌>>◌, reject, str_eq,
}
use codex_loop.Store.{
  Store, StoreError, TaskStatus, Action, Isolation, SemanticWork, IsolationEvent, WorkStatus,
  planned, cancelled_before_dispatch, cannot_cancel,
}
use codex_loop.Store.Clean.{scrub_persisted_text}
use codex_loop.Store.Events.{log_event}
use codex_loop.Store.Status.{is_resumable, is_active_work}

-- `SELECT isolation_id FROM isolations WHERE status='active' LIMIT 1`
unfoldable pub first_active : List Isolation → Option Isolation
first_active [] = none
first_active (i ∷ rest) = if is_active_work i.status then some i else first_active rest

abbrev pub cancel_planned : Action → Action
cancel_planned a = elim a.state [
  | planned ↦ record a {
    state = cancelled_before_dispatch;
    details = some "{\"observed\": \"cancelled before dispatch\"}";
    failure_resolved = true;
    resolution = some "cancelled before dispatch";
  }
  | _ ↦ a
]

-- `UPDATE isolations SET … WHERE isolation_id=? AND status='active'`
unfoldable pub abort_rows : String → ℕ → List Isolation → List Isolation
abort_rows k generation [] = []
abort_rows k generation (i ∷ rest) =
    (if str_eq i.isolation_id k && is_active_work i.status
      then record i { status = WorkStatus.aborted; exit_generation = some generation }
      else i)
    ∷ abort_rows k generation rest

-- `UPDATE semantic_work SET … WHERE isolation_id=? AND status='active'`
unfoldable pub abort_work : String → List SemanticWork → List SemanticWork
abort_work k [] = []
abort_work k (w ∷ rest) =
    (if str_eq w.isolation_id k && is_active_work w.status
      then record w { status = WorkStatus.aborted }
      else w)
    ∷ abort_work k rest

abbrev pub aborted_event : String → ℕ → IsolationEvent
aborted_event k generation = record {
  isolation_id = k;
  kind = "aborted";
  generation = generation;
  details = none;
}

unfoldable pub abort_active : Option Isolation → Store → Store
unfolding abort_rows abort_work log_event
abort_active none s = s
abort_active (some i) s = record s {
  isolations = abort_rows i.isolation_id s.generation s.isolations;
  semantic_work = abort_work i.isolation_id s.semantic_work;
  isolation_events = log_event (aborted_event i.isolation_id s.generation) s.isolation_events;
}

-- `reason` may be `None`; the cancel reason is kept as it was cleaned.
unfoldable pub cancel : (String → String) → Option String → Store → Result StoreError Store
unfolding first_active abort_active scrub_persisted_text
cancel redact reason s = do
  reject (not (is_resumable s.task_status)) cannot_cancel
  let t = abort_active (first_active s.isolations) s
  ok (record t {
    external_actions = map cancel_planned t.external_actions;
    task_status = TaskStatus.cancelled;
    cancel_reason = (elim reason [
      | none ↦ none
      | some r ↦ some (scrub_persisted_text redact 2048 r)
    ]);
    blocked_reason = none;
  })
