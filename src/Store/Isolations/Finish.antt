-- ===== src/Store/Isolations/Finish.antt =====
-- scripts/codex_loop_runtime/state.py: the events, the end and the abort of an isolation.
use Prim.Native.String.{len}
use codex_loop.Base.{
  ℕ, String, Bool, false, not, ◌&&◌, Option, none, some, List, any, ltb, if◌then◌else◌, is_some,
  Result, ok, err, ◌>>=◌, ◌>>◌, reject, is_empty, str_eq,
}
use codex_loop.Store.{
  Store, StoreError, Isolation, SemanticWork, WorkStatus, unknown_isolation, blank_event_kind,
  event_too_large, isolation_not_active, result_too_large, must_finish_semantic, not_semantic,
  semantic_not_active, not_logical, stale_request, stale_workspace, duplicate_result_id,
  blank_abort_reason,
}
use codex_loop.Store.Clean.{clean_text}
use codex_loop.Store.Events.{log_event}
use codex_loop.Store.Status.{is_active_work}
use codex_loop.Store.Cancel.{abort_work}
use codex_loop.Store.Isolations.{
  Digest, effective_request_sha256, find_isolation, find_work, update_isolation, update_work,
  new_event,
}

-- `details` is the text of the scrubbed details.
unfoldable pub record_isolation_event :
    (String → String) → String → String → Option String → Store → Result StoreError Store
unfolding clean_text find_isolation log_event
record_isolation_event redact k kind details s = do
  let clean = clean_text redact 128 kind
  reject (is_empty clean) blank_event_kind
  reject (elim details [ none ↦ false | some text ↦ ltb 65536 (len text) ]) event_too_large
  reject (not (is_some (find_isolation k s.isolations))) unknown_isolation
  ok (record s {
    isolation_events = log_event (new_event k clean s.generation details) s.isolation_events;
  })

-- The arguments of `finish_isolation`; `result` is the text of the scrubbed result.
pub record Outcome : Type 0 where
  pub result : String
  pub exit_generation : ℕ
  pub workspace_changed : Bool
  pub semantic_result_id : Option String

-- The guards on semantic work.
unfoldable pub check_work :
    String → Isolation → Option SemanticWork → Outcome → Result StoreError (Unit {0})
check_work request i none o = reject (is_some o.semantic_result_id) not_semantic
check_work request i (some w) o = do
  reject (not (is_some o.semantic_result_id)) must_finish_semantic
  reject (not (is_active_work w.status)) semantic_not_active
  reject (not (str_eq i.actual_executor "logical_isolation")) not_logical
  reject (not (str_eq w.request_sha256 request)) stale_request
  reject o.workspace_changed stale_workspace

-- `semantic_result_id TEXT UNIQUE`: another row has the id.
abbrev pub has_result_id : String → SemanticWork → Bool
has_result_id r w = elim w.semantic_result_id [ none ↦ false | some given ↦ str_eq given r ]

unfoldable pub is_duplicate : String → Option String → List SemanticWork → Bool
is_duplicate k none rows = false
is_duplicate k (some r) rows = any (λ w. not (str_eq w.isolation_id k) && has_result_id r w) rows

abbrev pub finish_row : Outcome → Isolation → Isolation
finish_row o i = record i {
  status = WorkStatus.finished;
  exit_generation = some o.exit_generation;
  result = some o.result;
  workspace_changed = o.workspace_changed;
}

abbrev pub finish_work : Outcome → SemanticWork → SemanticWork
finish_work o w = record w {
  status = WorkStatus.finished;
  semantic_result_id = o.semantic_result_id;
  result_generation = some o.exit_generation;
}

unfoldable pub require_active : Option Isolation → Result StoreError Isolation
require_active none = err unknown_isolation
require_active (some i) = if is_active_work i.status then ok i else err isolation_not_active

-- The rows that a finish writes.
unfoldable pub finished : String → Outcome → Store → Store
unfolding update_isolation update_work log_event
finished k o s = record s {
  isolations = update_isolation k (finish_row o) s.isolations;
  semantic_work = update_work k (finish_work o) s.semantic_work;
  isolation_events = log_event (new_event k "finished" o.exit_generation none) s.isolation_events;
}

unfoldable pub finish_isolation : Digest → String → Outcome → Store → Result StoreError Store
unfolding effective_request_sha256 find_isolation find_work require_active check_work is_duplicate
    finished
finish_isolation digest k o s = do
  reject (ltb (if is_some o.semantic_result_id then 262144 else 65536) (len o.result))
      result_too_large
  i ← require_active (find_isolation k s.isolations)
  check_work (effective_request_sha256 digest s) i (find_work k s.semantic_work) o
  reject (is_duplicate k o.semantic_result_id s.semantic_work) duplicate_result_id
  ok (finished k o s)

-- `self.generation() if exit_generation is None else int(exit_generation)`
abbrev pub or_current : Option ℕ → ℕ → ℕ
or_current none current = current
or_current (some generation) current = generation

abbrev pub abort_with : ℕ → Isolation → Isolation
abort_with generation j = record j {
  status = WorkStatus.aborted;
  exit_generation = some generation;
}

unfoldable pub abort_isolation :
    (String → String) → String → String → Option ℕ → Store → Result StoreError Store
unfolding clean_text find_isolation require_active update_isolation abort_work log_event
abort_isolation redact k reason exit_generation s = do
  let clean = clean_text redact 4096 reason
  reject (is_empty clean) blank_abort_reason
  let generation = or_current exit_generation s.generation
  i ← require_active (find_isolation k s.isolations)
  ok (record s {
    isolations = update_isolation k (abort_with generation) s.isolations;
    semantic_work = abort_work k s.semantic_work;
    isolation_events = log_event (new_event k "aborted" generation none) s.isolation_events;
  })
