-- ===== src/Store/Processes.antt =====
-- scripts/codex_loop_runtime/state.py: the table of managed processes, the newest row first.
pub mod Orphans
use codex_loop.Base.{
  ℕ, ℤ, String, Bool, true, false, not, Option, none, some, List, [], ◌∷◌, count, select,
  if◌then◌else◌, Result, ok, err, ◌>>◌, reject, is_empty, strip, str_eq,
}
use codex_loop.Store.{
  Store, StoreError, Process, ProcessStatus, running, draining, failed, orphaned, resolved,
  unknown_handle, not_resolvable, blank_evidence,
}
use codex_loop.Store.Clean.{scrub_persisted_text}

-- `WHERE state IN ('running','draining')`
abbrev pub is_live : Process → Bool
is_live p = elim p.state [ running ↦ true | draining ↦ true | _ ↦ false ]

abbrev pub is_orphaned : Process → Bool
is_orphaned p = elim p.state [ orphaned ↦ true | _ ↦ false ]

abbrev pub is_unresolved_failure : Process → Bool
is_unresolved_failure p = elim p.state [ failed ↦ not p.failure_resolved | _ ↦ false ]

unfoldable pub live_process_rows : Store → List Process
live_process_rows s = select is_live s.processes

unfoldable pub orphaned_process_count : Store → ℕ
orphaned_process_count s = count is_orphaned s.processes

unfoldable pub unresolved_process_failure_count : Store → ℕ
unresolved_process_failure_count s = count is_unresolved_failure s.processes

-- `WHERE state IN ('running','draining','orphaned')`
unfoldable pub running_process_count : Store → ℕ
running_process_count s =
    count (λ p. elim p.state [ running ↦ true | draining ↦ true | orphaned ↦ true | _ ↦ false ])
      s.processes

unfoldable pub has_handle : String → List Process → Bool
has_handle k [] = false
has_handle k (p ∷ rest) = if str_eq p.handle k then true else has_handle k rest

unfoldable pub find_process : String → List Process → Option Process
find_process k [] = none
find_process k (p ∷ rest) = if str_eq p.handle k then some p else find_process k rest

unfoldable pub update_process : String → (Process → Process) → List Process → List Process
update_process k f [] = []
update_process k f (p ∷ rest) = (if str_eq p.handle k then f p else p) ∷ update_process k f rest

-- What `upsert_process` writes; `argv` is the text of the argument record.
pub record Report : Type 0 where
  pub handle : String
  pub pid : Option ℕ
  pub argv : String
  pub cwd : String
  pub state : ProcessStatus
  pub exit_code : Option ℤ
  pub failure_message : Option String

-- `ON CONFLICT(handle) DO UPDATE SET …`: the resolution of an earlier failure stays.
abbrev pub refresh : (String → String) → Report → Process → Process
refresh redact r p = record p {
  pid = r.pid;
  state = r.state;
  exit_code = r.exit_code;
  failure_message = (elim r.failure_message [
    | none ↦ none
    | some m ↦ some (scrub_persisted_text redact 4096 m)
  ]);
}

abbrev pub new_process : (String → String) → Report → Process
new_process redact r = record {
  handle = r.handle;
  pid = r.pid;
  argv = r.argv;
  cwd = scrub_persisted_text redact 4096 r.cwd;
  state = r.state;
  exit_code = r.exit_code;
  failure_message = (elim r.failure_message [
    | none ↦ none
    | some m ↦ some (scrub_persisted_text redact 4096 m)
  ]);
  failure_resolved = false;
  resolution = none;
}

unfoldable pub upsert_process : (String → String) → Report → Store → Store
unfolding has_handle update_process scrub_persisted_text
upsert_process redact r s = record s {
  processes =
      if has_handle r.handle s.processes
      then update_process r.handle (refresh redact r) s.processes
      else new_process redact r ∷ s.processes;
}

unfoldable pub orphan : String → Process → Process
orphan reason p =
    if is_live p then record p { state = orphaned; failure_message = some reason } else p

unfoldable pub orphan_all : String → List Process → List Process
unfolding orphan
orphan_all reason [] = []
orphan_all reason (p ∷ rest) = orphan reason p ∷ orphan_all reason rest

-- The new state and the number of rows that were written.
unfoldable pub mark_running_processes_orphaned : (String → String) → String → Store → Store × ℕ
unfolding orphan_all scrub_persisted_text
mark_running_processes_orphaned redact reason s =
    let scrubbed = scrub_persisted_text redact 2048 reason in
    let clean = if is_empty scrubbed then "helper ownership lost" else scrubbed in
    (record s { processes = orphan_all clean s.processes }, count is_live s.processes)

unfoldable pub check_resolvable : Option Process → Result StoreError (Unit {0})
check_resolvable none = err unknown_handle
check_resolvable (some p) = elim p.state [
  | orphaned ↦ ok tt
  | failed ↦ ok tt
  | _ ↦ err not_resolvable
]

abbrev pub resolve : String → Process → Process
resolve evidence p = record p {
  state = resolved;
  failure_resolved = true;
  resolution = some evidence;
}

unfoldable pub resolve_orphaned_process :
    (String → String) → String → String → Store → Result StoreError Store
unfolding scrub_persisted_text strip check_resolvable find_process update_process
resolve_orphaned_process redact handle evidence s = do
  let clean = scrub_persisted_text redact 2048 evidence
  reject (is_empty (strip clean)) blank_evidence
  check_resolvable (find_process handle s.processes)
  ok (record s { processes = update_process handle (resolve clean) s.processes })
