-- ===== src/Supervision.antt =====
-- scripts/codex_loop_runtime/execution_supervision.py: what was observed of a workload, of its process
-- and of the cleanup after it. The literal that `execution_policy` returns is left out.
pub mod Evidence
use codex_loop.Base.{
  String, Bool, true, false, ◌&&◌, ◌||◌, not, Option, none, some, List, [], ◌∷◌, if◌then◌else◌, ℤ,
  is_zero, show_int, Result, ok, err, ◌>>=◌, ◌>>◌, reject, is_empty, strip, text_append,
}

pub data WorkloadStatus : Type 0 where
  unknown running passed failed cancelled : WorkloadStatus

-- `NONE` is `no_evidence`.
pub data EvidenceKind : Type 0 where
  machine_authoritative framework_authoritative explicit_protocol weak_textual no_evidence :
      EvidenceKind

pub data ProcessStatus : Type 0 where
  running exited_clean exited_nonzero teardown_stalled : ProcessStatus
  timed_out terminated orphaned unknown : ProcessStatus

pub data CleanupStatus : Type 0 where
  not_required succeeded failed orphaned unsupported unknown : CleanupStatus

pub record ExecutionObservation : Type 0 where
  pub workload_status : WorkloadStatus
  pub workload_evidence_kind : EvidenceKind
  pub workload_evidence : Option String
  pub process_status : ProcessStatus
  pub exit_code : Option ℤ
  pub process_evidence : Option String
  pub cleanup_status : CleanupStatus
  pub cleanup_evidence : Option String
  pub workload_adapter : Option String
  pub protocol_token_verified : Bool
  pub legacy_inferred : Bool

pub data ObservationError : Type 0 where
  passed_without_authority passed_without_evidence missing_adapter unverified_token :
      ObservationError
  evidence_of_no_kind stalled_before_terminal clean_with_code nonzero_without_code :
      ObservationError
  cleanup_without_evidence unknown_with_evidence invalid_enum_value : ObservationError

-- `_AUTHORITATIVE_SUCCESS_KINDS`
abbrev pub is_authoritative : EvidenceKind → Bool
is_authoritative EvidenceKind.machine_authoritative = true
is_authoritative EvidenceKind.framework_authoritative = true
is_authoritative EvidenceKind.explicit_protocol = true
is_authoritative _ = false

abbrev pub is_passed : WorkloadStatus → Bool
is_passed WorkloadStatus.passed = true
is_passed _ = false

abbrev pub is_failed : WorkloadStatus → Bool
is_failed WorkloadStatus.failed = true
is_failed WorkloadStatus.cancelled = true
is_failed _ = false

abbrev pub is_unknown : WorkloadStatus → Bool
is_unknown WorkloadStatus.unknown = true
is_unknown _ = false

abbrev pub workload_passed : ExecutionObservation → Bool
workload_passed o = is_passed o.workload_status

abbrev pub workload_failed : ExecutionObservation → Bool
workload_failed o = is_failed o.workload_status

abbrev pub workload_terminal : ExecutionObservation → Bool
workload_terminal o = is_passed o.workload_status || is_failed o.workload_status

pub data Warning : Type 0 where
  process_teardown_degraded process_cleanup_failed process_orphan_detected : Warning
  process_supervision_partial workload_result_uncertain : Warning

abbrev pub is_stalled : ProcessStatus → Bool
is_stalled ProcessStatus.teardown_stalled = true
is_stalled _ = false

abbrev pub is_process_orphaned : ProcessStatus → Bool
is_process_orphaned ProcessStatus.orphaned = true
is_process_orphaned _ = false

abbrev pub is_process_unknown : ProcessStatus → Bool
is_process_unknown ProcessStatus.unknown = true
is_process_unknown _ = false

abbrev pub is_cleanup_failed : CleanupStatus → Bool
is_cleanup_failed CleanupStatus.failed = true
is_cleanup_failed _ = false

abbrev pub is_cleanup_orphaned : CleanupStatus → Bool
is_cleanup_orphaned CleanupStatus.orphaned = true
is_cleanup_orphaned _ = false

abbrev pub is_cleanup_unsupported : CleanupStatus → Bool
is_cleanup_unsupported CleanupStatus.unsupported = true
is_cleanup_unsupported _ = false

abbrev pub warn_when : Bool → Warning → List Warning → List Warning
warn_when test warning rest = if test then warning ∷ rest else rest

unfoldable pub warnings : ExecutionObservation → List Warning
warnings o = warn_when (is_stalled o.process_status) process_teardown_degraded (
    warn_when (is_cleanup_failed o.cleanup_status) process_cleanup_failed (
      warn_when (is_process_orphaned o.process_status || is_cleanup_orphaned o.cleanup_status)
        process_orphan_detected
        (warn_when (is_process_unknown o.process_status || is_cleanup_unsupported o.cleanup_status)
          process_supervision_partial
          (warn_when (is_unknown o.workload_status) workload_result_uncertain []))))

-- `_nonempty`
unfoldable pub nonempty : Option String → Bool
unfolding strip
nonempty none = false
nonempty (some value) = not (is_empty (strip value))

unfoldable pub check_passed : ExecutionObservation → Result ObservationError (Unit {0})
unfolding nonempty
check_passed o = do
  reject (workload_passed o && not (is_authoritative o.workload_evidence_kind))
      passed_without_authority
  reject (workload_passed o && not (nonempty o.workload_evidence)) passed_without_evidence

-- The checks that the kind of the evidence asks for.
unfoldable pub check_kind : ExecutionObservation → Result ObservationError (Unit {0})
unfolding nonempty
check_kind o = elim o.workload_evidence_kind [
  | EvidenceKind.framework_authoritative ↦
      reject (not (nonempty o.workload_adapter)) missing_adapter
  | EvidenceKind.explicit_protocol ↦ reject (not o.protocol_token_verified) unverified_token
  | EvidenceKind.no_evidence ↦ reject (nonempty o.workload_evidence) evidence_of_no_kind
  | _ ↦ ok tt
]

abbrev pub has_nonzero : Option ℤ → Bool
has_nonzero none = false
has_nonzero (some code) = not (is_zero code)

unfoldable pub check_process : ExecutionObservation → Result ObservationError (Unit {0})
check_process o = elim o.process_status [
  | ProcessStatus.teardown_stalled ↦ reject (not (workload_terminal o)) stalled_before_terminal
  | ProcessStatus.exited_clean ↦ reject (has_nonzero o.exit_code) clean_with_code
  | ProcessStatus.exited_nonzero ↦ reject (not (has_nonzero o.exit_code)) nonzero_without_code
  | _ ↦ ok tt
]

unfoldable pub validate_observation :
    ExecutionObservation → Result ObservationError ExecutionObservation
unfolding check_passed check_kind check_process nonempty
validate_observation o = do
  check_passed o
  check_kind o
  check_process o
  reject
      ((is_cleanup_failed o.cleanup_status || is_cleanup_orphaned o.cleanup_status)
        && not (nonempty o.cleanup_evidence))
      cleanup_without_evidence
  reject
      (is_unknown o.workload_status
        && is_authoritative o.workload_evidence_kind
        && nonempty o.workload_evidence)
      unknown_with_evidence
  ok o

-- The observation that a bare exit code stands for.
unfoldable pub inferred : ℤ → String → ExecutionObservation
unfolding show_int strip
inferred code evidence = record {
  workload_status = if is_zero code then WorkloadStatus.passed else WorkloadStatus.failed;
  workload_evidence_kind = EvidenceKind.machine_authoritative;
  workload_evidence = some (
      text_append "legacy compatibility inference from host-observed process exit code "
        (text_append (show_int code) (text_append ": " (strip evidence))));
  process_status =
      if is_zero code then ProcessStatus.exited_clean else ProcessStatus.exited_nonzero;
  exit_code = some code;
  process_evidence = some (strip evidence);
  cleanup_status = CleanupStatus.not_required;
  cleanup_evidence = none;
  workload_adapter = none;
  protocol_token_verified = false;
  legacy_inferred = true;
}

unfoldable pub legacy_observation : ℤ → String → Result ObservationError ExecutionObservation
unfolding inferred validate_observation
legacy_observation code evidence = validate_observation (inferred code evidence)
