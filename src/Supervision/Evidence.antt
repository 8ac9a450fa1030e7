-- ===== src/Supervision/Evidence.antt =====
-- What a validated observation says (scripts/codex_loop_runtime/execution_supervision.py).
use codex_loop.Base.{
  String, ◌≡◌, refl, sym, subst, ◌∙◌, ◌↔◌, inl, inr, Bool, true, false, ◌&&◌, ◌||◌, not, not-false,
  some, ℤ, is_zero, Bool-cases, ok, >>=-eq-ok, reject-eq-ok, reject_ok, ok_injective, is_empty,
  strip, text_append, lstrip, rstrip,
}
use codex_loop.Supervision.{
  ExecutionObservation, EvidenceKind, ProcessStatus, is_authoritative, is_unknown, workload_passed,
  workload_terminal, is_cleanup_failed, is_cleanup_orphaned, nonempty, has_nonzero, check_passed,
  check_kind, check_process, validate_observation, inferred, legacy_observation,
  passed_without_authority, cleanup_without_evidence, unknown_with_evidence,
}

-- What each kind of evidence has to come with.
abbrev pub IsSupported : EvidenceKind → ExecutionObservation → Type 0
IsSupported EvidenceKind.framework_authoritative o = nonempty o.workload_adapter ≡ true
IsSupported EvidenceKind.explicit_protocol o = o.protocol_token_verified ≡ true
IsSupported EvidenceKind.no_evidence o = nonempty o.workload_evidence ≡ false
IsSupported _ o = Unit

-- What each status of the process has to agree with.
abbrev pub IsExit : ProcessStatus → ExecutionObservation → Type 0
IsExit ProcessStatus.teardown_stalled o = workload_terminal o ≡ true
IsExit ProcessStatus.exited_clean o = has_nonzero o.exit_code ≡ false
IsExit ProcessStatus.exited_nonzero o = has_nonzero o.exit_code ≡ true
IsExit _ o = Unit

pub record IsConsistent (o : ExecutionObservation) : Type 0 where
  pub authority : workload_passed o ≡ true → is_authoritative o.workload_evidence_kind ≡ true
  pub evidence : workload_passed o ≡ true → nonempty o.workload_evidence ≡ true
  pub supported : IsSupported o.workload_evidence_kind o
  pub exit : IsExit o.process_status o
  pub cleanup :
      (is_cleanup_failed o.cleanup_status || is_cleanup_orphaned o.cleanup_status) ≡ true
      → nonempty o.cleanup_evidence ≡ true
  pub classified :
      is_unknown o.workload_status ≡ true
      → is_authoritative o.workload_evidence_kind ≡ true
      → nonempty o.workload_evidence ≡ false

and_not : (a b : Bool) → (a && not b) ≡ false → a ≡ true → b ≡ true
and_not true b h e = not-false b h
and_not false b h e = cc

check_kind-IsSupported :
    (o : ExecutionObservation) → check_kind o ≡ ok tt → IsSupported o.workload_evidence_kind o
unfolding check_kind
check_kind-IsSupported o h = by_kind o.workload_evidence_kind refl
  where
    by_kind : (k : EvidenceKind) → o.workload_evidence_kind ≡ k → IsSupported k o
    by_kind EvidenceKind.machine_authoritative e = tt
    by_kind EvidenceKind.framework_authoritative e = not-false _ (reject_ok _ _ (rw e at h))
    by_kind EvidenceKind.explicit_protocol e = not-false _ (reject_ok _ _ (rw e at h))
    by_kind EvidenceKind.weak_textual e = tt
    by_kind EvidenceKind.no_evidence e = reject_ok _ _ (rw e at h)

check_process-IsExit :
    (o : ExecutionObservation) → check_process o ≡ ok tt → IsExit o.process_status o
unfolding check_process
check_process-IsExit o h = by_status o.process_status refl
  where
    by_status : (p : ProcessStatus) → o.process_status ≡ p → IsExit p o
    by_status ProcessStatus.running e = tt
    by_status ProcessStatus.exited_clean e = reject_ok _ _ (rw e at h)
    by_status ProcessStatus.exited_nonzero e = not-false _ (reject_ok _ _ (rw e at h))
    by_status ProcessStatus.teardown_stalled e = not-false _ (reject_ok _ _ (rw e at h))
    by_status ProcessStatus.timed_out e = tt
    by_status ProcessStatus.terminated e = tt
    by_status ProcessStatus.orphaned e = tt
    by_status ProcessStatus.unknown e = tt

IsSupported-check_kind :
    (o : ExecutionObservation) → IsSupported o.workload_evidence_kind o → check_kind o ≡ ok tt
unfolding check_kind
IsSupported-check_kind o h = by_kind o.workload_evidence_kind refl
  where
    by_kind : (k : EvidenceKind) → o.workload_evidence_kind ≡ k → check_kind o ≡ ok tt
    by_kind EvidenceKind.machine_authoritative e = rw e refl
    by_kind EvidenceKind.framework_authoritative e = rw (e, rw e at h) refl
    by_kind EvidenceKind.explicit_protocol e = rw (e, rw e at h) refl
    by_kind EvidenceKind.weak_textual e = rw e refl
    by_kind EvidenceKind.no_evidence e = rw (e, rw e at h) refl

IsExit-check_process :
    (o : ExecutionObservation) → IsExit o.process_status o → check_process o ≡ ok tt
unfolding check_process
IsExit-check_process o h = by_status o.process_status refl
  where
    by_status : (p : ProcessStatus) → o.process_status ≡ p → check_process o ≡ ok tt
    by_status ProcessStatus.running e = rw e refl
    by_status ProcessStatus.exited_clean e = rw (e, rw e at h) refl
    by_status ProcessStatus.exited_nonzero e = rw (e, rw e at h) refl
    by_status ProcessStatus.teardown_stalled e = rw (e, rw e at h) refl
    by_status ProcessStatus.timed_out e = rw e refl
    by_status ProcessStatus.terminated e = rw e refl
    by_status ProcessStatus.orphaned e = rw e refl
    by_status ProcessStatus.unknown e = rw e refl

valid-IsConsistent :
    (o : ExecutionObservation) {v : ExecutionObservation}
    → validate_observation o ≡ ok v
    → IsConsistent o
unfolding validate_observation check_passed
valid-IsConsistent o h =
    let (_, passed, h₁) = >>=-eq-ok (check_passed o) _ h in
    let authority =
      reject-eq-ok (workload_passed o && not (is_authoritative o.workload_evidence_kind))
        passed_without_authority _ passed in
    let evidence =
      reject_ok (workload_passed o && not (nonempty o.workload_evidence)) _ authority.1 in
    let (_, kind, h₂) = >>=-eq-ok (check_kind o) _ h₁ in
    let (_, process, h₃) = >>=-eq-ok (check_process o) _ h₂ in
    let cleanup =
      reject-eq-ok
        ((is_cleanup_failed o.cleanup_status || is_cleanup_orphaned o.cleanup_status)
          && not (nonempty o.cleanup_evidence))
        cleanup_without_evidence _ h₃ in
    let classified =
      reject-eq-ok
        (is_unknown o.workload_status
          && is_authoritative o.workload_evidence_kind
          && nonempty o.workload_evidence)
        unknown_with_evidence _ cleanup.1 in
    record {
      authority = and_not _ _ authority.0;
      evidence = and_not _ _ evidence;
      supported = check_kind-IsSupported o kind;
      exit = check_process-IsExit o process;
      cleanup = and_not _ _ cleanup.0;
      classified = λ a b. cc (a, b, classified.0);
    }

and_not-false : (a b : Bool) → (a ≡ true → b ≡ true) → (a && not b) ≡ false
and_not-false true b h = rw (h refl) refl
and_not-false false b h = refl

and_and_false : (a b c : Bool) → (a ≡ true → b ≡ true → c ≡ false) → (a && b && c) ≡ false
and_and_false true true c h = h refl refl
and_and_false true false c h = refl
and_and_false false b c h = refl

IsConsistent-valid : (o : ExecutionObservation) → IsConsistent o → validate_observation o ≡ ok o
unfolding validate_observation check_passed
IsConsistent-valid o c =
    rw
      (
        and_not-false (workload_passed o) (is_authoritative o.workload_evidence_kind) c.authority,
        and_not-false (workload_passed o) (nonempty o.workload_evidence) c.evidence,
        IsSupported-check_kind o c.supported,
        IsExit-check_process o c.exit,
        and_not-false (is_cleanup_failed o.cleanup_status || is_cleanup_orphaned o.cleanup_status)
            (nonempty o.cleanup_evidence) c.cleanup,
        and_and_false (is_unknown o.workload_status) (is_authoritative o.workload_evidence_kind)
            (nonempty o.workload_evidence) c.classified,
      )
      refl

-- The validation accepts exactly the consistent observations, and gives them back unchanged: success
-- has authoritative evidence that is not blank, evidence of a framework names its adapter and that
-- of a protocol a verified token, a stalled teardown follows a terminal workload, the exit code agrees with
-- the status of the process, a failed cleanup has its evidence, and an unknown workload has none that is
-- authoritative.
pub validate_observation-IsConsistent :
    (o : ExecutionObservation) → (validate_observation o ≡ ok o) ↔ IsConsistent o
validate_observation-IsConsistent o = (valid-IsConsistent o, IsConsistent-valid o)

-- An accepted observation is the given one.
pub validated :
    (o : ExecutionObservation) {v : ExecutionObservation}
    → validate_observation o ≡ ok v
    → (o ≡ v) × IsConsistent v
validated o {v} h =
    let c = valid-IsConsistent o h in
    let same = ok_injective (sym (IsConsistent-valid o c) ∙ h) in (same, subst IsConsistent same c)

legacy-nonempty : (tail : String) → nonempty (some (String.◌∷◌ "l" tail)) ≡ true
unfolding nonempty strip lstrip rstrip
legacy-nonempty tail = elim (Bool-cases (is_empty (rstrip tail))) [
  | inl bare ↦ rw bare refl
  | inr more ↦ rw more refl
]

-- The text of the evidence starts with a word.
explained-nonempty :
    (tail : String)
    → nonempty (
        some
          (text_append "legacy compatibility inference from host-observed process exit code " tail))
      ≡ true
explained-nonempty tail =
    legacy-nonempty
      (text_append "egacy compatibility inference from host-observed process exit code " tail)

inferred-IsConsistent : (code : ℤ) (text : String) → IsConsistent (inferred code text)
unfolding inferred
inferred-IsConsistent code text = record {
  authority = λ _. refl;
  evidence = λ _. explained-nonempty _;
  supported = tt;
  exit = elim (Bool-cases (is_zero code)) [
    | inl zero ↦ rw zero (rw zero refl)
    | inr other ↦ rw other (rw other refl)
  ];
  cleanup = λ h. cc;
  classified = λ h. elim (Bool-cases (is_zero code)) [
    | inl zero ↦ absurd (cc (rw zero at h))
    | inr other ↦ absurd (cc (rw other at h))
  ];
}

inferred-passed : (code : ℤ) (text : String) → workload_passed (inferred code text) ≡ is_zero code
unfolding inferred
inferred-passed code text = elim (Bool-cases (is_zero code)) [
  | inl zero ↦ rw zero refl
  | inr other ↦ rw other refl
]

-- A bare exit code always stands for an observation: none is refused, and the workload passed exactly
-- when the code is 0.
pub legacy_observation_lem :
    (code : ℤ) (text : String)
    → (legacy_observation code text ≡ ok (inferred code text))
      × (workload_passed (inferred code text) ≡ is_zero code)
unfolding legacy_observation
legacy_observation_lem code text = (
  IsConsistent-valid (inferred code text) (inferred-IsConsistent code text),
  inferred-passed code text,
)
