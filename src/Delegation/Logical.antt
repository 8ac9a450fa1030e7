-- ===== src/Delegation/Logical.antt =====
-- What the logical isolation can do (scripts/codex_loop_runtime/delegation.py).
use codex_loop.Base.{
  String, ◌≡◌, refl, inl, inr, Bool, true, false, Option, some, [], ◌∷◌, All, Bool-cases,
  Option-cases, ok, >>=-eq-ok, ok_injective, subst,
}
use codex_loop.Delegation.{
  Capability, Capabilities, CapabilityReport, capability_of, logical_capabilities, same_truth,
  check_report, requested_capabilities, report_of, executor_capabilities, Negotiation, negotiate,
}

-- An item of a report names a capability and says what the logical isolation has of it.
abbrev pub IsTruthful : String × Bool → Type 0
IsTruthful item =
    (c : Capability) × (capability_of item.0 ≡ some c) × (logical_capabilities c ≡ item.1)

same_truth_lem : (a b : Bool) → same_truth a b ≡ true → b ≡ a
same_truth_lem true b h = h
same_truth_lem false true h = cc
same_truth_lem false false h = refl

check_report_lem :
    (reported : CapabilityReport) {actual : Capabilities}
    → check_report reported ≡ ok actual
    → (actual ≡ logical_capabilities) × All IsTruthful reported
unfolding check_report
check_report_lem [] h = (cc, tt)
check_report_lem ((key, value) ∷ rest) h = elim (Option-cases (capability_of key)) [
  | inl unknown ↦ absurd (cc (rw (unknown, check_report) at h))
  | inr (c, known) ↦ elim (Bool-cases (same_truth value (logical_capabilities c))) [
    | inl same ↦
        let (is, truthful) = check_report_lem rest (rw (known, check_report, same) at h) in
        (is, ((c, known, same_truth_lem value (logical_capabilities c) same), truthful))
    | inr conflict ↦ absurd (cc (rw (known, check_report, conflict) at h))
  ]
]

-- A delegation that the logical isolation executes has its capabilities and no others, whatever the
-- report, and the report is accepted only where every item of it names a capability and agrees.
pub negotiate_logical :
    (requested_executor : String) (overrides : CapabilityReport)
    (reported : Option CapabilityReport) {n : Negotiation}
    → negotiate requested_executor overrides "logical_isolation" reported ≡ ok n
    → (n.actual ≡ logical_capabilities) × All IsTruthful (report_of reported)
unfolding negotiate executor_capabilities
negotiate_logical requested_executor overrides reported {n} h =
    let (requested, _, h₁) = >>=-eq-ok (requested_capabilities requested_executor overrides) _ h in
    let (actual, checked, h₂) = >>=-eq-ok (check_report (report_of reported)) _ h₁ in
    subst
      (λ (m : Negotiation). (m.actual ≡ logical_capabilities) × All IsTruthful (report_of reported))
      (ok_injective h₂) (check_report_lem (report_of reported) checked)
