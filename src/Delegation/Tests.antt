-- ===== src/Delegation/Tests.antt =====
-- A native request that the logical isolation executes (scripts/codex_loop_runtime/delegation.py).
use codex_loop.Base.{◌≡◌, ◌↔◌, refl, true, false, Option, some, [], ◌∷◌, All, ok, err}
use codex_loop.Delegation.{
  CapabilityReport, Capabilities, Negotiation, capability_conflict, native_unavailable,
  serialized_delegation, degradation_of, default_native_request, logical_capabilities, assign,
  parallel_execution, fresh_model_context, independent_model_instance, physical_context_isolation,
  calculate_missing_capabilities, build_degradation_warnings, executor_capabilities, report_of,
  negotiate,
}
use codex_loop.Delegation.Logical.{IsTruthful, negotiate_logical}
use codex_loop.Delegation.Warnings.{IsUndegraded, negotiate_silent}

abbrev overrides : CapabilityReport
overrides = ("parallel_execution", true) ∷ []

abbrev reported : Option CapabilityReport
reported = some (("fresh_model_context", false) ∷ ("bounded_context_projection", true) ∷ [])

abbrev wanted : Capabilities
wanted = assign parallel_execution true default_native_request

abbrev negotiated : Negotiation
negotiated = record {
  requested = wanted;
  actual = logical_capabilities;
  missing = calculate_missing_capabilities wanted logical_capabilities;
  degradations =
      build_degradation_warnings "native_subagent" "logical_isolation" wanted logical_capabilities
        (calculate_missing_capabilities wanted logical_capabilities);
}

negotiating_runs :
    negotiate "native_subagent" overrides "logical_isolation" reported ≡ ok negotiated
unfolding negotiate
negotiating_runs = refl

degradations_run :
    negotiated.degradations
    ≡ degradation_of "native_subagent" "logical_isolation" native_unavailable (
        fresh_model_context ∷ independent_model_instance ∷ physical_context_isolation
        ∷ parallel_execution ∷ [])
      ∷ degradation_of "native_subagent" "logical_isolation" serialized_delegation
          (parallel_execution ∷ [])
      ∷ []
unfolding build_degradation_warnings calculate_missing_capabilities
degradations_run = refl

conflict_runs :
    executor_capabilities "logical_isolation" (some (("fresh_model_context", true) ∷ []))
    ≡ err capability_conflict
unfolding executor_capabilities
conflict_runs = refl

negotiate_silent_example :
    (negotiated.degradations ≡ []) ↔ IsUndegraded "native_subagent" "logical_isolation" negotiated
negotiate_silent_example =
    negotiate_silent "native_subagent" overrides "logical_isolation" reported negotiating_runs

negotiate_logical_example :
    (negotiated.actual ≡ logical_capabilities) × All IsTruthful (report_of reported)
negotiate_logical_example = negotiate_logical "native_subagent" overrides reported negotiating_runs
