-- ===== src/Delegation.antt =====
-- scripts/codex_loop_runtime/delegation.py: the capabilities that a delegation asks for and gets, and
-- the warnings of what it loses. A dict is the list of its items, with the truth of each value. A
-- warning leaves its severity and the text of its message out.
pub mod Logical
pub mod Warnings
pub mod Semantic
mod Tests
use codex_loop.Base.{
  String, Bool, true, false, ◌&&◌, ◌||◌, not, Option, none, some, List, [], ◌∷◌, ◌++◌, any, select,
  if◌then◌else◌, str_eq, Result, ok, err, ◌>>=◌,
}

-- `CAPABILITY_KEYS`
pub data Capability : Type 0 where
  fresh_model_context independent_model_instance physical_context_isolation : Capability
  behavioral_context_isolation bounded_context_projection parallel_execution : Capability
  background_execution independent_tool_sandbox : Capability

abbrev pub capability_keys : List Capability
capability_keys =
    fresh_model_context ∷ independent_model_instance ∷ physical_context_isolation
    ∷ behavioral_context_isolation ∷ bounded_context_projection ∷ parallel_execution
    ∷ background_execution ∷ independent_tool_sandbox ∷ []

abbrev pub key_of : Capability → String
key_of fresh_model_context = "fresh_model_context"
key_of independent_model_instance = "independent_model_instance"
key_of physical_context_isolation = "physical_context_isolation"
key_of behavioral_context_isolation = "behavioral_context_isolation"
key_of bounded_context_projection = "bounded_context_projection"
key_of parallel_execution = "parallel_execution"
key_of background_execution = "background_execution"
key_of independent_tool_sandbox = "independent_tool_sandbox"

abbrev pub find_key : String → List Capability → Option Capability
find_key key [] = none
find_key key (c ∷ rest) = if str_eq key (key_of c) then some c else find_key key rest

-- `key in CAPABILITY_KEYS`, with the capability of that name.
unfoldable pub capability_of : String → Option Capability
capability_of key = find_key key capability_keys

-- A dict with all the keys.
abbrev pub Capabilities : Type 0
Capabilities = Capability → Bool

abbrev pub CapabilityReport : Type 0
CapabilityReport = List (String × Bool)

pub data DelegationError : Type 0 where
  unknown_capability unsupported_executor capability_conflict missing_report : DelegationError

abbrev pub logical_capabilities : Capabilities
logical_capabilities behavioral_context_isolation = true
logical_capabilities bounded_context_projection = true
logical_capabilities _ = false

abbrev pub default_native_request : Capabilities
default_native_request parallel_execution = false
default_native_request background_execution = false
default_native_request independent_tool_sandbox = false
default_native_request _ = true

-- `result[key] = bool(value)`
abbrev pub assign : Capability → Bool → Capabilities → Capabilities
assign c value result k = if str_eq (key_of k) (key_of c) then value else result k

-- `_capability_map`
unfoldable pub capability_map :
    CapabilityReport → Capabilities → Result DelegationError Capabilities
unfolding capability_of
capability_map [] result = ok result
capability_map ((key, value) ∷ rest) result = elim (capability_of key) [
  | none ↦ err unknown_capability
  | some c ↦ capability_map rest (assign c value result)
]

unfoldable pub requested_capabilities :
    String → CapabilityReport → Result DelegationError Capabilities
unfolding capability_map
requested_capabilities executor overrides =
    if str_eq executor "native_subagent"
    then capability_map overrides default_native_request
    else if str_eq executor "logical_isolation"
    then capability_map overrides logical_capabilities
    else err unsupported_executor

abbrev pub same_truth : Bool → Bool → Bool
same_truth true b = b
same_truth false b = not b

-- The loop over a report of the logical isolation.
unfoldable pub check_report : CapabilityReport → Result DelegationError Capabilities
unfolding capability_of
check_report [] = ok logical_capabilities
check_report ((key, value) ∷ rest) = elim (capability_of key) [
  | none ↦ err unknown_capability
  | some c ↦
      if same_truth value (logical_capabilities c)
      then check_report rest
      else err capability_conflict
]

abbrev pub report_of : Option CapabilityReport → CapabilityReport
report_of none = []
report_of (some reported) = reported

unfoldable pub native_capabilities : Option CapabilityReport → Result DelegationError Capabilities
unfolding capability_map
native_capabilities none = err missing_report
native_capabilities (some reported) = capability_map reported (λ k. false)

unfoldable pub executor_capabilities :
    String → Option CapabilityReport → Result DelegationError Capabilities
unfolding check_report native_capabilities
executor_capabilities executor reported =
    if str_eq executor "logical_isolation"
    then check_report (report_of reported)
    else if str_eq executor "native_subagent"
    then native_capabilities reported
    else err unsupported_executor

unfoldable pub calculate_missing_capabilities : Capabilities → Capabilities → List Capability
calculate_missing_capabilities requested actual =
    select (λ k. requested k && not (actual k)) capability_keys

-- The first two are DEGRADED_SUBAGENT_ISOLATION, with its two messages.
pub data Code : Type 0 where
  native_unavailable native_incomplete serialized_delegation inline_delegation : Code

pub record Degradation : Type 0 where
  pub code : Code
  pub requested_executor : String
  pub actual_executor : String
  pub missing_capabilities : List Capability

-- `core_isolation_caps`
abbrev pub is_core : Capability → Bool
is_core parallel_execution = false
is_core background_execution = false
is_core _ = true

unfoldable pub native_degraded : String → String → List Capability → Bool
native_degraded requested_executor actual_executor missing =
    str_eq requested_executor "native_subagent"
    && (not (str_eq actual_executor "native_subagent") || any is_core missing)

abbrev pub warned_if : Bool → Degradation → List Degradation
warned_if test w = if test then w ∷ [] else []

-- `_warning`
abbrev pub degradation_of : String → String → Code → List Capability → Degradation
degradation_of requested_executor actual_executor code lost = record {
  code = code;
  requested_executor = requested_executor;
  actual_executor = actual_executor;
  missing_capabilities = lost;
}

abbrev pub native_code : String → Code
native_code actual_executor =
    if str_eq actual_executor "native_subagent" then native_incomplete else native_unavailable

unfoldable pub build_degradation_warnings :
    String → String → Capabilities → Capabilities → List Capability → List Degradation
unfolding native_degraded
build_degradation_warnings requested_executor actual_executor requested actual missing =
    warned_if (native_degraded requested_executor actual_executor missing)
      (degradation_of requested_executor actual_executor (native_code actual_executor) missing)
    ++ (warned_if (requested parallel_execution && not (actual parallel_execution)) (
          degradation_of requested_executor actual_executor serialized_delegation
            (parallel_execution ∷ []))
        ++ warned_if (requested background_execution && not (actual background_execution)) (
            degradation_of requested_executor actual_executor inline_delegation
              (background_execution ∷ [])))

-- What `create_isolation` works out of the executors and the capabilities.
pub record Negotiation : Type 0 where
  pub requested : Capabilities
  pub actual : Capabilities
  pub missing : List Capability
  pub degradations : List Degradation

unfoldable pub negotiate :
    String
    → CapabilityReport
    → String
    → Option CapabilityReport
    → Result DelegationError Negotiation
unfolding requested_capabilities executor_capabilities calculate_missing_capabilities
    build_degradation_warnings
negotiate requested_executor overrides actual_executor reported = do
  requested ← requested_capabilities requested_executor overrides
  actual ← executor_capabilities actual_executor reported
  ok (record {
    requested = requested;
    actual = actual;
    missing = calculate_missing_capabilities requested actual;
    degradations =
        build_degradation_warnings requested_executor actual_executor requested actual
          (calculate_missing_capabilities requested actual);
  })
