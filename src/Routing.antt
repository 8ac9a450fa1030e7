-- ===== src/Routing.antt =====
-- scripts/codex_loop_runtime/interaction_routing.py: where a task interacts with the web. The host
-- profile, which host_config.py reads, is the argument `HostBrowser`.
pub mod Permission
mod Tests
use codex_loop.Base.{
  String, Bool, true, false, ◌&&◌, ◌||◌, not, Option, none, some, List, [], ◌∷◌, select,
  if◌then◌else◌, is_empty, str_eq, member, Result, ok, err, ◌>>=◌, ◌>>◌, reject,
}

-- The arguments of `resolve_interaction_target`.
pub record Demand : Type 0 where
  pub requires_web_interaction : Bool
  pub explicit_target : Option String
  pub task_requires_local_session : Bool
  pub available_targets : List String
  pub local_computer_authorized : Bool

-- `profile["browser"]`
pub record HostBrowser : Type 0 where
  pub preferred_target : String
  pub allow_local_chrome_fallback : Bool

pub data Status : Type 0 where
  resolved capability_missing authorization_needed : Status

pub data Source : Type 0 where
  task_requirement explicit_user_target task_hard_requirement : Source
  host_profile_preference built_in_default : Source

-- `local_chrome_option_available` is in the answer only where the cloud browser is missing.
pub record Resolution : Type 0 where
  pub target : String
  pub status : Status
  pub source : Source
  pub authorization_required : Bool
  pub available : List String
  pub local_chrome_option : Option Bool

pub data RoutingError : Type 0 where
  unknown_target : RoutingError

-- `VALID_TARGETS`, sorted.
abbrev pub valid_targets : List String
valid_targets = "cloud_browser" ∷ "local_chrome" ∷ "local_mac_gui" ∷ "none" ∷ []

-- `sorted(available)`
unfoldable pub available_of : List String → List String
available_of given = select (λ t. member t given) valid_targets

-- `target` and `source`
unfoldable pub choose_target : Demand → HostBrowser → String × Source
choose_target d h = elim d.explicit_target [
  | some target ↦ (target, explicit_user_target)
  | none ↦
      if d.task_requires_local_session
      then ("local_chrome", task_hard_requirement)
      else if is_empty h.preferred_target
      then ("cloud_browser", built_in_default)
      else (h.preferred_target, host_profile_preference)
]

abbrev pub answer : String → Status → Source → Bool → List String → Option Bool → Resolution
answer target status source authorization_required available option = record {
  target = target;
  status = status;
  source = source;
  authorization_required = authorization_required;
  available = available;
  local_chrome_option = option;
}

unfoldable pub resolve_local : Bool → Source → List String → Resolution
resolve_local authorized source available =
    if not (member "local_chrome" available)
    then answer "local_chrome" capability_missing source true available none
    else if not authorized
    then answer "local_chrome" authorization_needed source true available none
    else answer "local_chrome" resolved source false available none

unfoldable pub resolve_cloud : Demand → HostBrowser → Source → List String → Resolution
resolve_cloud d h source available =
    if member "cloud_browser" available
    then answer "cloud_browser" resolved source false available none
    else answer "cloud_browser" capability_missing source false available (
        some (
          d.task_requires_local_session
          && h.allow_local_chrome_fallback
          && member "local_chrome" available))

unfoldable pub resolve_interaction_target : Demand → HostBrowser → Result RoutingError Resolution
unfolding available_of choose_target resolve_local resolve_cloud
resolve_interaction_target d h =
    let available = available_of d.available_targets in
    let (target, source) = choose_target d h in
    if not d.requires_web_interaction
    then ok (answer "none" resolved task_requirement false available none)
    else (reject (not (str_eq target "cloud_browser" || str_eq target "local_chrome"))
          unknown_target
        >> ok (
            if str_eq target "local_chrome"
            then resolve_local d.local_computer_authorized source available
            else resolve_cloud d h source available))
