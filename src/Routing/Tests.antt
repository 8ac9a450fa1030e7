-- ===== src/Routing/Tests.antt =====
-- A task that asks for the local Chrome (scripts/codex_loop_runtime/interaction_routing.py).
use codex_loop.Base.{◌≡◌, refl, true, false, some, none, [], ◌∷◌, ok}
use codex_loop.Routing.{
  Demand, HostBrowser, Resolution, resolved, explicit_user_target, authorization_needed, answer,
  resolve_interaction_target,
}
use codex_loop.Routing.Permission.{IsPermitted, resolve_interaction_target-IsPermitted}

abbrev demand : Demand
demand = record {
  requires_web_interaction = true;
  explicit_target = some "local_chrome";
  task_requires_local_session = false;
  available_targets = "local_chrome" ∷ "printer" ∷ "cloud_browser" ∷ [];
  local_computer_authorized = true;
}

abbrev host : HostBrowser
host = record { preferred_target = "cloud_browser"; allow_local_chrome_fallback = true }

abbrev chrome : Resolution
chrome =
    answer "local_chrome" resolved explicit_user_target false
      ("cloud_browser" ∷ "local_chrome" ∷ []) none

resolving_runs : resolve_interaction_target demand host ≡ ok chrome
unfolding resolve_interaction_target
resolving_runs = refl

unauthorized_runs :
    resolve_interaction_target (record demand { local_computer_authorized = false }) host
    ≡ ok (
        answer "local_chrome" authorization_needed explicit_user_target true
          ("cloud_browser" ∷ "local_chrome" ∷ [])
          none)
unfolding resolve_interaction_target
unauthorized_runs = refl

resolve_interaction_target-IsPermitted_example : IsPermitted demand host chrome
resolve_interaction_target-IsPermitted_example =
    resolve_interaction_target-IsPermitted demand host refl resolving_runs
