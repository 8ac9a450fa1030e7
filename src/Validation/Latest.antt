-- ===== src/Validation/Latest.antt =====
-- The latest validation of each command (scripts/codex_loop_runtime/state.py).
use codex_loop.Base.{
  ℕ, String, ◌≡◌, Option, none, some, List, [], ◌∷◌, if◌then◌else◌, str_eq, ℤ, is_zero,
}
use codex_loop.Store.{Store}
use codex_loop.Supervision.{ExecutionObservation, inferred, workload_passed}
use codex_loop.Validation.{Validation}

pub find_validation : String → List Validation → Option Validation
find_validation k [] = none
find_validation k (x ∷ xs) = if str_eq x.identity k then some x else find_validation k xs

-- The row of an observation that a host made.
abbrev pub host_row : ℕ → String → String → String → ExecutionObservation → Validation
host_row generation identity cwd evidence o = record {
  generation = generation;
  identity = identity;
  cwd = cwd;
  observation = o;
  source = "host_observed";
  evidence = evidence;
}

-- The observation that is recorded: the given one, with the exit code if one is given too, or else one
-- that is inferred from the exit code, and that has passed exactly when the code is 0.
abbrev pub IsObserved :
    String → Option ℤ → Option ExecutionObservation → ExecutionObservation → Type 0
IsObserved clean exit_code none o =
    (code : ℤ) × (exit_code ≡ some code)
    × (o ≡ inferred code clean)
    × (o.exit_code ≡ some code)
    × (workload_passed o ≡ is_zero code)
IsObserved clean exit_code (some given) o =
    (o ≡ given) × ((code : ℤ) → exit_code ≡ some code → o.exit_code ≡ some code)
