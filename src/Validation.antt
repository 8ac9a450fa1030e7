-- ===== src/Validation.antt =====
-- scripts/codex_loop_runtime/state.py: the table `validations`, the newest row first, and the state of
-- a generation's validation that is read from it. `identity` is the digest that command_identity.py
-- makes of a command and its directory, and `cwd` the resolved directory.
pub mod Latest
use codex_loop.Base.{
  ℕ, String, Bool, true, false, ◌&&◌, ◌||◌, not, ◌==◌, Option, none, some, List, [], ◌∷◌, count,
  select, if◌then◌else◌, ℤ, show_int, int_eq, Result, ok, err, ◌>>=◌, ◌>>◌, reject, is_empty, strip,
  str_eq, text_append,
}
use codex_loop.Store.{Store, StoreError}
use codex_loop.Store.Clean.{scrub_persisted_text}
use codex_loop.Store.Status.{ensure_active}
use codex_loop.Supervision.{
  ExecutionObservation, ObservationError, is_passed, is_failed, is_stalled, is_cleanup_failed,
  is_process_orphaned, is_cleanup_orphaned, is_process_unknown, is_cleanup_unsupported,
  validate_observation, legacy_observation,
}

-- A row of `validations`.
pub record Validation : Type 0 where
  pub generation : ℕ
  pub identity : String
  pub cwd : String
  pub observation : ExecutionObservation
  pub source : String
  pub evidence : String

pub data ValidationError : Type 0 where
  of_store : StoreError → ValidationError
  of_observation : ObservationError → ValidationError
  blank_evidence missing_exit_code exit_code_disagrees : ValidationError

abbrev pub map_error {ℓ} : {E F : Type 0} {A : Type ℓ} → (E → F) → Result E A → Result F A
map_error f (ok a) = ok a
map_error f (err e) = err (f e)

abbrev pub scrubbed : (String → String) → ℕ → Option String → Option String
scrubbed redact limit none = none
scrubbed redact limit (some value) = some (scrub_persisted_text redact limit value)

-- The columns of an observation, whose texts are scrubbed.
unfoldable pub stored_observation : (String → String) → ExecutionObservation → ExecutionObservation
unfolding scrub_persisted_text
stored_observation redact o = record o {
  workload_evidence = scrubbed redact 4096 o.workload_evidence;
  workload_adapter = scrubbed redact 256 o.workload_adapter;
  process_evidence = scrubbed redact 4096 o.process_evidence;
  cleanup_evidence = scrubbed redact 4096 o.cleanup_evidence;
}

-- `_insert_validation_observation`
unfoldable pub insert_observation :
    (String → String)
    → ℕ
    → String
    → String
    → String
    → String
    → ExecutionObservation
    → List Validation
    → Result ValidationError (List Validation)
unfolding validate_observation stored_observation
insert_observation redact generation identity cwd source evidence observation rows = do
  checked ← map_error of_observation (validate_observation observation)
  ok (
      record {
        generation = generation;
        identity = identity;
        cwd = cwd;
        observation = stored_observation redact checked;
        source = source;
        evidence = evidence;
      }
      ∷ rows)

unfoldable pub record_validation :
    (String → String)
    → ℕ
    → String
    → String
    → ℤ
    → String
    → String
    → List Validation
    → Result ValidationError (List Validation)
unfolding scrub_persisted_text show_int legacy_observation insert_observation
record_validation redact generation identity cwd exit_code source evidence rows = do
  let clean = scrub_persisted_text redact 4096 evidence
  let chosen =
      if is_empty clean
      then text_append "local runtime observed exit code " (show_int exit_code)
      else clean
  observation ← map_error of_observation (legacy_observation exit_code chosen)
  insert_observation redact generation identity cwd source chosen observation rows

-- `exit_code is not None and observation.exit_code != int(exit_code)`
abbrev pub disagrees : Option ℤ → Option ℤ → Bool
disagrees (some given) (some observed) = not (int_eq observed given)
disagrees (some given) none = true
disagrees none _ = false

-- The observation of a host: a rich one, or one inferred from the exit code.
unfoldable pub choose_observation :
    String → Option ℤ → Option ExecutionObservation → Result ValidationError ExecutionObservation
unfolding legacy_observation validate_observation
choose_observation clean none none = err missing_exit_code
choose_observation clean (some code) none = map_error of_observation (legacy_observation code clean)
choose_observation clean exit_code (some given) = do
  checked ← map_error of_observation (validate_observation given)
  reject (disagrees exit_code checked.exit_code) exit_code_disagrees
  ok checked

unfoldable pub record_observed_validation :
    (String → String)
    → String
    → String
    → Option ℤ
    → String
    → Option ExecutionObservation
    → Store
    → List Validation
    → Result ValidationError (List Validation)
unfolding ensure_active scrub_persisted_text strip choose_observation insert_observation
record_observed_validation redact identity cwd exit_code evidence observation s rows = do
  map_error of_store (ensure_active s)
  let clean = scrub_persisted_text redact 4096 evidence
  reject (is_empty (strip clean)) blank_evidence
  chosen ← choose_observation clean exit_code observation
  insert_observation redact s.generation identity cwd "host_observed" clean chosen rows

-- The dictionary `latest`: a key keeps its place when its value is replaced.
unfoldable pub set_latest : Validation → List Validation → List Validation
set_latest row [] = row ∷ []
set_latest row (x ∷ xs) =
    let rest = set_latest row xs in if str_eq x.identity row.identity then row ∷ xs else x ∷ rest

-- The loop over the rows of a generation, oldest first.
unfoldable pub latest : ℕ → List Validation → List Validation
unfolding set_latest
latest generation [] = []
latest generation (row ∷ rest) =
    let older = latest generation rest in
    if row.generation == generation then set_latest row older else older

unfoldable pub is_eligible : Validation → Bool
unfolding strip
is_eligible row = not (is_empty (strip row.cwd))

pub record ValidationState : Type 0 where
  pub commands : List Validation
  pub passed_count : ℕ
  pub failed_count : ℕ
  pub uncertain_count : ℕ
  pub teardown_stalled_count : ℕ
  pub cleanup_failed_count : ℕ
  pub orphaned_count : ℕ
  pub supervision_partial_count : ℕ
  pub legacy_identity_count : ℕ

unfoldable pub validation_state_for_generation : ℕ → List Validation → ValidationState
unfolding latest is_eligible
validation_state_for_generation generation rows =
    let current = latest generation rows in
    let blocking = select is_eligible current in
    record {
      commands = current;
      passed_count = count (λ x. is_passed x.observation.workload_status) blocking;
      failed_count = count (λ x. is_failed x.observation.workload_status) blocking;
      uncertain_count =
          count
            (λ x.
              not (
                is_passed x.observation.workload_status || is_failed x.observation.workload_status))
            blocking;
      teardown_stalled_count = count (λ x. is_stalled x.observation.process_status) blocking;
      cleanup_failed_count = count (λ x. is_cleanup_failed x.observation.cleanup_status) blocking;
      orphaned_count =
          count
            (λ x.
              is_process_orphaned x.observation.process_status
              || is_cleanup_orphaned x.observation.cleanup_status)
            blocking;
      supervision_partial_count =
          count
            (λ x.
              is_process_unknown x.observation.process_status
              || is_cleanup_unsupported x.observation.cleanup_status)
            blocking;
      legacy_identity_count = count (λ x. not (is_eligible x)) current;
    }
