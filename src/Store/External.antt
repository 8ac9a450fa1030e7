-- ===== src/Store/External.antt =====
-- scripts/codex_loop_runtime/state.py: the ledger of external actions. The proofs are in the modules
-- below.
pub mod Transact
pub mod Rows
pub mod Guards
pub mod Ledger
pub mod Ambiguous
pub mod Machine
pub mod Failures
use Prim.Native.String.{len}
use codex_loop.Base.{
  ℕ, ◌+◌, String, Bool, true, false, ◌&&◌, not, Option, none, some, List, [], ◌∷◌, count, select,
  any, ltb, if◌then◌else◌, is_some, Result, ok, err, ◌>>=◌, ◌>>◌, reject, is_empty, strip, str_eq,
}
use codex_loop.Store.{
  Store, StoreError, TaskStatus, Action, ActionState, planned, dispatched, terminal_success,
  terminal_failure, outcome_unknown, cancelled_before_dispatch, ActionClass, recheckable,
  external_non_idempotent, invalid_action_state, invalid_action_class, blank_kind,
  identity_required, details_required, details_too_large, identity_ambiguous, identity_taken,
  identity_exists, create_while_inactive, advance_while_inactive, dispatch_while_inactive,
  undispatched_outcome, kind_immutable, identity_changed, invalid_action_transition, unknown_action,
  not_a_failure, blank_evidence,
}
use codex_loop.Store.Clean.{
  validate_task_id, clean_text, clean_optional, or_none, scrub_persisted_text,
}

unfoldable pub parse_state : String → Result StoreError ActionState
parse_state s =
    if str_eq s "planned"
    then ok planned
    else if str_eq s "dispatched"
    then ok dispatched
    else if str_eq s "terminal_success"
    then ok terminal_success
    else if str_eq s "terminal_failure"
    then ok terminal_failure
    else if str_eq s "outcome_unknown"
    then ok outcome_unknown
    else if str_eq s "cancelled_before_dispatch"
    then ok cancelled_before_dispatch
    else err invalid_action_state

unfoldable pub parse_class : String → Result StoreError ActionClass
parse_class s =
    if str_eq s "read_only"
    then ok ActionClass.read_only
    else if str_eq s "recheckable"
    then ok recheckable
    else if str_eq s "external_non_idempotent"
    then ok external_non_idempotent
    else err invalid_action_class

-- The table `allowed` of `record_external`.
unfoldable pub allowed : ActionState → ActionState → Bool
allowed planned planned = true
allowed planned dispatched = true
allowed planned cancelled_before_dispatch = true
allowed dispatched dispatched = true
allowed dispatched terminal_success = true
allowed dispatched terminal_failure = true
allowed dispatched outcome_unknown = true
allowed outcome_unknown outcome_unknown = true
allowed outcome_unknown terminal_success = true
allowed outcome_unknown terminal_failure = true
allowed terminal_success terminal_success = true
allowed terminal_failure terminal_failure = true
allowed cancelled_before_dispatch cancelled_before_dispatch = true
allowed _ _ = false

abbrev pub is_non_idempotent : ActionClass → Bool
is_non_idempotent external_non_idempotent = true
is_non_idempotent _ = false

abbrev pub class_eq : ActionClass → ActionClass → Bool
class_eq ActionClass.read_only ActionClass.read_only = true
class_eq recheckable recheckable = true
class_eq external_non_idempotent external_non_idempotent = true
class_eq _ _ = false

-- The states in which the details may not be missing.
abbrev pub is_observed : ActionState → Bool
is_observed terminal_success = true
is_observed terminal_failure = true
is_observed outcome_unknown = true
is_observed _ = false

abbrev pub is_planned_or_dispatched : ActionState → Bool
is_planned_or_dispatched planned = true
is_planned_or_dispatched dispatched = true
is_planned_or_dispatched _ = false

-- The states whose outcome may still be reconciled when the task is not active.
abbrev pub is_reconcilable : ActionState → Bool
is_reconcilable dispatched = true
is_reconcilable outcome_unknown = true
is_reconcilable terminal_success = true
is_reconcilable terminal_failure = true
is_reconcilable _ = false

abbrev pub is_active : TaskStatus → Bool
is_active TaskStatus.active = true
is_active _ = false

-- `SELECT … WHERE action_id=?`
unfoldable pub find_action : String → List Action → Option Action
find_action k [] = none
find_action k (a ∷ rest) = if str_eq a.action_id k then some a else find_action k rest

-- `WHERE kind=? AND identity=? AND action_class='external_non_idempotent'`
abbrev pub has_identity : String → Option String → Bool
has_identity i none = false
has_identity i (some j) = str_eq j i

unfoldable pub owns : String → String → Action → Bool
owns kind identity a =
    str_eq a.kind kind && has_identity identity a.identity && is_non_idempotent a.action_class

-- The arguments of `record_external` after they were checked and cleaned.
pub record Request : Type 0 where
  pub action_id : String
  pub provided : Bool
  pub kind : String
  pub identity : Option String
  pub action_class : ActionClass
  pub state : ActionState
  pub details : Option String

-- The check of `details_json`, the text of the details.
unfoldable pub check_details : Option String → Result StoreError (Unit {0})
check_details none = ok tt
check_details (some text) = reject (ltb 16384 (len text)) details_too_large

-- `validate_task_id(action_id) if provided_action_id else uuid.uuid4().hex`
unfoldable pub choose_id : String → Option String → Result StoreError String
unfolding validate_task_id
choose_id fresh none = ok fresh
choose_id fresh (some given) = validate_task_id given

-- The checks of the cleaned arguments, and the request that they make.
unfoldable pub build_request :
    ActionState
    → ActionClass
    → String
    → Bool
    → String
    → String
    → Option String
    → Result StoreError Request
unfolding or_none check_details
build_request state class chosen provided clean_kind clean_identity details = do
  reject (is_empty clean_kind) blank_kind
  reject (is_non_idempotent class && is_empty clean_identity) identity_required
  reject (is_observed state && not (is_some details)) details_required
  check_details details
  ok (record {
    action_id = chosen;
    provided = provided;
    kind = clean_kind;
    identity = or_none clean_identity;
    action_class = class;
    state = state;
    details = details;
  })

-- The first half of `record_external`, which reads no table. `details` is the text to which
-- `scrub` and `json.dumps` bring the details; `fresh` is the value of `uuid.uuid4().hex`.
unfoldable pub check_request :
    (String → String)
    → String
    → String
    → String
    → Option String
    → Option String
    → String
    → Option String
    → Result StoreError Request
unfolding parse_state parse_class choose_id clean_text clean_optional build_request
check_request redact fresh kind state identity details action_class action_id = do
  s ← parse_state state
  c ← parse_class action_class
  chosen ← choose_id fresh action_id
  build_request s c chosen (is_some action_id) (clean_text redact 256 kind)
      (clean_optional redact 2048 identity) details
