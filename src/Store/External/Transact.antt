-- ===== src/Store/External/Transact.antt =====
-- scripts/codex_loop_runtime/state.py: the transaction of `record_external` and the queries of the
-- ledger of external actions.
use codex_loop.Base.{
  ℕ, ◌+◌, String, Bool, true, false, ◌&&◌, not, Option, none, some, List, [], ◌∷◌, count, select,
  any, ltb, if◌then◌else◌, Result, ok, err, ◌>>=◌, ◌>>◌, reject, is_empty, strip, str_eq,
}
use codex_loop.Store.{
  Store, StoreError, TaskStatus, Action, planned, dispatched, terminal_failure, outcome_unknown,
  identity_ambiguous, identity_taken, identity_exists, create_while_inactive,
  advance_while_inactive, dispatch_while_inactive, undispatched_outcome, kind_immutable,
  identity_changed, invalid_action_transition, unknown_action, not_a_failure, blank_evidence,
}
use codex_loop.Store.Clean.{scrub_persisted_text}
use codex_loop.Store.External.{
  allowed, is_non_idempotent, class_eq, is_planned_or_dispatched, is_reconcilable, find_action,
  owns, Request, check_request,
}

-- What the rows of the same identity say: an error, the id of the action to return at once, or
-- nothing.
unfoldable pub settle_owner : Request → List Action → Result StoreError (Option String)
settle_owner q [] = ok none
settle_owner q (same ∷ []) =
    if str_eq same.action_id q.action_id
    then ok none
    else if q.provided
    then err identity_taken
    else (elim q.state [ planned ↦ ok (some same.action_id) | _ ↦ err identity_exists ])
settle_owner q (_ ∷ _ ∷ _) = err identity_ambiguous

unfoldable pub check_owner :
    Request → Option String → List Action → Result StoreError (Option String)
unfolding settle_owner owns
check_owner q none actions = ok none
check_owner q (some identity) actions =
    if is_non_idempotent q.action_class
    then settle_owner q (select (owns q.kind identity) actions)
    else ok none

-- The guards of a task that is not active.
unfoldable pub check_status : TaskStatus → Request → Option Action → Result StoreError (Unit {0})
check_status TaskStatus.active q existing = ok tt
check_status _ q none = err create_while_inactive
check_status _ q (some existing) =
    if is_reconcilable existing.state
    then reject (is_planned_or_dispatched q.state) dispatch_while_inactive
    else err advance_while_inactive

-- `existing is not None and clean is not None and existing != clean`
abbrev pub differ : Option String → Option String → Bool
differ (some i) (some j) = not (str_eq i j)
differ _ _ = false

-- `COALESCE(?,identity)`
abbrev pub coalesce : Option String → Option String → Option String
coalesce (some i) _ = some i
coalesce none j = j

abbrev pub advance : Request → Action → Action
advance q a = record a {
  state = q.state;
  details = q.details;
  identity = coalesce q.identity a.identity;
}

-- `UPDATE external_actions SET … WHERE action_id=?`
unfoldable pub update_action : String → (Action → Action) → List Action → List Action
update_action k f [] = []
update_action k f (a ∷ rest) = (if str_eq a.action_id k then f a else a) ∷ update_action k f rest

abbrev pub new_action : Request → Action
new_action q = record {
  action_id = q.action_id;
  kind = q.kind;
  identity = q.identity;
  action_class = q.action_class;
  state = q.state;
  details = q.details;
  failure_resolved = false;
  resolution = none;
}

unfoldable pub write_action :
    Request → Option Action → List Action → Result StoreError (List Action)
unfolding allowed update_action
write_action q none actions = do
  reject (is_non_idempotent q.action_class && not (is_planned_or_dispatched q.state))
      undispatched_outcome
  ok (new_action q ∷ actions)
write_action q (some existing) actions = do
  reject (not (str_eq existing.kind q.kind && class_eq existing.action_class q.action_class))
      kind_immutable
  reject (differ existing.identity q.identity) identity_changed
  reject (not (allowed existing.state q.state)) invalid_action_transition
  ok (update_action q.action_id (advance q) actions)

-- The transaction: the new table, and the id that is returned.
unfoldable pub transact :
    TaskStatus → Request → Option String → List Action → Result StoreError (List Action × String)
unfolding find_action check_status write_action
transact status q (some owner) actions = ok (actions, owner)
transact status q none actions = do
  let existing = find_action q.action_id actions
  check_status status q existing
  rows ← write_action q existing actions
  ok (rows, q.action_id)

unfoldable pub record_request : Request → Store → Result StoreError (Store × String)
unfolding check_owner transact
record_request q s = do
  owner ← check_owner q q.identity s.external_actions
  (rows, chosen) ← transact s.task_status q owner s.external_actions
  ok (record s { external_actions = rows }, chosen)

unfoldable pub record_external :
    (String → String)
    → String
    → String
    → String
    → Option String
    → Option String
    → String
    → Option String
    → Store
    → Result StoreError (Store × String)
unfolding check_request record_request
record_external redact fresh kind state identity details action_class action_id s = do
  q ← check_request redact fresh kind state identity details action_class action_id
  record_request q s

unfoldable pub external_action : String → Store → Result StoreError Action
unfolding find_action
external_action k s = elim (find_action k s.external_actions) [
  | none ↦ err unknown_action
  | some a ↦ ok a
]

abbrev pub is_unresolved : Action → Bool
is_unresolved a = elim a.state [
  | planned ↦ true
  | dispatched ↦ true
  | outcome_unknown ↦ true
  | _ ↦ false
]

abbrev pub is_unresolved_failure : Action → Bool
is_unresolved_failure a = elim a.state [ terminal_failure ↦ not a.failure_resolved | _ ↦ false ]

unfoldable pub unresolved_external_count : Store → ℕ
unresolved_external_count s = count is_unresolved s.external_actions

unfoldable pub unresolved_external_failure_count : Store → ℕ
unresolved_external_failure_count s = count is_unresolved_failure s.external_actions

abbrev pub same_owner : Action → Action → Bool
same_owner a b = elim a.identity [
  | none ↦ false
  | some i ↦ is_non_idempotent a.action_class && owns a.kind i b
]

-- `GROUP BY kind,identity HAVING COUNT(*)>1`: a group is counted at its last row.
unfoldable pub repeated_groups : List Action → List Action → ℕ
unfolding owns
repeated_groups actions [] = 0
repeated_groups actions (a ∷ rest) =
    (if ltb 1 (count (same_owner a) actions) && not (any (same_owner a) rest) then 1 else 0)
    + repeated_groups actions rest

unfoldable pub ambiguous_non_idempotent_identity_count : Store → ℕ
unfolding repeated_groups
ambiguous_non_idempotent_identity_count s = repeated_groups s.external_actions s.external_actions

unfoldable pub resolve_failure : String → Option Action → Result StoreError (Action → Action)
resolve_failure evidence none = err unknown_action
resolve_failure evidence (some a) = elim a.state [
  | terminal_failure ↦ ok (λ b. record b { failure_resolved = true; resolution = some evidence })
  | _ ↦ err not_a_failure
]

unfoldable pub resolve_external_failure :
    (String → String) → String → String → Store → Result StoreError Store
unfolding scrub_persisted_text strip resolve_failure find_action update_action
resolve_external_failure redact action_id evidence s = do
  let clean = scrub_persisted_text redact 4096 evidence
  reject (is_empty (strip clean)) blank_evidence
  f ← resolve_failure clean (find_action action_id s.external_actions)
  ok (record s { external_actions = update_action action_id f s.external_actions })
