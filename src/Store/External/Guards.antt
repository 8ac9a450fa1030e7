-- ===== src/Store/External/Guards.antt =====
-- What the guards of `record_external` let through (scripts/codex_loop_runtime/state.py).
use codex_loop.Base.{
  String, ◌≡◌, refl, ap, subst, true, false, ◌&&◌, not, not-false, Option, none, some, List, ◌∷◌,
  str_eq, ok, >>=-eq-ok, reject-eq-ok, ok_injective,
}
use codex_loop.Store.{
  Store, TaskStatus, Action, kind_immutable, identity_changed, invalid_action_transition,
}
use codex_loop.Store.External.{
  find_action, is_non_idempotent, is_planned_or_dispatched, Request, allowed, class_eq,
}
use codex_loop.Store.External.Transact.{
  update_action, check_owner, check_status, write_action, transact, record_request, advance,
  new_action, differ,
}

-- A row that is written anew.
pub write_action_new :
    (q : Request) (rows : List Action) {after : List Action}
    → write_action q none rows ≡ ok after
    → (is_non_idempotent q.action_class && not (is_planned_or_dispatched q.state) ≡ false)
      × (new_action q ∷ rows ≡ after)
unfolding write_action
write_action_new q rows h = let first = reject-eq-ok _ _ _ h in (first.0, ok_injective first.1)

-- A row that is advanced.
pub write_action-advance :
    (q : Request) (a : Action) (rows : List Action) {after : List Action}
    → write_action q (some a) rows ≡ ok after
    → (str_eq a.kind q.kind && class_eq a.action_class q.action_class ≡ true)
      × (differ a.identity q.identity ≡ false)
      × (allowed a.state q.state ≡ true)
      × (update_action q.action_id (advance q) rows ≡ after)
unfolding write_action
write_action-advance q a rows h =
    let first =
      reject-eq-ok (not (str_eq a.kind q.kind && class_eq a.action_class q.action_class))
        kind_immutable _ h in
    let second = reject-eq-ok (differ a.identity q.identity) identity_changed _ first.1 in
    let third = reject-eq-ok (not (allowed a.state q.state)) invalid_action_transition _ second.1 in
    (not-false _ first.0, second.0, not-false _ third.0, ok_injective third.1)

-- A transaction that no earlier owner of the identity ends.
pub transact_write :
    (status : TaskStatus) (q : Request) (rows : List Action) {after : List Action × String}
    → transact status q none rows ≡ ok after
    → (check_status status q (find_action q.action_id rows) ≡ ok tt)
      × (write_action q (find_action q.action_id rows) rows ≡ ok after.0)
      × (q.action_id ≡ after.1)
unfolding transact
transact_write status q rows {after} h =
    let (unit, checked, rest) =
      >>=-eq-ok (check_status status q (find_action q.action_id rows)) _ h in
    let (written, wrote, done) =
      >>=-eq-ok (write_action q (find_action q.action_id rows) rows) _ rest in
    (
      checked,
      subst
          (λ (u : List Action × String).
            write_action q (find_action q.action_id rows) rows ≡ ok u.0)
          (ok_injective done) wrote,
      ap (λ (u : List Action × String). u.1) (ok_injective done),
    )

pub record_request_parts :
    (q : Request) (s : Store) {t : Store × String}
    → record_request q s ≡ ok t
    → (owner : Option String) × (check_owner q q.identity s.external_actions ≡ ok owner)
      × (transact s.task_status q owner s.external_actions ≡ ok (t.0.external_actions, t.1))
      × (t.0 ≡ record s { external_actions = t.0.external_actions })
unfolding record_request
record_request_parts q s {t} h =
    let (owner, owned, rest) = >>=-eq-ok (check_owner q q.identity s.external_actions) _ h in
    let (after, written, done) =
      >>=-eq-ok (transact s.task_status q owner s.external_actions) _ rest in
    (
      owner,
      owned,
      subst
          (λ (u : Store × String).
            transact s.task_status q owner s.external_actions ≡ ok (u.0.external_actions, u.1))
          (ok_injective done) written,
      subst (λ (u : Store × String). u.0 ≡ record s { external_actions = u.0.external_actions })
          (ok_injective done) refl,
    )
