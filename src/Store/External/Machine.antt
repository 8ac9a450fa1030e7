-- ===== src/Store/External/Machine.antt =====
-- How `record_external` moves the rows of the ledger (scripts/codex_loop_runtime/state.py).
use codex_loop.Base.{
  ◌≤◌, String, ◌≡◌, ◌≢◌, refl, sym, ap, subst, ◌∙◌, inl, inr, true, false, Option, none, some, List,
  ◌∷◌, length, count, Bool-cases, str_eq, eq_iff, arith, ok, >>=-eq-ok, ok_injective,
  some_injective,
}
use codex_loop.Store.{Store, TaskStatus, Action, ActionState}
use codex_loop.Store.External.{
  find_action, Request, check_request, allowed, is_reconcilable, is_planned_or_dispatched,
}
use codex_loop.Store.External.Transact.{
  update_action, is_unresolved, check_status, write_action, transact, record_request,
  record_external, advance, new_action, unresolved_external_count,
}
use codex_loop.Store.External.Rows.{UniqueIds, length-update, find-update, count-update_le}
use codex_loop.Store.External.Guards.{
  write_action_new, write_action-advance, transact_write, record_request_parts,
}

-- Row `b` is row `a`, moved at most along the table of transitions.
pub record Follows (a b : Action) : Type 0 where
  pub permitted : allowed a.state b.state ≡ true
  pub same_id : b.action_id ≡ a.action_id
  pub same_kind : b.kind ≡ a.kind
  pub same_class : b.action_class ≡ a.action_class
  pub same_resolution : b.failure_resolved ≡ a.failure_resolved

pub allowed_refl : (s : ActionState) → allowed s s ≡ true
unfolding allowed
allowed_refl ActionState.planned = refl
allowed_refl ActionState.dispatched = refl
allowed_refl ActionState.terminal_success = refl
allowed_refl ActionState.terminal_failure = refl
allowed_refl ActionState.outcome_unknown = refl
allowed_refl ActionState.cancelled_before_dispatch = refl

pub Follows-refl : (a : Action) → Follows a a
Follows-refl a = record {
  permitted = allowed_refl a.state;
  same_id = refl;
  same_kind = refl;
  same_class = refl;
  same_resolution = refl;
}

-- Every row of `before` is still in `after`, moved along the table.
abbrev pub Extends : List Action → List Action → Type 0
Extends before after =
    (k : String) (a : Action)
    → find_action k before ≡ some a
    → (b : Action) × (find_action k after ≡ some b) × Follows a b

insert-Extends :
    (q : Request) (rows : List Action)
    → find_action q.action_id rows ≡ none
    → Extends rows (new_action q ∷ rows)
unfolding find_action
insert-Extends q rows fresh k a found = (a, ground (arith, eq_iff q.action_id k), Follows-refl a)

advance-Extends :
    (q : Request) (existing : Action) (rows : List Action)
    → find_action q.action_id rows ≡ some existing
    → allowed existing.state q.state ≡ true
    → Extends rows (update_action q.action_id (advance q) rows)
advance-Extends q existing rows here step k a found = elim (Bool-cases (str_eq k q.action_id)) [
  | inl hit ↦
      let own : existing ≡ a =
        some_injective
          (sym here ∙ ap (λ j. find_action j rows) (sym ((eq_iff k q.action_id).0 hit)) ∙ found) in
      (
        advance q a,
        find-update k q.action_id (advance q) rows (λ b. refl) ∙ rw (found, hit),
        record {
          permitted = rw own at step;
          same_id = refl;
          same_kind = refl;
          same_class = refl;
          same_resolution = refl;
        },
      )
  | inr miss ↦
      (a, find-update k q.action_id (advance q) rows (λ b. refl) ∙ rw (found, miss), Follows-refl a)
]

write_action-Extends :
    (q : Request) (existing : Option Action) (rows : List Action) {after : List Action}
    → find_action q.action_id rows ≡ existing
    → write_action q existing rows ≡ ok after
    → Extends rows after
write_action-Extends q none rows found h =
    subst (Extends rows) (write_action_new q rows h).1 (insert-Extends q rows found)
write_action-Extends q (some a) rows found h =
    let (_, _, step, e) = write_action-advance q a rows h in
    subst (Extends rows) e (advance-Extends q a rows found step)

transact-Extends :
    (status : TaskStatus) (q : Request) (owner : Option String) (rows : List Action)
    {after : List Action × String}
    → transact status q owner rows ≡ ok after
    → Extends rows after.0
unfolding transact
transact-Extends status q (some owner) rows h =
    subst (λ (u : List Action × String). Extends rows u.0) (ok_injective h)
      (λ k a found. (a, found, Follows-refl a))
transact-Extends status q none rows h =
    write_action-Extends q (find_action q.action_id rows) rows refl
      (transact_write status q rows h).1

pub record_request-Extends :
    (q : Request) (s : Store) {t : Store × String}
    → record_request q s ≡ ok t
    → Extends s.external_actions t.0.external_actions
record_request-Extends q s h =
    let (owner, _, written, _) = record_request_parts q s h in
    transact-Extends s.task_status q owner s.external_actions written

-- Every row of the ledger outlives every recording that succeeds, under its id, kind and class; its
-- state moves along the table of transitions at most, and a resolved failure stays resolved.
pub record_external-Extends :
    (redact : String → String) (fresh kind state : String) (identity details : Option String)
    (action_class : String) (action_id : Option String) (s : Store) {t : Store × String}
    → record_external redact fresh kind state identity details action_class action_id s ≡ ok t
    → Extends s.external_actions t.0.external_actions
unfolding record_external
record_external-Extends redact fresh kind state identity details action_class action_id s h =
    let (q, _, rest) =
      >>=-eq-ok (check_request redact fresh kind state identity details action_class action_id) _
        h in
    record_request-Extends q s rest

-- What `check_status` lets through while the task is not active.
inactive_guard :
    (status : TaskStatus) (q : Request) (existing : Option Action)
    → status ≢ TaskStatus.active
    → check_status status q existing ≡ ok tt
    → (a : Action) × (existing ≡ some a)
      × (is_reconcilable a.state ≡ true)
      × (is_planned_or_dispatched q.state ≡ false)
unfolding check_status
inactive_guard TaskStatus.active q existing n h = absurd (n refl)
inactive_guard _ q none n h = cc
inactive_guard _ q (some a) n h = (a, refl, ground arith, ground arith)

-- A reconciled action was unresolved if it still is.
advance-unresolved :
    (q : Request) (a : Action)
    → is_planned_or_dispatched q.state ≡ false
    → allowed a.state q.state ≡ true
    → is_unresolved (advance q a) ≡ true
    → is_unresolved a ≡ true
unfolding allowed
advance-unresolved q a late step h = ground arith

inactive-write :
    (q : Request) (a : Action) (rows : List Action) {after : List Action}
    → UniqueIds rows
    → find_action q.action_id rows ≡ some a
    → is_planned_or_dispatched q.state ≡ false
    → write_action q (some a) rows ≡ ok after
    → (length after ≡ length rows) × (count is_unresolved after ≤ count is_unresolved rows)
inactive-write q a rows u found late h =
    let (_, _, step, e) = write_action-advance q a rows h in
    subst
      (λ (x : List Action).
        (length x ≡ length rows) × (count is_unresolved x ≤ count is_unresolved rows))
      e
      (
        length-update q.action_id (advance q) rows,
        count-update_le is_unresolved q.action_id (advance q) rows u (λ b f.
            let own : a ≡ b = some_injective (sym found ∙ f) in
            subst (λ (c : Action). is_unresolved (advance q c) ≡ true → is_unresolved c ≡ true) own
              (advance-unresolved q a late step)),
      )

inactive-transact :
    (status : TaskStatus) (q : Request) (owner : Option String) (rows : List Action)
    {after : List Action × String}
    → UniqueIds rows
    → status ≢ TaskStatus.active
    → transact status q owner rows ≡ ok after
    → (length after.0 ≡ length rows) × (count is_unresolved after.0 ≤ count is_unresolved rows)
unfolding transact
inactive-transact status q (some owner) rows u n h =
    subst
      (λ (x : List Action × String).
        (length x.0 ≡ length rows) × (count is_unresolved x.0 ≤ count is_unresolved rows))
      (ok_injective h) (refl, omega arith)
inactive-transact status q none rows u n h =
    let (checked, written, _) = transact_write status q rows h in
    let (a, found, _, late) = inactive_guard status q (find_action q.action_id rows) n checked in
    inactive-write q a rows u found late (rw found at written)

-- Where the ids of the actions are unique, as the primary key of their table has it, and while the
-- task is not active, a recording that succeeds adds no action and leaves no more
-- unresolved actions than there were: outcomes may be reconciled, nothing may be started.
pub record_external_inactive :
    (redact : String → String) (fresh kind state : String) (identity details : Option String)
    (action_class : String) (action_id : Option String) (s : Store) {t : Store × String}
    → UniqueIds s.external_actions
    → s.task_status ≢ TaskStatus.active
    → record_external redact fresh kind state identity details action_class action_id s ≡ ok t
    → (length t.0.external_actions ≡ length s.external_actions)
      × (unresolved_external_count t.0 ≤ unresolved_external_count s)
unfolding record_external unresolved_external_count
record_external_inactive redact fresh kind state identity details action_class action_id s l n h =
    let (q, _, rest) =
      >>=-eq-ok (check_request redact fresh kind state identity details action_class action_id) _
        h in
    let (owner, _, written, _) = record_request_parts q s rest in
    inactive-transact s.task_status q owner s.external_actions l n written
