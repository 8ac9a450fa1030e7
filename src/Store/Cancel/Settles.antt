-- ===== src/Store/Cancel/Settles.antt =====
-- What the cancellation of a task settles (scripts/codex_loop_runtime/state.py).
use codex_loop.Base.{
  ◌≤◌, String, ◌≡◌, refl, subst, inl, inr, Bool, true, false, not, Option, none, some, List, [],
  ◌∷◌, map, count, Bool-cases, eq_iff, arith, ok, All, reject-eq-ok, ok_injective,
}
use codex_loop.Store.{
  Store, TaskStatus, Action, dispatched, outcome_unknown, Isolation, SemanticWork, cannot_cancel,
}
use codex_loop.Store.Status.{is_resumable}
use codex_loop.Store.Cancel.{first_active, abort_active, cancel_planned, cancel}
use codex_loop.Store.External.{find_action, owns}
use codex_loop.Store.External.Transact.{
  is_unresolved, unresolved_external_count, unresolved_external_failure_count,
  is_unresolved_failure,
}
use codex_loop.Store.External.Rows.{UniqueIds}
use codex_loop.Store.External.Ledger.{IsLedger, IsIdentified}
use codex_loop.Store.Isolations.{find_work}
use codex_loop.Store.Isolations.Rows.{
  is_active_row, is_active_semantic, abort_rows_lem, first_active-none, first_active_zero,
  abort_first, find_active,
}
use codex_loop.Store.Isolations.Invariant.{IsSerialStore, cancel-IsSerial}

-- The actions that were dispatched and whose outcome nobody has seen.
abbrev pub is_in_flight : Action → Bool
is_in_flight a = elim a.state [ dispatched ↦ true | outcome_unknown ↦ true | _ ↦ false ]

-- `cancel_planned` by the state, to reason by cases.
cancel_planned_key :
    (a : Action)
    → ((cancel_planned a).action_id ≡ a.action_id)
      × ((cancel_planned a).kind ≡ a.kind)
      × ((cancel_planned a).identity ≡ a.identity)
      × ((cancel_planned a).action_class ≡ a.action_class)
cancel_planned_key a = ground arith

find-map_cancel :
    (k : String) (rows : List Action)
    → find_action k rows ≡ none
    → find_action k (map cancel_planned rows) ≡ none
unfolding find_action
find-map_cancel k [] h = refl
find-map_cancel k (a ∷ rest) h =
    ground (arith, cancel_planned_key a, find-map_cancel k rest, eq_iff a.action_id k)

UniqueIds-map_cancel : (rows : List Action) → UniqueIds rows → UniqueIds (map cancel_planned rows)
UniqueIds-map_cancel [] u = tt
UniqueIds-map_cancel (a ∷ rest) u = (
  rw ((cancel_planned_key a).0) (find-map_cancel a.action_id rest u.0),
  UniqueIds-map_cancel rest u.1,
)

count-map_cancel :
    (kind identity : String) (rows : List Action)
    → count (owns kind identity) (map cancel_planned rows) ≡ count (owns kind identity) rows
unfolding owns
count-map_cancel kind identity [] = refl
count-map_cancel kind identity (a ∷ rest) =
    ground (arith, cancel_planned_key a, count-map_cancel kind identity rest)

IsIdentified-map_cancel :
    (rows : List Action) → All IsIdentified rows → All IsIdentified (map cancel_planned rows)
IsIdentified-map_cancel [] h = tt
IsIdentified-map_cancel (a ∷ rest) h =
    (ground (arith, cancel_planned_key a, h.0), IsIdentified-map_cancel rest h.1)

map_cancel-IsLedger : (rows : List Action) → IsLedger rows → IsLedger (map cancel_planned rows)
map_cancel-IsLedger rows l = record {
  unique_ids = UniqueIds-map_cancel rows l.unique_ids;
  unique_owners =
      λ kind identity. rw (count-map_cancel kind identity rows) (l.unique_owners kind identity);
  identified = IsIdentified-map_cancel rows l.identified;
}

unresolved-map_cancel :
    (rows : List Action) → count is_unresolved (map cancel_planned rows) ≡ count is_in_flight rows
unresolved-map_cancel [] = refl
unresolved-map_cancel (a ∷ rest) = ground (arith, unresolved-map_cancel rest)

failures-map_cancel :
    (rows : List Action)
    → count is_unresolved_failure (map cancel_planned rows) ≡ count is_unresolved_failure rows
failures-map_cancel [] = refl
failures-map_cancel (a ∷ rest) = ground (arith, failures-map_cancel rest)

abort_active_external :
    (o : Option Isolation) (s : Store) → (abort_active o s).external_actions ≡ s.external_actions
unfolding abort_active
abort_active_external none s = refl
abort_active_external (some i) s = refl

abort_active_processes :
    (o : Option Isolation) (s : Store) → (abort_active o s).processes ≡ s.processes
unfolding abort_active
abort_active_processes none s = refl
abort_active_processes (some i) s = refl

abort_active_none :
    (o : Option Isolation) (s : Store)
    → first_active s.isolations ≡ o
    → count is_active_row s.isolations ≤ 1
    → count is_active_row (abort_active o s).isolations ≡ 0
unfolding abort_active
abort_active_none none s e one = first_active-none s.isolations e
abort_active_none (some i) s e one =
    rw (abort_rows_lem i.isolation_id s.generation s.isolations)
      (abort_first s.generation s.isolations one e)

-- Without an active isolation no semantic work is active.
idle_work :
    (s : Store) (k : String) (w : SemanticWork)
    → IsSerialStore s
    → count is_active_row s.isolations ≡ 0
    → find_work k s.semantic_work ≡ some w
    → is_active_semantic w ≡ false
idle_work s k w serial idle found = elim (Bool-cases (is_active_semantic w)) [
  | inl live ↦
      let (i, there, active) = serial.bound k w found live in
      absurd (omega (arith, find_active k s.isolations there active))
  | inr settled ↦ settled
]

pub cancel-IsLedger :
    (redact : String → String) (reason : Option String) (s : Store) {t : Store}
    → IsLedger s.external_actions
    → cancel redact reason s ≡ ok t
    → IsLedger t.external_actions
unfolding cancel
cancel-IsLedger redact reason s l h =
    let done = reject-eq-ok (not (is_resumable s.task_status)) cannot_cancel _ h in
    subst (λ (u : Store). IsLedger u.external_actions) (ok_injective done.1)
      (map_cancel-IsLedger _ (rw (abort_active_external (first_active s.isolations) s) l))

-- A cancellation that succeeds settles a task whose tables are serial: its status is `cancelled`, no
-- isolation and no semantic work is active any more, the unresolved external actions are exactly
-- those that were in flight before, no failure is resolved by it, and the processes are untouched.
pub cancel_settles :
    (redact : String → String) (reason : Option String) (s : Store) {t : Store}
    → IsSerialStore s
    → cancel redact reason s ≡ ok t
    → (t.task_status ≡ TaskStatus.cancelled)
      × (first_active t.isolations ≡ none)
      × ((k : String) (w : SemanticWork)
          → find_work k t.semantic_work ≡ some w
          → is_active_semantic w ≡ false)
      × (unresolved_external_count t ≡ count is_in_flight s.external_actions)
      × (unresolved_external_failure_count t ≡ unresolved_external_failure_count s)
      × (t.processes ≡ s.processes)
unfolding cancel unresolved_external_count unresolved_external_failure_count
cancel_settles redact reason s {t} serial h =
    let done = reject-eq-ok (not (is_resumable s.task_status)) cannot_cancel _ h in
    let e = ok_injective done.1 in
    let rows = abort_active_external (first_active s.isolations) s in
    let idle : count is_active_row t.isolations ≡ 0 =
      subst (λ (u : Store). count is_active_row u.isolations ≡ 0) e
        (abort_active_none (first_active s.isolations) s refl serial.one_active) in
    (
      subst (λ (u : Store). u.task_status ≡ TaskStatus.cancelled) e refl,
      first_active_zero t.isolations idle,
      λ k w. idle_work t k w (cancel-IsSerial redact reason s serial h) idle,
      subst
          (λ (u : Store).
            count is_unresolved u.external_actions ≡ count is_in_flight s.external_actions)
          e (rw rows (unresolved-map_cancel s.external_actions)),
      subst
          (λ (u : Store).
            count is_unresolved_failure u.external_actions
            ≡ count is_unresolved_failure s.external_actions)
          e (rw rows (failures-map_cancel s.external_actions)),
      subst (λ (u : Store). u.processes ≡ s.processes) e
          (abort_active_processes (first_active s.isolations) s),
    )
