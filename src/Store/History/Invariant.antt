-- ===== src/Store/History/Invariant.antt =====
-- What holds of the tables after any operations (scripts/codex_loop_runtime/state.py).
use codex_loop.Base.{
  String, ◌≡◌, refl, sym, subst, Option, List, [], ◌∷◌, Result, ok, err, first-eq-ok, ok_injective,
}
use codex_loop.Store.{Store, StoreError, PlanItem}
use codex_loop.Store.Events.{IsBounded}
use codex_loop.Store.Status.{record_steer}
use codex_loop.Store.Plan.{set_plan}
use codex_loop.Store.Cancel.{cancel}
use codex_loop.Store.Plan.Bounds.{IsPlan, set_plan-IsPlan, set_plan_effect}
use codex_loop.Store.Cancel.Settles.{cancel-IsLedger}
use codex_loop.Store.External.Ledger.{IsLedger, record_external-IsLedger}
use codex_loop.Store.External.Transact.{record_external}
use codex_loop.Store.External.Failures.{resolve_external_failure_effect, resolve_row-IsLedger}
use codex_loop.Store.Isolations.{Digest, create_isolation}
use codex_loop.Store.Isolations.Invariant.{
  IsSerial, create_isolation-IsSerial, finish_isolation-IsSerial, abort_isolation-IsSerial,
  cancel-IsSerial,
}
use codex_loop.Store.History.{
  Op, attempt, step, run, pausing, resuming, completing, bumping, blocking, cancelling, steering,
  planning, recording, resolving_failure, creating, noting, finishing, aborting, reporting,
  orphaning, resolving_process,
}
use codex_loop.Store.History.Effects.{
  WritesIsolations, record_external_effect, create_isolation_effect, record_isolation_event_effect,
  finish_isolation_effect, abort_isolation_effect, cancel_effect,
}
use codex_loop.Store.History.Quiet.{
  bump_generation-Quiet, upsert_process-Quiet, mark_running_processes_orphaned-Quiet, pause-Quiet,
  mark_complete-Quiet, Quiet, block-Quiet, resume-Quiet, record_steer-Quiet,
  resolve_orphaned_process-Quiet,
}

-- The ledger of actions, the isolations with their work, the plan and the log of events are in order.
abbrev pub IsSound : Store → Type 0
IsSound s =
    IsLedger s.external_actions
    × IsSerial s.isolations s.semantic_work
    × IsPlan s.plan
    × IsBounded 64 448 s.isolation_events

Quiet-IsSound : (s t : Store) → Quiet s t → IsSound s → IsSound t
Quiet-IsSound s t q (l, i, p, e) =
    rw (q.same_actions, q.same_isolations, q.same_work, q.same_plan, q.same_events) (l, i, p, e)

-- A write of the tables of isolations alone.
isolations-IsSound :
    (s : Store) {t : Store}
    → IsBounded 64 448 t.isolation_events × WritesIsolations s t
    → IsSerial t.isolations t.semantic_work
    → IsSound s
    → IsSound t
isolations-IsSound s {t} (bounded, e) serial (l, _, p, _) =
    subst IsSound (sym e) (l, serial, p, bounded)

events-IsSound :
    (s : Store) {t : Store}
    → IsBounded 64 448 t.isolation_events × (t ≡ record s { isolation_events = t.isolation_events })
    → IsSound s
    → IsSound t
events-IsSound s {t} (bounded, e) (l, i, p, _) = subst IsSound (sym e) (l, i, p, bounded)

actions-IsSound :
    (s : Store) {t : Store}
    → t ≡ record s { external_actions = t.external_actions }
    → IsLedger t.external_actions
    → IsSound s
    → IsSound t
actions-IsSound s {t} e ledger (_, i, p, b) = subst IsSound (sym e) (ledger, i, p, b)

module _ (redact : String → String) (digest : Digest) where
  planning-IsSound :
      (items : List (String × String)) (s : Store) {t : Store × List PlanItem}
      → set_plan redact items s ≡ ok t
      → IsSound s
      → IsSound t.0
  planning-IsSound items s {t} h (l, i, _, b) =
      subst IsSound (sym (set_plan_effect redact items s {t = t} h))
        (l, i, (set_plan-IsPlan redact items s {t = t} h).0, b)

  cancelling-IsSound :
      (reason : Option String) (s : Store) {t : Store}
      → cancel redact reason s ≡ ok t
      → IsSound s
      → IsSound t
  cancelling-IsSound reason s {t} h (l, i, p, b) =
      let (bounded, _, _, same, _, _) = cancel_effect redact reason s {t = t} h in
      (
        cancel-IsLedger redact reason s l h,
        cancel-IsSerial redact reason s i h,
        subst IsPlan (sym same) p,
        bounded b,
      )

  attempt-IsSound :
      (op : Op) (s : Store) {t : Store} → attempt redact digest op s ≡ ok t → IsSound s → IsSound t
  unfolding attempt
  attempt-IsSound pausing s {t} h sound = Quiet-IsSound s t (pause-Quiet s h) sound
  attempt-IsSound resuming s {t} h sound = Quiet-IsSound s t (resume-Quiet s h) sound
  attempt-IsSound completing s {t} h sound = Quiet-IsSound s t (mark_complete-Quiet s h) sound
  attempt-IsSound bumping s {t} h sound =
      subst IsSound (ok_injective h) (Quiet-IsSound s _ (bump_generation-Quiet s) sound)
  attempt-IsSound (blocking reason) s {t} h sound =
      Quiet-IsSound s t (block-Quiet redact reason s h) sound
  attempt-IsSound (cancelling reason) s h sound = cancelling-IsSound reason s h sound
  attempt-IsSound (steering fresh text) s {t} h sound =
      let (r, e) = first-eq-ok (record_steer fresh text s) h in
      Quiet-IsSound s t (record_steer-Quiet fresh text s e) sound
  attempt-IsSound (planning items) s {t} h sound =
      let (r, e) = first-eq-ok (set_plan redact items s) h in
      planning-IsSound items s {t = (t, r)} e sound
  attempt-IsSound (recording a) s {t} h sound =
      let (r, e) =
        first-eq-ok
          (record_external redact a.fresh a.kind a.state a.identity a.details a.action_class
            a.action_id s)
          h in
      actions-IsSound s
        (record_external_effect redact a.fresh a.kind a.state a.identity a.details a.action_class
          a.action_id s {t = (t, r)} e)
        (record_external-IsLedger redact a.fresh a.kind a.state a.identity a.details a.action_class
          a.action_id s {t = (t, r)} sound.0 e)
        sound
  attempt-IsSound (resolving_failure k evidence) s h (l, i, p, b) =
      subst IsSound (sym (resolve_external_failure_effect redact k evidence s h))
        (resolve_row-IsLedger k _ s.external_actions l, i, p, b)
  attempt-IsSound (creating p) s {t} h sound =
      let (r, e) = first-eq-ok (create_isolation redact digest p s) h in
      isolations-IsSound s (create_isolation_effect redact digest p s {t = (t, r)} e)
        (create_isolation-IsSerial redact digest p s {t = (t, r)} sound.1 e) sound
  attempt-IsSound (noting k kind details) s h sound =
      events-IsSound s (record_isolation_event_effect redact k kind details s h) sound
  attempt-IsSound (finishing k o) s h sound =
      isolations-IsSound s (finish_isolation_effect digest k o s h)
        (finish_isolation-IsSerial digest k o s sound.1 h) sound
  attempt-IsSound (aborting k reason g) s h sound =
      isolations-IsSound s (abort_isolation_effect redact k reason g s h)
        (abort_isolation-IsSerial redact k reason g s sound.1 h) sound
  attempt-IsSound (reporting r) s h sound =
      subst IsSound (ok_injective h) (Quiet-IsSound s _ (upsert_process-Quiet redact r s) sound)
  attempt-IsSound (orphaning reason) s h sound =
      subst IsSound (ok_injective h)
        (Quiet-IsSound s _ (mark_running_processes_orphaned-Quiet redact reason s) sound)
  attempt-IsSound (resolving_process k evidence) s {t} h sound =
      Quiet-IsSound s t (resolve_orphaned_process-Quiet redact k evidence s h) sound

  step-IsSound : (op : Op) (s : Store) → IsSound s → IsSound (step redact digest op s)
  unfolding step
  step-IsSound op s sound = step_cases (attempt redact digest op s) refl
    where
      step_cases :
          (r : Result StoreError Store)
          → attempt redact digest op s ≡ r
          → IsSound (elim r [ ok t ↦ t | err _ ↦ s ])
      step_cases (ok t) e = attempt-IsSound op s e sound
      step_cases (err _) e = sound

  -- Whatever operations run on tables in order, each of them going through or failing, they leave
  -- tables in order: a ledger without two owners of an identity, one active isolation at most and
  -- active work only under it, a plan of 32 steps at most with one in progress at most, and a log of
  -- events within its budgets.
  pub run-IsSound : (ops : List Op) (s : Store) → IsSound s → IsSound (run redact digest ops s)
  unfolding run
  run-IsSound [] s sound = sound
  run-IsSound (op ∷ ops) s sound =
      run-IsSound ops (step redact digest op s) (step-IsSound op s sound)
