-- ===== src/Store/History/Machine.antt =====
-- The life of a task (scripts/codex_loop_runtime/state.py): how its status and its counters move.
use codex_loop.Base.{
  ◌≤◌, String, ◌≡◌, refl, sym, subst, ◌∙◌, true, false, Option, List, [], ◌∷◌, Result, ok, err,
  first-eq-ok, ok_injective, arith,
}
use codex_loop.Store.{Store, StoreError, TaskStatus, PlanItem}
use codex_loop.Store.Status.{is_resumable, record_steer}
use codex_loop.Store.Plan.{set_plan}
use codex_loop.Store.Plan.Bounds.{set_plan_effect}
use codex_loop.Store.Cancel.{cancel}
use codex_loop.Store.External.Transact.{record_external}
use codex_loop.Store.External.Failures.{resolve_external_failure_effect}
use codex_loop.Store.Isolations.{Digest, create_isolation}
use codex_loop.Store.History.{
  Op, attempt, step, run, pausing, resuming, completing, bumping, blocking, cancelling, steering,
  planning, recording, resolving_failure, creating, noting, finishing, aborting, reporting,
  orphaning, resolving_process,
}
use codex_loop.Store.History.Effects.{
  record_external_effect, create_isolation_effect, record_isolation_event_effect,
  finish_isolation_effect, abort_isolation_effect, cancel_effect,
}
use codex_loop.Store.History.Quiet.{
  Moves, stays, pauses, blocks, completes, resumes_paused, resumes_blocked, cancels_active,
  cancels_paused, cancels_blocked, Advances, pause-Quiet, mark_complete-Quiet,
  bump_generation-Quiet, block-Quiet, resume-Quiet, record_steer-Quiet, upsert_process-Quiet,
  mark_running_processes_orphaned-Quiet, resolve_orphaned_process-Quiet,
}

Advances-refl : (s : Store) → Advances s s
Advances-refl s = record { moves = stays; revision = omega arith; generation = omega arith }

-- A state whose status and counters are those of `s`.
same-Advances :
    (s t : Store)
    → t.task_status ≡ s.task_status
    → t.plan_revision ≡ s.plan_revision
    → t.generation ≡ s.generation
    → Advances s t
same-Advances s t status revision generation = record {
  moves = subst (λ x. Moves s.task_status x) (sym status) stays;
  revision = omega (arith, revision);
  generation = omega (arith, generation);
}

cancels : (s : TaskStatus) → is_resumable s ≡ true → Moves s TaskStatus.cancelled
cancels TaskStatus.active h = cancels_active
cancels TaskStatus.paused h = cancels_paused
cancels TaskStatus.blocked h = cancels_blocked
cancels TaskStatus.uninitialized h = cc
cancels TaskStatus.complete h = cc
cancels TaskStatus.cancelled h = cc

module _ (redact : String → String) (digest : Digest) where
  cancelling-Advances :
      (reason : Option String) (s : Store) {t : Store}
      → cancel redact reason s ≡ ok t
      → Advances s t
  cancelling-Advances reason s {t} h =
      let (_, resumable, status, _, revision, generation) =
        cancel_effect redact reason s {t = t} h in
      record {
        moves = subst (λ x. Moves s.task_status x) (sym status) (cancels s.task_status resumable);
        revision = omega (arith, revision);
        generation = omega (arith, generation);
      }

  planning-Advances :
      (items : List (String × String)) (s : Store) {t : Store × List PlanItem}
      → set_plan redact items s ≡ ok t
      → Advances s t.0
  planning-Advances items s {t} h =
      subst (Advances s) (sym (set_plan_effect redact items s {t = t} h))
        (record { moves = stays; revision = omega arith; generation = omega arith })

  -- An operation that goes through moves the status along the edges of `Moves`, and neither the
  -- revision of the plan nor the generation goes back.
  pub attempt-Advances :
      (op : Op) (s : Store) {t : Store} → attempt redact digest op s ≡ ok t → Advances s t
  unfolding attempt
  attempt-Advances pausing s h = (pause-Quiet s h).advances
  attempt-Advances resuming s h = (resume-Quiet s h).advances
  attempt-Advances completing s h = (mark_complete-Quiet s h).advances
  attempt-Advances bumping s h =
      subst (Advances s) (ok_injective h) (bump_generation-Quiet s).advances
  attempt-Advances (blocking reason) s h = (block-Quiet redact reason s h).advances
  attempt-Advances (cancelling reason) s h = cancelling-Advances reason s h
  attempt-Advances (steering fresh text) s h =
      let (r, e) = first-eq-ok (record_steer fresh text s) h in
      (record_steer-Quiet fresh text s e).advances
  attempt-Advances (planning items) s {t} h =
      let (r, e) = first-eq-ok (set_plan redact items s) h in
      planning-Advances items s {t = (t, r)} e
  attempt-Advances (recording a) s {t} h =
      let (r, e) =
        first-eq-ok
          (record_external redact a.fresh a.kind a.state a.identity a.details a.action_class
            a.action_id s)
          h in
      subst (Advances s)
        (sym (
          record_external_effect redact a.fresh a.kind a.state a.identity a.details a.action_class
            a.action_id s {t = (t, r)} e))
        (same-Advances s _ refl refl refl)
  attempt-Advances (resolving_failure k evidence) s h =
      subst (Advances s) (sym (resolve_external_failure_effect redact k evidence s h))
        (same-Advances s _ refl refl refl)
  attempt-Advances (creating p) s {t} h =
      let (r, e) = first-eq-ok (create_isolation redact digest p s) h in
      subst (Advances s) (sym (create_isolation_effect redact digest p s {t = (t, r)} e).1)
        (same-Advances s _ refl refl refl)
  attempt-Advances (noting k kind details) s h =
      subst (Advances s) (sym (record_isolation_event_effect redact k kind details s h).1)
        (same-Advances s _ refl refl refl)
  attempt-Advances (finishing k o) s h =
      subst (Advances s) (sym (finish_isolation_effect digest k o s h).1)
        (same-Advances s _ refl refl refl)
  attempt-Advances (aborting k reason g) s h =
      subst (Advances s) (sym (abort_isolation_effect redact k reason g s h).1)
        (same-Advances s _ refl refl refl)
  attempt-Advances (reporting r) s h =
      subst (Advances s) (ok_injective h) (upsert_process-Quiet redact r s).advances
  attempt-Advances (orphaning reason) s h =
      subst (Advances s) (ok_injective h)
        (mark_running_processes_orphaned-Quiet redact reason s).advances
  attempt-Advances (resolving_process k evidence) s h =
      (resolve_orphaned_process-Quiet redact k evidence s h).advances

  step-Advances : (op : Op) (s : Store) → Advances s (step redact digest op s)
  unfolding step
  step-Advances op s = step_cases (attempt redact digest op s) refl
    where
      step_cases :
          (r : Result StoreError Store)
          → attempt redact digest op s ≡ r
          → Advances s (elim r [ ok t ↦ t | err _ ↦ s ])
      step_cases (ok t) e = attempt-Advances op s e
      step_cases (err _) e = Advances-refl s

  settled : (a b : TaskStatus) → Moves a b → is_resumable a ≡ false → b ≡ a
  settled a b stays h = refl
  settled TaskStatus.active TaskStatus.paused pauses h = cc
  settled TaskStatus.active TaskStatus.blocked blocks h = cc
  settled TaskStatus.active TaskStatus.complete completes h = cc
  settled TaskStatus.paused TaskStatus.active resumes_paused h = cc
  settled TaskStatus.blocked TaskStatus.active resumes_blocked h = cc
  settled TaskStatus.active TaskStatus.cancelled cancels_active h = cc
  settled TaskStatus.paused TaskStatus.cancelled cancels_paused h = cc
  settled TaskStatus.blocked TaskStatus.cancelled cancels_blocked h = cc

  -- No sequence of operations other than configure_task, which starts a task anew, brings back a task
  -- that is complete or cancelled, or one that was never configured: its status stays, whatever is
  -- tried. The revision of the plan and the generation of
  -- the workspace never go back either.
  pub run_settled :
      (ops : List Op) (s : Store)
      → is_resumable s.task_status ≡ false
      → ((run redact digest ops s).task_status ≡ s.task_status)
        × (s.plan_revision ≤ (run redact digest ops s).plan_revision)
        × (s.generation ≤ (run redact digest ops s).generation)
  unfolding run
  run_settled [] s h = (refl, omega arith, omega arith)
  run_settled (op ∷ ops) s h =
      let a = step-Advances op s in
      let same = settled _ _ a.moves h in
      let (status, revision, generation) = run_settled ops (step redact digest op s) (rw same h) in
      (status ∙ same, omega (arith, a.revision, revision), omega (arith, a.generation, generation))
