-- ===== src/Completion/Command.antt =====
-- The command `completion` (scripts/codex_loop_kernel.py) on the decision of completion.py.
use codex_loop.Base.{
  ◌≡◌, ◌≢◌, refl, sym, ap, ◌∙◌, not, none, List, [], ok, ◌>>=◌, >>=-eq-ok, reject-eq-ok,
  ok_injective,
}
use codex_loop.Store.{Store, TaskStatus, invalid_status_transition}
use codex_loop.Store.Status.{status_eq, transition, mark_complete}
use codex_loop.Validation.{Validation, validation_state_for_generation}
use codex_loop.Completion.{
  CompletionStatus, pass, continue, blocked, View, Decision, assess_active, assess_status, assess,
  finish_at, completion_at, cmd_completion,
}
use codex_loop.Completion.Finish.{IsClear, assess_active-IsClear, assess_active_clear}

abbrev pub completed : Store → Store
completed s = record s { task_status = TaskStatus.complete; blocked_reason = none }

mark_complete_lem : (s : Store) {t : Store} → mark_complete s ≡ ok t → completed s ≡ t
unfolding mark_complete transition
mark_complete_lem s h =
    ok_injective
      (reject-eq-ok (not (status_eq s.task_status TaskStatus.active)) invalid_status_transition _
        h).1

finish_at-pass :
    (c : CompletionStatus) (d : Decision) (s : Store) {r : Store × Decision}
    → d.status ≡ c
    → finish_at c d s ≡ ok r
    → (r.1 ≡ d) × (d.status ≡ pass → r.0 ≡ completed s) × (d.status ≢ pass → r.0 ≡ s)
unfolding finish_at
finish_at-pass pass d s e h =
    let (t, marked, done) = >>=-eq-ok (mark_complete s) _ h in
    (
      sym (ap (λ (r : Store × Decision). r.1) (ok_injective done)),
      λ _.
          sym (mark_complete_lem s marked ∙ ap (λ (r : Store × Decision). r.0) (ok_injective done)),
      λ n. absurd (n e),
    )
finish_at-pass continue d s e h = (
  sym (ap (λ (r : Store × Decision). r.1) (ok_injective h)),
  λ p. cc,
  λ _. sym (ap (λ (r : Store × Decision). r.0) (ok_injective h)),
)
finish_at-pass blocked d s e h = (
  sym (ap (λ (r : Store × Decision). r.1) (ok_injective h)),
  λ p. cc,
  λ _. sym (ap (λ (r : Store × Decision). r.0) (ok_injective h)),
)

-- What the command did, by the status before it.
abbrev IsHonest : View → List Validation → Store → Store × Decision → Type 0
IsHonest view rows s r =
    (r.1.status ≡ pass
      → (s.task_status ≡ TaskStatus.active)
        × IsClear view (validation_state_for_generation s.generation rows) s
        × (r.0 ≡ completed s))
    × (r.1.status ≢ pass → r.0 ≡ s)

blocked-IsHonest :
    (view : View) (rows : List Validation) (s : Store) (d : Decision) {r : Store × Decision}
    → d.status ≡ blocked
    → (assess view rows s ≡ ok d)
    → (assess view rows s >>= λ d. finish_at d.status d s) ≡ ok r
    → IsHonest view rows s r
blocked-IsHonest view rows s d b e h =
    let (same, _, kept) = finish_at-pass d.status d s refl (rw e at h) in
    (λ p. absurd (cc (p, same, b)), λ _. kept (λ p. cc))

active-IsHonest :
    (view : View) (rows : List Validation) (s : Store) {r : Store × Decision}
    → s.task_status ≡ TaskStatus.active
    → assess view rows s ≡ ok (assess_active view rows s)
    → (assess view rows s >>= λ d. finish_at d.status d s) ≡ ok r
    → IsHonest view rows s r
active-IsHonest view rows s {r} live e h =
    let d = assess_active view rows s in
    let (same, finished, kept) = finish_at-pass d.status d s refl (rw e at h) in
    (
      λ p.
          let passed : d.status ≡ pass = ap (λ (x : Decision). x.status) (sym same) ∙ p in
          (live, (assess_active-IsClear view rows s).0 passed, finished passed),
      λ n. kept (λ p. n (ap (λ (x : Decision). x.status) same ∙ p)),
    )

completion_at-IsHonest :
    (status : TaskStatus) (view : View) (rows : List Validation) (s : Store) {r : Store × Decision}
    → s.task_status ≡ status
    → status ≢ TaskStatus.complete
    → completion_at status view rows s ≡ ok r
    → IsHonest view rows s r
unfolding completion_at assess assess_status
completion_at-IsHonest TaskStatus.uninitialized view rows s e n h =
    absurd (cc (rw (e, assess, assess_status) at h))
completion_at-IsHonest TaskStatus.complete view rows s e n h = absurd (n refl)
completion_at-IsHonest TaskStatus.active view rows s e n h =
    active-IsHonest view rows s e (ap (λ x. assess_status x view rows s) e) h
completion_at-IsHonest TaskStatus.paused view rows s e n h =
    blocked-IsHonest view rows s _ refl (ap (λ x. assess_status x view rows s) e) h
completion_at-IsHonest TaskStatus.blocked view rows s e n h =
    blocked-IsHonest view rows s _ refl (ap (λ x. assess_status x view rows s) e) h
completion_at-IsHonest TaskStatus.cancelled view rows s e n h =
    blocked-IsHonest view rows s _ refl (ap (λ x. assess_status x view rows s) e) h

-- A task that was not complete is reported as passed only if it was active and nothing stood against
-- finishing it, and is then complete; whenever something else is reported, the tables stay.
pub cmd_completion-IsHonest :
    (view : View) (rows : List Validation) (s : Store) {r : Store × Decision}
    → s.task_status ≢ TaskStatus.complete
    → cmd_completion view rows s ≡ ok r
    → (r.1.status ≡ pass
        → (s.task_status ≡ TaskStatus.active)
          × IsClear view (validation_state_for_generation s.generation rows) s
          × (r.0 ≡ completed s))
      × (r.1.status ≢ pass → r.0 ≡ s)
unfolding cmd_completion
cmd_completion-IsHonest view rows s n h = completion_at-IsHonest s.task_status view rows s refl n h

finish_passed :
    (s : Store) (d : Decision)
    → s.task_status ≡ TaskStatus.active
    → finish_at pass d s ≡ ok (completed s, d)
unfolding finish_at mark_complete transition
finish_passed s d e = rw e refl

-- An active task that nothing stands against is finished: the command reports PASS and the task is
-- complete.
pub cmd_completion_finishes :
    (view : View) (rows : List Validation) (s : Store)
    → s.task_status ≡ TaskStatus.active
    → IsClear view (validation_state_for_generation s.generation rows) s
    → cmd_completion view rows s ≡ ok (completed s, record { status = pass; reasons = [] })
unfolding cmd_completion completion_at assess assess_status
cmd_completion_finishes view rows s e c =
    ap (λ x. completion_at x view rows s) e
    ∙ ap (λ m. m >>= λ d. finish_at d.status d s) (ap (λ x. assess_status x view rows s) e)
    ∙ ap (λ (d : Decision). finish_at d.status d s) (assess_active_clear view rows s c)
    ∙ finish_passed s (record { status = pass; reasons = [] }) e
