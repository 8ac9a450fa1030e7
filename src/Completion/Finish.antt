-- ===== src/Completion/Finish.antt =====
-- What a passed completion says (scripts/codex_loop_runtime/completion.py).
use codex_loop.Base.{
  ℕ, ◌≤◌, String, ◌≡◌, refl, inl, inr, ◌↔◌, Bool, true, false, ◌&&◌, Option, none, some, List, [],
  ◌∷◌, length, ltb, ltb-false, is_empty, strip, Bool-cases, Option-cases, either_false, arith,
}
use codex_loop.Store.{Store}
use codex_loop.Store.Cancel.{first_active}
use codex_loop.Store.External.Transact.{
  unresolved_external_count, unresolved_external_failure_count,
  ambiguous_non_idempotent_identity_count,
}
use codex_loop.Store.Processes.{
  live_process_rows, orphaned_process_count, unresolved_process_failure_count,
}
use codex_loop.Validation.{Validation, ValidationState, validation_state_for_generation}
use codex_loop.Completion.Kept.{
  IsKept, add_when-eq-nil, nil-IsKept, IsKept-nil, nil-IsBlank, IsBlank-nil,
}
use codex_loop.Completion.{
  Workspace, pass, Obstacle, View, add_when, collaboration_reason, isolation_reason, blockers,
  reasons, decide, assess_active,
}

-- Nothing stands against finishing the task.
pub record IsClear (view : View) (v : ValidationState) (s : Store) : Type 0 where
  pub anchored : is_empty (strip s.request_anchor) ≡ false
  pub cleaned : v.cleanup_failed_count ≡ 0
  pub unorphaned : v.orphaned_count ≡ 0
  pub unambiguous : ambiguous_non_idempotent_identity_count s ≡ 0
  pub no_orphans : orphaned_process_count s ≡ 0
  pub workspace : (w : Workspace) → view.binding ≡ some w → IsKept s.profile w
  pub collaborated : (text : String) → view.obstacle ≡ some text → text ≡ ""
  pub validated : s.requires_validation ≡ true → 1 ≤ v.passed_count
  pub torn_down : s.requires_clean_process_exit ≡ true → v.teardown_stalled_count ≡ 0
  pub no_isolation : first_active s.isolations ≡ none
  pub no_external : unresolved_external_count s ≡ 0
  pub no_failures : unresolved_external_failure_count s ≡ 0
  pub no_live : length (live_process_rows s) ≡ 0
  pub no_process_failures : unresolved_process_failure_count s ≡ 0

isolation-eq-nil :
    (s : Store) (rest : List Obstacle)
    → isolation_reason s rest ≡ []
    → (first_active s.isolations ≡ none) × (rest ≡ [])
unfolding isolation_reason
isolation-eq-nil s rest h = elim (Option-cases (first_active s.isolations)) [
  | inl idle ↦ (idle, rw (idle, isolation_reason) at h)
  | inr (i, e) ↦ absurd (cc (rw (e, isolation_reason) at h))
]

collaboration-eq-nil :
    (o : Option String) (rest : List Obstacle)
    → collaboration_reason o rest ≡ []
    → (collaboration_reason o [] ≡ []) × (rest ≡ [])
collaboration-eq-nil none rest h = (refl, h)
collaboration-eq-nil (some text) rest h = elim (Bool-cases (is_empty text)) [
  | inl blank ↦ (rw blank refl, rw blank at h)
  | inr said ↦ absurd (cc (rw said at h))
]

no_count : (n : ℕ) → ltb 0 n ≡ false → n ≡ 0
no_count n h = ground arith

implied : (a b : Bool) → (a && b) ≡ false → a ≡ true → b ≡ false
implied true b h e = h
implied false b h e = cc

-- No blocker and no reason: nothing stands against it.
nil-IsClear :
    (view : View) (v : ValidationState) (s : Store)
    → blockers view v s ≡ []
    → reasons view v s ≡ []
    → IsClear view v s
unfolding blockers reasons
nil-IsClear view v s b r =
    let (anchored, b₁) = add_when-eq-nil _ _ _ b in
    let (cleaned, b₂) = add_when-eq-nil _ _ _ b₁ in
    let (unambiguous, b₃) = add_when-eq-nil _ _ _ b₂ in
    let (no_orphans, workspace) = add_when-eq-nil _ _ _ b₃ in
    let (collaborated, r₁) = collaboration-eq-nil view.obstacle _ r in
    let (validated, r₂) = add_when-eq-nil _ _ _ r₁ in
    let (torn_down, r₃) = add_when-eq-nil _ _ _ r₂ in
    let (no_isolation, r₄) = isolation-eq-nil s _ r₃ in
    let (no_external, r₅) = add_when-eq-nil _ _ _ r₄ in
    let (no_failures, r₆) = add_when-eq-nil _ _ _ r₅ in
    let (no_live, r₇) = add_when-eq-nil _ _ _ r₆ in
    let (no_process_failures, _) = add_when-eq-nil _ _ _ r₇ in
    record {
      anchored = anchored;
      cleaned = no_count _ (either_false _ _ cleaned).0;
      unorphaned = no_count _ (either_false _ _ cleaned).1;
      unambiguous = no_count _ unambiguous;
      no_orphans = no_count _ no_orphans;
      workspace = nil-IsKept s.profile view.binding workspace;
      collaborated = nil-IsBlank view.obstacle collaborated;
      validated = λ e. ltb-false v.passed_count 1 (implied _ _ validated e);
      torn_down = λ e. no_count _ (implied _ _ torn_down e);
      no_isolation = no_isolation;
      no_external = no_count _ no_external;
      no_failures = no_count _ no_failures;
      no_live = no_count _ no_live;
      no_process_failures = no_count _ no_process_failures;
    }

add_when_skip : (b : Bool) (o : Obstacle) → b ≡ false → add_when b o [] ≡ []
add_when_skip b o h = rw h refl

imply_false : (a b : Bool) → (a ≡ true → b ≡ false) → (a && b) ≡ false
imply_false true b h = h refl
imply_false false b h = refl

collaboration-nil :
    (o : Option String) (rest : List Obstacle)
    → collaboration_reason o [] ≡ []
    → collaboration_reason o rest ≡ rest
collaboration-nil none rest h = refl
collaboration-nil (some text) rest h = elim (Bool-cases (is_empty text)) [
  | inl blank ↦ rw blank refl
  | inr said ↦ absurd (cc (rw said at h))
]

isolation-nil :
    (s : Store) (rest : List Obstacle)
    → first_active s.isolations ≡ none
    → isolation_reason s rest ≡ rest
unfolding isolation_reason
isolation-nil s rest h = rw (h, isolation_reason) refl

ltb-one : (n : ℕ) → 1 ≤ n → ltb n 1 ≡ false
ltb-one n h = ground arith

ltb-zero : (n : ℕ) → n ≡ 0 → ltb 0 n ≡ false
ltb-zero n h = ground arith

IsClear-nil :
    (view : View) (v : ValidationState) (s : Store)
    → IsClear view v s
    → (blockers view v s ≡ []) × (reasons view v s ≡ [])
unfolding blockers reasons
IsClear-nil view v s c = (
  rw
      (
        c.anchored,
        c.cleaned,
        c.unorphaned,
        c.unambiguous,
        c.no_orphans,
        IsKept-nil s.profile view.binding c.workspace,
      )
      refl,
  rw
      (
        collaboration-nil view.obstacle _ (IsBlank-nil view.obstacle c.collaborated),
        imply_false s.requires_validation (ltb v.passed_count 1) (λ e. ltb-one _ (c.validated e)),
        imply_false s.requires_clean_process_exit (ltb 0 v.teardown_stalled_count)
            (λ e. ltb-zero _ (c.torn_down e)),
        isolation-nil s _ c.no_isolation,
        c.no_external,
        c.no_failures,
        c.no_live,
        c.no_process_failures,
      )
      refl,
)

decide-pass : (b r : List Obstacle) → (decide b r).status ≡ pass → (b ≡ []) × (r ≡ [])
unfolding decide
decide-pass [] [] h = (refl, refl)
decide-pass [] (x ∷ r) h = cc
decide-pass (x ∷ b) r h = cc

-- What an open task is assessed as: PASS exactly when nothing stands against finishing it.
pub assess_active-IsClear :
    (view : View) (rows : List Validation) (s : Store)
    → ((assess_active view rows s).status ≡ pass)
      ↔ IsClear view (validation_state_for_generation s.generation rows) s
unfolding assess_active
assess_active-IsClear view rows s =
    let v = validation_state_for_generation s.generation rows in
    (
      λ h.
          let (b, r) = decide-pass (blockers view v s) (reasons view v s) h in
          nil-IsClear view v s b r,
      λ c. let (b, r) = IsClear-nil view v s c in rw (b, r) refl,
    )

pub assess_active_clear :
    (view : View) (rows : List Validation) (s : Store)
    → IsClear view (validation_state_for_generation s.generation rows) s
    → assess_active view rows s ≡ record { status = pass; reasons = [] }
unfolding assess_active decide
assess_active_clear view rows s c =
    let (b, r) = IsClear-nil view (validation_state_for_generation s.generation rows) s c in
    rw (b, r) refl
