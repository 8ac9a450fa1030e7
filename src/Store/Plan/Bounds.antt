-- ===== src/Store/Plan/Bounds.antt =====
-- The plan that `set_plan` stores and `plan` reads (scripts/codex_loop_runtime/state.py).
use codex_loop.Base.{
  ◌+◌, ◌≤◌, String, ◌≡◌, refl, ap, subst, ◌∙◌, false, List, [], ◌∷◌, length, count, All, ltb,
  ltb-false, ok, >>=-eq-ok, reject-eq-ok, ok_injective, is_empty, strip, strip-strip, arith,
}
use codex_loop.Store.{Store, PlanItem, plan_too_long, blank_step, two_in_progress}
use codex_loop.Store.Clean.{clean_text, scrub_persisted_text}
use codex_loop.Store.Status.{ensure_active}
use codex_loop.Store.Plan.{
  parse_plan_status, clean_item, clean_items, is_in_progress, set_plan, read_items, plan,
}

-- A stored step: stripped, and not blank.
abbrev IsClean : PlanItem → Type 0
IsClean item = (strip item.step ≡ item.step) × (is_empty item.step ≡ false)

clean_item-IsClean :
    (redact : String → String) (x : String × String) {item : PlanItem}
    → clean_item redact x ≡ ok item
    → IsClean item
unfolding clean_item clean_text
clean_item-IsClean redact x {item} h =
    let given =
      reject-eq-ok (is_empty (strip (scrub_persisted_text redact 2048 x.0))) blank_step _ h in
    let (parsed, _, done) = >>=-eq-ok (parse_plan_status (strip x.1)) _ given.1 in
    subst (λ (i : PlanItem). IsClean i) (ok_injective done)
      (strip-strip (scrub_persisted_text redact 2048 x.0), given.0)

clean_items-IsClean :
    (redact : String → String) (xs : List (String × String)) {items : List PlanItem}
    → clean_items redact xs ≡ ok items
    → All IsClean items × (length items ≡ length xs)
unfolding clean_items
clean_items-IsClean redact [] h =
    subst (λ (l : List PlanItem). All IsClean l × (length l ≡ 0)) (ok_injective h) (tt, refl)
clean_items-IsClean redact (x ∷ xs) h =
    let (item, first, others) = >>=-eq-ok (clean_item redact x) _ h in
    let (rest, later, done) = >>=-eq-ok (clean_items redact xs) _ others in
    let (clean, size) = clean_items-IsClean redact xs {items = rest} later in
    subst (λ (l : List PlanItem). All IsClean l × (length l ≡ length (x ∷ xs))) (ok_injective done)
      ((clean_item-IsClean redact x first, clean), omega (arith, size))

read-clean : (items : List PlanItem) → All IsClean items → read_items items ≡ items
unfolding read_items
read-clean [] h = refl
read-clean (item ∷ rest) ((stripped, given), others) =
    rw (stripped, given, read-clean rest others) refl

-- A plan as `set_plan` stores it.
abbrev pub IsPlan : List PlanItem → Type 0
IsPlan items = (length items ≤ 32) × (count is_in_progress items ≤ 1) × All IsClean items

pub set_plan-IsPlan :
    (redact : String → String) (items : List (String × String)) (s : Store)
    {t : Store × List PlanItem}
    → set_plan redact items s ≡ ok t
    → IsPlan t.1 × (length t.1 ≡ length items)
unfolding set_plan
set_plan-IsPlan redact items s h =
    let (_, _, allowed) = >>=-eq-ok (ensure_active s) _ h in
    let short = reject-eq-ok (ltb 32 (length items)) plan_too_long _ allowed in
    let (clean, cleaned, rest) = >>=-eq-ok (clean_items redact items) _ short.1 in
    let single = reject-eq-ok (ltb 1 (count is_in_progress clean)) two_in_progress _ rest in
    let (every, size) = clean_items-IsClean redact items {items = clean} cleaned in
    subst (λ (u : Store × List PlanItem). IsPlan u.1 × (length u.1 ≡ length items))
      (ok_injective single.1)
      (
        (omega (arith, ltb-false 32 (length items) short.0, size), ltb-false 1 _ single.0, every),
        size,
      )

pub set_plan_effect :
    (redact : String → String) (items : List (String × String)) (s : Store)
    {t : Store × List PlanItem}
    → set_plan redact items s ≡ ok t
    → t.0 ≡ record s { plan = t.1; plan_revision = s.plan_revision + 1 }
unfolding set_plan
set_plan_effect redact items s {t} h =
    let (_, _, allowed) = >>=-eq-ok (ensure_active s) _ h in
    let short = reject-eq-ok (ltb 32 (length items)) plan_too_long _ allowed in
    let (clean, _, rest) = >>=-eq-ok (clean_items redact items) _ short.1 in
    let single = reject-eq-ok (ltb 1 (count is_in_progress clean)) two_in_progress _ rest in
    subst
      (λ (u : Store × List PlanItem).
        u.0 ≡ record s { plan = u.1; plan_revision = s.plan_revision + 1 })
      (ok_injective single.1) refl

-- A plan that is accepted has as many steps as were given, 32 at most, of which one at most is in
-- progress; it raises the revision by one, and reading the plan gives the accepted steps back, none
-- skipped and none changed.
pub set_plan-plan :
    (redact : String → String) (items : List (String × String)) (s : Store)
    {t : Store × List PlanItem}
    → set_plan redact items s ≡ ok t
    → (plan t.0 ≡ t.1)
      × (length t.1 ≡ length items)
      × (length t.1 ≤ 32)
      × (count is_in_progress t.1 ≤ 1)
      × (t.0.plan_revision ≡ s.plan_revision + 1)
unfolding plan
set_plan-plan redact items s {t} h =
    let ((short, single, every), size) = set_plan-IsPlan redact items s {t = t} h in
    let e = set_plan_effect redact items s {t = t} h in
    (
      ap (λ (u : Store). read_items u.plan) e ∙ read-clean t.1 every,
      size,
      short,
      single,
      ap (λ (u : Store). u.plan_revision) e,
    )
