-- ===== src/Store/Plan.antt =====
-- scripts/codex_loop_runtime/state.py: the plan of a task.
pub mod Bounds
use codex_loop.Base.{
  ◌+◌, String, Bool, true, false, List, [], ◌∷◌, length, count, ltb, if◌then◌else◌, Result, ok, err,
  ◌>>=◌, ◌>>◌, reject, is_empty, strip, str_eq,
}
use codex_loop.Store.{
  Store, StoreError, PlanStatus, PlanItem, pending, in_progress, completed, plan_too_long,
  blank_step, invalid_plan_status, two_in_progress,
}
use codex_loop.Store.Clean.{clean_text}
use codex_loop.Store.Status.{ensure_active}

unfoldable pub parse_plan_status : String → Result StoreError PlanStatus
parse_plan_status s =
    if str_eq s "pending"
    then ok pending
    else if str_eq s "in_progress"
    then ok in_progress
    else if str_eq s "completed"
    then ok completed
    else err invalid_plan_status

-- One round of the loop of `set_plan`, on the step and the status as texts.
unfoldable pub clean_item : (String → String) → String × String → Result StoreError PlanItem
unfolding clean_text strip parse_plan_status
clean_item redact (step, status) = do
  let clean = clean_text redact 2048 step
  reject (is_empty clean) blank_step
  parsed ← parse_plan_status (strip status)
  ok (record { step = clean; status = parsed })

unfoldable pub clean_items :
    (String → String) → List (String × String) → Result StoreError (List PlanItem)
unfolding clean_item
clean_items redact [] = ok []
clean_items redact (x ∷ xs) = do
  item ← clean_item redact x
  rest ← clean_items redact xs
  ok (item ∷ rest)

abbrev pub is_in_progress : PlanItem → Bool
is_in_progress item = elim item.status [ in_progress ↦ true | _ ↦ false ]

unfoldable pub set_plan :
    (String → String) → List (String × String) → Store → Result StoreError (Store × List PlanItem)
unfolding ensure_active clean_items
set_plan redact items s = do
  ensure_active s
  reject (ltb 32 (length items)) plan_too_long
  clean ← clean_items redact items
  reject (ltb 1 (count is_in_progress clean)) two_in_progress
  ok (record s { plan = clean; plan_revision = s.plan_revision + 1 }, clean)

-- `plan`, the reader: items without a step are skipped.
unfoldable pub read_items : List PlanItem → List PlanItem
unfolding strip
read_items [] = []
read_items (item ∷ rest) =
    let step = strip item.step in
    let others = read_items rest in
    if is_empty step then others else record item { step = step } ∷ others

unfoldable pub plan : Store → List PlanItem
unfolding read_items
plan s = read_items s.plan
