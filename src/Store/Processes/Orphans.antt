-- ===== src/Store/Processes/Orphans.antt =====
-- The reconciliation of processes whose helper was lost (scripts/codex_loop_runtime/state.py).
use mathlib.Core.Path.{fun_ext}
use codex_loop.Base.{
  ◌+◌, String, ◌≡◌, refl, ap, ◌∙◌, inl, inr, Bool, false, ◌||◌, Option, none, some, List, [], ◌∷◌,
  count, select, if◌then◌else◌, is_some, Bool-cases, is_empty, str_eq, arith, length,
}
use codex_loop.Store.{Store, Process, running, draining, orphaned}
use codex_loop.Store.Clean.{scrub_persisted_text}
use codex_loop.Store.Processes.{
  is_live, is_orphaned, is_unresolved_failure, live_process_rows, orphaned_process_count,
  unresolved_process_failure_count, has_handle, find_process, orphan, orphan_all,
  mark_running_processes_orphaned,
}

-- A live row becomes an orphaned one, any other row stays.
orphan-Row :
    (reason : String) (p : Process)
    → (is_live (orphan reason p) ≡ false)
      × (is_orphaned (orphan reason p) ≡ (is_live p || is_orphaned p))
      × (is_unresolved_failure (orphan reason p) ≡ is_unresolved_failure p)
unfolding orphan
orphan-Row reason p = ground arith

live-orphan_all :
    (reason : String) (rows : List Process) → select is_live (orphan_all reason rows) ≡ []
unfolding orphan_all
live-orphan_all reason [] = refl
live-orphan_all reason (p ∷ rest) = rw ((orphan-Row reason p).0) (live-orphan_all reason rest)

count-select : (rows : List Process) → count is_live rows ≡ length (select is_live rows)
count-select [] = refl
count-select (p ∷ rest) = elim (Bool-cases (is_live p)) [
  | inl live ↦ rw live (omega (arith, count-select rest))
  | inr still ↦ rw still (omega (arith, count-select rest))
]

-- A row is never live and orphaned.
live_or_orphaned :
    (p : Process)
    → (if is_live p || is_orphaned p then 1 else 0)
      ≡ (if is_live p then 1 else 0) + (if is_orphaned p then 1 else 0)
live_or_orphaned p = ground arith

count-orphan_all :
    (reason : String) (rows : List Process)
    → count is_orphaned (orphan_all reason rows) ≡ count is_live rows + count is_orphaned rows
unfolding orphan_all
count-orphan_all reason [] = refl
count-orphan_all reason (p ∷ rest) =
    rw ((orphan-Row reason p).1) (omega (arith, live_or_orphaned p, count-orphan_all reason rest))

failures-orphan_all :
    (reason : String) (rows : List Process)
    → count is_unresolved_failure (orphan_all reason rows) ≡ count is_unresolved_failure rows
unfolding orphan_all
failures-orphan_all reason [] = refl
failures-orphan_all reason (p ∷ rest) =
    rw ((orphan-Row reason p).2) (omega (arith, failures-orphan_all reason rest))

orphan-handle : (reason : String) (p : Process) → (orphan reason p).handle ≡ p.handle
unfolding orphan
orphan-handle reason p = elim (Bool-cases (is_live p)) [
  | inl live ↦ rw live refl
  | inr still ↦ rw still refl
]

find-orphan_all :
    (k reason : String) (rows : List Process)
    → find_process k (orphan_all reason rows)
      ≡ (elim (find_process k rows) [ none ↦ none | some p ↦ some (orphan reason p) ])
unfolding find_process orphan_all
find-orphan_all k reason [] = refl
find-orphan_all k reason (p ∷ rest) = elim (Bool-cases (str_eq p.handle k)) [
  | inl hit ↦ rw (find_process, orphan-handle reason p, hit) refl
  | inr miss ↦ rw (find_process, orphan-handle reason p, miss) (find-orphan_all k reason rest)
]

-- What the reconciliation writes for a row that is live, and for any other.
abbrev pub lost_row : String → Process → Process
lost_row reason p = elim p.state [
  | running ↦ record p { state = orphaned; failure_message = some reason }
  | draining ↦ record p { state = orphaned; failure_message = some reason }
  | _ ↦ p
]

-- The reason that is recorded, where the cleaned one is not empty.
abbrev pub given_reason : (String → String) → String → String
given_reason redact reason =
    if is_empty (scrub_persisted_text redact 2048 reason)
    then "helper ownership lost"
    else scrub_persisted_text redact 2048 reason

orphan-lost_row : (reason : String) (p : Process) → orphan reason p ≡ lost_row reason p
unfolding orphan
orphan-lost_row reason p = ground arith

find-lost_row :
    (k reason : String) (rows : List Process)
    → find_process k (orphan_all reason rows)
      ≡ (elim (find_process k rows) [ none ↦ none | some p ↦ some (lost_row reason p) ])
find-lost_row k reason rows =
    find-orphan_all k reason rows
    ∙ ap
        (λ (f : Process → Process). elim (find_process k rows) as (λ _. Option Process) [
          | none ↦ none
          | some p ↦ some (f p)
        ])
        (fun_ext (λ p. orphan-lost_row reason p))

-- When ownership of the running processes is lost, the record of a handle reads back as orphaned with
-- the cleaned reason, or `helper ownership lost` for an empty one, where it was running or draining, and
-- as it was otherwise. The number that is returned is that of the live rows before; no live row is left,
-- as many orphaned ones are added, and no unresolved failure is gained or lost.
pub mark_running_processes_orphaned_lem :
    (redact : String → String) (reason : String) (s : Store)
    → ((k : String)
        → find_process k (mark_running_processes_orphaned redact reason s).0.processes
          ≡ (elim (find_process k s.processes) [
            | none ↦ none
            | some p ↦ some (lost_row (given_reason redact reason) p)
          ]))
      × ((mark_running_processes_orphaned redact reason s).1 ≡ length (live_process_rows s))
      × (live_process_rows (mark_running_processes_orphaned redact reason s).0 ≡ [])
      × (orphaned_process_count (mark_running_processes_orphaned redact reason s).0
          ≡ length (live_process_rows s) + orphaned_process_count s)
      × (unresolved_process_failure_count (mark_running_processes_orphaned redact reason s).0
          ≡ unresolved_process_failure_count s)
unfolding mark_running_processes_orphaned live_process_rows orphaned_process_count
    unresolved_process_failure_count
mark_running_processes_orphaned_lem redact reason s =
    let live = count-select s.processes in
    (
      λ k. find-lost_row k (given_reason redact reason) s.processes,
      live,
      live-orphan_all _ s.processes,
      omega (arith, count-orphan_all (given_reason redact reason) s.processes, live),
      failures-orphan_all _ s.processes,
    )

has_handle-find :
    (k : String) (rows : List Process) → is_some (find_process k rows) ≡ has_handle k rows
unfolding has_handle find_process
has_handle-find k [] = refl
has_handle-find k (p ∷ rest) = ground (arith, has_handle-find k rest)

-- What is left to reconcile: the orphaned rows and the unresolved failures.
abbrev pub needs_evidence : Process → Bool
needs_evidence p = is_orphaned p || is_unresolved_failure p
