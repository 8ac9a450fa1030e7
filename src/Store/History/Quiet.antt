-- ===== src/Store/History/Quiet.antt =====
-- The operations that write none of the tables of actions, isolations and events, nor the plan
-- (scripts/codex_loop_runtime/state.py).
use codex_loop.Base.{
  ◌≤◌, String, ◌≡◌, refl, sym, subst, true, false, not, not-false, Option, none, List, ok, ◌>>=◌,
  >>=-eq-ok, reject-eq-ok, ok_injective, is_empty, strip, arith,
}
use codex_loop.Store.{
  Store, TaskStatus, Process, invalid_status_transition, blank_blocked_reason, blank_steer,
  blank_evidence,
}
use codex_loop.Store.Clean.{clean_text, scrub_persisted_text, normalize_request_authority_text}
use codex_loop.Store.Status.{
  status_eq, read_status, transition, pause, mark_complete, block, reactivate, bump_generation,
  resume_from, resume, record_steer,
}
use codex_loop.Store.Processes.{
  Report, upsert_process, mark_running_processes_orphaned, find_process, check_resolvable,
  resolve_orphaned_process,
}

-- How the status of a task may move.
pub data Moves : TaskStatus → TaskStatus → Type 0 where
  stays : {s : TaskStatus} → Moves s s
  pauses : Moves TaskStatus.active TaskStatus.paused
  blocks : Moves TaskStatus.active TaskStatus.blocked
  completes : Moves TaskStatus.active TaskStatus.complete
  resumes_paused : Moves TaskStatus.paused TaskStatus.active
  resumes_blocked : Moves TaskStatus.blocked TaskStatus.active
  cancels_active : Moves TaskStatus.active TaskStatus.cancelled
  cancels_paused : Moves TaskStatus.paused TaskStatus.cancelled
  cancels_blocked : Moves TaskStatus.blocked TaskStatus.cancelled

-- The counters of a task never go back.
pub record Advances (s t : Store) : Type 0 where
  pub moves : Moves s.task_status t.task_status
  pub revision : s.plan_revision ≤ t.plan_revision
  pub generation : s.generation ≤ t.generation

pub record Quiet (s t : Store) : Type 0 where
  pub advances : Advances s t
  pub same_actions : t.external_actions ≡ s.external_actions
  pub same_isolations : t.isolations ≡ s.isolations
  pub same_work : t.semantic_work ≡ s.semantic_work
  pub same_plan : t.plan ≡ s.plan
  pub same_events : t.isolation_events ≡ s.isolation_events

status_eq_iff : (a b : TaskStatus) → status_eq a b ≡ true → a ≡ b
status_eq_iff a b h = ground arith

-- A new status, and a steer that counts as a new revision.
with_status :
    (status : TaskStatus) (reason : Option String) (s : Store)
    → Moves s.task_status status
    → Quiet s (record s { task_status = status; blocked_reason = reason })
with_status status reason s m = record {
  advances = record { moves = m; revision = omega arith; generation = omega arith };
  same_actions = refl;
  same_isolations = refl;
  same_work = refl;
  same_plan = refl;
  same_events = refl;
}

from_status :
    (expected status : TaskStatus) (s : Store)
    → not (status_eq s.task_status expected) ≡ false
    → Moves expected status
    → Moves s.task_status status
from_status expected status s h m =
    subst (λ x. Moves x status) (sym (status_eq_iff _ _ (not-false _ h))) m

transition-Quiet :
    (expected target : TaskStatus) (s : Store) {t : Store}
    → Moves expected target
    → transition expected target s ≡ ok t
    → Quiet s t
unfolding transition
transition-Quiet expected target s m h =
    let done =
      reject-eq-ok (not (status_eq s.task_status expected)) invalid_status_transition _ h in
    subst (Quiet s) (ok_injective done.1)
      (with_status target none s (from_status expected target s done.0 m))

pub pause-Quiet : (s : Store) {t : Store} → pause s ≡ ok t → Quiet s t
unfolding pause
pause-Quiet s h = transition-Quiet TaskStatus.active TaskStatus.paused s pauses h

pub mark_complete-Quiet : (s : Store) {t : Store} → mark_complete s ≡ ok t → Quiet s t
unfolding mark_complete
mark_complete-Quiet s h = transition-Quiet TaskStatus.active TaskStatus.complete s completes h

pub block-Quiet :
    (redact : String → String) (reason : String) (s : Store) {t : Store}
    → block redact reason s ≡ ok t
    → Quiet s t
unfolding block
block-Quiet redact reason s h =
    let from =
      reject-eq-ok (not (status_eq s.task_status TaskStatus.active)) invalid_status_transition _
        h in
    let done =
      reject-eq-ok (is_empty (clean_text redact 2048 reason)) blank_blocked_reason _ from.1 in
    subst (Quiet s) (ok_injective done.1) (
      with_status TaskStatus.blocked _ s
        (from_status TaskStatus.active TaskStatus.blocked s from.0 blocks))

reactivate-Quiet :
    (status : TaskStatus) (s : Store) {t : Store × TaskStatus × Option String}
    → Moves status TaskStatus.active
    → reactivate status s ≡ ok t
    → Quiet s t.0
unfolding reactivate
reactivate-Quiet status s m h =
    let (u, moved, done) = >>=-eq-ok (transition status TaskStatus.active s) _ h in
    subst (λ (v : Store × TaskStatus × Option String). Quiet s v.0) (ok_injective done)
      (transition-Quiet status TaskStatus.active s m moved)

resume_from-Quiet :
    (status : TaskStatus) (s : Store) {t : Store × TaskStatus × Option String}
    → resume_from status s ≡ ok t
    → Quiet s t.0
unfolding resume_from
resume_from-Quiet TaskStatus.uninitialized s h = cc
resume_from-Quiet TaskStatus.complete s h = cc
resume_from-Quiet TaskStatus.cancelled s h = cc
resume_from-Quiet TaskStatus.active s h =
    subst (λ (v : Store × TaskStatus × Option String). Quiet s v.0) (ok_injective h)
      (with_status s.task_status s.blocked_reason s stays)
resume_from-Quiet TaskStatus.paused s h = reactivate-Quiet TaskStatus.paused s resumes_paused h
resume_from-Quiet TaskStatus.blocked s h = reactivate-Quiet TaskStatus.blocked s resumes_blocked h

pub resume-Quiet : (s : Store) {t : Store} → (resume s >>= λ r. ok r.0) ≡ ok t → Quiet s t
unfolding resume
resume-Quiet s h =
    let (r, resumed, done) = >>=-eq-ok (resume s) _ h in
    let (status, _, rest) = >>=-eq-ok (read_status s) _ resumed in
    subst (Quiet s) (ok_injective done) (resume_from-Quiet status s {t = r} rest)

-- A new list of processes, of steers with a revision, or a new generation.
with_processes : (rows : List Process) (s : Store) → Quiet s (record s { processes = rows })
with_processes rows s = record {
  advances = record { moves = stays; revision = omega arith; generation = omega arith };
  same_actions = refl;
  same_isolations = refl;
  same_work = refl;
  same_plan = refl;
  same_events = refl;
}

pub record_steer-Quiet :
    (fresh text : String) (s : Store) {t : Store × String}
    → record_steer fresh text s ≡ ok t
    → Quiet s t.0
unfolding record_steer
record_steer-Quiet fresh text s h =
    let (clean, _, given) = >>=-eq-ok (normalize_request_authority_text text) _ h in
    let done = reject-eq-ok (is_empty (strip clean)) blank_steer _ given in
    subst (λ (u : Store × String). Quiet s u.0) (ok_injective done.1)
      (record {
        advances = record { moves = stays; revision = omega arith; generation = omega arith };
        same_actions = refl;
        same_isolations = refl;
        same_work = refl;
        same_plan = refl;
        same_events = refl;
      })

pub bump_generation-Quiet : (s : Store) → Quiet s (bump_generation s)
unfolding bump_generation
bump_generation-Quiet s = record {
  advances = record { moves = stays; revision = omega arith; generation = omega arith };
  same_actions = refl;
  same_isolations = refl;
  same_work = refl;
  same_plan = refl;
  same_events = refl;
}

pub upsert_process-Quiet :
    (redact : String → String) (r : Report) (s : Store) → Quiet s (upsert_process redact r s)
unfolding upsert_process
upsert_process-Quiet redact r s = with_processes _ s

pub mark_running_processes_orphaned-Quiet :
    (redact : String → String) (reason : String) (s : Store)
    → Quiet s (mark_running_processes_orphaned redact reason s).0
unfolding mark_running_processes_orphaned
mark_running_processes_orphaned-Quiet redact reason s = with_processes _ s

pub resolve_orphaned_process-Quiet :
    (redact : String → String) (k evidence : String) (s : Store) {t : Store}
    → resolve_orphaned_process redact k evidence s ≡ ok t
    → Quiet s t
unfolding resolve_orphaned_process
resolve_orphaned_process-Quiet redact k evidence s h =
    let given =
      reject-eq-ok (is_empty (strip (scrub_persisted_text redact 2048 evidence))) blank_evidence _
        h in
    let (_, _, done) = >>=-eq-ok (check_resolvable (find_process k s.processes)) _ given.1 in
    subst (Quiet s) (ok_injective done) (with_processes _ s)
