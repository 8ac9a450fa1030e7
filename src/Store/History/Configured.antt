-- ===== src/Store/History/Configured.antt =====
-- The tables of a task from its configuration on (scripts/codex_loop_runtime/state.py).
use codex_loop.Base.{
  String, ◌≡◌, subst, Bool, ◌&&◌, not, none, List, [], ok, >>=-eq-ok, reject-eq-ok, ok_injective,
  is_empty, strip, str_eq, arith,
}
use codex_loop.Store.{Store, Profile, TaskStatus, blank_anchor, anchor_immutable}
use codex_loop.Store.Clean.{validate_task_id, normalize_request_authority_text}
use codex_loop.Store.Status.{configure_task}
use codex_loop.Store.Isolations.{Digest, find_work}
use codex_loop.Store.History.{Op, run}
use codex_loop.Store.History.Invariant.{IsSound, run-IsSound}

empty-IsSound :
    (task_id anchor : String) (profile : Profile) (validation clean_exit : Bool)
    → IsSound (record {
      task_id = task_id;
      request_anchor = anchor;
      profile = profile;
      requires_validation = validation;
      requires_clean_process_exit = clean_exit;
      generation = 0;
      plan = [];
      plan_revision = 0;
      task_status = TaskStatus.active;
      blocked_reason = none;
      cancel_reason = none;
      external_actions = [];
      isolations = [];
      semantic_work = [];
      isolation_events = [];
      processes = [];
      steers = [];
    })
unfolding find_work
empty-IsSound task_id anchor profile validation clean_exit = (
  record { unique_ids = tt; unique_owners = λ k i. omega arith; identified = tt },
  record { one_active = omega arith; bound = λ k w found live. cc },
  (omega arith, omega arith, tt),
  (omega arith, omega arith),
)

configure_task-IsSound :
    (task_id anchor : String) (profile : Profile) (validation clean_exit : Bool) (s : Store)
    {t : Store}
    → configure_task task_id anchor profile validation clean_exit s ≡ ok t
    → IsSound t
unfolding configure_task
configure_task-IsSound task_id anchor profile validation clean_exit s h =
    let (chosen, _, h₁) = >>=-eq-ok (validate_task_id task_id) _ h in
    let (request, _, h₂) = >>=-eq-ok (normalize_request_authority_text anchor) _ h₁ in
    let a = reject-eq-ok (is_empty (strip request)) blank_anchor _ h₂ in
    let b =
      reject-eq-ok (not (is_empty s.request_anchor) && not (str_eq s.request_anchor request))
        anchor_immutable _ a.1 in
    subst IsSound (ok_injective b.1) (empty-IsSound chosen request profile validation clean_exit)

-- Whatever the tables were, and whatever operations follow a configuration that goes through, the
-- tables are in order after them: ledger, isolations, plan and log of events.
pub run-configure_task :
    (redact : String → String) (digest : Digest) (task_id anchor : String) (profile : Profile)
    (validation clean_exit : Bool) (ops : List Op) (s : Store) {t : Store}
    → configure_task task_id anchor profile validation clean_exit s ≡ ok t
    → IsSound (run redact digest ops t)
run-configure_task redact digest task_id anchor profile validation clean_exit ops s {t} h =
    run-IsSound redact digest ops t
      (configure_task-IsSound task_id anchor profile validation clean_exit s h)
