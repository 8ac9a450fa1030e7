-- ===== src/Store/History/Effects.antt =====
-- Which tables an operation that succeeds may write (scripts/codex_loop_runtime/state.py).
use codex_loop.Base.{
  ℕ, String, ◌≡◌, refl, ap, subst, true, not, Option, none, some, is_some, not-false, is_empty, ok,
  >>=-eq-ok, reject-eq-ok, ok_injective,
}
use codex_loop.Store.{
  Store, TaskStatus, Isolation, duplicate_isolation, nested_isolation, blank_event_kind,
  event_too_large, unknown_isolation, blank_abort_reason, cannot_cancel,
}
use codex_loop.Store.Clean.{clean_text}
use codex_loop.Store.Events.{
  IsBounded, log_event-IsBounded, prune, prune-count, keep_warnings, keep_other,
}
use codex_loop.Store.Status.{ensure_active, is_resumable}
use codex_loop.Store.Cancel.{first_active, aborted_event, abort_active, cancel}
use codex_loop.Store.External.{check_request}
use codex_loop.Store.External.Transact.{record_external}
use codex_loop.Store.External.Guards.{record_request_parts}
use codex_loop.Store.Isolations.{
  Digest, Proposal, SemanticSpec, effective_request_sha256, find_isolation, find_work,
  check_proposal, add_work, insert_isolation, create_isolation, new_event,
}
use codex_loop.Store.Isolations.Authority.{finish_parts}
use codex_loop.Store.Isolations.Finish.{
  finished, Outcome, or_current, require_active, record_isolation_event, finish_isolation,
  abort_isolation,
}

pub record_external_effect :
    (redact : String → String) (fresh kind state : String) (identity details : Option String)
    (action_class : String) (action_id : Option String) (s : Store) {t : Store × String}
    → record_external redact fresh kind state identity details action_class action_id s ≡ ok t
    → t.0 ≡ record s { external_actions = t.0.external_actions }
unfolding record_external
record_external_effect redact fresh kind state identity details action_class action_id s {t} h =
    let (q, _, rest) =
      >>=-eq-ok (check_request redact fresh kind state identity details action_class action_id) _
        h in
    let (_, _, _, e) = record_request_parts q s {t = t} rest in e

-- The tables of isolations are the only ones that the operations on them write.
abbrev pub WritesIsolations : Store → Store → Type 0
WritesIsolations s t = t ≡ record s {
  isolations = t.isolations;
  semantic_work = t.semantic_work;
  isolation_events = t.isolation_events;
}

add_work_effect :
    (request : String) (i : Isolation) (semantic : Option SemanticSpec) (s : Store) {t : Store}
    → add_work request i semantic s ≡ ok t
    → WritesIsolations s t
unfolding add_work
add_work_effect request i none s h = subst (WritesIsolations s) (ok_injective h) refl
add_work_effect request i (some w) s h =
    let added =
      reject-eq-ok (is_some (find_work i.isolation_id s.semantic_work)) duplicate_isolation _ h in
    subst (WritesIsolations s) (ok_injective added.1) refl

insert_isolation_effect :
    (request : String) (i : Isolation) (semantic : Option SemanticSpec) (s : Store) {t : Store}
    → insert_isolation request i semantic s ≡ ok t
    → IsBounded 64 448 t.isolation_events × WritesIsolations s t
unfolding insert_isolation
insert_isolation_effect request i semantic s h =
    let idle = reject-eq-ok (is_some (first_active s.isolations)) nested_isolation _ h in
    let fresh =
      reject-eq-ok (is_some (find_isolation i.isolation_id s.isolations)) duplicate_isolation _
        idle.1 in
    let (t, added, done) = >>=-eq-ok (add_work request i semantic _) _ fresh.1 in
    let e = add_work_effect request i semantic _ added in
    let e' = ok_injective done in
    (
      subst (λ (u : Store). IsBounded 64 448 u.isolation_events) e'
          (prune-count keep_warnings keep_other t.isolation_events),
      subst (WritesIsolations s) e' (
          ap {A = Store}
            (λ (u : Store). record u {
              isolation_events = prune keep_warnings keep_other t.isolation_events;
            })
            e),
    )

pub create_isolation_effect :
    (redact : String → String) (digest : Digest) (p : Proposal) (s : Store) {t : Store × Isolation}
    → create_isolation redact digest p s ≡ ok t
    → IsBounded 64 448 t.0.isolation_events × WritesIsolations s t.0
unfolding create_isolation
create_isolation_effect redact digest p s {t} h =
    let (_, _, allowed) = >>=-eq-ok (ensure_active s) _ h in
    let ((i, semantic), _, rest) = >>=-eq-ok (check_proposal redact p) _ allowed in
    let (u, inserted, done) =
      >>=-eq-ok (insert_isolation (effective_request_sha256 digest s) i semantic s) _ rest in
    subst
      (λ (v : Store × Isolation). IsBounded 64 448 v.0.isolation_events × WritesIsolations s v.0)
      (ok_injective done)
      (insert_isolation_effect (effective_request_sha256 digest s) i semantic s inserted)

pub record_isolation_event_effect :
    (redact : String → String) (k kind : String) (details : Option String) (s : Store) {t : Store}
    → record_isolation_event redact k kind details s ≡ ok t
    → IsBounded 64 448 t.isolation_events × (t ≡ record s { isolation_events = t.isolation_events })
unfolding record_isolation_event
record_isolation_event_effect redact k kind details s h =
    let named = reject-eq-ok (is_empty (clean_text redact 128 kind)) blank_event_kind _ h in
    let small = reject-eq-ok _ event_too_large _ named.1 in
    let known =
      reject-eq-ok (not (is_some (find_isolation k s.isolations))) unknown_isolation _ small.1 in
    subst
      (λ (u : Store).
        IsBounded 64 448 u.isolation_events
        × (u ≡ record s { isolation_events = u.isolation_events }))
      (ok_injective known.1)
      (
        log_event-IsBounded (new_event k (clean_text redact 128 kind) s.generation details)
            s.isolation_events,
        refl,
      )

pub finish_isolation_effect :
    (digest : Digest) (k : String) (o : Outcome) (s : Store) {t : Store}
    → finish_isolation digest k o s ≡ ok t
    → IsBounded 64 448 t.isolation_events × WritesIsolations s t
unfolding finished
finish_isolation_effect digest k o s h =
    subst (λ (u : Store). IsBounded 64 448 u.isolation_events × WritesIsolations s u)
      (finish_parts digest k o s h).4
      (log_event-IsBounded (new_event k "finished" o.exit_generation none) s.isolation_events, refl)

pub abort_isolation_effect :
    (redact : String → String) (k reason : String) (g : Option ℕ) (s : Store) {t : Store}
    → abort_isolation redact k reason g s ≡ ok t
    → IsBounded 64 448 t.isolation_events × WritesIsolations s t
unfolding abort_isolation
abort_isolation_effect redact k reason g s h =
    let given = reject-eq-ok (is_empty (clean_text redact 4096 reason)) blank_abort_reason _ h in
    let (_, _, done) = >>=-eq-ok (require_active (find_isolation k s.isolations)) _ given.1 in
    subst (λ (u : Store). IsBounded 64 448 u.isolation_events × WritesIsolations s u)
      (ok_injective done)
      (
        log_event-IsBounded (new_event k "aborted" (or_current g s.generation) none)
            s.isolation_events,
        refl,
      )

abort_active_effect :
    (o : Option Isolation) (s : Store)
    → (IsBounded 64 448 s.isolation_events → IsBounded 64 448 (abort_active o s).isolation_events)
      × WritesIsolations s (abort_active o s)
unfolding abort_active
abort_active_effect none s = (λ b. b, refl)
abort_active_effect (some i) s =
    (λ _. log_event-IsBounded (aborted_event i.isolation_id s.generation) s.isolation_events, refl)

pub cancel_effect :
    (redact : String → String) (reason : Option String) (s : Store) {t : Store}
    → cancel redact reason s ≡ ok t
    → (IsBounded 64 448 s.isolation_events → IsBounded 64 448 t.isolation_events)
      × (is_resumable s.task_status ≡ true)
      × (t.task_status ≡ TaskStatus.cancelled)
      × (t.plan ≡ s.plan)
      × (t.plan_revision ≡ s.plan_revision)
      × (t.generation ≡ s.generation)
unfolding cancel
cancel_effect redact reason s {t} h =
    let done = reject-eq-ok (not (is_resumable s.task_status)) cannot_cancel _ h in
    let (bounded, e) = abort_active_effect (first_active s.isolations) s in
    subst
      (λ (u : Store).
        (IsBounded 64 448 s.isolation_events → IsBounded 64 448 u.isolation_events)
        × (is_resumable s.task_status ≡ true)
        × (u.task_status ≡ TaskStatus.cancelled)
        × (u.plan ≡ s.plan)
        × (u.plan_revision ≡ s.plan_revision)
        × (u.generation ≡ s.generation))
      (ok_injective done.1)
      (
        bounded,
        not-false _ done.0,
        refl,
        ap (λ (u : Store). u.plan) e,
        ap (λ (u : Store). u.plan_revision) e,
        ap (λ (u : Store). u.generation) e,
      )
