-- ===== src/Collab/Moves/Integration.antt =====
-- scripts/codex_loop_runtime/local_collaboration.py: messages, elections and the steps of the integration
-- move a run.
use codex_loop.Base.{
  ℕ, ◌≡◌, refl, sym, inl, inr, String, Bool, true, false, not, either_branch, Option, none, some,
  List, [], ◌∷◌, Bool-cases, ok, err, ◌>>=◌, ◌>>◌, reject, ◌&&◌, ◌||◌, ◌==◌, any, is_some, Post,
  Post-ok, Post-err, Post-reject, Post-bind, Post-step, Post-map,
}
use codex_loop.Collab.{Run, RunState, Slot, Tail, Message, tail_not_owned}
use codex_loop.Collab.Checks.{text, task}
use codex_loop.Collab.Rows.{is_opened, is_done, is_text, find_worker, slot_of, notice, is_of}
use codex_loop.Collab.Election.{Election, elect, is_integrating}
use codex_loop.Collab.Tables.{has_entry, put_new}
use codex_loop.Collab.Messages.{
  post_message, check_task, check_recipient, acknowledge, is_addressed, inbox, retire_worker,
  put_receipt, stop_text,
}
use codex_loop.Collab.Integration.{
  prepare_intent, prepare_result, is_mine, resolved_write, complete_write_run, integrated,
  is_integrated, is_foreign_tail, serial_write, completed_tail,
}
use codex_loop.Collab.Integration.Takeover.{takeover_write, same_state}
use codex_loop.Collab.Leases.{is_live_lease, same_text}
use codex_loop.Collab.Moves.{Moves, Moves-refl, Moves-trans, IsNumbered}
use codex_loop.Collab.Moves.Rules.{Moves-keep, Moves-elect_now}

pub elect-Moves :
    (given : String) (now : ℕ) (r : Run)
    → IsNumbered 1 r.slots
    → Post (λ (x : Run × Election). Moves r x.0) (elect given now r)
unfolding elect
elect-Moves given now r n = Post-step (task given) _ (λ worker h.
    Post-step (slot_of worker r) _ (λ s h.
      Post-reject (not (is_done s.status)) _ _ (λ h. Post-ok _ (Moves-elect_now worker now r n))))

pub post_message-Moves :
    (worker given : String) (recipient : Option String) (r : Run)
    → IsNumbered 1 r.slots
    → Post (λ (t : Run). Moves r t) (post_message worker given recipient r)
unfolding post_message notice
post_message-Moves worker given recipient r n = Post-step (task worker) _ (λ t h.
    Post-step (check_task recipient) _ (λ u h. Post-step (slot_of worker r) _ (λ s h.
      Post-step (check_recipient recipient r) _ (λ u h.
        Post-step (text 30000 given) _ (λ body h. Post-ok _ (Moves-keep r _ n refl refl refl))))))

acknowledge-Moves :
    (worker : String) (ids : List ℕ) (r : Run)
    → IsNumbered 1 r.slots
    → Post (λ (t : Run). Moves r t) (acknowledge worker ids r)
unfolding acknowledge
acknowledge-Moves worker [] r n = Post-ok r (Moves-refl r n)
acknowledge-Moves worker (id ∷ ids) r n =
    Post-reject (not (any (λ (m : Message). m.id == id && is_addressed worker m) r.messages)) _ _
      (λ h.
        Post-map
          (acknowledge-Moves worker ids (record r { receipts = put_receipt id worker r.receipts })
            n)
          (λ t moves. Moves-trans r _ t (Moves-keep r _ n refl refl refl) moves))

pub inbox-Moves :
    (worker : String) (ids : List ℕ) (r : Run)
    → IsNumbered 1 r.slots
    → Post (λ (x : Run × List Message). Moves r x.0) (inbox worker ids r)
unfolding inbox
inbox-Moves worker ids r n = Post-step (task worker) _ (λ t h.
    Post-reject
      (not (any (λ (s : Slot). is_of worker s) r.slots)
        && not (is_some (find_worker worker r.workers)))
      _ _
      (λ h.
        Post-bind (acknowledge worker ids r) _ (acknowledge-Moves worker ids r n)
          (λ acked moves. Post-ok _ moves)))

pub retire_worker-Moves :
    (given because : String) (r : Run)
    → IsNumbered 1 r.slots
    → Post (λ (t : Run). Moves r t) (retire_worker given because r)
unfolding retire_worker notice
retire_worker-Moves given because r n = Post-step (task given) _ (λ worker h.
    Post-step (text 1000 because) _ (λ reason h.
      Post-reject (not (is_some (find_worker worker r.workers))) _ _ (λ h. Post-ok _ (
        either_branch (Moves r) (has_entry worker r.retired_workers) r
          (notice "run-operator" (some worker) (stop_text reason) true
            (record r { retired_workers = put_new worker reason r.retired_workers }))
          (Moves-refl r n) (Moves-keep r _ n refl refl refl)))))

pub prepare_intent-Moves :
    (worker start : String) (r : Run)
    → IsNumbered 1 r.slots
    → Post (λ (t : Run). Moves r t) (prepare_intent worker start r)
unfolding prepare_intent
prepare_intent-Moves worker start r n =
    Post-reject (r.integration_attempted || not (is_mine worker r)) _ _
      (λ h. Post-ok _ (Moves-keep r _ n refl refl refl))

pub prepare_result-Moves :
    (worker head : String) (now : ℕ) (r : Run)
    → IsNumbered 1 r.slots
    → Moves r (prepare_result worker head now r)
unfolding prepare_result
prepare_result-Moves worker head now r n =
    either_branch (Moves r) (is_mine worker r)
      (record r { candidate_head = some head; integrator_last_seen = some now }) r
      (Moves-keep r _ n refl refl refl) (Moves-refl r n)

pub resolved_write-Moves :
    (worker head : String) (now : ℕ) (r : Run)
    → IsNumbered 1 r.slots
    → Post (λ (t : Run). Moves r t) (resolved_write worker head now r)
unfolding resolved_write
resolved_write-Moves worker head now r n =
    Post-reject (is_some r.candidate_head || not (is_mine worker r)) _ _
      (λ h. Post-ok _ (Moves-keep r _ n refl refl refl))

integrating_closed : (s : RunState) → is_integrating s ≡ true → is_opened s ≡ false
integrating_closed RunState.integrating h = refl
integrating_closed RunState.opened h = sym h
integrating_closed RunState.integrated h = refl

integrated-Moves :
    (worker : String) (now : ℕ) (r : Run) → IsNumbered 1 r.slots → Moves r (integrated worker now r)
integrated-Moves worker now r n = elim (Bool-cases (is_integrating r.state)) [
  | inl hit ↦ rw hit (Moves-keep r _ n (sym (integrating_closed r.state hit)) refl refl)
  | inr miss ↦ rw miss (Moves-refl r n)
]

pub complete_write_run-Moves :
    (worker head : String) (now : ℕ) (r : Run)
    → IsNumbered 1 r.slots
    → Post (λ (t : Run). Moves r t) (complete_write_run worker head now r)
unfolding complete_write_run
complete_write_run-Moves worker head now r n =
    Post-reject (not (is_text r.candidate_head head) || not (is_text r.integrator_task worker)) _ _
      (λ h. Post-reject (not (is_integrating r.state || is_integrated r.state)) _ _ (λ h.
        Post-reject (is_foreign_tail worker (integrated worker now r).serial_tail) _ _
          (λ h. Post-ok _ (integrated-Moves worker now r n))))

pub serial_write-Moves :
    (worker evidence head : String) (r : Run)
    → IsNumbered 1 r.slots
    → Post (λ (t : Run). Moves r t) (serial_write worker evidence head r)
unfolding serial_write
serial_write-Moves worker evidence head r n = go r.serial_tail
  where
    go :
        (tail : Option Tail)
        → Post
            (λ (t : Run). Moves r t)
            (elim tail [
              | none ↦ err tail_not_owned
              | some t ↦ do
                reject (not (is_text t.owner_task worker)) tail_not_owned
                done ← completed_tail evidence head t
                ok (record r { serial_tail = some done })
            ])
    go none = Post-err _
    go (some t) = Post-reject (not (is_text t.owner_task worker)) _ _ (λ h.
        Post-step (completed_tail evidence head t) _
          (λ done h. Post-ok _ (Moves-keep r _ n refl refl refl)))

pub takeover_write-Moves :
    (worker reason : String) (force : Bool) (now : ℕ) (read r : Run)
    → IsNumbered 1 r.slots
    → Post (λ (t : Run). Moves r t) (takeover_write worker reason force now read r)
unfolding takeover_write notice
takeover_write-Moves worker reason force now read r n =
    Post-reject
      (not (same_text r.integrator_task read.integrator_task)
        || not (r.integrator_generation == read.integrator_generation)
        || not (same_state r.state read.state))
      _ _
      (λ h.
        Post-reject (not force && is_live_lease now r.integrator_last_seen) _ _
          (λ h. Post-ok _ (Moves-keep r _ n refl refl refl)))
