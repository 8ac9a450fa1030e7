-- ===== src/Collab/Moves/Offers.antt =====
-- scripts/codex_loop_runtime/local_collaboration.py: the operations on delegations and tasks move a run.
use codex_loop.Base.{
  ℕ, ◌≡◌, refl, String, Bool, true, false, not, not-false, either_false, either_branch, Option,
  none, some, Result, if◌then◌else◌, ◌&&◌, ◌||◌, str_eq, Post, Post-ok, Post-reject, Post-step,
}
use codex_loop.Collab.{Run, Slot, Offer, CollabError}
use codex_loop.Collab.Checks.{text, task, identifier, is_run_name}
use codex_loop.Collab.Rows.{is_opened, is_claimed, is_done, is_text, slot_of, notice}
use codex_loop.Collab.Election.{elect_now}
use codex_loop.Collab.Leases.{is_missing, same_text}
use codex_loop.Collab.Offers.{
  is_offered, is_accepted, is_rejected, is_cancelled, is_completed, request, delegate,
  available_recipient, available_to, find_request, other_worker, accept_open, accept_delegation,
  reject_held, reject_delegation, delegation, unless_repeated, may_take, with_offer,
}
use codex_loop.Collab.Offers.Withdraw.{
  reoffer, reoffer_delegation, cancel_offer, cancel_delegation, cancelled_for,
}
use codex_loop.Collab.Offers.Complete.{complete_held, complete_write, is_same_result}
use codex_loop.Collab.Moves.{Moves, Moves-refl, Moves-trans, IsNumbered}
use codex_loop.Collab.Moves.Rules.{Moves-open_same, Moves-elect_now}

-- An operation that asks for an open run, with the test first or second.
opened_first :
    (r : Run) (b : Bool) → (not (is_opened r.state) || b) ≡ false → is_opened r.state ≡ true
opened_first r b h = not-false (is_opened r.state) (either_false (not (is_opened r.state)) b h).0

opened_last :
    (r : Run) (b : Bool) → (b || not (is_opened r.state)) ≡ false → is_opened r.state ≡ true
opened_last r b h = not-false (is_opened r.state) (either_false b (not (is_opened r.state)) h).1

unless_repeated-Moves :
    (b : Bool) (r : Run) (m : Result CollabError Run)
    → IsNumbered 1 r.slots
    → Post (λ (t : Run). Moves r t) m
    → Post (λ (t : Run). Moves r t) (unless_repeated b r m)
unless_repeated-Moves true r m n h = Post-ok r (Moves-refl r n)
unless_repeated-Moves false r m n h = h

request-Moves :
    (o : Option Offer) (sender key : String) (recipient : Option String)
    (title instructions : String) (s : Slot) (r : Run)
    → IsNumbered 1 r.slots
    → Post
        (λ (x : Run × Offer). Moves r x.0)
        (request o sender key recipient title instructions s r)
unfolding request
request-Moves (some o) sender key recipient title instructions s r n =
    Post-reject (not (str_eq o.title title && str_eq o.instructions instructions)) _ _
      (λ h. Post-ok _ (Moves-refl r n))
request-Moves none sender key recipient title instructions s r n =
    Post-reject (not (is_opened r.state) || not (is_claimed s.status) || is_missing s.worktree) _ _
      (λ active. Post-step (available_to recipient r) _ (λ u h. Post-ok _ (
        Moves-open_same r _ n
          (opened_first r _
            (either_false (not (is_opened r.state) || not (is_claimed s.status))
              (is_missing s.worktree) active).0)
          refl refl)))

pub delegate-Moves :
    (worker key title instructions : String) (given : Option String) (r : Run)
    → IsNumbered 1 r.slots
    → Post (λ (x : Run × Offer). Moves r x.0) (delegate worker key title instructions given r)
unfolding delegate
delegate-Moves worker key title instructions given r n = Post-step (task worker) _ (λ sender h.
    Post-step (identifier is_run_name key) _ (λ k h. Post-step (text 200 title) _ (λ t h.
      Post-step (text 60000 instructions) _ (λ i h.
        Post-step (other_worker sender given) _ (λ recipient h.
          Post-step (slot_of sender r) _ (λ s h.
            request-Moves (find_request sender k r.delegations) sender k recipient t i s r n))))))

pub accept_delegation-Moves :
    (given : String) (id : ℕ) (r : Run)
    → IsNumbered 1 r.slots
    → Post (λ (t : Run). Moves r t) (accept_delegation given id r)
unfolding accept_delegation accept_open notice
accept_delegation-Moves given id r n = Post-step (task given) _ (λ worker h.
    Post-step (delegation id r) _ (λ o h.
      unless_repeated-Moves (is_accepted o.status && is_text o.recipient worker) r _ n (
        Post-reject (not (is_opened r.state) || not (is_offered o.status)) _ _ (λ offered.
          Post-reject (str_eq o.sender worker || not (may_take worker o.recipient)) _ _ (λ h.
            Post-step (available_recipient worker r) _
              (λ u h. Post-ok _ (Moves-open_same r _ n (opened_first r _ offered) refl refl)))))))

pub reject_delegation-Moves :
    (given : String) (id : ℕ) (because : String) (r : Run)
    → IsNumbered 1 r.slots
    → Post (λ (t : Run). Moves r t) (reject_delegation given id because r)
unfolding reject_delegation reject_held notice
reject_delegation-Moves given id because r n = Post-step (task given) _ (λ worker h.
    Post-step (text 5000 because) _ (λ reason h. Post-step (delegation id r) _ (λ o h.
      Post-reject (not (is_text o.recipient worker)) _ _ (λ h.
        unless_repeated-Moves (is_rejected o.status) r _ n (
          Post-reject (not (is_offered o.status || is_accepted o.status) || not (is_opened r.state))
            _ _ (λ held. Post-ok _ (Moves-open_same r _ n (opened_last r _ held) refl refl)))))))

pub reoffer_delegation-Moves :
    (given : String) (id : ℕ) (to : Option String) (r : Run)
    → IsNumbered 1 r.slots
    → Post (λ (t : Run). Moves r t) (reoffer_delegation given id to r)
unfolding reoffer_delegation reoffer
reoffer_delegation-Moves given id to r n = Post-step (task given) _ (λ worker h.
    Post-step (other_worker worker to) _ (λ recipient h. Post-step (delegation id r) _ (λ o h.
      Post-reject (not (str_eq o.sender worker)) _ _ (λ h.
        Post-reject (not (is_opened r.state)) _ _ (λ closed.
          unless_repeated-Moves (is_offered o.status && same_text o.recipient recipient) r _ n (
            Post-reject (not (is_rejected o.status)) _ _ (λ h.
              Post-step (available_to recipient r) _ (λ u h.
                Post-ok _
                  (Moves-open_same r _ n (not-false (is_opened r.state) closed) refl refl)))))))))

cancelled-Moves :
    (worker reason : String) (id now : ℕ) (s : Slot) (r : Run)
    → IsNumbered 1 r.slots
    → is_opened r.state ≡ true
    → Moves r (
        if is_done s.status
        then (elect_now worker now (with_offer id (cancelled_for reason) r)).0
        else with_offer id (cancelled_for reason) r)
cancelled-Moves worker reason id now s r n opened =
    let cleared = Moves-open_same r (with_offer id (cancelled_for reason) r) n opened refl refl in
    either_branch (Moves r) (is_done s.status) _ (with_offer id (cancelled_for reason) r)
      (Moves-trans r (with_offer id (cancelled_for reason) r) _ cleared
        (Moves-elect_now worker now (with_offer id (cancelled_for reason) r) n))
      cleared

pub cancel_delegation-Moves :
    (given : String) (id : ℕ) (because : String) (now : ℕ) (r : Run)
    → IsNumbered 1 r.slots
    → Post (λ (t : Run). Moves r t) (cancel_delegation given id because now r)
unfolding cancel_delegation cancel_offer
cancel_delegation-Moves given id because now r n = Post-step (task given) _ (λ worker h.
    Post-step (text 5000 because) _ (λ reason h. Post-step (delegation id r) _ (λ o h.
      Post-reject (not (str_eq o.sender worker)) _ _ (λ h.
        unless_repeated-Moves (is_cancelled o.status) r _ n (
          Post-reject (not (is_opened r.state) || not (is_offered o.status || is_rejected o.status))
            _ _
            (λ held. Post-step (slot_of worker (with_offer id (cancelled_for reason) r)) _ (λ s h.
              Post-ok _ (cancelled-Moves worker reason id now s r n (opened_first r _ held)))))))))

pub complete_write-Moves :
    (worker : String) (id : ℕ) (result : String) (commit : Option String) (r : Run)
    → IsNumbered 1 r.slots
    → Post (λ (t : Run). Moves r t) (complete_write worker id result commit r)
unfolding complete_write complete_held notice
complete_write-Moves worker id result commit r n = Post-step (delegation id r) _ (λ o h.
    unless_repeated-Moves (is_completed o.status && is_same_result result commit o) r _ n (
      Post-reject
        ((not (is_accepted o.status) || not (is_text o.recipient worker))
          || not (is_opened r.state))
        _ _ (λ held. Post-ok _ (Moves-open_same r _ n (opened_last r _ held) refl refl))))
