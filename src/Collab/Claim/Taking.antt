-- ===== src/Collab/Claim/Taking.antt =====
-- scripts/codex_loop_runtime/local_collaboration.py: `claim`, up to the slot that the worker holds.
use codex_loop.Base.{
  ℕ, ◌+◌, String, Bool, true, false, ◌&&◌, ◌||◌, not, Option, none, some, List, [], ◌∷◌, ◌++◌, any,
  ◌==◌, if◌then◌else◌, str_eq, is_some, text_append, Result, ok, err, ◌>>=◌, ◌>>◌, reject,
}
use codex_loop.Collab.{
  Run, Slot, SlotStatus, Worker, Offer, CollabError, no_claims, unplanned_join, no_eligible_task,
  waiting_for_dependencies, nothing_left, integrity,
}
use codex_loop.Collab.Rows.{
  is_opened, is_available, is_claimed, is_done, is_text, is_unsettled, next_number, update_slot,
  slot_of, active_owner, find_worker, ready_slots, shown,
}
use codex_loop.Collab.Leases.{reclaim_slot}
use codex_loop.Collab.Offers.{is_offered, with_offer, update_offer, accepted_by}
use codex_loop.Collab.Pools.Reviews.{publish_due_reviews}
use codex_loop.Collab.Choose.Final.{choose_slot}
use codex_loop.Collab.Claim.{
  Outside, finished, registered, waiting, Turn, taken, answered, without_waiting, put_waiting,
}

-- A run that is not open any more.
unfoldable pub closed_turn : String → Bool → Option Worker → Run → Result CollabError (Run × Turn)
unfolding slot_of
closed_turn worker true w r = ok (without_waiting worker r, answered (finished r.state))
closed_turn worker false none r = err no_claims
closed_turn worker false (some w) r = do
  s ← slot_of worker r
  ok (r, answered (registered s w r.state))

-- The unique indexes on the tasks of slots, for a row whose task is set.
abbrev pub is_clash : Outside → String → ℕ → List Slot → Bool
is_clash world worker number slots =
    world.is_held_elsewhere || any (λ s. not (s.number == number) && is_text s.task_id worker) slots

abbrev pub assigned : String → ℕ → Slot → Slot
assigned worker now s =
    if is_available s.status
    then record s {
      task_id = some worker;
      status = SlotStatus.claimed;
      lease_generation = s.lease_generation + 1;
      last_seen = some now;
    }
    else s

unfoldable pub assign : Outside → String → ℕ → ℕ → Run → Result CollabError (Run × Turn)
unfolding update_slot active_owner
assign world worker number now r = do
  reject (is_clash world worker number r.slots) integrity
  let held = record r { slots = update_slot number (assigned worker now) r.slots }
  s ← active_owner worker none held
  ok (held, taken s)

-- A stale lease is taken away first.
unfoldable pub vacate : Slot → ℕ → Run → Result CollabError Run
unfolding reclaim_slot
vacate s now r =
    if is_claimed s.status
    then reclaim_slot s "600 seconds without recorded tool activity" now r
    else ok r

-- An offer to anyone, of another worker.
unfoldable pub open_offer : String → List Offer → Option Offer
open_offer worker [] = none
open_offer worker (o ∷ rest) =
    if is_offered o.status && not (is_some o.recipient) && not (str_eq o.sender worker)
    then some o
    else open_offer worker rest

abbrev pub offer_slot : String → ℕ → ℕ → Offer → Slot
offer_slot worker number now o = record {
  number = number;
  title = o.title;
  instructions = o.instructions;
  status = SlotStatus.claimed;
  task_id = some worker;
  worktree = none;
  commit_sha = none;
  task_key = some (text_append "delegation-" (shown number));
  pool_id = "default";
  depends_on = [];
  start_commit = none;
  completed_by = none;
  exclude_workers = [];
  review_of = [];
  isolation_spec = record { role = none; mutation_policy = none; semantic_work = none };
  lease_generation = 1;
  last_seen = some now;
  checkpoint_sha = none;
  checkpoint_note = none;
}

unfoldable pub take_offer : Outside → String → Offer → ℕ → Run → Result CollabError (Run × Turn)
unfolding next_number update_offer active_owner
take_offer world worker o now r = do
  let number = next_number r.slots
  reject (is_clash world worker number r.slots) integrity
  let held =
      with_offer o.id (accepted_by worker)
        (record r { slots = r.slots ++ offer_slot worker number now o ∷ [] })
  s ← active_owner worker none held
  ok (held, taken s)

abbrev pub is_unfinished : Run → Bool
is_unfinished r =
    any (λ s. not (is_done s.status)) r.slots || any (λ o. is_unsettled o) r.delegations

abbrev pub some_of : List Slot → Bool
some_of [] = false
some_of (s ∷ slots) = true

-- Nothing to take: a worker that waits is told whether it should.
unfoldable pub empty_turn : String → Bool → ℕ → Run → Result CollabError (Run × Turn)
unfolding ready_slots
empty_turn worker true now r = ok (
    if is_unfinished r
    then (
      record r { waiting_workers = put_waiting worker now r.waiting_workers },
      answered (waiting r.state),
    )
    else (without_waiting worker r, answered (finished r.state)))
empty_turn worker false now r = do
  reject (some_of (ready_slots r.slots)) no_eligible_task
  reject (any (λ s. is_available s.status) r.slots) waiting_for_dependencies
  err nothing_left

unfoldable pub offer_or_empty :
    Outside → String → Bool → Option Offer → ℕ → Run → Result CollabError (Run × Turn)
unfolding take_offer empty_turn
offer_or_empty world worker waits none now r = empty_turn worker waits now r
offer_or_empty world worker waits (some o) now r = take_offer world worker o now r

unfoldable pub chosen_turn :
    Outside → String → Bool → ℕ → Run → Option Slot → Result CollabError (Run × Turn)
unfolding assign vacate open_offer offer_or_empty
chosen_turn world worker waits now r (some s) = do
  vacated ← vacate s now r
  assign world worker s.number now vacated
chosen_turn world worker waits now r none = do
  reject (not r.planned) unplanned_join
  offer_or_empty world worker waits (open_offer worker r.delegations) now r

unfoldable pub turn_of :
    Outside
    → String
    → Bool
    → Option (List String)
    → ℕ
    → Run
    → Option Slot
    → Result CollabError (Run × Turn)
unfolding closed_turn find_worker publish_due_reviews choose_slot chosen_turn
turn_of world worker waits only now r (some s) = ok (r, taken s)
turn_of world worker waits only now r none =
    if is_opened r.state
    then (let choice = choose_slot world.project worker only now (publish_due_reviews now r) in
        chosen_turn world worker waits now choice.0 choice.1)
    else closed_turn worker waits (find_worker worker r.workers) r
