-- ===== src/Collab/Offers.antt =====
-- scripts/codex_loop_runtime/local_collaboration.py: delegations between the workers of a run.
pub mod Again
pub mod Complete
pub mod Withdraw
use codex_loop.Base.{
  ℕ, ◌+◌, String, Bool, true, false, ◌&&◌, ◌||◌, not, Option, none, some, List, [], ◌∷◌, ◌++◌,
  count, select, length, ◌==◌, if◌then◌else◌, str_eq, is_some, text_append, prefix, Result, ok, err,
  ◌>>=◌, ◌>>◌, reject,
}
use codex_loop.Collab.{
  Run, RunState, Slot, SlotStatus, Offer, OfferStatus, CollabError, self_delegation, key_reused,
  not_active_sender, inactive_recipient, unknown_delegation, not_offered, not_for_worker,
  not_recipient, not_sender, bad_delegation_state, result_changed, invalid_commit, git_refused,
  not_open,
}
use codex_loop.Collab.Checks.{text, task, identifier, is_run_name, is_ref}
use codex_loop.Collab.Rows.{
  is_opened, is_claimed, is_done, is_text, slot_of, notice, shown, is_unsettled,
}
use codex_loop.Collab.Leases.{Git, is_missing, same_text}
use codex_loop.Collab.Election.{Election, elect_now}

abbrev pub is_offered : OfferStatus → Bool
is_offered OfferStatus.offered = true
is_offered _ = false

abbrev pub is_accepted : OfferStatus → Bool
is_accepted OfferStatus.accepted = true
is_accepted _ = false

abbrev pub is_rejected : OfferStatus → Bool
is_rejected OfferStatus.rejected = true
is_rejected _ = false

abbrev pub is_completed : OfferStatus → Bool
is_completed OfferStatus.completed = true
is_completed _ = false

abbrev pub is_cancelled : OfferStatus → Bool
is_cancelled OfferStatus.cancelled = true
is_cancelled _ = false

unfoldable pub find_offer : ℕ → List Offer → Option Offer
find_offer id [] = none
find_offer id (o ∷ rest) = if o.id == id then some o else find_offer id rest

-- `_delegation`
unfoldable pub delegation : ℕ → Run → Result CollabError Offer
unfolding find_offer
delegation id r = elim (find_offer id r.delegations) [
  | none ↦ err unknown_delegation
  | some o ↦ ok o
]

unfoldable pub update_offer : ℕ → (Offer → Offer) → List Offer → List Offer
update_offer id f [] = []
update_offer id f (o ∷ rest) = (if o.id == id then f o else o) ∷ update_offer id f rest

abbrev pub with_offer : ℕ → (Offer → Offer) → Run → Run
with_offer id f r = record r { delegations = update_offer id f r.delegations }

-- `_available_recipient`
unfoldable pub available_recipient : String → Run → Result CollabError (Unit {0})
unfolding slot_of
available_recipient worker r = do
  s ← slot_of worker r
  reject (not (is_claimed s.status) || is_missing s.worktree) inactive_recipient

abbrev pub available_to : Option String → Run → Result CollabError (Unit {0})
available_to none r = ok tt
available_to (some worker) r = available_recipient worker r

unfoldable pub find_request : String → String → List Offer → Option Offer
find_request sender key [] = none
find_request sender key (o ∷ rest) =
    if str_eq o.sender sender && str_eq o.request_key key
    then some o
    else find_request sender key rest

-- A recipient other than the worker itself.
unfoldable pub other_worker : String → Option String → Result CollabError (Option String)
unfolding task
other_worker worker none = ok none
other_worker worker (some given) = do
  recipient ← task given
  reject (str_eq recipient worker) self_delegation
  ok (some recipient)

abbrev pub new_offer : ℕ → String → String → Option String → String → String → Offer
new_offer id sender key recipient title instructions = record {
  id = id;
  sender = sender;
  request_key = key;
  recipient = recipient;
  title = title;
  instructions = instructions;
  status = OfferStatus.offered;
  result = none;
  commit_sha = none;
  reject_reason = none;
}

-- The end of `delegate`, for a request key that is known or new.
unfoldable pub request :
    Option Offer
    → String
    → String
    → Option String
    → String
    → String
    → Slot
    → Run
    → Result CollabError (Run × Offer)
unfolding available_recipient
request (some o) sender key recipient title instructions s r = do
  reject (not (str_eq o.title title && str_eq o.instructions instructions)) key_reused
  ok (r, o)
request none sender key recipient title instructions s r = do
  reject (not (is_opened r.state) || not (is_claimed s.status) || is_missing s.worktree)
      not_active_sender
  available_to recipient r
  let o = new_offer (length r.delegations + 1) sender key recipient title instructions
  ok (record r { delegations = r.delegations ++ o ∷ [] }, o)

-- `delegate`
unfoldable pub delegate :
    String → String → String → String → Option String → Run → Result CollabError (Run × Offer)
unfolding task identifier is_run_name text other_worker slot_of find_request request
delegate worker given_key given_title given_text given r = do
  sender ← task worker
  key ← identifier is_run_name given_key
  title ← text 200 given_title
  instructions ← text 60000 given_text
  recipient ← other_worker sender given
  s ← slot_of sender r
  request (find_request sender key r.delegations) sender key recipient title instructions s r

abbrev pub accepted_by : String → Offer → Offer
accepted_by worker o = record o { status = OfferStatus.accepted; recipient = some worker }

abbrev pub may_take : String → Option String → Bool
may_take worker none = true
may_take worker (some other) = str_eq other worker

-- "Delegation #3 accepted by alice: ", before what the message says.
abbrev pub told : ℕ → String → String → String → String
told id word worker said =
    text_append "Delegation #"
      (text_append (shown id) (text_append word (text_append worker (text_append ": " said))))

-- The answer to a call that repeats one already carried out.
abbrev pub unless_repeated : Bool → Run → Result CollabError Run → Result CollabError Run
unless_repeated repeated r result = if repeated then ok r else result

-- `accept_delegation`
unfoldable pub accept_open : String → ℕ → Offer → Run → Result CollabError Run
unfolding available_recipient update_offer notice
accept_open worker id o r = do
  reject (not (is_opened r.state) || not (is_offered o.status)) not_offered
  reject (str_eq o.sender worker || not (may_take worker o.recipient)) not_for_worker
  available_recipient worker r
  ok (
      notice worker (some o.sender) (told id " accepted by " worker o.title) false
        (with_offer id (accepted_by worker) r))

unfoldable pub accept_delegation : String → ℕ → Run → Result CollabError Run
unfolding task delegation accept_open
accept_delegation given id r = do
  worker ← task given
  o ← delegation id r
  unless_repeated (is_accepted o.status && is_text o.recipient worker) r (accept_open worker id o r)

abbrev pub rejected_for : String → Offer → Offer
rejected_for reason o = record o { status = OfferStatus.rejected; reject_reason = some reason }

unfoldable pub reject_held : String → ℕ → String → Offer → Run → Result CollabError Run
unfolding update_offer notice
reject_held worker id reason o r = do
  reject (not (is_offered o.status || is_accepted o.status) || not (is_opened r.state))
      bad_delegation_state
  ok (
      notice worker (some o.sender)
        (told id " rejected by " worker (text_append reason ". Reoffer or cancel.")) false
        (with_offer id (rejected_for reason) r))

-- `reject_delegation`
unfoldable pub reject_delegation : String → ℕ → String → Run → Result CollabError Run
unfolding task text delegation reject_held
reject_delegation given id because r = do
  worker ← task given
  reason ← text 5000 because
  o ← delegation id r
  reject (not (is_text o.recipient worker)) not_recipient
  unless_repeated (is_rejected o.status) r (reject_held worker id reason o r)

-- `_delegations_for`
unfoldable pub delegations_for : String → Run → List Offer
delegations_for worker r =
    select
      (λ o.
        str_eq o.sender worker
        || is_text o.recipient worker
        || (is_offered o.status && not (is_some o.recipient)))
      r.delegations
