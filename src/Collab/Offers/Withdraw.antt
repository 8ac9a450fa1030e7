-- ===== src/Collab/Offers/Withdraw.antt =====
-- scripts/codex_loop_runtime/local_collaboration.py: a sender offers work again, or withdraws it.
use codex_loop.Base.{
  ℕ, String, ◌&&◌, ◌||◌, not, Option, none, some, if◌then◌else◌, str_eq, Result, ok, ◌>>=◌, ◌>>◌,
  reject,
}
use codex_loop.Collab.{
  Run, Offer, OfferStatus, CollabError, not_sender, bad_delegation_state, not_open,
}
use codex_loop.Collab.Checks.{text, task}
use codex_loop.Collab.Rows.{is_opened, is_done, slot_of}
use codex_loop.Collab.Leases.{same_text}
use codex_loop.Collab.Election.{elect_now}
use codex_loop.Collab.Offers.{
  is_offered, is_rejected, is_cancelled, delegation, update_offer, with_offer, available_recipient,
  available_to, other_worker, unless_repeated,
}

abbrev pub offered_to : Option String → Offer → Offer
offered_to recipient o = record o {
  status = OfferStatus.offered;
  recipient = recipient;
  reject_reason = none;
}

unfoldable pub reoffer : ℕ → Option String → Offer → Run → Result CollabError Run
unfolding available_recipient update_offer
reoffer id recipient o r = do
  reject (not (is_rejected o.status)) bad_delegation_state
  available_to recipient r
  ok (with_offer id (offered_to recipient) r)

-- `reoffer_delegation`
unfoldable pub reoffer_delegation : String → ℕ → Option String → Run → Result CollabError Run
unfolding task other_worker delegation reoffer
reoffer_delegation given id to r = do
  worker ← task given
  recipient ← other_worker worker to
  o ← delegation id r
  reject (not (str_eq o.sender worker)) not_sender
  reject (not (is_opened r.state)) not_open
  unless_repeated (is_offered o.status && same_text o.recipient recipient) r
      (reoffer id recipient o r)

abbrev pub cancelled_for : String → Offer → Offer
cancelled_for reason o = record o { status = OfferStatus.cancelled; result = some reason }

-- Once the offer is withdrawn, a worker that is done may be elected.
unfoldable pub cancel_offer : String → ℕ → String → Offer → ℕ → Run → Result CollabError Run
unfolding update_offer slot_of elect_now
cancel_offer worker id reason o now r = do
  reject (not (is_opened r.state) || not (is_offered o.status || is_rejected o.status))
      bad_delegation_state
  let cleared = with_offer id (cancelled_for reason) r
  s ← slot_of worker cleared
  ok (if is_done s.status then (elect_now worker now cleared).0 else cleared)

-- `cancel_delegation`
unfoldable pub cancel_delegation : String → ℕ → String → ℕ → Run → Result CollabError Run
unfolding task text delegation cancel_offer
cancel_delegation given id because now r = do
  worker ← task given
  reason ← text 5000 because
  o ← delegation id r
  reject (not (str_eq o.sender worker)) not_sender
  unless_repeated (is_cancelled o.status) r (cancel_offer worker id reason o now r)
