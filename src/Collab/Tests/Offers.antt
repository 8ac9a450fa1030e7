-- ===== src/Collab/Tests/Offers.antt =====
-- A worker asks for help, and another takes over its obligations
-- (scripts/codex_loop_runtime/local_collaboration.py).
use codex_loop.Base.{◌≡◌, refl, String, true, none, some, [], ◌∷◌, Result, ok, err}
use codex_loop.Collab.{Run, Offer, OfferStatus, SlotStatus, CollabError, integrity}
use codex_loop.Collab.Tasks.{new_run}
use codex_loop.Collab.Leases.{reclaim_row}
use codex_loop.Collab.Claim.Adopt.{adopt}
use codex_loop.Collab.Offers.{new_offer, delegate, other_worker}
use codex_loop.Collab.Offers.Again.{delegate-again}
use codex_loop.Collab.Tests.{identity, created, some_slot, held}

-- Alice, whose slot has a worktree, asks anyone for help.
abbrev working : Run
working =
    new_run identity true
      (record (some_slot none) {
        number = 1;
        status = SlotStatus.claimed;
        task_id = some "alice";
        worktree = some "/work/alice";
      }
        ∷ [])
      none

abbrev or_asked : Result CollabError (Run × Offer) → Run × Offer
or_asked (ok x) = x
or_asked (err e) = (
  working,
  record {
    id = 0;
    sender = "";
    request_key = "";
    recipient = none;
    title = "";
    instructions = "";
    status = OfferStatus.offered;
    result = none;
    commit_sha = none;
    reject_reason = none;
  },
)

abbrev asked : Run × Offer
asked = or_asked (delegate "alice" "help-1" " review " "read it" none working)

alice_asks : delegate "alice" "help-1" " review " "read it" none working ≡ ok asked
unfolding delegate
alice_asks = refl

recipient_passes : other_worker "alice" (some "bob") ≡ ok (some "bob")
unfolding other_worker
recipient_passes = refl

delegate-again_example :
    delegate "alice" "help-1" " review " "read it" (some "bob") asked.0 ≡ ok asked
delegate-again_example =
    delegate-again "alice" "help-1" " review " "read it" none (some "bob") (some "bob") working
      asked alice_asks recipient_passes

-- A replacement that has asked under the same request key cannot take over the obligations.
abbrev request_of : String → Offer
request_of sender = new_offer 1 sender "help-1" none "review" "read it"

key_clash_blocks :
    adopt "bob"
      (reclaim_row 1 held "alice" "silent" 2000)
      (record created { delegations = request_of "alice" ∷ request_of "bob" ∷ [] })
    ≡ err integrity
unfolding adopt
key_clash_blocks = refl
