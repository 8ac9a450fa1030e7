-- ===== src/Collab/Claim/Adopt.antt =====
-- scripts/codex_loop_runtime/local_collaboration.py: whoever claims a reclaimed slot takes over the
-- obligations of the worker that lost it.
use codex_loop.Base.{
  ℕ, String, Bool, ◌&&◌, ◌||◌, not, Option, none, some, List, [], ◌∷◌, map, any, ◌==◌,
  if◌then◌else◌, str_eq, Result, ok, ◌>>=◌, ◌>>◌, reject,
}
use codex_loop.Collab.{Run, Reclaim, Offer, OfferStatus, CollabError, integrity}
use codex_loop.Collab.Rows.{is_text, is_unsettled}
use codex_loop.Collab.Offers.{is_accepted, is_rejected}

abbrev pub later : Option Reclaim → Reclaim → Option Reclaim
later none c = some c
later (some last) c = some last

-- `WHERE slot_number=? ORDER BY id DESC LIMIT 1`
unfoldable pub last_reclaim : ℕ → List Reclaim → Option Reclaim
last_reclaim number [] = none
last_reclaim number (c ∷ rest) = elim (last_reclaim number rest) [
  | none ↦ if c.slot_number == number then some c else none
  | some last ↦ some last
]

abbrev pub passes_on : String → Offer → Bool
passes_on former o = str_eq o.sender former && is_unsettled o

abbrev pub resent : String → String → Offer → Offer
resent former worker o = if passes_on former o then record o { sender = worker } else o

abbrev pub reopened : String → Offer → Offer
reopened former o =
    if is_text o.recipient former && (is_accepted o.status || is_rejected o.status)
    then record o {
      status = OfferStatus.offered;
      recipient = none;
      reject_reason = some "recipient lease reclaimed";
    }
    else o

-- `UNIQUE(run_id, sender, request_key)`, when the sender of rows changes.
unfoldable pub is_key_clash : String → String → List Offer → Bool
is_key_clash former worker offers =
    not (str_eq former worker)
    && any
        (λ o.
          passes_on former o
          && any (λ p. str_eq p.sender worker && str_eq p.request_key o.request_key) offers)
        offers

abbrev pub adopted : ℕ → String → List Reclaim → List Reclaim
adopted id worker [] = []
adopted id worker (c ∷ rest) =
    (if c.id == id then record c { adopted_by = some worker } else c) ∷ adopted id worker rest

unfoldable pub adopt : String → Reclaim → Run → Result CollabError Run
unfolding is_key_clash
adopt worker c r = do
  reject (is_key_clash c.old_task_id worker r.delegations) integrity
  ok (record r {
    delegations = map (λ o. reopened c.old_task_id (resent c.old_task_id worker o)) r.delegations;
    reclaims = adopted c.id worker r.reclaims;
  })

-- The recovery of a slot, adopted unless it has been.
unfoldable pub recover : String → Option Reclaim → Run → Result CollabError (Run × Option Reclaim)
unfolding adopt
recover worker none r = ok (r, none)
recover worker (some c) r = elim c.adopted_by [
  | some other ↦ ok (r, some c)
  | none ↦ do r' ← adopt worker c r; ok (r', some (record c { adopted_by = some worker }))
]
