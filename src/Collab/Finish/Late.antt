-- ===== src/Collab/Finish/Late.antt =====
-- scripts/codex_loop_runtime/local_collaboration.py: the result of a worker that lost its lease. Each of
-- the two messages is one text here, less the names and numbers in it.
use codex_loop.Base.{
  ℕ, String, Bool, true, false, ◌&&◌, ◌||◌, not, Option, none, some, List, [], ◌∷◌, any, ◌==◌,
  if◌then◌else◌, str_eq, is_some, Result, ok, err, ◌>>=◌, ◌>>◌, reject,
}
use codex_loop.Collab.{
  Run, Slot, Reclaim, Offer, CollabError, no_reclaim, late_conflict, git_refused, not_materialized,
  unknown_slot,
}
use codex_loop.Collab.Rows.{
  is_opened, is_available, is_claimed, is_text, is_unsettled, find_number, notice,
}
use codex_loop.Collab.Leases.{Git, is_missing}
use codex_loop.Collab.Election.{elect_now}
use codex_loop.Collab.Finish.{finished_slot, record_done}

abbrev pub is_lease : ℕ → String → ℕ → Reclaim → Bool
is_lease number worker generation c =
    c.slot_number == number && str_eq c.old_task_id worker && c.old_generation == generation

-- The last reclaim of this lease.
unfoldable pub find_lease : ℕ → String → ℕ → List Reclaim → Option Reclaim
find_lease number worker generation [] = none
find_lease number worker generation (c ∷ rest) = elim (find_lease number worker generation rest) [
  | some last ↦ some last
  | none ↦ if is_lease number worker generation c then some c else none
]

unfoldable pub lease_row : ℕ → String → ℕ → Run → Result CollabError Reclaim
unfolding find_lease
lease_row number worker generation r = elim (find_lease number worker generation r.reclaims) [
  | none ↦ err no_reclaim
  | some c ↦ ok c
]

-- Whether a result of this lease is recorded, and that no other one is.
unfoldable pub is_resolved : String → Reclaim → Result CollabError Bool
is_resolved commit c = elim c.resolution_commit [
  | none ↦ ok false
  | some other ↦ if str_eq other commit then ok true else err late_conflict
]

unfoldable pub late_checked : Git → String → Reclaim → Result CollabError (Unit {0})
late_checked git commit c = do
  reject (is_missing c.old_worktree) not_materialized
  reject (not (str_eq git.head commit && git.accepts)) git_refused

-- What is read first; `none` where the result is recorded already.
unfoldable pub late_read : String → ℕ → ℕ → String → Git → Run → Result CollabError (Option Reclaim)
unfolding lease_row is_resolved late_checked
late_read worker number generation commit git r = do
  c ← lease_row number worker generation r
  known ← is_resolved commit c
  elim known [ true ↦ ok none | false ↦ do late_checked git commit c; ok (some c) ]

abbrev pub replacement_of : Slot → Option String
replacement_of s = if is_claimed s.status then s.task_id else none

abbrev pub is_party : String → Offer → Bool
is_party worker o = str_eq o.sender worker || is_text o.recipient worker

abbrev pub has_party : Option String → List Offer → Bool
has_party none offers = false
has_party (some worker) offers = any (λ o. is_party worker o) offers

-- `may_accept`
unfoldable pub may_accept : String → Option String → Slot → Run → Bool
may_accept worker start s r =
    is_opened r.state
    && is_some start
    && (is_available s.status || is_claimed s.status)
    && not (has_party (replacement_of s) r.delegations)
    && not (any (λ o. is_party worker o && is_unsettled o) r.delegations)

abbrev pub tell : String → Option String → String → Bool → Run → Run
tell worker none body stops r = r
tell worker (some other) body stops r =
    if str_eq other worker then r else notice worker (some other) body stops r

abbrev pub or_text : Option String → Option String → Option String
or_text none other = other
or_text (some a) other = some a

abbrev pub resolved : String → String → Reclaim → Reclaim
resolved word commit c = record c { resolution = some word; resolution_commit = some commit }

abbrev pub resolve : ℕ → String → String → List Reclaim → List Reclaim
resolve id word commit [] = []
resolve id word commit (c ∷ rest) =
    (if c.id == id then resolved word commit c else c) ∷ resolve id word commit rest

abbrev pub with_resolution : ℕ → String → String → Run → Run
with_resolution id word commit r = record r { reclaims = resolve id word commit r.reclaims }

-- The result becomes that of the slot, and the replacement is told to stop.
unfoldable pub accept_late : String → String → Slot → ℕ → Run → Run
unfolding record_done notice elect_now
accept_late worker commit s now r =
    (elect_now worker now (
      tell worker (replacement_of s) "STOP task slot: verified original worker completed" true
        (record_done worker commit s.number (finished_slot worker commit) r))).0

-- The result stays beside that of the slot.
unfoldable pub preserve_late : String → Slot → Run → Run
unfolding notice
preserve_late worker s r =
    tell worker (or_text (replacement_of s) (or_text s.completed_by r.integrator_task))
      "Late verified result preserved; the accepted task result was NOT replaced" false r

unfoldable pub late_row : ℕ → Run → Result CollabError Slot
unfolding find_number
late_row number r = elim (find_number number r.slots) [ none ↦ err unknown_slot | some s ↦ ok s ]

unfoldable pub resolve_late : String → String → Option String → Reclaim → Slot → ℕ → Run → Run
unfolding may_accept accept_late preserve_late
resolve_late worker commit start c s now r =
    if may_accept worker start s r
    then with_resolution c.id "accepted" commit (accept_late worker commit s now r)
    else with_resolution c.id "preserved" commit (preserve_late worker s r)

-- The second transaction. `start` is the start commit that was read first.
unfoldable pub late_write :
    String → ℕ → ℕ → String → Option String → ℕ → Run → Result CollabError Run
unfolding lease_row is_resolved late_row resolve_late
late_write worker number generation commit start now r = do
  c ← lease_row number worker generation r
  known ← is_resolved commit c
  elim known [
    | true ↦ ok r
    | false ↦ do s ← late_row number r; ok (resolve_late worker commit start c s now r)
  ]

-- `_finish_reclaimed`
unfoldable pub finish_reclaimed :
    String → ℕ → ℕ → String → Git → ℕ → Run → Run → Result CollabError Run
unfolding late_read late_write
finish_reclaimed worker number generation commit git now before after = do
  read ← late_read worker number generation commit git before
  elim read [
    | none ↦ ok after
    | some c ↦ late_write worker number generation commit c.old_start_commit now after
  ]
