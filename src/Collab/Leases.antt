-- ===== src/Collab/Leases.antt =====
-- scripts/codex_loop_runtime/local_collaboration.py: the leases of claimed slots. A lease is a task and a
-- generation, which every claim of the slot raises.
use codex_loop.Base.{
  ℕ, ◌+◌, String, Bool, true, false, ◌&&◌, ◌||◌, not, Option, none, some, [], ◌∷◌, ◌++◌, map,
  is_some, length, leb, ◌==◌, if◌then◌else◌, str_eq, Result, ok, err, ◌>>=◌, ◌>>◌, reject,
}
use codex_loop.Collab.{
  Run, RunState, Slot, SlotStatus, Reclaim, CollabError, stale_generation, not_claimed,
  lease_not_expired, not_open, unknown_key, not_materialized, git_refused, invalid_commit,
  assignment_changed,
}
use codex_loop.Collab.Checks.{text, task, identifier, is_run_name, is_ref}
use codex_loop.Collab.Rows.{is_opened, is_claimed, is_text, find_key, update_slot, active_owner}

abbrev pub lease_seconds : ℕ
lease_seconds = 600

abbrev pub priority_reclaim_seconds : ℕ
priority_reclaim_seconds = 1800

abbrev pub seen_at : ℕ → Slot → Slot
seen_at now s = record s { last_seen = some now }

-- Every connection gives those that never gave a sign of life one, before its transaction.
abbrev pub graced : ℕ → Slot → Slot
graced now s = if is_claimed s.status && not (is_some s.last_seen) then seen_at now s else s

abbrev pub is_integration : RunState → Bool
is_integration RunState.opened = false
is_integration _ = true

-- The two updates of `_connection`.
unfoldable pub connect : ℕ → Run → Run
connect now r = record r {
  slots = map (λ s. graced now s) r.slots;
  integrator_last_seen =
      if is_integration r.state && is_some r.integrator_task && not (is_some r.integrator_last_seen)
      then some now
      else r.integrator_last_seen;
}

-- `_touch_owner`
unfoldable pub touch_owner : String → ℕ → ℕ → Run → Result CollabError (Run × Slot)
unfolding active_owner update_slot
touch_owner worker generation now r = do
  s ← active_owner worker (some generation) r
  ok (record r { slots = update_slot s.number (seen_at now) r.slots }, s)

-- The row of a slot whose lease is taken away.
abbrev pub freed : Slot → Slot
freed s =
    if is_claimed s.status
    then record s {
      status = SlotStatus.available;
      task_id = none;
      worktree = none;
      start_commit = none;
      last_seen = none;
      checkpoint_sha = none;
      checkpoint_note = none;
    }
    else s

abbrev pub reclaim_row : ℕ → Slot → String → String → ℕ → Reclaim
reclaim_row id s worker reason now = record {
  id = id;
  slot_number = s.number;
  old_task_id = worker;
  old_worktree = s.worktree;
  old_generation = s.lease_generation;
  checkpoint_sha = s.checkpoint_sha;
  checkpoint_note = s.checkpoint_note;
  reason = reason;
  reclaimed_at = now;
  adopted_by = none;
  old_start_commit = s.start_commit;
  resolution = none;
  resolution_commit = none;
}

abbrev pub held_by : Slot → Result CollabError String
held_by s = elim s.task_id [
  | none ↦ err not_claimed
  | some worker ↦ if is_claimed s.status then ok worker else err not_claimed
]

-- `_reclaim_slot`
unfoldable pub reclaim_slot : Slot → String → ℕ → Run → Result CollabError Run
unfolding update_slot
reclaim_slot s reason now r = do
  worker ← held_by s
  ok (record r {
    reclaims = r.reclaims ++ reclaim_row (length r.reclaims + 1) s worker reason now ∷ [];
    slots = update_slot s.number freed r.slots;
  })

unfoldable pub integrator_heartbeat : ℕ → ℕ → Run → Result CollabError Run
integrator_heartbeat generation now r = do
  reject (not (generation == r.integrator_generation)) stale_generation
  ok (record r { integrator_last_seen = some now })

unfoldable pub slot_heartbeat : String → ℕ → ℕ → Run → Result CollabError Run
unfolding touch_owner
slot_heartbeat owner generation now r = do
  touched ← touch_owner owner generation now r
  ok touched.0

unfoldable pub heartbeat_as : Bool → String → ℕ → ℕ → Run → Result CollabError Run
unfolding integrator_heartbeat slot_heartbeat
heartbeat_as true owner generation now r = integrator_heartbeat generation now r
heartbeat_as false owner generation now r = slot_heartbeat owner generation now r

-- `heartbeat`
unfoldable pub heartbeat : String → ℕ → ℕ → Run → Result CollabError Run
unfolding task heartbeat_as
heartbeat worker generation now r = do
  owner ← task worker
  heartbeat_as (is_text r.integrator_task owner && is_integration r.state) owner generation now r

-- `now - last_seen <= LEASE_SECONDS`, or no sign of life at all.
abbrev pub is_live_lease : ℕ → Option ℕ → Bool
is_live_lease now none = true
is_live_lease now (some seen) = leb now (seen + lease_seconds)

abbrev pub keyed_slot : Option Slot → Result CollabError Slot
keyed_slot none = err unknown_key
keyed_slot (some s) = ok s

-- `reclaim`
unfoldable pub reclaim : String → Bool → String → ℕ → Run → Result CollabError Run
unfolding identifier is_run_name text find_key reclaim_slot
reclaim given force because now r = do
  key ← identifier is_run_name given
  reason ← text 1000 because
  reject (not (is_opened r.state)) not_open
  s ← keyed_slot (find_key key r.slots)
  reject (not (is_claimed s.status)) not_claimed
  reject (not force && is_live_lease now s.last_seen) lease_not_expired
  reclaim_slot s reason now r

-- `activity`: the heartbeat of a slot that is due, which the second connection checks again.
abbrev pub is_due : ℕ → ℕ → Option ℕ → Bool
is_due now interval none = true
is_due now interval (some seen) = leb (seen + interval) now

unfoldable pub refresh_slot : String → ℕ → ℕ → ℕ → ℕ → Run → Run
unfolding update_slot
refresh_slot worker number generation interval now r = record r {
  slots =
      update_slot number
        (λ s.
          if is_text s.task_id worker
            && is_claimed s.status
            && s.lease_generation == generation
            && is_due now interval s.last_seen
          then seen_at now s
          else s)
        r.slots;
}

unfoldable pub refresh_integrator : String → ℕ → ℕ → ℕ → Run → Run
refresh_integrator worker generation interval now r =
    if is_text r.integrator_task worker
      && r.integrator_generation == generation
      && is_integration r.state
      && is_due now interval r.integrator_last_seen
    then record r { integrator_last_seen = some now }
    else r

-- What Git says of a worktree: its HEAD, and whether the checks of the repository, of descent and of a
-- clean worktree that the operation makes all pass.
pub record Git : Type 0 where
  pub head : String
  pub accepts : Bool

abbrev pub is_missing : Option String → Bool
is_missing none = true
is_missing (some x) = false

-- `checkpoint`: what is read first.
unfoldable pub checkpoint_read :
    String → ℕ → String → String → Git → Run → Result CollabError (Slot × String)
unfolding task is_ref text active_owner
checkpoint_read worker generation commit given git r = do
  owner ← task worker
  reject (not (is_ref commit)) invalid_commit
  note ← text 5000 given
  s ← active_owner owner (some generation) r
  reject (is_missing s.start_commit || is_missing s.worktree) not_materialized
  reject (not (str_eq git.head commit && git.accepts)) git_refused
  ok (s, note)

abbrev pub same_text : Option String → Option String → Bool
same_text none none = true
same_text (some a) (some b) = str_eq a b
same_text _ _ = false

abbrev pub checkpointed : String → String → Slot → Slot
checkpointed commit note s = record s { checkpoint_sha = some commit; checkpoint_note = some note }

-- The second transaction, which checks the lease again.
unfoldable pub checkpoint_write :
    String → ℕ → String → String → Slot → ℕ → Run → Result CollabError Run
unfolding touch_owner update_slot
checkpoint_write worker generation commit note s now r = do
  touched ← touch_owner worker generation now r
  reject
      (not (touched.1.number == s.number) || not (same_text touched.1.start_commit s.start_commit))
      assignment_changed
  ok (record touched.0 { slots = update_slot s.number (checkpointed commit note) touched.0.slots })

-- Other operations may run between the two.
unfoldable pub checkpoint :
    String → ℕ → String → String → Git → ℕ → Run → Run → Result CollabError Run
unfolding checkpoint_read checkpoint_write
checkpoint worker generation commit note git now before after = do
  read ← checkpoint_read worker generation commit note git before
  checkpoint_write worker generation commit read.1 read.0 now after
