-- ===== src/Collab/Pools/Blocked.antt =====
-- scripts/codex_loop_runtime/local_collaboration.py: a worker that could not get the resource of its task
-- hands the task back, and the capacity of the resource is learned from the tasks that run.
use codex_loop.Base.{
  ℕ, ◌+◌, max, min, String, Bool, ◌&&◌, ◌||◌, not, Option, none, some, List, [], ◌∷◌, any, count,
  ◌==◌, if◌then◌else◌, str_eq, member, Result, ok, ◌>>=◌, ◌>>◌, reject,
}
use codex_loop.Collab.{
  Run, Slot, SlotStatus, Cap, CollabError, not_materialized, git_refused, outstanding_delegations,
  assignment_changed, not_governed,
}
use codex_loop.Collab.Checks.{text, identifier, is_task_name}
use codex_loop.Collab.Rows.{is_opened, is_claimed, is_text, is_unsettled, active_owner, update_slot}
use codex_loop.Collab.Tables.{put, put_new}
use codex_loop.Collab.Leases.{is_missing}
use codex_loop.Collab.Pools.{put_cap, find_cap, new_cap}

-- What is read first. `is_clean` says that the worktree is clean and stands at the start commit.
unfoldable pub blocked_read :
    String → ℕ → ℕ → String → String → Bool → Run → Result CollabError (String × Slot)
unfolding identifier is_task_name text active_owner
blocked_read worker number generation given because is_clean r = do
  resource ← identifier is_task_name given
  reason ← text 2000 because
  s ← active_owner worker (some generation) r
  reject (not (s.number == number) || is_missing s.worktree || is_missing s.start_commit)
      not_materialized
  reject (not is_clean) git_refused
  reject (any (λ o. str_eq o.sender worker && is_unsettled o) r.delegations) outstanding_delegations
  ok (resource, s)

-- The other tasks that hold a slot of these pools.
unfoldable pub active_peers : String → List String → List Slot → ℕ
active_peers worker pools slots =
    count (λ s. is_claimed s.status && not (is_text s.task_id worker) && member s.pool_id pools)
      slots

abbrev pub pools_of : Option Cap → Slot → List String
pools_of none s = s.pool_id ∷ []
pools_of (some c) s = c.pools

abbrev pub lowered : Option Cap → ℕ → ℕ
lowered none learned = learned
lowered (some c) learned = min learned c.max_claimed

abbrev pub max_of : Option Cap → Option ℕ
max_of none = none
max_of (some c) = some c.max_claimed

abbrev pub handed_back : Slot → Slot
handed_back s = record s {
  status = SlotStatus.available;
  task_id = none;
  worktree = none;
  start_commit = none;
  last_seen = none;
  lease_generation = s.lease_generation + 1;
}

-- The rows as the second transaction leaves them, once the cap and the number of peers are known.
abbrev pub learned : String → Option Cap → List String → ℕ → ℕ → ℕ → Run → Run
learned resource known pools active number now r = record r {
  learned_resource_caps = put_new resource (max_of known) r.learned_resource_caps;
  resource_caps = put_cap (new_cap resource (lowered known (max 1 active)) pools) r.resource_caps;
  resource_blocks =
      if active == 0 then put resource (now + 60) r.resource_blocks else r.resource_blocks;
  slots = update_slot number handed_back r.slots;
}

unfoldable pub blocked_write : String → ℕ → ℕ → String → ℕ → Run → Result CollabError (Run × ℕ)
unfolding active_owner find_cap active_peers put_cap put update_slot
blocked_write worker number generation resource now r = do
  s ← active_owner worker (some generation) r
  reject (not (s.number == number) || not (is_opened r.state)) assignment_changed
  let known = find_cap resource r.resource_caps
  let pools = pools_of known s
  reject (not (member s.pool_id pools)) not_governed
  let active = active_peers worker pools r.slots
  ok (learned resource known pools active number now r, active)

-- `resource_blocked`. The isolation of the task is aborted between the two transactions, which
-- another program does; other operations may run in between.
unfoldable pub resource_blocked :
    String → ℕ → ℕ → String → String → Bool → ℕ → Run → Run → Result CollabError (Run × ℕ)
unfolding blocked_read blocked_write
resource_blocked worker number generation given because is_clean now before after = do
  read ← blocked_read worker number generation given because is_clean before
  blocked_write worker number generation read.0 now after
