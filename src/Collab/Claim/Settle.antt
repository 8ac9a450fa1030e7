-- ===== src/Collab/Claim/Settle.antt =====
-- scripts/codex_loop_runtime/local_collaboration.py: `claim`, from the slot that the worker holds to the
-- end of the transaction.
use codex_loop.Base.{
  ℕ, String, Bool, true, false, ◌&&◌, ◌||◌, not, Option, none, some, List, [], ◌∷◌, ◌++◌, any, ◌==◌,
  if◌then◌else◌, str_eq, is_some, Result, ok, ◌>>=◌, ◌>>◌, reject,
}
use codex_loop.Collab.{
  Run, RunState, Slot, Worker, CollabError, stop_pending, wrong_parent, two_worktrees,
  other_worktree, worktree_taken, integrity,
}
use codex_loop.Collab.Checks.{task}
use codex_loop.Collab.Rows.{is_claimed, update_slot, active_owner, find_held, find_worker, stopped}
use codex_loop.Collab.Leases.{seen_at}
use codex_loop.Collab.Claim.{
  Outside, Turn, taken, answered, Claimed, granted, no_slot, without_waiting,
}
use codex_loop.Collab.Claim.Taking.{turn_of}
use codex_loop.Collab.Claim.Adopt.{last_reclaim, recover}

abbrev pub first_generation : Slot → Slot
first_generation s = record s { lease_generation = 1 }

-- A slot that was registered without a lease gets its first.
unfoldable pub leased : String → Slot → Run → Result CollabError (Run × Slot)
unfolding update_slot active_owner
leased worker s r = elim (s.lease_generation == 0) [
  | false ↦ ok (r, s)
  | true ↦ do
    let first = record r { slots = update_slot s.number first_generation r.slots }
    t ← active_owner worker none first
    ok (first, t)
]

unfoldable pub touched : ℕ → Slot → Run → Run
unfolding update_slot
touched now s r =
    if is_claimed s.status
    then record r { slots = update_slot s.number (seen_at now) r.slots }
    else r

abbrev pub path_of : Outside → Option String → Option Worker → String
path_of world (some path) w = path
path_of world none none = world.own_path
path_of world none (some w) = w.worktree

abbrev pub differs : Option String → String → Bool
differs none path = false
differs (some stored) path = not (str_eq stored path)

abbrev pub is_other_worktree : Option String → Option Worker → Bool
is_other_worktree (some path) (some w) = not (str_eq path w.worktree)
is_other_worktree _ _ = false

abbrev pub is_active : RunState → Bool
is_active RunState.integrated = false
is_active _ = true

unfoldable pub is_competing : Outside → String → String → Run → Bool
is_competing world worker path r =
    world.is_taken path
    || (is_active r.state
        && any (λ w. str_eq w.worktree path && not (str_eq w.task_id worker)) r.workers)

-- A worker is registered with its worktree when it first claims.
unfoldable pub register : Outside → String → String → Option Worker → Run → Result CollabError Run
unfolding is_competing
register world worker path (some w) r = ok r
register world worker path none r = do
  reject (is_competing world worker path r) worktree_taken
  reject (any (λ w. str_eq w.worktree path) r.workers) integrity
  ok (record r {
    workers = r.workers ++ record { task_id = worker; worktree = path; last_commit = none } ∷ [];
  })

abbrev pub expected : Option Worker → Slot → Option String
expected none s = none
expected (some w) s = if is_some s.start_commit then none else w.last_commit

unfoldable pub settle :
    Outside → String → Option String → ℕ → Slot → Run → Result CollabError (Run × Claimed)
unfolding leased touched find_worker register last_reclaim recover
settle world worker existing now held r = do
  let w = find_worker worker r.workers
  lease ← leased worker held (without_waiting worker r)
  let s = lease.1
  let path = path_of world existing w
  reject (is_other_worktree existing w) two_worktrees
  reject (differs s.worktree path) other_worktree
  known ← register world worker path w (touched now s lease.0)
  recovered ← recover worker (last_reclaim s.number known.reclaims) known
  ok (
    recovered.0,
    granted
        (record { slot = s; path = path; recovery = recovered.1; expected_head = expected w s }),
  )

unfoldable pub settle_turn :
    Outside → String → Option String → ℕ → Run × Turn → Result CollabError (Run × Claimed)
unfolding settle
settle_turn world worker existing now (r, taken s) = settle world worker existing now s r
settle_turn world worker existing now (r, answered a) = ok (r, no_slot a)

-- `claim`: the first transaction.
unfoldable pub claim :
    Outside
    → String
    → Option String
    → Bool
    → Option (List String)
    → ℕ
    → Run
    → Result CollabError (Run × Claimed)
unfolding task stopped find_held turn_of settle_turn
claim world given existing waits only now r = do
  worker ← task given
  reject (stopped worker r) stop_pending
  reject (not (str_eq world.parent r.worktree_parent)) wrong_parent
  turn ← turn_of world worker waits only now r (find_held worker r.slots)
  settle_turn world worker existing now turn
