-- ===== src/Collab/Integration/Takeover.antt =====
-- scripts/codex_loop_runtime/local_collaboration.py: a stalled integrator is replaced, and what of a
-- collaboration keeps a task from completing.
use codex_loop.Base.{
  ℕ, ◌+◌, String, Bool, true, false, ◌&&◌, ◌||◌, not, Option, none, some, List, [], ◌∷◌, count,
  ◌==◌, if◌then◌else◌, str_eq, is_some, text_append, Result, ok, ◌>>=◌, ◌>>◌, reject,
}
use codex_loop.Collab.{
  Run, RunState, Tail, TailStatus, CollabError, nothing_to_reclaim, lease_not_expired, git_refused,
  intent_changed, lease_renewed,
}
use codex_loop.Collab.Checks.{text, task}
use codex_loop.Collab.Rows.{is_text, is_unsettled, find_held, find_worker, notice, is_opened}
use codex_loop.Collab.Leases.{is_live_lease, same_text}
use codex_loop.Collab.Election.{is_integrating}
use codex_loop.Collab.Integration.{is_integrated}

abbrev pub is_active_tail : Option Tail → Bool
is_active_tail none = false
is_active_tail (some t) = elim t.status [ TailStatus.active ↦ true | _ ↦ false ]

-- What is read first; `none` where the worker integrates already.
unfoldable pub takeover_read :
    String → Bool → String → Bool → ℕ → Run → Result CollabError (String × String × Bool)
unfolding text task
takeover_read given force because is_clean now r = do
  worker ← task given
  reason ← text 1000 because
  reject
      (not (is_integrating r.state) && not (is_integrated r.state && is_active_tail r.serial_tail))
      nothing_to_reclaim
  elim (is_text r.integrator_task worker) [
    | true ↦ ok (worker, reason, true)
    | false ↦ do
      reject (not force && is_live_lease now r.integrator_last_seen) lease_not_expired
      reject (not is_clean) git_refused
      ok (worker, reason, false)
  ]

abbrev pub same_state : RunState → RunState → Bool
same_state RunState.opened b = is_opened b
same_state RunState.integrating b = is_integrating b
same_state RunState.integrated b = is_integrated b

abbrev pub moved_tail : String → Option String → Option Tail → Option Tail
moved_tail worker former none = none
moved_tail worker former (some t) =
    if is_active_tail (some t) && elim former [ none ↦ false | some f ↦ is_text t.owner_task f ]
    then some (record t { owner_task = some worker })
    else some t

abbrev pub takeover_text : String → String → String
takeover_text worker reason =
    text_append "Integrator ownership reclaimed by " (text_append worker (text_append ": " reason))

-- The second transaction; `read` is the run that was read first.
unfoldable pub takeover_write : String → String → Bool → ℕ → Run → Run → Result CollabError Run
unfolding notice
takeover_write worker reason force now read r = do
  reject
      (not (same_text r.integrator_task read.integrator_task)
        || not (r.integrator_generation == read.integrator_generation)
        || not (same_state r.state read.state))
      intent_changed
  reject (not force && is_live_lease now r.integrator_last_seen) lease_renewed
  ok (
      notice worker read.integrator_task (takeover_text worker reason) false (record r {
        integrator_task = some worker;
        integrator_generation = r.integrator_generation + 1;
        integrator_last_seen = some now;
        serial_tail =
            if is_active_tail read.serial_tail
            then moved_tail worker read.integrator_task r.serial_tail
            else r.serial_tail;
      }))

-- `reclaim_integrator`
unfoldable pub reclaim_integrator :
    String → Bool → String → Bool → ℕ → Run → Run → Result CollabError Run
unfolding takeover_read takeover_write
reclaim_integrator given force because is_clean now before after = do
  read ← takeover_read given force because is_clean now before
  if read.2 then ok after else takeover_write read.0 read.1 force now before after

-- `completion_obstacle`, the reasons in the order in which they are tested.
pub data Obstacle : Type 0 where
  delegated : ℕ → Obstacle
  unfinished_work unfinished_integration unfinished_tail : Obstacle

abbrev pub unsettled_of : String → Run → ℕ
unsettled_of worker r = count (λ o. str_eq o.sender worker && is_unsettled o) r.delegations

abbrev pub has_open_tail : String → Option Tail → Bool
has_open_tail worker none = false
has_open_tail worker (some t) =
    is_text t.owner_task worker && elim t.status [ TailStatus.complete ↦ false | _ ↦ true ]

unfoldable pub run_obstacle : String → Run → Option Obstacle
unfolding find_held
run_obstacle worker r =
    if not (unsettled_of worker r == 0)
    then some (delegated (unsettled_of worker r))
    else if is_some (find_held worker r.slots)
    then some unfinished_work
    else if is_integrating r.state && is_text r.integrator_task worker
    then some unfinished_integration
    else if has_open_tail worker r.serial_tail
    then some unfinished_tail
    else none

-- The runs in which the task is registered as a worker.
unfoldable pub completion_obstacle : String → List Run → Option Obstacle
unfolding run_obstacle find_worker
completion_obstacle worker [] = none
completion_obstacle worker (r ∷ rest) =
    if is_some (find_worker worker r.workers)
    then elim (run_obstacle worker r) [ some o ↦ some o | none ↦ completion_obstacle worker rest ]
    else completion_obstacle worker rest
