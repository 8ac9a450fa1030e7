-- ===== src/Collab/Integration.antt =====
-- scripts/codex_loop_runtime/local_collaboration.py: the integrator merges the results, then works through
-- the serial tail. The operations read the run, ask Git, and check the run again in a second transaction.
pub mod Takeover
use codex_loop.Base.{
  ℕ, String, Bool, true, false, ◌&&◌, ◌||◌, not, Option, none, some, List, [], ◌∷◌, any,
  if◌then◌else◌, str_eq, is_some, Result, ok, err, ◌>>=◌, ◌>>◌, reject,
}
use codex_loop.Collab.{
  Run, RunState, Slot, Tail, TailStatus, CollabError, not_integrator, already_attempted,
  git_refused, not_committed, intent_changed, no_candidate, tail_not_owned, tail_not_active,
  other_final_head,
}
use codex_loop.Collab.Checks.{text, task}
use codex_loop.Collab.Rows.{is_done, is_text}
use codex_loop.Collab.Specs.{ordered_slots}
use codex_loop.Collab.Leases.{Git, is_missing, same_text}
use codex_loop.Collab.Election.{is_integrating}

abbrev pub is_integrated : RunState → Bool
is_integrated RunState.integrated = true
is_integrated _ = false

-- The run is being integrated by this worker.
abbrev pub is_mine : String → Run → Bool
is_mine worker r = is_integrating r.state && is_text r.integrator_task worker

-- `prepare_integration`: the slots whose commits are to be picked, in the order of the graph.
unfoldable pub prepare_read : String → Git → Run → Result CollabError (String × List Slot)
unfolding task ordered_slots
prepare_read given git r = do
  worker ← task given
  reject (not (is_mine worker r)) not_integrator
  reject r.integration_attempted already_attempted
  slots ← ordered_slots r.slots
  reject (not git.accepts) git_refused
  reject (any (λ s. not (is_done s.status) || is_missing s.commit_sha) slots) not_committed
  ok (worker, slots)

-- The intent is stored before Git's index or branch changes.
unfoldable pub prepare_intent : String → String → Run → Result CollabError Run
prepare_intent worker start r = do
  reject (r.integration_attempted || not (is_mine worker r)) intent_changed
  ok (record r { integration_attempted = true; integration_start_head = some start })

-- After the picks, which may also stop at a conflict.
unfoldable pub prepare_result : String → String → ℕ → Run → Run
prepare_result worker head now r =
    if is_mine worker r
    then record r { candidate_head = some head; integrator_last_seen = some now }
    else r

-- `integration_resolved`: `git` says that the merge is committed, clean and has every commit.
unfoldable pub resolved_read : String → String → Git → Run → Result CollabError String
unfolding text task
resolved_read given evidence git r = do
  shown ← text 5000 evidence
  reject (not (is_integrating r.state)) not_integrator
  worker ← task given
  reject (not (is_mine worker r) || not r.integration_attempted) not_integrator
  reject (not git.accepts || is_text r.integration_start_head git.head) git_refused
  ok worker

unfoldable pub resolved_write : String → String → ℕ → Run → Result CollabError Run
resolved_write worker head now r = do
  reject (is_some r.candidate_head || not (is_mine worker r)) intent_changed
  ok (record r { candidate_head = some head; integrator_last_seen = some now })

-- `integration_complete`
unfoldable pub complete_check : String → String → Git → Run → Result CollabError (String × String)
unfolding text task
complete_check given evidence git r = do
  worker ← task given
  shown ← text 5000 evidence
  reject
      (not (is_text r.integrator_task worker)
        || not (is_integrating r.state || is_integrated r.state))
      no_candidate
  elim r.candidate_head [
    | none ↦ err no_candidate
    | some head ↦ do
      reject (not (str_eq git.head head && git.accepts)) git_refused
      ok (worker, head)
  ]

abbrev pub is_pending_tail : TailStatus → Bool
is_pending_tail TailStatus.pending = true
is_pending_tail _ = false

abbrev pub given_tail : String → Option Tail → Option Tail
given_tail worker none = none
given_tail worker (some t) =
    if is_pending_tail t.status
    then some (record t { status = TailStatus.active; owner_task = some worker })
    else some t

-- The merged run is closed, and its serial tail goes to the integrator in the same transaction.
abbrev pub integrated : String → ℕ → Run → Run
integrated worker now r =
    if is_integrating r.state
    then record r {
      state = RunState.integrated;
      integrator_last_seen = some now;
      serial_tail = given_tail worker r.serial_tail;
    }
    else r

abbrev pub is_foreign_tail : String → Option Tail → Bool
is_foreign_tail worker none = false
is_foreign_tail worker (some t) = not (is_text t.owner_task worker)

unfoldable pub complete_write_run : String → String → ℕ → Run → Result CollabError Run
complete_write_run worker head now r = do
  reject (not (is_text r.candidate_head head) || not (is_text r.integrator_task worker))
      intent_changed
  reject (not (is_integrating r.state || is_integrated r.state)) intent_changed
  let closed = integrated worker now r
  reject (is_foreign_tail worker closed.serial_tail) tail_not_owned
  ok closed

unfoldable pub integration_complete : String → String → Git → ℕ → Run → Run → Result CollabError Run
unfolding complete_check complete_write_run
integration_complete given evidence git now before after = do
  read ← complete_check given evidence git before
  complete_write_run read.0 read.1 now after

-- `serial_complete`
unfoldable pub serial_read : String → String → Git → Run → Result CollabError (String × String)
unfolding text task
serial_read given given_evidence git r = do
  worker ← task given
  evidence ← text 5000 given_evidence
  reject (not (is_integrated r.state) || not (is_text r.integrator_task worker)) not_integrator
  reject (elim r.serial_tail [ none ↦ true | some t ↦ is_foreign_tail worker (some t) ])
      tail_not_owned
  reject (not git.accepts) git_refused
  ok (worker, evidence)

abbrev pub completed_tail : String → String → Tail → Result CollabError Tail
completed_tail evidence head t = elim t.status [
  | TailStatus.complete ↦ if is_text t.final_head head then ok t else err other_final_head
  | TailStatus.active ↦
      ok (record t {
        status = TailStatus.complete;
        evidence = some evidence;
        final_head = some head;
      })
  | TailStatus.pending ↦ err tail_not_active
]

unfoldable pub serial_write : String → String → String → Run → Result CollabError Run
serial_write worker evidence head r = elim r.serial_tail [
  | none ↦ err tail_not_owned
  | some t ↦ do
    reject (not (is_text t.owner_task worker)) tail_not_owned
    done ← completed_tail evidence head t
    ok (record r { serial_tail = some done })
]

unfoldable pub serial_complete : String → String → Git → Run → Run → Result CollabError Run
unfolding serial_read serial_write
serial_complete given evidence git before after = do
  read ← serial_read given evidence git before
  serial_write read.0 read.1 git.head after
