-- ===== src/Collab/History.antt =====
-- scripts/codex_loop_runtime/local_collaboration.py: any sequence of the transactions of a run. A call that
-- reads first and writes later is the write alone, for whatever it has read, so that other calls may have
-- come in between. A transaction that raises is rolled back.
pub mod Steps
pub mod Lease
pub mod Closed
use codex_loop.Base.{ℕ, String, Bool, Option, List, [], ◌∷◌, ◌≡◌, Result, ok, err}
use codex_loop.Collab.{Run, Slot, CollabError}
use codex_loop.Collab.Specs.{TaskInput}
use codex_loop.Collab.Tasks.{Identity, Updates, create_run, publish_task, revise_task}
use codex_loop.Collab.Leases.{
  connect, heartbeat, reclaim, refresh_slot, refresh_integrator, checkpoint_write,
}
use codex_loop.Collab.Election.{elect}
use codex_loop.Collab.Offers.{delegate, accept_delegation, reject_delegation}
use codex_loop.Collab.Offers.Withdraw.{reoffer_delegation, cancel_delegation}
use codex_loop.Collab.Offers.Complete.{complete_write}
use codex_loop.Collab.Pools.{set_resource_cap, configure_pool_operators, configure_recurring_review}
use codex_loop.Collab.Pools.Blocked.{blocked_write}
use codex_loop.Collab.Claim.{Outside}
use codex_loop.Collab.Claim.Settle.{claim}
use codex_loop.Collab.Claim.Materialize.{materialize, record_input}
use codex_loop.Collab.Join.{open_run, join_run}
use codex_loop.Collab.Finish.{finish_write}
use codex_loop.Collab.Finish.Late.{late_write}
use codex_loop.Collab.Messages.{post_message, inbox, retire_worker}
use codex_loop.Collab.Integration.{
  prepare_intent, prepare_result, resolved_write, complete_write_run, serial_write,
}
use codex_loop.Collab.Integration.Takeover.{takeover_write}

pub data Op : Type 0 where
  connects : ℕ → Op
  joins : Outside → String → String → String → ℕ → Op
  publishes : String → List TaskInput → ℕ → ℕ → Op
  revises : String → String → Updates → ℕ → ℕ → ℕ → Op
  claims : Outside → String → Option String → Bool → Option (List String) → ℕ → Op
  materializes : String → ℕ → ℕ → String → String → Op
  records_input : String → ℕ → Op
  beats : String → ℕ → ℕ → Op
  refreshes_slot : String → ℕ → ℕ → ℕ → ℕ → Op
  refreshes_integrator : String → ℕ → ℕ → ℕ → Op
  checkpoints : String → ℕ → String → String → Slot → ℕ → Op
  reclaims : String → Bool → String → ℕ → Op
  blocks : String → ℕ → ℕ → String → ℕ → Op
  finishes : String → String → ℕ → ℕ → ℕ → Op
  finishes_late : String → ℕ → ℕ → String → Option String → ℕ → Op
  elects : String → ℕ → Op
  delegates : String → String → String → String → Option String → Op
  accepts : String → ℕ → Op
  rejects : String → ℕ → String → Op
  reoffers : String → ℕ → Option String → Op
  cancels : String → ℕ → String → ℕ → Op
  completes : String → ℕ → String → Option String → Op
  posts : String → String → Option String → Op
  reads : String → List ℕ → Op
  retires : String → String → Op
  caps : String → ℕ → List String → Op
  operates : List String → List String → Op
  reviews : String → String → ℕ → String → Op
  intends : String → String → Op
  merges : String → String → ℕ → Op
  resolves : String → String → ℕ → Op
  integrates : String → String → ℕ → Op
  completes_tail : String → String → String → Op
  takes_over : String → String → Bool → ℕ → Run → Op

-- The run with which a history begins: a planned one, or one that a worker opens by `dynamic_join`.
pub data IsStart : Run → Type 0 where
  planned_run :
      (i : Identity) (tasks : List TaskInput) (goal : String) (tail : Option String) (r : Run)
      → create_run i tasks goal tail ≡ ok r
      → IsStart r
  joined_run : (world : Outside) (base : String) → IsStart (open_run world base)

-- The run of an operation that returns more.
abbrev pub run_of {ℓ} : {A : Type ℓ} → Result CollabError (Run × A) → Result CollabError Run
run_of (ok (r, a)) = ok r
run_of (err e) = err e

-- One transaction.
unfoldable pub apply : Op → Run → Result CollabError Run
apply (connects now) r = ok (connect now r)
apply (joins world w title text now) r = join_run world w title text now r
apply (publishes w batch g now) r = publish_task w batch g now r
apply (revises w key u g expected now) r = revise_task w key u g expected now r
apply (claims world w path waits only now) r = run_of (claim world w path waits only now r)
apply (materializes w number g path head) r = materialize w number g path head r
apply (records_input w source) r = ok (record_input w source r)
apply (beats w g now) r = heartbeat w g now r
apply (refreshes_slot w number g interval now) r = ok (refresh_slot w number g interval now r)
apply (refreshes_integrator w g interval now) r = ok (refresh_integrator w g interval now r)
apply (checkpoints w g commit note s now) r = checkpoint_write w g commit note s now r
apply (reclaims key force reason now) r = reclaim key force reason now r
apply (blocks w number g resource now) r = run_of (blocked_write w number g resource now r)
apply (finishes w commit number g now) r = run_of (finish_write w commit number g now r)
apply (finishes_late w number g commit start now) r = late_write w number g commit start now r
apply (elects w now) r = run_of (elect w now r)
apply (delegates w key title text other) r = run_of (delegate w key title text other r)
apply (accepts w id) r = accept_delegation w id r
apply (rejects w id reason) r = reject_delegation w id reason r
apply (reoffers w id other) r = reoffer_delegation w id other r
apply (cancels w id reason now) r = cancel_delegation w id reason now r
apply (completes w id result commit) r = complete_write w id result commit r
apply (posts w body other) r = post_message w body other r
apply (reads w ids) r = run_of (inbox w ids r)
apply (retires w reason) r = retire_worker w reason r
apply (caps key limit pools) r = run_of (set_resource_cap key limit pools r)
apply (operates tasks pools) r = configure_pool_operators tasks pools r
apply (reviews key pool interval text) r = configure_recurring_review key pool interval text r
apply (intends w start) r = prepare_intent w start r
apply (merges w head now) r = ok (prepare_result w head now r)
apply (resolves w head now) r = resolved_write w head now r
apply (integrates w head now) r = complete_write_run w head now r
apply (completes_tail w evidence head) r = serial_write w evidence head r
apply (takes_over w reason force now read) r = takeover_write w reason force now read r

abbrev pub kept : Run → Result CollabError Run → Run
kept r (ok t) = t
kept r (err e) = r

-- The transactions in turn.
unfoldable pub play : List Op → Run → Run
unfolding apply
play [] r = r
play (op ∷ ops) r = play ops (kept r (apply op r))
