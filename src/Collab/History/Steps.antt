-- ===== src/Collab/History/Steps.antt =====
-- scripts/codex_loop_runtime/local_collaboration.py: every transaction, and so every history, moves a run.
use codex_loop.Base.{refl, List, [], ◌∷◌, Result, ok, err, Post, Post-ok, Post-err}
use codex_loop.Collab.{Run, CollabError}
use codex_loop.Collab.History.{
  Op, connects, joins, publishes, revises, claims, materializes, records_input, beats,
  refreshes_slot, refreshes_integrator, checkpoints, reclaims, blocks, finishes, finishes_late,
  elects, delegates, accepts, rejects, reoffers, cancels, completes, posts, reads, retires, caps,
  operates, reviews, intends, merges, resolves, integrates, completes_tail, takes_over, run_of,
  apply, kept, play,
}
use codex_loop.Collab.Moves.{Moves, Moves-refl, Moves-trans, IsNumbered}
use codex_loop.Collab.Moves.Connect.{connect-Moves}
use codex_loop.Collab.Moves.Leases.{
  heartbeat-Moves, reclaim-Moves, refresh_slot-Moves, refresh_integrator-Moves,
  checkpoint_write-Moves, materialize-Moves, record_input-Moves, blocked_write-Moves,
}
use codex_loop.Collab.Moves.Offers.{
  delegate-Moves, accept_delegation-Moves, reject_delegation-Moves, reoffer_delegation-Moves,
  cancel_delegation-Moves, complete_write-Moves,
}
use codex_loop.Collab.Moves.Tasks.{
  publish_task-Moves, revise_task-Moves, set_resource_cap-Moves, configure_pool_operators-Moves,
  configure_recurring_review-Moves,
}
use codex_loop.Collab.Moves.Settle.{claim-Moves}
use codex_loop.Collab.Moves.Join.{join_run-Moves}
use codex_loop.Collab.Moves.Finish.{finish_write-Moves, late_write-Moves}
use codex_loop.Collab.Moves.Integration.{
  elect-Moves, post_message-Moves, inbox-Moves, retire_worker-Moves, prepare_intent-Moves,
  prepare_result-Moves, resolved_write-Moves, complete_write_run-Moves, serial_write-Moves,
  takeover_write-Moves,
}

run_of-Moves {ℓ} :
    {A : Type ℓ} (r : Run) (m : Result CollabError (Run × A))
    → Post (λ (x : Run × A). Moves r x.0) m
    → Post (λ (t : Run). Moves r t) (run_of m)
run_of-Moves r (ok (t, a)) h = Post-ok t (h.holds (t, a) refl)
run_of-Moves r (err e) h = Post-err e

pub apply-Moves :
    (op : Op) (r : Run) → IsNumbered 1 r.slots → Post (λ (t : Run). Moves r t) (apply op r)
unfolding apply
apply-Moves (connects now) r n = Post-ok _ (connect-Moves now r n)
apply-Moves (joins world w title text now) r n = join_run-Moves world w title text now r n
apply-Moves (publishes w batch g now) r n = publish_task-Moves w batch g now r n
apply-Moves (revises w key u g expected now) r n = revise_task-Moves w key u g expected now r n
apply-Moves (claims world w path waits only now) r n =
    run_of-Moves r _ (claim-Moves world w path waits only now r n)
apply-Moves (materializes w number g path head) r n = materialize-Moves w number g path head r n
apply-Moves (records_input w source) r n = Post-ok _ (record_input-Moves w source r n)
apply-Moves (beats w g now) r n = heartbeat-Moves w g now r n
apply-Moves (refreshes_slot w number g interval now) r n =
    Post-ok _ (refresh_slot-Moves w number g interval now r n)
apply-Moves (refreshes_integrator w g interval now) r n =
    Post-ok _ (refresh_integrator-Moves w g interval now r n)
apply-Moves (checkpoints w g commit note s now) r n =
    checkpoint_write-Moves w g commit note s now r n
apply-Moves (reclaims key force reason now) r n = reclaim-Moves key force reason now r n
apply-Moves (blocks w number g resource now) r n =
    run_of-Moves r _ (blocked_write-Moves w number g resource now r n)
apply-Moves (finishes w commit number g now) r n =
    run_of-Moves r _ (finish_write-Moves w commit number g now r n)
apply-Moves (finishes_late w number g commit start now) r n =
    late_write-Moves w number g commit start now r n
apply-Moves (elects w now) r n = run_of-Moves r _ (elect-Moves w now r n)
apply-Moves (delegates w key title text other) r n =
    run_of-Moves r _ (delegate-Moves w key title text other r n)
apply-Moves (accepts w id) r n = accept_delegation-Moves w id r n
apply-Moves (rejects w id reason) r n = reject_delegation-Moves w id reason r n
apply-Moves (reoffers w id other) r n = reoffer_delegation-Moves w id other r n
apply-Moves (cancels w id reason now) r n = cancel_delegation-Moves w id reason now r n
apply-Moves (completes w id result commit) r n = complete_write-Moves w id result commit r n
apply-Moves (posts w body other) r n = post_message-Moves w body other r n
apply-Moves (reads w ids) r n = run_of-Moves r _ (inbox-Moves w ids r n)
apply-Moves (retires w reason) r n = retire_worker-Moves w reason r n
apply-Moves (caps key limit pools) r n =
    run_of-Moves r _ (set_resource_cap-Moves key limit pools r n)
apply-Moves (operates tasks pools) r n = configure_pool_operators-Moves tasks pools r n
apply-Moves (reviews key pool interval text) r n =
    configure_recurring_review-Moves key pool interval text r n
apply-Moves (intends w start) r n = prepare_intent-Moves w start r n
apply-Moves (merges w head now) r n = Post-ok _ (prepare_result-Moves w head now r n)
apply-Moves (resolves w head now) r n = resolved_write-Moves w head now r n
apply-Moves (integrates w head now) r n = complete_write_run-Moves w head now r n
apply-Moves (completes_tail w evidence head) r n = serial_write-Moves w evidence head r n
apply-Moves (takes_over w reason force now read) r n =
    takeover_write-Moves w reason force now read r n

kept-Moves :
    (r : Run) (m : Result CollabError Run)
    → IsNumbered 1 r.slots
    → Post (λ (t : Run). Moves r t) m
    → Moves r (kept r m)
kept-Moves r (ok t) n h = h.holds t refl
kept-Moves r (err e) n h = Moves-refl r n

pub play-Moves : (ops : List Op) (r : Run) → IsNumbered 1 r.slots → Moves r (play ops r)
unfolding play
play-Moves [] r n = Moves-refl r n
play-Moves (op ∷ ops) r n =
    let first = kept-Moves r (apply op r) n (apply-Moves op r n) in
    Moves-trans r (kept r (apply op r)) _ first
      (play-Moves ops (kept r (apply op r)) first.numbered)
