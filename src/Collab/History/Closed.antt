-- ===== src/Collab/History/Closed.antt =====
-- scripts/codex_loop_runtime/local_collaboration.py: when the integration of a run may begin.
use codex_loop.Base.{◌≡◌, true, false, List, all, count}
use codex_loop.Collab.{Run, Slot, Offer}
use codex_loop.Collab.Rows.{is_opened, is_done, is_unsettled}
use codex_loop.Collab.Moves.{IsSettled}
use codex_loop.Collab.History.{Op, play, IsStart}
use codex_loop.Collab.History.Steps.{play-Moves}
use codex_loop.Collab.History.Lease.{start-IsNumbered}

-- In any history of a run, planned or joined: when the run is not open any more, so that an integrator is elected
-- or has finished, every slot is done and no delegation is unsettled. This holds under any interleaving
-- of claims, reclaims, late results, delegations and takeovers.
pub closed-settled :
    (created : Run) (ops : List Op)
    → IsStart created
    → is_opened (play ops created).state ≡ false
    → (all (λ (s : Slot). is_done s.status) (play ops created).slots ≡ true)
      × (count (λ (o : Offer). is_unsettled o) (play ops created).delegations ≡ 0)
unfolding IsSettled
closed-settled created ops new closed =
    let start = start-IsNumbered created new in
    (play-Moves ops created start.0).settled (λ shut. cc) closed
