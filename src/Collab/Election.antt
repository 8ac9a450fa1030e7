-- ===== src/Collab/Election.antt =====
-- scripts/codex_loop_runtime/local_collaboration.py: the election of the integrator.
use codex_loop.Base.{
  ℕ, String, Bool, true, false, ◌&&◌, not, Option, some, List, [], ◌∷◌, all, count, ◌==◌,
  if◌then◌else◌, Result, ok, ◌>>=◌, ◌>>◌, reject,
}
use codex_loop.Collab.{Run, RunState, Slot, CollabError, not_done}
use codex_loop.Collab.Checks.{task}
use codex_loop.Collab.Rows.{is_opened, is_done, is_text, is_unsettled, slot_of}

-- `integrate_now`, and whose integration it is.
pub record Election : Type 0 where
  pub integrate_now : Bool
  pub owner : Option String

abbrev pub is_integrating : RunState → Bool
is_integrating RunState.integrating = true
is_integrating _ = false

abbrev pub some_slots : List Slot → Bool
some_slots [] = false
some_slots (s ∷ slots) = true

-- `counts and set(counts) == {'done'} and not pending`
unfoldable pub is_finished : Run → Bool
is_finished r =
    some_slots r.slots
    && all (λ s. is_done s.status) r.slots
    && count (λ o. is_unsettled o) r.delegations == 0

-- `_elect`
unfoldable pub elect_now : String → ℕ → Run → Run × Election
unfolding is_finished
elect_now worker now r =
    if is_opened r.state && is_finished r
    then (
      record r {
        state = RunState.integrating;
        integrator_task = some worker;
        integrator_generation = 1;
        integrator_last_seen = some now;
      },
      record { integrate_now = true; owner = some worker },
    )
    else (
      r,
      record {
        integrate_now = is_integrating r.state && is_text r.integrator_task worker;
        owner = r.integrator_task;
      },
    )

-- `elect`
unfoldable pub elect : String → ℕ → Run → Result CollabError (Run × Election)
unfolding task slot_of elect_now
elect given now r = do
  worker ← task given
  s ← slot_of worker r
  reject (not (is_done s.status)) not_done
  ok (elect_now worker now r)
