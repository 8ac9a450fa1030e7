-- ===== src/Collab/Moves/Leases.antt =====
-- scripts/codex_loop_runtime/local_collaboration.py: the operations on leases move a run.
use codex_loop.Base.{
  ℕ, ◌≡◌, refl, sym, ap, ◌∙◌, subst, String, Bool, true, false, not, not-false, either_branch,
  either_false, Option, some, length, some_injective, ok, ◌&&◌, ◌||◌, ◌==◌, member, any, Post,
  Post-ok, Post-reject, Post-bind, Post-step, Post-map,
}
use codex_loop.Collab.{Run, Slot}
use codex_loop.Collab.Checks.{text, task, identifier, is_run_name}
use codex_loop.Collab.Rows.{
  is_opened, is_claimed, is_done, is_text, find_key, find_number, active_owner,
}
use codex_loop.Collab.Leases.{
  touch_owner, seen_at, freed, held_by, reclaim_slot, heartbeat, heartbeat_as, integrator_heartbeat,
  slot_heartbeat, is_integration, keyed_slot, is_live_lease, reclaim, refresh_slot,
  refresh_integrator, is_due, checkpoint_write, checkpointed, same_text,
}
use codex_loop.Collab.Pools.{find_cap}
use codex_loop.Collab.Pools.Blocked.{blocked_write, handed_back, pools_of}
use codex_loop.Collab.Claim.Materialize.{materialize, materialized, record_input}
use codex_loop.Collab.Moves.{Moves, Moves-refl, Moves-trans, IsNumbered, Follows, Follows-refl}
use codex_loop.Collab.Moves.Slots.{
  eq_sound, length-update_slot, find_held-claimed, find_held-find_number,
}
use codex_loop.Collab.Moves.Rules.{Moves-keep, Moves-keep_update, Moves-open_update}
use codex_loop.Collab.Moves.Changes.{
  seen_at-Follows, freed-Follows, checkpointed-Follows, materialized-Follows, handed_back-Follows,
  active_owner-find_held,
}

-- What a heartbeat leaves alone.
pub record Touches (r t : Run) : Type 0 where
  pub moves : Moves r t
  pub state : t.state ≡ r.state
  pub size : length t.slots ≡ length r.slots

pub touch_owner-Touches :
    (worker : String) (generation now : ℕ) (r : Run)
    → IsNumbered 1 r.slots
    → Post (λ (x : Run × Slot). Touches r x.0) (touch_owner worker generation now r)
unfolding touch_owner
touch_owner-Touches worker generation now r n =
    Post-step (active_owner worker (some generation) r) _ (λ s h. Post-ok _ (record {
      moves =
          Moves-keep_update r _ n s.number (seen_at now) (λ t. refl) (λ t h. seen_at-Follows now t)
            refl refl refl (λ t. refl);
      state = refl;
      size = length-update_slot s.number (seen_at now) r.slots;
    }))

pub touch_owner-Moves :
    (worker : String) (generation now : ℕ) (r : Run)
    → IsNumbered 1 r.slots
    → Post (λ (x : Run × Slot). Moves r x.0) (touch_owner worker generation now r)
touch_owner-Moves worker generation now r n =
    Post-map (touch_owner-Touches worker generation now r n) (λ x h. h.moves)

-- A lease can be taken away in an open run only.
pub reclaim_slot-Moves :
    (s : Slot) (reason : String) (now : ℕ) (r : Run)
    → IsNumbered 1 r.slots
    → is_opened r.state ≡ true
    → Post (λ (t : Run). Moves r t × (t.state ≡ r.state)) (reclaim_slot s reason now r)
unfolding reclaim_slot
reclaim_slot-Moves s reason now r n opened = Post-step (held_by s) _ (λ worker h. Post-ok _ (
  Moves-open_update r _ n s.number freed
      (λ t. either_branch (λ (u : Slot). u.number ≡ t.number) (is_claimed t.status) _ t refl refl)
      (λ t h. freed-Follows t) refl opened refl,
  refl,
))

heartbeat_as-Moves :
    (b : Bool) (worker : String) (generation now : ℕ) (r : Run)
    → IsNumbered 1 r.slots
    → Post (λ (t : Run). Moves r t) (heartbeat_as b worker generation now r)
unfolding heartbeat_as integrator_heartbeat slot_heartbeat
heartbeat_as-Moves true worker generation now r n =
    Post-reject (not (generation == r.integrator_generation)) _ _
      (λ h. Post-ok _ (Moves-keep r _ n refl refl refl))
heartbeat_as-Moves false worker generation now r n =
    Post-bind (touch_owner worker generation now r) _ (touch_owner-Moves worker generation now r n)
      (λ x moves. Post-ok _ moves)

pub heartbeat-Moves :
    (worker : String) (generation now : ℕ) (r : Run)
    → IsNumbered 1 r.slots
    → Post (λ (t : Run). Moves r t) (heartbeat worker generation now r)
unfolding heartbeat
heartbeat-Moves worker generation now r n = Post-step (task worker) _ (λ owner h.
    heartbeat_as-Moves (is_text r.integrator_task owner && is_integration r.state) owner generation
      now r n)

pub reclaim-Moves :
    (given : String) (force : Bool) (because : String) (now : ℕ) (r : Run)
    → IsNumbered 1 r.slots
    → Post (λ (t : Run). Moves r t) (reclaim given force because now r)
unfolding reclaim
reclaim-Moves given force because now r n = Post-step (identifier is_run_name given) _ (λ key h.
    Post-step (text 1000 because) _ (λ reason h.
      Post-reject (not (is_opened r.state)) _ _ (λ closed.
        Post-step (keyed_slot (find_key key r.slots)) _ (λ s h.
          Post-reject (not (is_claimed s.status)) _ _ (λ h.
            Post-reject (not force && is_live_lease now s.last_seen) _ _ (λ h.
              Post-map (reclaim_slot-Moves s reason now r n (not-false (is_opened r.state) closed))
                (λ t h. h.0)))))))

pub refresh_slot-Moves :
    (worker : String) (number generation interval now : ℕ) (r : Run)
    → IsNumbered 1 r.slots
    → Moves r (refresh_slot worker number generation interval now r)
unfolding refresh_slot
refresh_slot-Moves worker number generation interval now r n =
    Moves-keep_update r _ n number _
      (λ s. either_branch (λ (t : Slot). t.number ≡ s.number) _ (seen_at now s) s refl refl)
      (λ s h.
        either_branch (Follows s) _ (seen_at now s) s (seen_at-Follows now s) (Follows-refl s))
      refl refl refl
      (λ s.
        either_branch (λ (t : Slot). is_done t.status ≡ is_done s.status) _ (seen_at now s) s refl
          refl)

pub refresh_integrator-Moves :
    (worker : String) (generation interval now : ℕ) (r : Run)
    → IsNumbered 1 r.slots
    → Moves r (refresh_integrator worker generation interval now r)
unfolding refresh_integrator
refresh_integrator-Moves worker generation interval now r n =
    either_branch (Moves r)
      (is_text r.integrator_task worker
        && r.integrator_generation == generation
        && is_integration r.state
        && is_due now interval r.integrator_last_seen)
      (record r { integrator_last_seen = some now }) r (Moves-keep r _ n refl refl refl)
      (Moves-refl r n)

pub checkpoint_write-Moves :
    (worker : String) (generation : ℕ) (commit note : String) (s : Slot) (now : ℕ) (r : Run)
    → IsNumbered 1 r.slots
    → Post (λ (t : Run). Moves r t) (checkpoint_write worker generation commit note s now r)
unfolding checkpoint_write
checkpoint_write-Moves worker generation commit note s now r n =
    Post-bind (touch_owner worker generation now r) _ (touch_owner-Moves worker generation now r n)
      (λ x moves.
        Post-reject
          (not (x.1.number == s.number) || not (same_text x.1.start_commit s.start_commit)) _ _
          (λ h. Post-ok _ (
            Moves-trans r x.0 _ moves (
              Moves-keep_update x.0 _ moves.numbered s.number (checkpointed commit note) (λ t. refl)
                (λ t h. checkpointed-Follows commit note t) refl refl refl (λ t. refl)))))

pub materialize-Moves :
    (worker : String) (number generation : ℕ) (path head : String) (r : Run)
    → IsNumbered 1 r.slots
    → Post (λ (t : Run). Moves r t) (materialize worker number generation path head r)
unfolding materialize
materialize-Moves worker number generation path head r n =
    Post-step (active_owner worker (some generation) r) _ (λ s h.
      Post-reject (not (s.number == number)) _ _ (λ h.
        Post-reject
          (any (λ (t : Slot). not (t.number == number) && is_text t.worktree path) r.slots) _ _
          (λ h. Post-ok _ (
            Moves-keep_update r _ n number (materialized path head) (λ t. refl)
              (λ t h. materialized-Follows path head t) refl refl refl (λ t. refl)))))

pub record_input-Moves :
    (worker : String) (source : ℕ) (r : Run)
    → IsNumbered 1 r.slots
    → Moves r (record_input worker source r)
unfolding record_input
record_input-Moves worker source r n = Moves-keep r _ n refl refl refl

-- The slot that its owner names is the one that its number finds.
held_is_claimed :
    (worker : String) (generation : Option ℕ) (number : ℕ) (r : Run) (s t : Slot)
    → IsNumbered 1 r.slots
    → active_owner worker generation r ≡ ok s
    → (s.number == number) ≡ true
    → find_number number r.slots ≡ some t
    → is_claimed t.status ≡ true
held_is_claimed worker generation number r s t n owned same found =
    let held = active_owner-find_held worker generation r s owned in
    let there = find_held-find_number worker r.slots s n held in
    subst (λ u. is_claimed u.status ≡ true)
      (some_injective
        (sym there ∙ ap (λ m. find_number m r.slots) (eq_sound s.number number same) ∙ found))
      (find_held-claimed worker r.slots s held)

pub blocked_write-Moves :
    (worker : String) (number generation : ℕ) (resource : String) (now : ℕ) (r : Run)
    → IsNumbered 1 r.slots
    → Post (λ (x : Run × ℕ). Moves r x.0) (blocked_write worker number generation resource now r)
unfolding blocked_write
blocked_write-Moves worker number generation resource now r n =
    Post-step (active_owner worker (some generation) r) _ (λ s owned.
      Post-reject (not (s.number == number) || not (is_opened r.state)) _ _ (λ other.
        Post-reject (not (member s.pool_id (pools_of (find_cap resource r.resource_caps) s))) _ _
          (λ h.
            let guards = either_false (not (s.number == number)) (not (is_opened r.state)) other in
            let same = not-false (s.number == number) guards.0 in
            Post-ok _ (
              Moves-open_update r _ n number handed_back (λ t. refl)
                (λ t found.
                  handed_back-Follows t
                    (held_is_claimed worker (some generation) number r s t n owned same found))
                refl (not-false (is_opened r.state) guards.1) refl))))
