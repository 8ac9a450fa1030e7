-- ===== src/Collab/Moves/Settle.antt =====
-- scripts/codex_loop_runtime/local_collaboration.py: the rest of a claim moves a run.
use codex_loop.Base.{
  ℕ, ◌≡◌, refl, sym, ap, ◌∙◌, subst, inl, inr, String, Bool, true, false, not, Option-cases,
  either_branch, Option, none, some, List, some_injective, Bool-cases, ok, ◌>>=◌, ◌==◌, any, str_eq,
  Post, Post-ok, Post-err, Post-reject, Post-bind, Post-step, Post-map,
}
use codex_loop.Collab.{Run, Slot, Worker}
use codex_loop.Collab.Checks.{task}
use codex_loop.Collab.Rows.{
  is_opened, is_claimed, find_held, find_worker, slot_of, active_owner, update_slot, stopped,
}
use codex_loop.Collab.Leases.{seen_at}
use codex_loop.Collab.Pools.Reviews.{publish_due_reviews}
use codex_loop.Collab.Choose.Final.{choose_slot}
use codex_loop.Collab.Claim.{Outside, Turn, taken, answered, Claimed, without_waiting}
use codex_loop.Collab.Claim.Taking.{chosen_turn, closed_turn, turn_of}
use codex_loop.Collab.Claim.Adopt.{recover, last_reclaim}
use codex_loop.Collab.Claim.Settle.{
  first_generation, leased, touched, register, is_competing, path_of, differs, is_other_worktree,
  settle, settle_turn, claim,
}
use codex_loop.Collab.Moves.{Follows, Moves, Moves-refl, Moves-trans, IsNumbered}
use codex_loop.Collab.Moves.Slots.{eq_sound, find_held-claimed, find_held-find_number}
use codex_loop.Collab.Moves.Rules.{Moves-keep, Moves-keep_update}
use codex_loop.Collab.Moves.Changes.{first_generation-Follows, seen_at-Follows}
use codex_loop.Collab.Moves.Handover.{recover-Moves}
use codex_loop.Collab.Moves.Tasks.{publish_due_reviews-Moves}
use codex_loop.Collab.Moves.Claim.{Same, choose_slot-Same, Turns, chosen_turn-Moves}

Moves-Same : (r t : Run) → IsNumbered 1 r.slots → Same r t → Moves r t
Moves-Same r t n same = Moves-keep r t n (ap (λ s. is_opened s) same.state) same.slots same.offers

closed_turn-Moves :
    (worker : String) (waits : Bool) (w : Option Worker) (r : Run)
    → IsNumbered 1 r.slots
    → Post (Turns worker r) (closed_turn worker waits w r)
unfolding closed_turn
closed_turn-Moves worker true w r n = Post-ok _ (Moves-keep r _ n refl refl refl, tt)
closed_turn-Moves worker false none r n = Post-err _
closed_turn-Moves worker false (some w) r n =
    Post-step (slot_of worker r) _ (λ s h. Post-ok _ (Moves-refl r n, tt))

open_turn-Moves :
    (world : Outside) (worker : String) (waits : Bool) (only : Option (List String)) (now : ℕ)
    (r : Run)
    → IsNumbered 1 r.slots
    → is_opened r.state ≡ true
    → Post (Turns worker r) (
        chosen_turn world worker waits now
          (choose_slot world.project worker only now (publish_due_reviews now r)).0
          (choose_slot world.project worker only now (publish_due_reviews now r)).1)
open_turn-Moves world worker waits only now r n opened =
    let published = publish_due_reviews-Moves now r n opened in
    let same = choose_slot-Same world.project worker only now (publish_due_reviews now r) in
    let chosen = Moves-Same (publish_due_reviews now r) _ published.0.numbered same in
    Post-map
      (chosen_turn-Moves world worker waits now _ _ chosen.numbered
        (ap (λ s. is_opened s) (same.state ∙ published.1) ∙ opened))
      (λ x h. (
        Moves-trans r (publish_due_reviews now r) x.0 published.0
            (Moves-trans (publish_due_reviews now r) _ x.0 chosen h.0),
        h.1,
      ))

turn_of-Moves :
    (world : Outside) (worker : String) (waits : Bool) (only : Option (List String)) (now : ℕ)
    (r : Run)
    → IsNumbered 1 r.slots
    → Post (Turns worker r) (turn_of world worker waits only now r (find_held worker r.slots))
unfolding turn_of
turn_of-Moves world worker waits only now r n = elim (Option-cases (find_held worker r.slots)) [
  | inr (s, held) ↦ rw held (Post-ok _ (Moves-refl r n, held))
  | inl none_held ↦ rw none_held (elim (Bool-cases (is_opened r.state)) [
    | inl opened ↦ rw opened (open_turn-Moves world worker waits only now r n opened)
    | inr closed ↦ rw closed (closed_turn-Moves worker waits (find_worker worker r.workers) r n)
  ])
]

-- A slot without a lease that the worker holds.
first_lease-Moves :
    (worker : String) (s : Slot) (r : Run)
    → IsNumbered 1 r.slots
    → find_held worker r.slots ≡ some s
    → s.lease_generation ≡ 0
    → Moves r (record r { slots = update_slot s.number first_generation r.slots })
first_lease-Moves worker s r n held zero =
    Moves-keep_update r _ n s.number first_generation (λ t. refl)
      (λ t found.
        let same = some_injective (sym (find_held-find_number worker r.slots s n held) ∙ found) in
        subst (λ u. Follows u (first_generation u)) same
          (first_generation-Follows s (find_held-claimed worker r.slots s held) zero))
      refl refl refl (λ t. refl)

leased-Moves :
    (worker : String) (s : Slot) (r : Run)
    → IsNumbered 1 r.slots
    → find_held worker r.slots ≡ some s
    → Post (λ (x : Run × Slot). Moves r x.0) (leased worker s r)
unfolding leased
leased-Moves worker s r n held = go (s.lease_generation == 0) refl
  where
    go :
        (b : Bool)
        → (s.lease_generation == 0) ≡ b
        → Post
            (λ (x : Run × Slot). Moves r x.0)
            (elim b [
              | false ↦ ok (r, s)
              | true ↦ do
                let first = record r { slots = update_slot s.number first_generation r.slots }
                t ← active_owner worker none first
                ok (first, t)
            ])
    go false e = Post-ok (r, s) (Moves-refl r n)
    go true e =
        Post-step
          (active_owner worker none
            (record r { slots = update_slot s.number first_generation r.slots }))
          _
          (λ t h. Post-ok _ (first_lease-Moves worker s r n held (eq_sound s.lease_generation 0 e)))

touched-Moves : (now : ℕ) (s : Slot) (r : Run) → IsNumbered 1 r.slots → Moves r (touched now s r)
unfolding touched
touched-Moves now s r n =
    either_branch (Moves r) (is_claimed s.status)
      (record r { slots = update_slot s.number (seen_at now) r.slots }) r
      (Moves-keep_update r _ n s.number (seen_at now) (λ t. refl) (λ t h. seen_at-Follows now t)
        refl refl refl (λ t. refl))
      (Moves-refl r n)

register-Moves :
    (world : Outside) (worker path : String) (w : Option Worker) (r : Run)
    → IsNumbered 1 r.slots
    → Post (λ (t : Run). Moves r t) (register world worker path w r)
unfolding register
register-Moves world worker path (some w) r n = Post-ok r (Moves-refl r n)
register-Moves world worker path none r n = Post-reject (is_competing world worker path r) _ _ (λ h.
    Post-reject (any (λ (w : Worker). str_eq w.worktree path) r.workers) _ _
      (λ h. Post-ok _ (Moves-keep r _ n refl refl refl)))

settle-Moves :
    (world : Outside) (worker : String) (existing : Option String) (now : ℕ) (s : Slot) (r : Run)
    → IsNumbered 1 r.slots
    → find_held worker r.slots ≡ some s
    → Post (λ (x : Run × Claimed). Moves r x.0) (settle world worker existing now s r)
unfolding settle
settle-Moves world worker existing now s r n held =
    let w = find_worker worker r.workers in
    let gone = Moves-keep r (without_waiting worker r) n refl refl refl in
    Post-bind (leased worker s (without_waiting worker r)) _
      (leased-Moves worker s (without_waiting worker r) n held)
      (λ lease leases.
        let path = path_of world existing w in
        let seen = touched-Moves now lease.1 lease.0 leases.numbered in
        Post-reject (is_other_worktree existing w) _ _ (λ h.
          Post-reject (differs lease.1.worktree path) _ _ (λ h.
            Post-bind (register world worker path w (touched now lease.1 lease.0)) _
              (register-Moves world worker path w (touched now lease.1 lease.0) seen.numbered)
              (λ known knows.
                Post-bind (recover worker (last_reclaim lease.1.number known.reclaims) known) _
                  (recover-Moves worker (last_reclaim lease.1.number known.reclaims) known
                    knows.numbered)
                  (λ x recovers. Post-ok _ (
                    Moves-trans r (without_waiting worker r) x.0 gone (
                      Moves-trans (without_waiting worker r) lease.0 x.0 leases (
                        Moves-trans lease.0 _ x.0 seen
                          (Moves-trans _ known x.0 knows recovers)))))))))

-- The first transaction of a claim.
pub claim-Moves :
    (world : Outside) (given : String) (existing : Option String) (waits : Bool)
    (only : Option (List String)) (now : ℕ) (r : Run)
    → IsNumbered 1 r.slots
    → Post (λ (x : Run × Claimed). Moves r x.0) (claim world given existing waits only now r)
unfolding claim settle_turn
claim-Moves world given existing waits only now r n = Post-step (task given) _ (λ worker h.
    Post-reject (stopped worker r) _ _ (λ h.
      Post-reject (not (str_eq world.parent r.worktree_parent)) _ _ (λ h.
        Post-bind (turn_of world worker waits only now r (find_held worker r.slots)) _
          (turn_of-Moves world worker waits only now r n)
          (λ turn turns. settle_turn-Moves worker turn turns))))
  where
    settle_turn-Moves :
        (worker : String) (x : Run × Turn)
        → Turns worker r x
        → Post (λ (y : Run × Claimed). Moves r y.0) (settle_turn world worker existing now x)
    settle_turn-Moves worker (t, taken s) (moves, held) =
        Post-map (settle-Moves world worker existing now s t moves.numbered held)
          (λ y h. Moves-trans r t y.0 moves h)
    settle_turn-Moves worker (t, answered a) (moves, u) = Post-ok _ moves
