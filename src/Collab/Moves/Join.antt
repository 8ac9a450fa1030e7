-- ===== src/Collab/Moves/Join.antt =====
-- scripts/codex_loop_runtime/local_collaboration.py: a worker who joins moves a run. What `dynamic_join`
-- appends stands in an open run, since a closed one is found by a slot of the worker alone.
use codex_loop.Base.{
  ℕ, ◌≡◌, refl, inl, inr, String, true, Bool-cases, either_true, both_true, ◌||◌, not, [], ◌∷◌,
  Post, Post-ok, Post-reject, Post-step,
}
use codex_loop.Collab.{Run}
use codex_loop.Collab.Checks.{text, task}
use codex_loop.Collab.Rows.{is_opened, next_number}
use codex_loop.Collab.Claim.{Outside}
use codex_loop.Collab.Join.{has_own, has_place, enter, own_slot, is_own, is_open, join_run}
use codex_loop.Collab.Moves.{Moves, Moves-refl, IsNumbered}
use codex_loop.Collab.Moves.Slots.{next_number-IsNumbered}
use codex_loop.Collab.Moves.Rules.{Moves-open_append}

has_own-has_place :
    (worker : String) (now : ℕ) (r : Run) → has_own worker r ≡ true → has_place worker now r ≡ true
unfolding has_place
has_own-has_place worker now r h = rw h refl

enter-Moves :
    (world : Outside) (worker title instructions : String) (now : ℕ) (r : Run)
    → IsNumbered 1 r.slots
    → is_opened r.state ≡ true
    → Post (λ (t : Run). Moves r t) (enter world worker title instructions now r)
unfolding enter IsNumbered
enter-Moves world worker title instructions now r n opened =
    elim (Bool-cases (has_place worker now r)) [
      | inl place ↦ rw (enter, place) (Post-ok r (Moves-refl r n))
      | inr none_left ↦
          rw (enter, none_left)
            (Post-step (text 200 title) _ (λ name h.
              Post-step (text 60000 instructions) _ (λ told h.
                Post-reject world.is_held_elsewhere _ _ (λ h. Post-ok _ (
                  Moves-open_append r _ n (own_slot (next_number r.slots) name told worker ∷ [])
                    opened refl refl (next_number-IsNumbered r.slots n, tt))))))
    ]

-- Whoever has a slot changes nothing.
enter-own :
    (world : Outside) (worker title instructions : String) (now : ℕ) (r : Run)
    → IsNumbered 1 r.slots
    → has_own worker r ≡ true
    → Post (λ (t : Run). Moves r t) (enter world worker title instructions now r)
unfolding enter
enter-own world worker title instructions now r n own =
    rw (enter, has_own-has_place worker now r own) (Post-ok r (Moves-refl r n))

pub join_run-Moves :
    (world : Outside) (given title instructions : String) (now : ℕ) (r : Run)
    → IsNumbered 1 r.slots
    → Post (λ (t : Run). Moves r t) (join_run world given title instructions now r)
unfolding join_run is_own is_open
join_run-Moves world given title instructions now r n = Post-step (task given) _ (λ worker h.
    elim (Bool-cases (is_own worker r || is_open r)) [
      | inl found ↦ rw found (elim (either_true (is_own worker r) (is_open r) found) [
        | inl own ↦
            enter-own world worker title instructions now r n
              (both_true (not r.planned) (has_own worker r) own).1
        | inr shared ↦
            enter-Moves world worker title instructions now r n
              (both_true (not r.planned) (is_opened r.state) shared).1
      ])
      | inr lost ↦ rw lost (Post-ok r (Moves-refl r n))
    ])
