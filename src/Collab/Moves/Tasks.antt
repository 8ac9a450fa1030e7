-- ===== src/Collab/Moves/Tasks.antt =====
-- scripts/codex_loop_runtime/local_collaboration.py: the operations on tasks, pools and reviews move a run.
use codex_loop.Base.{
  ℕ, ◌+◌, ◌≡◌, refl, sym, ap, ◌∙◌, subst, inl, inr, String, true, not, not-false, either_branch,
  List, [], ◌∷◌, ◌++◌, length, drop, Bool-cases, ◌&&◌, ◌||◌, ◌==◌, ltb, all, Post, Post-ok,
  Post-reject, Post-bind, Post-step, arith,
}
use codex_loop.Collab.{Run, Review}
use codex_loop.Collab.Checks.{
  text, task, identifier, identifiers, is_run_name, is_task_name, has_duplicates,
}
use codex_loop.Collab.Rows.{is_opened, find_key, next_number, is_available}
use codex_loop.Collab.Leases.{touch_owner}
use codex_loop.Collab.Specs.{Spec, task_specs, TaskInput}
use codex_loop.Collab.Tasks.{
  new_slots, publish_task, revise_task, rewritten, Updates, known_slot, known_spec, find_spec,
  revised, stored_specs,
}
use codex_loop.Collab.Pools.{
  set_resource_cap, configure_pool_operators, configure_recurring_review, is_none_of, is_known_pool,
}
use codex_loop.Collab.Pools.Reviews.{
  publish_review, publish_reviews, publish_due_reviews, is_held_back, has_operators, is_idle,
  review_slot, review_key_at,
}
use codex_loop.Collab.Moves.{Moves, Moves-refl, Moves-trans, IsNumbered}
use codex_loop.Collab.Moves.Slots.{next_number-IsNumbered}
use codex_loop.Collab.Moves.Rules.{Moves-keep, Moves-open_update, Moves-open_append}
use codex_loop.Collab.Moves.Changes.{rewritten-Follows}
use codex_loop.Collab.Moves.Leases.{touch_owner-Touches}

pub new_slots-IsNumbered : (n : ℕ) (specs : List Spec) → IsNumbered n (new_slots n specs)
unfolding IsNumbered new_slots
new_slots-IsNumbered n [] = tt
new_slots-IsNumbered n (spec ∷ specs) = (
  refl,
  subst (λ i. IsNumbered i (new_slots (n + 1) specs)) (omega arith)
      (new_slots-IsNumbered (n + 1) specs),
)

pub publish_task-Moves :
    (worker : String) (batch : List TaskInput) (generation now : ℕ) (r : Run)
    → IsNumbered 1 r.slots
    → Post (λ (t : Run). Moves r t) (publish_task worker batch generation now r)
unfolding publish_task
publish_task-Moves worker batch generation now r n = Post-step (task worker) _ (λ owner h.
    Post-reject (length batch == 0) _ _ (λ h. Post-reject (not (is_opened r.state)) _ _ (λ closed.
      Post-reject (not r.planned) _ _ (λ h.
        Post-bind (touch_owner owner generation now r) _
          (touch_owner-Touches owner generation now r n)
          (λ x moves. Post-step (task_specs (stored_specs r.slots ++ batch)) _ (λ specs h.
            Post-ok _ (
              Moves-trans r x.0 _ moves.moves (
                Moves-open_append x.0 _ moves.moves.numbered
                  (new_slots (next_number r.slots) (drop (length r.slots) specs))
                  (ap (λ s. is_opened s) moves.state ∙ not-false (is_opened r.state) closed) refl
                  refl
                  (subst
                    (λ i.
                      IsNumbered i (new_slots (next_number r.slots) (drop (length r.slots) specs)))
                    (next_number-IsNumbered r.slots n ∙ ap (λ m. 1 + m) (sym moves.size))
                    (new_slots-IsNumbered (next_number r.slots)
                      (drop (length r.slots) specs)))))))))))

pub revise_task-Moves :
    (worker given : String) (u : Updates) (generation expected now : ℕ) (r : Run)
    → IsNumbered 1 r.slots
    → Post (λ (t : Run). Moves r t) (revise_task worker given u generation expected now r)
unfolding revise_task
revise_task-Moves worker given u generation expected now r n = Post-step (task worker) _ (λ owner h.
    Post-step (identifier is_run_name given) _ (λ key h.
      Post-reject (not (is_opened r.state)) _ _ (λ closed. Post-reject (not r.planned) _ _ (λ h.
        Post-reject (not (r.graph_revision == expected)) _ _ (λ h.
          Post-bind (touch_owner owner generation now r) _
            (touch_owner-Touches owner generation now r n)
            (λ x moves. Post-step (known_slot (find_key key r.slots)) _ (λ target h.
              Post-reject (not (is_available target.status)) _ _ (λ h.
                Post-step (task_specs (revised key u r.slots)) _ (λ specs h.
                  Post-step (known_spec (find_spec key specs)) _ (λ final h. Post-ok _ (
                    Moves-trans r x.0 _ moves.moves (
                      Moves-open_update x.0 _ moves.moves.numbered target.number (rewritten final)
                        (λ t. refl) (λ t h. rewritten-Follows final t) refl
                        (ap (λ s. is_opened s) moves.state ∙ not-false (is_opened r.state) closed)
                        refl))))))))))))

pub set_resource_cap-Moves :
    (given : String) (limit : ℕ) (pools : List String) (r : Run)
    → IsNumbered 1 r.slots
    → Post (λ x. Moves r x.0) (set_resource_cap given limit pools r)
unfolding set_resource_cap
set_resource_cap-Moves given limit given_pools r n =
    Post-step (identifier is_task_name given) _ (λ resource h. Post-reject (limit == 0) _ _ (λ h.
      Post-reject (is_none_of given_pools || has_duplicates given_pools) _ _ (λ h.
        Post-step (identifiers is_task_name given_pools) _ (λ pools h.
          Post-reject (not (is_opened r.state)) _ _ (λ closed.
            Post-reject (not (all (λ p. is_known_pool r.slots p) pools)) _ _
              (λ h. Post-ok _ (Moves-keep r _ n refl refl refl)))))))

pub configure_pool_operators-Moves :
    (tasks pools : List String) (r : Run)
    → IsNumbered 1 r.slots
    → Post (λ (t : Run). Moves r t) (configure_pool_operators tasks pools r)
unfolding configure_pool_operators
configure_pool_operators-Moves given_tasks given_pools r n =
    Post-reject (has_duplicates given_tasks || is_none_of given_tasks || is_none_of given_pools) _ _
      (λ h. Post-step (identifiers is_task_name given_tasks) _ (λ tasks h.
        Post-step (identifiers is_task_name given_pools) _ (λ pools h.
          Post-reject (not (is_opened r.state)) _ _ (λ closed.
            Post-reject (not (all (λ p. is_known_pool r.slots p) pools)) _ _
              (λ h. Post-ok _ (Moves-keep r _ n refl refl refl))))))

pub configure_recurring_review-Moves :
    (key pool : String) (interval : ℕ) (instructions : String) (r : Run)
    → IsNumbered 1 r.slots
    → Post (λ (t : Run). Moves r t) (configure_recurring_review key pool interval instructions r)
unfolding configure_recurring_review
configure_recurring_review-Moves key pool interval instructions r n =
    Post-step (identifier is_task_name key) _ (λ k h.
      Post-step (identifier is_task_name pool) _ (λ p h.
        Post-reject (ltb interval 60 || ltb 86400 interval) _ _ (λ h.
          Post-step (text 60000 instructions) _ (λ i h.
            Post-reject (not (is_opened r.state)) _ _
              (λ closed. Post-ok _ (Moves-keep r _ n refl refl refl))))))

-- A review appends a slot, in an open run.
publish_review-Moves :
    (now : ℕ) (v : Review) (r : Run)
    → IsNumbered 1 r.slots
    → is_opened r.state ≡ true
    → Moves r (publish_review now v r) × ((publish_review now v r).state ≡ r.state)
unfolding publish_review IsNumbered
publish_review-Moves now v r n opened = elim (Bool-cases (is_held_back now v r)) [
  | inl hit ↦ rw hit (Moves-refl r n, refl)
  | inr miss ↦ rw miss (
    Moves-open_append r _ n (review_slot (next_number r.slots) (review_key_at now v) v ∷ []) opened
        refl refl (next_number-IsNumbered r.slots n, tt),
    refl,
  )
]

publish_reviews-Moves :
    (now : ℕ) (vs : List Review) (r : Run)
    → IsNumbered 1 r.slots
    → is_opened r.state ≡ true
    → Moves r (publish_reviews now vs r) × ((publish_reviews now vs r).state ≡ r.state)
unfolding publish_reviews
publish_reviews-Moves now [] r n opened = (Moves-refl r n, refl)
publish_reviews-Moves now (v ∷ vs) r n opened =
    let first = publish_review-Moves now v r n opened in
    let rest =
      publish_reviews-Moves now vs (publish_review now v r) first.0.numbered
        (ap (λ s. is_opened s) first.1 ∙ opened) in
    (Moves-trans r (publish_review now v r) _ first.0 rest.0, rest.1 ∙ first.1)

pub publish_due_reviews-Moves :
    (now : ℕ) (r : Run)
    → IsNumbered 1 r.slots
    → is_opened r.state ≡ true
    → Moves r (publish_due_reviews now r) × ((publish_due_reviews now r).state ≡ r.state)
unfolding publish_due_reviews
publish_due_reviews-Moves now r n opened =
    either_branch (λ (t : Run). Moves r t × (t.state ≡ r.state))
      (has_operators r.pool_operators && is_idle r) r (publish_reviews now r.recurring_reviews r)
      (Moves-refl r n, refl) (publish_reviews-Moves now r.recurring_reviews r n opened)
