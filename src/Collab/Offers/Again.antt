-- ===== src/Collab/Offers/Again.antt =====
-- scripts/codex_loop_runtime/local_collaboration.py: a call of `delegate` that is repeated.
use codex_loop.Base.{
  ◌+◌, ◌≡◌, refl, ◌∙◌, subst, inl, inr, String, true, ◌&&◌, ◌||◌, not, Option, none, some, List, [],
  ◌∷◌, ◌++◌, length, Bool-cases, not-false, str_eq, eq_refl, ok, ok_injective, Post, Post-ok,
  Post-reject, Post-step, Post-map,
}
use codex_loop.Collab.{Run, Slot, Offer}
use codex_loop.Collab.Checks.{text, task, identifier, is_run_name, is_task_name}
use codex_loop.Collab.Rows.{slot_of, is_opened, is_claimed}
use codex_loop.Collab.Leases.{is_missing}
use codex_loop.Collab.Offers.{
  delegate, request, find_request, other_worker, new_offer, available_to,
}

find_request-append :
    (sender key : String) (os : List Offer) (o : Offer)
    → find_request sender key os ≡ none
    → o.sender ≡ sender
    → o.request_key ≡ key
    → find_request sender key (os ++ o ∷ []) ≡ some o
unfolding find_request
find_request-append sender key [] o h s k = rw (s, k, eq_refl sender, eq_refl key) refl
find_request-append sender key (p ∷ os) o h s k =
    elim (Bool-cases (str_eq p.sender sender && str_eq p.request_key key)) [
      | inl hit ↦ cc (rw hit at h)
      | inr miss ↦ rw miss (find_request-append sender key os o (rw miss at h) s k)
    ]

-- What a request leaves behind: the slots as they were, and the offer under its key with its text.
record Requested (sender key title instructions : String) (r : Run) (x : Run × Offer) : Type 0 where
  slots : x.0.slots ≡ r.slots
  found : find_request sender key x.0.delegations ≡ some x.1
  same : (str_eq x.1.title title && str_eq x.1.instructions instructions) ≡ true

request-Requested :
    (known : Option Offer) (sender key : String) (recipient : Option String)
    (title instructions : String) (s : Slot) (r : Run)
    → find_request sender key r.delegations ≡ known
    → Post
        (Requested sender key title instructions r)
        (request known sender key recipient title instructions s r)
unfolding request
request-Requested (some o) sender key recipient title instructions s r found =
    Post-reject (not (str_eq o.title title && str_eq o.instructions instructions)) _ _ (λ same.
      Post-ok (r, o)
        (record {
          slots = refl;
          found = found;
          same = not-false (str_eq o.title title && str_eq o.instructions instructions) same;
        }))
request-Requested none sender key recipient title instructions s r found =
    Post-reject (not (is_opened r.state) || not (is_claimed s.status) || is_missing s.worktree) _ _
      (λ active. Post-step (available_to recipient r) _ (λ u h. Post-ok _ (record {
        slots = refl;
        found =
            find_request-append sender key r.delegations
              (new_offer (length r.delegations + 1) sender key recipient title instructions) found
              refl refl;
        same = rw (eq_refl title, eq_refl instructions) refl;
      })))

slot_of_same :
    (worker : String) (r t : Run) → t.slots ≡ r.slots → slot_of worker t ≡ slot_of worker r
unfolding slot_of
slot_of_same worker r t h = rw h refl

request_again :
    (sender key title instructions : String) (other : Option String) (r : Run) (x : Run × Offer)
    (s : Slot)
    → Requested sender key title instructions r x
    → request (find_request sender key x.0.delegations) sender key other title instructions s x.0
      ≡ ok x
unfolding request
request_again sender key title instructions other r x s h = rw (h.found, h.same) refl

task-same : (given worker : String) → task given ≡ ok worker → given ≡ worker
unfolding task identifier
task-same given worker h = elim (Bool-cases (is_task_name given)) [
  | inl hit ↦ ok_injective (rw (task, hit) at h)
  | inr miss ↦ cc (rw (task, miss) at h)
]

delegate_again_Post :
    (worker key title instructions : String) (first second checked : Option String) (r : Run)
    → other_worker worker second ≡ ok checked
    → Post
        (λ x. delegate worker key title instructions second x.0 ≡ ok x)
        (delegate worker key title instructions first r)
unfolding delegate
delegate_again_Post worker key title instructions first second checked r other =
    Post-step (task worker) _ (λ sender is_task.
      Post-step (identifier is_run_name key) _ (λ k is_key.
        Post-step (text 200 title) _ (λ t is_title.
          Post-step (text 60000 instructions) _ (λ i is_text.
            Post-step (other_worker sender first) _ (λ recipient h.
              Post-step (slot_of sender r) _ (λ s is_slot.
                Post-map
                  (request-Requested (find_request sender k r.delegations) sender k recipient t i s
                    r refl)
                  (λ x done.
                    let mine =
                      subst (λ w. other_worker w second ≡ ok checked)
                        (task-same worker sender is_task) other in
                    let slot = slot_of_same sender r x.0 done.slots ∙ is_slot in
                    rw (is_task, is_key, is_title, is_text, mine, slot)
                      (request_again sender k t i checked r x s done))))))))

-- A call of `delegate` that succeeded may be repeated, also to another recipient that passes the checks: it returns the same
-- delegation and changes nothing, so that a retry after an interrupted call does not ask twice.
pub delegate-again :
    (worker key title instructions : String) (first second checked : Option String) (r : Run)
    (x : Run × Offer)
    → delegate worker key title instructions first r ≡ ok x
    → other_worker worker second ≡ ok checked
    → delegate worker key title instructions second x.0 ≡ ok x
delegate-again worker key title instructions first second checked r x h other =
    (delegate_again_Post worker key title instructions first second checked r other).holds x h
