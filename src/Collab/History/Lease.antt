-- ===== src/Collab/History/Lease.antt =====
-- scripts/codex_loop_runtime/local_collaboration.py: what the generations of leases are for.
use codex_loop.Base.{
  ℕ, ◌≡◌, ◌≢◌, refl, sym, ap, ◌∙◌, subst, inl, inr, String, true, not, not-false, either_false,
  both_true, some, List, [], ◌∷◌, Option-cases, Bool-cases, some_injective, ◌==◌, ◌||◌, err, eq_iff,
  Post-ok, Post-step, arith,
}
use codex_loop.Collab.{Run, Slot, ownership_changed}
use codex_loop.Collab.Checks.{text}
use codex_loop.Collab.Rows.{is_opened, is_claimed, is_done, is_text, find_number, find_held, holds}
use codex_loop.Collab.Specs.{task_specs}
use codex_loop.Collab.Tasks.{create_run, tail_of}
use codex_loop.Collab.Finish.{finish_write, held_or}
use codex_loop.Collab.Moves.{Follows, Extends, IsNumbered}
use codex_loop.Collab.Moves.Slots.{find_held-find_number, find_held-claimed, eq_sound}
use codex_loop.Collab.Moves.Tasks.{new_slots-IsNumbered}
use codex_loop.Collab.History.{Op, play, IsStart, planned_run, joined_run}
use codex_loop.Collab.History.Steps.{play-Moves}

-- A slot is found again under its number.
pub Extends-find_number :
    (m : ℕ) (xs ys : List Slot) (s : Slot)
    → Extends xs ys
    → find_number m xs ≡ some s
    → (t : Slot) × (find_number m ys ≡ some t) × Follows s t
unfolding Extends find_number
Extends-find_number m [] ys s h found = cc
Extends-find_number m (x ∷ xs) [] s h found = absurd h
Extends-find_number m (x ∷ xs) (y ∷ ys) s h found = elim (Bool-cases (x.number == m)) [
  | inl hit ↦ (
    y,
    rw (sym h.0.number, hit) refl,
    subst (λ u. Follows u y) (some_injective (rw hit at found)) h.0,
  )
  | inr miss ↦
      let later = Extends-find_number m xs ys s h.1 (rw miss at found) in
      (later.0, rw (sym h.0.number, miss) later.1, later.2)
]

-- The run of the start is open, and its slots are numbered from 1.
pub start-IsNumbered : (r : Run) → IsStart r → IsNumbered 1 r.slots × (is_opened r.state ≡ true)
unfolding create_run IsNumbered
start-IsNumbered _ (planned_run i tasks goal tail r h) =
    (Post-step (task_specs tasks) _ (λ specs h. Post-step (tail_of tail) _ (λ t h.
        Post-step (text 200 goal) _ (λ g h.
          Post-ok {P = λ (r : Run). IsNumbered 1 r.slots × (is_opened r.state ≡ true)} _
            (new_slots-IsNumbered 1 specs, refl))))).holds
      r h
start-IsNumbered _ (joined_run world base) = (tt, refl)

-- While the generation of a slot stays, whoever holds the slot is who held it.
pub lease_unique :
    (ops : List Op) (r : Run) (m : ℕ) (s t : Slot)
    → IsNumbered 1 r.slots
    → find_number m r.slots ≡ some s
    → find_number m (play ops r).slots ≡ some t
    → s.lease_generation ≡ t.lease_generation
    → is_claimed t.status ≡ true
    → (is_claimed s.status ≡ true) × (s.task_id ≡ t.task_id)
lease_unique ops r m s t n before after same claimed =
    let moves = play-Moves ops r n in
    let later = Extends-find_number m r.slots (play ops r).slots s moves.slots before in
    let again = some_injective (sym later.1 ∙ after) in
    let follows = subst (λ u. Follows s u) again later.2 in
    elim follows.lease [
      | inl lt ↦ absurd (omega (arith, lt, same))
      | inr lease ↦ lease.holder claimed
    ]

find_held-task :
    (worker : String) (xs : List Slot) (s : Slot)
    → find_held worker xs ≡ some s
    → is_text s.task_id worker ≡ true
unfolding find_held holds
find_held-task worker [] s found = cc
find_held-task worker (x ∷ xs) s found = elim (Bool-cases (holds worker x)) [
  | inl hit ↦
      subst (λ (t : Slot). is_text t.task_id worker ≡ true) (some_injective (rw hit at found))
        (both_true (is_claimed x.status) (is_text x.task_id worker) hit).1
  | inr miss ↦ find_held-task worker xs s (rw miss at found)
]

-- The lease of another worker is not one's own, at any later time.
not_holder :
    (ops : List Op) (r : Run) (m : ℕ) (s t : Slot) (worker other : String)
    → IsNumbered 1 r.slots
    → find_number m r.slots ≡ some s
    → s.task_id ≡ some other
    → worker ≢ other
    → find_held worker (play ops r).slots ≡ some t
    → (not (t.number == m) || not (t.lease_generation == s.lease_generation)) ≡ true
not_holder ops r m s t worker other n before holder differ held =
    elim (Bool-cases (not (t.number == m) || not (t.lease_generation == s.lease_generation))) [
      | inl differs ↦ differs
      | inr same ↦
          let parts =
            either_false (not (t.number == m)) (not (t.lease_generation == s.lease_generation))
              same in
          let number = eq_sound t.number m (not-false (t.number == m) parts.0) in
          let generation =
            eq_sound t.lease_generation s.lease_generation
              (not-false (t.lease_generation == s.lease_generation) parts.1) in
          let slots = (play ops r).slots in
          let found =
            ap (λ k. find_number k slots) (sym number)
            ∙ find_held-find_number worker slots t (play-Moves ops r n).numbered held in
          let kept =
            lease_unique ops r m s t n before found (sym generation)
              (find_held-claimed worker slots t held) in
          let mine =
            subst (λ o. is_text o worker ≡ true) (sym kept.1 ∙ holder)
              (find_held-task worker slots t held) in
          absurd (differ (sym ((eq_iff other worker).0 mine)))
    ]

finish_write-owner :
    (worker commit : String) (m g now : ℕ) (r : Run)
    → ((t : Slot)
        → find_held worker r.slots ≡ some t
        → (not (t.number == m) || not (t.lease_generation == g)) ≡ true)
    → finish_write worker commit m g now r ≡ err ownership_changed
unfolding finish_write held_or
finish_write-owner worker commit m g now r h = elim (Option-cases (find_held worker r.slots)) [
  | inl missing ↦ rw missing refl
  | inr (t, held) ↦ rw (held, h t held) refl
]

-- In any history of a run, planned or joined: once some worker has held a slot under a generation, every other
-- worker that presents this slot number and generation, then or after any further transactions, is
-- refused with the error that the ownership has changed. So the generation fences off whoever lost
-- the lease, whatever happens in between.
pub finish_write-fenced :
    (created : Run) (before after : List Op) (m : ℕ) (s : Slot) (worker other commit : String)
    (now : ℕ)
    → IsStart created
    → find_number m (play before created).slots ≡ some s
    → s.task_id ≡ some other
    → worker ≢ other
    → finish_write worker commit m s.lease_generation now (play after (play before created))
      ≡ err ownership_changed
finish_write-fenced created before after m s worker other commit now new found holder differ =
    let n = (play-Moves before created (start-IsNumbered created new).0).numbered in
    finish_write-owner worker commit m s.lease_generation now (play after (play before created))
      (λ t held.
        not_holder after (play before created) m s t worker other n found holder differ held)

-- In any history of a run, planned or joined, a slot that is done stays done under its number, with the commit and
-- the worker that were recorded first, whatever transactions follow: no late result, new claim or
-- revision replaces them.
pub done-final :
    (created : Run) (before after : List Op) (m : ℕ) (s : Slot)
    → IsStart created
    → find_number m (play before created).slots ≡ some s
    → is_done s.status ≡ true
    → (t : Slot) × (find_number m (play after (play before created)).slots ≡ some t)
      × (is_done t.status ≡ true)
      × (s.commit_sha ≡ t.commit_sha)
      × (s.completed_by ≡ t.completed_by)
done-final created before after m s new found done =
    let n = (play-Moves before created (start-IsNumbered created new).0).numbered in
    let later =
      Extends-find_number m (play before created).slots (play after (play before created)).slots s
        (play-Moves after (play before created) n).slots found in
    let stays = later.2.result done in (later.0, later.1, stays.status, stays.commit, stays.worker)
