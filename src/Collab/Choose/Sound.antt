-- ===== src/Collab/Choose/Sound.antt =====
-- scripts/codex_loop_runtime/local_collaboration.py: which slots `_choose_slot` may choose.
use codex_loop.Base.{
  ℕ, ◌≡◌, ◌⊎◌, ◌==◌, any, or_true, arith, sym, subst, refl, inl, inr, String, true, ◌&&◌, ◌||◌,
  Option, none, List, [], ◌∷◌, ◌++◌, select, All,
}
use codex_loop.Collab.{Run, Slot}
use codex_loop.Collab.Checks.{is_subset}
use codex_loop.Collab.Rows.{is_available, is_claimed, ready_slots, done_keys}
use codex_loop.Collab.Choose.{candidates, is_eligible, is_within_caps, is_stale}
use codex_loop.Collab.Choose.Eligible.{MayTake, is_eligible-MayTake}
use codex_loop.Collab.Choose.Room.{
  IsReady, IsLapsed, AllHaveRoom, IsReady-iff, stale_iff, within_iff,
}
use codex_loop.Collab.Choose.Learned.{reset_learned}
use codex_loop.Collab.Choose.Final.{choose_slot}
use codex_loop.Collab.Choose.Chosen.{
  All-select_both, All-both, unselect, All_split, All_join, All_then, Holds, chosen-Holds,
  chosen-none,
}

-- What makes a slot of the run a candidate: it is ready or its lease has run out, the worker may take it,
-- and the resources on which it draws have room.
pub record IsCandidate (project task : String) (only : Option (List String)) (now : ℕ) (r : Run)
    (s : Slot) : Type 0 where
  pub waits : IsReady r s ⊎ IsLapsed now task s
  pub may_take : MayTake project task only r s
  pub room : AllHaveRoom now (reset_learned now r) s

-- A slot of the list, by its number.
abbrev pub IsIn : List Slot → Slot → Type 0
IsIn slots s = any (λ (t : Slot). t.number == s.number) slots ≡ true

all-IsIn : (xs : List Slot) → All (IsIn xs) xs
all-IsIn [] = tt
all-IsIn (x ∷ xs) = (
  rw (eq_self x.number) refl,
  All_then xs (λ y h. rw h (or_true (x.number == y.number))) (all-IsIn xs),
)
  where
    eq_self : (n : ℕ) → (n == n) ≡ true
    eq_self n = ground arith

module _ (project task : String) (only : Option (List String)) (now : ℕ) (r : Run) where
  abbrev Found : Slot → Type 0
  Found s = IsCandidate project task only now r s × IsIn r.slots s

  candidates-Found : All Found (candidates project task only now r (reset_learned now r))
  unfolding candidates ready_slots
  candidates-Found =
      let Waits = λ (s : Slot). (IsReady r s ⊎ IsLapsed now task s) × IsIn r.slots s in
      let is_ready =
        λ (s : Slot). is_available s.status && is_subset s.depends_on (done_keys r.slots) in
      let ready = select is_ready r.slots in
      let stale = select (λ s. is_stale now task s) r.slots in
      let waiting =
        All-both Waits ready stale
          (All_then ready (λ s h. (inl ((IsReady-iff r s).0 h.0), h.1))
            (All-select_both (IsIn r.slots) is_ready r.slots (all-IsIn r.slots)))
          (All_then stale (λ s h. (inr ((stale_iff now task s).0 h.0), h.1))
            (All-select_both (IsIn r.slots) (λ s. is_stale now task s) r.slots
              (all-IsIn r.slots))) in
      All_then _
        (λ s h. (
          record {
            waits = h.1.1.0;
            may_take = (is_eligible-MayTake project task only r s).0 h.1.0;
            room = (within_iff now (reset_learned now r) s).0 h.0;
          },
          h.1.1.1,
        ))
        (All-select_both _ (λ s. is_within_caps now (reset_learned now r) s) _
          (All-select_both Waits (λ s. is_eligible project task only r s) (ready ++ stale) waiting))

  unfinished_candidate :
      (s : Slot) → Found s → (is_available s.status || is_claimed s.status) ≡ true
  unfinished_candidate s c = elim c.0.waits [
    | inl ready ↦ rw ready.free refl
    | inr lapsed ↦ rw lapsed.taken (or_true (is_available s.status))
  ]

  -- Without candidates, no slot of the run is one.
  none-IsCandidate :
      candidates project task only now r (reset_learned now r) ≡ []
      → All (λ s. ¬ IsCandidate project task only now r s) r.slots
  unfolding candidates ready_slots
  none-IsCandidate h =
      let within = λ (s : Slot). is_within_caps now (reset_learned now r) s in
      let eligible = λ (s : Slot). is_eligible project task only r s in
      let is_ready =
        λ (s : Slot). is_available s.status && is_subset s.depends_on (done_keys r.slots) in
      let stale = λ (s : Slot). is_stale now task s in
      let out =
        unselect (λ s. ⊥) within (select eligible (select is_ready r.slots ++ select stale r.slots))
          (subst (All (λ (s : Slot). ⊥)) (sym h) tt) in
      let left = unselect (λ s. within s ≡ true → ⊥) eligible _ out in
      let parts =
        All_split (λ s. eligible s ≡ true → within s ≡ true → ⊥) (select is_ready r.slots) _ left in
      All_join _ _ r.slots
        (λ s a b c. elim c.waits [
          | inl w ↦
              a ((IsReady-iff r s).1 w) ((is_eligible-MayTake project task only r s).1 c.may_take)
                ((within_iff now (reset_learned now r) s).1 c.room)
          | inr w ↦
              b ((stale_iff now task s).1 w)
                ((is_eligible-MayTake project task only r s).1 c.may_take)
                ((within_iff now (reset_learned now r) s).1 c.room)
        ])
        (unselect _ is_ready r.slots parts.0) (unselect _ stale r.slots parts.1)

-- `_choose_slot` chooses only a slot of the run that is ready, or lapsed in the hands of another worker,
-- that the worker may take by its pool, its operators, its exclusions and its reviews, and whose
-- resources are cooled down and below their maximum, whichever of its four rankings decides; and it
-- chooses none only where no slot of the run is such a candidate.
pub choose_slot-IsCandidate :
    (project task : String) (only : Option (List String)) (now : ℕ) (r : Run)
    → Holds
        (λ s. IsCandidate project task only now r s × IsIn r.slots s)
        (choose_slot project task only now r).1
      × ((choose_slot project task only now r).1 ≡ none
          → All (λ s. ¬ IsCandidate project task only now r s) r.slots)
unfolding choose_slot
choose_slot-IsCandidate project task only now r =
    let found = candidates-Found project task only now r in
    let slots = candidates project task only now r (reset_learned now r) in
    (
      chosen-Holds (Found project task only now r) now task (reset_learned now r) slots found,
      λ e. none-IsCandidate project task only now r (
          chosen-none now task (reset_learned now r) slots
            (All_then slots (unfinished_candidate project task only now r) found) e),
    )
