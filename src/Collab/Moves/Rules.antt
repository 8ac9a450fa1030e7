-- ===== src/Collab/Moves/Rules.antt =====
-- scripts/codex_loop_runtime/local_collaboration.py: how an operation is seen to move a run.
use codex_loop.Base.{
  ℕ, ◌+◌, ◌≡◌, sym, ap, ◌∙◌, subst, inl, inr, String, true, ◌&&◌, some, List, ◌++◌, length, ◌==◌,
  Bool-cases, both_true, all, count,
}
use codex_loop.Collab.{Run, Slot, Offer}
use codex_loop.Collab.Rows.{is_opened, is_done, is_unsettled, update_slot, find_number}
use codex_loop.Collab.Election.{elect_now, is_finished, some_slots}
use codex_loop.Collab.Moves.{
  Follows, Extends, Extends-refl, IsNumbered, IsSettled, Moves, Moves-refl,
}
use codex_loop.Collab.Moves.Slots.{
  Extends-update_slot, Extends-append, IsNumbered-update_slot, IsNumbered-append,
  all_done-update_slot, eq_sound,
}

-- A run that is open before and after.
pub Moves-open :
    (r t : Run)
    → is_opened r.state ≡ true
    → t.state ≡ r.state
    → IsNumbered 1 t.slots
    → Extends r.slots t.slots
    → Moves r t
unfolding IsSettled
Moves-open r t opened state numbered slots = record {
  numbered = numbered;
  slots = slots;
  settled = λ h closed. absurd (cc (ap (λ s. is_opened s) state));
}

module _ (r t : Run) (numbered : IsNumbered 1 r.slots) where
  pub Moves-open_same : is_opened r.state ≡ true → t.state ≡ r.state → t.slots ≡ r.slots → Moves r t
  Moves-open_same opened state slots =
      Moves-open r t opened state (subst (λ xs. IsNumbered 1 xs) (sym slots) numbered)
        (subst (λ xs. Extends r.slots xs) (sym slots) (Extends-refl r.slots))

  pub Moves-open_append :
      (ys : List Slot)
      → is_opened r.state ≡ true
      → t.state ≡ r.state
      → t.slots ≡ r.slots ++ ys
      → IsNumbered (1 + length r.slots) ys
      → Moves r t
  Moves-open_append ys opened state slots more =
      Moves-open r t opened state
        (subst (λ xs. IsNumbered 1 xs) (sym slots) (IsNumbered-append 1 r.slots ys numbered more))
        (subst (λ xs. Extends r.slots xs) (sym slots) (Extends-append r.slots ys))

  -- Rows that do not matter here.
  pub Moves-keep :
      is_opened t.state ≡ is_opened r.state
      → t.slots ≡ r.slots
      → t.delegations ≡ r.delegations
      → Moves r t
  unfolding IsSettled
  Moves-keep state slots offers = record {
    numbered = subst (λ xs. IsNumbered 1 xs) (sym slots) numbered;
    slots = subst (λ xs. Extends r.slots xs) (sym slots) (Extends-refl r.slots);
    settled = λ h closed. rw (slots, offers) (h (sym state ∙ closed));
  }

  -- Delegations of which as many are unsettled.
  pub Moves-keep_count :
      is_opened t.state ≡ is_opened r.state
      → t.slots ≡ r.slots
      → count (λ (o : Offer). is_unsettled o) t.delegations
        ≡ count (λ (o : Offer). is_unsettled o) r.delegations
      → Moves r t
  unfolding IsSettled
  Moves-keep_count state slots unsettled = record {
    numbered = subst (λ xs. IsNumbered 1 xs) (sym slots) numbered;
    slots = subst (λ xs. Extends r.slots xs) (sym slots) (Extends-refl r.slots);
    settled = λ h closed. let was = h (sym state ∙ closed) in (rw slots was.0, unsettled ∙ was.1);
  }

  module _ (m : ℕ) (f : Slot → Slot) (keeps : (s : Slot) → (f s).number ≡ s.number)
      (follows : (s : Slot) → find_number m r.slots ≡ some s → Follows s (f s))
      (slots : t.slots ≡ update_slot m f r.slots) where
    updated-IsNumbered : IsNumbered 1 t.slots
    updated-IsNumbered =
        subst (λ xs. IsNumbered 1 xs) (sym slots)
          (IsNumbered-update_slot m 1 f r.slots keeps numbered)

    updated-Extends : Extends r.slots t.slots
    updated-Extends =
        subst (λ xs. Extends r.slots xs) (sym slots)
          (Extends-update_slot m 1 f r.slots numbered follows)

    pub Moves-open_update : is_opened r.state ≡ true → t.state ≡ r.state → Moves r t
    Moves-open_update opened state = Moves-open r t opened state updated-IsNumbered updated-Extends

    -- An update that keeps which slots are done.
    pub Moves-keep_update :
        t.state ≡ r.state
        → t.delegations ≡ r.delegations
        → ((s : Slot) → is_done (f s).status ≡ is_done s.status)
        → Moves r t
    unfolding IsSettled
    Moves-keep_update state offers done = record {
      numbered = updated-IsNumbered;
      slots = updated-Extends;
      settled = λ h closed.
          let was = h (rw state at closed) in
          (rw slots (all_done-update_slot m f r.slots done was.0), rw offers was.1);
    }

is_finished-done :
    (r : Run)
    → is_finished r ≡ true
    → (all (λ (s : Slot). is_done s.status) r.slots ≡ true)
      × (count (λ (o : Offer). is_unsettled o) r.delegations ≡ 0)
unfolding is_finished
is_finished-done r h =
    let first =
      both_true (some_slots r.slots && all (λ (s : Slot). is_done s.status) r.slots)
        (count (λ (o : Offer). is_unsettled o) r.delegations == 0) h in
    (
      (both_true (some_slots r.slots) (all (λ (s : Slot). is_done s.status) r.slots) first.0).1,
      eq_sound (count (λ (o : Offer). is_unsettled o) r.delegations) 0 first.1,
    )

-- Whoever is elected, the run was finished.
pub Moves-elect_now :
    (worker : String) (now : ℕ) (r : Run)
    → IsNumbered 1 r.slots
    → Moves r (elect_now worker now r).0
unfolding elect_now IsSettled
Moves-elect_now worker now r numbered = elim (Bool-cases (is_opened r.state && is_finished r)) [
  | inl hit ↦ rw hit (record {
    numbered = numbered;
    slots = Extends-refl r.slots;
    settled = λ h closed. is_finished-done r (both_true (is_opened r.state) (is_finished r) hit).1;
  })
  | inr miss ↦ rw miss (Moves-refl r numbered)
]
