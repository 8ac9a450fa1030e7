-- ===== src/Collab/Moves/Claim.antt =====
-- scripts/codex_loop_runtime/local_collaboration.py: a claim moves a run.
use codex_loop.Base.{
  ℕ, ◌≡◌, refl, ap, ◌∙◌, String, Bool, true, false, not, either_branch, Option, none, some, List,
  [], ◌∷◌, ◌++◌, ok, ◌>>=◌, if◌then◌else◌, any, Post, Post-ok, Post-err, Post-reject, Post-bind,
  Post-step, Post-map,
}
use codex_loop.Collab.{Run, Slot, Offer, Cap}
use codex_loop.Collab.Rows.{
  is_opened, is_claimed, is_available, next_number, find_held, active_owner, update_slot,
  ready_slots,
}
use codex_loop.Collab.Offers.{with_offer, accepted_by}
use codex_loop.Collab.Choose.Learned.{reset_one, reset_all, reset_learned, is_over, unlearned}
use codex_loop.Collab.Pools.{find_cap}
use codex_loop.Collab.Tables.{remove}
use codex_loop.Collab.Choose.Final.{choose_slot, dispatched}
use codex_loop.Collab.Claim.{Outside, Turn, taken, answered}
use codex_loop.Collab.Claim.Taking.{
  assign, assigned, is_clash, vacate, take_offer, offer_slot, open_offer, empty_turn,
  offer_or_empty, chosen_turn, some_of, is_unfinished,
}
use codex_loop.Collab.Moves.{Moves, Moves-refl, Moves-trans, IsNumbered}
use codex_loop.Collab.Moves.Slots.{next_number-IsNumbered}
use codex_loop.Collab.Moves.Rules.{Moves-keep, Moves-open_update, Moves-open_append}
use codex_loop.Collab.Moves.Changes.{assigned-Follows, active_owner-find_held}
use codex_loop.Collab.Moves.Leases.{reclaim_slot-Moves}

-- The rows that matter here are the same.
pub record Same (r t : Run) : Type 0 where
  pub state : t.state ≡ r.state
  pub slots : t.slots ≡ r.slots
  pub offers : t.delegations ≡ r.delegations

Same-refl : (r : Run) → Same r r
Same-refl r = record { state = refl; slots = refl; offers = refl }

Same-trans : (r t u : Run) → Same r t → Same t u → Same r u
Same-trans r t u h k = record {
  state = k.state ∙ h.state;
  slots = k.slots ∙ h.slots;
  offers = k.offers ∙ h.offers;
}

reset_one-Same :
    (now : ℕ) (resource : String) (original : Option ℕ) (r : Run)
    → Same r (reset_one now resource original r)
unfolding reset_one
reset_one-Same now resource original r = go (find_cap resource r.resource_caps)
  where
    go :
        (found : Option Cap)
        → Same r (elim found [
          | none ↦ r
          | some c ↦
              if is_over now resource c r
              then record r {
                resource_caps = unlearned resource original r.resource_caps;
                learned_resource_caps = remove resource r.learned_resource_caps;
                resource_blocks = remove resource r.resource_blocks;
              }
              else r
        ])
    go none = Same-refl r
    go (some c) =
        either_branch (Same r) (is_over now resource c r) _ r
          (record { state = refl; slots = refl; offers = refl }) (Same-refl r)

reset_all-Same :
    (now : ℕ) (rows : List (String × Option ℕ)) (r : Run) → Same r (reset_all now rows r)
unfolding reset_all
reset_all-Same now [] r = Same-refl r
reset_all-Same now (row ∷ rows) r =
    Same-trans r (reset_one now row.0 row.1 r) _ (reset_one-Same now row.0 row.1 r)
      (reset_all-Same now rows (reset_one now row.0 row.1 r))

dispatched-Same : (s : Option Slot) (r : Run) → Same r (dispatched s r)
unfolding dispatched
dispatched-Same none r = Same-refl r
dispatched-Same (some s) r = record { state = refl; slots = refl; offers = refl }

pub choose_slot-Same :
    (project worker : String) (only : Option (List String)) (now : ℕ) (r : Run)
    → Same r (choose_slot project worker only now r).0
unfolding choose_slot reset_learned
choose_slot-Same project worker only now r =
    Same-trans r (reset_learned now r) _ (reset_all-Same now r.learned_resource_caps r)
      (dispatched-Same _ (reset_learned now r))

-- A turn that moves the run, to a slot that the worker holds.
abbrev pub IsHeld : String → Run × Turn → Type 0
IsHeld worker (r, taken s) = find_held worker r.slots ≡ some s
IsHeld worker (r, answered a) = Unit {0}

abbrev pub Turns : String → Run → Run × Turn → Type 0
Turns worker r x = Moves r x.0 × IsHeld worker x

owned-Turns :
    (worker : String) (r t : Run)
    → Moves r t
    → Post (Turns worker r) (active_owner worker none t >>= λ s. ok (t, taken s))
owned-Turns worker r t moves =
    Post-step (active_owner worker none t) _
      (λ s h. Post-ok (t, taken s) (moves, active_owner-find_held worker none t s h))

assign-Moves :
    (world : Outside) (worker : String) (number now : ℕ) (r : Run)
    → IsNumbered 1 r.slots
    → is_opened r.state ≡ true
    → Post (Turns worker r) (assign world worker number now r)
unfolding assign
assign-Moves world worker number now r n opened =
    Post-reject (is_clash world worker number r.slots) _ _ (λ h.
      owned-Turns worker r (record r { slots = update_slot number (assigned worker now) r.slots })
        (Moves-open_update r _ n number (assigned worker now)
          (λ t.
            either_branch (λ (u : Slot). u.number ≡ t.number) (is_available t.status) _ t refl refl)
          (λ t h. assigned-Follows worker now t) refl opened refl))

vacate-Moves :
    (s : Slot) (now : ℕ) (r : Run)
    → IsNumbered 1 r.slots
    → is_opened r.state ≡ true
    → Post (λ (t : Run). Moves r t × (t.state ≡ r.state)) (vacate s now r)
unfolding vacate
vacate-Moves s now r n opened =
    either_branch (Post (λ (t : Run). Moves r t × (t.state ≡ r.state))) (is_claimed s.status) _
      (ok r) (reclaim_slot-Moves s _ now r n opened) (Post-ok r (Moves-refl r n, refl))

take_offer-Moves :
    (world : Outside) (worker : String) (o : Offer) (now : ℕ) (r : Run)
    → IsNumbered 1 r.slots
    → is_opened r.state ≡ true
    → Post (Turns worker r) (take_offer world worker o now r)
unfolding take_offer IsNumbered
take_offer-Moves world worker o now r n opened =
    Post-reject (is_clash world worker (next_number r.slots) r.slots) _ _ (λ h.
      owned-Turns worker r
        (with_offer o.id (accepted_by worker)
          (record r { slots = r.slots ++ offer_slot worker (next_number r.slots) now o ∷ [] }))
        (Moves-open_append r _ n (offer_slot worker (next_number r.slots) now o ∷ []) opened refl
          refl (next_number-IsNumbered r.slots n, tt)))

empty_turn-Moves :
    (worker : String) (waits : Bool) (now : ℕ) (r : Run)
    → IsNumbered 1 r.slots
    → Post (Turns worker r) (empty_turn worker waits now r)
unfolding empty_turn
empty_turn-Moves worker true now r n = Post-ok _ (
    either_branch (Turns worker r) (is_unfinished r) _ _ (Moves-keep r _ n refl refl refl, tt)
      (Moves-keep r _ n refl refl refl, tt))
empty_turn-Moves worker false now r n =
    Post-reject (some_of (ready_slots r.slots)) _ _
      (λ h. Post-reject (any (λ (s : Slot). is_available s.status) r.slots) _ _ (λ h. Post-err _))

pub chosen_turn-Moves :
    (world : Outside) (worker : String) (waits : Bool) (now : ℕ) (r : Run) (s : Option Slot)
    → IsNumbered 1 r.slots
    → is_opened r.state ≡ true
    → Post (Turns worker r) (chosen_turn world worker waits now r s)
unfolding chosen_turn offer_or_empty
chosen_turn-Moves world worker waits now r (some s) n opened =
    Post-bind (vacate s now r) _ (vacate-Moves s now r n opened) (λ t moves.
      Post-map
        (assign-Moves world worker s.number now t moves.0.numbered
          (ap (λ s. is_opened s) moves.1 ∙ opened))
        (λ x h. (Moves-trans r t x.0 moves.0 h.0, h.1)))
chosen_turn-Moves world worker waits now r none n opened =
    Post-reject (not r.planned) _ _ (λ h. go (open_offer worker r.delegations))
  where
    go : (o : Option Offer) → Post (Turns worker r) (offer_or_empty world worker waits o now r)
    go none = empty_turn-Moves worker waits now r n
    go (some o) = take_offer-Moves world worker o now r n opened
