-- ===== src/Collab/Join/Entered.antt =====
-- scripts/codex_loop_runtime/local_collaboration.py: the run that a worker has entered by `dynamic_join`.
use codex_loop.Base.{
  ℕ, ◌≤◌, ◌≡◌, ◌⊎◌, refl, ap, ◌∙◌, inl, inr, String, Bool, true, false, ◌&&◌, ◌||◌, not, Bool-cases,
  both_true, either_true, or_true, Option, none, some, List, [], ◌∷◌, ◌++◌, any, str_eq, eq_refl,
  ok, Post, Post-ok, Post-reject, Post-step, Post-bind, arith,
}
use codex_loop.Collab.{Run, Slot}
use codex_loop.Collab.Checks.{text}
use codex_loop.Collab.Rows.{is_opened, is_available, is_claimed, is_of, next_number}
use codex_loop.Collab.Leases.{is_live_lease}
use codex_loop.Collab.Claim.{Outside}
use codex_loop.Collab.Join.{
  Row, own_slot, is_another, is_silent, has_own, has_place, enter, enter_row, is_own, is_open,
  connected_row,
}
use codex_loop.Collab.Leases.{connect}
use codex_loop.Collab.Join.Connected.{has_place-connect}

live_later :
    (now later : ℕ) (seen : Option ℕ)
    → now ≤ later
    → not (is_live_lease now seen) ≡ true
    → not (is_live_lease later seen) ≡ true
live_later now later none le h = cc
live_later now later (some seen) le h = ground arith

silent_later :
    (worker : String) (now later : ℕ) (slots : List Slot)
    → now ≤ later
    → any (λ s. is_silent worker now s) slots ≡ true
    → any (λ s. is_silent worker later s) slots ≡ true
silent_later worker now later [] le h = cc
silent_later worker now later (s ∷ slots) le h =
    elim (either_true (is_silent worker now s) (any (λ s. is_silent worker now s) slots) h) [
      | inl here ↦
          let parts =
            both_true (is_claimed s.status && is_another s.task_id worker)
              (not (is_live_lease now s.last_seen)) here in
          rw (parts.0, live_later now later s.last_seen le parts.1) refl
      | inr there ↦
          rw (silent_later worker now later slots le there) (or_true (is_silent worker later s))
    ]

pub has_place-later :
    (worker : String) (now later : ℕ) (r : Run)
    → now ≤ later
    → has_place worker now r ≡ true
    → has_place worker later r ≡ true
unfolding has_place
has_place-later worker now later r le h =
    passes (has_own worker r || any (λ (s : Slot). is_available s.status) r.slots)
      (is_opened r.state) (any (λ s. is_silent worker now s) r.slots)
      (any (λ s. is_silent worker later s) r.slots) (silent_later worker now later r.slots le) h
  where
    passes :
        (a o s t : Bool) → (s ≡ true → t ≡ true) → (a || (o && s)) ≡ true → (a || (o && t)) ≡ true
    passes true o s t f h = refl
    passes false true s t f h = f h
    passes false false s t f h = h

any-last : (p : Slot → Bool) (xs : List Slot) (x : Slot) → p x ≡ true → any p (xs ++ x ∷ []) ≡ true
any-last p [] x h = rw h refl
any-last p (y ∷ xs) x h = rw (any-last p xs x h) (or_true (p y))

-- A run that a worker has entered.
pub record Entered (worker : String) (now : ℕ) (r t : Run) : Type 0 where
  pub parent : t.worktree_parent ≡ r.worktree_parent
  pub unplanned : t.planned ≡ r.planned
  pub place : has_place worker now t ≡ true
  pub fresh : (has_own worker t ≡ true) ⊎ (t ≡ r)

pub own_place :
    (worker : String) (now : ℕ) (r : Run) → has_own worker r ≡ true → has_place worker now r ≡ true
unfolding has_place
own_place worker now r h = rw h refl

pub enter-Entered :
    (world : Outside) (worker title instructions : String) (now : ℕ) (r : Run)
    → Post (Entered worker now r) (enter world worker title instructions now r)
unfolding enter has_own
enter-Entered world worker title instructions now r = elim (Bool-cases (has_place worker now r)) [
  | inl place ↦
      rw (enter, place)
        (Post-ok r (record { parent = refl; unplanned = refl; place = place; fresh = inr refl }))
  | inr none_left ↦
      rw (enter, none_left)
        (Post-step (text 200 title) _ (λ name h. Post-step (text 60000 instructions) _ (λ told h.
          Post-reject world.is_held_elsewhere _ _ (λ h. Post-ok _ (
            owned worker now r (own_slot (next_number r.slots) name told worker)
              (rw (eq_refl worker) refl))))))
]
  where
    owned :
        (worker : String) (now : ℕ) (r : Run) (s : Slot)
        → is_of worker s ≡ true
        → Entered worker now r (record r { slots = r.slots ++ s ∷ [] })
    owned worker now r s mine =
        let own = any-last (λ s. is_of worker s) r.slots s mine in
        record {
          parent = refl;
          unplanned = refl;
          place = own_place worker now (record r { slots = r.slots ++ s ∷ [] }) own;
          fresh = inl own;
        }

-- It is entered again, at any later time.
pub enter-again :
    (world : Outside) (worker title instructions : String) (now : ℕ) (t : Run)
    → has_place worker now t ≡ true
    → enter world worker title instructions now t ≡ ok t
unfolding enter
enter-again world worker title instructions now t place = rw (enter, place) refl

pub place_later :
    (worker : String) (now later : ℕ) (t : Run)
    → now ≤ later
    → has_place worker now t ≡ true
    → has_place worker later (connect later t) ≡ true
place_later worker now later t le place =
    has_place-connect worker later later t (has_place-later worker now later t le place)

pub enter_row-again :
    (world : Outside) (worker strategy title instructions title' instructions' : String)
    (now later : ℕ) (row : Row)
    → now ≤ later
    → Post
        (λ (x : Row).
          (enter_row world worker strategy title' instructions' later (connected_row later x)
            ≡ ok (connected_row later x))
          × Entered worker now row.1 x.1)
        (enter_row world worker strategy title instructions now row)
unfolding enter_row connect
enter_row-again world worker strategy title instructions title' instructions' now later row le =
    Post-reject (not (str_eq row.0 strategy) || not (str_eq row.1.worktree_parent world.parent)) _ _
      (λ agrees.
        Post-bind (enter world worker title instructions now row.1) _
          (enter-Entered world worker title instructions now row.1)
          (λ t e.
            Post-ok (row.0, t)
              (
                rw
                    (
                      ap (λ p. not (str_eq row.0 strategy) || not (str_eq p world.parent)) e.parent
                          ∙ agrees,
                      enter-again world worker title' instructions' later (connect later t)
                          (place_later worker now later t le e.place),
                    )
                    refl,
                e,
              )))

pub own_unplanned :
    (worker : String) (r : Run)
    → r.planned ≡ false
    → has_own worker r ≡ true
    → is_own worker r ≡ true
unfolding is_own
own_unplanned worker r unplanned own = rw (is_own, unplanned, own) refl

pub found_unplanned :
    (worker : String) (r : Run) → (is_own worker r || is_open r) ≡ true → r.planned ≡ false
unfolding is_own is_open
found_unplanned worker r found = elim (Bool-cases r.planned) [
  | inl planned ↦ absurd (cc (rw (is_own, is_open, planned) at found))
  | inr unplanned ↦ unplanned
]
