-- ===== src/Collab/Moves/Finish.antt =====
-- scripts/codex_loop_runtime/local_collaboration.py: finishing and integrating move a run.
use codex_loop.Base.{
  ℕ, ◌≡◌, refl, sym, ◌∙◌, subst, inl, inr, String, Bool, true, false, not, Option-cases,
  ok_injective, not-false, either_branch, Option, none, some, some_injective, Bool-cases, ok, ◌>>=◌,
  ◌&&◌, ◌||◌, ◌==◌, any, is_some, str_eq, Post, Post-ok, Post-reject, Post-step,
}
use codex_loop.Collab.{Run, Slot, SlotStatus, Offer, Reclaim}
use codex_loop.Collab.Rows.{
  is_opened, is_claimed, is_available, is_done, find_number, find_held, notice, is_unsettled,
}
use codex_loop.Collab.Election.{Election}
use codex_loop.Collab.Finish.{
  held_or, is_owed, record_done, finished_slot, done_if_claimed, finish_write,
}
use codex_loop.Collab.Finish.Late.{
  lease_row, is_resolved, late_row, may_accept, accept_late, preserve_late, resolve_late,
  late_write, tell, with_resolution, replacement_of, has_party, is_party, or_text,
}
use codex_loop.Collab.Moves.{Moves, Moves-refl, Moves-trans, IsNumbered, Follows}
use codex_loop.Collab.Moves.Slots.{find_number_again}
use codex_loop.Collab.Moves.Rules.{Moves-keep, Moves-open_update, Moves-elect_now}
use codex_loop.Collab.Moves.Changes.{done_if_claimed-Follows, finished_slot-Follows}

record_done-Moves :
    (worker commit : String) (number : ℕ) (f : Slot → Slot) (r : Run)
    → IsNumbered 1 r.slots
    → is_opened r.state ≡ true
    → ((s : Slot) → (f s).number ≡ s.number)
    → ((s : Slot) → find_number number r.slots ≡ some s → Follows s (f s))
    → Moves r (record_done worker commit number f r)
unfolding record_done
record_done-Moves worker commit number f r n opened keeps follows =
    Moves-open_update r _ n number f keeps follows refl opened refl

pub finish_write-Moves :
    (worker commit : String) (number generation now : ℕ) (r : Run)
    → IsNumbered 1 r.slots
    → Post
        (λ (x : Run × Election). Moves r x.0)
        (finish_write worker commit number generation now r)
unfolding finish_write
finish_write-Moves worker commit number generation now r n =
    Post-step (held_or (find_held worker r.slots)) _ (λ s h.
      Post-reject (not (s.number == number) || not (s.lease_generation == generation)) _ _ (λ h.
        Post-reject (is_owed worker r) _ _ (λ h.
          Post-reject (not (is_opened r.state)) _ _ (λ closed.
            let recorded =
              record_done-Moves worker commit s.number (done_if_claimed worker commit) r n
                (not-false (is_opened r.state) closed)
                (λ t.
                  either_branch (λ (u : Slot). u.number ≡ t.number) (is_claimed t.status) _ t refl
                    refl)
                (λ t h. done_if_claimed-Follows worker commit t) in
            Post-ok _ (
              Moves-trans r (record_done worker commit s.number (done_if_claimed worker commit) r) _
                recorded (Moves-elect_now worker now _ recorded.numbered))))))

tell-Moves :
    (worker body : String) (other : Option String) (stops : Bool) (r : Run)
    → IsNumbered 1 r.slots
    → Moves r (tell worker other body stops r)
unfolding notice
tell-Moves worker body none stops r n = Moves-refl r n
tell-Moves worker body (some other) stops r n =
    either_branch (Moves r) (str_eq other worker) r (notice worker (some other) body stops r)
      (Moves-refl r n) (Moves-keep r _ n refl refl refl)

guards : (a b c d e : Bool) → (a && b && c && d && e) ≡ true → (a ≡ true) × (c ≡ true)
guards true true true true true h = (refl, refl)
guards true true true true false h = cc
guards true true true false e h = cc
guards true true false d e h = cc
guards true false c d e h = cc
guards false b c d e h = cc

unfinished_status : (s : SlotStatus) → (is_available s || is_claimed s) ≡ true → is_done s ≡ false
unfinished_status SlotStatus.available h = refl
unfinished_status SlotStatus.claimed h = refl
unfinished_status SlotStatus.done h = sym h

-- What `may_accept` says of the run and the slot.
may_accept-opened :
    (worker : String) (start : Option String) (s : Slot) (r : Run)
    → may_accept worker start s r ≡ true
    → (is_opened r.state ≡ true) × (is_done s.status ≡ false)
unfolding may_accept
may_accept-opened worker start s r h =
    let both =
      guards (is_opened r.state) (is_some start) (is_available s.status || is_claimed s.status)
        (not (has_party (replacement_of s) r.delegations))
        (not (any (λ (o : Offer). is_party worker o && is_unsettled o) r.delegations)) h in
    (both.0, unfinished_status s.status both.1)

accept_late-Moves :
    (worker commit : String) (s : Slot) (now : ℕ) (r : Run)
    → IsNumbered 1 r.slots
    → is_opened r.state ≡ true
    → is_done s.status ≡ false
    → find_number s.number r.slots ≡ some s
    → Moves r (accept_late worker commit s now r)
unfolding accept_late
accept_late-Moves worker commit s now r n opened unfinished found =
    let finish = finished_slot worker commit in
    let done =
      record_done-Moves worker commit s.number finish r n opened (λ t. refl)
        (λ t there. finished_slot-Follows worker commit t (
          subst (λ u. is_done u.status ≡ false) (some_injective (sym found ∙ there)) unfinished)) in
    let told =
      tell-Moves worker _ (replacement_of s) true (record_done worker commit s.number finish r)
        done.numbered in
    Moves-trans r _ _ done (Moves-trans _ _ _ told (Moves-elect_now worker now _ told.numbered))

resolved-Moves :
    (id : ℕ) (word commit : String) (r t : Run)
    → Moves r t
    → Moves r (with_resolution id word commit t)
resolved-Moves id word commit r t moves =
    Moves-trans r t _ moves (Moves-keep t _ moves.numbered refl refl refl)

pub resolve_late-Moves :
    (worker commit : String) (start : Option String) (c : Reclaim) (s : Slot) (now : ℕ) (r : Run)
    → IsNumbered 1 r.slots
    → find_number s.number r.slots ≡ some s
    → Moves r (resolve_late worker commit start c s now r)
unfolding resolve_late preserve_late
resolve_late-Moves worker commit start c s now r n found =
    elim (Bool-cases (may_accept worker start s r)) [
      | inl may ↦
          let facts = may_accept-opened worker start s r may in
          rw may (
            resolved-Moves c.id "accepted" commit r (accept_late worker commit s now r)
              (accept_late-Moves worker commit s now r n facts.0 facts.1 found))
      | inr may ↦ rw may (
          resolved-Moves c.id "preserved" commit r _ (
            tell-Moves worker _
              (or_text (replacement_of s) (or_text s.completed_by r.integrator_task)) false r n))
    ]

late_row-found :
    (number : ℕ) (r : Run) (s : Slot)
    → IsNumbered 1 r.slots
    → late_row number r ≡ ok s
    → find_number s.number r.slots ≡ some s
unfolding late_row
late_row-found number r s n h = elim (Option-cases (find_number number r.slots)) [
  | inl missing ↦ cc (rw (late_row, missing) at h)
  | inr (t, found) ↦
      subst (λ (u : Slot). find_number u.number r.slots ≡ some u)
        (ok_injective (rw (late_row, found) at h)) (find_number_again number r.slots t n found)
]

pub late_write-Moves :
    (worker : String) (number generation : ℕ) (commit : String) (start : Option String) (now : ℕ)
    (r : Run)
    → IsNumbered 1 r.slots
    → Post (λ (t : Run). Moves r t) (late_write worker number generation commit start now r)
unfolding late_write
late_write-Moves worker number generation commit start now r n =
    Post-step (lease_row number worker generation r) _
      (λ c h. Post-step (is_resolved commit c) _ (λ known h. go c known))
  where
    go :
        (c : Reclaim) (known : Bool)
        → Post
            (λ (t : Run). Moves r t)
            (elim known [
              | true ↦ ok r
              | false ↦ do s ← late_row number r; ok (resolve_late worker commit start c s now r)
            ])
    go c true = Post-ok r (Moves-refl r n)
    go c false = Post-step (late_row number r) _ (λ s row.
        Post-ok _
          (resolve_late-Moves worker commit start c s now r n (late_row-found number r s n row)))
