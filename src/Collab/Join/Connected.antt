-- ===== src/Collab/Join/Connected.antt =====
-- scripts/codex_loop_runtime/local_collaboration.py: what the queries of `dynamic_join` see is the same
-- once a connection is made.
use codex_loop.Base.{
  ℕ, ◌≡◌, refl, ap, ◌∙◌, inl, inr, String, Bool, true, false, ◌&&◌, ◌||◌, not, is_some, Option,
  none, some, List, [], ◌∷◌, map, any, both_true, either_true, or_true,
}
use codex_loop.Collab.{Run, Slot}
use codex_loop.Collab.Rows.{is_opened, is_available, is_claimed, is_text, is_of}
use codex_loop.Collab.Leases.{graced, connect, is_live_lease}
use codex_loop.Collab.Moves.Connect.{graced-Graced}
use codex_loop.Collab.Join.{is_silent, has_own, has_place, is_own, is_open}

any-graced :
    (p : Slot → Bool) (now : ℕ) (xs : List Slot)
    → ((s : Slot) → p (graced now s) ≡ p s)
    → any p (map (λ s. graced now s) xs) ≡ any p xs
any-graced p now [] h = refl
any-graced p now (x ∷ xs) h = rw (h x, any-graced p now xs h) refl

graced-is_of : (worker : String) (now : ℕ) (s : Slot) → is_of worker (graced now s) ≡ is_of worker s
graced-is_of worker now s =
    let g = graced-Graced now s in
    ap (λ o. is_text o worker || is_text (graced now s).completed_by worker) g.2
    ∙ ap (λ o. is_text s.task_id worker || is_text o worker) g.3

pub has_own-connect :
    (worker : String) (now : ℕ) (r : Run) → has_own worker (connect now r) ≡ has_own worker r
unfolding connect has_own
has_own-connect worker now r =
    any-graced (λ s. is_of worker s) now r.slots (graced-is_of worker now)

pub is_own-connect :
    (worker : String) (now : ℕ) (r : Run) → is_own worker (connect now r) ≡ is_own worker r
unfolding connect is_own
is_own-connect worker now r = ap (λ own. not r.planned && own) (has_own-connect worker now r)

pub is_open-connect : (now : ℕ) (r : Run) → is_open (connect now r) ≡ is_open r
unfolding connect is_open
is_open-connect now r = refl

-- A slot whose lease has run out has given a sign of life before.
silent_graced :
    (worker : String) (now later : ℕ) (s : Slot)
    → is_silent worker later s ≡ true
    → is_silent worker later (graced now s) ≡ true
silent_graced worker now later s h =
    let both = both_true _ (not (is_live_lease later s.last_seen)) h in
    rw (seen s.last_seen both.1, nothing (is_claimed s.status)) h
  where
    seen : (o : Option ℕ) → not (is_live_lease later o) ≡ true → is_some o ≡ true
    seen none h = cc
    seen (some n) h = refl

    nothing : (a : Bool) → (a && false) ≡ false
    nothing true = refl
    nothing false = refl

any_silent :
    (worker : String) (now later : ℕ) (xs : List Slot)
    → any (λ s. is_silent worker later s) xs ≡ true
    → any (λ s. is_silent worker later s) (map (λ s. graced now s) xs) ≡ true
any_silent worker now later [] h = cc
any_silent worker now later (x ∷ xs) h =
    elim (either_true (is_silent worker later x) (any (λ s. is_silent worker later s) xs) h) [
      | inl here ↦ rw (silent_graced worker now later x here) refl
      | inr there ↦
          rw (any_silent worker now later xs there)
            (or_true (is_silent worker later (graced now x)))
    ]

pub has_place-connect :
    (worker : String) (now later : ℕ) (r : Run)
    → has_place worker later r ≡ true
    → has_place worker later (connect now r) ≡ true
unfolding connect has_place
has_place-connect worker now later r h =
    let own = has_own-connect worker now r in
    let free =
      any-graced (λ (s : Slot). is_available s.status) now r.slots
        (λ s. ap (λ u. is_available u) (graced-Graced now s).1) in
    rw (own, free)
      (passes (has_own worker r || any (λ (s : Slot). is_available s.status) r.slots)
        (is_opened r.state) _ _ (any_silent worker now later r.slots) h)
  where
    passes :
        (a o s t : Bool) → (s ≡ true → t ≡ true) → (a || (o && s)) ≡ true → (a || (o && t)) ≡ true
    passes true o s t f h = refl
    passes false true s t f h = f h
    passes false false s t f h = h
