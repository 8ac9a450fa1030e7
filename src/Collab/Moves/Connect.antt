-- ===== src/Collab/Moves/Connect.antt =====
-- scripts/codex_loop_runtime/local_collaboration.py: what a connection does before its transaction moves a
-- run.
use codex_loop.Base.{
  ℕ, suc, ◌≡◌, refl, ap, ◌∙◌, inl, inr, true, ◌&&◌, not, is_some, List, [], ◌∷◌, map, all,
  Bool-cases, both_true,
}
use codex_loop.Collab.{Run, Slot}
use codex_loop.Collab.Rows.{is_claimed, is_done}
use codex_loop.Collab.Leases.{graced, connect}
use codex_loop.Collab.Moves.{Moves, Follows, Follows-refl, Extends, IsNumbered, IsSettled}
use codex_loop.Collab.Moves.Changes.{seen_at-Follows}

-- What is the same of a slot afterwards.
abbrev pub Graced : Slot → Slot → Type 0
Graced s t =
    (t.number ≡ s.number)
    × (t.status ≡ s.status)
    × (t.task_id ≡ s.task_id)
    × (t.completed_by ≡ s.completed_by)

pub graced-Graced : (now : ℕ) (s : Slot) → Graced s (graced now s)
graced-Graced now s = elim (Bool-cases (is_claimed s.status && not (is_some s.last_seen))) [
  | inl mute ↦ rw mute (refl, refl, refl, refl)
  | inr seen ↦ rw seen (refl, refl, refl, refl)
]

graced-Follows : (now : ℕ) (s : Slot) → Follows s (graced now s)
graced-Follows now s = elim (Bool-cases (is_claimed s.status && not (is_some s.last_seen))) [
  | inl mute ↦ rw mute (seen_at-Follows now s)
  | inr seen ↦ rw seen (Follows-refl s)
]

graced-Extends : (now : ℕ) (xs : List Slot) → Extends xs (map (λ s. graced now s) xs)
unfolding Extends
graced-Extends now [] = tt
graced-Extends now (x ∷ xs) = (graced-Follows now x, graced-Extends now xs)

graced-IsNumbered :
    (now n : ℕ) (xs : List Slot) → IsNumbered n xs → IsNumbered n (map (λ s. graced now s) xs)
unfolding IsNumbered
graced-IsNumbered now n [] h = tt
graced-IsNumbered now n (x ∷ xs) h =
    ((graced-Graced now x).0 ∙ h.0, graced-IsNumbered now (suc n) xs h.1)

graced_done :
    (now : ℕ) (xs : List Slot)
    → all (λ (s : Slot). is_done s.status) xs ≡ true
    → all (λ (s : Slot). is_done s.status) (map (λ s. graced now s) xs) ≡ true
graced_done now [] h = refl
graced_done now (x ∷ xs) h =
    let both = both_true (is_done x.status) _ h in
    rw (ap (λ s. is_done s) (graced-Graced now x).1 ∙ both.0) (graced_done now xs both.1)

pub connect-Moves : (now : ℕ) (r : Run) → IsNumbered 1 r.slots → Moves r (connect now r)
unfolding connect IsSettled
connect-Moves now r n = record {
  numbered = graced-IsNumbered now 1 r.slots n;
  slots = graced-Extends now r.slots;
  settled = λ h closed. let was = h closed in (graced_done now r.slots was.0, was.1);
}
