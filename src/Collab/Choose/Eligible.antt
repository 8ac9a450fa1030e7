-- ===== src/Collab/Choose/Eligible.antt =====
-- scripts/codex_loop_runtime/local_collaboration.py: which slots a worker may take, and which resources
-- have room.
use codex_loop.Base.{
  ◌≡◌, ◌↔◌, refl, ap, ◌∙◌, inl, inr, String, Bool, true, false, ◌||◌, Option, none, some, List, [],
  ◌∷◌, member, str_eq, eq_iff, eq_refl, Bool-cases, both_true, some_injective,
}
use codex_loop.Collab.{Run, Slot}
use codex_loop.Collab.Tables.{find_entry}
use codex_loop.Collab.Choose.{
  own_names, produced, are_disjoint, is_allowed_pool, is_operator, is_eligible,
}

-- Two lists without a common name.
abbrev AreApart : List String → List String → Type 0
AreApart xs ys = (k : String) → member k xs ≡ true → member k ys ≡ false

apart_sound : (xs ys : List String) → are_disjoint xs ys ≡ true → AreApart xs ys
apart_sound [] ys h k there = cc
apart_sound (x ∷ xs) ys h k there = elim (Bool-cases (member x ys)) [
  | inl common ↦ absurd (cc (rw common at h))
  | inr apart ↦ elim (Bool-cases (str_eq k x)) [
    | inl same ↦ ap (λ j. member j ys) ((eq_iff k x).0 same) ∙ apart
    | inr other ↦ apart_sound xs ys (rw apart at h) k (rw other at there)
  ]
]

apart_complete : (xs ys : List String) → AreApart xs ys → are_disjoint xs ys ≡ true
apart_complete [] ys h = refl
apart_complete (x ∷ xs) ys h =
    rw (h x (rw (eq_refl x) refl))
      (apart_complete xs ys (λ k there. h k (later (str_eq k x) (member k xs) there)))
  where
    later : (a b : Bool) → b ≡ true → (a || b) ≡ true
    later true b h = refl
    later false b h = h

-- The worker may take the slot: its pool is among those asked for, the worker is an operator of the pool
-- where there are any, no name of the worker is excluded, and the worker did none of what the slot
-- reviews.
pub record MayTake (project task : String) (only : Option (List String)) (r : Run) (s : Slot)
    : Type 0 where
  pub pool : (pools : List String) → only ≡ some pools → member s.pool_id pools ≡ true
  pub operator :
      (tasks : List String)
      → find_entry s.pool_id r.pool_operators ≡ some tasks
      → member task tasks ≡ true
  pub included : AreApart s.exclude_workers (own_names project task r)
  pub independent : AreApart s.review_of (produced task r.slots)

allowed_sound :
    (only : Option (List String)) (p : String)
    → is_allowed_pool only p ≡ true
    → (pools : List String) → only ≡ some pools
    → member p pools ≡ true
allowed_sound none p h pools e = cc
allowed_sound (some given) p h pools e = rw⁻¹ (some_injective e) h

allowed_complete :
    (only : Option (List String)) (p : String)
    → ((pools : List String) → only ≡ some pools → member p pools ≡ true)
    → is_allowed_pool only p ≡ true
allowed_complete none p h = refl
allowed_complete (some given) p h = h given refl

operator_sound :
    (given : Option (List String)) (task : String)
    → is_operator given task ≡ true
    → (tasks : List String) → given ≡ some tasks
    → member task tasks ≡ true
operator_sound none task h tasks e = cc
operator_sound (some ts) task h tasks e = rw⁻¹ (some_injective e) h

operator_complete :
    (given : Option (List String)) (task : String)
    → ((tasks : List String) → given ≡ some tasks → member task tasks ≡ true)
    → is_operator given task ≡ true
operator_complete none task h = refl
operator_complete (some ts) task h = h ts refl

pub is_eligible-MayTake :
    (project task : String) (only : Option (List String)) (r : Run) (s : Slot)
    → (is_eligible project task only r s ≡ true) ↔ MayTake project task only r s
unfolding is_eligible
is_eligible-MayTake project task only r s = (
  λ h.
      let a = both_true _ (are_disjoint s.review_of (produced task r.slots)) h in
      let b = both_true _ (are_disjoint s.exclude_workers (own_names project task r)) a.0 in
      let c = both_true (is_allowed_pool only s.pool_id) _ b.0 in
      record {
        pool = allowed_sound only s.pool_id c.0;
        operator = operator_sound (find_entry s.pool_id r.pool_operators) task c.1;
        included = apart_sound s.exclude_workers (own_names project task r) b.1;
        independent = apart_sound s.review_of (produced task r.slots) a.1;
      },
  λ m.
      rw
        (
          is_eligible,
          allowed_complete only s.pool_id m.pool,
          operator_complete (find_entry s.pool_id r.pool_operators) task m.operator,
          apart_complete s.exclude_workers (own_names project task r) m.included,
          apart_complete s.review_of (produced task r.slots) m.independent,
        )
        refl,
)
