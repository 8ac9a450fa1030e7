-- ===== src/Collab/Layers/Loop.antt =====
-- A proof rule for the loop, and how many rounds it takes
-- (scripts/codex_loop_runtime/local_collaboration.py).
use codex_loop.Base.{
  ℕ, zero, suc, ◌-◌, ◌<◌, leb-false, ◌≡◌, ◌≢◌, refl, subst, inl, inr, true, false, List, [], ◌∷◌,
  ◌++◌, length, length-append, Bool-cases, arith, leb,
}
use codex_loop.Collab.Layers.{Graph, Outcome, ordered, stuck, out_of_rounds, next_layer, layers}

-- What to show of an invariant of the placed items and a postcondition.
pub record Rule {A B : Type 0} (g : Graph A B) (all : List A) (P : List A → Type 0)
    (Q : Outcome A → Type 0) : Type 0 where
  pub finish :
      (placed : List A) → P placed → leb (length all) (length placed) ≡ true → Q (ordered placed)
  pub halt :
      (placed : List A)
      → P placed
      → leb (length all) (length placed) ≡ false
      → next_layer g all placed ≡ []
      → Q stuck
  pub out : Q out_of_rounds
  pub round : (placed : List A) → P placed → P (placed ++ next_layer g all placed)

module _ {A B : Type 0} (g : Graph A B) where
  -- A round, with what the next rounds give.
  round_cases :
      (Q : Outcome A → Type 0) (layer : List A) (later : List A → Outcome A)
      → (layer ≡ [] → Q stuck)
      → ((t : A) (ts : List A) → layer ≡ t ∷ ts → Q (later (t ∷ ts)))
      → Q (elim layer [ [] ↦ stuck | t ∷ ts ↦ later (t ∷ ts) ])
  round_cases Q [] later halted more = halted refl
  round_cases Q (t ∷ ts) later halted more = more t ts refl

  pub layers_ind :
      {all : List A} {P : List A → Type 0} {Q : Outcome A → Type 0}
      → Rule g all P Q
      → (n : ℕ) (placed : List A) → P placed
      → Q (layers g n all placed)
  unfolding layers
  layers_ind rule zero placed p = rule.out
  layers_ind {all} {P} {Q} rule (suc n) placed p =
      elim (Bool-cases (leb (length all) (length placed))) [
        | inl full ↦ rw (full, layers) (rule.finish placed p full)
        | inr more ↦
            rw (more, layers)
              (round_cases Q (next_layer g all placed) (λ ts. layers g n all (placed ++ ts))
                (rule.halt placed p more)
                (λ t ts e.
                  layers_ind rule n (placed ++ (t ∷ ts))
                    (subst (λ layer. P (placed ++ layer)) e (rule.round placed p))))
      ]

  -- Each round places an item: as many rounds as there are items, and one more, are enough.
  pub layers_enough :
      (n : ℕ) (all placed : List A)
      → length all - length placed < n
      → layers g n all placed ≢ out_of_rounds
  unfolding layers
  layers_enough zero all placed h = absurd (omega arith)
  layers_enough (suc n) all placed h = elim (Bool-cases (leb (length all) (length placed))) [
    | inl full ↦ rw (full, layers) (λ e. cc)
    | inr more ↦
        rw (more, layers)
          (round_cases (λ o. o ≢ out_of_rounds) (next_layer g all placed)
            (λ ts. layers g n all (placed ++ ts)) (λ e o. cc)
            (λ t ts e. layers_enough n all (placed ++ (t ∷ ts)) (
              omega (
                arith,
                leb-false (length all) (length placed) more,
                length-append placed (t ∷ ts),
              ))))
  ]
