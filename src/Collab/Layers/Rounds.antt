-- ===== src/Collab/Layers/Rounds.antt =====
-- What a round of the loop keeps (scripts/codex_loop_runtime/local_collaboration.py).
use mathlib.Core.List.Perm
use mathlib.Core.List.{Perm, append_assoc}
use codex_loop.Base.{
  ◌+◌, ◌≡◌, ◌↔◌, refl, sym, subst, ap, ◌∙◌, inl, inr, Bool, true, false, ◌&&◌, ◌||◌, not, List, [],
  ◌∷◌, ◌++◌, all, select, length, length-append, All, Bool-cases, arith, if◌then◌else◌,
}
use codex_loop.Collab.Layers.{Graph, is_placed, is_satisfied, next_layer}
use codex_loop.Collab.Layers.Sets.{
  All_map, All_zip, select_cong, select-select, length-select-add, select-append-select-perm,
  any-append, any-select-false, any-false,
}

module _ {A B : Type 0} (g : Graph A B) where
  -- What is not placed yet.
  abbrev pub waiting : List A → List A → List A
  waiting all placed = select (λ t. not (is_placed g placed t)) all

  -- No two items have one name.
  abbrev pub Unique : List A → Type 0
  Unique [] = Unit {0}
  Unique (t ∷ ts) = (is_placed g ts t ≡ false) × Unique ts

  abbrev pub Names : Type 0
  Names = (b c : B) → (g.same b c ≡ true) ↔ (b ≡ c)

  -- What holds of the placed items after every round.
  pub record IsRound (all placed : List A) : Type 0 where
    pub same_items : Perm (placed ++ waiting all placed) all
    pub same_length : length placed + length (waiting all placed) ≡ length all

  same_comm : Names → (b c : B) → g.same b c ≡ false → g.same c b ≡ false
  same_comm names b c h = elim (Bool-cases (g.same c b)) [
    | inl hit ↦ absurd (cc ((names b c).1 (sym ((names c b).0 hit))))
    | inr miss ↦ miss
  ]

  -- Among unique items, a selection has placed just what it selects.
  is_placed-select :
      Names
      → (p : A → Bool) (ts : List A) → Unique ts
      → All (λ t. is_placed g (select p ts) t ≡ p t) ts
  is_placed-select names p [] u = tt
  is_placed-select names p (x ∷ xs) u =
      let apart = any-false (λ v. g.same (g.name v) (g.name x)) xs u.0 in
      let later = is_placed-select names p xs u.1 in
      elim (Bool-cases (p x)) [
        | inl hit ↦ (
          rw hit (rw ((names (g.name x) (g.name x)).1 refl) refl),
          subst
              (λ b. All (λ t. is_placed g (if b then x ∷ select p xs else select p xs) t ≡ p t) xs)
              (sym hit)
              (All_zip xs
                (λ t away same. skip _ _ _ (same_comm names (g.name t) (g.name x) away) same) apart
                later),
        )
        | inr miss ↦ (
          rw miss (any-select-false p (λ v. g.same (g.name v) (g.name x)) xs u.0),
          subst
              (λ b. All (λ t. is_placed g (if b then x ∷ select p xs else select p xs) t ≡ p t) xs)
              (sym miss) later,
        )
      ]
    where
      skip : (a b c : Bool) → a ≡ false → b ≡ c → (a || b) ≡ c
      skip true b c h e = cc
      skip false b c h e = e

  -- A round takes the satisfied ones from what waits.
  pub next_layer-waiting :
      (all placed : List A)
      → next_layer g all placed ≡ select (is_satisfied g placed) (waiting all placed)
  next_layer-waiting all placed =
      sym (select-select (λ t. not (is_placed g placed t)) (is_satisfied g placed) all)

  waiting-next_layer :
      Names
      → (all placed : List A) → Unique all
      → waiting all (placed ++ next_layer g all placed)
        ≡ select (λ t. not (is_satisfied g placed t)) (waiting all placed)
  waiting-next_layer names all placed u =
      select_cong _ _ all (
        All_map all
          (λ t same.
            rw (any-append (λ v. g.same (g.name v) (g.name t)) placed _, same)
              (outside (is_placed g placed t) (is_satisfied g placed t)))
          (is_placed-select names (λ t. not (is_placed g placed t) && is_satisfied g placed t) all
            u))
      ∙ sym
          (select-select (λ t. not (is_placed g placed t)) (λ t. not (is_satisfied g placed t)) all)
    where
      outside : (a b : Bool) → not (a || (not a && b)) ≡ (not a && not b)
      outside true b = refl
      outside false b = refl

  pub IsRound-next :
      Names
      → (all placed : List A) → Unique all
      → IsRound all placed
      → IsRound all (placed ++ next_layer g all placed)
  IsRound-next names all placed u r = record {
    same_items =
        rw (waiting-next_layer names all placed u, next_layer-waiting all placed, append_assoc)
          (Perm.trans
            (Perm.append_left placed
              (select-append-select-perm (is_satisfied g placed) (waiting all placed)))
            r.same_items);
    same_length =
        rw (waiting-next_layer names all placed u, next_layer-waiting all placed)
          (omega (
            arith,
            r.same_length,
            length-append placed (select (is_satisfied g placed) (waiting all placed)),
            length-select-add (is_satisfied g placed) (waiting all placed),
          ));
  }

  all_waiting : (ts : List A) → waiting ts [] ≡ ts
  all_waiting [] = refl
  all_waiting (t ∷ ts) = ap (λ l. t ∷ l) (all_waiting ts)

  pub IsRound-start : (all : List A) → IsRound all []
  IsRound-start all = record {
    same_items = rw all_waiting Perm.rfl;
    same_length = rw all_waiting (omega arith);
  }
