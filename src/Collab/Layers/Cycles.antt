-- ===== src/Collab/Layers/Cycles.antt =====
-- The loop stops early only at a cycle (scripts/codex_loop_runtime/local_collaboration.py).
use mathlib.Core.Bool.{Bool-set}
use mathlib.Core.List.Perm
use mathlib.Core.List.{Perm, foldr}
use codex_loop.Base.{
  ℕ, zero, suc, ◌+◌, ◌<◌, String, ◌≡◌, ◌≢◌, refl, sym, ◌∙◌, inl, inr, Bool, true, false, ◌||◌, not,
  List, [], ◌∷◌, ◌++◌, map, any, all, member, length, All, Bool-cases, arith, leb, leb-false,
  str_eq, eq_iff,
}
use codex_loop.Collab.Layers.{Graph, stuck, is_placed, is_satisfied, next_layer, layers}
use codex_loop.Collab.Layers.Sets.{
  All_map, All_zip, All-select, any-append, any-map, member-any, is_subset-false, select_nil,
}
use codex_loop.Collab.Layers.Loop.{Rule, layers_ind}
use codex_loop.Collab.Layers.Rounds.{
  waiting, Unique, Names, IsRound, IsRound-next, IsRound-start, next_layer-waiting,
}

any-foldr : {A : Type 0} (p : A → Bool) (xs : List A) → any p xs ≡ foldr (λ x b. p x || b) false xs
any-foldr p [] = refl
any-foldr p (x ∷ xs) = rw (any-foldr p xs) refl

any-perm : {A : Type 0} (p : A → Bool) {xs ys : List A} → Perm xs ys → any p xs ≡ any p ys
any-perm p {xs} {ys} same =
    any-foldr p xs ∙ Perm.foldr-eq Bool-set (λ x b. p x || b) swap same false ∙ sym (any-foldr p ys)
  where
    comm : (a b c : Bool) → (a || (b || c)) ≡ (b || (a || c))
    comm true true c = refl
    comm true false c = refl
    comm false b c = refl

    swap : (x y : _) (c : Bool) → (p x || (p y || c)) ≡ (p y || (p x || c))
    swap x y c = comm (p x) (p y) c

-- `rank` puts each dependency below its item, so that the graph has no cycle.
abbrev pub IsRanked : {A B : Type 0} → Graph A B → (String → ℕ) → List A → Type 0
IsRanked g rank = All (λ t. (d : String) → member d (g.deps t) ≡ true → rank d < rank (g.key t))

-- Every dependency is the key of an item.
abbrev pub IsKnown : {A B : Type 0} → Graph A B → List A → Type 0
IsKnown g ts =
    All (λ t. (d : String) → member d (g.deps t) ≡ true → member d (map g.key ts) ≡ true) ts

module _ {A B : Type 0} (g : Graph A B) where
  -- A key of the given items that is not placed is the key of one that waits.
  key_waits :
      (all placed : List A) (d : String)
      → Perm (placed ++ waiting g all placed) all
      → member d (map g.key all) ≡ true
      → member d (map g.key placed) ≡ false
      → member d (map g.key (waiting g all placed)) ≡ true
  key_waits all placed d same there missing =
      elim_or (keyed placed) (keyed (waiting g all placed))
        (sym (any-append (λ t. str_eq d (g.key t)) placed (waiting g all placed))
          ∙ any-perm (λ t. str_eq d (g.key t)) same
          ∙ sym (keys all)
          ∙ there)
        (sym (keys placed) ∙ missing) (keys (waiting g all placed))
    where
      keyed : List A → Bool
      keyed ts = any (λ t. str_eq d (g.key t)) ts

      keys : (ts : List A) → member d (map g.key ts) ≡ any (λ t. str_eq d (g.key t)) ts
      keys ts = member-any d (map g.key ts) ∙ any-map (λ k. str_eq d k) g.key ts

      elim_or : (a b : Bool) {c : Bool} → (a || b) ≡ true → a ≡ false → c ≡ b → c ≡ true
      elim_or true b h e f = cc
      elim_or false b h e f = f ∙ h

  -- Some waiting item with the key has what all of them have.
  All-member :
      (P : A → Type 0) (ts : List A) (d : String)
      → All P ts
      → member d (map g.key ts) ≡ true
      → (u : A) × (g.key u ≡ d) × P u
  All-member P [] d h there = cc
  All-member P (t ∷ ts) d h there = elim (Bool-cases (str_eq d (g.key t))) [
    | inl hit ↦ (t, sym ((eq_iff d (g.key t)).0 hit), h.0)
    | inr miss ↦ All-member P ts d h.1 (rw miss at there)
  ]

  record Facts (rank : String → ℕ) (all placed : List A) (t : A) : Type 0 where
    ranked : (d : String) → member d (g.deps t) ≡ true → rank d < rank (g.key t)
    known : (d : String) → member d (g.deps t) ≡ true → member d (map g.key all) ≡ true
    unsatisfied : is_satisfied g placed t ≡ false

  facts :
      (rank : String → ℕ) (all placed : List A)
      → IsKnown g all
      → IsRanked g rank all
      → next_layer g all placed ≡ []
      → All (Facts rank all placed) (waiting g all placed)
  facts rank all placed known ranked idle =
      All_zip (waiting g all placed)
        (λ t h e. record { ranked = h.0.0; known = h.0.1; unsatisfied = e })
        (All-select (λ t. not (is_placed g placed t))
          (λ t.
            ((d : String) → member d (g.deps t) ≡ true → rank d < rank (g.key t))
            × ((d : String) → member d (g.deps t) ≡ true → member d (map g.key all) ≡ true))
          all (All_zip all (λ t a b. (a, b)) ranked known))
        (select_nil (is_satisfied g placed) (waiting g all placed)
          (sym (next_layer-waiting g all placed) ∙ idle))

  -- Where nothing more can be placed, what waits has no rank.
  descent :
      (rank : String → ℕ) (all placed : List A)
      → Perm (placed ++ waiting g all placed) all
      → All (Facts rank all placed) (waiting g all placed)
      → (n : ℕ) → All (λ t. ¬ (rank (g.key t) < n)) (waiting g all placed)
  descent rank all placed same fs zero = All_map _ (λ t h below. omega arith) fs
  descent rank all placed same fs (suc n) =
      let lower = descent rank all placed same fs n in
      All_map _
        (λ t f below.
          let (d, needed, missing) = is_subset-false (g.deps t) (map g.key placed) f.unsatisfied in
          let (u, named, high) =
            All-member _ (waiting g all placed) d lower
              (key_waits all placed d same (f.known d needed) missing) in
          high (rw named (omega (arith, f.ranked d needed))))
        fs

  -- A graph with ranks, all of whose dependencies are there, never stops the loop early.
  pub layers-ne-stuck :
      Names g
      → (rank : String → ℕ) (n : ℕ) (all : List A) → Unique g all
      → IsKnown g all
      → IsRanked g rank all
      → layers g n all [] ≢ stuck
  layers-ne-stuck names rank n all u known ranked = layers_ind g rule n [] (IsRound-start g all)
    where
      some_waits :
          (placed ts : List A)
          → length placed + length ts ≡ length all
          → leb (length all) (length placed) ≡ false
          → ((n : ℕ) → All (λ t. ¬ (rank (g.key t) < n)) ts)
          → ⊥
      some_waits placed [] e more none_below =
          omega (arith, e, leb-false (length all) (length placed) more)
      some_waits placed (t ∷ ts) e more none_below =
          (none_below (suc (rank (g.key t)))).0 (omega arith)

      rule : Rule g all (IsRound g all) (λ o. o ≢ stuck)
      rule = record {
        finish = λ placed p full e. cc;
        halt = λ placed p more idle e.
            some_waits placed (waiting g all placed) p.same_length more
              (descent rank all placed p.same_items (facts rank all placed known ranked idle));
        out = λ e. cc;
        round = λ placed p. IsRound-next g names all placed u p;
      }
