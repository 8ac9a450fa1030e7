-- ===== src/Collab/Layers/Order.antt =====
-- What the loop returns (scripts/codex_loop_runtime/local_collaboration.py).
use mathlib.Core.List.{Perm, append-nil}
use codex_loop.Base.{
  ℕ, String, ◌≡◌, refl, subst, Bool, true, false, ◌||◌, List, [], ◌∷◌, ◌++◌, map, member, length,
  All, arith, leb→le, str_eq,
}
use codex_loop.Collab.Checks.{is_subset}
use codex_loop.Collab.Layers.{Graph, Outcome, ordered, is_satisfied, next_layer, layers}
use codex_loop.Collab.Layers.Sets.{All_map, All-select, is_subset_mono}
use codex_loop.Collab.Layers.Loop.{Rule, layers_ind}
use codex_loop.Collab.Layers.Rounds.{
  waiting, Unique, Names, IsRound, IsRound-next, IsRound-start, next_layer-waiting,
}

module _ {A B : Type 0} (g : Graph A B) where
  -- Each item depends only on `seen` and on the items before it.
  abbrev pub IsOrdered : List String → List A → Type 0
  IsOrdered seen [] = Unit {0}
  IsOrdered seen (t ∷ ts) = (is_subset (g.deps t) seen ≡ true) × IsOrdered (g.key t ∷ seen) ts

  -- A layer after a list: its dependencies lie in `base`, all of which comes before it.
  IsOrdered-append :
      (seen base : List String) (xs ys : List A)
      → IsOrdered seen xs
      → All (λ t. is_subset (g.deps t) base ≡ true) ys
      → ((k : String) → member k base ≡ true → (member k (map g.key xs) || member k seen) ≡ true)
      → IsOrdered seen (xs ++ ys)
  IsOrdered-append seen base [] [] o h before = tt
  IsOrdered-append seen base [] (y ∷ ys) o h before = (
    is_subset_mono (g.deps y) base seen before h.0,
    IsOrdered-append (g.key y ∷ seen) base [] ys tt h.1
        (λ k there. later (str_eq k (g.key y)) (member k seen) (before k there)),
  )
    where
      later : (a b : Bool) → b ≡ true → (a || b) ≡ true
      later true b h = refl
      later false b h = h
  IsOrdered-append seen base (x ∷ xs) ys o h before = (
    o.0,
    IsOrdered-append (g.key x ∷ seen) base xs ys o.1 h (λ k there.
        moved (str_eq k (g.key x)) (member k (map g.key xs)) (member k seen) (before k there)),
  )
    where
      moved : (a b c : Bool) → ((a || b) || c) ≡ true → (b || (a || c)) ≡ true
      moved true true c h = refl
      moved true false c h = refl
      moved false b c h = h

  IsOrdered-next :
      (all placed : List A) → IsOrdered [] placed → IsOrdered [] (placed ++ next_layer g all placed)
  IsOrdered-next all placed o =
      IsOrdered-append [] (map g.key placed) placed (next_layer g all placed) o
        (rw (next_layer-waiting g all placed) (
          All_map _ (λ t h. h.1)
            (All-select (is_satisfied g placed) (λ t. Unit {0}) (waiting g all placed) (always _))))
        (λ k there. rw there refl)
    where
      always : (xs : List A) → All (λ t. Unit {0}) xs
      always [] = tt
      always (x ∷ xs) = (tt, always xs)

  -- What the loop returns is the given items, each after all that it depends on.
  pub layers-IsOrdered :
      Names g
      → (n : ℕ) (all : List A) {plan : List A} → Unique g all
      → layers g n all [] ≡ ordered plan
      → Perm plan all × IsOrdered [] plan
  layers-IsOrdered names n all u e =
      subst OnOrdered e (layers_ind g rule n [] (IsRound-start g all, tt))
    where
      OnOrdered : Outcome A → Type 0
      OnOrdered (ordered plan) = Perm plan all × IsOrdered [] plan
      OnOrdered _ = Unit {0}

      nothing_waits : (ts : List A) → length ts ≡ 0 → ts ≡ []
      nothing_waits [] h = refl
      nothing_waits (t ∷ ts) h = cc

      rule : Rule g all (λ placed. IsRound g all placed × IsOrdered [] placed) OnOrdered
      rule = record {
        finish = λ placed p full.
            let none_waits =
              nothing_waits (waiting g all placed)
                (omega (arith, p.0.same_length, leb→le (length all) (length placed) full)) in
            let same : Perm (placed ++ []) all =
              subst (λ ts. Perm (placed ++ ts) all) none_waits p.0.same_items in
            (subst (λ ts. Perm ts all) (append-nil placed) same, p.1);
        halt = λ placed p more idle. tt;
        out = tt;
        round = λ placed p. (IsRound-next g names all placed u p.0, IsOrdered-next all placed p.1);
      }
