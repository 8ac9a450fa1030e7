-- ===== src/Collab/Ancestors/Weight.antt =====
-- scripts/codex_loop_runtime/local_collaboration.py: what is left for the loop of `_ancestors`.
use codex_loop.Base.{
  ℕ, ◌+◌, ◌≤◌, ◌≡◌, refl, ap, ◌∙◌, subst, inl, inr, String, Bool, true, false, ◌||◌, some, List, [],
  ◌∷◌, length, member, if◌then◌else◌, Bool-cases, Option-cases, some_injective, str_eq, eq_iff,
  arith,
}
use codex_loop.Collab.{Slot}
use codex_loop.Collab.Rows.{key_of}
use codex_loop.Collab.Ancestors.{by_key, push_all, dependency_count}

pub member-push_all :
    (k : String) (keys frontier : List String)
    → member k (push_all keys frontier) ≡ (member k keys || member k frontier)
unfolding push_all
member-push_all k [] frontier = refl
member-push_all k (x ∷ keys) frontier =
    rw (member-push_all k keys (x ∷ frontier))
      (swap (member k keys) (str_eq k x) (member k frontier))
  where
    swap : (a b c : Bool) → (a || (b || c)) ≡ ((b || a) || c)
    swap true true c = refl
    swap true false c = refl
    swap false true c = refl
    swap false false c = refl

pub length-push_all :
    (keys frontier : List String) → length (push_all keys frontier) ≡ length keys + length frontier
unfolding push_all
length-push_all [] frontier = omega arith
length-push_all (x ∷ keys) frontier = omega (arith, length-push_all keys (x ∷ frontier))

-- The dependencies of the slots that are not collected yet.
unfoldable pub weight : List String → List Slot → ℕ
weight required [] = 0
weight required (s ∷ slots) =
    (if member (key_of s) required then 0 else length s.depends_on) + weight required slots

pub weight_none : (slots : List Slot) → weight [] slots ≡ dependency_count slots
unfolding weight dependency_count
weight_none [] = refl
weight_none (s ∷ slots) = ap (λ n. length s.depends_on + n) (weight_none slots)

kept : (a b : Bool) (n : ℕ) → (if a || b then 0 else n) ≤ (if b then 0 else n)
kept true true n = omega arith
kept true false n = omega arith
kept false b n = omega arith

less :
    (k : String) (required : List String) (slots : List Slot)
    → weight (k ∷ required) slots ≤ weight required slots
unfolding weight
less k required [] = omega arith
less k required (s ∷ slots) =
    let rest = less k required slots in
    let here = kept (str_eq (key_of s) k) (member (key_of s) required) (length s.depends_on) in
    omega (arith, rest, here)

pub spent :
    (k : String) (required : List String) (slots : List Slot) (s : Slot)
    → member k required ≡ false
    → by_key k slots ≡ some s
    → weight (k ∷ required) slots + length s.depends_on ≤ weight required slots
unfolding weight by_key
spent k required [] s fresh found = cc
spent k required (x ∷ slots) s fresh found = elim (Option-cases (by_key k slots)) [
  | inr (t, later) ↦
      let rest = spent k required slots t fresh later in
      let same = some_injective (rw later at found) in
      let here = kept (str_eq (key_of x) k) (member (key_of x) required) (length x.depends_on) in
      subst
        (λ (u : Slot).
          weight (k ∷ required) (x ∷ slots) + length u.depends_on ≤ weight required (x ∷ slots))
        same (omega (arith, rest, here))
  | inl none_later ↦ elim (Bool-cases (str_eq (key_of x) k)) [
    | inl hit ↦
        let same = some_injective (rw (none_later, hit) at found) in
        let key = (eq_iff (key_of x) k).0 hit in
        subst
          (λ (u : Slot).
            weight (k ∷ required) (x ∷ slots) + length u.depends_on ≤ weight required (x ∷ slots))
          same
          (rw (hit, ap (λ j. member j required) key ∙ fresh) (omega (arith, less k required slots)))
    | inr miss ↦ cc (rw (none_later, miss) at found)
  ]
]
