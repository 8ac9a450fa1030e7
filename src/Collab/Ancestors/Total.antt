-- ===== src/Collab/Ancestors/Total.antt =====
-- scripts/codex_loop_runtime/local_collaboration.py: `_ancestors` ends, with what a slot depends on.
use codex_loop.Base.{
  suc, ◌+◌, ◌≡◌, ◌↔◌, refl, sym, ap, ◌∙◌, subst, inl, inr, String, Bool, true, false, ◌||◌, ◌&&◌,
  some, List, [], ◌∷◌, map, select, length, member, Bool-cases, Option-cases, some_injective,
  str_eq, eq_iff, arith, ok, both_true, or_true, or_false,
}
use codex_loop.Collab.{Slot}
use codex_loop.Collab.Checks.{is_subset}
use codex_loop.Collab.Rows.{key_of}
use codex_loop.Collab.Layers.Order.{IsOrdered}
use codex_loop.Collab.Specs.{slot_graph}
use codex_loop.Collab.Specs.Graphs.{is_subset-member, str_eq_comm}
use codex_loop.Collab.Tasks.Order.{HasOrder}
use codex_loop.Collab.Ancestors.{by_key, push_all, dependency_count, ancestors}
use codex_loop.Collab.Ancestors.Collect.{
  Needs, direct, further, IsCollected, collected_none, collect_enough,
}
use codex_loop.Collab.Ancestors.Weight.{weight_none, length-push_all}

-- In an order, every dependency of a slot is the key of an earlier one.
ordered_known :
    (seen : List String) (plan : List Slot) (j k : String) (s : Slot)
    → IsOrdered slot_graph seen plan
    → by_key j plan ≡ some s
    → member k s.depends_on ≡ true
    → (member k (map key_of plan) || member k seen) ≡ true
unfolding by_key
ordered_known seen [] j k s o found dep = cc
ordered_known seen (x ∷ xs) j k s o found dep = elim (Option-cases (by_key j xs)) [
  | inr (t, later) ↦
      let same = some_injective (rw later at found) in
      moved (str_eq k (key_of x)) (member k (map key_of xs)) (member k seen)
        (ordered_known (key_of x ∷ seen) xs j k s o.1 (later ∙ ap (λ u. some u) same) dep)
  | inl none_later ↦ elim (Bool-cases (str_eq (key_of x) j)) [
    | inl hit ↦
        let same = some_injective (rw (none_later, hit) at found) in
        rw
          (is_subset-member x.depends_on seen k o.0
            (subst (λ (u : Slot). member k u.depends_on ≡ true) (sym same) dep))
          (or_true (str_eq k (key_of x) || member k (map key_of xs)))
    | inr miss ↦ cc (rw (none_later, miss) at found)
  ]
]
  where
    moved : (a b d : Bool) → (b || (a || d)) ≡ true → ((a || b) || d) ≡ true
    moved true b d h = refl
    moved false true d h = refl
    moved false false d h = h

by_key_known :
    (k : String) (plan : List Slot)
    → member k (map key_of plan) ≡ true
    → (t : Slot) × (by_key k plan ≡ some t)
unfolding by_key
by_key_known k [] h = cc
by_key_known k (x ∷ xs) h = elim (Option-cases (by_key k xs)) [
  | inr (t, later) ↦ (t, rw later refl)
  | inl none_later ↦ elim (Bool-cases (str_eq k (key_of x))) [
    | inl hit ↦ (x, rw (none_later, str_eq_comm (key_of x) k, hit) refl)
    | inr miss ↦ let there = by_key_known k xs (rw miss at h) in cc (none_later, there.1)
  ]
]

-- What is needed is known, where what the slot itself depends on is.
Needs-known :
    (plan : List Slot) (target : Slot)
    → IsOrdered slot_graph [] plan
    → is_subset target.depends_on (map key_of plan) ≡ true
    → (k : String) → Needs plan target k
    → member k (map key_of plan) ≡ true
Needs-known plan target o inside _ (direct k h) =
    is_subset-member target.depends_on (map key_of plan) k inside h
Needs-known plan target o inside _ (further j k s n found dep) =
    or_false (member k (map key_of plan)) (ordered_known [] plan j k s o found dep)

selected-member :
    (required : List String) (k : String) (plan : List Slot)
    → member k (map key_of (select (λ s. member (key_of s) required) plan))
      ≡ (member k required && member k (map key_of plan))
selected-member required k [] = nothing (member k required)
  where
    nothing : (a : Bool) → false ≡ (a && false)
    nothing true = refl
    nothing false = refl
selected-member required k (x ∷ xs) =
    let rest = selected-member required k xs in
    elim (Bool-cases (str_eq k (key_of x))) [
      | inl hit ↦
          let key = ap (λ j. member j required) ((eq_iff k (key_of x)).0 hit) in
          elim (Bool-cases (member (key_of x) required)) [
            | inl chosen ↦ rw (chosen, hit, key, chosen) refl
            | inr left ↦ rw (left, rest, key, left) refl
          ]
      | inr miss ↦ elim (Bool-cases (member (key_of x) required)) [
        | inl chosen ↦ rw (chosen, miss) rest
        | inr left ↦ rw (left, miss) rest
      ]
    ]

-- What is needed is collected in the end.
collected :
    (plan : List Slot) (target : Slot) (required : List String)
    → IsCollected plan target required []
    → (k : String) → Needs plan target k
    → member k required ≡ true
collected plan target required c _ (direct k h) = or_false (member k required) (c.start k h)
collected plan target required c _ (further j k s n found dep) =
    or_false (member k required) (c.closed j s (collected plan target required c j n) found k dep)

-- For slots that `_ordered_slots` puts in order, and a slot whose dependencies are among their keys,
-- `_ancestors` returns: its loop ends within one step for each dependency of the slots and of the slot
-- itself. The keys of what it returns are exactly the dependencies of the slot, theirs, and so on.
pub ancestors-Needs :
    (slots : List Slot) (order : HasOrder slots) (target : Slot)
    → is_subset target.depends_on (map key_of order.0) ≡ true
    → (result : List Slot) × (ancestors slots target ≡ ok result)
      × ((k : String) → (member k (map key_of result) ≡ true) ↔ Needs order.0 target k)
unfolding ancestors
ancestors-Needs slots (plan, sorted, same, o) target inside =
    let known = Needs-known plan target o inside in
    let all =
      collect_enough (suc (length target.depends_on + dependency_count plan)) plan target []
        (push_all target.depends_on [])
        (omega (arith, length-push_all target.depends_on [], weight_none plan))
        (λ k needs. by_key_known k plan (known k needs)) (collected_none plan target) in
    (
      select (λ s. member (key_of s) all.0) plan,
      rw (sorted, all.1) refl,
      λ k. (
        λ there.
            let both =
              both_true (member k all.0) (member k (map key_of plan))
                (sym (selected-member all.0 k plan) ∙ there) in
            all.2.needed k (rw both.0 refl),
        λ needs.
            rw
              (
                selected-member all.0 k plan,
                collected plan target all.0 all.2 k needs,
                known k needs,
              )
              refl,
      ),
    )
