-- ===== src/Collab/Ancestors/Collect.antt =====
-- scripts/codex_loop_runtime/local_collaboration.py: the loop of `_ancestors`.
use codex_loop.Base.{
  ℕ, zero, suc, ◌+◌, ◌<◌, ◌≡◌, refl, sym, ap, ◌∙◌, subst, inl, inr, String, Bool, true, false, ◌||◌,
  some, List, [], ◌∷◌, length, member, Bool-cases, some_injective, str_eq, eq_iff, eq_refl, arith,
  ok, or_true, or_false, either_true,
}
use codex_loop.Collab.{Slot}
use codex_loop.Collab.Ancestors.{by_key, push_all, collect}
use codex_loop.Collab.Ancestors.Weight.{weight, spent, member-push_all, length-push_all}

-- The keys that a slot needs: its dependencies, and theirs.
pub data Needs (slots : List Slot) (target : Slot) : String → Type 0 where
  direct : (k : String) → member k target.depends_on ≡ true → Needs slots target k
  further :
      (j k : String) (s : Slot)
      → Needs slots target j
      → by_key j slots ≡ some s
      → member k s.depends_on ≡ true
      → Needs slots target k

-- Every dependency is the key of a slot.
pub record IsClosed (slots : List Slot) : Type 0 where
  pub known :
      (j : String) (s : Slot)
      → by_key j slots ≡ some s
      → (k : String) → member k s.depends_on ≡ true
      → (t : Slot) × (by_key k slots ≡ some t)

-- What is collected: every key is needed, and what a collected key needs is collected or in sight.
pub record IsCollected (slots : List Slot) (target : Slot) (required frontier : List String)
    : Type 0 where
  pub needed : (k : String) → (member k required || member k frontier) ≡ true → Needs slots target k
  pub start :
      (k : String)
      → member k target.depends_on ≡ true
      → (member k required || member k frontier) ≡ true
  pub closed :
      (j : String) (s : Slot)
      → member j required ≡ true
      → by_key j slots ≡ some s
      → (k : String) → member k s.depends_on ≡ true
      → (member k required || member k frontier) ≡ true

-- A key that is collected already, or that is collected now.
again :
    (slots : List Slot) (target : Slot) (required frontier : List String) (k : String)
    → member k required ≡ true
    → IsCollected slots target required (k ∷ frontier)
    → IsCollected slots target required frontier
again slots target required frontier k there c = record {
  needed = λ j h. c.needed j (wider (member j required) (str_eq j k) (member j frontier) h);
  start = λ j h. drop_key j (c.start j h);
  closed = λ i s h found j dep. drop_key j (c.closed i s h found j dep);
}
  where
    wider : (a b d : Bool) → (a || d) ≡ true → (a || (b || d)) ≡ true
    wider true b d h = refl
    wider false true d h = refl
    wider false false d h = h

    drop_key :
        (j : String)
        → (member j required || (str_eq j k || member j frontier)) ≡ true
        → (member j required || member j frontier) ≡ true
    drop_key j h = elim (Bool-cases (str_eq j k)) [
      | inl hit ↦ rw (ap (λ i. member i required) ((eq_iff j k).0 hit) ∙ there) refl
      | inr miss ↦ rw miss at h
    ]

shuffled : (r e f d : Bool) → (r || (e || f)) ≡ true → ((e || r) || (d || f)) ≡ true
shuffled true true f d h = refl
shuffled true false f d h = refl
shuffled false true f d h = refl
shuffled false false true true h = refl
shuffled false false true false h = refl
shuffled false false false d h = cc

-- A collected key, of which the dependencies come in sight.
module _ (slots : List Slot) (target : Slot) (required frontier : List String) (k : String)
    (s : Slot) (found : by_key k slots ≡ some s)
    (c : IsCollected slots target required (k ∷ frontier)) where
  in_sight :
      (j : String)
      → (member j required || (str_eq j k || member j frontier)) ≡ true
      → ((str_eq j k || member j required) || member j (push_all s.depends_on frontier)) ≡ true
  in_sight j h =
      rw (member-push_all j s.depends_on frontier)
        (shuffled (member j required) (str_eq j k) (member j frontier) (member j s.depends_on) h)

  takes : Needs slots target k
  takes = c.needed k (rw (eq_refl k) (or_true (member k required)))

  needed_now :
      (j : String)
      → ((str_eq j k || member j required) || member j (push_all s.depends_on frontier)) ≡ true
      → Needs slots target j
  needed_now j h = elim (either_true (str_eq j k || member j required) _ h) [
    | inl before ↦ elim (either_true (str_eq j k) (member j required) before) [
      | inl hit ↦ subst (λ i. Needs slots target i) (sym ((eq_iff j k).0 hit)) takes
      | inr there ↦ c.needed j (rw there refl)
    ]
    | inr later ↦
        elim (either_true (member j s.depends_on) (member j frontier)
          (sym (member-push_all j s.depends_on frontier) ∙ later)) [
            | inl dep ↦ further k j s takes found dep
            | inr ahead ↦
                c.needed j (rw (ahead, or_true (str_eq j k)) (or_true (member j required)))
          ]
  ]

  taken : IsCollected slots target (k ∷ required) (push_all s.depends_on frontier)
  taken = record {
    needed = needed_now;
    start = λ j h. in_sight j (c.start j h);
    closed = λ i t h there j dep. elim (either_true (str_eq i k) (member i required) h) [
      | inl hit ↦
          let same =
            some_injective (sym there ∙ ap (λ m. by_key m slots) ((eq_iff i k).0 hit) ∙ found) in
          rw
            (
              member-push_all j s.depends_on frontier,
              subst (λ (u : Slot). member j u.depends_on ≡ true) same dep,
            )
            (or_true (str_eq j k || member j required))
      | inr before ↦ in_sight j (c.closed i t before there j dep)
    ];
  }

-- The start of the loop.
pub collected_none :
    (slots : List Slot) (target : Slot)
    → IsCollected slots target [] (push_all target.depends_on [])
collected_none slots target = record {
  needed = λ k h.
      direct k
        (or_false (member k target.depends_on) (sym (member-push_all k target.depends_on []) ∙ h));
  start = λ k h. rw (member-push_all k target.depends_on [], h) refl;
  closed = λ j s h found k dep. cc;
}

-- Enough fuel collects.
pub collect_enough :
    (n : ℕ) (slots : List Slot) (target : Slot) (required frontier : List String)
    → length frontier + weight required slots < n
    → ((k : String) → Needs slots target k → (t : Slot) × (by_key k slots ≡ some t))
    → IsCollected slots target required frontier
    → (result : List String) × (collect n slots required frontier ≡ ok result)
      × IsCollected slots target result []
unfolding collect
collect_enough zero slots target required frontier lt known c = absurd (omega (arith, lt))
collect_enough (suc n) slots target required [] lt known c = (required, refl, c)
collect_enough (suc n) slots target required (k ∷ frontier) lt known c =
    elim (Bool-cases (member k required)) [
      | inl there ↦
          rw (collect, there)
            (collect_enough n slots target required frontier (omega (arith, lt)) known
              (again slots target required frontier k there c))
      | inr fresh ↦
          let needs = c.needed k (rw (fresh, eq_refl k) refl) in
          let there = known k needs in
          rw (collect, fresh, there.1)
            (collect_enough n slots target (k ∷ required) (push_all there.0.depends_on frontier)
              (omega (
                arith,
                lt,
                length-push_all there.0.depends_on frontier,
                spent k required slots there.0 fresh there.1,
              ))
              known (taken slots target required frontier k there.0 there.1 c))
    ]
