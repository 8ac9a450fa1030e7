-- ===== src/Store/External/Ledger.antt =====
-- The invariant of the ledger of external actions (scripts/codex_loop_runtime/state.py).
use codex_loop.Base.{
  ◌≤◌, String, ◌≡◌, refl, ap, ◌⊎◌, inl, inr, Bool, true, false, Option, none, some, List, [], ◌∷◌,
  length, count, select, All, is_some, Bool-cases, str_eq, eq_iff, arith, ok, >>=-eq-ok,
  ok_injective, some_injective, subst,
}
use codex_loop.Store.{Store, TaskStatus, Action, ActionClass, ActionState}
use codex_loop.Store.External.{
  find_action, owns, is_non_idempotent, Request, check_request, build_request, parse_state,
  parse_class, choose_id,
}
use codex_loop.Store.External.Transact.{
  update_action, settle_owner, check_owner, write_action, transact, record_request, record_external,
  advance, new_action, differ, coalesce,
}
use codex_loop.Store.External.Guards.{
  write_action_new, write_action-advance, transact_write, record_request_parts,
}
use codex_loop.Store.External.Rows.{
  UniqueIds, update-UniqueIds, count-update, All-update, length-select,
}

-- A non-idempotent action has an identity.
abbrev pub IsIdentified : Action → Type 0
IsIdentified a = is_non_idempotent a.action_class ≡ true → is_some a.identity ≡ true

-- No two rows have one id, and no two non-idempotent ones have one kind and identity.
pub record IsLedger (rows : List Action) : Type 0 where
  pub unique_ids : UniqueIds rows
  pub unique_owners : (kind identity : String) → count (owns kind identity) rows ≤ 1
  pub identified : All IsIdentified rows

abbrev pub IsIdentifiedRequest : Request → Type 0
IsIdentifiedRequest q = is_non_idempotent q.action_class ≡ true → is_some q.identity ≡ true

-- What an accepted request says of the rows of its identity.
abbrev IsSoleOwner : Request → List Action → Type 0
IsSoleOwner q rows =
    (kind identity : String)
    → owns kind identity (new_action q) ≡ true
    → find_action q.action_id rows ≡ none
    → count (owns kind identity) rows ≡ 0

-- A row that a count finds is found by its id.
found_owner :
    (p : Action → Bool) (rows : List Action) (k : String) (same : Action)
    → select p rows ≡ same ∷ []
    → same.action_id ≡ k
    → find_action k rows ≡ none
    → ⊥
unfolding find_action
found_owner p [] k same e h n = cc
found_owner p (a ∷ rest) k same e h n =
    ground (arith, eq_iff a.action_id k, found_owner p rest k same)

settle_owner-none :
    (q : Request) (found : List Action)
    → settle_owner q found ≡ ok none
    → (found ≡ []) ⊎ ((same : Action) × (found ≡ same ∷ []) × (same.action_id ≡ q.action_id))
unfolding settle_owner
settle_owner-none q [] h = inl refl
settle_owner-none q (same ∷ []) h =
    inr (same, refl, ground (arith, eq_iff same.action_id q.action_id))
settle_owner-none q (a ∷ b ∷ rest) h = cc

settle_owner_sole :
    (q : Request) (p : Action → Bool) (rows : List Action)
    → settle_owner q (select p rows) ≡ ok none
    → find_action q.action_id rows ≡ none
    → count p rows ≡ 0
settle_owner_sole q p rows h n = elim (settle_owner-none q (select p rows) h) [
  | inl empty ↦ omega (arith, length-select p rows, ap length empty)
  | inr (same, only, own) ↦ absurd (found_owner p rows q.action_id same only own n)
]

check_owner_sole :
    (q : Request) (o : Option String) (rows : List Action)
    → q.identity ≡ o
    → check_owner q o rows ≡ ok none
    → IsSoleOwner q rows
unfolding check_owner owns
check_owner_sole q none rows e h kind identity o n = ground arith
check_owner_sole q (some i) rows e h kind identity o n =
    let kinds : q.kind ≡ kind = ground (arith, eq_iff q.kind kind) in
    let identities : i ≡ identity = ground (arith, eq_iff i identity) in
    let risky : is_non_idempotent q.action_class ≡ true = ground arith in
    rw (← kinds, ← identities) (settle_owner_sole q (owns q.kind i) rows (rw risky at h) n)

insert-IsLedger :
    (q : Request) (rows : List Action)
    → IsLedger rows
    → IsIdentifiedRequest q
    → find_action q.action_id rows ≡ none
    → IsSoleOwner q rows
    → IsLedger (new_action q ∷ rows)
insert-IsLedger q rows l named fresh sole = record {
  unique_ids = (fresh, l.unique_ids);
  unique_owners = λ kind identity. elim (Bool-cases (owns kind identity (new_action q))) [
    | inl new ↦ rw (new, sole kind identity new fresh) (omega arith)
    | inr old ↦ rw old (omega (arith, l.unique_owners kind identity))
  ];
  identified = (named, l.identified);
}

coalesce_keeps : (o p : Option String) → differ p o ≡ false → is_some p ≡ true → coalesce o p ≡ p
coalesce_keeps none p d h = refl
coalesce_keeps (some i) none d h = cc
coalesce_keeps (some i) (some j) d h = ground (arith, eq_iff j i)

-- `advance` keeps the kind, the class and the identity of a non-idempotent action.
advance-owns :
    (q : Request) (a : Action) (kind identity : String)
    → differ a.identity q.identity ≡ false
    → IsIdentified a
    → owns kind identity (advance q a) ≡ owns kind identity a
unfolding owns
advance-owns q a kind identity keep named = elim (Bool-cases (is_non_idempotent a.action_class)) [
  | inl risky ↦ rw (coalesce_keeps q.identity a.identity keep (named risky))
  | inr safe ↦ rw safe (ground arith)
]

All-found :
    (P : Action → Type 0) (k : String) (rows : List Action) {a : Action}
    → All P rows
    → find_action k rows ≡ some a
    → P a
unfolding find_action
All-found P k [] h e = cc
All-found P k (b ∷ rest) {a} h e = elim (Bool-cases (str_eq b.action_id k)) [
  | inl hit ↦ let own : b ≡ a = some_injective (rw hit at e) in rw own at h.0
  | inr miss ↦ All-found P k rest h.1 (rw miss at e)
]

advance-IsIdentified : (q : Request) (a : Action) → IsIdentified a → IsIdentified (advance q a)
advance-IsIdentified q a h = ground arith

advance-IsLedger :
    (q : Request) (existing : Action) (rows : List Action)
    → IsLedger rows
    → find_action q.action_id rows ≡ some existing
    → differ existing.identity q.identity ≡ false
    → IsLedger (update_action q.action_id (advance q) rows)
advance-IsLedger q existing rows l found keep = record {
  unique_ids = update-UniqueIds q.action_id (advance q) rows (λ a. refl) l.unique_ids;
  unique_owners = λ kind identity.
      rw
        (count-update (owns kind identity) q.action_id (advance q) rows l.unique_ids (λ a e.
          let own : existing ≡ a = some_injective (rw found at e) in
          rw (← own) (
            advance-owns q existing kind identity keep
              (All-found IsIdentified q.action_id rows l.identified found))))
        (l.unique_owners kind identity);
  identified =
      All-update IsIdentified q.action_id (advance q) rows (advance-IsIdentified q) l.identified;
}

write_action-IsLedger :
    (q : Request) (existing : Option Action) (rows : List Action) {after : List Action}
    → IsLedger rows
    → IsIdentifiedRequest q
    → find_action q.action_id rows ≡ existing
    → IsSoleOwner q rows
    → write_action q existing rows ≡ ok after
    → IsLedger after
write_action-IsLedger q none rows l named found sole h =
    subst IsLedger (write_action_new q rows h).1 (insert-IsLedger q rows l named found sole)
write_action-IsLedger q (some a) rows l named found sole h =
    let (_, keep, _, e) = write_action-advance q a rows h in
    subst IsLedger e (advance-IsLedger q a rows l found keep)

transact-IsLedger :
    (status : TaskStatus) (q : Request) (owner : Option String) (rows : List Action)
    {after : List Action × String}
    → IsLedger rows
    → IsIdentifiedRequest q
    → check_owner q q.identity rows ≡ ok owner
    → transact status q owner rows ≡ ok after
    → IsLedger after.0
unfolding transact
transact-IsLedger status q (some owner) rows l named owned h =
    subst (λ (u : List Action × String). IsLedger u.0) (ok_injective h) l
transact-IsLedger status q none rows l named owned h =
    write_action-IsLedger q (find_action q.action_id rows) rows l named refl
      (check_owner_sole q q.identity rows refl owned) (transact_write status q rows h).1

pub record_request-IsLedger :
    (q : Request) (s : Store) {t : Store × String}
    → IsLedger s.external_actions
    → IsIdentifiedRequest q
    → record_request q s ≡ ok t
    → IsLedger t.0.external_actions
record_request-IsLedger q s l named h =
    let (owner, owned, written, _) = record_request_parts q s h in
    transact-IsLedger s.task_status q owner s.external_actions l named owned written

build_request-named :
    (state : ActionState) (class : ActionClass) (chosen : String) (provided : Bool)
    (kind identity : String) (details : Option String) {q : Request}
    → build_request state class chosen provided kind identity details ≡ ok q
    → IsIdentifiedRequest q
unfolding build_request
build_request-named state class chosen provided kind identity details h risky = ground arith

pub check_request-named :
    (redact : String → String) (fresh kind state : String) (identity details : Option String)
    (action_class : String) (action_id : Option String) {q : Request}
    → check_request redact fresh kind state identity details action_class action_id ≡ ok q
    → IsIdentifiedRequest q
unfolding check_request
check_request-named redact fresh kind state identity details action_class action_id h =
    let (s, _, h₁) = >>=-eq-ok (parse_state state) _ h in
    let (c, _, h₂) = >>=-eq-ok (parse_class action_class) _ h₁ in
    let (chosen, _, h₃) = >>=-eq-ok (choose_id fresh action_id) _ h₂ in
    build_request-named s c chosen _ _ _ _ h₃

-- A recording that succeeds on a ledger leaves a ledger: ids stay unique, no two non-idempotent
-- actions share a kind and an identity, and each of them has an identity.
pub record_external-IsLedger :
    (redact : String → String) (fresh kind state : String) (identity details : Option String)
    (action_class : String) (action_id : Option String) (s : Store) {t : Store × String}
    → IsLedger s.external_actions
    → record_external redact fresh kind state identity details action_class action_id s ≡ ok t
    → IsLedger t.0.external_actions
unfolding record_external
record_external-IsLedger redact fresh kind state identity details action_class action_id s l h =
    let (q, checked, rest) =
      >>=-eq-ok (check_request redact fresh kind state identity details action_class action_id) _
        h in
    record_request-IsLedger q s l
      (check_request-named redact fresh kind state identity details action_class action_id checked)
      rest
