-- ===== src/Store/External/Failures.antt =====
-- The resolution of failed external actions (scripts/codex_loop_runtime/state.py).
use codex_loop.Base.{
  suc, String, ◌≡◌, refl, sym, ap, subst, ◌∙◌, inl, inr, true, false, Option, none, some, List, [],
  ◌∷◌, count, Bool-cases, is_empty, strip, str_eq, eq_iff, eq_refl, arith, ok, >>=-eq-ok,
  reject-eq-ok, ok_injective, some_injective,
}
use codex_loop.Store.{Store, Action, blank_evidence}
use codex_loop.Store.Clean.{scrub_persisted_text}
use codex_loop.Store.External.{find_action, owns}
use codex_loop.Store.External.Transact.{
  update_action, is_unresolved_failure, unresolved_external_failure_count, resolve_failure,
  resolve_external_failure,
}
use codex_loop.Store.External.Rows.{
  UniqueIds, find-update, update-UniqueIds, update_missing, count-update, All-update,
}
use codex_loop.Store.External.Ledger.{IsLedger, IsIdentified}

-- The row that the evidence makes of a failure.
abbrev pub resolve_row : String → Action → Action
resolve_row evidence a = record a { failure_resolved = true; resolution = some evidence }

resolve_failure_row :
    (evidence : String) (o : Option Action) {f : Action → Action}
    → resolve_failure evidence o ≡ ok f
    → f ≡ resolve_row evidence
unfolding resolve_failure
resolve_failure_row evidence none h = cc
resolve_failure_row evidence (some a) h = ground arith

pub resolve_external_failure_effect :
    (redact : String → String) (k evidence : String) (s : Store) {t : Store}
    → resolve_external_failure redact k evidence s ≡ ok t
    → t ≡ record s {
      external_actions =
          update_action k
            (resolve_row (scrub_persisted_text redact 4096 evidence))
            s.external_actions;
    }
unfolding resolve_external_failure
resolve_external_failure_effect redact k evidence s h =
    let given =
      reject-eq-ok (is_empty (strip (scrub_persisted_text redact 4096 evidence))) blank_evidence _
        h in
    let (f, failed, done) =
      >>=-eq-ok
        (resolve_failure (scrub_persisted_text redact 4096 evidence)
          (find_action k s.external_actions))
        _ given.1 in
    sym (ok_injective done)
    ∙ ap
        (λ (g : Action → Action). record s {
          external_actions = update_action k g s.external_actions;
        })
        (resolve_failure_row _ _ failed)

owns-resolve_row :
    (kind identity evidence : String) (a : Action)
    → owns kind identity (resolve_row evidence a) ≡ owns kind identity a
unfolding owns
owns-resolve_row kind identity evidence a = refl

pub resolve_row-IsLedger :
    (k evidence : String) (rows : List Action)
    → IsLedger rows
    → IsLedger (update_action k (resolve_row evidence) rows)
resolve_row-IsLedger k evidence rows l = record {
  unique_ids = update-UniqueIds k (resolve_row evidence) rows (λ a. refl) l.unique_ids;
  unique_owners = λ kind identity.
      rw
        (count-update (owns kind identity) k (resolve_row evidence) rows l.unique_ids
          (λ a _. owns-resolve_row kind identity evidence a))
        (l.unique_owners kind identity);
  identified = All-update IsIdentified k (resolve_row evidence) rows (λ a h. h) l.identified;
}

resolve_row-count :
    (k evidence : String) (rows : List Action) {a : Action}
    → UniqueIds rows
    → find_action k rows ≡ some a
    → is_unresolved_failure a ≡ true
    → count is_unresolved_failure rows
      ≡ suc (count is_unresolved_failure (update_action k (resolve_row evidence) rows))
unfolding find_action update_action
resolve_row-count k evidence [] u found failed = cc
resolve_row-count k evidence (b ∷ rest) {a} u found failed =
    elim (Bool-cases (str_eq b.action_id k)) [
      | inl hit ↦
          let own : b.action_id ≡ k = (eq_iff b.action_id k).0 hit in
          let alone : find_action k rest ≡ none = rw own at u.0 in
          let same : b ≡ a = some_injective (rw hit at found) in
          let here = subst (λ (x : Action). is_unresolved_failure x ≡ true) (sym same) failed in
          rw (update_missing k (resolve_row evidence) rest alone, hit) (ground arith)
      | inr miss ↦
          rw miss
            (omega (arith, resolve_row-count k evidence rest {a = a} u.1 (rw miss at found) failed))
    ]

check_failure :
    (evidence : String) (a : Action)
    → is_unresolved_failure a ≡ true
    → resolve_failure evidence (some a) ≡ ok (resolve_row evidence)
unfolding resolve_failure
check_failure evidence a h = ground arith

-- On a ledger, evidence that is not blank after its cleaning resolves an unresolved failure: the
-- operation succeeds, the row reads back as resolved with the evidence, and there is exactly one
-- unresolved failure less.
pub resolve_external_failure_lem :
    (redact : String → String) (k evidence : String) (s : Store) {a : Action}
    → IsLedger s.external_actions
    → find_action k s.external_actions ≡ some a
    → is_unresolved_failure a ≡ true
    → is_empty (strip (scrub_persisted_text redact 4096 evidence)) ≡ false
    → (t : Store) × (resolve_external_failure redact k evidence s ≡ ok t)
      × (find_action k t.external_actions
          ≡ some (resolve_row (scrub_persisted_text redact 4096 evidence) a))
      × (unresolved_external_failure_count s ≡ suc (unresolved_external_failure_count t))
unfolding resolve_external_failure unresolved_external_failure_count
resolve_external_failure_lem redact k evidence s {a} l found failed given =
    let accepted : resolve_failure (scrub_persisted_text redact 4096 evidence)
          (find_action k s.external_actions)
        ≡ ok (resolve_row (scrub_persisted_text redact 4096 evidence)) =
      rw found (check_failure _ a failed) in
    (
      record s {
        external_actions =
            update_action k (resolve_row (scrub_persisted_text redact 4096 evidence))
              s.external_actions;
      },
      rw (given, accepted) refl,
      rw
          (
            find-update k k (resolve_row (scrub_persisted_text redact 4096 evidence))
                s.external_actions (λ b. refl),
            found,
            eq_refl k,
          )
          refl,
      resolve_row-count k _ s.external_actions {a = a} l.unique_ids found failed,
    )
