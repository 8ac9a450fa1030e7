-- ===== src/Store/Isolations/Invariant.antt =====
-- One isolation at a time: what holds of the tables `isolations` and `semantic_work` between two
-- operations (scripts/codex_loop_runtime/state.py).
use codex_loop.Base.{
  ℕ, ◌≤◌, String, ◌≡◌, refl, sym, subst, ◌∙◌, inl, inr, true, false, Option, none, some, List, ◌∷◌,
  count, is_some, is_some-false, is_empty, Bool-cases, str_eq, eq_iff, arith, ok, >>=-eq-ok,
  reject-eq-ok, ok_injective,
}
use codex_loop.Store.{Store, blank_abort_reason, Isolation, SemanticWork, WorkStatus}
use codex_loop.Store.Cancel.{first_active, abort_rows, abort_work, abort_active, cancel}
use codex_loop.Store.Status.{ensure_active}
use codex_loop.Store.Clean.{clean_text}
use codex_loop.Store.Isolations.{
  find_isolation, find_work, update_isolation, update_work, Digest, Proposal, new_work,
  effective_request_sha256, create_isolation, insert_isolation, add_work, check_proposal,
  SemanticSpec,
}
use codex_loop.Store.Isolations.Authority.{finish_parts}
use codex_loop.Store.Isolations.Finish.{
  finished, Outcome, or_current, abort_with, require_active, finish_row, finish_work,
  finish_isolation, abort_isolation,
}
use codex_loop.Store.Isolations.Rows.{
  is_active_row, is_active_semantic, map_when-true, map_when-false, abort_row, abort_semantic,
  abort_rows_lem, abort_work_lem, first_active-none, find-update_isolation, find-update_work,
  count-update_isolation,
}

-- At most one isolation is active, and active semantic work belongs to an active isolation.
pub record IsSerial (rows : List Isolation) (work : List SemanticWork) : Type 0 where
  pub one_active : count is_active_row rows ≤ 1
  pub bound :
      (k : String) (w : SemanticWork)
      → find_work k work ≡ some w
      → is_active_semantic w ≡ true
      → (i : Isolation) × (find_isolation k rows ≡ some i) × (is_active_row i ≡ true)

abbrev pub IsSerialStore : Store → Type 0
IsSerialStore s = IsSerial s.isolations s.semantic_work

-- Ending the isolation `k` and its work at once keeps the tables serial.
pub end-IsSerial :
    (k : String) (f : Isolation → Isolation) (g : SemanticWork → SemanticWork)
    (rows : List Isolation) (work : List SemanticWork)
    → ((i : Isolation) → (f i).isolation_id ≡ i.isolation_id)
    → ((w : SemanticWork) → (g w).isolation_id ≡ w.isolation_id)
    → ((i : Isolation) → is_active_row (f i) ≡ true → is_active_row i ≡ true)
    → ((w : SemanticWork) → is_active_semantic (g w) ≡ false)
    → IsSerial rows work
    → IsSerial (update_isolation k f rows) (update_work k g work)
end-IsSerial k f g rows work fid gid down done serial = record {
  one_active = omega (arith, count-update_isolation k f rows down, serial.one_active);
  bound = λ j w found live. elim (Bool-cases (str_eq j k)) [
    | inl hit ↦
        let (v, _, e) =
          map_when-true g (find_work j work) (rw (find-update_work j k g work gid, hit) at found) in
        absurd (cc (done v, e, live))
    | inr miss ↦
        let same : find_work j work ≡ some w =
          sym (map_when-false g (find_work j work))
          ∙ (rw (find-update_work j k g work gid, miss) at found) in
        let (i, there, active) = serial.bound j w same live in
        (
          i,
          rw (find-update_isolation j k f rows fid, miss)
              (map_when-false f (find_isolation j rows) ∙ there),
          active,
        )
  ];
}

end_first :
    (k : String) (generation : ℕ) (rows : List Isolation) (work : List SemanticWork)
    → IsSerial rows work
    → IsSerial (abort_rows k generation rows) (abort_work k work)
end_first k generation rows work serial =
    rw (abort_rows_lem k generation rows, abort_work_lem k work)
      (end-IsSerial k (abort_row generation) abort_semantic rows work (λ i. ground arith)
        (λ w. ground arith) (λ i h. ground arith) (λ w. ground arith) serial)

-- The guards of a new isolation.
insert-IsSerial :
    (i : Isolation) (rows : List Isolation) (work : List SemanticWork)
    → first_active rows ≡ none
    → find_isolation i.isolation_id rows ≡ none
    → IsSerial rows work
    → IsSerial (i ∷ rows) work
unfolding find_isolation
insert-IsSerial i rows work idle fresh serial = record {
  one_active = ground (arith, first_active-none rows idle);
  bound = λ k w found live.
      let (j, there, active) = serial.bound k w found live in
      (j, ground (arith, eq_iff i.isolation_id k), active);
}

work-IsSerial :
    (i : Isolation) (v : SemanticWork) (rows : List Isolation) (work : List SemanticWork)
    → v.isolation_id ≡ i.isolation_id
    → is_active_row i ≡ true
    → IsSerial (i ∷ rows) work
    → IsSerial (i ∷ rows) (v ∷ work)
unfolding find_isolation find_work
work-IsSerial i v rows work own active serial = record {
  one_active = serial.one_active;
  bound = λ k w found live. elim (Bool-cases (str_eq v.isolation_id k)) [
    | inl hit ↦ (i, ground (arith, eq_iff v.isolation_id k, eq_iff i.isolation_id k), active)
    | inr miss ↦ serial.bound k w (rw miss at found) live
  ];
}

add_work-IsSerial :
    (request : String) (i : Isolation) (semantic : Option SemanticSpec) (s : Store) {t : Store}
    (rows : List Isolation)
    → s.isolations ≡ record i { status = WorkStatus.active } ∷ rows
    → IsSerialStore s
    → add_work request i semantic s ≡ ok t
    → IsSerialStore t
unfolding add_work
add_work-IsSerial request i none s rows e serial h = subst IsSerialStore (ok_injective h) serial
add_work-IsSerial request i (some w) s rows e serial h =
    let added = reject-eq-ok _ _ _ h in
    subst IsSerialStore (ok_injective added.1) (
      subst
        (λ (r : List Isolation).
          IsSerial r (new_work i.isolation_id request i.parent_generation w ∷ s.semantic_work))
        (sym e)
        (work-IsSerial (record i { status = WorkStatus.active }) _ rows s.semantic_work refl refl
          (subst (λ (r : List Isolation). IsSerial r s.semantic_work) e serial)))

insert_isolation-IsSerial :
    (request : String) (i : Isolation) (semantic : Option SemanticSpec) (s : Store) {t : Store}
    → IsSerialStore s
    → insert_isolation request i semantic s ≡ ok t
    → IsSerialStore t
unfolding insert_isolation
insert_isolation-IsSerial request i semantic s serial h =
    let idle = reject-eq-ok (is_some (first_active s.isolations)) _ _ h in
    let fresh = reject-eq-ok (is_some (find_isolation i.isolation_id s.isolations)) _ _ idle.1 in
    let (t, added, done) = >>=-eq-ok (add_work request i semantic _) _ fresh.1 in
    subst IsSerialStore (ok_injective done) (
      add_work-IsSerial request i semantic _ s.isolations refl
        (insert-IsSerial (record i { status = WorkStatus.active }) s.isolations s.semantic_work
          (is_some-false _ idle.0) (is_some-false _ fresh.0) serial)
        added)

-- Creating an isolation that the guards let through keeps the tables serial.
pub create_isolation-IsSerial :
    (redact : String → String) (digest : Digest) (p : Proposal) (s : Store) {t : Store × Isolation}
    → IsSerialStore s
    → create_isolation redact digest p s ≡ ok t
    → IsSerialStore t.0
unfolding create_isolation
create_isolation-IsSerial redact digest p s serial h =
    let (_, _, allowed) = >>=-eq-ok (ensure_active s) _ h in
    let ((i, semantic), checked, rest) = >>=-eq-ok (check_proposal redact p) _ allowed in
    let (t, inserted, done) =
      >>=-eq-ok (insert_isolation (effective_request_sha256 digest s) i semantic s) _ rest in
    subst (λ (u : Store × Isolation). IsSerialStore u.0) (ok_injective done)
      (insert_isolation-IsSerial (effective_request_sha256 digest s) i semantic s serial inserted)

pub finish_isolation-IsSerial :
    (digest : Digest) (k : String) (o : Outcome) (s : Store) {t : Store}
    → IsSerialStore s
    → finish_isolation digest k o s ≡ ok t
    → IsSerialStore t
unfolding finished
finish_isolation-IsSerial digest k o s serial h =
    subst IsSerialStore (finish_parts digest k o s h).4 (
      end-IsSerial k (finish_row o) (finish_work o) s.isolations s.semantic_work (λ j. refl)
        (λ w. refl) (λ j live. cc) (λ w. refl) serial)

pub abort_isolation-IsSerial :
    (redact : String → String) (k reason : String) (g : Option ℕ) (s : Store) {t : Store}
    → IsSerialStore s
    → abort_isolation redact k reason g s ≡ ok t
    → IsSerialStore t
unfolding abort_isolation
abort_isolation-IsSerial redact k reason g s serial h =
    let given = reject-eq-ok (is_empty (clean_text redact 4096 reason)) blank_abort_reason _ h in
    let (i, _, done) = >>=-eq-ok (require_active (find_isolation k s.isolations)) _ given.1 in
    subst IsSerialStore (ok_injective done) (
      subst
        (λ (w : List SemanticWork).
          IsSerial (update_isolation k (abort_with (or_current g s.generation)) s.isolations) w)
        (sym (abort_work_lem k s.semantic_work))
        (end-IsSerial k (abort_with (or_current g s.generation)) abort_semantic s.isolations
          s.semantic_work (λ j. refl) (λ w. ground arith) (λ j live. cc) (λ w. ground arith)
          serial))

abort_active-IsSerial :
    (o : Option Isolation) (s : Store) → IsSerialStore s → IsSerialStore (abort_active o s)
unfolding abort_active
abort_active-IsSerial none s serial = serial
abort_active-IsSerial (some i) s serial =
    end_first i.isolation_id s.generation s.isolations s.semantic_work serial

pub cancel-IsSerial :
    (redact : String → String) (reason : Option String) (s : Store) {t : Store}
    → IsSerialStore s
    → cancel redact reason s ≡ ok t
    → IsSerialStore t
unfolding cancel
cancel-IsSerial redact reason s serial h =
    let done = reject-eq-ok _ _ _ h in
    subst IsSerialStore (ok_injective done.1)
      (abort_active-IsSerial (first_active s.isolations) s serial)
