-- ===== src/Store/Isolations/Authority.antt =====
-- When semantic work may finish (scripts/codex_loop_runtime/state.py).
use Prim.Native.String.{len}
use codex_loop.Base.{
  suc, ◌+◌, String, ◌≡◌, ◌≢◌, refl, sym, ap, subst, ◌∙◌, inl, inr, true, false, not, not-false,
  Option, none, some, List, [], ◌∷◌, if◌then◌else◌, ltb, is_empty, strip, is_some, Bool-cases,
  str_eq, eq_iff, eq_refl, arith, ok, >>=-eq-ok, reject-eq-ok, reject_ok, ok_injective, length,
}
use codex_loop.Store.{
  Store, Isolation, SemanticWork, result_too_large, must_finish_semantic, semantic_not_active,
  not_logical, stale_request, stale_workspace, duplicate_result_id, blank_steer,
}
use codex_loop.Store.Clean.{normalize_request_authority_text}
use codex_loop.Store.Status.{is_active_work, record_steer}
use codex_loop.Store.Isolations.{
  Digest, oldest_first, effective_request_sha256, find_isolation, find_work, update_isolation,
  update_work,
}
use codex_loop.Store.Isolations.Finish.{
  Outcome, check_work, require_active, finish_row, finish_work, finish_isolation, finished,
  is_duplicate,
}
use codex_loop.Store.Isolations.Rows.{find-update_isolation, find-update_work}

-- What the guards on semantic work let through.
pub record IsAuthorised (request : String) (i : Isolation) (w : SemanticWork) (o : Outcome)
    : Type 0 where
  pub identified : is_some o.semantic_result_id ≡ true
  pub work_active : is_active_work w.status ≡ true
  pub logical : i.actual_executor ≡ "logical_isolation"
  pub fresh_request : w.request_sha256 ≡ request
  pub same_workspace : o.workspace_changed ≡ false

check_work-IsAuthorised :
    (request : String) (i : Isolation) (w : SemanticWork) (o : Outcome)
    → check_work request i (some w) o ≡ ok tt
    → IsAuthorised request i w o
unfolding check_work
check_work-IsAuthorised request i w o h =
    let a = reject-eq-ok (not (is_some o.semantic_result_id)) must_finish_semantic _ h in
    let b = reject-eq-ok (not (is_active_work w.status)) semantic_not_active _ a.1 in
    let c = reject-eq-ok (not (str_eq i.actual_executor "logical_isolation")) not_logical _ b.1 in
    let d = reject-eq-ok (not (str_eq w.request_sha256 request)) stale_request _ c.1 in
    record {
      identified = not-false _ a.0;
      work_active = not-false _ b.0;
      logical = (eq_iff i.actual_executor "logical_isolation").0 (not-false _ c.0);
      fresh_request = (eq_iff w.request_sha256 request).0 (not-false _ d.0);
      same_workspace = reject_ok o.workspace_changed stale_workspace d.1;
    }

require_active_ok :
    (o : Option Isolation) {i : Isolation}
    → require_active o ≡ ok i
    → (o ≡ some i) × (is_active_work i.status ≡ true)
unfolding require_active
require_active_ok none h = cc
require_active_ok (some j) h = elim (Bool-cases (is_active_work j.status)) [
  | inl live ↦
      let e = ok_injective (rw live at h) in
      (ap (λ x. some x) e, subst (λ (x : Isolation). is_active_work x.status ≡ true) e live)
  | inr dead ↦ absurd (cc (rw dead at h))
]

-- The parts of an isolation that was finished.
pub finish_parts :
    (digest : Digest) (k : String) (o : Outcome) (s : Store) {t : Store}
    → finish_isolation digest k o s ≡ ok t
    → (i : Isolation) × (find_isolation k s.isolations ≡ some i)
      × (is_active_work i.status ≡ true)
      × (check_work (effective_request_sha256 digest s) i (find_work k s.semantic_work) o ≡ ok tt)
      × (finished k o s ≡ t)
unfolding finish_isolation
finish_parts digest k o s {t} h =
    let small =
      reject-eq-ok (ltb (if is_some o.semantic_result_id then 262144 else 65536) (len o.result))
        result_too_large _ h in
    let (i, found, rest) = >>=-eq-ok (require_active (find_isolation k s.isolations)) _ small.1 in
    let (_, checked, new) =
      >>=-eq-ok (check_work (effective_request_sha256 digest s) i (find_work k s.semantic_work) o) _
        rest in
    let done =
      reject-eq-ok (is_duplicate k o.semantic_result_id s.semantic_work) duplicate_result_id _
        new in
    (i, (require_active_ok _ found).0, (require_active_ok _ found).1, checked, ok_injective done.1)

finished_rows :
    (k : String) (o : Outcome) (s : Store) {t : Store}
    → finished k o s ≡ t
    → (t.isolations ≡ update_isolation k (finish_row o) s.isolations)
      × (t.semantic_work ≡ update_work k (finish_work o) s.semantic_work)
unfolding finished
finished_rows k o s e =
    subst
      (λ (u : Store).
        (u.isolations ≡ update_isolation k (finish_row o) s.isolations)
        × (u.semantic_work ≡ update_work k (finish_work o) s.semantic_work))
      e (refl, refl)

pub finish_isolation-IsAuthorised :
    (digest : Digest) (k : String) (o : Outcome) (s : Store) {t : Store} {w : SemanticWork}
    → find_work k s.semantic_work ≡ some w
    → finish_isolation digest k o s ≡ ok t
    → (i : Isolation) × (find_isolation k s.isolations ≡ some i)
      × (is_active_work i.status ≡ true)
      × IsAuthorised (effective_request_sha256 digest s) i w o
      × (find_isolation k t.isolations ≡ some (finish_row o i))
      × (find_work k t.semantic_work ≡ some (finish_work o w))
finish_isolation-IsAuthorised digest k o s {t} {w} bound h =
    let (i, there, active, checked, done) = finish_parts digest k o s h in
    let (rows, work) = finished_rows k o s done in
    (
      i,
      there,
      active,
      check_work-IsAuthorised _ i w o (rw bound at checked),
      rw (rows, find-update_isolation k k (finish_row o) s.isolations (λ i. refl), there, eq_refl k)
          refl,
      rw (work, find-update_work k k (finish_work o) s.semantic_work (λ w. refl), bound, eq_refl k)
          refl,
    )

-- The steers read back oldest first, none lost.
pub length-oldest_first :
    (rows : List (String × String)) (acc : List String)
    → length (oldest_first rows acc) ≡ length rows + length acc
unfolding oldest_first
length-oldest_first [] acc = omega arith
length-oldest_first (row ∷ rest) acc = omega (arith, length-oldest_first rest (row.1 ∷ acc))

record_steer_rows :
    (fresh text : String) (s : Store) {t : Store × String}
    → record_steer fresh text s ≡ ok t
    → (length t.0.steers ≡ suc (length s.steers)) × (t.0.semantic_work ≡ s.semantic_work)
unfolding record_steer
record_steer_rows fresh text s h =
    let (clean, _, given) = >>=-eq-ok (normalize_request_authority_text text) _ h in
    let done = reject-eq-ok (is_empty (strip clean)) blank_steer _ given in
    subst
      (λ (u : Store × String).
        (length u.0.steers ≡ suc (length s.steers)) × (u.0.semantic_work ≡ s.semantic_work))
      (ok_injective done.1) (refl, refl)

-- Where the digests of requests with a different number of steers differ, work that was created under
-- the request as it stood before a steer cannot be finished after it, whatever its outcome.
pub record_steer_stale :
    (digest : Digest)
    → ((a b : String) (xs ys : List String) → digest a xs ≡ digest b ys → length xs ≡ length ys)
    → (fresh text k : String) (o : Outcome) (s : Store) {t : Store × String} {u : Store}
      {w : SemanticWork}
    → find_work k s.semantic_work ≡ some w
    → w.request_sha256 ≡ effective_request_sha256 digest s
    → record_steer fresh text s ≡ ok t
    → finish_isolation digest k o t.0 ≢ ok u
unfolding effective_request_sha256
record_steer_stale digest apart fresh text k o s {t} {u} {w} bound made steered h =
    let (more, same) = record_steer_rows fresh text s steered in
    let (_, _, _, authorised, _, _) =
      finish_isolation-IsAuthorised digest k o t.0 {t = u} {w = w} (rw same bound) h in
    let e = apart _ _ _ _ (sym made ∙ authorised.fresh_request) in
    absurd
      (omega (arith, e, more, length-oldest_first s.steers [], length-oldest_first t.0.steers []))
