-- ===== src/Delegation/Semantic/Stale.antt =====
-- A semantic result that is out of date (scripts/codex_loop_runtime/delegation.py).
use codex_loop.Base.{
  ℕ, suc, ◌+◌, String, ◌≡◌, ◌≢◌, refl, sym, subst, ◌∙◌, Bool, true, false, not, not-false, ◌||◌,
  Option, none, some, List, [], length, is_empty, strip, str_eq, eq_iff, arith, ok, >>=-eq-ok,
  reject-eq-ok, reject_ok, ok_injective, some_injective,
}
use codex_loop.Store.{Store, Isolation, SemanticWork, blank_steer}
use codex_loop.Store.Clean.{normalize_request_authority_text}
use codex_loop.Store.Status.{record_steer, bump_generation, ensure_active}
use codex_loop.Store.Isolations.{Digest, effective_request_sha256, SemanticSpec}
use codex_loop.Store.Isolations.Authority.{length-oldest_first}
use codex_loop.Delegation.Semantic.{
  binding_mismatch, not_finished, not_logical, workspace_changed, slot_stale, request_stale,
  generation_stale, semantic_result, clean_binding, is_bound, is_finished, is_generation,
  check_result, found, guarded, resolve_semantic_result,
}

-- What makes a semantic result authoritative now.
pub record IsCurrent (digest : Digest) (s : Store) (w : SemanticWork) (i : Isolation) : Type 0 where
  pub work_finished : is_finished w.status ≡ true
  pub logical : i.actual_executor ≡ "logical_isolation"
  pub same_workspace : i.workspace_changed ≡ false
  pub same_request : w.request_sha256 ≡ effective_request_sha256 digest s
  pub same_generation : w.result_generation ≡ some s.generation

is_generation_lem : (o : Option ℕ) (n : ℕ) → is_generation o n ≡ true → o ≡ some n
is_generation_lem none n h = cc
is_generation_lem (some m) n h = let e : m ≡ n = ground arith in rw e refl

left_false : (a b : Bool) → (a || b) ≡ false → a ≡ false
left_false true b h = cc
left_false false b h = refl

check_result-IsCurrent :
    (digest : Digest) (slot_changed : Isolation → Bool) (e : SemanticSpec) (k : String) (s : Store)
    (w : SemanticWork) (i : Isolation)
    → check_result digest slot_changed e k s w i ≡ ok tt
    → IsCurrent digest s w i
unfolding check_result
check_result-IsCurrent digest slot_changed e k s w i h =
    let a = reject-eq-ok (not (is_bound e w)) binding_mismatch _ h in
    let b = reject-eq-ok (not (is_finished w.status) || is_empty k) not_finished _ a.1 in
    let c = reject-eq-ok (not (str_eq i.actual_executor "logical_isolation")) not_logical _ b.1 in
    let d = reject-eq-ok i.workspace_changed workspace_changed _ c.1 in
    let f = reject-eq-ok (slot_changed i) slot_stale _ d.1 in
    let g =
      reject-eq-ok (not (str_eq w.request_sha256 (effective_request_sha256 digest s))) request_stale
        _ f.1 in
    record {
      work_finished = not-false _ (left_false _ _ b.0);
      logical = (eq_iff i.actual_executor "logical_isolation").0 (not-false _ c.0);
      same_workspace = d.0;
      same_request =
          (eq_iff w.request_sha256 (effective_request_sha256 digest s)).0 (not-false _ g.0);
      same_generation =
          is_generation_lem w.result_generation s.generation
            (not-false _ (reject_ok _ generation_stale g.1));
    }

found_ok :
    (o : Option (SemanticWork × Isolation)) {row : SemanticWork × Isolation}
    → found o ≡ ok row
    → o ≡ some row
found_ok none h = cc
found_ok (some r) h = rw (ok_injective h) refl

-- The row that is resolved, and what was checked of it.
resolve_parts :
    (digest : Digest) (redact : String → String) (slot_changed : Isolation → Bool) (k : String)
    (b : SemanticSpec) (s : Store) {row : SemanticWork × Isolation}
    → resolve_semantic_result digest redact slot_changed k b s ≡ ok row
    → (semantic_result k s ≡ some row) × IsCurrent digest s row.0 row.1
unfolding resolve_semantic_result
resolve_parts digest redact slot_changed k b s {row} h =
    let (_, _, h₁) = >>=-eq-ok (guarded (ensure_active s)) _ h in
    let (r, there, h₂) = >>=-eq-ok (found (semantic_result k s)) _ h₁ in
    let (e, _, h₃) = >>=-eq-ok (clean_binding redact b) _ h₂ in
    let (_, checked, h₄) = >>=-eq-ok (check_result digest slot_changed e k s r.0 r.1) _ h₃ in
    subst
      (λ (x : SemanticWork × Isolation).
        (semantic_result k s ≡ some x) × IsCurrent digest s x.0 x.1)
      (ok_injective h₄)
      (
        found_ok (semantic_result k s) there,
        check_result-IsCurrent digest slot_changed e k s r.0 r.1 checked,
      )

record_steer_keeps :
    (fresh text k : String) (s : Store) {t : Store × String}
    → record_steer fresh text s ≡ ok t
    → (length t.0.steers ≡ suc (length s.steers)) × (semantic_result k t.0 ≡ semantic_result k s)
unfolding record_steer semantic_result
record_steer_keeps fresh text k s h =
    let (clean, _, given) = >>=-eq-ok (normalize_request_authority_text text) _ h in
    let done = reject-eq-ok (is_empty (strip clean)) blank_steer _ given in
    subst
      (λ (u : Store × String).
        (length u.0.steers ≡ suc (length s.steers)) × (semantic_result k u.0 ≡ semantic_result k s))
      (ok_injective done.1) (refl, refl)

-- Where the digests of requests with a different number of steers differ, a semantic result that is
-- resolved, whatever the binding, is resolved no more after a steer, and no more after the workspace's
-- generation was bumped.
pub resolve_semantic_result_stale :
    (digest : Digest)
    → ((a b : String) (xs ys : List String) → digest a xs ≡ digest b ys → length xs ≡ length ys)
    → (redact : String → String) (slot_changed : Isolation → Bool) (k : String)
      (b later : SemanticSpec) (fresh text : String) (s : Store) {t : Store × String}
      {row : SemanticWork × Isolation} (any_row : SemanticWork × Isolation)
    → resolve_semantic_result digest redact slot_changed k b s ≡ ok row
    → record_steer fresh text s ≡ ok t
    → (resolve_semantic_result digest redact slot_changed k later t.0 ≢ ok any_row)
      × (resolve_semantic_result digest redact slot_changed k later (bump_generation s)
          ≢ ok any_row)
unfolding effective_request_sha256 bump_generation semantic_result
resolve_semantic_result_stale digest apart redact slot_changed k b later fresh text s {t} {row}
      any_row h steered =
    let (there, current) = resolve_parts digest redact slot_changed k b s h in
    let (more, same) = record_steer_keeps fresh text k s steered in
    (
      λ g.
          let (again, now) = resolve_parts digest redact slot_changed k later t.0 g in
          let own : row ≡ any_row = some_injective (sym there ∙ sym same ∙ again) in
          let e = apart _ _ _ _ (sym (rw own at current.same_request) ∙ now.same_request) in
          absurd (
            omega
              (arith, e, more, length-oldest_first s.steers [], length-oldest_first t.0.steers [])),
      λ g.
          let (again, now) =
            resolve_parts digest redact slot_changed k later (bump_generation s) g in
          let own : row ≡ any_row = some_injective (sym there ∙ again) in
          let e : s.generation ≡ s.generation + 1 =
            some_injective (sym (rw own at current.same_generation) ∙ now.same_generation) in
          absurd (omega (arith, e)),
    )
