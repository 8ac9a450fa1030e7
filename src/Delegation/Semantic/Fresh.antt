-- ===== src/Delegation/Semantic/Fresh.antt =====
-- A semantic result that was just minted (scripts/codex_loop_runtime/delegation.py and state.py).
use codex_loop.Base.{
  ℕ, String, ◌≡◌, refl, sym, ap, subst, ◌∙◌, inl, inr, Bool, true, false, Option, none, some, List,
  [], ◌∷◌, Bool-cases, is_empty, str_eq, eq_iff, eq_refl, arith, ok, some_injective,
}
use codex_loop.Store.{Store, Isolation, SemanticWork}
use codex_loop.Store.Status.{ensure_active}
use codex_loop.Store.Isolations.{
  Digest, effective_request_sha256, find_isolation, find_work, update_work, SemanticSpec,
}
use codex_loop.Store.Isolations.Finish.{
  finished, Outcome, finish_row, finish_work, finish_isolation,
}
use codex_loop.Store.Isolations.Authority.{finish_parts, finish_isolation-IsAuthorised}
use codex_loop.Delegation.Semantic.{
  is_result, find_result, semantic_result, clean_binding, is_bound, is_finished, is_generation,
  check_result, resolve_semantic_result,
}

find_work_id :
    (k : String) (rows : List SemanticWork) {w : SemanticWork}
    → find_work k rows ≡ some w
    → w.isolation_id ≡ k
unfolding find_work
find_work_id k [] h = cc
find_work_id k (x ∷ rest) {w} h = elim (Bool-cases (str_eq x.isolation_id k)) [
  | inl hit ↦
      let own : x ≡ w = some_injective (rw hit at h) in rw (← own) ((eq_iff x.isolation_id k).0 hit)
  | inr miss ↦ find_work_id k rest (rw miss at h)
]

is_result-some : (r : String) (o : Option String) → o ≡ some r → is_result r o ≡ true
is_result-some r none h = cc
is_result-some r (some x) h = let e : x ≡ r = some_injective h in rw e (eq_refl r)

find_result_here :
    (r : String) (x : SemanticWork) (rest : List SemanticWork)
    → x.semantic_result_id ≡ some r
    → find_result r (x ∷ rest) ≡ some x
unfolding find_result
find_result_here r x rest h = rw (is_result-some r x.semantic_result_id h) refl

-- A result id that no row had is found at the row that receives it.
find_result-update_work :
    (r k : String) (f : SemanticWork → SemanticWork) (rows : List SemanticWork) {w : SemanticWork}
    → ((x : SemanticWork) → (f x).semantic_result_id ≡ some r)
    → find_result r rows ≡ none
    → find_work k rows ≡ some w
    → find_result r (update_work k f rows) ≡ some (f w)
unfolding find_result find_work update_work
find_result-update_work r k f [] given fresh h = cc
find_result-update_work r k f (x ∷ rest) {w} given fresh h =
    elim (Bool-cases (str_eq x.isolation_id k)) [
      | inl hit ↦
          let own : x ≡ w = some_injective (rw hit at h) in
          rw hit (
            subst (λ (y : SemanticWork). find_result r (f x ∷ update_work k f rest) ≡ some (f y))
              own (find_result_here r (f x) (update_work k f rest) (given x)))
      | inr miss ↦ elim (Bool-cases (is_result r x.semantic_result_id)) [
        | inl taken ↦ absurd (cc (rw taken at fresh))
        | inr other ↦
            rw (miss, other)
              (find_result-update_work r k f rest given (rw other at fresh) (rw miss at h))
      ]
    ]

-- What a finish leaves as it was, and the table of semantic work after it.
finish_keeps :
    (digest : Digest) (k : String) (o : Outcome) (s : Store) {t : Store}
    → finish_isolation digest k o s ≡ ok t
    → (t.semantic_work ≡ update_work k (finish_work o) s.semantic_work)
      × (t.generation ≡ s.generation)
      × (effective_request_sha256 digest t ≡ effective_request_sha256 digest s)
      × (ensure_active t ≡ ensure_active s)
unfolding finished effective_request_sha256 ensure_active
finish_keeps digest k o s {t} h =
    subst
      (λ (u : Store).
        (u.semantic_work ≡ update_work k (finish_work o) s.semantic_work)
        × (u.generation ≡ s.generation)
        × (effective_request_sha256 digest u ≡ effective_request_sha256 digest s)
        × (ensure_active u ≡ ensure_active s))
      (finish_parts digest k o s h).4 (refl, refl, refl, refl)

semantic_result-some :
    (r : String) (t : Store) (w : SemanticWork) (i : Isolation)
    → find_result r t.semantic_work ≡ some w
    → find_isolation w.isolation_id t.isolations ≡ some i
    → semantic_result r t ≡ some (w, i)
unfolding semantic_result
semantic_result-some r t w i h g = rw (h, semantic_result, g) refl

-- The row and the isolation of a result that was just minted.
semantic_result-finish :
    (k r : String) (o : Outcome) (s t : Store) {w : SemanticWork} {i : Isolation}
    → find_work k s.semantic_work ≡ some w
    → find_result r s.semantic_work ≡ none
    → o.semantic_result_id ≡ some r
    → t.semantic_work ≡ update_work k (finish_work o) s.semantic_work
    → find_isolation k t.isolations ≡ some i
    → semantic_result r t ≡ some (finish_work o w, i)
semantic_result-finish k r o s t {w} {i} bound fresh minted rows there =
    semantic_result-some r t (finish_work o w) i
      (subst (λ (l : List SemanticWork). find_result r l ≡ some (finish_work o w)) (sym rows)
        (find_result-update_work r k (finish_work o) s.semantic_work (λ x. minted) fresh bound))
      (subst (λ (j : String). find_isolation j t.isolations ≡ some i)
        (sym (find_work_id k s.semantic_work bound)) there)

is_generation-some : (o : Option ℕ) (n : ℕ) → o ≡ some n → is_generation o n ≡ true
is_generation-some none n h = cc
is_generation-some (some m) n h = let e : m ≡ n = some_injective h in ground arith

check_result_ok :
    (digest : Digest) (slot_changed : Isolation → Bool) (e : SemanticSpec) (r : String) (t : Store)
    (w : SemanticWork) (i : Isolation)
    → is_bound e w ≡ true
    → is_finished w.status ≡ true
    → is_empty r ≡ false
    → str_eq i.actual_executor "logical_isolation" ≡ true
    → i.workspace_changed ≡ false
    → slot_changed i ≡ false
    → str_eq w.request_sha256 (effective_request_sha256 digest t) ≡ true
    → is_generation w.result_generation t.generation ≡ true
    → check_result digest slot_changed e r t w i ≡ ok tt
unfolding check_result
check_result_ok digest slot_changed e r t w i bound done named logical same slot request now =
    rw (bound, done, named, slot, logical, same, request, now) refl

-- A finish of semantic work at the task's generation, with a result id that is not empty and that no
-- row had, gives a result that is resolved at once, with the finished rows, for a binding that cleans
-- to the work's own, where the task is active and the slot of the finished isolation did not change.
pub resolve_semantic_result-finish_isolation :
    (digest : Digest) (redact : String → String) (slot_changed : Isolation → Bool) (k r : String)
    (o : Outcome) (b e : SemanticSpec) (s : Store) {t : Store} {w : SemanticWork}
    → find_work k s.semantic_work ≡ some w
    → find_result r s.semantic_work ≡ none
    → o.semantic_result_id ≡ some r
    → is_empty r ≡ false
    → o.exit_generation ≡ s.generation
    → ensure_active s ≡ ok tt
    → clean_binding redact b ≡ ok e
    → is_bound e w ≡ true
    → ((i : Isolation)
        → find_isolation k s.isolations ≡ some i
        → slot_changed (finish_row o i) ≡ false)
    → finish_isolation digest k o s ≡ ok t
    → (i : Isolation) × (find_isolation k s.isolations ≡ some i)
      × (resolve_semantic_result digest redact slot_changed r b t
          ≡ ok (finish_work o w, finish_row o i))
unfolding resolve_semantic_result
resolve_semantic_result-finish_isolation digest redact slot_changed k r o b e s {t} {w} bound fresh
      minted named generation live cleaned matching slot h =
    let (i, there, _, authorised, row, _) = finish_isolation-IsAuthorised digest k o s bound h in
    let (work, now, request, active) = finish_keeps digest k o s h in
    let checked =
      check_result_ok digest slot_changed e r t (finish_work o w) (finish_row o i) matching refl
        named ((eq_iff i.actual_executor "logical_isolation").1 authorised.logical)
        authorised.same_workspace (slot i there)
        ((eq_iff w.request_sha256 (effective_request_sha256 digest t)).1
          (authorised.fresh_request ∙ sym request))
        (is_generation-some (some o.exit_generation) t.generation
          (ap (λ n. some n) (generation ∙ sym now))) in
    let there' = semantic_result-finish k r o s t bound fresh minted work row in
    (i, there, rw (active ∙ live, there', cleaned, checked) refl)
