-- ===== src/Delegation/Semantic.antt =====
-- scripts/codex_loop_runtime/delegation.py: resolve_semantic_result, and semantic_result of state.py.
-- The tables are those after `sync_generation`. `slot_changed` says whether the fingerprint of the
-- worktree that an isolation's context names differs from the recorded one, if it names one.
pub mod Stale
pub mod Fresh
mod Tests
use Prim.Native.Char.{Char, code}
use codex_loop.Base.{
  ℕ, String, Bool, true, false, ◌&&◌, ◌||◌, not, Option, none, some, List, [], ◌∷◌, leb, ◌==◌,
  if◌then◌else◌, is_empty, str_eq, char_count, Result, ok, err, ◌>>=◌, ◌>>◌, reject,
}
use codex_loop.Store.{Store, StoreError, Isolation, SemanticWork, WorkStatus}
use codex_loop.Store.Clean.{clean_text}
use codex_loop.Store.Status.{ensure_active}
use codex_loop.Store.Isolations.{Digest, effective_request_sha256, find_isolation, SemanticSpec}

pub data ResolveError : Type 0 where
  refused : StoreError → ResolveError
  unknown_result blank_text invalid_digest binding_mismatch not_finished : ResolveError
  not_logical workspace_changed slot_stale request_stale generation_stale : ResolveError

abbrev is_result : String → Option String → Bool
is_result k none = false
is_result k (some r) = str_eq r k

unfoldable pub find_result : String → List SemanticWork → Option SemanticWork
find_result k [] = none
find_result k (w ∷ rest) = if is_result k w.semantic_result_id then some w else find_result k rest

-- The join of `semantic_result`.
unfoldable pub semantic_result : String → Store → Option (SemanticWork × Isolation)
unfolding find_result find_isolation
semantic_result k s = elim (find_result k s.semantic_work) [
  | none ↦ none
  | some w ↦ elim (find_isolation w.isolation_id s.isolations) [
    | none ↦ none
    | some i ↦ some (w, i)
  ]
]

-- `_clean_text(value, limit=limit, required=True)`
unfoldable pub clean_required : (String → String) → ℕ → String → Result ResolveError String
unfolding clean_text
clean_required redact limit value = do
  reject (is_empty (clean_text redact limit value)) blank_text
  ok (clean_text redact limit value)

-- Of the letters that `str.lower` changes only these six become digits of a digest.
abbrev lower_digit : Char → Char
lower_digit c =
    if code c == 65
    then "a"
    else if code c == 66
    then "b"
    else if code c == 67
    then "c"
    else if code c == 68
    then "d"
    else if code c == 69
    then "e"
    else if code c == 70
    then "f"
    else c

abbrev lower : String → String
lower String.[] = String.[]
lower (String.◌∷◌ c s) = String.◌∷◌ (lower_digit c) (lower s)

abbrev is_digit : ℕ → Bool
is_digit c = (leb 48 c && leb c 57) || (leb 97 c && leb c 102)

abbrev all_digits : String → Bool
all_digits String.[] = true
all_digits (String.◌∷◌ c s) = is_digit (code c) && all_digits s

-- `SHA256_RE.fullmatch`
unfoldable pub is_sha256 : String → Bool
unfolding char_count
is_sha256 value = char_count value == 64 && all_digits value

-- `_clean_sha256`
unfoldable pub clean_sha256 : (String → String) → String → Result ResolveError String
unfolding clean_required is_sha256
clean_sha256 redact value = do
  clean ← clean_required redact 64 value
  reject (not (is_sha256 (lower clean))) invalid_digest
  ok (lower clean)

-- `expected`
unfoldable pub clean_binding : (String → String) → SemanticSpec → Result ResolveError SemanticSpec
unfolding clean_required clean_sha256
clean_binding redact b = do
  consumer ← clean_required redact 256 b.consumer
  stage ← clean_required redact 512 b.stage
  input_sha256 ← clean_sha256 redact b.input_sha256
  instruction_sha256 ← clean_sha256 redact b.instruction_sha256
  ok (record {
    consumer = consumer;
    stage = stage;
    input_sha256 = input_sha256;
    instruction_sha256 = instruction_sha256;
  })

abbrev pub is_bound : SemanticSpec → SemanticWork → Bool
is_bound e w =
    str_eq w.consumer e.consumer
    && str_eq w.stage e.stage
    && str_eq w.input_sha256 e.input_sha256
    && str_eq w.instruction_sha256 e.instruction_sha256

abbrev pub is_finished : WorkStatus → Bool
is_finished WorkStatus.finished = true
is_finished _ = false

abbrev pub is_generation : Option ℕ → ℕ → Bool
is_generation none current = false
is_generation (some generation) current = generation == current

-- The checks of a row that was found.
unfoldable pub check_result :
    Digest
    → (Isolation → Bool)
    → SemanticSpec
    → String
    → Store
    → SemanticWork
    → Isolation
    → Result ResolveError (Unit {0})
unfolding effective_request_sha256
check_result digest slot_changed expected k s w i = do
  reject (not (is_bound expected w)) binding_mismatch
  reject (not (is_finished w.status) || is_empty k) not_finished
  reject (not (str_eq i.actual_executor "logical_isolation")) not_logical
  reject i.workspace_changed workspace_changed
  reject (slot_changed i) slot_stale
  reject (not (str_eq w.request_sha256 (effective_request_sha256 digest s))) request_stale
  reject (not (is_generation w.result_generation s.generation)) generation_stale

abbrev found : Option (SemanticWork × Isolation) → Result ResolveError (SemanticWork × Isolation)
found none = err unknown_result
found (some row) = ok row

abbrev pub guarded : Result StoreError (Unit {0}) → Result ResolveError (Unit {0})
guarded (err e) = err (refused e)
guarded (ok _) = ok tt

-- The row and its isolation, of which the answer is made.
unfoldable pub resolve_semantic_result :
    Digest
    → (String → String)
    → (Isolation → Bool)
    → String
    → SemanticSpec
    → Store
    → Result ResolveError (SemanticWork × Isolation)
unfolding ensure_active semantic_result clean_binding check_result
resolve_semantic_result digest redact slot_changed k b s = do
  guarded (ensure_active s)
  row ← found (semantic_result k s)
  expected ← clean_binding redact b
  check_result digest slot_changed expected k s row.0 row.1
  ok row
