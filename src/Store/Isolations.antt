-- ===== src/Store/Isolations.antt =====
-- scripts/codex_loop_runtime/state.py: isolations and the semantic work bound to them. The proofs are
-- in the modules below. `digest` stands for the SHA-256 of the effective request's
-- JSON. The details of the events that the operations write themselves are left out.
pub mod Finish
pub mod Rows
pub mod Invariant
pub mod Authority
use Prim.Native.String.{len}
use codex_loop.Base.{
  ℕ, String, Bool, true, false, ◌&&◌, ◌||◌, not, Option, none, some, List, [], ◌∷◌, ltb,
  if◌then◌else◌, is_some, Result, ok, err, ◌>>=◌, ◌>>◌, reject, is_empty, str_eq,
}
use codex_loop.Store.{
  Store, StoreError, Isolation, SemanticWork, IsolationEvent, WorkStatus, MutationPolicy,
  workspace_write, blank_isolation_field, unsupported_policy, semantic_not_read_only,
  context_too_large, blank_semantic_field, nested_isolation, duplicate_isolation, unknown_isolation,
  blank_event_kind, event_too_large, isolation_not_active, result_too_large, must_finish_semantic,
  not_semantic, semantic_not_active, not_logical, stale_request, stale_workspace,
  blank_abort_reason,
}
use codex_loop.Store.Clean.{clean_text}
use codex_loop.Store.Events.{prune, keep_warnings, keep_other, log_event}
use codex_loop.Store.Status.{ensure_active, is_active_work}
use codex_loop.Store.Cancel.{first_active, abort_work}

-- `effective_request`: the anchor, and the steers in the order of their recording.
unfoldable pub oldest_first : List (String × String) → List String → List String
oldest_first [] acc = acc
oldest_first ((_, text) ∷ rest) acc = oldest_first rest (text ∷ acc)

abbrev pub Digest : Type 0
Digest = String → List String → String

unfoldable pub effective_request_sha256 : Digest → Store → String
unfolding oldest_first
effective_request_sha256 digest s = digest s.request_anchor (oldest_first s.steers [])

unfoldable pub find_isolation : String → List Isolation → Option Isolation
find_isolation k [] = none
find_isolation k (i ∷ rest) = if str_eq i.isolation_id k then some i else find_isolation k rest

unfoldable pub find_work : String → List SemanticWork → Option SemanticWork
find_work k [] = none
find_work k (w ∷ rest) = if str_eq w.isolation_id k then some w else find_work k rest

unfoldable pub update_isolation : String → (Isolation → Isolation) → List Isolation → List Isolation
update_isolation k f [] = []
update_isolation k f (i ∷ rest) =
    (if str_eq i.isolation_id k then f i else i) ∷ update_isolation k f rest

unfoldable pub update_work :
    String → (SemanticWork → SemanticWork) → List SemanticWork → List SemanticWork
update_work k f [] = []
update_work k f (w ∷ rest) = (if str_eq w.isolation_id k then f w else w) ∷ update_work k f rest

pub record SemanticSpec : Type 0 where
  pub consumer : String
  pub stage : String
  pub input_sha256 : String
  pub instruction_sha256 : String

-- The arguments of `create_isolation`; the maps and the context are texts of JSON.
pub record Proposal : Type 0 where
  pub isolation_id : String
  pub role : String
  pub objective : String
  pub parent_generation : ℕ
  pub requested_executor : String
  pub actual_executor : String
  pub capabilities : String
  pub mutation_policy : String
  pub context_spec : String
  pub checkpoint_id : Option ℕ
  pub semantic_work : Option SemanticSpec

unfoldable pub parse_policy : String → Result StoreError MutationPolicy
parse_policy s =
    if str_eq s "read_only"
    then ok MutationPolicy.read_only
    else if str_eq s "workspace_write"
    then ok workspace_write
    else err unsupported_policy

abbrev pub is_read_only : MutationPolicy → Bool
is_read_only MutationPolicy.read_only = true
is_read_only workspace_write = false

unfoldable pub clean_semantic :
    (String → String) → Option SemanticSpec → Result StoreError (Option SemanticSpec)
unfolding clean_text
clean_semantic redact none = ok none
clean_semantic redact (some w) = do
  let consumer = clean_text redact 256 w.consumer
  let stage = clean_text redact 512 w.stage
  let input = clean_text redact 64 w.input_sha256
  let instruction = clean_text redact 64 w.instruction_sha256
  reject (is_empty consumer || is_empty stage || is_empty input || is_empty instruction)
      blank_semantic_field
  ok (
      some (record {
        consumer = consumer;
        stage = stage;
        input_sha256 = input;
        instruction_sha256 = instruction;
      }))

-- The row that `create_isolation` inserts, and the cleaned semantic work.
unfoldable pub check_proposal :
    (String → String) → Proposal → Result StoreError (Isolation × Option SemanticSpec)
unfolding clean_text parse_policy clean_semantic
check_proposal redact p = do
  let role = clean_text redact 256 p.role
  let objective = clean_text redact 8192 p.objective
  let requested = clean_text redact 256 p.requested_executor
  let actual = clean_text redact 256 p.actual_executor
  let policy = clean_text redact 256 p.mutation_policy
  reject
      (is_empty role
        || is_empty objective
        || is_empty requested
        || is_empty actual
        || is_empty policy)
      blank_isolation_field
  parsed ← parse_policy policy
  reject (is_some p.semantic_work && not (is_read_only parsed)) semantic_not_read_only
  reject (ltb 262144 (len p.context_spec)) context_too_large
  semantic ← clean_semantic redact p.semantic_work
  ok (
    record {
      isolation_id = p.isolation_id;
      role = role;
      objective = objective;
      status = WorkStatus.active;
      parent_generation = p.parent_generation;
      exit_generation = none;
      requested_executor = requested;
      actual_executor = actual;
      capabilities = p.capabilities;
      mutation_policy = parsed;
      context_spec = p.context_spec;
      result = none;
      checkpoint_id = p.checkpoint_id;
      workspace_changed = false;
    },
    semantic,
  )

abbrev pub new_event : String → String → ℕ → Option String → IsolationEvent
new_event k kind generation details = record {
  isolation_id = k;
  kind = kind;
  generation = generation;
  details = details;
}

abbrev pub new_work : String → String → ℕ → SemanticSpec → SemanticWork
new_work k request generation w = record {
  isolation_id = k;
  consumer = w.consumer;
  stage = w.stage;
  input_sha256 = w.input_sha256;
  instruction_sha256 = w.instruction_sha256;
  request_sha256 = request;
  parent_generation = generation;
  status = WorkStatus.active;
  semantic_result_id = none;
  result_generation = none;
}

unfoldable pub add_work : String → Isolation → Option SemanticSpec → Store → Result StoreError Store
unfolding find_work
add_work request i none s = ok s
add_work request i (some w) s = do
  reject (is_some (find_work i.isolation_id s.semantic_work)) duplicate_isolation
  ok (record s {
    semantic_work = new_work i.isolation_id request i.parent_generation w ∷ s.semantic_work;
    isolation_events =
        new_event i.isolation_id "semantic_work_entered" i.parent_generation none
        ∷ s.isolation_events;
  })

-- The transaction: the events are pruned once, after both insertions. A second row with the same
-- primary key is refused by the database.
unfoldable pub insert_isolation :
    String → Isolation → Option SemanticSpec → Store → Result StoreError Store
unfolding first_active find_isolation add_work prune
insert_isolation request i semantic s = do
  reject (is_some (first_active s.isolations)) nested_isolation
  reject (is_some (find_isolation i.isolation_id s.isolations)) duplicate_isolation
  t ← add_work request i semantic (record s {
    isolations = record i { status = WorkStatus.active } ∷ s.isolations;
    isolation_events =
        new_event i.isolation_id "entered" i.parent_generation none ∷ s.isolation_events;
  })
  ok (record t { isolation_events = prune keep_warnings keep_other t.isolation_events })

unfoldable pub create_isolation :
    (String → String) → Digest → Proposal → Store → Result StoreError (Store × Isolation)
unfolding ensure_active check_proposal effective_request_sha256 insert_isolation
create_isolation redact digest p s = do
  ensure_active s
  (i, semantic) ← check_proposal redact p
  t ← insert_isolation (effective_request_sha256 digest s) i semantic s
  ok (t, i)
