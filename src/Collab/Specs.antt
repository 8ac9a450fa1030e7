-- ===== src/Collab/Specs.antt =====
-- scripts/codex_loop_runtime/local_collaboration.py: `_task_specs`, `_isolation_spec` and `_ordered_slots`.
-- The tasks are given as JSON of the right shape: objects with the fields of `TaskInput`.
pub mod Members
pub mod Graphs
pub mod Ranks
pub mod Accept
use codex_loop.Base.{
  ℕ, zero, suc, ◌+◌, String, Bool, true, false, ◌&&◌, ◌||◌, not, Option, none, some, List, [], ◌∷◌,
  ◌++◌, map, any, all, length, member, ltb, leb, ◌==◌, if◌then◌else◌, str_eq, text_append, is_empty,
  strip, char_count, Result, ok, err, ◌>>=◌, ◌>>◌, reject,
}
use codex_loop.Store.Isolations.{SemanticSpec}
use codex_loop.Delegation.Semantic.{is_sha256}
use codex_loop.Collab.{
  Slot, SlotStatus, IsolationSpec, CollabError, bad_task_count, duplicate_values, self_dependency,
  duplicate_keys, unknown_dependency, dependency_cycle, invalid_graph, bad_isolation,
}
use codex_loop.Collab.Checks.{text, is_run_name, identifier, identifiers, has_duplicates, is_subset}
use codex_loop.Collab.Rows.{key_of, is_text, shown}
use codex_loop.Collab.Layers.{Graph, Outcome, ordered, stuck, out_of_rounds, layers}

-- `delegation.ROLES`
abbrev pub roles : List String
roles =
    "reviewer" ∷ "researcher" ∷ "tester" ∷ "debugger" ∷ "security-reviewer"
    ∷ "architecture-reviewer" ∷ "semantic-worker" ∷ []

abbrev pub is_in : Option String → List String → Bool
is_in none values = true
is_in (some value) values = member value values

abbrev pub or_default : Option String → String → Option String
or_default none default = some default
or_default (some value) default = some value

-- A reviewer without a policy reads only.
abbrev pub reviewer_policy : IsolationSpec → Option String
reviewer_policy raw =
    if is_text raw.role "reviewer"
    then or_default raw.mutation_policy "read_only"
    else raw.mutation_policy

abbrev pub is_semantic : SemanticSpec → Bool
is_semantic w =
    not (is_empty (strip w.consumer))
    && leb (char_count w.consumer) 256
    && not (is_empty (strip w.stage))
    && leb (char_count w.stage) 512
    && is_sha256 w.input_sha256
    && is_sha256 w.instruction_sha256

-- The end of `_isolation_spec`, where semantic work is declared.
unfoldable pub semantic_isolation :
    Option String → IsolationSpec → SemanticSpec → Result CollabError IsolationSpec
unfolding strip char_count is_sha256
semantic_isolation policy raw w = do
  reject (not (is_semantic w)) bad_isolation
  reject (not (is_in policy ("read_only" ∷ []))) bad_isolation
  reject (not (is_in raw.role ("semantic-worker" ∷ []))) bad_isolation
  ok (record {
    role = some "semantic-worker";
    mutation_policy = some "read_only";
    semantic_work = some w;
  })

-- `_isolation_spec`
unfoldable pub isolation_spec : IsolationSpec → Result CollabError IsolationSpec
unfolding semantic_isolation
isolation_spec raw = do
  reject (not (is_in raw.role roles)) bad_isolation
  reject (not (is_in raw.mutation_policy ("read_only" ∷ "workspace_write" ∷ []))) bad_isolation
  elim raw.semantic_work [
    | none ↦
        reject (is_text raw.role "semantic-worker") bad_isolation
        >> ok (record {
          role = raw.role;
          mutation_policy = reviewer_policy raw;
          semantic_work = none;
        })
    | some w ↦ semantic_isolation (reviewer_policy raw) raw w
  ]

-- A task as it is given; the isolation of a task without one has no entries.
pub record TaskInput : Type 0 where
  pub title : String
  pub instructions : String
  pub key : Option String
  pub pool : Option String
  pub depends_on : List String
  pub review_of : List String
  pub exclude_workers : List String
  pub isolation : IsolationSpec

pub record Spec : Type 0 where
  pub key : String
  pub pool : String
  pub depends_on : List String
  pub review_of : List String
  pub exclude_workers : List String
  pub title : String
  pub instructions : String
  pub isolation : IsolationSpec

-- `list(dict.fromkeys(values))`
unfoldable pub from_keys : List String → List String → List String
from_keys seen [] = []
from_keys seen (x ∷ xs) =
    let rest = from_keys (x ∷ seen) xs in
    let same = from_keys seen xs in if member x seen then same else x ∷ rest

-- The checks of a list of identifiers.
unfoldable pub values : List String → Result CollabError (List String)
unfolding identifiers is_run_name
values given = do
  names ← identifiers is_run_name given
  reject (has_duplicates names) duplicate_values
  ok names

-- `{'role': 'reviewer', 'mutation_policy': 'read_only', **isolation}`
abbrev pub as_reviewer : List String → IsolationSpec → IsolationSpec
as_reviewer [] spec = spec
as_reviewer (_ ∷ _) spec = record spec {
  role = or_default spec.role "reviewer";
  mutation_policy = or_default spec.mutation_policy "read_only";
}

abbrev pub or_else : Option String → String → String
or_else none default = default
or_else (some value) default = value

-- The body of the loop, for the task at this place.
unfoldable pub task_spec : ℕ → TaskInput → Result CollabError Spec
unfolding identifier is_run_name values from_keys isolation_spec text
task_spec i t = do
  key ← identifier is_run_name (or_else t.key (text_append "task-" (shown i)))
  pool ← identifier is_run_name (or_else t.pool "default")
  deps ← values t.depends_on
  reviews ← values t.review_of
  excluded ← values t.exclude_workers
  let needed = from_keys [] (deps ++ reviews)
  reject (member key needed) self_dependency
  isolation ← isolation_spec t.isolation
  title ← text 200 t.title
  instructions ← text 60000 t.instructions
  ok (record {
    key = key;
    pool = pool;
    depends_on = needed;
    review_of = reviews;
    exclude_workers = excluded;
    title = title;
    instructions = instructions;
    isolation = as_reviewer reviews isolation;
  })

unfoldable pub specs_from : ℕ → List TaskInput → Result CollabError (List Spec)
unfolding task_spec
specs_from i [] = ok []
specs_from i (t ∷ ts) = do spec ← task_spec i t; rest ← specs_from (i + 1) ts; ok (spec ∷ rest)

abbrev pub spec_graph : Graph Spec String
spec_graph = record { name = λ s. s.key; same = str_eq; key = λ s. s.key; deps = λ s. s.depends_on }

-- A loop that is out of rounds does not occur.
abbrev pub planned : {A : Type 0} → CollabError → Outcome A → Result CollabError (List A)
planned e (ordered plan) = ok plan
planned e stuck = err e
planned e out_of_rounds = err e

-- The checks of the graph; what they return is the order in which the loop removes the tasks.
unfoldable pub check_graph : List Spec → Result CollabError (List Spec)
unfolding layers
check_graph specs = do
  let keys = map (λ (s : Spec). s.key) specs
  reject (has_duplicates keys) duplicate_keys
  reject (not (all (λ s. is_subset s.depends_on keys) specs)) unknown_dependency
  planned dependency_cycle (layers spec_graph (length specs + 1) specs [])

-- `_task_specs`
unfoldable pub task_specs : List TaskInput → Result CollabError (List Spec)
unfolding specs_from check_graph
task_specs tasks = do
  reject ((length tasks == 0) || ltb 10000 (length tasks)) bad_task_count
  specs ← specs_from 1 tasks
  _ ← check_graph specs
  ok specs

abbrev pub slot_graph : Graph Slot ℕ
slot_graph = record { name = λ s. s.number; same = ◌==◌; key = key_of; deps = λ s. s.depends_on }

-- `_ordered_slots`
unfoldable pub ordered_slots : List Slot → Result CollabError (List Slot)
unfolding layers
ordered_slots slots = planned invalid_graph (layers slot_graph (length slots + 1) slots [])
