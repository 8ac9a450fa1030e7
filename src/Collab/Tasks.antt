-- ===== src/Collab/Tasks.antt =====
-- scripts/codex_loop_runtime/local_collaboration.py: the tasks of a run as slots, published and revised.
pub mod Order
use codex_loop.Base.{
  ℕ, suc, ◌+◌, String, Bool, true, false, not, Option, none, some, List, [], ◌∷◌, ◌++◌, map, length,
  drop, ◌==◌, if◌then◌else◌, str_eq, Result, ok, err, ◌>>=◌, ◌>>◌, reject, is_empty,
}
use codex_loop.Store.Isolations.{SemanticSpec}
use codex_loop.Collab.{
  Run, RunState, Slot, SlotStatus, IsolationSpec, CollabError, Tail, TailStatus, not_open,
  bad_task_count, not_planned, revision_changed, unknown_key, not_available,
}
use codex_loop.Collab.Checks.{text, task, identifier, is_run_name}
use codex_loop.Collab.Rows.{is_opened, is_available, key_of, next_number, find_key, update_slot}
use codex_loop.Collab.Specs.{TaskInput, Spec, task_specs}
use codex_loop.Collab.Leases.{touch_owner}

-- A row as `INSERT INTO slots` leaves it.
abbrev pub new_slot : ℕ → Spec → Slot
new_slot number spec = record {
  number = number;
  title = spec.title;
  instructions = spec.instructions;
  status = SlotStatus.available;
  task_id = none;
  worktree = none;
  commit_sha = none;
  task_key = some spec.key;
  pool_id = spec.pool;
  depends_on = spec.depends_on;
  start_commit = none;
  completed_by = none;
  exclude_workers = spec.exclude_workers;
  review_of = spec.review_of;
  isolation_spec = spec.isolation;
  lease_generation = 0;
  last_seen = none;
  checkpoint_sha = none;
  checkpoint_note = none;
}

unfoldable pub new_slots : ℕ → List Spec → List Slot
new_slots number [] = []
new_slots number (spec ∷ specs) = new_slot number spec ∷ new_slots (number + 1) specs

-- What Git and the file system say of a repository and of the parent of its worktrees, once checked.
pub record Identity : Type 0 where
  pub base_commit : String
  pub worktree_parent : String

-- `_make_run`, for a planned run or one without a plan.
abbrev pub new_run : Identity → Bool → List Slot → Option Tail → Run
new_run i planned slots tail = record {
  base_commit = i.base_commit;
  planned = planned;
  worktree_parent = i.worktree_parent;
  state = RunState.opened;
  integrator_task = none;
  candidate_head = none;
  integration_start_head = none;
  integration_attempted = false;
  graph_revision = 1;
  integrator_generation = 0;
  integrator_last_seen = none;
  slots = slots;
  workers = [];
  waiting_workers = [];
  reclaims = [];
  worker_inputs = [];
  pool_dispatch = [];
  learned_resource_caps = [];
  resource_blocks = [];
  resource_caps = [];
  pool_operators = [];
  recurring_reviews = [];
  retired_workers = [];
  messages = [];
  delegations = [];
  receipts = [];
  serial_tail = tail;
}

abbrev pub new_tail : String → Tail
new_tail instructions = record {
  instructions = instructions;
  status = TailStatus.pending;
  owner_task = none;
  final_head = none;
  evidence = none;
}

unfoldable pub tail_of : Option String → Result CollabError (Option Tail)
unfolding text
tail_of none = ok none
tail_of (some given) = do instructions ← text 60000 given; ok (some (new_tail instructions))

-- `create_run`, whose repository and parent directory were checked.
unfoldable pub create_run :
    Identity → List TaskInput → String → Option String → Result CollabError Run
unfolding task_specs tail_of new_slots text
create_run i tasks goal serial_tail = do
  specs ← task_specs tasks
  tail ← tail_of serial_tail
  _ ← text 200 goal
  ok (new_run i true (new_slots 1 specs) tail)

-- `_stored_specs`, as tasks that are given again.
abbrev pub stored : Slot → TaskInput
stored s = record {
  title = s.title;
  instructions = s.instructions;
  key = some (key_of s);
  pool = some s.pool_id;
  depends_on = s.depends_on;
  review_of = s.review_of;
  exclude_workers = s.exclude_workers;
  isolation = s.isolation_spec;
}

unfoldable pub stored_specs : List Slot → List TaskInput
unfolding key_of
stored_specs slots = map (λ s. stored s) slots

-- `publish_task`: the slots that the batch appends.
unfoldable pub publish_task : String → List TaskInput → ℕ → ℕ → Run → Result CollabError Run
unfolding task touch_owner stored_specs task_specs new_slots next_number
publish_task worker batch generation now r = do
  owner ← task worker
  reject (length batch == 0) bad_task_count
  reject (not (is_opened r.state)) not_open
  reject (not r.planned) not_planned
  touched ← touch_owner owner generation now r
  specs ← task_specs (stored_specs r.slots ++ batch)
  ok (record touched.0 {
    slots = touched.0.slots ++ new_slots (next_number r.slots) (drop (length r.slots) specs);
    graph_revision = r.graph_revision + 1;
  })

-- The updates of a task, each of them `none` where it is not given.
pub record Updates : Type 0 where
  pub title : Option String
  pub instructions : Option String
  pub pool : Option String
  pub depends_on : Option (List String)
  pub review_of : Option (List String)
  pub exclude_workers : Option (List String)
  pub isolation : Option IsolationSpec

abbrev pub updated {ℓ} : {A : Type ℓ} → Option A → A → A
updated none old = old
updated (some new) old = new

-- `{**target, **updates}`
abbrev pub changed : Updates → TaskInput → TaskInput
changed u t = record t {
  title = updated u.title t.title;
  instructions = updated u.instructions t.instructions;
  pool = (elim u.pool [ none ↦ t.pool | some pool ↦ some pool ]);
  depends_on = updated u.depends_on t.depends_on;
  review_of = updated u.review_of t.review_of;
  exclude_workers = updated u.exclude_workers t.exclude_workers;
  isolation = updated u.isolation t.isolation;
}

abbrev pub revised : String → Updates → List Slot → List TaskInput
revised key u [] = []
revised key u (s ∷ rest) =
    (if str_eq (key_of s) key then changed u (stored s) else stored s) ∷ revised key u rest

unfoldable pub find_spec : String → List Spec → Option Spec
find_spec key [] = none
find_spec key (s ∷ rest) = if str_eq s.key key then some s else find_spec key rest

abbrev pub known_slot : Option Slot → Result CollabError Slot
known_slot none = err unknown_key
known_slot (some s) = ok s

abbrev pub known_spec : Option Spec → Result CollabError Spec
known_spec none = err unknown_key
known_spec (some s) = ok s

abbrev pub rewritten : Spec → Slot → Slot
rewritten spec s = record s {
  title = spec.title;
  instructions = spec.instructions;
  pool_id = spec.pool;
  depends_on = spec.depends_on;
  review_of = spec.review_of;
  exclude_workers = spec.exclude_workers;
  isolation_spec = spec.isolation;
}

-- `revise_task`, with at least one update.
unfoldable pub revise_task : String → String → Updates → ℕ → ℕ → ℕ → Run → Result CollabError Run
unfolding task identifier is_run_name touch_owner find_key key_of task_specs find_spec update_slot
revise_task worker given u generation expected now r = do
  owner ← task worker
  key ← identifier is_run_name given
  reject (not (is_opened r.state)) not_open
  reject (not r.planned) not_planned
  reject (not (r.graph_revision == expected)) revision_changed
  touched ← touch_owner owner generation now r
  target ← known_slot (find_key key r.slots)
  reject (not (is_available target.status)) not_available
  specs ← task_specs (revised key u r.slots)
  final ← known_spec (find_spec key specs)
  ok (record touched.0 {
    slots = update_slot target.number (rewritten final) touched.0.slots;
    graph_revision = r.graph_revision + 1;
  })
