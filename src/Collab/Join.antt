-- ===== src/Collab/Join.antt =====
-- scripts/codex_loop_runtime/local_collaboration.py: `dynamic_join`, by which a worker comes to a run
-- without a plan. The runs are those of one repository, branch and goal, the newest first, each with
-- its strategy.
pub mod Rows
pub mod Connected
pub mod Entered
pub mod Again
use codex_loop.Base.{
  ℕ, String, Bool, true, false, ◌&&◌, ◌||◌, not, Option, none, some, List, [], ◌∷◌, ◌++◌, map, any,
  str_eq, Result, ok, err, ◌>>=◌, ◌>>◌, reject,
}
use codex_loop.Collab.{Run, Slot, SlotStatus, CollabError, integrity, other_strategy, bad_strategy}
use codex_loop.Collab.Checks.{text, task}
use codex_loop.Collab.Rows.{is_opened, is_available, is_claimed, is_of, next_number}
use codex_loop.Collab.Leases.{is_live_lease, connect}
use codex_loop.Collab.Tasks.{new_run}
use codex_loop.Collab.Claim.{Outside}

-- The slot of a worker that found none, in the columns that the table fills by default too.
abbrev pub own_slot : ℕ → String → String → String → Slot
own_slot number title instructions worker = record {
  number = number;
  title = title;
  instructions = instructions;
  status = SlotStatus.claimed;
  task_id = some worker;
  worktree = none;
  commit_sha = none;
  task_key = none;
  pool_id = "default";
  depends_on = [];
  start_commit = none;
  completed_by = none;
  exclude_workers = [];
  review_of = [];
  isolation_spec = record { role = none; mutation_policy = none; semantic_work = none };
  lease_generation = 0;
  last_seen = none;
  checkpoint_sha = none;
  checkpoint_note = none;
}

abbrev pub is_another : Option String → String → Bool
is_another none worker = false
is_another (some other) worker = not (str_eq other worker)

-- The claim of another worker that gives no sign of life.
abbrev pub is_silent : String → ℕ → Slot → Bool
is_silent worker now s =
    is_claimed s.status && is_another s.task_id worker && not (is_live_lease now s.last_seen)

unfoldable pub has_own : String → Run → Bool
has_own worker r = any (λ s. is_of worker s) r.slots

-- The claim that follows finds a slot: one of its own, or one that it chooses or reclaims.
unfoldable pub has_place : String → ℕ → Run → Bool
unfolding has_own
has_place worker now r =
    has_own worker r
    || any (λ (s : Slot). is_available s.status) r.slots
    || (is_opened r.state && any (λ s. is_silent worker now s) r.slots)

-- The slots of the run, and another one where they have no place.
unfoldable pub enter : Outside → String → String → String → ℕ → Run → Result CollabError Run
unfolding has_place text next_number
enter world worker title instructions now r = elim (has_place worker now r) [
  | true ↦ ok r
  | false ↦ do
    name ← text 200 title
    told ← text 60000 instructions
    reject world.is_held_elsewhere integrity
    ok (record r { slots = r.slots ++ own_slot (next_number r.slots) name told worker ∷ [] })
]

abbrev pub Row : Type 0
Row = String × Run

-- The two queries.
unfoldable pub is_own : String → Run → Bool
unfolding has_own
is_own worker r = not r.planned && has_own worker r

unfoldable pub is_open : Run → Bool
is_open r = not r.planned && is_opened r.state

unfoldable pub enter_row :
    Outside → String → String → String → String → ℕ → Row → Result CollabError Row
unfolding enter
enter_row world worker strategy title instructions now row = do
  reject (not (str_eq row.0 strategy) || not (str_eq row.1.worktree_parent world.parent))
      other_strategy
  joined ← enter world worker title instructions now row.1
  ok (row.0, joined)

abbrev pub replaced : List Row → Result CollabError Row → Result CollabError (List Row)
replaced rows (ok row) = ok (row ∷ rows)
replaced rows (err e) = err e

abbrev pub behind :
    Row → Option (Result CollabError (List Row)) → Option (Result CollabError (List Row))
behind row none = none
behind row (some (ok rows)) = some (ok (row ∷ rows))
behind row (some (err e)) = some (err e)

-- An operation on the first run that a query finds.
unfoldable pub on_first :
    (Run → Bool)
    → (Row → Result CollabError Row)
    → List Row
    → Option (Result CollabError (List Row))
on_first found f [] = none
on_first found f (row ∷ rows) = elim (found row.1) [
  | true ↦ some (replaced rows (f row))
  | false ↦ behind row (on_first found f rows)
]

-- `_make_run`, without a plan.
abbrev pub open_run : Outside → String → Run
open_run world base =
    new_run (record { base_commit = base; worktree_parent = world.parent }) false [] none

unfoldable pub join_new :
    Outside
    → String
    → String
    → String
    → String
    → String
    → ℕ
    → List Row
    → Result CollabError (List Row)
unfolding enter
join_new world base worker strategy title instructions now rows = do
  reject (not (str_eq strategy "detached" || str_eq strategy "branches")) bad_strategy
  joined ← enter world worker title instructions now (open_run world base)
  ok ((strategy, joined) ∷ rows)

abbrev pub or_else {ℓ} : {A : Type ℓ} → Option A → A → A
or_else (some a) b = a
or_else none b = b

-- The transaction of `dynamic_join`, which its claim of the run that it joins follows.
unfoldable pub join_rows :
    Outside
    → String
    → String
    → String
    → String
    → String
    → String
    → ℕ
    → List Row
    → Result CollabError (List Row)
unfolding task text is_own is_open enter_row on_first join_new
join_rows world base goal given strategy title instructions now rows = do
  worker ← task given
  _ ← text 200 goal
  let enters = enter_row world worker strategy title instructions now
  or_else (on_first (is_own worker) enters rows) (
      or_else (on_first is_open enters rows)
        (join_new world base worker strategy title instructions now rows))

-- The rows once the connection is made.
abbrev pub connected_row : ℕ → Row → Row
connected_row now row = (row.0, connect now row.1)

-- `dynamic_join`, up to its claim: the connection and its transaction.
unfoldable pub join_slots :
    Outside
    → String
    → String
    → String
    → String
    → String
    → String
    → ℕ
    → List Row
    → Result CollabError (List Row)
unfolding connect join_rows
join_slots world base goal given strategy title instructions now rows =
    join_rows world base goal given strategy title instructions now
      (map (λ row. connected_row now row) rows)

-- The same for one of the runs, which stays as it is where the queries do not find it.
unfoldable pub join_run : Outside → String → String → String → ℕ → Run → Result CollabError Run
unfolding task is_own is_open enter
join_run world given title instructions now r = do
  worker ← task given
  elim (is_own worker r || is_open r) [
    | true ↦ enter world worker title instructions now r
    | false ↦ ok r
  ]
