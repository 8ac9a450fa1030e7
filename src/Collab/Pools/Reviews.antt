-- ===== src/Collab/Pools/Reviews.antt =====
-- scripts/codex_loop_runtime/local_collaboration.py: the slots of recurring reviews that fall due.
use codex_loop.Base.{
  ℕ, ◌+◌, String, Bool, true, false, ◌&&◌, ◌||◌, not, Option, none, some, List, [], ◌∷◌, ◌++◌, any,
  ltb, ◌==◌, if◌then◌else◌, str_eq, text_append,
}
use codex_loop.Collab.{Run, Slot, SlotStatus, Review}
use codex_loop.Collab.Rows.{is_done, is_text, next_number, shown}
use codex_loop.Collab.Tables.{has_entry}

abbrev pub review_slot : ℕ → String → Review → Slot
review_slot number key v = record {
  number = number;
  title = "Independent local generation health review";
  instructions = v.instructions;
  status = SlotStatus.available;
  task_id = none;
  worktree = none;
  commit_sha = none;
  task_key = some key;
  pool_id = v.pool_id;
  depends_on = [];
  start_commit = none;
  completed_by = none;
  exclude_workers = [];
  review_of = [];
  isolation_spec = record {
    role = some "reviewer";
    mutation_policy = some "read_only";
    semantic_work = none;
  };
  lease_generation = 0;
  last_seen = none;
  checkpoint_sha = none;
  checkpoint_note = none;
}

-- The first slot with this task key, where it has not finished.
unfoldable pub is_pending : List Slot → String → Bool
is_pending [] key = false
is_pending (s ∷ rest) key =
    if is_text s.task_key key then not (is_done s.status) else is_pending rest key

abbrev pub is_latest_pending : List Slot → Option String → Bool
is_latest_pending slots none = false
is_latest_pending slots (some key) = is_pending slots key

abbrev pub published : ℕ → String → Review → Review
published now key v = record v { last_published = now; latest_task_key = some key }

abbrev pub mark_published : ℕ → String → String → List Review → List Review
mark_published now key review [] = []
mark_published now key review (v ∷ rest) =
    (if str_eq v.review_key review then published now key v else v)
    ∷ mark_published now key review rest

abbrev pub review_key_at : ℕ → Review → String
review_key_at now v = text_append v.review_key (text_append "-" (shown now))

-- One review: none where it is not due, its last slot is open, or the key is taken.
abbrev pub is_held_back : ℕ → Review → Run → Bool
is_held_back now v r =
    (not (v.last_published == 0) && ltb now (v.last_published + v.interval_seconds))
    || is_latest_pending r.slots v.latest_task_key
    || any (λ s. is_text s.task_key (review_key_at now v)) r.slots

unfoldable pub publish_review : ℕ → Review → Run → Run
unfolding is_pending next_number
publish_review now v r = if is_held_back now v r then r else record r {
  slots = r.slots ++ review_slot (next_number r.slots) (review_key_at now v) v ∷ [];
  recurring_reviews = mark_published now (review_key_at now v) v.review_key r.recurring_reviews;
  graph_revision = r.graph_revision + 1;
}

unfoldable pub publish_reviews : ℕ → List Review → Run → Run
unfolding publish_review
publish_reviews now [] r = r
publish_reviews now (v ∷ rest) r = publish_reviews now rest (publish_review now v r)

abbrev pub is_idle : Run → Bool
is_idle r = not (any (λ s. has_entry s.pool_id r.pool_operators && not (is_done s.status)) r.slots)

abbrev pub has_operators : List (String × List String) → Bool
has_operators [] = false
has_operators (x ∷ xs) = true

-- `_publish_due_reviews`
unfoldable pub publish_due_reviews : ℕ → Run → Run
unfolding publish_reviews
publish_due_reviews now r =
    if has_operators r.pool_operators && is_idle r
    then r
    else publish_reviews now r.recurring_reviews r
