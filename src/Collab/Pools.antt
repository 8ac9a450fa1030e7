-- ===== src/Collab/Pools.antt =====
-- scripts/codex_loop_runtime/local_collaboration.py: the capacities of resources, which pools share, the
-- operators of pools, and recurring reviews. The rows of `resource_caps` stand in any order.
pub mod Blocked
pub mod Reviews
use codex_loop.Base.{
  ℕ, ◌+◌, max, min, String, Bool, true, false, ◌&&◌, ◌||◌, not, Option, none, some, List, [], ◌∷◌,
  map, all, any, count, select, ltb, ◌==◌, if◌then◌else◌, str_eq, Result, ok, err, ◌>>=◌, ◌>>◌,
  reject,
}
use codex_loop.Collab.{
  Run, Slot, Cap, Review, CollabError, bad_capacity, unknown_pool, not_open, bad_interval,
}
use codex_loop.Collab.Checks.{text, task, identifier, identifiers, is_task_name, has_duplicates}
use codex_loop.Collab.Rows.{is_opened, is_claimed}
use codex_loop.Collab.Tables.{put, remove}

-- The claimed slots of a pool.
unfoldable pub claimed_in : List Slot → String → ℕ
claimed_in slots pool = count (λ s. is_claimed s.status && str_eq s.pool_id pool) slots

unfoldable pub sum_over : (String → ℕ) → List String → ℕ
sum_over f [] = 0
sum_over f (p ∷ pools) = f p + sum_over f pools

pub record Usage : Type 0 where
  pub cap : Cap
  pub claimed : ℕ

-- `_resource_usage`
unfoldable pub resource_usage : Run → List Usage
unfolding claimed_in sum_over
resource_usage r =
    map (λ c. record { cap = c; claimed = sum_over (λ p. claimed_in r.slots p) c.pools })
      r.resource_caps

-- The pools of the slots of a run.
abbrev pub is_known_pool : List Slot → String → Bool
is_known_pool slots pool = any (λ s. str_eq s.pool_id pool) slots

abbrev pub is_none_of : List String → Bool
is_none_of [] = true
is_none_of (x ∷ xs) = false

unfoldable pub put_cap : Cap → List Cap → List Cap
put_cap c [] = c ∷ []
put_cap c (d ∷ caps) = if str_eq d.resource_key c.resource_key then c ∷ caps else d ∷ put_cap c caps

unfoldable pub find_cap : String → List Cap → Option Cap
find_cap resource [] = none
find_cap resource (c ∷ caps) =
    if str_eq c.resource_key resource then some c else find_cap resource caps

abbrev pub new_cap : String → ℕ → List String → Cap
new_cap resource limit pools = record {
  resource_key = resource;
  max_claimed = limit;
  pools = pools;
}

-- `set_resource_cap`
unfoldable pub set_resource_cap :
    String → ℕ → List String → Run → Result CollabError (Run × List Usage)
unfolding identifier is_task_name identifiers put_cap resource_usage
set_resource_cap given limit given_pools r = do
  resource ← identifier is_task_name given
  reject (limit == 0) bad_capacity
  reject (is_none_of given_pools || has_duplicates given_pools) bad_capacity
  pools ← identifiers is_task_name given_pools
  reject (not (is_opened r.state)) not_open
  reject (not (all (λ p. is_known_pool r.slots p) pools)) unknown_pool
  let capped = record r {
    resource_caps = put_cap (new_cap resource limit pools) r.resource_caps;
    learned_resource_caps = remove resource r.learned_resource_caps;
    resource_blocks = remove resource r.resource_blocks;
  }
  ok (capped, resource_usage capped)

unfoldable pub put_all {ℓ} : {B : Type ℓ} → List String → B → List (String × B) → List (String × B)
unfolding put
put_all [] value rows = rows
put_all (key ∷ keys) value rows = put_all keys value (put key value rows)

-- `configure_pool_operators`
unfoldable pub configure_pool_operators : List String → List String → Run → Result CollabError Run
unfolding identifiers is_task_name put_all
configure_pool_operators given_tasks given_pools r = do
  reject (has_duplicates given_tasks || is_none_of given_tasks || is_none_of given_pools)
      bad_capacity
  tasks ← identifiers is_task_name given_tasks
  pools ← identifiers is_task_name given_pools
  reject (not (is_opened r.state)) not_open
  reject (not (all (λ p. is_known_pool r.slots p) pools)) unknown_pool
  ok (record r { pool_operators = put_all pools tasks r.pool_operators })

unfoldable pub put_review : String → String → ℕ → String → List Review → List Review
put_review key pool interval instructions [] =
    record {
      review_key = key;
      pool_id = pool;
      interval_seconds = interval;
      instructions = instructions;
      last_published = 0;
      latest_task_key = none;
    }
    ∷ []
put_review key pool interval instructions (v ∷ rest) =
    if str_eq v.review_key key
    then record v { pool_id = pool; interval_seconds = interval; instructions = instructions }
      ∷ rest
    else v ∷ put_review key pool interval instructions rest

-- `configure_recurring_review`
unfoldable pub configure_recurring_review :
    String → String → ℕ → String → Run → Result CollabError Run
unfolding identifier is_task_name text put_review
configure_recurring_review given_key given_pool interval given r = do
  key ← identifier is_task_name given_key
  pool ← identifier is_task_name given_pool
  reject (ltb interval 60 || ltb 86400 interval) bad_interval
  instructions ← text 60000 given
  reject (not (is_opened r.state)) not_open
  ok (record r {
    recurring_reviews = put_review key pool interval instructions r.recurring_reviews;
  })
