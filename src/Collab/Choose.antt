-- ===== src/Collab/Choose.antt =====
-- scripts/codex_loop_runtime/local_collaboration.py: the slot that the next claim takes. `project` is the
-- name of the checkout's directory, with what is no letter, digit, `_` or `-` replaced.
pub mod Pick
pub mod Learned
pub mod Final
pub mod Eligible
pub mod Room
pub mod Chosen
pub mod Sound
use codex_loop.Base.{
  ℕ, suc, ◌+◌, min, String, Bool, true, false, ◌&&◌, ◌||◌, not, Option, none, some, List, [], ◌∷◌,
  ◌++◌, map, all, any, count, select, length, ltb, leb, ◌==◌, if◌then◌else◌, str_eq, member,
  text_append,
}
use codex_loop.Collab.{Run, Slot, Worker}
use codex_loop.Collab.Checks.{is_subset}
use codex_loop.Collab.Rows.{
  is_available, is_claimed, is_done, is_text, key_of, done_keys, ready_slots, shown,
}
use codex_loop.Collab.Leases.{is_live_lease, same_text, priority_reclaim_seconds}
use codex_loop.Collab.Tables.{find_entry}
use codex_loop.Collab.Pools.{Usage, resource_usage, sum_over}

-- `_owner_alias`: the place of the worker among those registered, from 1.
unfoldable pub place_of : String → List Worker → ℕ
place_of task [] = 1
place_of task (w ∷ rest) = if str_eq w.task_id task then 1 else suc (place_of task rest)

-- `excluded_names`: the alias ends in `worker` and the place.
abbrev pub own_names : String → String → Run → List String
own_names project task r =
    let place = text_append "worker" (shown (place_of task r.workers)) in
    task ∷ text_append project (text_append "-" place) ∷ place ∷ []

abbrev pub is_live : ℕ → Slot → Bool
is_live now s = is_claimed s.status && is_live_lease now s.last_seen

unfoldable pub live_in : ℕ → List Slot → String → ℕ
live_in now slots pool = count (λ s. is_live now s && str_eq s.pool_id pool) slots

-- A claimed slot of another worker, whose lease has run out.
abbrev pub is_stale : ℕ → String → Slot → Bool
is_stale now task s =
    is_claimed s.status && not (is_live_lease now s.last_seen) && not (is_text s.task_id task)

unfoldable pub produced : String → List Slot → List String
produced task slots = map (λ s. key_of s) (select (λ s. is_text s.completed_by task) slots)

abbrev pub are_disjoint : List String → List String → Bool
are_disjoint xs ys = not (any (λ x. member x ys) xs)

abbrev pub is_allowed_pool : Option (List String) → String → Bool
is_allowed_pool none pool = true
is_allowed_pool (some pools) pool = member pool pools

abbrev pub is_operator : Option (List String) → String → Bool
is_operator none task = true
is_operator (some tasks) task = member task tasks

-- `eligible`
unfoldable pub is_eligible : String → String → Option (List String) → Run → Slot → Bool
unfolding produced place_of find_entry
is_eligible project task only r s =
    is_allowed_pool only s.pool_id
    && is_operator (find_entry s.pool_id r.pool_operators) task
    && are_disjoint s.exclude_workers (own_names project task r)
    && are_disjoint s.review_of (produced task r.slots)

abbrev pub is_blocked : ℕ → List (String × ℕ) → String → Bool
is_blocked now blocks resource = any (λ b. str_eq b.0 resource && ltb now b.1) blocks

-- A takeover replaces an expired reservation, so that it is measured against the live ones alone.
abbrev pub load_of : ℕ → Run → Slot → Usage → ℕ
load_of now r s u =
    if is_available s.status then u.claimed else sum_over (λ p. live_in now r.slots p) u.cap.pools

unfoldable pub is_within_caps : ℕ → Run → Slot → Bool
unfolding resource_usage live_in sum_over
is_within_caps now r s =
    all
      (λ u.
        not (member s.pool_id u.cap.pools)
        || (not (is_blocked now r.resource_blocks u.cap.resource_key)
            && ltb (load_of now r s u) u.cap.max_claimed))
      (resource_usage r)

-- `ready + stale`, those eligible and within the capacities, in a run whose learned ceilings are reset.
unfoldable pub candidates : String → String → Option (List String) → ℕ → Run → Run → List Slot
unfolding ready_slots is_eligible is_within_caps
candidates project task only now before r =
    select (λ s. is_within_caps now r s)
      (select (λ s. is_eligible project task only before s)
        (ready_slots before.slots ++ select (λ s. is_stale now task s) before.slots))

-- The keys that a slot waits for.
unfoldable pub missing_keys : List Slot → Slot → List String
unfolding done_keys
missing_keys slots s = select (λ k. not (member k (done_keys slots))) s.depends_on

abbrev pub is_nil : List String → Bool
is_nil [] = true
is_nil (x ∷ xs) = false

abbrev pub waits_for_stale : List String → List Slot → String → Slot → Bool
waits_for_stale stale_keys slots key s =
    is_available s.status
    && member key (missing_keys slots s)
    && is_subset (missing_keys slots s) stale_keys

-- `blocked_pools.get(key, ())`
unfoldable pub blocked_pools : ℕ → String → List Slot → String → List String
unfolding missing_keys
blocked_pools now task slots key =
    let stale_keys = map (λ s. key_of s) (select (λ s. is_stale now task s) slots) in
    map (λ s. s.pool_id) (select (λ s. waits_for_stale stale_keys slots key s) slots)

abbrev pub least_live : ℕ → List Slot → ℕ → List String → ℕ
least_live now slots n [] = n
least_live now slots n (p ∷ pools) = least_live now slots (min n (live_in now slots p)) pools
