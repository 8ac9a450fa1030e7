-- ===== src/Collab/Choose/Final.antt =====
-- scripts/codex_loop_runtime/local_collaboration.py: which of the candidates is chosen.
use codex_loop.Base.{
  ℕ, ◌+◌, max, String, Bool, ◌&&◌, not, Option, none, some, List, [], ◌∷◌, any, select, ltb, leb,
  if◌then◌else◌,
}
use codex_loop.Collab.{Run, Slot}
use codex_loop.Collab.Rows.{is_available, is_claimed, key_of}
use codex_loop.Collab.Leases.{same_text, priority_reclaim_seconds}
use codex_loop.Collab.Tables.{find_entry, put}
use codex_loop.Collab.Choose.{live_in, candidates, blocked_pools, least_live, is_nil}
use codex_loop.Collab.Choose.Pick.{least}
use codex_loop.Collab.Choose.Learned.{reset_learned}

abbrev pub or_zero : Option ℕ → ℕ
or_zero none = 0
or_zero (some n) = n

-- `load`
unfoldable pub load : ℕ → String → List Slot → Slot → ℕ
unfolding live_in blocked_pools key_of
load now task slots s =
    let pool_load = live_in now slots s.pool_id in
    if is_claimed s.status
    then least_live now slots pool_load (blocked_pools now task slots (key_of s))
    else pool_load

-- `last.get(pool, 0)`
abbrev pub last_claim : Run → Slot → ℕ
last_claim r s = or_zero (find_entry s.pool_id r.pool_dispatch)

-- `slot['task_key'] in overdue`
abbrev pub is_overdue : Run → Slot → Bool
is_overdue r s = any (λ v. same_text v.latest_task_key s.task_key) r.recurring_reviews

abbrev pub is_urgent : ℕ → Slot → Bool
is_urgent now s = leb (or_zero s.last_seen + priority_reclaim_seconds) now

-- The keys of the four rankings.
unfoldable pub urgent_key : ℕ → String → Run → Slot → List ℕ
unfolding load find_entry
urgent_key now task r s =
    or_zero s.last_seen ∷ load now task r.slots s ∷ last_claim r s ∷ s.number ∷ []

unfoldable pub ready_key : ℕ → Run → Slot → List ℕ
unfolding live_in find_entry
ready_key now r s =
    (if is_overdue r s then 0 else 1)
    ∷ live_in now r.slots s.pool_id
    ∷ last_claim r s
    ∷ s.number
    ∷ []

unfoldable pub stale_key : ℕ → String → Run → Slot → List ℕ
unfolding load find_entry
stale_key now task r s = load now task r.slots s ∷ last_claim r s ∷ s.number ∷ []

-- A stale slot that a blocked task waits for, in a pool that is less busy than the best ready task's.
unfoldable pub is_critical : ℕ → String → Run → Slot → Slot → Bool
unfolding blocked_pools key_of load live_in
is_critical now task r best s =
    not (is_nil (blocked_pools now task r.slots (key_of s)))
    && ltb (load now task r.slots s) (live_in now r.slots best.pool_id)

unfoldable pub or_else : Option Slot → Slot → Slot
or_else none other = other
or_else (some s) other = s

unfoldable pub rescue : ℕ → String → Run → List Slot → Slot → Slot
unfolding is_critical stale_key least or_else
rescue now task r stale best =
    if is_overdue r best
    then best
    else or_else (least (stale_key now task r) (select (is_critical now task r best) stale)) best

unfoldable pub ready_or_stale : ℕ → String → Run → List Slot → Option Slot → Option Slot
unfolding rescue stale_key least
ready_or_stale now task r stale none = least (stale_key now task r) stale
ready_or_stale now task r stale (some best) = some (rescue now task r stale best)

unfoldable pub unless_urgent : Option Slot → Option Slot → Option Slot
unless_urgent none other = other
unless_urgent (some s) other = some s

-- The choice between the candidates.
unfoldable pub chosen : ℕ → String → Run → List Slot → Option Slot
unfolding urgent_key ready_key least ready_or_stale unless_urgent
chosen now task r slots =
    let stale = select (λ s. is_claimed s.status) slots in
    let ready = select (λ s. is_available s.status) slots in
    unless_urgent (least (urgent_key now task r) (select (λ s. is_urgent now s) stale))
      (ready_or_stale now task r stale (least (ready_key now r) ready))

unfoldable pub greatest : List (String × ℕ) → ℕ
greatest [] = 0
greatest (row ∷ rows) = max row.1 (greatest rows)

unfoldable pub dispatched : Option Slot → Run → Run
unfolding put greatest
dispatched none r = r
dispatched (some s) r = record r {
  pool_dispatch = put s.pool_id (1 + greatest r.pool_dispatch) r.pool_dispatch;
}

-- `_choose_slot`
unfoldable pub choose_slot : String → String → Option (List String) → ℕ → Run → Run × Option Slot
unfolding reset_learned candidates chosen dispatched
choose_slot project task only now r =
    let reset = reset_learned now r in
    let found = chosen now task reset (candidates project task only now r reset) in
    (dispatched found reset, found)
