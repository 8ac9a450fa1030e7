-- ===== src/Collab/Rows.antt =====
-- scripts/codex_loop_runtime/local_collaboration.py: the queries of the tables of a run.
use codex_loop.Base.{
  ℕ, String, Bool, true, false, ◌&&◌, ◌||◌, not, Option, none, some, List, [], ◌∷◌, ◌++◌, any,
  select, map, length, ◌==◌, ◌+◌, max, if◌then◌else◌, str_eq, text_append, show_int, pos, Result,
  ok, err,
}
use codex_loop.Collab.{
  Run, Slot, SlotStatus, RunState, Offer, OfferStatus, Worker, CollabError, not_owner, unknown_slot,
  stale_generation,
}
use codex_loop.Collab.Checks.{is_subset}

abbrev pub is_opened : RunState → Bool
is_opened RunState.opened = true
is_opened _ = false

abbrev pub is_available : SlotStatus → Bool
is_available SlotStatus.available = true
is_available _ = false

abbrev pub is_claimed : SlotStatus → Bool
is_claimed SlotStatus.claimed = true
is_claimed _ = false

abbrev pub is_done : SlotStatus → Bool
is_done SlotStatus.done = true
is_done _ = false

-- A column that may be NULL, compared with a text.
abbrev pub is_text : Option String → String → Bool
is_text none k = false
is_text (some t) k = str_eq t k

-- `slot['task_key'] or f'task-{slot["number"]}'`
unfoldable pub key_of : Slot → String
key_of s = elim s.task_key [ none ↦ text_append "task-" (show_int (pos s.number)) | some key ↦ key ]

-- `COALESCE(MAX(number),0)+1`
unfoldable pub next_number : List Slot → ℕ
next_number [] = 1
next_number (s ∷ rest) = max (s.number + 1) (next_number rest)

-- `task_id=? AND status='claimed'`
unfoldable pub holds : String → Slot → Bool
holds task s = is_claimed s.status && is_text s.task_id task

unfoldable pub find_held : String → List Slot → Option Slot
unfolding holds
find_held task [] = none
find_held task (s ∷ rest) = if holds task s then some s else find_held task rest

unfoldable pub find_number : ℕ → List Slot → Option Slot
find_number n [] = none
find_number n (s ∷ rest) = if s.number == n then some s else find_number n rest

unfoldable pub find_key : String → List Slot → Option Slot
unfolding key_of
find_key key [] = none
find_key key (s ∷ rest) = if str_eq (key_of s) key then some s else find_key key rest

-- `UPDATE slots SET … WHERE number=?`
unfoldable pub update_slot : ℕ → (Slot → Slot) → List Slot → List Slot
update_slot n f [] = []
update_slot n f (s ∷ rest) = (if s.number == n then f s else s) ∷ update_slot n f rest

-- `_slot`: a claimed slot of the task, or else the last that it has or has completed.
abbrev pub is_of : String → Slot → Bool
is_of task s = is_text s.task_id task || is_text s.completed_by task

abbrev pub better : Option Slot → Slot → Option Slot
better none s = some s
better (some best) s =
    if is_claimed best.status && not (is_claimed s.status) then some best else some s

unfoldable pub last_of : String → List Slot → Option Slot → Option Slot
last_of task [] best = best
last_of task (s ∷ rest) best = last_of task rest (if is_of task s then better best s else best)

unfoldable pub slot_of : String → Run → Result CollabError Slot
unfolding last_of
slot_of task r = elim (last_of task r.slots none) [ none ↦ err unknown_slot | some s ↦ ok s ]

-- `_active_owner`
abbrev pub checked_generation : Option ℕ → Slot → Result CollabError Slot
checked_generation none s = ok s
checked_generation (some g) s = if s.lease_generation == g then ok s else err stale_generation

unfoldable pub active_owner : String → Option ℕ → Run → Result CollabError Slot
unfolding find_held
active_owner task generation r = elim (find_held task r.slots) [
  | none ↦ err not_owner
  | some s ↦ checked_generation generation s
]

unfoldable pub done_keys : List Slot → List String
unfolding key_of
done_keys slots = map (λ s. key_of s) (select (λ s. is_done s.status) slots)

-- `_ready_slots`
unfoldable pub ready_slots : List Slot → List Slot
unfolding done_keys
ready_slots slots =
    select (λ s. is_available s.status && is_subset s.depends_on (done_keys slots)) slots

-- `status NOT IN ('completed','cancelled')`
abbrev pub is_unsettled : Offer → Bool
is_unsettled o = elim o.status [
  | OfferStatus.completed ↦ false
  | OfferStatus.cancelled ↦ false
  | _ ↦ true
]

unfoldable pub find_worker : String → List Worker → Option Worker
find_worker task [] = none
find_worker task (w ∷ rest) = if str_eq w.task_id task then some w else find_worker task rest

-- The greatest id of a table with AUTOINCREMENT, whose rows are never deleted, is the number of rows.
unfoldable pub notice : String → Option String → String → Bool → Run → Run
notice sender recipient body stops r = record r {
  messages =
      r.messages
      ++ record {
        id = length r.messages + 1;
        sender = sender;
        recipient = recipient;
        body = body;
        stops = stops;
      }
        ∷ [];
}

-- The number that stands in a text.
abbrev pub shown : ℕ → String
shown n = show_int (pos n)

-- `_stopped`
abbrev pub is_read : List (ℕ × String) → ℕ → String → Bool
is_read receipts id task = any (λ x. (x.0 == id) && str_eq x.1 task) receipts

unfoldable pub stopped : String → Run → Bool
stopped task r =
    any (λ x. str_eq x.0 task) r.retired_workers
    || any (λ m. is_text m.recipient task && m.stops && not (is_read r.receipts m.id task))
        r.messages
