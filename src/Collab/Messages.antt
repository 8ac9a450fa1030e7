-- ===== src/Collab/Messages.antt =====
-- scripts/codex_loop_runtime/local_collaboration.py: messages between workers, and the order to stop.
use codex_loop.Base.{
  ℕ, String, Bool, true, false, ◌&&◌, not, Option, none, some, List, [], ◌∷◌, ◌++◌, any, select,
  ◌==◌, if◌then◌else◌, str_eq, is_some, text_append, Result, ok, ◌>>=◌, ◌>>◌, reject,
}
use codex_loop.Collab.{Run, Message, CollabError, not_addressed, not_a_worker}
use codex_loop.Collab.Checks.{text, task}
use codex_loop.Collab.Rows.{slot_of, is_of, is_read, find_worker, notice}
use codex_loop.Collab.Tables.{has_entry, put_new}

abbrev pub check_recipient : Option String → Run → Result CollabError (Unit {0})
check_recipient none r = ok tt
check_recipient (some other) r = do s ← slot_of other r; ok tt

abbrev pub check_task : Option String → Result CollabError (Unit {0})
check_task none = ok tt
check_task (some other) = do t ← task other; ok tt

-- `post_message`
unfoldable pub post_message : String → String → Option String → Run → Result CollabError Run
unfolding task slot_of text notice
post_message worker given recipient r = do
  t ← task worker
  check_task recipient
  s ← slot_of worker r
  check_recipient recipient r
  body ← text 30000 given
  ok (notice worker recipient body false r)

-- To this task or to all, and from another.
abbrev pub is_addressed : String → Message → Bool
is_addressed worker m =
    not (str_eq m.sender worker)
    && elim m.recipient [ none ↦ true | some other ↦ str_eq other worker ]

abbrev pub put_receipt : ℕ → String → List (ℕ × String) → List (ℕ × String)
put_receipt id worker receipts =
    if is_read receipts id worker then receipts else receipts ++ (id, worker) ∷ []

unfoldable pub acknowledge : String → List ℕ → Run → Result CollabError Run
acknowledge worker [] r = ok r
acknowledge worker (id ∷ ids) r = do
  reject (not (any (λ m. m.id == id && is_addressed worker m) r.messages)) not_addressed
  acknowledge worker ids (record r { receipts = put_receipt id worker r.receipts })

unfoldable pub unread : String → Run → List Message
unread worker r =
    select (λ m. is_addressed worker m && not (is_read r.receipts m.id worker)) r.messages

-- `inbox`: the messages that are not acknowledged.
unfoldable pub inbox : String → List ℕ → Run → Result CollabError (Run × List Message)
unfolding task acknowledge unread find_worker
inbox worker ids r = do
  t ← task worker
  reject (not (any (λ s. is_of worker s) r.slots) && not (is_some (find_worker worker r.workers)))
      not_a_worker
  acked ← acknowledge worker ids r
  ok (acked, unread worker acked)

abbrev pub stop_text : String → String
stop_text reason = text_append "USER STOP DIRECTIVE: " (
    text_append reason
      " Preserve ongoing output/checkpoints; stop this Chat worker and do not claim any new task.")

-- `retire_worker`
unfoldable pub retire_worker : String → String → Run → Result CollabError Run
unfolding task text find_worker notice
retire_worker given because r = do
  worker ← task given
  reason ← text 1000 because
  reject (not (is_some (find_worker worker r.workers))) not_a_worker
  ok (
      if has_entry worker r.retired_workers
      then r
      else notice "run-operator" (some worker) (stop_text reason) true
          (record r { retired_workers = put_new worker reason r.retired_workers }))
