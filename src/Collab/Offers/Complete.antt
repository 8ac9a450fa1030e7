-- ===== src/Collab/Offers/Complete.antt =====
-- scripts/codex_loop_runtime/local_collaboration.py: the result of delegated work.
use codex_loop.Base.{
  ℕ, String, Bool, true, false, ◌&&◌, ◌||◌, not, Option, none, some, is_some, prefix, Result, ok,
  ◌>>=◌, ◌>>◌, reject,
}
use codex_loop.Collab.{
  Run, Slot, Offer, OfferStatus, CollabError, not_offered, not_recipient, bad_delegation_state,
  result_changed, invalid_commit, git_refused,
}
use codex_loop.Collab.Checks.{text, task, is_ref}
use codex_loop.Collab.Rows.{is_opened, is_claimed, is_text, slot_of, notice}
use codex_loop.Collab.Leases.{same_text}
use codex_loop.Collab.Offers.{
  is_accepted, is_completed, delegation, update_offer, with_offer, told, unless_repeated,
}

abbrev pub completed_with : String → Option String → Offer → Offer
completed_with result commit o = record o {
  status = OfferStatus.completed;
  result = some result;
  commit_sha = commit;
}

abbrev pub is_same_result : String → Option String → Offer → Bool
is_same_result result commit o = is_text o.result result && same_text o.commit_sha commit

abbrev pub is_commit : Option String → Bool
is_commit none = true
is_commit (some sha) = is_ref sha

-- Whether the result stands already, for a delegation that was read.
unfoldable pub is_recorded :
    String → Option String → Bool → Offer → Slot → Run → Result CollabError Bool
is_recorded result commit git o s r = elim (is_completed o.status) [
  | true ↦ do reject (not (is_same_result result commit o)) result_changed; ok true
  | false ↦ do
    reject (not (is_opened r.state) || not (is_accepted o.status) || not (is_claimed s.status))
        not_offered
    reject (is_some commit && not git) git_refused
    ok false
]

-- `complete_delegation`: what is read first. `git` says that the commit is an ancestor of the HEAD of
-- the recipient's worktree and descends from the base.
unfoldable pub complete_read :
    String → ℕ → String → Option String → Bool → Run → Result CollabError (String × String × Bool)
unfolding task text is_ref delegation slot_of is_recorded
complete_read given id given_result commit git r = do
  worker ← task given
  result ← text 10000 given_result
  reject (not (is_commit commit)) invalid_commit
  o ← delegation id r
  s ← slot_of worker r
  reject (not (is_text o.recipient worker)) not_recipient
  recorded ← is_recorded result commit git o s r
  ok (worker, result, recorded)

unfoldable pub complete_held :
    String → ℕ → String → Option String → Offer → Run → Result CollabError Run
unfolding update_offer notice
complete_held worker id result commit o r = do
  reject (not (is_accepted o.status) || not (is_text o.recipient worker) || not (is_opened r.state))
      bad_delegation_state
  ok (
      notice worker (some o.sender) (told id " completed by " worker (prefix 500 result)) false
        (with_offer id (completed_with result commit) r))

-- The second transaction.
unfoldable pub complete_write : String → ℕ → String → Option String → Run → Result CollabError Run
unfolding delegation complete_held
complete_write worker id result commit r = do
  o ← delegation id r
  unless_repeated (is_completed o.status && is_same_result result commit o) r
      (complete_held worker id result commit o r)

unfoldable pub complete_delegation :
    String → ℕ → String → Option String → Bool → Run → Run → Result CollabError Run
unfolding complete_read complete_write
complete_delegation given id given_result commit git before after = do
  read ← complete_read given id given_result commit git before
  unless_repeated read.2 after (complete_write read.0 id read.1 commit after)
