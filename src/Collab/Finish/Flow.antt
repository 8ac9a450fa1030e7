-- ===== src/Collab/Finish/Flow.antt =====
-- scripts/codex_loop_runtime/local_collaboration.py: `finish` as a whole, up to the claim of a next task.
use codex_loop.Base.{ℕ, String, Option, Result, ok, ◌>>=◌}
use codex_loop.Collab.{Run, CollabError}
use codex_loop.Collab.Leases.{Git}
use codex_loop.Collab.Finish.{Found, repeated, current, lost, finish_read, finish_held}
use codex_loop.Collab.Finish.Late.{finish_reclaimed}

-- The branches, on the state that the second transaction finds.
unfoldable pub finish_found : String → String → Git → ℕ → Found → Run → Run → Result CollabError Run
unfolding finish_held finish_reclaimed
finish_found worker commit git now (repeated s mine) before after = ok after
finish_found worker commit git now (current s) before after = do
  result ← finish_held worker commit s git now after
  ok result.0
finish_found worker commit git now (lost number generation) before after =
    finish_reclaimed worker number generation commit git now before after

-- `finish`
unfoldable pub finish :
    String → String → Option ℕ → Option ℕ → Git → ℕ → Run → Run → Result CollabError Run
unfolding finish_read finish_found
finish given commit number generation git now before after = do
  read ← finish_read given commit number generation before
  finish_found read.0 commit git now read.1 before after
