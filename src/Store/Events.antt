-- ===== src/Store/Events.antt =====
-- scripts/codex_loop_runtime/state.py: the bounded log of isolation events, the newest first.
use codex_loop.Base.{
  ℕ, ◌-◌, ◌≤◌, Bool, List, [], ◌∷◌, count, ltb, not, Bool-cases, inl, inr, if◌then◌else◌, str_eq,
  arith,
}
use codex_loop.Store.{IsolationEvent}

abbrev pub is_warning : IsolationEvent → Bool
is_warning e = str_eq e.kind "warning"

-- `_prune_isolation_events`: of the warnings and of the other events the newest are kept, as many
-- as the two budgets say.
unfoldable pub prune : ℕ → ℕ → List IsolationEvent → List IsolationEvent
prune warnings others [] = []
prune warnings others (e ∷ rest) =
    let here = if is_warning e then ltb 0 warnings else ltb 0 others in
    let kept =
      prune (if is_warning e then warnings - 1 else warnings)
        (if is_warning e then others else others - 1) rest in
    if here then e ∷ kept else kept

abbrev pub keep_warnings : ℕ
keep_warnings = 64

abbrev pub keep_other : ℕ
keep_other = 448

-- A new event, and the pruning that follows every insertion.
unfoldable pub log_event : IsolationEvent → List IsolationEvent → List IsolationEvent
unfolding prune
log_event e log = prune keep_warnings keep_other (e ∷ log)

-- The budgets of a log.
abbrev pub IsBounded : ℕ → ℕ → List IsolationEvent → Type 0
IsBounded w o log = (count is_warning log ≤ w) × (count (λ e. not (is_warning e)) log ≤ o)

pub prune-count : (w o : ℕ) (log : List IsolationEvent) → IsBounded w o (prune w o log)
unfolding prune
prune-count w o [] = (omega arith, omega arith)
prune-count w o (e ∷ rest) = elim (Bool-cases (is_warning e)) [
  | inl loud ↦ rw loud (ground (arith, prune-count (w - 1) o rest))
  | inr plain ↦ rw plain (ground (arith, prune-count w (o - 1) rest))
]

-- However many events an isolation emits, the log holds 64 warnings and 448 other events at most.
pub log_event-IsBounded :
    (e : IsolationEvent) (log : List IsolationEvent) → IsBounded 64 448 (log_event e log)
unfolding log_event
log_event-IsBounded e log = prune-count keep_warnings keep_other (e ∷ log)
