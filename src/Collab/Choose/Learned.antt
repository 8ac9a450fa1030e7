-- ===== src/Collab/Choose/Learned.antt =====
-- scripts/codex_loop_runtime/local_collaboration.py: a learned ceiling is dropped once no task of its
-- pools runs and its cooldown has passed.
use codex_loop.Base.{
  ℕ, String, Bool, true, ◌&&◌, not, Option, none, some, List, [], ◌∷◌, select, leb, ◌==◌,
  if◌then◌else◌, str_eq,
}
use codex_loop.Collab.{Run, Cap}
use codex_loop.Collab.Tables.{find_entry, remove}
use codex_loop.Collab.Pools.{claimed_in, sum_over, find_cap}

abbrev pub restored : String → ℕ → List Cap → List Cap
restored resource limit [] = []
restored resource limit (c ∷ caps) =
    (if str_eq c.resource_key resource then record c { max_claimed = limit } else c)
    ∷ restored resource limit caps

-- The cap that stood before anything was learned, if there was one.
abbrev pub unlearned : String → Option ℕ → List Cap → List Cap
unlearned resource none caps = select (λ c. not (str_eq c.resource_key resource)) caps
unlearned resource (some limit) caps = restored resource limit caps

abbrev pub has_cooled : ℕ → Option ℕ → Bool
has_cooled now none = true
has_cooled now (some retry_after) = leb retry_after now

abbrev pub is_over : ℕ → String → Cap → Run → Bool
is_over now resource c r =
    sum_over (λ p. claimed_in r.slots p) c.pools == 0
    && has_cooled now (find_entry resource r.resource_blocks)

unfoldable pub reset_one : ℕ → String → Option ℕ → Run → Run
unfolding find_cap claimed_in sum_over find_entry
reset_one now resource original r = elim (find_cap resource r.resource_caps) [
  | none ↦ r
  | some c ↦
      if is_over now resource c r
      then record r {
        resource_caps = unlearned resource original r.resource_caps;
        learned_resource_caps = remove resource r.learned_resource_caps;
        resource_blocks = remove resource r.resource_blocks;
      }
      else r
]

unfoldable pub reset_all : ℕ → List (String × Option ℕ) → Run → Run
unfolding reset_one
reset_all now [] r = r
reset_all now (row ∷ rows) r = reset_all now rows (reset_one now row.0 row.1 r)

unfoldable pub reset_learned : ℕ → Run → Run
unfolding reset_all
reset_learned now r = reset_all now r.learned_resource_caps r
