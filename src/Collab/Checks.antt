-- ===== src/Collab/Checks.antt =====
-- scripts/codex_loop_runtime/local_collaboration.py: the checks of texts and identifiers.
use Prim.Native.Char.{code}
use codex_loop.Base.{
  ℕ, String, Bool, true, false, ◌&&◌, ◌||◌, List, [], ◌∷◌, all, leb, ltb, if◌then◌else◌, Result, ok,
  err, is_empty, strip, char_count, member,
}
use codex_loop.Store.Clean.{all_task_id_codes}
use codex_loop.Collab.{CollabError, invalid_text, invalid_identifier}

-- `_text`
unfoldable pub text : ℕ → String → Result CollabError String
unfolding strip char_count
text limit value =
    if is_empty (strip value) || ltb limit (char_count value)
    then err invalid_text
    else ok (strip value)

-- `RUN_RE`: the first character is a letter or a digit.
abbrev starts_alnum : String → Bool
starts_alnum String.[] = false
starts_alnum (String.◌∷◌ c s) =
    (leb b'A' (code c) && leb (code c) b'Z')
    || (leb b'a' (code c) && leb (code c) b'z')
    || (leb b'0' (code c) && leb (code c) b'9')

unfoldable pub is_run_name : String → Bool
unfolding all_task_id_codes char_count
is_run_name value = starts_alnum value && all_task_id_codes value && leb (char_count value) 80

-- `TASK_RE`
unfoldable pub is_task_name : String → Bool
unfolding all_task_id_codes char_count
is_task_name value =
    all_task_id_codes value && leb 1 (char_count value) && leb (char_count value) 80

-- `_identifier`, for one of the two patterns.
unfoldable pub identifier : (String → Bool) → String → Result CollabError String
identifier matches value = if matches value then ok value else err invalid_identifier

-- `_task`
unfoldable pub task : String → Result CollabError String
unfolding identifier is_task_name
task = identifier is_task_name

unfoldable pub identifiers : (String → Bool) → List String → Result CollabError (List String)
identifiers matches values = if all matches values then ok values else err invalid_identifier

abbrev is_hex : ℕ → Bool
is_hex c = (leb b'0' c && leb c b'9') || (leb b'a' c && leb c b'f')

abbrev all_hex : String → Bool
all_hex String.[] = true
all_hex (String.◌∷◌ c s) = is_hex (code c) && all_hex s

-- `REF_RE.fullmatch`
unfoldable pub is_ref : String → Bool
unfolding char_count
is_ref value = all_hex value && leb 40 (char_count value) && leb (char_count value) 64

-- `len(values) != len(set(values))`
abbrev pub has_duplicates : List String → Bool
has_duplicates [] = false
has_duplicates (x ∷ xs) = member x xs || has_duplicates xs

-- `set(xs) <= set(ys)`
abbrev pub is_subset : List String → List String → Bool
is_subset xs ys = all (λ x. member x ys) xs
