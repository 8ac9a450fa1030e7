-- ===== src/Store/Clean.antt =====
-- scripts/codex_loop_runtime/state.py: the cleaning of texts before they are stored. `redact` stands
-- for the two substitutions by the module `re` that replace secrets; the rest of a text's cleaning
-- is written out. A `String` holds no lone surrogate, so `_unicode_safe` leaves it alone.
use Prim.Native.Char.{code}
use codex_loop.Base.{
  ℕ, String, Bool, true, ◌&&◌, ◌||◌, Option, none, some, ltb, leb, ◌==◌, if◌then◌else◌, Result, ok,
  err, is_empty, strip, prefix, char_count,
}
use codex_loop.Store.{StoreError, invalid_task_id, request_too_long}

-- `TASK_ID_RE`: the class of characters, and the whole match.
unfoldable pub is_task_id_code : ℕ → Bool
is_task_id_code c =
    (leb b'A' c && leb c b'Z')
    || (leb b'a' c && leb c b'z')
    || (leb b'0' c && leb c b'9')
    || c == b'_'
    || c == b'-'

unfoldable pub all_task_id_codes : String → Bool
unfolding is_task_id_code
all_task_id_codes String.[] = true
all_task_id_codes (String.◌∷◌ c s) = is_task_id_code (code c) && all_task_id_codes s

unfoldable pub validate_task_id : String → Result StoreError String
unfolding all_task_id_codes char_count
validate_task_id value =
    if all_task_id_codes value && leb 1 (char_count value) && leb (char_count value) 64
    then ok value
    else err invalid_task_id

unfoldable pub scrub_persisted_text : (String → String) → ℕ → String → String
unfolding prefix
scrub_persisted_text redact limit value = redact (prefix limit value)

-- `(scrub_persisted_text(value, limit=limit) or "").strip()`
unfoldable pub clean_text : (String → String) → ℕ → String → String
unfolding scrub_persisted_text strip
clean_text redact limit value = strip (scrub_persisted_text redact limit value)

-- The same where `value` may be `None`.
unfoldable pub clean_optional : (String → String) → ℕ → Option String → String
unfolding clean_text
clean_optional redact limit none = ""
clean_optional redact limit (some value) = clean_text redact limit value

-- `clean or None`
unfoldable pub or_none : String → Option String
or_none s = if is_empty s then none else some s

unfoldable pub normalize_request_authority_text : String → Result StoreError String
unfolding char_count
normalize_request_authority_text value =
    if ltb 65536 (char_count value) then err request_too_long else ok value
