-- ===== src/Collab/Tables.antt =====
-- scripts/codex_loop_runtime/local_collaboration.py: tables with a text as their key, as lists of rows.
use codex_loop.Base.{
  String, Bool, not, Option, none, some, List, [], ◌∷◌, select, if◌then◌else◌, str_eq, any,
}

unfoldable pub find_entry {ℓ} : {B : Type ℓ} → String → List (String × B) → Option B
find_entry key [] = none
find_entry key (row ∷ rows) = if str_eq row.0 key then some row.1 else find_entry key rows

abbrev pub has_entry {ℓ} : {B : Type ℓ} → String → List (String × B) → Bool
has_entry key rows = any (λ row. str_eq row.0 key) rows

-- `INSERT … ON CONFLICT DO UPDATE`
unfoldable pub put {ℓ} : {B : Type ℓ} → String → B → List (String × B) → List (String × B)
put key value [] = (key, value) ∷ []
put key value (row ∷ rows) =
    if str_eq row.0 key then (key, value) ∷ rows else row ∷ put key value rows

-- `INSERT OR IGNORE`
abbrev pub put_new {ℓ} : {B : Type ℓ} → String → B → List (String × B) → List (String × B)
put_new key value rows = if has_entry key rows then rows else put key value rows

-- `DELETE … WHERE key=?`
abbrev pub remove {ℓ} : {B : Type ℓ} → String → List (String × B) → List (String × B)
remove key rows = select (λ row. not (str_eq row.0 key)) rows
