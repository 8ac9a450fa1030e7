-- ===== src/Base/Strip.antt =====
-- `str.strip` of Python: stripping twice is stripping once.
use Prim.Native.Char.{code}
use Prim.Native.String.{String}
use mathlib.Core.Path.{◌≡◌, refl, ap, ◌∙◌}
use mathlib.Core.Logic.{inl, inr}
use mathlib.Core.Bool.{Bool, true, not, ◌&&◌}
use native.Mathlib.Omega.{arith}
use codex_loop.Base.Tests.{Bool-cases}
use codex_loop.Base.Text.{is_space, is_empty, lstrip, rstrip, strip}

-- The text starts with no white space.
abbrev is_trimmed : String → Bool
is_trimmed String.[] = true
is_trimmed (String.◌∷◌ c _) = not (is_space (code c))

lstrip-is_trimmed : (s : String) → is_trimmed (lstrip s) ≡ true
unfolding lstrip
lstrip-is_trimmed String.[] = refl
lstrip-is_trimmed (String.◌∷◌ c s) = ground (arith, lstrip-is_trimmed s)

lstrip-fixed : (s : String) → is_trimmed s ≡ true → lstrip s ≡ s
unfolding lstrip
lstrip-fixed String.[] h = refl
lstrip-fixed (String.◌∷◌ c s) h = ground arith

rstrip-is_trimmed : (s : String) → is_trimmed s ≡ true → is_trimmed (rstrip s) ≡ true
unfolding rstrip
rstrip-is_trimmed String.[] h = refl
rstrip-is_trimmed (String.◌∷◌ c s) h = ground arith

rstrip-rstrip : (s : String) → rstrip (rstrip s) ≡ rstrip s
unfolding rstrip
rstrip-rstrip String.[] = refl
rstrip-rstrip (String.◌∷◌ c s) = elim (Bool-cases (is_empty (rstrip s) && is_space (code c))) [
  | inl gone ↦ rw gone refl
  | inr kept ↦ rw (kept, rstrip-rstrip s, kept) refl
]

pub strip-strip : (s : String) → strip (strip s) ≡ strip s
unfolding strip
strip-strip s =
    ap rstrip
      (lstrip-fixed (rstrip (lstrip s)) (rstrip-is_trimmed (lstrip s) (lstrip-is_trimmed s)))
    ∙ rstrip-rstrip (lstrip s)
