-- ===== src/Framing/Boundary.antt =====
-- Where the framer may cut (scripts/codex_loop_runtime/output_stream.py).
use codex_loop.Base.{
  ℕ, zero, suc, ◌+◌, ◌-◌, ◌≤◌, max, min, ◌≡◌, refl, sym, ap, subst, ◌∙◌, inl, inr, Bool, true,
  false, Option, none, some, List, [], ◌∷◌, length, take, drop, length-take, length-drop,
  Option-cases, Bool-cases, ◌&&◌, leb, leb→le, if◌then◌else◌, arith,
}
use codex_loop.Framing.{
  DecodeError, Lead, one, two, three, four, bad, by_lead, lead, is_continuation, is_second,
  first_error, complete_bytes, utf8_boundary, safe_utf8_cut, frame_cut,
}

-- An error lies within the `n` bytes from `at`.
abbrev pub IsWithin : ℕ → ℕ → Option DecodeError → Type 0
IsWithin at n none = Unit
IsWithin at n (some e) = (at ≤ e.start) × (e.start + max 1 e.invalid ≤ at + n)

if-IsWithin :
    (b : Bool) (at n : ℕ) (p q : Option DecodeError)
    → IsWithin at n p
    → IsWithin at n q
    → IsWithin at n (if b then p else q)
if-IsWithin true at n p q h k = h
if-IsWithin false at n p q h k = k

lead-IsWithin :
    (l : Lead) (at n : ℕ) (p q r s t : Option DecodeError)
    → IsWithin at n p
    → IsWithin at n q
    → IsWithin at n r
    → IsWithin at n s
    → IsWithin at n t
    → IsWithin at n (by_lead l p q r s t)
lead-IsWithin one at n p q r s t h₁ h₂ h₃ h₄ h₅ = h₁
lead-IsWithin two at n p q r s t h₁ h₂ h₃ h₄ h₅ = h₂
lead-IsWithin three at n p q r s t h₁ h₂ h₃ h₄ h₅ = h₃
lead-IsWithin four at n p q r s t h₁ h₂ h₃ h₄ h₅ = h₄
lead-IsWithin bad at n p q r s t h₁ h₂ h₃ h₄ h₅ = h₅

shift-IsWithin :
    (k at m n : ℕ) (o : Option DecodeError) → k + m ≤ n → IsWithin (at + k) m o → IsWithin at n o
shift-IsWithin k at m n none fits h = tt
shift-IsWithin k at m n (some e) fits h = (omega (arith, h.0), omega (arith, h.1))

first_error-IsWithin :
    (at : ℕ) (segment : List ℕ) → IsWithin at (length segment) (first_error at segment)
unfolding first_error
first_error-IsWithin at [] = tt
first_error-IsWithin at (a ∷ []) =
    lead-IsWithin (lead a) at 1 _ _ _ _ _ tt (omega arith, omega arith) (omega arith, omega arith)
      (omega arith, omega arith) (omega arith, omega arith)
first_error-IsWithin at (a ∷ b ∷ []) =
    lead-IsWithin (lead a) at 2 _ _ _ _ _
      (shift-IsWithin 1 at 1 2 _ (omega arith) (first_error-IsWithin (at + 1) (b ∷ [])))
      (if-IsWithin (is_continuation b) at 2 _ _ tt (omega arith, omega arith))
      (if-IsWithin (is_second a b) at 2 _ _ (omega arith, omega arith) (omega arith, omega arith))
      (if-IsWithin (is_second a b) at 2 _ _ (omega arith, omega arith) (omega arith, omega arith))
      (omega arith, omega arith)
first_error-IsWithin at (a ∷ b ∷ c ∷ []) =
    lead-IsWithin (lead a) at 3 _ _ _ _ _
      (shift-IsWithin 1 at 2 3 _ (omega arith) (first_error-IsWithin (at + 1) (b ∷ c ∷ [])))
      (if-IsWithin (is_continuation b) at 3 _ _
        (shift-IsWithin 2 at 1 3 _ (omega arith) (first_error-IsWithin (at + 2) (c ∷ [])))
        (omega arith, omega arith))
      (if-IsWithin (is_second a b) at 3 _ _
        (if-IsWithin (is_continuation c) at 3 _ _ tt (omega arith, omega arith))
        (omega arith, omega arith))
      (if-IsWithin (is_second a b) at 3 _ _
        (if-IsWithin (is_continuation c) at 3 _ _ (omega arith, omega arith)
          (omega arith, omega arith))
        (omega arith, omega arith))
      (omega arith, omega arith)
first_error-IsWithin at (a ∷ b ∷ c ∷ d ∷ rest) =
    let n = suc (suc (suc (suc (length rest)))) in
    lead-IsWithin (lead a) at n _ _ _ _ _
      (shift-IsWithin 1 at (suc (suc (suc (length rest)))) n _ (omega arith)
        (first_error-IsWithin (at + 1) (b ∷ c ∷ d ∷ rest)))
      (if-IsWithin (is_continuation b) at n _ _
        (shift-IsWithin 2 at (suc (suc (length rest))) n _ (omega arith)
          (first_error-IsWithin (at + 2) (c ∷ d ∷ rest)))
        (omega arith, omega arith))
      (if-IsWithin (is_second a b) at n _ _
        (if-IsWithin (is_continuation c) at n _ _
          (shift-IsWithin 3 at (suc (length rest)) n _ (omega arith)
            (first_error-IsWithin (at + 3) (d ∷ rest)))
          (omega arith, omega arith))
        (omega arith, omega arith))
      (if-IsWithin (is_second a b) at n _ _
        (if-IsWithin (is_continuation c) at n _ _
          (if-IsWithin (is_continuation d) at n _ _
            (shift-IsWithin 4 at (length rest) n _ (omega arith)
              (first_error-IsWithin (at + 4) rest))
            (omega arith, omega arith))
          (omega arith, omega arith))
        (omega arith, omega arith))
      (omega arith, omega arith)

complete_bytes-le : (n : ℕ) (segment : List ℕ) → complete_bytes n segment ≤ length segment
unfolding complete_bytes
complete_bytes-le zero segment = omega arith
complete_bytes-le (suc n) segment = elim (Option-cases (first_error 0 segment)) [
  | inl fine ↦ rw (fine, complete_bytes) (omega arith)
  | inr (e, wrong) ↦
      let within : IsWithin 0 (length segment) (some e) =
        subst (IsWithin 0 (length segment)) wrong (first_error-IsWithin 0 segment) in
      rw (wrong, complete_bytes)
        (elim (Bool-cases e.incomplete) [
          | inl early ↦ rw early (omega (arith, within.1))
          | inr now ↦ rw now (
              omega (
                arith,
                within.1,
                length-drop (e.start + max 1 e.invalid) segment,
                complete_bytes-le n (drop (e.start + max 1 e.invalid) segment),
              ))
        ])
]

-- As many rounds as there are bytes are enough: more of them find the same.
complete_bytes_enough :
    (n : ℕ) (segment : List ℕ)
    → length segment ≤ n
    → complete_bytes (suc n) segment ≡ complete_bytes n segment
unfolding complete_bytes
complete_bytes_enough zero [] h = refl
complete_bytes_enough zero (x ∷ xs) h = absurd (omega (arith, h))
complete_bytes_enough (suc n) segment h = elim (Option-cases (first_error 0 segment)) [
  | inl fine ↦ rw (fine, complete_bytes) refl
  | inr (e, wrong) ↦
      rw (wrong, complete_bytes)
        (elim (Bool-cases e.incomplete) [
          | inl early ↦ rw early refl
          | inr now ↦ rw now (
              ap (λ later. e.start + max 1 e.invalid + later)
                (complete_bytes_enough n (drop (e.start + max 1 e.invalid) segment)
                  (omega (arith, h, length-drop (e.start + max 1 e.invalid) segment))))
        ])
]

-- The boundary does not depend on the three rounds: any greater number gives the same.
pub utf8_boundary_enough :
    (k : ℕ) (bytes : List ℕ)
    → utf8_boundary bytes
      ≡ (length bytes - 3) + complete_bytes (k + 3) (drop (length bytes - 3) bytes)
unfolding utf8_boundary
utf8_boundary_enough zero bytes = refl
utf8_boundary_enough (suc k) bytes =
    let before = length bytes - 3 in
    let e : suc k + 3 ≡ suc (k + 3) = omega arith in
    utf8_boundary_enough k bytes
    ∙ ap (λ later. before + later)
        (sym (
            complete_bytes_enough (k + 3) (drop before bytes)
              (omega (arith, length-drop before bytes)))
          ∙ ap (λ n. complete_bytes n (drop before bytes)) (sym e))

pub utf8_boundary-le : (bytes : List ℕ) → utf8_boundary bytes ≤ length bytes
unfolding utf8_boundary
utf8_boundary-le bytes = omega (
  arith,
  complete_bytes-le 3 (drop (length bytes - 3) bytes),
  length-drop (length bytes - 3) bytes,
)

pub utf8_boundary_late : (bytes : List ℕ) → length bytes - 3 ≤ utf8_boundary bytes
unfolding utf8_boundary
utf8_boundary_late bytes = omega arith

-- A frame is not longer than the limit, nor than what remains.
pub frame_cut-le :
    (final : Bool) (limit : ℕ) (remaining : List ℕ)
    → (frame_cut final limit remaining ≤ limit)
      × (frame_cut final limit remaining ≤ length remaining)
unfolding frame_cut safe_utf8_cut
frame_cut-le final limit remaining =
    let bound = utf8_boundary-le (take (min (length remaining) limit) remaining) in
    let size = length-take (min (length remaining) limit) remaining in
    elim (Bool-cases (final && leb (length remaining) limit)) [
      | inl last ↦
          let fits : leb (length remaining) limit ≡ true = ground arith in
          rw last (leb→le (length remaining) limit fits, omega arith)
      | inr more ↦ rw more (omega (arith, bound, size), omega (arith, bound, size))
    ]
