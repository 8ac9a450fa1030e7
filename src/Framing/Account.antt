-- ===== src/Framing/Account.antt =====
-- Where the bytes go (scripts/codex_loop_runtime/output_stream.py).
use mathlib.Core.List.{flatten, append_assoc}
use codex_loop.Base.{
  ℕ, zero, suc, ◌+◌, ◌≤◌, ◌≡◌, refl, sym, ap, subst, ◌∙◌, inl, inr, Bool, false, ◌==◌, List, [],
  ◌∷◌, ◌++◌, All, length, take, drop, length-append, length-take, Bool-cases, if◌then◌else◌, arith,
}
use codex_loop.Framing.{OutputDeltaFramer, utf8_boundary, frame_cut, frames_of, settle, drain}
use codex_loop.Framing.Boundary.{frame_cut-le}

-- A frame has one byte at least and `limit` bytes at most.
abbrev pub IsFrame : ℕ → List ℕ → Type 0
IsFrame limit frame = (1 ≤ length frame) × (length frame ≤ limit)

pub take-drop : (n : ℕ) (xs : List ℕ) → take n xs ++ drop n xs ≡ xs
take-drop zero xs = refl
take-drop (suc n) [] = refl
take-drop (suc n) (x ∷ xs) = ap (λ t. x ∷ t) (take-drop n xs)

-- The frames of one call of `drain`, with what is left.
record IsCut (limit n : ℕ) (bytes : List ℕ) (r : List (List ℕ) × ℕ × List ℕ) : Type 0 where
  pub whole : flatten r.0 ++ r.2 ≡ bytes
  pub capped : All (IsFrame limit) r.0
  pub quota : length r.0 + r.1 ≡ n

nonzero : (n : ℕ) → (n == 0) ≡ false → 1 ≤ n
nonzero n h = ground arith

IsCut-cons :
    (final : Bool) (limit n : ℕ) (bytes : List ℕ) (cut : ℕ) (r : List (List ℕ) × ℕ × List ℕ)
    → cut ≤ limit
    → cut ≤ length bytes
    → (cut == 0) ≡ false
    → IsCut limit n (drop cut bytes) r
    → IsCut limit (suc n) bytes (take cut bytes ∷ r.0, r.1, r.2)
unfolding flatten
IsCut-cons final limit n bytes cut r small fits some_bytes c = record {
  whole =
      append_assoc (take cut bytes) (flatten r.0) r.2
      ∙ ap (λ t. take cut bytes ++ t) c.whole
      ∙ take-drop cut bytes;
  capped = (
    (
      omega (arith, length-take cut bytes, nonzero cut some_bytes),
      omega (arith, length-take cut bytes),
    ),
    c.capped,
  );
  quota = omega (arith, c.quota);
}

frames_of-IsCut :
    (final : Bool) (limit n : ℕ) (bytes : List ℕ)
    → IsCut limit n bytes (frames_of final limit n bytes)
unfolding frames_of flatten
frames_of-IsCut final limit zero bytes = record { whole = refl; capped = tt; quota = omega arith }
frames_of-IsCut final limit (suc n) [] = record { whole = refl; capped = tt; quota = omega arith }
frames_of-IsCut final limit (suc n) (x ∷ xs) =
    let cut = frame_cut final limit (x ∷ xs) in
    let bound = frame_cut-le final limit (x ∷ xs) in
    let rest = frames_of-IsCut final limit n (drop cut (x ∷ xs)) in
    elim (Bool-cases (cut == 0)) [
      | inl stuck ↦ rw stuck (record { whole = refl; capped = tt; quota = omega arith })
      | inr moves ↦ rw moves (
          IsCut-cons final limit n (x ∷ xs) cut (frames_of final limit n (drop cut (x ∷ xs)))
            bound.0 bound.1 moves rest)
    ]

-- One call of `drain`, from `f` to `g`.
pub record IsDrain (f : OutputDeltaFramer) (frames : List (List ℕ)) (omitted : ℕ)
    (g : OutputDeltaFramer) : Type 0 where
  pub whole : omitted ≡ 0 → flatten frames ++ g.pending ≡ f.pending
  pub total :
      length (flatten frames) + length g.pending + omitted
      ≡ length f.pending + f.omitted_since_drain
  pub reported : g.omitted_since_drain ≡ 0
  pub included : f.omitted_since_drain ≤ omitted
  pub capped : All (IsFrame f.max_frame_bytes) frames
  pub quota : length frames + g.remaining_frames ≡ f.remaining_frames
  pub same_limit : g.max_frame_bytes ≡ f.max_frame_bytes
  pub same_room : g.max_pending_bytes ≡ f.max_pending_bytes
  pub shorter : length g.pending ≤ length f.pending

settle-IsDrain :
    (f : OutputDeltaFramer) (frames : List (List ℕ)) (left : ℕ) (pending : List ℕ)
    → flatten frames ++ pending ≡ f.pending
    → All (IsFrame f.max_frame_bytes) frames
    → length frames + left ≡ f.remaining_frames
    → IsDrain f frames (settle left pending f).1 (settle left pending f).0
unfolding settle
settle-IsDrain f frames zero pending whole fit quota =
    let size : length (flatten frames) + length pending ≡ length f.pending =
      sym (length-append (flatten frames) pending) ∙ ap length whole in
    record {
      whole = λ none_lost.
          let bare : pending ≡ [] = empty pending (omega (arith, none_lost)) in
          subst (λ p. flatten frames ++ p ≡ f.pending) bare whole;
      total = omega (arith, size);
      reported = refl;
      included = omega arith;
      capped = fit;
      quota = omega (arith, quota);
      same_limit = refl;
      same_room = refl;
      shorter = omega arith;
    }
  where
    empty : (p : List ℕ) → length p ≡ 0 → p ≡ []
    empty [] h = refl
    empty (x ∷ xs) h = absurd (omega (arith, h))
settle-IsDrain f frames (suc left) pending whole fit quota =
    let size : length (flatten frames) + length pending ≡ length f.pending =
      sym (length-append (flatten frames) pending) ∙ ap length whole in
    record {
      whole = λ _. whole;
      total = omega (arith, size);
      reported = refl;
      included = omega arith;
      capped = fit;
      quota = omega (arith, quota);
      same_limit = refl;
      same_room = refl;
      shorter = omega (arith, size);
    }

pub drain-IsDrain :
    (final : Bool) (f : OutputDeltaFramer)
    → IsDrain f (drain final f).0 (drain final f).1 (drain final f).2
unfolding drain
drain-IsDrain final f =
    let complete = if final then length f.pending else utf8_boundary f.pending in
    let r = frames_of final f.max_frame_bytes f.remaining_frames (take complete f.pending) in
    let c = frames_of-IsCut final f.max_frame_bytes f.remaining_frames (take complete f.pending) in
    settle-IsDrain f r.0 r.1 (r.2 ++ drop complete f.pending)
      (sym (append_assoc (flatten r.0) r.2 (drop complete f.pending))
        ∙ ap (λ t. t ++ drop complete f.pending) c.whole
        ∙ take-drop complete f.pending)
      c.capped c.quota
