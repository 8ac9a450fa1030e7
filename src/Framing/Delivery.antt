-- ===== src/Framing/Delivery.antt =====
-- When a framer loses nothing (scripts/codex_loop_runtime/output_stream.py).
use codex_loop.Base.{
  ℕ, zero, suc, ◌+◌, ◌-◌, ◌≤◌, min, ◌≡◌, refl, sym, ap, subst, ◌∙◌, inl, inr, true, false, ◌==◌,
  List, [], ◌∷◌, ◌++◌, All, length, take, drop, length-take, length-drop, length-append, Bool-cases,
  leb, leb-false, arith,
}
use codex_loop.Framing.{
  OutputDeltaFramer, utf8_boundary, safe_utf8_cut, frame_cut, frames_of, settle, drain, push, flow,
  calls_of,
}
use codex_loop.Framing.Boundary.{utf8_boundary_late}
use codex_loop.Framing.Account.{drain-IsDrain}
use codex_loop.Framing.Flow.{push-IsPush, flow-IsFlow}

-- A chunk for which there is room is pending as a whole.
push_fits :
    (bytes : List ℕ) (f : OutputDeltaFramer)
    → length f.pending ≤ 6
    → length bytes + 6 ≤ f.max_pending_bytes
    → (push bytes f).omitted_since_drain ≡ f.omitted_since_drain
unfolding push
push_fits [] f short room = refl
push_fits (x ∷ xs) f short room =
    let available = f.max_pending_bytes - length f.pending in
    elim (Bool-cases (available == 0)) [
      | inl full ↦
          let none_left : available ≡ 0 = ground arith in
          absurd (omega (arith, short, room, none_left))
      | inr open_room ↦ elim (Bool-cases (leb (length (x ∷ xs)) available)) [
        | inl fits ↦ rw (open_room, fits) refl
        | inr over ↦ absurd (omega (arith, short, room, leb-false (length (x ∷ xs)) available over))
      ]
    ]

-- A cut of nothing leaves three bytes at most.
no_cut :
    (limit : ℕ) (bytes : List ℕ)
    → 4 ≤ limit
    → (frame_cut false limit bytes == 0) ≡ true
    → length bytes ≤ 3
unfolding frame_cut safe_utf8_cut
no_cut limit bytes wide h =
    let late = utf8_boundary_late (take (min (length bytes) limit) bytes) in
    let size = length-take (min (length bytes) limit) bytes in
    let nothing : utf8_boundary (take (min (length bytes) limit) bytes) ≡ 0 = ground arith in
    omega (arith, late, size, nothing, wide)

-- While frames may still come, a drain that is not the last leaves three bytes at most of those that
-- are complete.
frames_left :
    (limit n : ℕ) (bytes : List ℕ)
    → 4 ≤ limit
    → 1 ≤ (frames_of false limit n bytes).1
    → length (frames_of false limit n bytes).2 ≤ 3
unfolding frames_of
frames_left limit zero bytes wide more = absurd (omega (arith, more))
frames_left limit (suc n) [] wide more = omega arith
frames_left limit (suc n) (x ∷ xs) wide more =
    elim (Bool-cases (frame_cut false limit (x ∷ xs) == 0)) [
      | inl stop ↦ rw stop (no_cut limit (x ∷ xs) wide stop)
      | inr on ↦ rw on (
          frames_left limit n (drop (frame_cut false limit (x ∷ xs)) (x ∷ xs)) wide (rw on at more))
    ]

settle_more :
    (left : ℕ) (pending : List ℕ) (f : OutputDeltaFramer)
    → 1 ≤ (settle left pending f).0.remaining_frames
    → (1 ≤ left)
      × ((settle left pending f).0.pending ≡ pending)
      × ((settle left pending f).1 ≡ f.omitted_since_drain)
unfolding settle
settle_more zero pending f more = absurd (omega (arith, more))
settle_more (suc left) pending f more = (omega arith, refl, refl)

-- What a drain leaves while frames may still come.
drain_short :
    (f : OutputDeltaFramer)
    → 4 ≤ f.max_frame_bytes
    → 1 ≤ (drain false f).2.remaining_frames
    → (length (drain false f).2.pending ≤ 6) × ((drain false f).1 ≡ f.omitted_since_drain)
unfolding drain
drain_short f wide more =
    let complete = utf8_boundary f.pending in
    let r = frames_of false f.max_frame_bytes f.remaining_frames (take complete f.pending) in
    let kept = settle_more r.1 (r.2 ++ drop complete f.pending) f more in
    let left =
      frames_left f.max_frame_bytes f.remaining_frames (take complete f.pending) wide kept.0 in
    let size = length-append r.2 (drop complete f.pending) in
    let dropped = length-drop complete f.pending in
    let late = utf8_boundary_late f.pending in
    (omega (arith, ap length kept.1, left, size, dropped, late), kept.2)

drain_last :
    (f : OutputDeltaFramer)
    → 1 ≤ (drain true f).2.remaining_frames
    → (drain true f).1 ≡ f.omitted_since_drain
unfolding drain
drain_last f more =
    let r =
      frames_of true f.max_frame_bytes f.remaining_frames (take (length f.pending) f.pending) in
    (settle_more r.1 (r.2 ++ drop (length f.pending) f.pending) f more).2

-- Chunks that fit into the pending bytes, and frames that are not used up: nothing is omitted.
pub calls_lossless :
    (chunks : List (List ℕ)) (f : OutputDeltaFramer)
    → 4 ≤ f.max_frame_bytes
    → length f.pending ≤ 6
    → f.omitted_since_drain ≡ 0
    → All (λ chunk. length chunk + 6 ≤ f.max_pending_bytes) chunks
    → 1 ≤ (flow (calls_of chunks) f).2.remaining_frames
    → (flow (calls_of chunks) f).1 ≡ 0
unfolding calls_of flow
calls_lossless [] f wide short unlost room more = omega (arith, drain_last f more, unlost)
calls_lossless (chunk ∷ chunks) f wide short unlost room more =
    let p = push-IsPush chunk f in
    let d = drain-IsDrain false (push chunk f) in
    let g = (drain false (push chunk f)).2 in
    let fits = push_fits chunk f short room.0 in
    let quota = (flow-IsFlow (calls_of chunks) g).quota in
    let left =
      drain_short (push chunk f) (omega (arith, wide, p.same_limit)) (omega (arith, quota, more)) in
    let rest =
      calls_lossless chunks g (omega (arith, wide, p.same_limit, d.same_limit)) left.0 d.reported
        (subst (λ m. All (λ chunk. length chunk + 6 ≤ m) chunks) (sym (d.same_room ∙ p.same_room))
          room.1)
        more in
    omega (arith, rest, left.1, fits, unlost)
