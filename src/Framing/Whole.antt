-- ===== src/Framing/Whole.antt =====
-- `frame_output`: a framer that is drained after every chunk (scripts/codex_loop_runtime/output_stream.py).
use mathlib.Core.List.{flatten, append-nil}
use codex_loop.Base.{
  ℕ, zero, suc, ◌*◌, ◌+◌, ◌<◌, ◌≤◌, min, ◌≡◌, refl, sym, ap, subst, ◌∙◌, ◌⊎◌, inl, inr, true, false,
  ◌==◌, List, [], ◌∷◌, ◌++◌, All, length, take, drop, length-take, drop_all, Bool-cases, ltb,
  ltb-false, leb, leb-false, arith, ok, >>=-eq-ok, reject-eq-ok, ok_injective,
}
use codex_loop.Framing.{
  OutputDeltaFramer, utf8_boundary, safe_utf8_cut, frame_cut, frames_of, settle, drain, new_framer,
  flow, calls_of, frame_output, frame_too_small, pending_too_small, no_frames, push,
}
use codex_loop.Framing.Boundary.{utf8_boundary_late}
use codex_loop.Framing.Account.{IsFrame, drain-IsDrain}
use codex_loop.Framing.Delivery.{calls_lossless}
use codex_loop.Framing.Flow.{push-IsPush, input, flow-IsFlow}

-- A final frame takes a byte at least.
final_cut :
    (limit : ℕ) (x : ℕ) (xs : List ℕ) → 4 ≤ limit → (frame_cut true limit (x ∷ xs) == 0) ≡ false
unfolding frame_cut safe_utf8_cut
final_cut limit x xs h =
    let late = utf8_boundary_late (take (min (length (x ∷ xs)) limit) (x ∷ xs)) in
    let size = length-take (min (length (x ∷ xs)) limit) (x ∷ xs) in
    elim (Bool-cases (leb (length (x ∷ xs)) limit)) [
      | inl last ↦ rw last (not_zero (suc (length xs)) (omega arith))
      | inr more ↦
          let long = leb-false (length (x ∷ xs)) limit more in
          let moves : 1 ≤ utf8_boundary (take (min (length (x ∷ xs)) limit) (x ∷ xs)) =
            omega (arith, late, size, long, h) in
          rw more (not_zero _ moves)
    ]
  where
    not_zero : (n : ℕ) → 1 ≤ n → (n == 0) ≡ false
    not_zero n m = ground arith

-- A final drain stops only when no frame may come any more.
final_frames :
    (limit n : ℕ) (bytes : List ℕ)
    → 4 ≤ limit
    → ((frames_of true limit n bytes).1 ≡ 0) ⊎ ((frames_of true limit n bytes).2 ≡ [])
unfolding frames_of
final_frames limit zero bytes h = inl refl
final_frames limit (suc n) [] h = inr refl
final_frames limit (suc n) (x ∷ xs) h =
    rw (final_cut limit x xs h)
      (final_frames limit n (drop (frame_cut true limit (x ∷ xs)) (x ∷ xs)) h)

settle_empty :
    (left : ℕ) (pending : List ℕ) (f : OutputDeltaFramer)
    → (left ≡ 0) ⊎ (pending ≡ [])
    → (settle left pending f).0.pending ≡ []
unfolding settle
settle_empty zero pending f h = refl
settle_empty (suc left) pending f (inl e) = absurd (omega (arith, e))
settle_empty (suc left) pending f (inr e) = e

-- After a final drain nothing is pending.
final_drain : (f : OutputDeltaFramer) → 4 ≤ f.max_frame_bytes → (drain true f).2.pending ≡ []
unfolding drain
final_drain f h =
    let r =
      frames_of true f.max_frame_bytes f.remaining_frames (take (length f.pending) f.pending) in
    settle_empty r.1 (r.2 ++ drop (length f.pending) f.pending) f
      (elim (final_frames f.max_frame_bytes f.remaining_frames (take (length f.pending) f.pending)
        h) [
          | inl spent ↦ inl spent
          | inr all_out ↦ inr (
              ap (λ t. t ++ drop (length f.pending) f.pending) all_out
              ∙ drop_all (length f.pending) f.pending (omega arith))
        ])

calls_end :
    (chunks : List (List ℕ)) (f : OutputDeltaFramer)
    → 4 ≤ f.max_frame_bytes
    → ((flow (calls_of chunks) f).2.pending ≡ [])
      × ((flow (calls_of chunks) f).2.omitted_since_drain ≡ 0)
unfolding calls_of flow
calls_end [] f h = (final_drain f h, (drain-IsDrain true f).reported)
calls_end (chunk ∷ chunks) f h =
    let d = drain-IsDrain false (push chunk f) in
    calls_end chunks (drain false (push chunk f)).2
      (omega (arith, h, d.same_limit, (push-IsPush chunk f).same_limit))

input-calls_of : (chunks : List (List ℕ)) → input (calls_of chunks) ≡ flatten chunks
unfolding calls_of input flatten
input-calls_of [] = refl
input-calls_of (chunk ∷ chunks) = ap (λ t. chunk ++ t) (input-calls_of chunks)

-- What the framing of an output promises, for the pending bytes that it has room for.
pub record IsFramed (limit room : ℕ) (chunks frames : List (List ℕ)) : Type 0 where
  pub capped : All (IsFrame limit) frames
  pub few : length frames ≤ 10000
  pub no_more : length (flatten frames) ≤ length (flatten chunks)
  pub delivered :
      length frames < 10000
      → All (λ chunk. length chunk + 6 ≤ room) chunks
      → flatten frames ≡ flatten chunks

flow-IsFramed :
    (chunks : List (List ℕ)) (f : OutputDeltaFramer)
    → 4 ≤ f.max_frame_bytes
    → f.pending ≡ []
    → f.omitted_since_drain ≡ 0
    → f.remaining_frames ≡ 10000
    → IsFramed f.max_frame_bytes f.max_pending_bytes chunks (flow (calls_of chunks) f).0
flow-IsFramed chunks f wide fresh unlost quota =
    let r = flow (calls_of chunks) f in
    let c = flow-IsFlow (calls_of chunks) f in
    let (empty, reported) = calls_end chunks f wide in
    let size = ap length (input-calls_of chunks) in
    let none_left = ap length empty in
    let none_before = ap length fresh in
    record {
      capped = c.capped;
      few = omega (arith, c.quota, quota);
      no_more = omega (arith, c.total, size, none_left, none_before, unlost);
      delivered = λ few room.
          let lossless =
            calls_lossless chunks f wide (omega (arith, none_before)) unlost room
              (omega (arith, c.quota, quota, few)) in
          sym (append-nil (flatten r.0))
          ∙ ap (λ p. flatten r.0 ++ p) (sym empty)
          ∙ c.whole (omega (arith, lossless, reported))
          ∙ ap (λ p. p ++ input (calls_of chunks)) fresh
          ∙ input-calls_of chunks;
    }

new_framer_parts :
    (limit room quota : ℕ) {f : OutputDeltaFramer}
    → new_framer limit room quota ≡ ok f
    → (4 ≤ f.max_frame_bytes)
      × (f.max_frame_bytes ≡ limit)
      × (f.max_pending_bytes ≡ room)
      × (f.pending ≡ [])
      × (f.omitted_since_drain ≡ 0)
      × (f.remaining_frames ≡ quota)
unfolding new_framer
new_framer_parts limit room quota h =
    let wide = reject-eq-ok (ltb limit 4) frame_too_small _ h in
    let roomy = reject-eq-ok (ltb room limit) pending_too_small _ wide.1 in
    let some_frames = reject-eq-ok (quota == 0) no_frames _ roomy.1 in
    subst
      (λ (f : OutputDeltaFramer).
        (4 ≤ f.max_frame_bytes)
        × (f.max_frame_bytes ≡ limit)
        × (f.max_pending_bytes ≡ room)
        × (f.pending ≡ [])
        × (f.omitted_since_drain ≡ 0)
        × (f.remaining_frames ≡ quota))
      (ok_injective some_frames.1) (ltb-false limit 4 wide.0, refl, refl, refl, refl, refl)

-- A framed output has frames of one byte at least and of the limit at most, no more than the default
-- quota of 10000, with no more bytes than the output. Where the quota is not used up and every chunk,
-- with six bytes to spare, fits into the pending bytes (512 KiB), nothing is lost: the frames, one after
-- the other, are the output byte by byte, however it was cut into chunks.
pub frame_output-IsFramed :
    (limit : ℕ) (chunks : List (List ℕ)) {frames : List (List ℕ)}
    → frame_output limit chunks ≡ ok frames
    → IsFramed limit (512 * 1024) chunks frames
unfolding frame_output
frame_output-IsFramed limit chunks h =
    let (f, made, done) = >>=-eq-ok (new_framer limit (512 * 1024) 10000) _ h in
    let (wide, same_limit, same_room, fresh, unlost, quota) =
      new_framer_parts limit (512 * 1024) 10000 made in
    subst (IsFramed limit (512 * 1024) chunks) (ok_injective done) (
      subst (λ n. IsFramed limit n chunks (flow (calls_of chunks) f).0) same_room
        (subst (λ m. IsFramed m f.max_pending_bytes chunks (flow (calls_of chunks) f).0) same_limit
          (flow-IsFramed chunks f wide fresh unlost quota)))
