-- ===== src/Framing/Flow.antt =====
-- A framer over a whole output (scripts/codex_loop_runtime/output_stream.py).
use mathlib.Core.List.{flatten, append-nil, append_assoc}
use codex_loop.Base.{
  ℕ, ◌+◌, ◌-◌, ◌≤◌, ◌≡◌, refl, sym, ap, subst, ◌∙◌, inl, inr, ◌==◌, List, [], ◌∷◌, ◌++◌, All,
  length, take, length-append, length-take, Bool-cases, leb, leb→le, leb-false, arith,
}
use codex_loop.Framing.{OutputDeltaFramer, utf8_boundary, push, drain, Event, pushed, drained, flow}
use codex_loop.Framing.Boundary.{utf8_boundary-le}
use codex_loop.Framing.Account.{IsFrame, IsDrain, drain-IsDrain}

-- One call of `push`, from `f` to `g`.
pub record IsPush (bytes : List ℕ) (f g : OutputDeltaFramer) : Type 0 where
  whole : g.omitted_since_drain ≡ 0 → g.pending ≡ f.pending ++ bytes
  total :
      length g.pending + g.omitted_since_drain
      ≡ length f.pending + f.omitted_since_drain + length bytes
  included : f.omitted_since_drain ≤ g.omitted_since_drain
  room : length f.pending ≤ f.max_pending_bytes → length g.pending ≤ f.max_pending_bytes
  same_frames : g.remaining_frames ≡ f.remaining_frames
  pub same_limit : g.max_frame_bytes ≡ f.max_frame_bytes
  pub same_room : g.max_pending_bytes ≡ f.max_pending_bytes

pub push-IsPush : (bytes : List ℕ) (f : OutputDeltaFramer) → IsPush bytes f (push bytes f)
unfolding push
push-IsPush [] f = record {
  whole = λ _. sym (append-nil f.pending);
  total = omega arith;
  included = omega arith;
  room = λ h. h;
  same_frames = refl;
  same_limit = refl;
  same_room = refl;
}
push-IsPush (x ∷ xs) f =
    let available = f.max_pending_bytes - length f.pending in
    elim (Bool-cases (available == 0)) [
      | inl full ↦ rw full (record {
        whole = λ h. absurd (omega (arith, h));
        total = omega arith;
        included = omega arith;
        room = λ h. h;
        same_frames = refl;
        same_limit = refl;
        same_room = refl;
      })
      | inr open_room ↦ elim (Bool-cases (leb (length (x ∷ xs)) available)) [
        | inl fits ↦
            rw (open_room, fits)
              (record {
                whole = λ _. refl;
                total = omega (arith, length-append f.pending (x ∷ xs));
                included = omega arith;
                room = λ h. omega (
                  arith,
                  h,
                  length-append f.pending (x ∷ xs),
                  leb→le (length (x ∷ xs)) available fits,
                );
                same_frames = refl;
                same_limit = refl;
                same_room = refl;
              })
        | inr over ↦
            let filled = f.pending ++ take available (x ∷ xs) in
            let more = leb-false (length (x ∷ xs)) available over in
            let size = length-append f.pending (take available (x ∷ xs)) in
            let taken = length-take available (x ∷ xs) in
            let kept = length-take (utf8_boundary filled) filled in
            let bound = utf8_boundary-le filled in
            rw (open_room, over)
              (record {
                whole = λ h. absurd (omega (arith, h, more));
                total = omega (arith, more, size, taken, kept, bound);
                included = omega arith;
                room = λ h. omega (arith, h, size, taken, kept);
                same_frames = refl;
                same_limit = refl;
                same_room = refl;
              })
      ]
    ]

-- The bytes that were pushed.
unfoldable pub input : List Event → List ℕ
input [] = []
input (pushed bytes ∷ events) = bytes ++ input events
input (drained final ∷ events) = input events

-- The calls from `f` to `g`.
pub record IsFlow (f : OutputDeltaFramer) (bytes : List ℕ) (frames : List (List ℕ)) (omitted : ℕ)
    (g : OutputDeltaFramer) : Type 0 where
  pub whole : omitted + g.omitted_since_drain ≡ 0 → flatten frames ++ g.pending ≡ f.pending ++ bytes
  pub total :
      length (flatten frames) + length g.pending + (omitted + g.omitted_since_drain)
      ≡ length f.pending + f.omitted_since_drain + length bytes
  pub included : f.omitted_since_drain ≤ omitted + g.omitted_since_drain
  pub capped : All (IsFrame f.max_frame_bytes) frames
  pub quota : length frames + g.remaining_frames ≡ f.remaining_frames
  pub room : length f.pending ≤ f.max_pending_bytes → length g.pending ≤ f.max_pending_bytes

All-append : (P : List ℕ → Type 0) (xs ys : List (List ℕ)) → All P xs → All P ys → All P (xs ++ ys)
All-append P [] ys h k = k
All-append P (x ∷ xs) ys h k = (h.0, All-append P xs ys h.1 k)

push-then :
    (bytes more : List ℕ) (f g k : OutputDeltaFramer) (frames : List (List ℕ)) (omitted : ℕ)
    → IsPush bytes f g
    → IsFlow g more frames omitted k
    → IsFlow f (bytes ++ more) frames omitted k
push-then bytes more f g k frames omitted p q = record {
  whole = λ h.
      q.whole h
      ∙ ap (λ t. t ++ more) (p.whole (omega (arith, h, q.included)))
      ∙ append_assoc f.pending bytes more;
  total = omega (arith, p.total, q.total, length-append bytes more);
  included = omega (arith, p.included, q.included);
  capped = subst (λ limit. All (IsFrame limit) frames) p.same_limit q.capped;
  quota = q.quota ∙ p.same_frames;
  room = λ h.
      subst (λ m. length k.pending ≤ m) p.same_room
        (q.room (subst (λ m. length g.pending ≤ m) (sym p.same_room) (p.room h)));
}

flatten-append : (xs ys : List (List ℕ)) → flatten (xs ++ ys) ≡ flatten xs ++ flatten ys
unfolding flatten
flatten-append [] ys = refl
flatten-append (x ∷ xs) ys =
    ap (λ t. x ++ t) (flatten-append xs ys) ∙ sym (append_assoc x (flatten xs) (flatten ys))

drain-then :
    (bytes : List ℕ) (f g k : OutputDeltaFramer) (frames later : List (List ℕ)) (omitted more : ℕ)
    → IsDrain f frames omitted g
    → IsFlow g bytes later more k
    → IsFlow f bytes (frames ++ later) (omitted + more) k
drain-then bytes f g k frames later omitted more p q =
    let size =
      ap length (flatten-append frames later) ∙ length-append (flatten frames) (flatten later) in
    record {
      whole = λ h.
          ap (λ t. t ++ k.pending) (flatten-append frames later)
          ∙ append_assoc (flatten frames) (flatten later) k.pending
          ∙ ap (λ t. flatten frames ++ t) (q.whole (omega (arith, h)))
          ∙ sym (append_assoc (flatten frames) g.pending bytes)
          ∙ ap (λ t. t ++ bytes) (p.whole (omega (arith, h)));
      total = omega (arith, p.total, p.reported, q.total, size);
      included = omega (arith, p.included);
      capped =
          All-append (IsFrame f.max_frame_bytes) frames later p.capped
            (subst (λ limit. All (IsFrame limit) later) p.same_limit q.capped);
      quota = omega (arith, p.quota, q.quota, length-append frames later);
      room = λ h.
          subst (λ m. length k.pending ≤ m) p.same_room
            (q.room
              (subst (λ m. length g.pending ≤ m) (sym p.same_room) (omega (arith, h, p.shorter))));
    }

-- Over any calls of `push` and `drain` every byte is accounted for: it was delivered in a frame, is
-- still pending or was counted as omitted; where none was omitted, the frames and what is pending are
-- the bytes that went in, in order. Each frame has one byte at least and `max_frame_bytes` at most, no
-- more frames come than the quota allows, and the pending bytes stay within their bound.
pub flow-IsFlow :
    (events : List Event) (f : OutputDeltaFramer)
    → IsFlow f (input events) (flow events f).0 (flow events f).1 (flow events f).2
unfolding flow input flatten
flow-IsFlow [] f = record {
  whole = λ _. sym (append-nil f.pending);
  total = omega arith;
  included = omega arith;
  capped = tt;
  quota = omega arith;
  room = λ h. h;
}
flow-IsFlow (pushed bytes ∷ events) f =
    push-then bytes (input events) f (push bytes f) _ _ _ (push-IsPush bytes f)
      (flow-IsFlow events (push bytes f))
flow-IsFlow (drained final ∷ events) f =
    drain-then (input events) f (drain final f).2 _ (drain final f).0 _ (drain final f).1 _
      (drain-IsDrain final f) (flow-IsFlow events (drain final f).2)
