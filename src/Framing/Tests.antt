-- ===== src/Framing/Tests.antt =====
-- Framers of small frames (scripts/codex_loop_runtime/output_stream.py).
use codex_loop.Base.{ℕ, ◌*◌, ◌≡◌, refl, true, false, List, [], ◌∷◌, ok}
use codex_loop.Framing.{
  OutputDeltaFramer, Event, pushed, drained, utf8_boundary, flow, frame_output,
}
use codex_loop.Framing.Flow.{input, IsFlow, flow-IsFlow}
use codex_loop.Framing.Whole.{IsFramed, frame_output-IsFramed}

-- `a`, the first two bytes of `€`, and its last byte.
abbrev early : List ℕ
early = 97 ∷ 226 ∷ 130 ∷ []

abbrev late : List ℕ
late = 172 ∷ 98 ∷ []

abbrev small : OutputDeltaFramer
small = record {
  max_frame_bytes = 4;
  max_pending_bytes = 4;
  max_frames_total = 2;
  pending = [];
  omitted_since_drain = 0;
  remaining_frames = 2;
}

abbrev calls : List Event
calls = pushed early ∷ drained false ∷ pushed late ∷ drained true ∷ []

-- The scalar is not cut.
boundary_of_early : utf8_boundary early ≡ 1
unfolding utf8_boundary
boundary_of_early = refl

flow-IsFlow_example :
    IsFlow small (input calls) (flow calls small).0 (flow calls small).1 (flow calls small).2
flow-IsFlow_example = flow-IsFlow calls small

abbrev framed : List (List ℕ)
framed = (97 ∷ []) ∷ (226 ∷ 130 ∷ 172 ∷ 98 ∷ []) ∷ []

framing_runs : frame_output 4 (early ∷ late ∷ []) ≡ ok framed
unfolding frame_output
framing_runs = refl

frame_output-IsFramed_example : IsFramed 4 (512 * 1024) (early ∷ late ∷ []) framed
frame_output-IsFramed_example = frame_output-IsFramed 4 (early ∷ late ∷ []) framing_runs
