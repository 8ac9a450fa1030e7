-- ===== src/Framing.antt =====
-- scripts/codex_loop_runtime/output_stream.py: the framer of a process's output. Bytes are numbers.
pub mod Boundary
pub mod Account
pub mod Flow
pub mod Delivery
pub mod Whole
mod Tests
use codex_loop.Base.{
  ℕ, zero, suc, ◌+◌, ◌-◌, ◌*◌, max, min, Bool, true, false, ◌&&◌, ◌||◌, not, Option, none, some,
  List, [], ◌∷◌, ◌++◌, length, take, drop, ltb, leb, ◌==◌, if◌then◌else◌, Result, ok, err, ◌>>=◌,
  ◌>>◌, reject,
}

-- How the first byte of a scalar starts it, as Python's UTF-8 decoder reads it.
pub data Lead : Type 0 where
  one two three four bad : Lead

unfoldable pub lead : ℕ → Lead
lead a =
    if ltb a 128
    then one
    else if ltb a 194
    then bad
    else if ltb a 224
    then two
    else if ltb a 240
    then three
    else if ltb a 245
    then four
    else bad

unfoldable pub is_continuation : ℕ → Bool
is_continuation b = leb 128 b && ltb b 192

-- The second byte of three or four: no overlong form, no surrogate, nothing above U+10FFFF.
unfoldable pub is_second : ℕ → ℕ → Bool
unfolding is_continuation
is_second a b =
    is_continuation b
    && not (a == 224 && ltb b 160)
    && not (a == 237 && leb 160 b)
    && not (a == 240 && ltb b 144)
    && not (a == 244 && leb 144 b)

-- `UnicodeDecodeError`: `exc.start`, `exc.end - exc.start`, and whether the data ended too early.
pub record DecodeError : Type 0 where
  pub start : ℕ
  pub invalid : ℕ
  pub incomplete : Bool

abbrev pub invalid_at : ℕ → ℕ → Option DecodeError
invalid_at at n = some (record { start = at; invalid = n; incomplete = false })

abbrev pub incomplete_at : ℕ → ℕ → Option DecodeError
incomplete_at at n = some (record { start = at; invalid = n; incomplete = true })

-- The five ways to go on after a first byte.
abbrev pub by_lead {ℓ} : {A : Type ℓ} → Lead → A → A → A → A → A → A
by_lead one p q r s t = p
by_lead two p q r s t = q
by_lead three p q r s t = r
by_lead four p q r s t = s
by_lead bad p q r s t = t

-- `segment.decode("utf-8")`: the first error.
unfoldable pub first_error : ℕ → List ℕ → Option DecodeError
unfolding lead is_continuation is_second
first_error at [] = none
first_error at (a ∷ []) =
    by_lead (lead a) none (incomplete_at at 1) (incomplete_at at 1) (incomplete_at at 1)
      (invalid_at at 1)
first_error at (a ∷ b ∷ []) =
    by_lead (lead a) (first_error (at + 1) (b ∷ []))
      (if is_continuation b then none else invalid_at at 1)
      (if is_second a b then incomplete_at at 2 else invalid_at at 1)
      (if is_second a b then incomplete_at at 2 else invalid_at at 1) (invalid_at at 1)
first_error at (a ∷ b ∷ c ∷ []) =
    by_lead (lead a) (first_error (at + 1) (b ∷ c ∷ []))
      (if is_continuation b then first_error (at + 2) (c ∷ []) else invalid_at at 1)
      (if is_second a b
        then if is_continuation c then none else invalid_at at 2
        else invalid_at at 1)
      (if is_second a b
        then if is_continuation c then incomplete_at at 3 else invalid_at at 2
        else invalid_at at 1)
      (invalid_at at 1)
first_error at (a ∷ b ∷ c ∷ d ∷ rest) =
    by_lead (lead a) (first_error (at + 1) (b ∷ c ∷ d ∷ rest))
      (if is_continuation b then first_error (at + 2) (c ∷ d ∷ rest) else invalid_at at 1)
      (if is_second a b
        then if is_continuation c then first_error (at + 3) (d ∷ rest) else invalid_at at 2
        else invalid_at at 1)
      (if is_second a b
        then if is_continuation c
          then if is_continuation d then first_error (at + 4) rest else invalid_at at 3
          else invalid_at at 2
        else invalid_at at 1)
      (invalid_at at 1)

-- The loop of `_utf8_boundary` on what is left of the last three bytes: how many of them belong to
-- complete scalars. Each round takes one byte at least, so that three rounds are enough.
unfoldable pub complete_bytes : ℕ → List ℕ → ℕ
unfolding first_error
complete_bytes zero segment = length segment
complete_bytes (suc n) segment = elim (first_error 0 segment) [
  | none ↦ length segment
  | some e ↦
      let next = e.start + max 1 e.invalid in
      let later = complete_bytes n (drop next segment) in
      if e.incomplete then e.start else next + later
]

unfoldable pub utf8_boundary : List ℕ → ℕ
unfolding complete_bytes
utf8_boundary bytes = let before = length bytes - 3 in before + complete_bytes 3 (drop before bytes)

-- `_safe_utf8_cut`
unfoldable pub safe_utf8_cut : List ℕ → ℕ → ℕ
unfolding utf8_boundary
safe_utf8_cut bytes limit = utf8_boundary (take (min (length bytes) limit) bytes)

pub record OutputDeltaFramer : Type 0 where
  pub max_frame_bytes : ℕ
  pub max_pending_bytes : ℕ
  pub max_frames_total : ℕ
  pub pending : List ℕ
  pub omitted_since_drain : ℕ
  pub remaining_frames : ℕ

pub data FramerError : Type 0 where
  frame_too_small pending_too_small no_frames : FramerError

-- `__init__`
unfoldable pub new_framer : ℕ → ℕ → ℕ → Result FramerError OutputDeltaFramer
new_framer max_frame_bytes max_pending_bytes max_frames_total = do
  reject (ltb max_frame_bytes 4) frame_too_small
  reject (ltb max_pending_bytes max_frame_bytes) pending_too_small
  reject (max_frames_total == 0) no_frames
  ok (record {
    max_frame_bytes = max_frame_bytes;
    max_pending_bytes = max_pending_bytes;
    max_frames_total = max_frames_total;
    pending = [];
    omitted_since_drain = 0;
    remaining_frames = max_frames_total;
  })

-- The branches of `push`, by the room that is left.
unfoldable pub push : List ℕ → OutputDeltaFramer → OutputDeltaFramer
unfolding utf8_boundary
push [] f = f
push (x ∷ xs) f =
    let bytes = x ∷ xs in
    let available = f.max_pending_bytes - length f.pending in
    let filled = f.pending ++ take available bytes in
    let complete = utf8_boundary filled in
    if available == 0
    then record f { omitted_since_drain = f.omitted_since_drain + length bytes }
    else if leb (length bytes) available
    then record f { pending = f.pending ++ bytes }
    else record f {
      pending = take complete filled;
      omitted_since_drain =
          f.omitted_since_drain + ((length bytes - available) + (length filled - complete));
    }

-- `cut`
unfoldable pub frame_cut : Bool → ℕ → List ℕ → ℕ
unfolding safe_utf8_cut
frame_cut final limit remaining =
    if final && leb (length remaining) limit
    then length remaining
    else safe_utf8_cut remaining limit

-- The loop of `drain`: the frames, the frames that may still come, and what of the bytes is left.
unfoldable pub frames_of : Bool → ℕ → ℕ → List ℕ → List (List ℕ) × ℕ × List ℕ
unfolding frame_cut
frames_of final limit zero bytes = ([], 0, bytes)
frames_of final limit (suc n) [] = ([], suc n, [])
frames_of final limit (suc n) (x ∷ xs) =
    let cut = frame_cut final limit (x ∷ xs) in
    let (frames, left, rest) = frames_of final limit n (drop cut (x ∷ xs)) in
    if cut == 0 then ([], suc n, x ∷ xs) else (take cut (x ∷ xs) ∷ frames, left, rest)

-- The end of `drain`: without frames left, what is pending is omitted.
unfoldable pub settle : ℕ → List ℕ → OutputDeltaFramer → OutputDeltaFramer × ℕ
settle zero pending f = (
  record f { pending = []; omitted_since_drain = 0; remaining_frames = 0 },
  f.omitted_since_drain + length pending,
)
settle (suc left) pending f = (
  record f { pending = pending; omitted_since_drain = 0; remaining_frames = suc left },
  f.omitted_since_drain,
)

-- The frames, the number of omitted bytes, and the new state.
unfoldable pub drain : Bool → OutputDeltaFramer → List (List ℕ) × ℕ × OutputDeltaFramer
unfolding utf8_boundary frames_of settle
drain final f =
    let complete = if final then length f.pending else utf8_boundary f.pending in
    let (frames, left, rest) =
      frames_of final f.max_frame_bytes f.remaining_frames (take complete f.pending) in
    let (f', omitted) = settle left (rest ++ drop complete f.pending) f in (frames, omitted, f')

-- The calls of a framer, in order.
pub data Event : Type 0 where
  pushed : List ℕ → Event
  drained : Bool → Event

-- All the frames, all the omitted bytes that were reported, and the state after the calls.
unfoldable pub flow : List Event → OutputDeltaFramer → List (List ℕ) × ℕ × OutputDeltaFramer
unfolding push drain
flow [] f = ([], 0, f)
flow (pushed bytes ∷ events) f = flow events (push bytes f)
flow (drained final ∷ events) f =
    let (frames, omitted, f') = drain final f in
    let (later, more, f'') = flow events f' in (frames ++ later, omitted + more, f'')

-- The calls that `frame_output` makes.
unfoldable pub calls_of : List (List ℕ) → List Event
calls_of [] = drained true ∷ []
calls_of (chunk ∷ chunks) = pushed chunk ∷ drained false ∷ calls_of chunks

unfoldable pub frame_output : ℕ → List (List ℕ) → Result FramerError (List (List ℕ))
unfolding new_framer calls_of flow
frame_output max_frame_bytes chunks = do
  f ← new_framer max_frame_bytes (512 * 1024) 10000
  ok (flow (calls_of chunks) f).0
