-- ===== src/Buffer.antt =====
-- scripts/codex_loop_runtime/output_buffer.py: the head-tail buffer of a process's output.
pub mod Stream
pub mod Compose
pub mod Chunks
mod Tests
use codex_loop.Base.{
  ℕ, ◌+◌, ◌-◌, ◌/◌, min, List, [], ◌∷◌, ◌++◌, length, take, drop, leb, ◌==◌, if◌then◌else◌, Result,
  ok, err,
}

-- Bytes are numbers; nothing here looks at them.
pub record HeadTailBuffer : Type 0 where
  pub max_bytes : ℕ
  pub head_budget : ℕ
  pub tail_budget : ℕ
  pub head : List ℕ
  pub tail : List ℕ
  pub omitted : ℕ

-- `__init__`; a Python `int` below 0 is refused there, and ℕ has none.
unfoldable pub init : ℕ → HeadTailBuffer
init max_bytes = record {
  max_bytes = max_bytes;
  head_budget = max_bytes / 2;
  tail_budget = max_bytes - max_bytes / 2;
  head = [];
  tail = [];
  omitted = 0;
}

unfoldable pub retained_bytes : HeadTailBuffer → ℕ
retained_bytes b = length b.head + length b.tail

unfoldable pub total_bytes : HeadTailBuffer → ℕ
unfolding retained_bytes
total_bytes b = retained_bytes b + b.omitted

-- The buffer with its head extended, and what did not fit.
unfoldable pub fill_head : HeadTailBuffer → List ℕ → HeadTailBuffer × List ℕ
fill_head b bytes =
    let remaining = b.head_budget - length b.head in
    let n = min remaining (length bytes) in
    (record b { head = b.head ++ take n bytes }, drop n bytes)

-- `data` is not empty.
unfoldable pub push_some : HeadTailBuffer → List ℕ → HeadTailBuffer
push_some b bytes =
    let remaining_tail = b.tail_budget - length b.tail in
    let excess = length bytes - remaining_tail in
    if leb excess (length b.tail)
    then record b { omitted = b.omitted + excess; tail = drop excess b.tail ++ bytes }
    else record b { omitted = b.omitted + excess; tail = drop (excess - length b.tail) bytes }

unfoldable pub push_tail : HeadTailBuffer → List ℕ → HeadTailBuffer
unfolding push_some
push_tail b [] = b
push_tail b (x ∷ xs) = push_some b (x ∷ xs)

unfoldable pub push_chunk : HeadTailBuffer → List ℕ → HeadTailBuffer
unfolding fill_head push_tail
push_chunk b chunk = let (b', rest) = fill_head b chunk in push_tail b' rest

-- The two ways to take in the other buffer's head.
unfoldable pub take_head : HeadTailBuffer → List ℕ → List ℕ → HeadTailBuffer × List ℕ
unfolding fill_head
take_head b [] source_head = (record b { head = source_head }, [])
take_head b (x ∷ xs) source_head = fill_head b source_head

unfoldable pub take_tail : HeadTailBuffer → List ℕ → List ℕ → HeadTailBuffer
unfolding push_tail
take_tail b [] source_tail = record b { tail = source_tail }
take_tail b (x ∷ xs) source_tail = push_tail b source_tail

pub data BufferError : Type 0 where
  budgets_differ : BufferError

unfoldable pub push_buffer : HeadTailBuffer → HeadTailBuffer → Result BufferError HeadTailBuffer
unfolding take_head take_tail push_tail
push_buffer b other =
    if b.max_bytes == other.max_bytes
    then (let (b', overflow) =
          take_head (record b { omitted = b.omitted + other.omitted }) b.head other.head in
        ok (
          if length other.tail == b'.tail_budget
          then record b' {
            omitted = b'.omitted + (length b'.tail + length overflow);
            tail = other.tail;
          }
          else (let c = push_tail b' overflow in take_tail c c.tail other.tail)))
    else err budgets_differ

unfoldable pub to_bytes : HeadTailBuffer → List ℕ
to_bytes b = b.head ++ b.tail
