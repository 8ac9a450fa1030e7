-- ===== src/Buffer/Chunks.antt =====
-- A head-tail buffer that is filled chunk by chunk (scripts/codex_loop_runtime/output_buffer.py).
use mathlib.Core.List.{flatten, append-nil, append_assoc}
use codex_loop.Base.{
  ℕ, ◌-◌, ◌/◌, ◌≤◌, min, ◌≡◌, sym, ap, ◌∙◌, List, [], ◌∷◌, ◌++◌, length, take, drop, arith,
  length-drop, length-take, take_all, drop_all,
}
use codex_loop.Buffer.{HeadTailBuffer, init, retained_bytes, total_bytes, push_chunk, to_bytes}
use codex_loop.Buffer.Stream.{of_stream, with_tail_eq, push_chunk-of_stream}
use codex_loop.Buffer.Compose.{last_all, length-last, drop-take}

-- Pushing chunk after chunk.
unfoldable pub push_chunks : HeadTailBuffer → List (List ℕ) → HeadTailBuffer
push_chunks b [] = b
push_chunks b (c ∷ cs) = push_chunks (push_chunk b c) cs

push_chunks-of_stream :
    (m : ℕ) (s : List ℕ) (cs : List (List ℕ))
    → push_chunks (of_stream m s) cs ≡ of_stream m (s ++ flatten cs)
unfolding push_chunks flatten
push_chunks-of_stream m s [] = rw (append-nil s)
push_chunks-of_stream m s (c ∷ cs) =
    rw (push_chunk-of_stream m s c)
      (push_chunks-of_stream m (s ++ c) cs ∙ ap (of_stream m) (append_assoc s c (flatten cs)))

init-of_stream : (m : ℕ) → init m ≡ of_stream m []
unfolding init
init-of_stream m =
    let no_head : take {A = ℕ} (m / 2) [] ≡ [] = take_all (m / 2) [] (omega arith) in
    let no_rest : drop {A = ℕ} (m / 2) [] ≡ [] = drop_all (m / 2) [] (omega arith) in
    rw (no_head, no_rest)
      (with_tail_eq m [] (sym (last_all (m - m / 2) [] (omega arith))) (omega arith))

-- However the output of a process is cut into chunks, the buffer that they fill holds the first
-- `max_bytes / 2` bytes of the whole output, the last `max_bytes - max_bytes / 2` of the rest, and
-- the number of the bytes between.
pub push_chunks-init :
    (m : ℕ) (cs : List (List ℕ)) → push_chunks (init m) cs ≡ of_stream m (flatten cs)
push_chunks-init m cs = rw (init-of_stream m) (push_chunks-of_stream m [] cs)

-- A buffer filled by chunks retains as much as its budget allows and no more, and counts every byte:
-- retained and omitted bytes add up to the output; an output within the budget is retained whole.
pub push_chunks_accounts :
    (m : ℕ) (cs : List (List ℕ))
    → let b = push_chunks (init m) cs in
      (retained_bytes b ≡ min m (length (flatten cs)))
      × (total_bytes b ≡ length (flatten cs))
      × (length (flatten cs) ≤ m → to_bytes b ≡ flatten cs)
unfolding total_bytes to_bytes
push_chunks_accounts m cs = rw (push_chunks-init m cs) (
  omega (
    arith,
    length-take (m / 2) (flatten cs),
    length-drop (m / 2) (flatten cs),
    length-last (m - m / 2) (drop (m / 2) (flatten cs)),
  ),
  omega (
    arith,
    length-take (m / 2) (flatten cs),
    length-drop (m / 2) (flatten cs),
    length-last (m - m / 2) (drop (m / 2) (flatten cs)),
  ),
  λ h.
      rw
        (last_all (m - m / 2) (drop (m / 2) (flatten cs))
          (omega (arith, length-drop (m / 2) (flatten cs))))
        (drop-take 0 (m / 2) (flatten cs) (omega arith)),
)
