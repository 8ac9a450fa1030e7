-- ===== src/Buffer/Tests.antt =====
-- Buffers of four bytes (scripts/codex_loop_runtime/output_buffer.py).
use mathlib.Core.List.{flatten}
use codex_loop.Base.{ℕ, ◌≡◌, refl, ◌≤◌, List, [], ◌∷◌, ◌++◌, length, min, ok}
use codex_loop.Buffer.{init, retained_bytes, total_bytes, push_chunk, push_buffer, to_bytes}
use codex_loop.Buffer.Stream.{of_stream}
use codex_loop.Buffer.Compose.{push_buffer-of_stream}
use codex_loop.Buffer.Chunks.{push_chunks, push_chunks-init, push_chunks_accounts}

abbrev early : List ℕ
early = 1 ∷ 2 ∷ 3 ∷ []

abbrev late : List ℕ
late = 4 ∷ 5 ∷ 6 ∷ 7 ∷ []

push_buffer-of_stream_example :
    push_buffer (of_stream 4 early) (of_stream 4 late) ≡ ok (of_stream 4 (early ++ late))
push_buffer-of_stream_example = push_buffer-of_stream 4 early late

push_chunks-init_example :
    push_chunks (init 4) (early ∷ [] ∷ late ∷ []) ≡ of_stream 4 (flatten (early ∷ [] ∷ late ∷ []))
push_chunks-init_example = push_chunks-init 4 (early ∷ [] ∷ late ∷ [])

abbrev filled_bytes : List ℕ
filled_bytes = to_bytes (push_chunks (init 4) (early ∷ late ∷ []))

filled : filled_bytes ≡ 1 ∷ 2 ∷ 6 ∷ 7 ∷ []
unfolding to_bytes push_chunks init push_chunk
filled = refl

push_chunks_accounts_example :
    (retained_bytes (push_chunks (init 4) (early ∷ late ∷ []))
      ≡ min 4 (length (flatten (early ∷ late ∷ []))))
    × (total_bytes (push_chunks (init 4) (early ∷ late ∷ []))
        ≡ length (flatten (early ∷ late ∷ [])))
    × (length (flatten (early ∷ late ∷ [])) ≤ 4
        → to_bytes (push_chunks (init 4) (early ∷ late ∷ [])) ≡ flatten (early ∷ late ∷ []))
push_chunks_accounts_example = push_chunks_accounts 4 (early ∷ late ∷ [])
