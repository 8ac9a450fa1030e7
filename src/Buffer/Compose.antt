-- ===== src/Buffer/Compose.antt =====
-- `push_buffer`, and buffers filled chunk by chunk, against the stream that went through them.
use mathlib.Core.List.{append-nil}
use codex_loop.Base.{
  ℕ, zero, suc, ◌+◌, ◌-◌, ◌/◌, ◌≤◌, min, ◌≡◌, refl, sym, ap, ap₂, ◌∙◌, inl, inr, true, List, [],
  ◌∷◌, ◌++◌, length, take, drop, ◌==◌, if◌then◌else◌, Bool-cases, ok, arith, length-append,
  length-drop, drop-append_ge,
}
use codex_loop.Buffer.{HeadTailBuffer, push_tail, take_head, take_tail, push_buffer}
use codex_loop.Buffer.Stream.{
  last, holding, of_stream, with_tail, with_tail_eq, push_tail_lem, fill_take, fill_drop,
}

last-append_full : (tb : ℕ) (x q : List ℕ) → tb ≤ length q → last tb (x ++ q) ≡ last tb q
last-append_full tb x q h =
    let e : length (x ++ q) - tb - length x ≡ length q - tb = omega (arith, length-append x q) in
    rw (drop-append_ge (length (x ++ q) - tb) x q (omega (arith, length-append x q))) (rw e)

pub last_all : (tb : ℕ) (q : List ℕ) → length q ≤ tb → last tb q ≡ q
last_all tb q h = let e : length q - tb ≡ 0 = omega arith in rw e

pub length-last : (tb : ℕ) (q : List ℕ) → length (last tb q) ≡ min tb (length q)
length-last tb q = omega (arith, length-drop (length q - tb) q)

-- A nonempty budget keeps a byte of a nonempty list.
last_empty : (tb : ℕ) (q : List ℕ) → 1 ≤ tb → last tb q ≡ [] → q ≡ []
last_empty tb [] h e = refl
last_empty tb (x ∷ xs) h e = absurd (omega (arith, length-last tb (x ∷ xs), ap length e))

take_tail_lem :
    (m : ℕ) (h r q t : List ℕ)
    → length q + 1 ≤ m - m / 2
    → last (m - m / 2) r ≡ t
    → take_tail (holding m h r) t q ≡ holding m h (r ++ q)
unfolding take_tail
take_tail_lem m h r q (x ∷ xs) small e = push_tail_lem m h r q
take_tail_lem m h r q [] small e =
    let empty : r ≡ [] = last_empty (m - m / 2) r (omega arith) e in
    rw empty (with_tail_eq m h (sym (last_all (m - m / 2) q (omega arith))) (omega arith))

-- The state after the other buffer's head was taken in: its omitted bytes are counted already.
abbrev joining : ℕ → List ℕ → List ℕ → List ℕ → HeadTailBuffer
joining m h r q =
    with_tail m h (last (m - m / 2) r) ((length r - (m - m / 2)) + (length q - (m - m / 2)))

abbrev finish_join : HeadTailBuffer → List ℕ → List ℕ → HeadTailBuffer
finish_join b overflow tail =
    if length tail == b.tail_budget
    then record b { omitted = b.omitted + (length b.tail + length overflow); tail = tail }
    else (let c = push_tail b overflow in take_tail c c.tail tail)

join_small :
    (m : ℕ) (h r ov q : List ℕ)
    → length q + 1 ≤ m - m / 2
    → (let c = push_tail (joining m h r q) ov in take_tail c c.tail (last (m - m / 2) q))
      ≡ holding m h (r ++ ov ++ q)
join_small m h r ov q small =
    let none_omitted : (length r - (m - m / 2)) + (length q - (m - m / 2))
        ≡ length r - (m - m / 2) =
      omega arith in
    rw (none_omitted, last_all (m - m / 2) q (omega arith), push_tail_lem m h r ov)
      (take_tail_lem m h (r ++ ov) q (last (m - m / 2) (r ++ ov)) small refl)

finish_join_lem :
    (m : ℕ) (h r ov q : List ℕ)
    → finish_join (joining m h r q) ov (last (m - m / 2) q) ≡ holding m h (r ++ ov ++ q)
finish_join_lem m h r ov q = elim (Bool-cases (length (last (m - m / 2) q) == (m - m / 2))) [
  | inl full ↦
      let enough : m - m / 2 ≤ length q = ground (arith, length-last (m - m / 2) q) in
      rw full (
        with_tail_eq m h (sym (last-append_full (m - m / 2) (r ++ ov) q enough))
          (omega (arith, length-last (m - m / 2) r, length-append (r ++ ov) q, length-append r ov)))
  | inr room ↦ rw room (join_small m h r ov q (ground (arith, length-last (m - m / 2) q)))
]

take-take : (n k : ℕ) (t : List ℕ) → n ≤ k → take n (take k t) ≡ take n t
take-take zero k t h = refl
take-take (suc n) zero t h = absurd (omega arith)
take-take (suc n) (suc k) [] h = refl
take-take (suc n) (suc k) (x ∷ t) h = ap (λ u. x ∷ u) (take-take n k t (omega arith))

pub drop-take : (n k : ℕ) (t : List ℕ) → n ≤ k → drop n (take k t) ++ drop k t ≡ drop n t
drop-take zero zero t h = refl
drop-take zero (suc k) [] h = refl
drop-take zero (suc k) (x ∷ t) h = ap (λ u. x ∷ u) (drop-take zero k t (omega arith))
drop-take (suc n) zero t h = absurd (omega arith)
drop-take (suc n) (suc k) [] h = refl
drop-take (suc n) (suc k) (x ∷ t) h = drop-take n k t (omega arith)

-- Of the second list only the first `k` bytes bear on the first `n` of both.
take-append_take : (n k : ℕ) (s t : List ℕ) → n ≤ k → take n (s ++ take k t) ≡ take n (s ++ t)
take-append_take n k [] t h = take-take n k t h
take-append_take zero k (x ∷ s) t h = refl
take-append_take (suc n) k (x ∷ s) t h = ap (λ u. x ∷ u) (take-append_take n k s t (omega arith))

drop-append_take :
    (n k : ℕ) (s t : List ℕ) → n ≤ k → drop n (s ++ take k t) ++ drop k t ≡ drop n (s ++ t)
drop-append_take n k [] t h = drop-take n k t h
drop-append_take zero k (x ∷ s) t h = ap (λ u. x ∷ u) (drop-append_take zero k s t (omega arith))
drop-append_take (suc n) k (x ∷ s) t h = drop-append_take n k s t (omega arith)

-- Taking in the head of the other buffer, for the buffers of the streams `s` and `t`.
join_empty_head :
    (n : ℕ) (s t : List ℕ)
    → take n s ≡ []
    → (take n t ≡ take n (s ++ t)) × ((drop n s ++ []) ++ drop n t ≡ drop n (s ++ t))
join_empty_head zero s t e = (refl, rw (append-nil s))
join_empty_head (suc n) [] t e = (refl, refl)
join_empty_head (suc n) (x ∷ s) t e = cc

push_buffer_head :
    (m : ℕ) (s t h : List ℕ)
    → take (m / 2) s ≡ h
    → (let (b', overflow) =
          take_head
            (record (of_stream m s) { omitted = (of_stream m s).omitted + (of_stream m t).omitted })
            h
            (take (m / 2) t) in
        finish_join b' overflow (last (m - m / 2) (drop (m / 2) t)))
      ≡ of_stream m (s ++ t)
unfolding take_head
push_buffer_head m s t [] e =
    let joined = join_empty_head (m / 2) s t e in
    finish_join_lem m (take (m / 2) t) (drop (m / 2) s) [] (drop (m / 2) t)
    ∙ ap₂ (holding m) joined.0 joined.1
push_buffer_head m s t (x ∷ xs) e =
    finish_join_lem m _ (drop (m / 2) s) _ (drop (m / 2) t)
    ∙ ap₂ (holding m)
        (fill_take (m / 2) s (take (m / 2) t) ∙ take-append_take (m / 2) (m / 2) s t (omega arith))
        (ap (λ u. u ++ drop (m / 2) t) (fill_drop (m / 2) s (take (m / 2) t))
          ∙ drop-append_take (m / 2) (m / 2) s t (omega arith))

-- The buffer of a stream and the buffer of what came later give the buffer of the whole stream.
pub push_buffer-of_stream :
    (m : ℕ) (s t : List ℕ) → push_buffer (of_stream m s) (of_stream m t) ≡ ok (of_stream m (s ++ t))
unfolding push_buffer
push_buffer-of_stream m s t =
    let same : (m == m) ≡ true = ground arith in
    rw same (ap ok (push_buffer_head m s t (take (m / 2) s) refl))
