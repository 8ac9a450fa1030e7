-- ===== src/Buffer/Stream.antt =====
-- What a head-tail buffer holds of the stream of bytes that went through it.
use Prim.Native.Nat.{min}
use codex_loop.Base.{
  ℕ, ◌+◌, ◌-◌, ◌/◌, ◌≤◌, ◌≡◌, refl, sym, ap, ap₂, ◌∙◌, inl, inr, List, [], ◌∷◌, ◌++◌, length, take,
  drop, leb, Bool-cases, arith, length-append, length-drop, leb→le, length-take, take_all, drop_all,
  drop-drop, take-append_le, drop-append_le, take-append_ge, drop-append_ge,
}
use mathlib.Core.List.{append-nil}
use codex_loop.Buffer.{HeadTailBuffer, push_some, push_tail, push_chunk}

-- The last `n` bytes.
abbrev pub last : ℕ → List ℕ → List ℕ
last n xs = drop (length xs - n) xs

-- A buffer with the head `h`, when the bytes `r` came after it.
abbrev pub holding : ℕ → List ℕ → List ℕ → HeadTailBuffer
holding m h r = record {
  max_bytes = m;
  head_budget = m / 2;
  tail_budget = m - m / 2;
  head = h;
  tail = last (m - m / 2) r;
  omitted = length r - (m - m / 2);
}

-- The abstract view: the first half of the budget keeps the start of the stream, the second half
-- its end, and all between is only counted.
abbrev pub of_stream : ℕ → List ℕ → HeadTailBuffer
of_stream m s = holding m (take (m / 2) s) (drop (m / 2) s)

module _ (m : ℕ) (h : List ℕ) where
  abbrev pub with_tail : List ℕ → ℕ → HeadTailBuffer
  with_tail t o = record {
    max_bytes = m;
    head_budget = m / 2;
    tail_budget = m - m / 2;
    head = h;
    tail = t;
    omitted = o;
  }

  pub with_tail_eq : {t u : List ℕ} {o p : ℕ} → t ≡ u → o ≡ p → with_tail t o ≡ with_tail u p
  with_tail_eq e f = λ i. with_tail (e i) (f i)

last-append_near :
    (tb : ℕ) (r d : List ℕ)
    → length d - (tb - (length r - (length r - tb))) ≤ length r - (length r - tb)
    → drop (length d - (tb - (length r - (length r - tb)))) (last tb r) ++ d ≡ last tb (r ++ d)
last-append_near tb r d h =
    let x : ℕ = length d - (tb - (length r - (length r - tb))) in
    let e : length (r ++ d) - tb ≡ (length r - tb) + x = omega (arith, length-append r d) in
    rw e (
      rw (drop-append_le ((length r - tb) + x) r d (omega arith))
        (ap (λ t. t ++ d) (drop-drop x (length r - tb) r)))

last-append_far :
    (tb : ℕ) (r d : List ℕ)
    → length r - (length r - tb) ≤ length d - (tb - (length r - (length r - tb)))
    → drop (length d - (tb - (length r - (length r - tb))) - (length r - (length r - tb))) d
      ≡ last tb (r ++ d)
last-append_far tb r d h =
    let e : length (r ++ d) - tb - length r
        ≡ length d - (tb - (length r - (length r - tb))) - (length r - (length r - tb)) =
      omega (arith, length-append r d) in
    rw (drop-append_ge (length (r ++ d) - tb) r d (omega (arith, length-append r d))) (rw e refl)

omitted-append :
    (tb : ℕ) (r d : List ℕ)
    → (length r - tb) + (length d - (tb - (length r - (length r - tb)))) ≡ length (r ++ d) - tb
omitted-append tb r d = omega (arith, length-append r d)

push_some_lem : (m : ℕ) (h r d : List ℕ) → push_some (holding m h r) d ≡ holding m h (r ++ d)
unfolding push_some
push_some_lem m h r d =
    rw (length-drop (length r - (m - m / 2)) r)
      (elim (Bool-cases (
        leb (length d - (m - m / 2 - (length r - (length r - (m - m / 2)))))
          (length r - (length r - (m - m / 2))))) [
            | inl near ↦ rw near (
                with_tail_eq m h (last-append_near (m - m / 2) r d (ground arith))
                  (omitted-append (m - m / 2) r d))
            | inr far ↦ rw far (
                with_tail_eq m h (last-append_far (m - m / 2) r d (ground arith))
                  (omitted-append (m - m / 2) r d))
          ])

pub push_tail_lem : (m : ℕ) (h r d : List ℕ) → push_tail (holding m h r) d ≡ holding m h (r ++ d)
unfolding push_tail
push_tail_lem m h r [] = rw (append-nil r)
push_tail_lem m h r (x ∷ xs) = push_some_lem m h r (x ∷ xs)

take-min : (k : ℕ) (d : List ℕ) → take (min k (length d)) d ≡ take k d
take-min k d = elim (Bool-cases (leb k (length d))) [
  | inl le ↦ let e : min k (length d) ≡ k = ground arith in rw e
  | inr gt ↦
      let e : min k (length d) ≡ length d = ground arith in
      rw e (take_all (length d) d (omega arith) ∙ sym (take_all k d (ground arith)))
]

drop-min : (k : ℕ) (d : List ℕ) → drop (min k (length d)) d ≡ drop k d
drop-min k d = elim (Bool-cases (leb k (length d))) [
  | inl le ↦ let e : min k (length d) ≡ k = ground arith in rw e
  | inr gt ↦
      let e : min k (length d) ≡ length d = ground arith in
      rw e (drop_all (length d) d (omega arith) ∙ sym (drop_all k d (ground arith)))
]

-- The head after `fill_head`, and what is left over, for a head that holds the start of `s`.
pub fill_take :
    (n : ℕ) (s d : List ℕ)
    → take n s ++ take (min (n - length (take n s)) (length d)) d ≡ take n (s ++ d)
fill_take n s d = rw (take-min (n - length (take n s)) d) (elim (Bool-cases (leb n (length s))) [
  | inl full ↦
      let e : n - length (take n s) ≡ 0 =
        omega (arith, length-take n s, leb→le n (length s) full) in
      rw (e, take-append_le n s d (leb→le n (length s) full)) (append-nil (take n s))
  | inr room ↦
      let e : take n s ≡ s = take_all n s (ground arith) in
      rw e (sym (take-append_ge n s d (ground arith)))
])

pub fill_drop :
    (n : ℕ) (s d : List ℕ)
    → drop n s ++ drop (min (n - length (take n s)) (length d)) d ≡ drop n (s ++ d)
fill_drop n s d = rw (drop-min (n - length (take n s)) d) (elim (Bool-cases (leb n (length s))) [
  | inl full ↦
      let e : n - length (take n s) ≡ 0 =
        omega (arith, length-take n s, leb→le n (length s) full) in
      rw (e, drop-append_le n s d (leb→le n (length s) full)) refl
  | inr room ↦
      let e : take n s ≡ s = take_all n s (ground arith) in
      rw (e, drop_all n s (ground arith)) (sym (drop-append_ge n s d (ground arith)))
])

-- A chunk pushed into the buffer of a stream gives the buffer of the longer stream.
pub push_chunk-of_stream :
    (m : ℕ) (s d : List ℕ) → push_chunk (of_stream m s) d ≡ of_stream m (s ++ d)
unfolding push_chunk
push_chunk-of_stream m s d =
    push_tail_lem m _ _ _ ∙ ap₂ (holding m) (fill_take (m / 2) s d) (fill_drop (m / 2) s d)
