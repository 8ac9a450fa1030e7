-- ===== src/Collab/Join/Rows.antt =====
-- scripts/codex_loop_runtime/local_collaboration.py: what the first transaction of `dynamic_join` leaves in
-- the rows of the runs.
use codex_loop.Base.{
  ◌≡◌, ◌⊎◌, refl, sym, ap, ◌∙◌, inl, inr, true, Bool, Bool-cases, ◌||◌, Option, none, some, List,
  [], ◌∷◌, map, Result, ok, err, ok_injective, some_injective,
}
use codex_loop.Collab.{Run, CollabError}
use codex_loop.Collab.Join.{Row, on_first, replaced, behind}

-- The operation of a later call keeps a row that an earlier call left, which the first query finds then
-- or which is as before. In between, `between` changes nothing that the queries see.
module _ (own shared : Run → Bool) (first later : Row → Result CollabError Row)
    (between : Row → Row) (own_between : (row : Row) → own (between row).1 ≡ own row.1)
    (shared_between : (row : Row) → shared (between row).1 ≡ shared row.1)
    (again : (row x : Row)
      → (own row.1 || shared row.1) ≡ true
      → first row ≡ ok x
      → (later (between x) ≡ ok (between x)) × ((own x.1 ≡ true) ⊎ (x.1 ≡ row.1))) where
  first_kept :
      (row : Row) (rows result : List Row)
      → replaced rows (first row) ≡ ok result
      → (x : Row) × (first row ≡ ok x) × (result ≡ x ∷ rows)
  first_kept row rows result h = go (first row) refl
    where
      go :
          (m : Result CollabError Row)
          → first row ≡ m
          → (x : Row) × (first row ≡ ok x) × (result ≡ x ∷ rows)
      go (ok x) e = (x, e, sym (ok_injective (rw e at h)))
      go (err f) e = cc (rw e at h)

  behind_kept :
      (row : Row) (m : Option (Result CollabError (List Row))) (result : List Row)
      → behind row m ≡ some (ok result)
      → (rest : List Row) × (m ≡ some (ok rest)) × (result ≡ row ∷ rest)
  behind_kept row none result h = cc
  behind_kept row (some (ok rest)) result h = (rest, refl, sym (ok_injective (some_injective h)))
  behind_kept row (some (err e)) result h = absurd (cc (some_injective h))

  -- After the first query.
  pub own_again :
      (rows result : List Row)
      → on_first own first rows ≡ some (ok result)
      → on_first own later (map between result) ≡ some (ok (map between result))
  unfolding on_first
  own_again [] result h = cc
  own_again (row ∷ rows) result h = elim (Bool-cases (own row.1)) [
    | inl hit ↦
        let kept = first_kept row rows result (some_injective (rw (on_first, hit) at h)) in
        let then = again row kept.0 (rw hit refl) kept.1 in
        rw (kept.2, on_first, own_between kept.0, own_then kept.0 row hit then.1, then.0) refl
    | inr miss ↦
        let kept = behind_kept row (on_first own first rows) result (rw (on_first, miss) at h) in
        rw (kept.2, on_first, own_between row, miss, own_again rows kept.0 kept.1) refl
  ]
    where
      own_then :
          (x row : Row) → own row.1 ≡ true → (own x.1 ≡ true) ⊎ (x.1 ≡ row.1) → own x.1 ≡ true
      own_then x row hit (inl there) = there
      own_then x row hit (inr same) = ap own same ∙ hit

  behind-none :
      (row : Row) (m : Option (Result CollabError (List Row))) → behind row m ≡ none → m ≡ none
  behind-none row none h = refl
  behind-none row (some (ok rest)) h = cc
  behind-none row (some (err e)) h = cc

  none_again :
      (rows : List Row)
      → on_first own first rows ≡ none
      → on_first own later (map between rows) ≡ none
  unfolding on_first
  none_again [] h = refl
  none_again (row ∷ rows) h = elim (Bool-cases (own row.1)) [
    | inl hit ↦ absurd (cc (rw (on_first, hit) at h))
    | inr miss ↦
        rw
          (
            on_first,
            own_between row,
            miss,
            none_again rows (behind-none row _ (rw (on_first, miss) at h)),
          )
          refl
  ]

  -- After the second, where the first found none.
  pub shared_again :
      (rows result : List Row)
      → on_first own first rows ≡ none
      → on_first shared first rows ≡ some (ok result)
      → (on_first own later (map between result) ≡ some (ok (map between result)))
        ⊎ ((on_first own later (map between result) ≡ none)
            × (on_first shared later (map between result) ≡ some (ok (map between result))))
  unfolding on_first
  shared_again [] result n h = cc
  shared_again (row ∷ rows) result n h = elim (Bool-cases (own row.1)) [
    | inl hit ↦ absurd (cc (rw (on_first, hit) at n))
    | inr other ↦ elim (Bool-cases (shared row.1)) [
      | inl found ↦
          let kept = first_kept row rows result (some_injective (rw (on_first, found) at h)) in
          let then = again row kept.0 (rw (other, found) refl) kept.1 in
          elim then.1 [
            | inl mine ↦ inl (rw (kept.2, on_first, own_between kept.0, mine, then.0) refl)
            | inr same ↦ inr (
              rw
                  (
                    kept.2,
                    on_first,
                    own_between kept.0,
                    ap own same ∙ other,
                    none_again rows (behind-none row _ (rw (on_first, other) at n)),
                  )
                  refl,
              rw (kept.2, on_first, shared_between kept.0, ap shared same ∙ found, then.0) refl,
            )
          ]
      | inr lost ↦
          let kept =
            behind_kept row (on_first shared first rows) result (rw (on_first, lost) at h) in
          elim (shared_again rows kept.0 (behind-none row _ (rw (on_first, other) at n)) kept.1) [
            | inl mine ↦ inl (rw (kept.2, on_first, own_between row, other, mine) refl)
            | inr same ↦ inr (
              rw (kept.2, on_first, own_between row, other, same.0) refl,
              rw (kept.2, on_first, shared_between row, lost, same.1) refl,
            )
          ]
    ]
  ]
