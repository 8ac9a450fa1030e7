-- ===== src/Collab/Join/Again.antt =====
-- scripts/codex_loop_runtime/local_collaboration.py: a call of `dynamic_join` that is repeated before its
-- claim.
use codex_loop.Base.{
  map, Result, ℕ, ◌≤◌, ◌≡◌, ◌⊎◌, refl, ap, subst, ◌∙◌, inl, inr, String, Bool, true, ◌||◌, not,
  Option-cases, some, List, ◌∷◌, str_eq, eq_refl, ok, Post, Post-ok, Post-reject, Post-step,
  Post-bind, Post-map,
}
use codex_loop.Collab.{Run, CollabError}
use codex_loop.Collab.Checks.{text, task}
use codex_loop.Collab.Claim.{Outside}
use codex_loop.Collab.Join.{
  Row, has_own, has_place, enter, enter_row, is_own, is_open, on_first, open_run, join_new, or_else,
  join_rows, join_slots, connected_row,
}
use codex_loop.Collab.Leases.{connect}
use codex_loop.Collab.Join.Connected.{has_place-connect, is_own-connect, is_open-connect}
use codex_loop.Collab.Join.Rows.{own_again, shared_again}
use codex_loop.Collab.Join.Entered.{
  Entered, own_place, enter-Entered, enter-again, enter_row-again, own_unplanned, found_unplanned,
}

-- In the terms of the two queries.
rows_again :
    (world : Outside) (worker strategy title instructions title' instructions' : String)
    (now later : ℕ)
    → now ≤ later
    → (row x : Row) → (is_own worker row.1 || is_open row.1) ≡ true
    → enter_row world worker strategy title instructions now row ≡ ok x
    → (enter_row world worker strategy title' instructions' later (connected_row later x)
        ≡ ok (connected_row later x))
      × ((is_own worker x.1 ≡ true) ⊎ (x.1 ≡ row.1))
rows_again world worker strategy title instructions title' instructions' now later le row x found
      h =
    let kept =
      (enter_row-again world worker strategy title instructions title' instructions' now later row
          le).holds
        x h in
    (
      kept.0,
      elim kept.1.fresh [
        | inl own ↦
            inl
              (own_unplanned worker x.1 (kept.1.unplanned ∙ found_unplanned worker row.1 found) own)
        | inr same ↦ inr same
      ],
    )

-- A connection shows the queries the same.
same_queries :
    (worker : String) (later : ℕ)
    → ((row : Row) → is_own worker (connected_row later row).1 ≡ is_own worker row.1)
      × ((row : Row) → is_open (connected_row later row).1 ≡ is_open row.1)
same_queries worker later =
    (λ row. is_own-connect worker later row.1, λ row. is_open-connect later row.1)

first_found :
    (found : Run → Bool) (f : Row → Result CollabError Row) (row : Row) (rows : List Row)
    → found row.1 ≡ true
    → f row ≡ ok row
    → on_first found f (row ∷ rows) ≡ some (ok (row ∷ rows))
unfolding on_first
first_found found f row rows hit e = rw (on_first, hit, e) refl

enter_row-fits :
    (world : Outside) (worker strategy title instructions : String) (later : ℕ) (t : Run)
    → t.worktree_parent ≡ world.parent
    → has_place worker later (connect later t) ≡ true
    → enter_row world worker strategy title instructions later (connected_row later (strategy, t))
      ≡ ok (connected_row later (strategy, t))
unfolding enter_row connect
enter_row-fits world worker strategy title instructions later t parent place =
    rw
      (
        eq_refl strategy,
        ap (λ p. str_eq p world.parent) parent ∙ eq_refl world.parent,
        enter-again world worker title instructions later (connect later t) place,
      )
      refl

-- Who enters a new run gets a slot in it.
Entered-has_own :
    (world : Outside) (base worker : String) (now : ℕ) (t : Run)
    → Entered worker now (open_run world base) t
    → has_own worker t ≡ true
unfolding has_place
Entered-has_own world base worker now t e = elim e.fresh [
  | inl own ↦ own
  | inr same ↦ absurd (cc (subst (λ r. has_place worker now r ≡ true) same e.place))
]

new_again :
    (world : Outside) (base worker strategy title instructions title' instructions' : String)
    (now later : ℕ) (rows : List Row)
    → Post
        (λ (result : List Row).
          on_first
            (is_own worker)
            (enter_row world worker strategy title' instructions' later)
            (map (λ row. connected_row later row) result)
          ≡ some (ok (map (λ row. connected_row later row) result)))
        (join_new world base worker strategy title instructions now rows)
unfolding join_new
new_again world base worker strategy title instructions title' instructions' now later rows =
    Post-reject (not (str_eq strategy "detached" || str_eq strategy "branches")) _ _ (λ known.
      Post-bind (enter world worker title instructions now (open_run world base)) _
        (enter-Entered world worker title instructions now (open_run world base))
        (λ t e. Post-ok ((strategy, t) ∷ rows) (opened t e)))
  where
    opened :
        (t : Run)
        → Entered worker now (open_run world base) t
        → on_first
            (is_own worker)
            (enter_row world worker strategy title' instructions' later)
            (map (λ row. connected_row later row) ((strategy, t) ∷ rows))
          ≡ some (ok (map (λ row. connected_row later row) ((strategy, t) ∷ rows)))
    opened t e =
        let own = Entered-has_own world base worker now t e in
        first_found (is_own worker) (enter_row world worker strategy title' instructions' later)
          (connected_row later (strategy, t)) (map (λ row. connected_row later row) rows)
          (is_own-connect worker later t ∙ own_unplanned worker t e.unplanned own)
          (enter_row-fits world worker strategy title' instructions' later t e.parent
            (has_place-connect worker later later t (own_place worker later t own)))

-- The second call, whatever the first did.
join_rows-Again :
    (world : Outside)
    (base goal given strategy title instructions base' title' instructions' : String)
    (now later : ℕ) (rows : List Row)
    → now ≤ later
    → Post
        (λ result.
          join_slots world base' goal given strategy title' instructions' later result
          ≡ ok (map (λ row. connected_row later row) result))
        (join_rows world base goal given strategy title instructions now rows)
unfolding join_rows join_slots
join_rows-Again world base goal given strategy title instructions base' title' instructions' now
      later rows le =
    Post-step (task given) _
      (λ worker named. Post-step (text 200 goal) _ (λ g told. joins worker named g told))
  where
    Again : List Row → Type 0
    Again result =
        join_slots world base' goal given strategy title' instructions' later result
        ≡ ok (map (λ row. connected_row later row) result)

    joins :
        (worker : String)
        → task given ≡ ok worker
        → (g : String) → text 200 goal ≡ ok g
        → Post Again (
            or_else
              (on_first
                (is_own worker)
                (enter_row world worker strategy title instructions now)
                rows)
              (or_else
                (on_first is_open (enter_row world worker strategy title instructions now) rows)
                (join_new world base worker strategy title instructions now rows)))
    joins worker named g told =
        let enters = enter_row world worker strategy title instructions now in
        let queries = same_queries worker later in
        let again =
          rows_again world worker strategy title instructions title' instructions' now later le in
        elim (Option-cases (on_first (is_own worker) enters rows)) [
          | inr (m, own) ↦ rw own (record {
            holds = λ x e.
                rw
                  (
                    join_slots,
                    join_rows,
                    named,
                    told,
                    own_again (is_own worker) is_open enters
                        (enter_row world worker strategy title' instructions' later)
                        (λ row. connected_row later row) queries.0 queries.1 again rows x
                        (own ∙ ap some e),
                  )
                  refl;
          })
          | inl no_own ↦ elim (Option-cases (on_first is_open enters rows)) [
            | inr (m, found) ↦
                rw (no_own, found)
                  (record {
                    holds = λ x e.
                        elim (shared_again (is_own worker) is_open enters
                          (enter_row world worker strategy title' instructions' later)
                          (λ row. connected_row later row) queries.0 queries.1 again rows x no_own
                          (found ∙ ap some e)) [
                            | inl own ↦ rw (join_slots, join_rows, named, told, own) refl
                            | inr same ↦
                                rw (join_slots, join_rows, named, told, same.0, same.1) refl
                          ];
                  })
            | inl none_open ↦
                rw (no_own, none_open)
                  (Post-map
                    (new_again world base worker strategy title instructions title' instructions'
                      now later rows)
                    (λ x own. rw (join_slots, join_rows, named, told, own) refl))
          ]
        ]

-- The connection and the transaction of `dynamic_join`, which find or add the slot before the claim that
-- the call ends with, may be repeated once they succeeded, at the same time or later, on the runs as they
-- left them, for the same repository, branch, goal, strategy and worktree parent and with any title and
-- instructions: they succeed and change nothing but what a connection does by itself, which is to note a
-- first sign of life of those who never gave one. So they open neither a second run nor a second slot,
-- whether the worker had a slot, was left to choose or reclaim one, got a new slot or opened the run.
pub join_slots-again :
    (world : Outside)
    (base goal given strategy title instructions base' title' instructions' : String)
    (now later : ℕ) (rows result : List Row)
    → now ≤ later
    → join_slots world base goal given strategy title instructions now rows ≡ ok result
    → join_slots world base' goal given strategy title' instructions' later result
      ≡ ok (map (λ row. (row.0, connect later row.1)) result)
unfolding join_slots
join_slots-again world base goal given strategy title instructions base' title' instructions' now
      later rows result le h =
    (join_rows-Again world base goal given strategy title instructions base' title' instructions'
        now later (map (λ row. connected_row now row) rows) le).holds
      result h
