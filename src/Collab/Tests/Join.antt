-- ===== src/Collab/Tests/Join.antt =====
-- Two workers come to a run without a plan (scripts/codex_loop_runtime/local_collaboration.py).
use codex_loop.Base.{map, ◌≡◌, refl, false, List, [], Result, ok, err, arith, length}
use codex_loop.Collab.{CollabError}
use codex_loop.Collab.Claim.{Outside}
use codex_loop.Collab.Leases.{connect}
use codex_loop.Collab.Join.{Row, join_slots}
use codex_loop.Collab.Join.Again.{join_slots-again}

abbrev place : Outside
place = record {
  project = "repo";
  parent = "/work";
  own_path = "/work/alice";
  is_held_elsewhere = false;
  is_taken = λ path. false;
}

abbrev rows_or_nil : Result CollabError (List Row) → List Row
rows_or_nil (ok rows) = rows
rows_or_nil (err e) = []

-- Alice opens the run, and bob gets a slot in it.
abbrev alice_alone : List Row
alice_alone =
    rows_or_nil (join_slots place "base" "goal" "alice" "detached" "parser" "do it" 1000 [])

abbrev both_joined : List Row
both_joined =
    rows_or_nil (join_slots place "base" "goal" "bob" "detached" "printer" "do it" 1100 alice_alone)

bob_joins :
    join_slots place "base" "goal" "bob" "detached" "printer" "do it" 1100 alice_alone
    ≡ ok both_joined
unfolding join_slots
bob_joins = refl

one_run : length both_joined ≡ 1
unfolding join_slots
one_run = refl

join_slots-again_example :
    join_slots place "next" "goal" "bob" "detached" "lexer" "do that" 9000 both_joined
    ≡ ok (map (λ row. (row.0, connect 9000 row.1)) both_joined)
join_slots-again_example =
    join_slots-again place "base" "goal" "bob" "detached" "printer" "do it" "next" "lexer" "do that"
      1100 9000 alice_alone both_joined (omega arith) bob_joins
