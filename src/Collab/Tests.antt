-- ===== src/Collab/Tests.antt =====
-- A run of two tasks and two workers (scripts/codex_loop_runtime/local_collaboration.py).
mod Offers
mod Chain
mod Join
use codex_loop.Base.{
  ℕ, map, member, ◌≡◌, ◌≢◌, ◌↔◌, refl, String, true, false, Option, none, some, List, [], ◌∷◌, ◌++◌,
  all, All, count, Result, ok, err,
}
use codex_loop.Collab.{
  Run, Slot, Offer, OfferStatus, SlotStatus, IsolationSpec, CollabError, ownership_changed,
  integrity, dependency_cycle,
}
use codex_loop.Collab.Rows.{key_of, find_number, is_opened, is_done, is_unsettled}
use codex_loop.Collab.Layers.Order.{IsOrdered}
use codex_loop.Collab.Checks.{is_subset}
use codex_loop.Collab.Specs.{slot_graph, ordered_slots, TaskInput, Spec, specs_from, task_specs}
use codex_loop.Collab.Specs.Accept.{IsAcyclic, task_specs-IsAcyclic}
use codex_loop.Collab.Tasks.{Identity, create_run, new_run}
use codex_loop.Collab.Tasks.Order.{HasOrder, create_run-ordered_slots}
use codex_loop.Collab.Claim.{Outside}
use codex_loop.Collab.Claim.Settle.{claim}
use codex_loop.Collab.Finish.{finish_write}
use codex_loop.Collab.Choose.Final.{choose_slot}
use codex_loop.Collab.Choose.{candidates}
use codex_loop.Collab.Choose.Learned.{reset_learned}
use codex_loop.Collab.Leases.{reclaim_row, reclaim}
use codex_loop.Collab.Claim.Materialize.{materialize}
use codex_loop.Collab.Ancestors.{ancestors}
use codex_loop.Collab.Ancestors.Collect.{Needs}
use codex_loop.Collab.Ancestors.Total.{ancestors-Needs}
use codex_loop.Collab.Claim.Adopt.{adopt}
use codex_loop.Collab.Offers.{new_offer, delegate, other_worker}
use codex_loop.Collab.History.{
  Op, IsStart, planned_run, claims, materializes, reclaims, finishes, play,
}
use codex_loop.Collab.History.Lease.{finish_write-fenced, done-final}
use codex_loop.Collab.History.Closed.{closed-settled}
use codex_loop.Collab.Offers.Again.{delegate-again}
use codex_loop.Collab.Choose.Sound.{IsCandidate, IsIn, choose_slot-IsCandidate}
use codex_loop.Collab.Choose.Chosen.{Holds}

abbrev pub identity : Identity
identity = record { base_commit = "base"; worktree_parent = "/work" }

abbrev no_isolation : IsolationSpec
no_isolation = record { role = none; mutation_policy = none; semantic_work = none }

abbrev task_input : String → List String → TaskInput
task_input key deps = record {
  title = key;
  instructions = "do it";
  key = some key;
  pool = none;
  depends_on = deps;
  review_of = [];
  exclude_workers = [];
  isolation = no_isolation;
}

abbrev tasks : List TaskInput
tasks = task_input "second" ("first" ∷ []) ∷ task_input "first" [] ∷ []

abbrev or_empty : Result CollabError Run → Run
or_empty (ok r) = r
or_empty (err e) = new_run identity true [] none

abbrev pub created : Run
created = or_empty (create_run identity tasks "goal" none)

creating_runs : create_run identity tasks "goal" none ≡ ok created
unfolding create_run
creating_runs = refl

abbrev start : IsStart created
start = planned_run identity tasks "goal" none created creating_runs

abbrev specs : List Spec
specs = elim (specs_from 1 tasks) [ ok found ↦ found | err e ↦ [] ]

specs_run : specs_from 1 tasks ≡ ok specs
unfolding specs_from
specs_run = refl

a_cycle_is_refused :
    task_specs (task_input "one" ("two" ∷ []) ∷ task_input "two" ("one" ∷ []) ∷ [])
    ≡ err dependency_cycle
unfolding task_specs
a_cycle_is_refused = refl

task_specs-IsAcyclic_example : (task_specs tasks ≡ ok specs) ↔ IsAcyclic specs
task_specs-IsAcyclic_example = task_specs-IsAcyclic tasks refl specs_run

create_run-ordered_slots_example : HasOrder created.slots
create_run-ordered_slots_example =
    create_run-ordered_slots identity tasks "goal" none created creating_runs

abbrev world : String → Outside
world own = record {
  project = "repo";
  parent = "/work";
  own_path = own;
  is_held_elsewhere = false;
  is_taken = λ path. false;
}

abbrev alice_claims : Op
alice_claims = claims (world "/work/alice") "alice" none false none 1000

abbrev bob_claims : Op
bob_claims = claims (world "/work/bob") "bob" none false none 2000

abbrev pub some_slot : Option Slot → Slot
some_slot (some s) = s
some_slot none = record {
  number = 0;
  title = "";
  instructions = "";
  status = SlotStatus.available;
  task_id = none;
  worktree = none;
  commit_sha = none;
  task_key = none;
  pool_id = "";
  depends_on = [];
  start_commit = none;
  completed_by = none;
  exclude_workers = [];
  review_of = [];
  isolation_spec = no_isolation;
  lease_generation = 0;
  last_seen = none;
  checkpoint_sha = none;
  checkpoint_note = none;
}

abbrev pub held : Slot
held = some_slot (find_number 2 (play (alice_claims ∷ []) created).slots)

alice_holds : find_number 2 (play (alice_claims ∷ []) created).slots ≡ some held
unfolding play create_run find_number claim
alice_holds = refl

alice_is_named : held.task_id ≡ some "alice"
unfolding play create_run find_number claim
alice_is_named = refl

bob_is_not_alice : ◌≢◌ {A = String} "bob" "alice"
bob_is_not_alice h = cc

-- The lease runs out, and the slot goes to bob.
abbrev lost : List Op
lost = reclaims "first" false "silent" 1601 ∷ bob_claims ∷ []

finish_write-fenced_example :
    finish_write "bob" "c0ffee" 2 held.lease_generation 2500
      (play lost (play (alice_claims ∷ []) created))
    ≡ err ownership_changed
finish_write-fenced_example =
    finish_write-fenced created (alice_claims ∷ []) lost 2 held "bob" "alice" "c0ffee" 2500 start
      alice_holds alice_is_named bob_is_not_alice

-- Bob's own generation is the next one.
bob_finishes :
    is_done
      (some_slot (
        find_number 2
          (play
            (alice_claims ∷ lost ++ finishes "bob" "c0ffee" 2 2 2500 ∷ [])
            created).slots)).status
    ≡ true
unfolding play create_run find_number claim reclaim finish_write
bob_finishes = refl

abbrev first_done : List Op
first_done =
    alice_claims
    ∷ materializes "alice" 2 1 "/work/alice" "base"
    ∷ finishes "alice" "c0ffee" 2 1 1100
    ∷ []

abbrev finished : Slot
finished = some_slot (find_number 2 (play first_done created).slots)

first_is_done : find_number 2 (play first_done created).slots ≡ some finished
unfolding play create_run find_number claim materialize finish_write
first_is_done = refl

status_is_done : is_done finished.status ≡ true
unfolding play create_run find_number claim materialize finish_write
status_is_done = refl

done-final_example :
    (t : Slot) × (find_number 2 (play (bob_claims ∷ []) (play first_done created)).slots ≡ some t)
    × (is_done t.status ≡ true)
    × (finished.commit_sha ≡ t.commit_sha)
    × (finished.completed_by ≡ t.completed_by)
done-final_example =
    done-final created first_done (bob_claims ∷ []) 2 finished start first_is_done status_is_done

abbrev all_done : List Op
all_done = first_done ++ bob_claims ∷ finishes "bob" "beef" 1 1 2100 ∷ []

run_is_closed : is_opened (play all_done created).state ≡ false
unfolding play create_run find_number claim materialize finish_write
run_is_closed = refl

closed-settled_example :
    (all (λ (s : Slot). is_done s.status) (play all_done created).slots ≡ true)
    × (count (λ (o : Offer). is_unsettled o) (play all_done created).delegations ≡ 0)
closed-settled_example = closed-settled created all_done start run_is_closed

choose_slot-IsCandidate_example :
    Holds
      (λ s. IsCandidate "repo" "alice" none 1000 created s × IsIn created.slots s)
      (choose_slot "repo" "alice" none 1000 created).1
    × ((choose_slot "repo" "alice" none 1000 created).1 ≡ none
        → All (λ s. ¬ IsCandidate "repo" "alice" none 1000 created s) created.slots)
choose_slot-IsCandidate_example = choose_slot-IsCandidate "repo" "alice" none 1000 created
