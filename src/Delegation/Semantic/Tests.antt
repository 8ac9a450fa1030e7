-- ===== src/Delegation/Semantic/Tests.antt =====
-- A review that is finished, resolved, and out of date after a steer
-- (scripts/codex_loop_runtime/delegation.py).
use codex_loop.Base.{
  suc, ap, String, ◌≡◌, ◌≢◌, refl, Bool, false, none, some, List, [], ◌∷◌, length, ok, err,
  text_append,
}
use codex_loop.Store.{
  Store, TaskStatus, Profile, Isolation, SemanticWork, WorkStatus, MutationPolicy,
}
use codex_loop.Store.Status.{record_steer, bump_generation, ensure_active}
use codex_loop.Store.Isolations.{Digest, find_isolation, find_work, SemanticSpec}
use codex_loop.Store.Isolations.Finish.{Outcome, finish_row, finish_work, finish_isolation}
use codex_loop.Delegation.Semantic.{
  invalid_digest, find_result, clean_binding, clean_sha256, resolve_semantic_result,
}
use codex_loop.Delegation.Semantic.Stale.{resolve_semantic_result_stale}
use codex_loop.Delegation.Semantic.Fresh.{resolve_semantic_result-finish_isolation}

abbrev keep : String → String
keep text = text

-- A digest that tells the numbers of steers apart.
abbrev marks : Digest
marks anchor [] = ""
marks anchor (_ ∷ rest) = text_append "x" (marks anchor rest)

marks-apart : (a b : String) (xs ys : List String) → marks a xs ≡ marks b ys → length xs ≡ length ys
marks-apart a b [] [] h = refl
marks-apart a b [] (y ∷ ys) h = cc
marks-apart a b (x ∷ xs) [] h = cc
marks-apart a b (x ∷ xs) (y ∷ ys) h = ap suc (marks-apart a b xs ys cc)

abbrev unchanged : Isolation → Bool
unchanged i = false

abbrev review : Isolation
review = record {
  isolation_id = "iso_1";
  role = "semantic-worker";
  objective = "judge the change";
  status = WorkStatus.active;
  parent_generation = 0;
  exit_generation = none;
  requested_executor = "logical_isolation";
  actual_executor = "logical_isolation";
  capabilities = "{}";
  mutation_policy = MutationPolicy.read_only;
  context_spec = "{}";
  result = none;
  checkpoint_id = none;
  workspace_changed = false;
}

abbrev judging : SemanticWork
judging = record {
  isolation_id = "iso_1";
  consumer = "review";
  stage = "final";
  input_sha256 = "0123456789abcdef0123456789abcdef0123456789abcdef0123456789abcdef";
  instruction_sha256 = "fedcba9876543210fedcba9876543210fedcba9876543210fedcba9876543210";
  request_sha256 = "";
  parent_generation = 0;
  status = WorkStatus.active;
  semantic_result_id = none;
  result_generation = none;
}

abbrev bound_to : SemanticSpec
bound_to = record {
  consumer = "review";
  stage = "final";
  input_sha256 = "0123456789abcdef0123456789abcdef0123456789abcdef0123456789abcdef";
  instruction_sha256 = "fedcba9876543210fedcba9876543210fedcba9876543210fedcba9876543210";
}

-- The same binding as a caller may write it.
abbrev written : SemanticSpec
written = record {
  consumer = " review ";
  stage = "final";
  input_sha256 = "0123456789ABCDEF0123456789ABCDEF0123456789ABCDEF0123456789ABCDEF";
  instruction_sha256 = "fedcba9876543210fedcba9876543210fedcba9876543210fedcba9876543210";
}

abbrev started : Store
started = record {
  task_id = "demo";
  request_anchor = "fix the bug";
  profile = Profile.bug_fix;
  requires_validation = false;
  requires_clean_process_exit = false;
  generation = 0;
  plan = [];
  plan_revision = 0;
  task_status = TaskStatus.active;
  blocked_reason = none;
  cancel_reason = none;
  external_actions = [];
  isolations = review ∷ [];
  semantic_work = judging ∷ [];
  isolation_events = [];
  processes = [];
  steers = [];
}

abbrev verdict : Outcome
verdict = record {
  result = "sound";
  exit_generation = 0;
  workspace_changed = false;
  semantic_result_id = some "sem_1";
}

abbrev judged : Store
judged = record started {
  isolations = finish_row verdict review ∷ [];
  semantic_work = finish_work verdict judging ∷ [];
  isolation_events =
      record { isolation_id = "iso_1"; kind = "finished"; generation = 0; details = none } ∷ [];
}

finishing_runs : finish_isolation marks "iso_1" verdict started ≡ ok judged
unfolding finish_isolation
finishing_runs = refl

work_found : find_work "iso_1" started.semantic_work ≡ some judging
unfolding find_work
work_found = refl

id_is_fresh : find_result "sem_1" started.semantic_work ≡ none
unfolding find_result
id_is_fresh = refl

cleaning_runs : clean_binding keep written ≡ ok bound_to
unfolding clean_binding
cleaning_runs = refl

short_digest_runs : clean_sha256 keep "abc" ≡ err invalid_digest
unfolding clean_sha256
short_digest_runs = refl

task_is_active : ensure_active started ≡ ok tt
unfolding ensure_active
task_is_active = refl

resolve_semantic_result-finish_isolation_example :
    (i : Isolation) × (find_isolation "iso_1" started.isolations ≡ some i)
    × (resolve_semantic_result marks keep unchanged "sem_1" written judged
        ≡ ok (finish_work verdict judging, finish_row verdict i))
resolve_semantic_result-finish_isolation_example =
    resolve_semantic_result-finish_isolation marks keep unchanged "iso_1" "sem_1" verdict written
      bound_to started work_found id_is_fresh refl refl refl task_is_active cleaning_runs refl
      (λ i found. refl) finishing_runs

resolving_runs :
    resolve_semantic_result marks keep unchanged "sem_1" written judged
    ≡ ok (finish_work verdict judging, finish_row verdict review)
unfolding resolve_semantic_result
resolving_runs = refl

abbrev steered : Store
steered = record judged { steers = ("s1", "also fix the docs") ∷ []; plan_revision = 1 }

steering_runs : record_steer "s1" "also fix the docs" judged ≡ ok (steered, "s1")
unfolding record_steer
steering_runs = refl

resolve_semantic_result_stale_example :
    (resolve_semantic_result marks keep unchanged "sem_1" written steered
      ≢ ok (finish_work verdict judging, finish_row verdict review))
    × (resolve_semantic_result marks keep unchanged "sem_1" written (bump_generation judged)
        ≢ ok (finish_work verdict judging, finish_row verdict review))
resolve_semantic_result_stale_example =
    resolve_semantic_result_stale marks marks-apart keep unchanged "sem_1" written written "s1"
      "also fix the docs" judged (finish_work verdict judging, finish_row verdict review)
      resolving_runs steering_runs
