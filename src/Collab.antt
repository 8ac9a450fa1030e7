-- ===== src/Collab.antt =====
-- scripts/codex_loop_runtime/local_collaboration.py: the tables of one collaboration run. The rows of
-- `slots` stand in the order of their numbers, those of `messages`, `delegations` and `reclaims` in the
-- order of their ids. Times are natural numbers of seconds and arguments of the operations. The columns
-- that only Git reads (repository, branch, strategy) and `created_at`, `updated_at` are left out.
pub mod Checks
pub mod Rows
pub mod Layers
pub mod Specs
pub mod Tasks
pub mod Leases
pub mod Election
pub mod Offers
pub mod Tables
pub mod Pools
pub mod Choose
pub mod Ancestors
pub mod Claim
pub mod Join
pub mod Finish
pub mod Messages
pub mod Integration
pub mod Moves
pub mod History
mod Tests
use codex_loop.Base.{ℕ, String, Bool, Option, List}
use codex_loop.Store.Isolations.{SemanticSpec}

pub data RunState : Type 0 where
  opened integrating integrated : RunState

pub data SlotStatus : Type 0 where
  available claimed done : SlotStatus

pub data OfferStatus : Type 0 where
  offered accepted rejected completed cancelled : OfferStatus

pub data TailStatus : Type 0 where
  pending active complete : TailStatus

-- `isolation_spec`, where a missing entry is `none`.
pub record IsolationSpec : Type 0 where
  pub role : Option String
  pub mutation_policy : Option String
  pub semantic_work : Option SemanticSpec

-- A row of `slots`.
pub record Slot : Type 0 where
  pub number : ℕ
  pub title : String
  pub instructions : String
  pub status : SlotStatus
  pub task_id : Option String
  pub worktree : Option String
  pub commit_sha : Option String
  pub task_key : Option String
  pub pool_id : String
  pub depends_on : List String
  pub start_commit : Option String
  pub completed_by : Option String
  pub exclude_workers : List String
  pub review_of : List String
  pub isolation_spec : IsolationSpec
  pub lease_generation : ℕ
  pub last_seen : Option ℕ
  pub checkpoint_sha : Option String
  pub checkpoint_note : Option String

pub record Worker : Type 0 where
  pub task_id : String
  pub worktree : String
  pub last_commit : Option String

pub record Waiting : Type 0 where
  pub task_id : String
  pub last_seen : ℕ

pub record Reclaim : Type 0 where
  pub id : ℕ
  pub slot_number : ℕ
  pub old_task_id : String
  pub old_worktree : Option String
  pub old_generation : ℕ
  pub checkpoint_sha : Option String
  pub checkpoint_note : Option String
  pub reason : String
  pub reclaimed_at : ℕ
  pub adopted_by : Option String
  pub old_start_commit : Option String
  pub resolution : Option String
  pub resolution_commit : Option String

-- A row of `resource_caps`.
pub record Cap : Type 0 where
  pub resource_key : String
  pub max_claimed : ℕ
  pub pools : List String

pub record Review : Type 0 where
  pub review_key : String
  pub pool_id : String
  pub interval_seconds : ℕ
  pub instructions : String
  pub last_published : ℕ
  pub latest_task_key : Option String

-- A row of `messages`; `stops` says that `control_action` is `stop_task`, the only one there is.
pub record Message : Type 0 where
  pub id : ℕ
  pub sender : String
  pub recipient : Option String
  pub body : String
  pub stops : Bool

-- A row of `delegations`.
pub record Offer : Type 0 where
  pub id : ℕ
  pub sender : String
  pub request_key : String
  pub recipient : Option String
  pub title : String
  pub instructions : String
  pub status : OfferStatus
  pub result : Option String
  pub commit_sha : Option String
  pub reject_reason : Option String

pub record Tail : Type 0 where
  pub instructions : String
  pub status : TailStatus
  pub owner_task : Option String
  pub final_head : Option String
  pub evidence : Option String

-- A row of `runs`, and the rows of the other tables that belong to it.
pub record Run : Type 0 where
  pub base_commit : String
  pub planned : Bool
  pub worktree_parent : String
  pub state : RunState
  pub integrator_task : Option String
  pub candidate_head : Option String
  pub integration_start_head : Option String
  pub integration_attempted : Bool
  pub graph_revision : ℕ
  pub integrator_generation : ℕ
  pub integrator_last_seen : Option ℕ
  pub slots : List Slot
  pub workers : List Worker
  pub waiting_workers : List Waiting
  pub reclaims : List Reclaim
  -- task and source slot
  pub worker_inputs : List (String × ℕ)
  -- pool and last claim
  pub pool_dispatch : List (String × ℕ)
  -- resource and original maximum
  pub learned_resource_caps : List (String × Option ℕ)
  -- resource and end of the cooldown
  pub resource_blocks : List (String × ℕ)
  pub resource_caps : List Cap
  -- pool and tasks
  pub pool_operators : List (String × List String)
  pub recurring_reviews : List Review
  -- task and reason
  pub retired_workers : List (String × String)
  pub messages : List Message
  pub delegations : List Offer
  -- message and task
  pub receipts : List (ℕ × String)
  pub serial_tail : Option Tail

-- The errors, one constructor for each message.
pub data CollabError : Type 0 where
  invalid_text invalid_identifier unknown_slot : CollabError
  -- the graph of tasks
  bad_isolation : CollabError
  bad_task_count duplicate_values self_dependency duplicate_keys unknown_dependency : CollabError
  dependency_cycle invalid_graph unknown_key : CollabError
  -- leases
  not_owner stale_generation not_claimed lease_not_expired not_open not_planned : CollabError
  revision_changed not_available bad_interval invalid_commit assignment_changed : CollabError
  not_materialized git_refused outstanding_delegations : CollabError
  -- pools, resources and workers
  bad_capacity unknown_pool not_governed not_a_worker : CollabError
  -- claims
  other_strategy bad_strategy : CollabError
  stop_pending wrong_parent no_claims unplanned_join no_eligible_task waiting_for_dependencies :
      CollabError
  nothing_left two_worktrees other_worktree worktree_taken integrity : CollabError
  -- finishing
  bad_slot_number other_slot ambiguous_finish no_reclaim late_conflict ownership_changed :
      CollabError
  unfinished_delegations run_closed not_done : CollabError
  -- messages and delegations
  not_addressed unknown_delegation inactive_recipient self_delegation key_reused : CollabError
  not_active_sender not_offered not_for_worker not_recipient not_sender bad_delegation_state :
      CollabError
  result_changed : CollabError
  -- integration
  not_integrator already_attempted not_committed intent_changed no_candidate tail_not_owned :
      CollabError
  tail_not_active other_final_head nothing_to_reclaim lease_renewed : CollabError
