-- ===== src/Lib.antt =====
-- Codex Loop: a model of the runtime of a task loop, scripts/codex_loop_runtime, with its theorems.
--
-- A task has one SQLite database, which the class StateStore (state.py) reads and writes; the other
-- parts of the runtime go through it. Store.antt has the tables as one record, each table a list
-- with the newest row first and each row of `metadata` a field. An operation is a function from the
-- tables to new tables or an error. The code runs it in one transaction, or makes its checks before
-- its first write, so an error leaves the tables as they were, which Store/History.antt says for
-- sequences of operations (`attempt`, `step`, `run`).
--
--   Base          Boolean tests, lists, texts and results that the parts share.
--   Buffer        output_buffer.py: HeadTailBuffer, which keeps the head and the tail of an output.
--   Framing       output_stream.py: OutputDeltaFramer and frame_output, with Python's UTF-8 decoder as
--                 far as `_utf8_boundary` reads its errors.
--   Store         state.py: the tables and the errors.
--     Clean         validate_task_id, scrub_persisted_text and the stripping of texts.
--     External      record_external and the queries and resolutions of external actions.
--     Events        _prune_isolation_events, which runs after every event.
--     Status        task_status, pause, block, resume, mark_complete, configure_task, record_steer.
--     Plan          set_plan and plan.
--     Cancel        cancel.
--     Isolations    create_isolation, finish_isolation, abort_isolation and record_isolation_event.
--     Processes     upsert_process, the orphaning and the resolution of processes.
--     History       sequences of all these operations but configure_task, which empties the tables.
--   Supervision   execution_supervision.py: observations of a workload, its process and its cleanup.
--   Validation    state.py: the table of validations and the state of a generation, which reads it.
--   Completion    completion.py and cmd_completion of scripts/codex_loop_kernel.py: the decision whether
--                 a task may finish, from the counts of Store and the state of Validation.
--   Routing       interaction_routing.py: the target of a web interaction.
--   Delegation    delegation.py: the capabilities of a delegation and the warnings of what it loses.
--     Semantic      resolve_semantic_result, and semantic_result of state.py.
--   Collab        local_collaboration.py: the database that the workers of a run share, as one run with
--                 the rows of every table that belong to it; in Join, the runs of one goal.
--     Checks, Rows  texts, identifiers and the queries of the tables.
--     Layers        the loops of _task_specs and _ordered_slots, which place tasks layer by layer.
--     Specs, Tasks  _isolation_spec, _task_specs, create_run, publish_task and revise_task.
--     Leases        heartbeat, activity, reclaim and checkpoint.
--     Pools         the capacities of resources, operators of pools and recurring reviews.
--     Choose        _choose_slot.
--     Claim         claim: its first transaction, and those that follow the work of Git.
--     Ancestors     _ancestors.
--     Finish        finish and _finish_reclaimed.
--     Election      _elect.
--     Offers        the delegations between workers.
--     Messages      post_message, inbox and retire_worker.
--     Integration   the steps of the integrator and of the serial tail, and completion_obstacle.
--     Join          the transaction of dynamic_join, over the runs of one repository, branch and goal;
--                   the claim with which the call ends is the operation claim, on the run joined.
--     Moves         what each of these operations does to the slots and to a closed run.
--     History       sequences of their transactions.
--
-- A call of Collab that reads, asks Git and writes in a second transaction is two functions, one for
-- each transaction. History has the writes alone, for whatever was read, so that any other calls may
-- stand between the two. What every connection updates before its transaction is an operation of its
-- own there (connect). Several messages of one check are one error there: `bad_isolation` for
-- those of _isolation_spec, `git_refused` for what Git refuses. Times are natural numbers of seconds
-- and arguments.
--
-- Parameters stand for what is not in the repository: `redact` for the two substitutions by the
-- module re in scrub_persisted_text, `digest` for the SHA-256 of the effective request, `fresh` for
-- the value of uuid.uuid4().hex, `identity` for the digest of a command line, `slot_changed` for the
-- fingerprint of a worktree, `Git` for the HEAD of a worktree and the verdict of the checks on it,
-- `Outside` for the paths and the other runs that a claim looks at, and the texts that json.dumps
-- makes of details and results. No theorem assumes anything of `redact`; what one assumes of
-- `digest` and `slot_changed` stands among its hypotheses.
--
-- Numbers are natural numbers: the counts and generations of the code never go below 0. Every
-- function is by recursion on a list, but for four on fuel: the layers of a graph in Collab, where
-- one round more than there are tasks is enough (Layers/Loop), the ancestors of a slot, where one
-- step for each dependency is enough (Ancestors/Total), the three rounds of `complete_bytes` in
-- Framing, which are enough for the last three bytes, and the digits of a number in Base/Numbers,
-- with more fuel than the number is large.
--
-- Not modelled: time stamps and the orders that depend on them (prune_successful_processes), the
-- baseline, mutations, checkpoints and release receipts of state.py, the details of the events that
-- the operations themselves write, the omission marker of the buffer, of local_collaboration.py
-- the next claim inside finish, status, the gate of the one run that the source names
-- and all that Git does, and the parts of the runtime that run git, processes, sockets and files.
pub mod Base
pub mod Buffer
pub mod Framing
pub mod Store
pub mod Supervision
pub mod Validation
pub mod Completion
pub mod Routing
pub mod Delegation
pub mod Collab
