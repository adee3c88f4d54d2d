-- ===== src/Lib.antt =====
-- Projectree's data pipeline: what its queues and its validation of a language model's answers do.
--
-- The pipeline (data-pipeline/data_pipeline/) turns the transcript of a meeting into a graph of
-- decisions, actions and issues. A language model extracts items and judges where each belongs; the
-- server checks those judgments before anything reaches the graph; durable queues carry the work
-- between workers and the results to other services. Parts and files:
--
--   Base.antt        shared vocabulary: Boolean tests, lists, tables, sorting, texts, and results that
--                    may be errors (Base/Result.antt); no source file
--   Claiming.antt    jobs/claiming.py: backoff_delay and the LIMIT / SKIP LOCKED claim
--   Outbox.antt      jobs/outbox.py and the OutboxEvent table of storage/models.py:
--                    emit_outbox_event, publish_pending_events, _record_success, _record_failure.
--                    Outbox/Relay.antt makes each committed transaction a step of a world with any
--                    number of workers; Relay/Safe.antt and Relay/Exclusive.antt are about what such
--                    worlds reach, Counts, Queue, Batch and Retry about one round or one event
--   AnalysisJobs.antt  jobs/analysis_jobs.py and the AnalysisJob table: enqueue_analysis_job,
--                    claim_next_analysis_job, complete_analysis_job, fail_analysis_job; Workers.antt
--                    has their interleavings
--   Contracts.antt   contracts/enums.py: the value sets and the rules over them
--   Validation/Evidence.antt  validation/evidence.py: resolve_item_evidence
--   Validation/Fields.antt, Rules.antt, Passes.antt, Judgments.antt  validation/judgments.py:
--                    field_violations, the rules for one judgment, the two passes, validate_judgments
--   ChangePlan.antt  contracts/change_plan.py: commands and their shapes
--   ChangePlan/Build.antt  validation/plan.py: build_change_plan, over the validated judgments
--   ChangePlan/Apply.antt  pipeline/apply.py: _ordered_for_apply; Apply/Ordered.antt has its
--                    termination, Apply/Parents.antt the order of the creating commands
--   ChangePlan/Store.antt  pipeline/apply.py: apply_change_plan on the nodes of a project, with
--                    upsert_node_evidence of storage/evidence.py; Store/Order.antt is about its log,
--                    Store/Written.antt about the nodes that were there before
--   Graph.antt       the node table and pipeline/graph.py: get_project_node, resolve_canonical_node.
--                    Graph/Relations.antt has list_canonical_relations, Graph/Store.antt the rows of a
--                    merge, its audit and its events (with parts of pipeline/event_contract.py and
--                    pipeline/revisions.py), Graph/Merge.antt apply_logical_merge and
--                    unmerge_operation, Graph/UserMerges.antt user_merge_nodes and remerge_operation of
--                    pipeline/user_graph.py; Graph/Forest.antt is about any sequence of those
--   MeetingAnalysis.antt  the command, recording and task tables. MeetingAnalysis/Inbox.antt has
--                    persist_recording_ready, persist_analysis_command and _join of
--                    meeting_analysis/persistence.py, MeetingAnalysis/Coordinator.antt the transactions
--                    of meeting_analysis/coordinator.py, Coordinator/Run.antt its run_once
--   DecisionFirst.antt  pipeline/decision_first.py: assert_node_analysis_phase_allowed and
--                    release_pending_dependent_nodes_if_ready. Final.antt and Eligible.antt say
--                    apart from the code which decisions are final and which nodes may be queued;
--                    DecisionFirst/ParentHint.antt has
--                    resolve_same_meeting_parent_hint of pipeline/parent_hint.py
--   Delivery.antt    the delivery state of pipeline/event_contract.py: stage_analysis_processing,
--                    stage_analysis_failed, try_complete_analysis, and mark_graph_ready and
--                    mark_summary_ready, which mark_ready is for the two kinds of version
--
-- How they interact. A relay worker or analysis worker claims rows in one transaction, works outside
-- of any, and records the outcome in another; only the claim token ties the two together. The job
-- queue stages outbox events in the transaction that ends a job (the callbacks of
-- complete_analysis_job and fail_analysis_job), which AnalysisJobs takes as functions on the event
-- table of Outbox. Validation reads evidence against stored segments and the value sets of Contracts.
-- A release reads the nodes of the graph, adds jobs to the queue of AnalysisJobs and stages an event
-- in the table of Outbox. A user's merge calls the logical merge of the graph services, and an undo
-- is theirs. The coordinator takes the commands and recordings that the inboxes have joined.
--
-- State and bounds. A table is a list of rows, and a transaction is a function on it. An instant is a
-- number of microseconds; clock readings, locked rows and fresh identifiers are arguments. A claim
-- token (uuid4) is drawn from a counter, since its values do not repeat. The delay of the
-- backoff is exact up to attempt 1024 and an OverflowError of the source's float after it; queue rows
-- with a max_attempts above 1024 are outside of the model. Other integers of the source are
-- unbounded, so no width is modelled. The fixpoint loop of validate_judgments runs on fuel, one more than the number
-- of items: each round that goes on has demoted an attachment, of which there are at most so many.
-- The loop of _ordered_for_apply has the number of commands as fuel, since each round emits one.
-- The loops that follow redirections run on the hop limits of the source, 128 for
-- resolve_canonical_node and 5 for _canonical. The rounds of a coordinator are given in order; what
-- its processors do, and in which order they end, are arguments of a round.
--
-- Parameters. str.strip and the NFKC quote normal form (unicodedata) are the fields of TextTools; the
-- transport of the relay and its clock are an Environment. str.strip and the slice of a text, the
-- text of an identifier, the payload hash of a command, the transcript loader and the processors of a
-- task are functions that the operations take. Texts compare by code points, as in Python.
--
-- Not modelled. The HTTP interface, the language model and speech clients, object storage and queue
-- I/O, and the schema migrations are input and output. Of the graph services, the confirmation and
-- review of candidates, users' edits and deletions of nodes, the automatic analysis and node
-- commands have no model, nor has retrieval. The ApplyResult of a plan and its outbox event copy lists
-- of the progress and are left out, as are the JSON payloads of graph events, and column defaults that
-- stamp a change with the time. Rollback on a database error leaves a table as it was, and is not written as a step. Log texts are
-- left out, and an entry of a log is a value in place of its text.
pub mod Base
pub mod Claiming
pub mod Outbox
pub mod AnalysisJobs
pub mod Contracts
pub mod Graph
pub mod MeetingAnalysis
pub mod DecisionFirst
pub mod Delivery
pub mod Validation
pub mod ChangePlan
