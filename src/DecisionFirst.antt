-- ===== src/DecisionFirst.antt =====
-- Which nodes of a meeting are analysed first, and the parent that a node's candidate proposed
-- (data-pipeline/data_pipeline/pipeline/decision_first.py and pipeline/parent_hint.py). The lock of
-- the meeting's row has no counterpart, since a release is one transaction; the text of an
-- identifier, the time and the identifiers of new rows are arguments.
pub mod Final
pub mod Again
pub mod Eligible
pub mod Release
pub mod ParentHint
mod Examples
use projectree.Base.{
  ℕ, zero, suc, ◌+◌, Bool, true, false, not, ◌&&◌, ◌||◌, Option, none, some, List, [], ◌∷◌, map,
  String, any, find, keep, if◌then◌else◌, ◌==◌, str_eq, ltb,
}
use projectree.Base.Json.{Json, str, obj, field, end}
use projectree.Base.Result.{Fallible, ok, err, ◌>>=◌, ◌>>◌, refuse, or_raise}
use projectree.Base.Sorting.{sort_by}
use projectree.Contracts.{decision, is_decision, NodeType}
use projectree.Outbox.{OutboxEvent, emit_outbox_event}
use projectree.AnalysisJobs.{
  AnalysisJob, JobStore, EnqueueResult, raised, EnqueueError, enqueue_analysis_job,
}
use projectree.Graph.{
  GraphNode, NodeState, active, unattached, same_type, is_merged, is_canonical, is_some,
}
use projectree.Graph.UserMerges.{stored_node}

-- `_MAX_MERGE_HOPS`
abbrev max_merge_hops : ℕ
max_merge_hops = 5

abbrev of_type : NodeType → Option GraphNode → Option GraphNode
of_type expected none = none
of_type expected (some n) = if same_type n.node_type expected then some n else none

-- One turn of the loop of `_canonical`: the end of the chain, no node, or the next node.
pub data HintStep : Type 0 where
  ends : GraphNode → HintStep
  breaks : HintStep
  goes_on : GraphNode → HintStep

abbrev pub hint_step : String → NodeType → List ℕ → List GraphNode → GraphNode → HintStep
hint_step project expected visited nodes n = elim n.merged_into [
  | none ↦ ends n
  | some id ↦
      if any (λ v. v == n.id) visited
      then breaks
      else elim (of_type expected (stored_node project id nodes)) [
        | none ↦ breaks
        | some m ↦ goes_on m
      ]
]

abbrev pub at_last : HintStep → Option GraphNode
at_last (ends n) = some n
at_last _ = none

-- The loop, with the hops that are left.
unfoldable pub follow_hint :
    ℕ → String → NodeType → List ℕ → List GraphNode → GraphNode → Option GraphNode
follow_hint zero project expected visited nodes n =
    at_last (hint_step project expected visited nodes n)
follow_hint (suc hops) project expected visited nodes n =
    elim (hint_step project expected visited nodes n) [
      | ends m ↦ some m
      | breaks ↦ none
      | goes_on m ↦ follow_hint hops project expected (n.id ∷ visited) nodes m
    ]

-- `_canonical`
unfoldable pub canonical_hint : String → List GraphNode → GraphNode → Option GraphNode
canonical_hint project nodes n = follow_hint max_merge_hops project n.node_type [] nodes n

abbrev pub is_active_node : NodeState → Bool
is_active_node active = true
is_active_node _ = false

abbrev pub is_settled : GraphNode → Bool
is_settled n = is_active_node n.graph_state && not (is_some n.merged_into)

abbrev pub is_settled_decision : Option GraphNode → Bool
is_settled_decision none = false
is_settled_decision (some c) = is_decision c.node_type && is_settled c

-- `_decision_is_final`
unfoldable pub decision_is_final : String → List GraphNode → GraphNode → Bool
decision_is_final project nodes n =
    if is_settled n
    then true
    else if not (is_merged n.graph_state) || not (is_some n.merged_into)
    then false
    else is_settled_decision (canonical_hint project nodes n)

abbrev pub is_reviewed : String → String → GraphNode → Bool
is_reviewed project meeting n =
    str_eq n.project_id project
    && (str_eq n.source_meeting_id meeting && is_some n.source_candidate)

-- `_meeting_decisions`
abbrev pub meeting_decisions : String → String → List GraphNode → List GraphNode
meeting_decisions project meeting =
    keep (λ n. is_reviewed project meeting n && is_decision n.node_type)

abbrev pub some_decision_waits : String → String → List GraphNode → Bool
some_decision_waits project meeting nodes =
    any (λ n. not (decision_is_final project nodes n)) (meeting_decisions project meeting nodes)

pub data PhaseError : Type 0 where
  no_meeting dependent_blocked : PhaseError

-- `assert_node_analysis_phase_allowed`; the flag tells whether the meeting's row is there.
unfoldable pub assert_phase_allowed :
    Bool → List GraphNode → GraphNode → Fallible PhaseError (Unit {0})
assert_phase_allowed has_meeting nodes n = do
  refuse (not has_meeting) no_meeting
  refuse
      (not (is_decision n.node_type) && some_decision_waits n.project_id n.source_meeting_id nodes)
      dependent_blocked
  ok tt

pub data Phase : Type 0 where
  decision_phase dependent_phase : Phase

abbrev phase_text : Phase → String
phase_text decision_phase = "DECISION"
phase_text dependent_phase = "DEPENDENT"

abbrev pub phase_of : Bool → Phase
phase_of true = decision_phase
phase_of false = dependent_phase

abbrev pub in_phase : Phase → GraphNode → Bool
in_phase decision_phase n = is_decision n.node_type
in_phase dependent_phase n = not (is_decision n.node_type)

abbrev pub is_unattached : NodeState → Bool
is_unattached unattached = true
is_unattached _ = false

-- A job of the meeting for the node.
abbrev pub has_job : String → String → List AnalysisJob → ℕ → Bool
has_job project meeting jobs id =
    any
      (λ j.
        str_eq j.project_id project && (str_eq j.external_meeting_id meeting && j.node_id == id))
      jobs

abbrev pub by_creation : GraphNode → GraphNode → Bool
by_creation a b =
    ltb a.created_at b.created_at || (a.created_at == b.created_at && not (ltb b.id a.id))

abbrev pub reviewed_nodes : String → String → List GraphNode → List GraphNode
reviewed_nodes project meeting nodes =
    sort_by by_creation (keep (is_reviewed project meeting) nodes)

abbrev pub is_eligible : Phase → String → String → List AnalysisJob → GraphNode → Bool
is_eligible phase project meeting jobs n =
    in_phase phase n
    && (is_unattached n.graph_state
        && (not (is_some n.merged_into) && not (has_job project meeting jobs n.id)))

pub data ReleaseError : Type 0 where
  not_enqueued : EnqueueError → ReleaseError
  unknown_event : ReleaseError

abbrev pub of_enqueue : EnqueueResult → Fallible ReleaseError JobStore
of_enqueue (EnqueueResult.stored s) = ok s
of_enqueue (raised e) = err (not_enqueued e)

abbrev pub released_payload : (ℕ → String) → Phase → String → ℕ → Json
released_payload text phase meeting id = obj (
    field "meetingId" (str meeting)
      (field "nodeId" (str (text id)) (field "analysisPhase" (str (phase_text phase)) end)))

-- A job and its event.
abbrev pub release_node :
    (ℕ → String)
    → (now fresh : ℕ) → Phase
    → String
    → String
    → GraphNode
    → JobStore
    → Fallible ReleaseError JobStore
release_node text now fresh phase project meeting n s = do
  s' ← of_enqueue (enqueue_analysis_job now fresh project meeting n.id n.version 3 s)
  events ←
      or_raise
        (emit_outbox_event now fresh "ANALYSIS_QUEUED" "node" (text n.id) project
          (released_payload text phase meeting n.id) s'.events)
        unknown_event
  ok (record s' { events = events })

unfoldable pub release_each :
    (ℕ → String)
    → (now fresh : ℕ) → Phase
    → String
    → String
    → List GraphNode
    → JobStore
    → Fallible ReleaseError JobStore
release_each text now fresh phase project meeting [] s = ok s
release_each text now fresh phase project meeting (n ∷ nodes) s =
    release_node text now fresh phase project meeting n s >>= λ s'.
    release_each text now (fresh + 1) phase project meeting nodes s'

pub record ReleaseResult : Type 0 where
  pub phase : Phase
  pub queued : List ℕ
  pub store : JobStore

-- `release_pending_dependent_nodes_if_ready`
unfoldable pub release_pending :
    (ℕ → String)
    → (now fresh : ℕ) → String
    → String
    → List GraphNode
    → JobStore
    → Fallible ReleaseError ReleaseResult
release_pending text now fresh project meeting nodes s = do
  let phase = phase_of (some_decision_waits project meeting nodes)
  let eligible =
      keep (is_eligible phase project meeting s.jobs) (reviewed_nodes project meeting nodes)
  s' ← release_each text now fresh phase project meeting eligible s
  ok (record { phase = phase; queued = map (λ n. n.id) eligible; store = s' })
