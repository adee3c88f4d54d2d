-- ===== src/Contracts.antt =====
-- The closed value sets of the pipeline and the rules over them
-- (data-pipeline/data_pipeline/contracts/enums.py). A value that arrives as text is read by the
-- `_of_text` functions; `none` is any text outside the set.
pub mod Rules
mod Examples
use projectree.Base.{Bool, true, false, ◌||◌, Option, none, some, String, str_eq, if◌then◌else◌}

pub data NodeType : Type 0 where
  decision action issue : NodeType

pub data GraphState : Type 0 where
  active unattached excluded merged archived : GraphState

-- Internal server judgment commands.
pub data JudgmentResult : Type 0 where
  new_decision attach update_action unattached minutes_only : JudgmentResult

pub data MinutesReason : Type 0 where
  no_related_decision low_confidence not_confirmed : MinutesReason

abbrev pub node_type_of_text : String → Option NodeType
node_type_of_text s =
    if str_eq s "DECISION"
    then some decision
    else if str_eq s "ACTION"
    then some action
    else if str_eq s "ISSUE"
    then some issue
    else none

abbrev pub result_of_text : String → Option JudgmentResult
result_of_text s =
    if str_eq s "NEW_DECISION"
    then some new_decision
    else if str_eq s "ATTACH"
    then some attach
    else if str_eq s "UPDATE_ACTION"
    then some update_action
    else if str_eq s "UNATTACHED"
    then some JudgmentResult.unattached
    else if str_eq s "MINUTES_ONLY"
    then some minutes_only
    else none

abbrev pub is_decision : NodeType → Bool
is_decision decision = true
is_decision _ = false

abbrev pub is_action : NodeType → Bool
is_action action = true
is_action _ = false

abbrev pub is_issue : NodeType → Bool
is_issue issue = true
is_issue _ = false

-- CHANGES_ALLOWED_KEYS
abbrev pub changes_key_allowed : String → Bool
changes_key_allowed key = str_eq key "dueDate"

-- `result_allowed_for_type`, over ALLOWED_RESULTS_BY_TYPE.
unfoldable pub result_allowed_for_type : Option JudgmentResult → Option NodeType → Bool
result_allowed_for_type (some new_decision) (some decision) = true
result_allowed_for_type (some JudgmentResult.unattached) (some decision) = true
result_allowed_for_type (some minutes_only) (some decision) = true
result_allowed_for_type (some attach) (some action) = true
result_allowed_for_type (some update_action) (some action) = true
result_allowed_for_type (some JudgmentResult.unattached) (some action) = true
result_allowed_for_type (some minutes_only) (some action) = true
result_allowed_for_type (some attach) (some issue) = true
result_allowed_for_type (some JudgmentResult.unattached) (some issue) = true
result_allowed_for_type (some minutes_only) (some issue) = true
result_allowed_for_type _ _ = false

-- `_ACTIVE_PARENT_RULES`; a Decision is a root and has none.
abbrev pub parent_type_listed : NodeType → NodeType → Bool
parent_type_listed decision parent = false
parent_type_listed action parent = is_decision parent
parent_type_listed issue parent = is_decision parent || is_action parent

unfoldable pub is_allowed_parent_type : NodeType → Option NodeType → Bool
is_allowed_parent_type decision none = true
is_allowed_parent_type child none = false
is_allowed_parent_type child (some parent) = parent_type_listed child parent

-- Why a parent is refused.
pub data ParentViolation : Type 0 where
  unattached_has_parent must_be_root needs_parent wrong_parent_type : ParentViolation

abbrev active_violation : NodeType → Option NodeType → Option ParentViolation
active_violation decision none = none
active_violation decision (some parent) = some must_be_root
active_violation child none = some needs_parent
active_violation child (some parent) =
    if parent_type_listed child parent then none else some wrong_parent_type

unfoldable pub parent_rule_violation :
    NodeType → Option NodeType → GraphState → Option ParentViolation
parent_rule_violation node_type none GraphState.unattached = none
parent_rule_violation node_type (some parent) GraphState.unattached = some unattached_has_parent
parent_rule_violation node_type parent_type active = active_violation node_type parent_type
parent_rule_violation node_type parent_type _ = none

pub data AnalysisRunStatus : Type 0 where
  pending running completed failed superseded : AnalysisRunStatus

pub data AnalysisStatus : Type 0 where
  pending analyzing analyzed stale failed : AnalysisStatus

-- `analysis_status_transition_allowed`, between known values.
unfoldable pub analysis_status_transition_allowed : AnalysisStatus → AnalysisStatus → Bool
analysis_status_transition_allowed AnalysisStatus.pending AnalysisStatus.pending = true
analysis_status_transition_allowed AnalysisStatus.pending analyzing = true
analysis_status_transition_allowed AnalysisStatus.pending AnalysisStatus.failed = true
analysis_status_transition_allowed AnalysisStatus.pending stale = true
analysis_status_transition_allowed analyzing analyzing = true
analysis_status_transition_allowed analyzing analyzed = true
analysis_status_transition_allowed analyzing AnalysisStatus.failed = true
analysis_status_transition_allowed analyzing stale = true
analysis_status_transition_allowed analyzed analyzed = true
analysis_status_transition_allowed analyzed stale = true
analysis_status_transition_allowed stale stale = true
analysis_status_transition_allowed stale AnalysisStatus.pending = true
analysis_status_transition_allowed AnalysisStatus.failed AnalysisStatus.failed = true
analysis_status_transition_allowed AnalysisStatus.failed AnalysisStatus.pending = true
analysis_status_transition_allowed AnalysisStatus.failed stale = true
analysis_status_transition_allowed _ _ = false

-- `analysis_run_status_transition_allowed`, between known values.
unfoldable pub analysis_run_status_transition_allowed : AnalysisRunStatus → AnalysisRunStatus → Bool
analysis_run_status_transition_allowed AnalysisRunStatus.pending AnalysisRunStatus.pending = true
analysis_run_status_transition_allowed AnalysisRunStatus.pending running = true
analysis_run_status_transition_allowed AnalysisRunStatus.pending AnalysisRunStatus.failed = true
analysis_run_status_transition_allowed AnalysisRunStatus.pending superseded = true
analysis_run_status_transition_allowed running running = true
analysis_run_status_transition_allowed running completed = true
analysis_run_status_transition_allowed running AnalysisRunStatus.failed = true
analysis_run_status_transition_allowed running superseded = true
analysis_run_status_transition_allowed completed completed = true
analysis_run_status_transition_allowed completed superseded = true
analysis_run_status_transition_allowed AnalysisRunStatus.failed AnalysisRunStatus.failed = true
analysis_run_status_transition_allowed superseded superseded = true
analysis_run_status_transition_allowed _ _ = false
