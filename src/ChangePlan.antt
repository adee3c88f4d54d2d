-- ===== src/ChangePlan.antt =====
-- The change plan (data-pipeline/data_pipeline/contracts/change_plan.py): commands on the graph, and
-- the shape that its models check. A ValueError of a validator is `none`.
pub mod Build
pub mod Apply
pub mod Store
mod Examples
use projectree.Base.{
  ℕ, Bool, true, false, not, ◌&&◌, ◌||◌, Option, none, some, List, [], ◌∷◌, String, if◌then◌else◌,
}
use projectree.Base.Text.{truthy}
use projectree.Contracts.{NodeType, GraphState}
use projectree.Validation.Evidence.{is_nil}
use projectree.Validation.Judgments.{SortKey}

pub data PlanOp : Type 0 where
  create_decision create_action create_issue update_action record_minutes : PlanOp

-- CREATE_OPS
abbrev pub is_create : PlanOp → Bool
is_create create_decision = true
is_create create_action = true
is_create create_issue = true
is_create _ = false

-- Callers set at most one of the two, as `_exactly_one_or_none` wants.
pub record ParentRef : Type 0 where
  pub new_parent_item_id : Option String
  pub existing_node_id : Option String

pub record EvidenceRef : Type 0 where
  pub segment_id : String
  pub quote : String
  pub quote_start : Option ℕ
  pub quote_end : Option ℕ

pub record Command : Type 0 where
  pub op : PlanOp
  pub item_id : String
  pub sort_key : SortKey
  pub node_type : Option NodeType
  pub category : Option String
  pub title : Option String
  pub content : Option String
  pub parent : Option ParentRef
  pub graph_state : GraphState
  pub evidence : List EvidenceRef
  pub target_action_id : Option String
  pub changes : List (String × String)
  pub expected_version : Option ℕ
  pub reason : Option String

abbrev is_present {ℓ} : {A : Type ℓ} → Option A → Bool
is_present none = false
is_present (some a) = true

-- `_shape_by_op`
abbrev pub has_shape : PlanOp → Command → Bool
has_shape update_action c = truthy c.target_action_id && not (is_nil c.changes)
has_shape record_minutes c = truthy c.reason
has_shape op c = is_present c.node_type && truthy c.title && not (is_nil c.evidence)

unfoldable pub command : Command → Option Command
command c = if has_shape c.op c then some c else none
