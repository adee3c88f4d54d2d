-- ===== src/Validation/Rules.antt =====
-- What the checks of one call read, and the rules that look at one judgment alone
-- (data-pipeline/data_pipeline/validation/judgments.py).
use projectree.Base.{
  Bool, true, false, not, ◌&&◌, Option, none, some, List, [], ◌∷◌, String, any, str_eq,
  if◌then◌else◌,
}
use projectree.Base.Text.{text_of}
use projectree.Contracts.{
  NodeType, JudgmentResult, MinutesReason, attach, update_action, minutes_only, no_related_decision,
  low_confidence, not_confirmed, node_type_of_text, is_issue, result_allowed_for_type,
}
use projectree.Validation.Evidence.{is_nil}
use projectree.Validation.Fields.{Item, Judgment, Violation, is_minutes_only, field_violations}

-- `item_type`: of several items with one id the last is kept.
unfoldable pub kind_of : List Item → String → Option (Option NodeType)
kind_of [] id = none
kind_of (it ∷ items) id = elim (kind_of items id) [
  | some kind ↦ some kind
  | none ↦ if str_eq it.id id then some (node_type_of_text it.type) else none
]

abbrev pub is_known : Option (Option NodeType) → Bool
is_known none = false
is_known (some _) = true

abbrev pub node_type : Option (Option NodeType) → Option NodeType
node_type none = none
node_type (some kind) = kind

-- `id in item_type`
abbrev pub is_item : List Item → String → Bool
is_item items id = is_known (kind_of items id)

-- `item_type[id]`, `none` for a type outside the value set.
abbrev pub item_type : List Item → String → Option NodeType
item_type items id = node_type (kind_of items id)

abbrev pub is_type : (NodeType → Bool) → Option NodeType → Bool
is_type p none = false
is_type p (some t) = p t

abbrev pub member : String → List String → Bool
member id ids = any (str_eq id) ids

-- What the checks of one call read besides the judgments.
pub record Context : Type 0 where
  pub items : List Item
  pub decision_candidate_ids : List String
  pub action_candidate_ids : List String
  pub valid : String → Bool

pub data Rule : Type 0 where
  duplicate_item_id result_not_allowed evidence_invalid update_target_not_in_candidates : Rule
  action_attach_to_existing_action attach_target_not_in_candidates : Rule
  attach_m_target_missing attach_to_minutes_only action_parent_invalid : Rule
  issue_parent_invalid attach_from_decision : Rule
  field_violation : List Violation → Rule

pub record Demotion : Type 0 where
  pub item_id : String
  pub was : Option JudgmentResult
  pub rule : Rule

abbrev reason_text : MinutesReason → String
reason_text no_related_decision = "NO_RELATED_DECISION"
reason_text low_confidence = "LOW_CONFIDENCE"
reason_text not_confirmed = "NOT_CONFIRMED"

abbrev pub minutes_judgment : String → MinutesReason → Judgment
minutes_judgment id reason = record {
  item_id = id;
  result = some minutes_only;
  category = none;
  attach_to = none;
  reason = some (reason_text reason);
  target_action_id = none;
  changes = [];
}

-- Rules 2 and 6: an existing node is referred to only through the candidate lists.
abbrev pub reference_rule :
    Context → String → Option JudgmentResult → Judgment → Option (Rule × MinutesReason)
reference_rule c id (some update_action) j =
    if member (text_of j.target_action_id) c.action_candidate_ids
    then none
    else some (update_target_not_in_candidates, no_related_decision)
reference_rule c id (some attach) j =
    if is_item c.items (text_of j.attach_to)
    then none
    else if member (text_of j.attach_to) c.action_candidate_ids
    then if is_type is_issue (item_type c.items id)
      then none
      else some (action_attach_to_existing_action, no_related_decision)
    else if member (text_of j.attach_to) c.decision_candidate_ids
    then none
    else some (attach_target_not_in_candidates, no_related_decision)
reference_rule c id _ j = none

-- Why the first pass demotes a judgment, if it does.
unfoldable pub first_rule : Context → String → Judgment → Option (Rule × MinutesReason)
first_rule c id j =
    if not (result_allowed_for_type j.result (item_type c.items id))
    then some (result_not_allowed, low_confidence)
    else if not (is_nil (field_violations j))
    then some (field_violation (field_violations j), low_confidence)
    else if not (is_minutes_only j.result) && not (c.valid id)
    then some (evidence_invalid, low_confidence)
    else reference_rule c id j.result j
