-- ===== src/ChangePlan/Build.antt =====
-- From validated judgments to a change plan
-- (data-pipeline/data_pipeline/validation/plan.py). An error that the code raises is `none`.
pub mod Ranked
pub mod Covers
pub mod Once
pub mod Valid
pub mod Validated
use mathlib.Core.Option
use projectree.Base.{
  ℕ, Bool, true, false, not, ◌&&◌, ◌||◌, Option, none, some, List, [], ◌∷◌, ◌++◌, map, String, any,
  find, keep, if◌then◌else◌, str_eq,
}
use projectree.Base.Sorting.{sort_by}
use projectree.Base.Text.{truthy, text_of, lookup_text}
use projectree.Contracts.{
  NodeType, GraphState, JudgmentResult, decision, action, issue, new_decision, attach,
  node_type_of_text, active,
}
use projectree.Validation.Evidence.{
  TextTools, Segments, Evidence, ResolvedEvidence, EvidenceResolution, resolve_item_evidence,
  or_empty,
}
use projectree.Validation.Fields.{Item, Judgment}
use projectree.Validation.Rules.{member}
use projectree.Validation.Judgments.{SortKey, key_leb, key_of}
use projectree.ChangePlan.{
  PlanOp, create_decision, create_action, create_issue, record_minutes, ParentRef, EvidenceRef,
  Command, command,
}

-- `a or b`
abbrev pub or_else : Option String → Option String → Option String
or_else a b = if truthy a then a else b

abbrev first_value : List String → Option String
first_value [] = none
first_value (v ∷ vs) = some v

-- `_coerce_category`, over the values of the category set.
unfoldable pub coerce_category : List String → Option String → Option String
coerce_category values value =
    if truthy value && member (text_of value) values
    then some (text_of value)
    else if member "ETC" values
    then some "ETC"
    else first_value values

-- The dict `offsets`: the last resolved entry of a segment counts.
abbrev offsets_of : String → List ResolvedEvidence → Option ℕ × Option ℕ
offsets_of id [] = (none, none)
offsets_of id (r ∷ resolved) =
    let later = offsets_of id resolved in
    if any (λ q. str_eq q.segment_id id) resolved
    then later
    else if str_eq r.segment_id id
    then (r.char_start, r.char_end)
    else (none, none)

abbrev refs_of : List ResolvedEvidence → List Evidence → List EvidenceRef
refs_of resolved [] = []
refs_of resolved (ev ∷ evidence) =
    let rest = refs_of resolved evidence in
    let (start, end) = offsets_of (or_empty ev.segment_id) resolved in
    if truthy ev.segment_id
    then record {
      segment_id = or_empty ev.segment_id;
      quote = or_empty ev.quote;
      quote_start = start;
      quote_end = end;
    }
      ∷ rest
    else rest

-- `_evidence_refs`
unfoldable pub evidence_refs : TextTools → Segments → Item → List EvidenceRef
evidence_refs tools segments it =
    refs_of (resolve_item_evidence tools segments it.evidence).resolved it.evidence

-- An item before the later ones; the last item of its id takes its place.
abbrev pub put_first : Item → Option Item → List Item → List Item
put_first it none later = it ∷ later
put_first it (some last) later = last ∷ keep (λ i. not (str_eq i.id it.id)) later

-- `items_by_id`: the last item of an id, in the place of its first.
abbrev pub items_by_id : List Item → List Item
items_by_id [] = []
items_by_id (it ∷ items) =
    let later = items_by_id items in put_first it (find (λ i. str_eq i.id it.id) later) later

-- The judgments of a validation result.
abbrev pub judgments_in : List (Option Judgment) → List Judgment
judgments_in [] = []
judgments_in (none ∷ js) = judgments_in js
judgments_in (some j ∷ js) = j ∷ judgments_in js

-- `judgment_by_id.get(id)`
abbrev pub judgment_of : List Judgment → String → Option Judgment
judgment_of [] id = none
judgment_of (j ∷ js) id = elim (judgment_of js id) [
  | some later ↦ some later
  | none ↦ if str_eq j.item_id id then some j else none
]

-- `_ATTACH_OP_BY_TYPE`
abbrev pub attach_op : Option NodeType → Option PlanOp
attach_op (some action) = some create_action
attach_op (some issue) = some create_issue
attach_op _ = none

-- `_CREATE_OP_BY_TYPE`
abbrev pub create_op : Option NodeType → Option PlanOp
create_op (some decision) = some create_decision
create_op t = attach_op t

abbrev pub root : ParentRef
root = record { new_parent_item_id = none; existing_node_id = none }

-- The parent of an attachment: an item of this meeting, or a node.
abbrev pub attach_parent : List Item → String → ParentRef
attach_parent items target =
    if any (λ it. str_eq it.id target) items
    then record { new_parent_item_id = some target; existing_node_id = none }
    else record { new_parent_item_id = none; existing_node_id = some target }

module _ (tools : TextTools) (segments : Segments) (values : List String)
    (versions : List (String × ℕ)) where
  -- A command with the fields that every branch sets alike.
  abbrev pub bare : PlanOp → Item → Command
  bare op it = record {
    op = op;
    item_id = it.id;
    sort_key = key_of it.id (resolve_item_evidence tools segments it.evidence);
    node_type = none;
    category = none;
    title = none;
    content = none;
    parent = none;
    graph_state = active;
    evidence = [];
    target_action_id = none;
    changes = [];
    expected_version = none;
    reason = none;
  }

  -- A command that creates a node.
  abbrev pub creating :
      PlanOp → Option NodeType → Option String → ParentRef → GraphState → Item → Option Command
  creating op t value parent state it = Option.bind (coerce_category values value) (λ category.
      command (record (bare op it) {
        node_type = t;
        category = some category;
        title = it.title;
        content = some (or_empty it.content);
        parent = some parent;
        graph_state = state;
        evidence = evidence_refs tools segments it;
      }))

  -- The branches of the loop over the items.
  unfoldable pub item_command : List Item → Item → Judgment → Option JudgmentResult → Option Command
  item_command items it j (some new_decision) =
      creating create_decision (some decision) (or_else j.category it.predicted_category) root
        active it
  item_command items it j (some attach) = Option.bind (attach_op (node_type_of_text it.type)) (λ op.
      creating op (node_type_of_text it.type) it.predicted_category
        (attach_parent items (text_of j.attach_to)) active it)
  item_command items it j (some JudgmentResult.unattached) =
      Option.bind (create_op (node_type_of_text it.type)) (λ op.
        creating op (node_type_of_text it.type) it.predicted_category root GraphState.unattached it)
  item_command items it j (some JudgmentResult.update_action) =
      command (record (bare PlanOp.update_action it) {
        target_action_id = some (text_of j.target_action_id);
        changes = j.changes;
        expected_version = lookup_text (text_of j.target_action_id) versions;
      })
  item_command items it j _ = command (record (bare record_minutes it) {
    reason = some (text_of (or_else j.reason (some "NO_RELATED_DECISION")));
  })

  -- The loop; an item without a judgment has no command.
  unfoldable pub item_commands : List Item → List Judgment → List Item → Option (List Command)
  item_commands items judgments [] = some []
  item_commands items judgments (it ∷ rest) =
      let later = item_commands items judgments rest in
      elim (judgment_of judgments it.id) [
        | none ↦ later
        | some j ↦
            Option.bind (item_command items it j j.result) (λ c. Option.map (λ cs. c ∷ cs) later)
      ]

  -- The commands of `build_change_plan`, which passes the identifiers and the lineage on.
  unfoldable pub build_change_plan : List Item → List Judgment → Option (List Command)
  unfolding item_commands
  build_change_plan items judgments =
      Option.map (sort_by (λ a b. key_leb a.sort_key b.sort_key))
        (item_commands items judgments (items_by_id items))
