-- ===== src/ChangePlan/Store.antt =====
-- The application of a change plan to the nodes of a project
-- (`apply_change_plan` of data-pipeline/data_pipeline/pipeline/apply.py). The whole plan is one
-- transaction: an exception gives no store, since the caller rolls back. A node id is the canonical
-- text of its uuid, and the ids that new nodes get are an argument.
pub mod Order
pub mod Written
use mathlib.Core.Option
use projectree.Base.{
  ℕ, suc, ◌+◌, Bool, true, false, not, ◌&&◌, ◌||◌, Option, none, some, List, [], ◌∷◌, ◌++◌, map,
  String, any, all, find, if◌then◌else◌, str_eq, ◌==◌,
}
use projectree.Base.Table.{update_where}
use projectree.Base.Text.{truthy, text_of, lookup_text}
use projectree.Contracts.{NodeType, GraphState, parent_rule_violation, action, is_action}
use projectree.Validation.Evidence.{TextTools, is_nil, or_empty}
use projectree.Validation.Rules.{member}
use projectree.ChangePlan.{PlanOp, update_action, is_create, ParentRef, EvidenceRef, Command}
use projectree.ChangePlan.Apply.{ordered_for_apply}

pub record Node : Type 0 where
  pub id : String
  pub project_id : String
  pub source_meeting_id : String
  pub source_item_id : String
  pub node_type : NodeType
  pub category : Option String
  pub title : String
  pub content : String
  pub parent_id : Option String
  pub graph_state : GraphState
  pub version : ℕ
  pub due_date : Option String
  pub evidence : List EvidenceRef

-- `_snapshot`
pub record Snapshot : Type 0 where
  pub node_id : String
  pub node_type : NodeType
  pub category : Option String
  pub title : String
  pub parent_id : Option String
  pub graph_state : GraphState
  pub version : ℕ
  pub due_date : Option String

abbrev pub snapshot : Node → Snapshot
snapshot n = record {
  node_id = n.id;
  node_type = n.node_type;
  category = n.category;
  title = n.title;
  parent_id = n.parent_id;
  graph_state = n.graph_state;
  version = n.version;
  due_date = n.due_date;
}

pub data Change : Type 0 where
  created_node : String → Snapshot → Change
  updated_node : String → Snapshot → Snapshot → Change
  minutes_only : Option String → Change

pub record CreatedNode : Type 0 where
  pub item_id : String
  pub node_id : String
  pub node_type : NodeType
  pub parent_id : Option String

pub record UpdatedNode : Type 0 where
  pub item_id : String
  pub node_id : String
  pub changes : List (String × String)
  pub from_version : ℕ
  pub to_version : ℕ

pub record MinutesOnlyEntry : Type 0 where
  pub item_id : String
  pub reason : String

-- The loop's results so far; `drawn` counts the ids taken.
pub record Applying : Type 0 where
  pub nodes : List Node
  pub drawn : ℕ
  pub item_node : List (String × (String × NodeType))
  pub created : List CreatedNode
  pub updated : List UpdatedNode
  pub minutes : List MinutesOnlyEntry
  pub applied_order : List String
  pub skipped : List (String × String)
  pub changes : List (String × Change)

pub data Failure : Type 0 where
  disabled cycle unknown_parent parent_rule_broken unknown_category no_target not_an_action :
      Failure
  stale_version : String → Option ℕ → ℕ → Failure

pub data Applied : Type 0 where
  failed : Failure → Applied
  done : Applying → Applied

abbrev pub get_node : String → List Node → Option Node
get_node id nodes = find (λ n. str_eq n.id id) nodes

-- `_resolve_parent`: none is the ApplyError, `some none` a root.
unfoldable pub resolve_parent : Option ParentRef → Applying → Option (Option (String × NodeType))
resolve_parent none p = some none
resolve_parent (some ref) p =
    if truthy ref.new_parent_item_id
    then Option.map some (lookup_text (text_of ref.new_parent_item_id) p.item_node)
    else if truthy ref.existing_node_id
    then Option.map (λ n. some (n.id, n.node_type))
        (get_node (text_of ref.existing_node_id) p.nodes)
    else some none

abbrev same_segments : List EvidenceRef → List EvidenceRef → Bool
same_segments a b =
    all (λ x. any (λ y. str_eq x.segment_id y.segment_id) b) a
    && all (λ y. any (λ x. str_eq x.segment_id y.segment_id) a) b

-- `_find_duplicate`
unfoldable pub find_duplicate_node : TextTools → String → String → Command → List Node → Option Node
find_duplicate_node tools project meeting cmd nodes =
    elim (find
      (λ n.
        str_eq n.project_id project
        && (str_eq n.source_meeting_id meeting && str_eq n.source_item_id cmd.item_id))
      nodes) [
        | some natural ↦ some natural
        | none ↦
            find
              (λ n.
                str_eq n.project_id project
                && (str_eq (tools.normalize_quote n.title)
                      (tools.normalize_quote (or_empty cmd.title))
                    && (same_segments n.evidence cmd.evidence && not (is_nil cmd.evidence))))
              nodes
      ]

abbrev same_offset : Option ℕ → Option ℕ → Bool
same_offset none none = true
same_offset (some m) (some n) = m == n
same_offset _ _ = false

-- `upsert_node_evidence` on a node: the same evidence is kept once.
abbrev pub add_evidence : List EvidenceRef → List EvidenceRef → List EvidenceRef
add_evidence [] kept = kept
add_evidence (e ∷ es) kept = add_evidence es (
    if any
      (λ k.
        str_eq k.segment_id e.segment_id
        && (str_eq k.quote e.quote
            && (same_offset k.quote_start e.quote_start && same_offset k.quote_end e.quote_end)))
      kept
    then kept
    else kept ++ e ∷ [])

abbrev pub is_present {ℓ} : {A : Type ℓ} → Option A → Bool
is_present none = false
is_present (some a) = true

module _ (tools : TextTools) (values : List String) (new_id : ℕ → String)
    (project meeting : String) where
  abbrev fresh_node : Command → NodeType → Option String → ℕ → Node
  fresh_node cmd t parent drawn = record {
    id = new_id drawn;
    project_id = project;
    source_meeting_id = meeting;
    source_item_id = cmd.item_id;
    node_type = t;
    category = cmd.category;
    title = or_empty cmd.title;
    content = or_empty cmd.content;
    parent_id = parent;
    graph_state = cmd.graph_state;
    version = 1;
    due_date = none;
    evidence = add_evidence cmd.evidence [];
  }

  abbrev pub insert : Command → Node → Applying → Applying
  insert cmd node p = record p {
    nodes = p.nodes ++ node ∷ [];
    drawn = suc p.drawn;
    item_node = (cmd.item_id, (node.id, node.node_type)) ∷ p.item_node;
    created =
        p.created
        ++ record {
          item_id = cmd.item_id;
          node_id = node.id;
          node_type = node.node_type;
          parent_id = node.parent_id;
        }
          ∷ [];
    changes = p.changes ++ (cmd.item_id, created_node node.id (snapshot node)) ∷ [];
  }

  abbrev pub skip : Command → Node → Applying → Applying
  skip cmd dup p = record p {
    item_node = (cmd.item_id, (dup.id, dup.node_type)) ∷ p.item_node;
    skipped = p.skipped ++ (cmd.item_id, dup.id) ∷ [];
  }

  abbrev pub add_or_skip : Command → NodeType → Option String → Applying → Option Node → Applied
  add_or_skip cmd t parent p none = done (insert cmd (fresh_node cmd t parent p.drawn) p)
  add_or_skip cmd t parent p (some dup) = done (skip cmd dup p)

  abbrev pub create_under :
      Command → NodeType → Applying → Option (Option (String × NodeType)) → Applied
  create_under cmd t p none = failed unknown_parent
  create_under cmd t p (some parent) =
      if is_present (parent_rule_violation t (Option.map (λ x. x.1) parent) cmd.graph_state)
      then failed parent_rule_broken
      else if not (is_present cmd.category && member (text_of cmd.category) values)
      then failed unknown_category
      else add_or_skip cmd t (Option.map (λ x. x.0) parent) p
          (find_duplicate_node tools project meeting cmd p.nodes)

  abbrev pub expected_or : Option ℕ → ℕ → ℕ
  expected_or none v = v
  expected_or (some e) v = e

  -- UPDATE ... WHERE version = expected
  abbrev pub update_node : Command → Node → Applying → Applied
  update_node cmd node p =
      let from = expected_or cmd.expected_version node.version in
      let changed = record node {
        version = from + 1;
        due_date = elim (lookup_text "dueDate" cmd.changes) [
          | none ↦ node.due_date
          | some d ↦ some d
        ];
      } in
      if not (is_action node.node_type)
      then failed not_an_action
      else if not (node.version == from)
      then failed (stale_version (text_of cmd.target_action_id) cmd.expected_version node.version)
      else done (record p {
        nodes = update_where (λ n. str_eq n.id node.id) (λ n. changed) p.nodes;
        updated =
            p.updated
            ++ record {
              item_id = cmd.item_id;
              node_id = node.id;
              changes = cmd.changes;
              from_version = node.version;
              to_version = from + 1;
            }
              ∷ [];
        changes =
            p.changes
            ++ (cmd.item_id, updated_node node.id (snapshot node) (snapshot changed)) ∷ [];
      })

  abbrev pub record_entry : Command → Applying → Applying
  record_entry cmd p = record p {
    minutes =
        p.minutes
        ++ record {
          item_id = cmd.item_id;
          reason = if truthy cmd.reason then text_of cmd.reason else "NO_RELATED_DECISION";
        }
          ∷ [];
    changes = p.changes ++ (cmd.item_id, minutes_only cmd.reason) ∷ [];
  }

  abbrev pub update_target : Command → Applying → Option Node → Applied
  update_target cmd p none = failed no_target
  update_target cmd p (some node) = update_node cmd node p

  abbrev pub apply_by : Command → Applying → Option NodeType → PlanOp → Applied
  apply_by cmd p t update_action =
      update_target cmd p (get_node (text_of cmd.target_action_id) p.nodes)
  apply_by cmd p t PlanOp.record_minutes = done (record_entry cmd p)
  apply_by cmd p none op = failed unknown_parent
  apply_by cmd p (some t) op = create_under cmd t p (resolve_parent cmd.parent p)

  -- One turn of the loop.
  unfoldable pub apply_command : Command → Applying → Applied
  apply_command cmd p =
      apply_by cmd (record p { applied_order = p.applied_order ++ cmd.item_id ∷ [] }) cmd.node_type
        cmd.op

  unfoldable pub apply_each : List Command → Applying → Applied
  apply_each [] p = done p
  apply_each (cmd ∷ cmds) p = elim (apply_command cmd p) [
    | failed e ↦ failed e
    | done q ↦ apply_each cmds q
  ]

  abbrev pub nothing_yet : List Node → Applying
  nothing_yet nodes = record {
    nodes = nodes;
    drawn = 0;
    item_node = [];
    created = [];
    updated = [];
    minutes = [];
    applied_order = [];
    skipped = [];
    changes = [];
  }

  -- `apply_change_plan`, where `enabled` is the guard of the legacy path.
  unfoldable pub apply_change_plan : Bool → List Command → List Node → Applied
  unfolding apply_each
  apply_change_plan enabled commands nodes =
      if not enabled then failed disabled else elim (ordered_for_apply commands) [
        | none ↦ failed cycle
        | some ordered ↦ apply_each ordered (nothing_yet nodes)
      ]
