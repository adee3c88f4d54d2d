-- ===== src/DecisionFirst/ParentHint.antt =====
-- The parent that a node's candidate proposed (`resolve_same_meeting_parent_hint` of
-- data-pipeline/data_pipeline/pipeline/parent_hint.py).
use projectree.Base.{
  ℕ, ◌≡◌, Bool, true, false, not, ◌&&◌, Option, none, some, List, find, if◌then◌else◌, ◌==◌,
  Bool-cases, inl, inr, arith, str_eq,
}
use projectree.Graph.{GraphNode, is_canonical}
use projectree.DecisionFirst.{canonical_hint}

pub data ParentMode : Type 0 where
  inherit no_parent candidate_parent node_parent : ParentMode

pub data ReviewStatus : Type 0 where
  pending approved rejected : ReviewStatus

-- The columns of a candidate that the hint reads.
pub record NodeCandidate : Type 0 where
  pub id : ℕ
  pub suggested_parent_candidate : Option ℕ
  pub suggested_parent_node : Option ℕ
  pub reviewed_parent_mode : ParentMode
  pub reviewed_parent_candidate : Option ℕ
  pub reviewed_parent_node : Option ℕ
  pub review_status : ReviewStatus
  pub initial_review_node : Option ℕ

pub data HintOrigin : Type 0 where
  same_meeting_candidate suggested_node : HintOrigin

pub record ParentHint : Type 0 where
  pub node_id : ℕ
  pub node_version : ℕ
  pub origin : HintOrigin

-- `_effective_parent_ids`, by the mode of the review
abbrev pub effective_parent_ids : NodeCandidate → ParentMode → Option ℕ × Option ℕ
effective_parent_ids c inherit = (c.suggested_parent_candidate, c.suggested_parent_node)
effective_parent_ids c candidate_parent = (c.reviewed_parent_candidate, none)
effective_parent_ids c node_parent = (none, c.reviewed_parent_node)
effective_parent_ids c no_parent = (none, none)

abbrev is_approved : ReviewStatus → Bool
is_approved approved = true
is_approved _ = false

abbrev get_node : List GraphNode → Option ℕ → Option GraphNode
get_node nodes none = none
get_node nodes (some id) = find (λ n. n.id == id) nodes

abbrev get_candidate : List NodeCandidate → Option ℕ → Option NodeCandidate
get_candidate candidates none = none
get_candidate candidates (some id) = find (λ c. c.id == id) candidates

-- The node of an approved candidate.
abbrev approved_node : List GraphNode → Option NodeCandidate → Option GraphNode
approved_node nodes none = none
approved_node nodes (some c) =
    if is_approved c.review_status then get_node nodes c.initial_review_node else none

-- The parent with its origin, before its chain is followed.
abbrev pub proposed_parent :
    List NodeCandidate → List GraphNode → Option ℕ × Option ℕ → Option (GraphNode × HintOrigin)
proposed_parent candidates nodes (some candidate, _) =
    elim (approved_node nodes (get_candidate candidates (some candidate))) [
      | none ↦ none
      | some n ↦ some (n, same_meeting_candidate)
    ]
proposed_parent candidates nodes (none, node) = elim (get_node nodes node) [
  | none ↦ none
  | some n ↦ some (n, suggested_node)
]

-- The parent may be shown beside the node.
abbrev pub is_shown : GraphNode → GraphNode → Bool
is_shown source parent =
    str_eq parent.project_id source.project_id
    && (not (parent.id == source.id) && is_canonical parent.graph_state)

abbrev pub hint_to : GraphNode → HintOrigin → Option GraphNode → Option ParentHint
hint_to source origin none = none
hint_to source origin (some parent) =
    if is_shown source parent
    then some (record { node_id = parent.id; node_version = parent.version; origin = origin })
    else none

abbrev pub hint_of :
    List GraphNode → GraphNode → Option (GraphNode × HintOrigin) → Option ParentHint
hint_of nodes source none = none
hint_of nodes source (some (parent, origin)) =
    hint_to source origin (canonical_hint source.project_id nodes parent)

abbrev pub hint_for :
    List NodeCandidate → List GraphNode → GraphNode → Option NodeCandidate → Option ParentHint
hint_for candidates nodes source none = none
hint_for candidates nodes source (some c) =
    hint_of nodes source
      (proposed_parent candidates nodes (effective_parent_ids c c.reviewed_parent_mode))

unfoldable pub resolve_parent_hint :
    List NodeCandidate → List GraphNode → GraphNode → Option ParentHint
resolve_parent_hint candidates nodes source =
    hint_for candidates nodes source (get_candidate candidates source.source_candidate)

module _ (nodes : List GraphNode) (source : GraphNode) where
  -- Where a hint leads: an ACTIVE or UNATTACHED node of the project other than the source itself.
  abbrev pub LeadsTo : ParentHint → GraphNode → Type 0
  LeadsTo hint parent =
      (hint.node_id ≡ parent.id)
      × (hint.node_version ≡ parent.version)
      × (is_shown source parent ≡ true)

  hint_to-LeadsTo :
      (origin : HintOrigin) (found : Option GraphNode) (hint : ParentHint)
      → hint_to source origin found ≡ some hint
      → (parent : GraphNode) × LeadsTo hint parent
  hint_to-LeadsTo origin none hint h = cc
  hint_to-LeadsTo origin (some parent) hint h = elim (Bool-cases (is_shown source parent)) [
    | inl e ↦ (parent, (ground (arith, e, h), ground (arith, e, h), e))
    | inr e ↦ ground (arith, e, h)
  ]

  hint_of-LeadsTo :
      (found : Option (GraphNode × HintOrigin)) (hint : ParentHint)
      → hint_of nodes source found ≡ some hint
      → (parent : GraphNode) × LeadsTo hint parent
  hint_of-LeadsTo none hint h = cc
  hint_of-LeadsTo (some (parent, origin)) hint h =
      hint_to-LeadsTo origin (canonical_hint source.project_id nodes parent) hint h

  -- A hint always leads to such a node.
  pub resolve_parent_hint-LeadsTo :
      (candidates : List NodeCandidate) (hint : ParentHint)
      → resolve_parent_hint candidates nodes source ≡ some hint
      → (parent : GraphNode) × LeadsTo hint parent
  unfolding resolve_parent_hint
  resolve_parent_hint-LeadsTo candidates hint h =
      of_candidate (get_candidate candidates source.source_candidate) h
    where
      of_candidate :
          (c : Option NodeCandidate)
          → hint_for candidates nodes source c ≡ some hint
          → (parent : GraphNode) × LeadsTo hint parent
      of_candidate none h = cc
      of_candidate (some c) h =
          hint_of-LeadsTo
            (proposed_parent candidates nodes (effective_parent_ids c c.reviewed_parent_mode)) hint
            h
