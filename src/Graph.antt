-- ===== src/Graph.antt =====
-- The project graph's rows and its canonical reads
-- (data-pipeline/data_pipeline/pipeline/graph.py). A uuid is a number in the order of its text, and
-- an operation's error is a value of `GraphError`, one for each message that the code raises.
-- Row locks have no counterpart: an operation is one transaction.
pub mod Store
pub mod Merge
pub mod UserMerges
pub mod Forest
mod Examples
pub mod Relations
pub mod Chains
pub mod Rows
use projectree.Base.{
  ℕ, zero, suc, Bool, true, false, not, ◌&&◌, Option, none, some, List, [], ◌∷◌, String, any, find,
  if◌then◌else◌, ◌==◌, str_eq, ◌≡◌, refl, arith,
}
pub use projectree.Base.Result.{
  ok, err, ◌>>=◌, ◌>>◌, refuse, or_raise, >>=-eq-ok, refuse-eq-ok, or_raise-eq-ok,
}
use projectree.Base.Result.{Fallible}
use projectree.Contracts.{NodeType, decision, action, issue}

-- The graph states that the node table allows.
pub data NodeState : Type 0 where
  active unattached excluded merged archived deleted : NodeState

pub record GraphNode : Type 0 where
  pub id : ℕ
  pub project_id : String
  pub source_meeting_id : String
  pub source_candidate : Option ℕ
  pub node_type : NodeType
  pub category : String
  pub title : String
  pub content : String
  pub graph_state : NodeState
  pub merged_into : Option ℕ
  pub parent_id : Option ℕ
  pub current_revision : Option ℕ
  pub version : ℕ
  pub last_actor : String
  pub needs_attention : Bool
  pub created_at : ℕ
  pub updated_at : ℕ
  pub is_deleted : Bool

pub data GraphError : Type 0 where
  other_project unavailable_operation merge_other_project merge_itself source_unavailable
        type_mismatch would_cycle without_revision type_changed stray_target no_target
        crosses_project missing_target too_many_hops source_changed no_revision no_evidence
        dependent_merge multiple_rows missing_merge_nodes :
      GraphError
  node_not_found cycle_at : ℕ → GraphError
  unavailable_target : NodeState → GraphError
  version_conflict : ℕ → ℕ → ℕ → GraphError

abbrev pub Result {ℓ} : Type ℓ → Type ℓ
Result A = Fallible GraphError A

abbrev pub same_type : NodeType → NodeType → Bool
same_type decision decision = true
same_type action action = true
same_type issue issue = true
same_type _ _ = false

pub same_type→eq : (s t : NodeType) → same_type s t ≡ true → s ≡ t
same_type→eq s t h = ground arith

pub eq→same_type : (s t : NodeType) → s ≡ t → same_type s t ≡ true
eq→same_type s t h = ground arith

abbrev pub is_merged : NodeState → Bool
is_merged merged = true
is_merged _ = false

-- `_CANONICAL_STATES`
abbrev pub is_canonical : NodeState → Bool
is_canonical active = true
is_canonical unattached = true
is_canonical _ = false

abbrev pub is_some {ℓ} : {A : Type ℓ} → Option A → Bool
is_some none = false
is_some (some _) = true

-- A row of the project that is not soft-deleted.
abbrev pub is_live_node : String → ℕ → GraphNode → Bool
is_live_node project id n = n.id == id && (str_eq n.project_id project && not n.is_deleted)

abbrev pub live : String → ℕ → List GraphNode → Option GraphNode
live project id = find (is_live_node project id)

-- `_node_in_any_project`
abbrev pub in_any_project : ℕ → List GraphNode → Bool
in_any_project id = any (λ n. n.id == id)

abbrev or_not_found : ℕ → List GraphNode → Option GraphNode → Result GraphNode
or_not_found id nodes (some n) = ok n
or_not_found id nodes none =
    if in_any_project id nodes then err other_project else err (node_not_found id)

unfoldable pub get_project_node : String → ℕ → List GraphNode → Result GraphNode
get_project_node project id nodes = or_not_found id nodes (live project id nodes)

-- One turn of the loop: the canonical node, or the node to go on with.
pub data Hop : Type 0 where
  arrived : GraphNode → Hop
  redirected : GraphNode → Hop

abbrev at_end : GraphNode → Result Hop
at_end n = do
  refuse (is_some n.merged_into) stray_target
  refuse (not (is_canonical n.graph_state)) (unavailable_target n.graph_state)
  ok (arrived n)

abbrev next_hop : String → List GraphNode → Option ℕ → Result Hop
next_hop project nodes none = err no_target
next_hop project nodes (some id) = elim (live project id nodes) [
  | some n ↦ ok (redirected n)
  | none ↦ if in_any_project id nodes then err crosses_project else err missing_target
]

unfoldable pub hop : String → NodeType → List ℕ → List GraphNode → GraphNode → Result Hop
hop project expected visited nodes n = do
  refuse (any (λ v. v == n.id) visited) (cycle_at n.id)
  refuse (not (same_type n.node_type expected)) type_changed
  if is_merged n.graph_state then next_hop project nodes n.merged_into else at_end n

-- `for _ in range(_MAX_CANONICAL_HOPS)`
unfoldable pub follow :
    ℕ → String → NodeType → List ℕ → List GraphNode → GraphNode → Result GraphNode
follow zero project expected visited nodes n = err too_many_hops
follow (suc turns) project expected visited nodes n = elim (hop project expected visited nodes n) [
  | err e ↦ err e
  | ok (arrived c) ↦ ok c
  | ok (redirected m) ↦ follow turns project expected (n.id ∷ visited) nodes m
]

abbrev pub max_canonical_hops : ℕ
max_canonical_hops = 128

-- `expected_node_type or current.node_type`
abbrev pub type_or : Option NodeType → NodeType → NodeType
type_or (some t) own = t
type_or none own = own

unfoldable pub resolve_canonical_node :
    String → Option NodeType → ℕ → List GraphNode → Result GraphNode
resolve_canonical_node project expected id nodes = do
  n ← get_project_node project id nodes
  follow max_canonical_hops project (type_or expected n.node_type) [] nodes n
