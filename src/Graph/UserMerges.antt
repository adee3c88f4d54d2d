-- ===== src/Graph/UserMerges.antt =====
-- The merges that a user asks for (`user_merge_nodes` and `remerge_operation` of
-- data-pipeline/data_pipeline/pipeline/user_graph.py), and sequences of them and of undos. The id
-- that a new operation gets and the time are arguments, and so is Python's `str.strip`.
use projectree.Base.{
  ℕ, Bool, not, ◌&&◌, Option, none, some, List, [], ◌∷◌, String, find, if◌then◌else◌, ◌==◌, str_eq,
}
use projectree.Graph.{
  GraphNode, merge_itself, missing_merge_nodes, version_conflict, unavailable_operation, Result, ok,
  err, ◌>>=◌, ◌>>◌, refuse, or_raise, get_project_node, resolve_canonical_node,
}
use projectree.Graph.Store.{GraphStore, stage_project_graph_changed}
use projectree.Graph.Merge.{
  MergeRequest, apply_logical_merge, unmerge_operation, find_operation, is_applied,
}

-- A row of the project, soft-deleted or not.
abbrev pub is_stored_node : String → ℕ → GraphNode → Bool
is_stored_node project id n = n.id == id && str_eq n.project_id project

abbrev pub stored_node : String → ℕ → List GraphNode → Option GraphNode
stored_node project id = find (is_stored_node project id)

-- `reason.strip() or None`
abbrev pub text_or_none : String → Option String
text_or_none s = if str_eq s "" then none else some s

abbrev pub user_request :
    (operation now : ℕ) → (actor reason_code : String) → Option String → MergeRequest
user_request operation now actor reason_code reason = record {
  operation = operation;
  actor_type = "USER";
  actor_id = some actor;
  generation_run = none;
  reason_code = reason_code;
  reason_text = reason;
  now = now;
}

-- The source as the merge has left it, with the node it leads to.
abbrev pub publish_merge : String → ℕ → GraphNode → GraphStore → Result GraphStore
publish_merge project source_id target s = do
  source ← or_raise (stored_node project source_id s.nodes) missing_merge_nodes
  ok (stage_project_graph_changed project (source ∷ target ∷ []) [] s)

abbrev pub check_version : GraphNode → ℕ → Result (Unit {0})
check_version n expected =
    refuse (not (n.version == expected)) (version_conflict n.id expected n.version)

unfoldable pub user_merge_nodes :
    (String → String)
    → String
    → (operation now : ℕ) → (source target : ℕ) → (source_version target_version : ℕ)
    → (actor reason : String) → GraphStore
    → Result GraphStore
user_merge_nodes strip project operation now source_id target_id source_version target_version actor
      reason s =
    do
      refuse (source_id == target_id) merge_itself
      source ← or_raise (stored_node project source_id s.nodes) missing_merge_nodes
      target ← or_raise (stored_node project target_id s.nodes) missing_merge_nodes
      check_version source source_version
      check_version target target_version
      s' ←
          apply_logical_merge project
            (user_request operation now actor "USER_CONFIRMED_IDENTITY"
              (text_or_none (strip reason)))
            source target s
      canonical ← resolve_canonical_node project none target_id s'.nodes
      publish_merge project source_id canonical s'

-- `reason_text` is a text around the operation's id, given as `remark`.
abbrev pub remerge_reverted :
    (ℕ → String)
    → String
    → (operation now : ℕ) → String
    → (previous source target : ℕ) → GraphStore
    → Result GraphStore
remerge_reverted remark project operation now actor previous source_id target_id s = do
  source ← get_project_node project source_id s.nodes
  target ← resolve_canonical_node project (some source.node_type) target_id s.nodes
  s' ←
      apply_logical_merge project
        (user_request operation now actor "USER_REMERGE" (some (remark previous))) source target s
  publish_merge project source_id target s'

unfoldable pub remerge_operation :
    (ℕ → String) → String → (operation now : ℕ) → String → ℕ → GraphStore → Result GraphStore
remerge_operation remark project operation now actor id s = do
  previous ← or_raise (find_operation project id s.operations) unavailable_operation
  let unchanged = get_project_node project previous.source_node_id s.nodes >>= λ _. ok s
  let merged_again =
      remerge_reverted remark project operation now actor previous.id previous.source_node_id
        previous.target_node_id s
  if is_applied previous.status then unchanged else merged_again

-- A user's request; `operation` is the id that a merge's row would get.
pub data MergeAction : Type 0 where
  merge_nodes :
      (operation now source target source_version target_version : ℕ)
      → (actor reason : String) → MergeAction
  undo : (now id : ℕ) → String → MergeAction
  merge_again : (operation now id : ℕ) → String → MergeAction

unfoldable pub perform :
    (String → String) → (ℕ → String) → String → MergeAction → GraphStore → Result GraphStore
perform strip remark project (merge_nodes operation now source target sv tv actor reason) s =
    user_merge_nodes strip project operation now source target sv tv actor reason s
perform strip remark project (undo now id actor) s = unmerge_operation project actor now id s
perform strip remark project (merge_again operation now id actor) s =
    remerge_operation remark project operation now actor id s

-- An error rolls the transaction back.
abbrev pub or_rolled_back : GraphStore → Result GraphStore → GraphStore
or_rolled_back s (ok s') = s'
or_rolled_back s (err e) = s

-- The store after requests of which those that fail change nothing.
unfoldable pub perform_all :
    (String → String) → (ℕ → String) → String → List MergeAction → GraphStore → GraphStore
perform_all strip remark project [] s = s
perform_all strip remark project (a ∷ actions) s =
    perform_all strip remark project actions (or_rolled_back s (perform strip remark project a s))
