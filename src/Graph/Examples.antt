-- ===== src/Graph/Examples.antt =====
-- The graph's theorems at concrete stores.
use projectree.Base.{
  ℕ, ◌≡◌, ◌<◌, refl, true, false, none, some, List, [], ◌∷◌, String, All, ◌==◌, arith, keep, ◌↔◌,
  map,
}
use projectree.Base.Table.{when}
use projectree.Contracts.{decision}
use projectree.Graph.{
  active, GraphNode, GraphError, dependent_merge, ok, err, live, type_or, get_project_node, hop,
  follow, resolve_canonical_node,
}
use projectree.Graph.Chains.{ResolvesIn, resolve_canonical_exact}
use projectree.Graph.Rows.{found_with}
use projectree.Graph.Store.{
  GraphStore, NodeRevision, MergeOperation, bump_graph_version, mark_node_embedding_stale,
}
use projectree.Graph.Merge.{
  MergeRequest, apply_logical_merge, unmerge_operation, write_merge, write_unmerge, undo_applied,
  dependents, revision_to_restore, incoming_dependencies, redirect, new_operation, find_operation,
}
use projectree.Graph.Merge.Redirect.{canonical_id, union, apply_logical_merge_refines}
use projectree.Graph.Merge.RoundTrip.{bumped, unmerge-apply_logical_merge}
use projectree.Graph.Merge.Dependents.{unmerge-apply_logical_merge_refused}
use projectree.Graph.UserMerges.{
  MergeAction, merge_nodes, undo, merge_again, perform_all, perform, user_merge_nodes,
  remerge_operation,
}
use projectree.Graph.Forest.Total.{resolve_canonical_node_total}
use projectree.Graph.Relations.{
  Relation, confirmed, CanonicalRelation, collect, relation_key, list_canonical_relations,
  is_current,
}
use projectree.Graph.Relations.Listed.{NoLoop, Distinct, IsListed, list_canonical_relations_lem}

abbrev decision_node : ℕ → GraphNode
decision_node id = record {
  id = id;
  project_id = "p";
  source_meeting_id = "m";
  source_candidate = none;
  node_type = decision;
  category = "PLAN";
  title = "title";
  content = "content";
  graph_state = active;
  merged_into = none;
  parent_id = none;
  current_revision = some id;
  version = 1;
  last_actor = "SYSTEM";
  needs_attention = false;
  created_at = 0;
  updated_at = 0;
  is_deleted = false;
}

abbrev revision_of : ℕ → NodeRevision
revision_of id = record { id = id; project_id = "p"; node_id = id; requires_evidence = true }

abbrev start : GraphStore
start = record {
  nodes = decision_node 1 ∷ decision_node 2 ∷ decision_node 3 ∷ [];
  operations = [];
  dependencies = [];
  histories = [];
  revisions = revision_of 1 ∷ revision_of 2 ∷ revision_of 3 ∷ [];
  revision_evidence = record { project_id = "p"; revision_id = 1 } ∷ [];
  embeddings = [];
  commanded = [];
  graph_versions = [];
  changes = [];
  outbox = [];
}

abbrev request : ℕ → MergeRequest
request id = record {
  operation = id;
  actor_type = "USER";
  actor_id = some "u";
  generation_run = none;
  reason_code = "USER_CONFIRMED_IDENTITY";
  reason_text = none;
  now = 5;
}

-- 1 is merged into 2.
abbrev first_merge : GraphStore
unfolding write_merge incoming_dependencies mark_node_embedding_stale
first_merge =
    write_merge "p" (request 10) (decision_node 1) (decision_node 2) (decision_node 2) start

first_merge_ok :
    apply_logical_merge "p" (request 10) (decision_node 1) (decision_node 2) start ≡ ok first_merge
unfolding apply_logical_merge resolve_canonical_node get_project_node follow hop first_merge
first_merge_ok = refl

-- Then 2 into 3.
abbrev second_merge : GraphStore
unfolding first_merge
second_merge =
    write_merge "p" (request 11) (decision_node 2) (decision_node 3) (decision_node 3) first_merge

second_merge_ok :
    apply_logical_merge "p" (request 11) (decision_node 2) (decision_node 3) first_merge
    ≡ ok second_merge
unfolding apply_logical_merge resolve_canonical_node get_project_node follow hop first_merge
    second_merge
second_merge_ok = refl

resolve_canonical_exact_example :
    (resolve_canonical_node "p" none 1 first_merge.nodes ≡ ok (decision_node 2)) ↔ (
      (type_or none decision ≡ decision)
      × (d : ℕ) × (d < 128)
      × ResolvesIn "p" first_merge.nodes decision (decision_node 2) 1 d)
resolve_canonical_exact_example =
    resolve_canonical_exact "p" none 1 first_merge.nodes (decision_node 2)

apply_logical_merge_refines_example :
    canonical_id "p" second_merge.nodes 1 ≡ union (canonical_id "p" first_merge.nodes) 2 3 1
unfolding first_merge
apply_logical_merge_refines_example =
    apply_logical_merge_refines "p" (request 11) (decision_node 2) (decision_node 3) first_merge
      second_merge refl second_merge_ok 1 1 (decision_node 2) (omega arith)
      (
        redirect (request 10) 2 (decision_node 1),
        2,
        refl,
        refl,
        refl,
        refl,
        (refl, refl, refl, refl),
      )

union_runs : canonical_id "p" second_merge.nodes 1 ≡ some 3
unfolding canonical_id resolve_canonical_node get_project_node follow hop first_merge second_merge
union_runs = refl

revision_found : revision_to_restore "p" (decision_node 1) start ≡ some (revision_of 1)
unfolding revision_to_restore
revision_found = refl

unmerge-apply_logical_merge_example :
    (s'' : GraphStore) × (unmerge_operation "p" "u" 9 10 first_merge ≡ ok s'')
    × ((id : ℕ)
        → live "p" id s''.nodes
          ≡ found_with (when (λ k. k.id == 1) (bumped 9)) (live "p" id start.nodes))
unmerge-apply_logical_merge_example =
    unmerge-apply_logical_merge "p" "u" 9 (request 10) (decision_node 1) (decision_node 2)
      (revision_of 1) start first_merge refl refl refl revision_found refl first_merge_ok

first_operation : MergeOperation
first_operation =
    new_operation "p" (request 10) (decision_node 1) (decision_node 2) (decision_node 2)

first_operation_found : find_operation "p" 10 first_merge.operations ≡ some first_operation
unfolding first_merge first_operation
first_operation_found = refl

unmerge-apply_logical_merge_refused_example :
    (e : GraphError) × (unmerge_operation "p" "u" 9 10 second_merge ≡ err e)
unfolding first_operation
unmerge-apply_logical_merge_refused_example =
    unmerge-apply_logical_merge_refused "p" "u" 9 (request 11) (decision_node 2) (decision_node 3)
      first_merge second_merge first_operation second_merge_ok first_operation_found refl refl refl

undo_is_refused : unmerge_operation "p" "u" 9 10 second_merge ≡ err dependent_merge
unfolding unmerge_operation undo_applied dependents first_merge second_merge
undo_is_refused = refl

abbrev same_text : String → String
same_text s = s

abbrev no_remark : ℕ → String
no_remark id = ""

-- A merge, its undo, the merge again, and another merge on top of it.
abbrev requests : List MergeAction
requests =
    merge_nodes 10 5 1 2 1 1 "u" ""
    ∷ undo 6 10 "u"
    ∷ merge_again 12 7 10 "u"
    ∷ merge_nodes 13 8 2 3 1 1 "u" ""
    ∷ []

abbrev after_requests : GraphStore
unfolding perform_all perform user_merge_nodes remerge_operation unmerge_operation undo_applied
    dependents revision_to_restore apply_logical_merge write_unmerge resolve_canonical_node
    get_project_node follow hop first_merge bump_graph_version
after_requests = perform_all same_text no_remark "p" requests start

chain_after : map (λ n. n.merged_into) after_requests.nodes ≡ some 2 ∷ some 3 ∷ none ∷ []
unfolding after_requests
chain_after = refl

resolve_canonical_node_total_example :
    (c : GraphNode) × (resolve_canonical_node "p" none 3
        (perform_all same_text no_remark "p" requests start).nodes
      ≡ ok c)
    × (c.node_type ≡ decision)
unfolding after_requests
resolve_canonical_node_total_example =
    resolve_canonical_node_total same_text no_remark "p" requests start
      (((λ e. omega arith), ((λ e. omega arith), tt)), (((λ e. omega arith), tt), (tt, tt)))
      (refl, (refl, (refl, tt))) ((refl, refl), ((refl, refl), ((refl, refl), tt))) tt (omega arith)
      3 (decision_node 3) refl refl

abbrev related : ℕ → ℕ → ℕ → Relation
related id a b = record {
  id = id;
  project_id = "p";
  from_node = a;
  to_node = b;
  relation_type = "RELATED_TO";
  status = confirmed;
  valid_to = none;
}

abbrev relations : List Relation
relations = related 1 1 3 ∷ related 2 3 2 ∷ related 3 1 2 ∷ []

abbrev listed : List CanonicalRelation
listed =
    record {
      relation_id = 1;
      relation_type = "RELATED_TO";
      original_from = 1;
      original_to = 3;
      canonical_from = 2;
      canonical_to = 3;
    }
    ∷ []

listed_once : list_canonical_relations "p" first_merge.nodes relations ≡ ok listed
unfolding list_canonical_relations collect relation_key resolve_canonical_node get_project_node
    follow hop first_merge
listed_once = refl

list_canonical_relations_lem_example :
    All NoLoop listed
    × Distinct listed
    × All (IsListed "p" first_merge.nodes listed) (keep (is_current "p") relations)
list_canonical_relations_lem_example =
    list_canonical_relations_lem "p" first_merge.nodes relations listed listed_once
