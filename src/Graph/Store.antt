-- ===== src/Graph/Store.antt =====
-- The tables that a graph operation writes (data-pipeline/data_pipeline/storage/models.py), and the
-- events it stages: `_audit_and_outbox` of data-pipeline/data_pipeline/pipeline/graph.py,
-- `mark_node_embedding_stale` of pipeline/revisions.py and the project's graph version of
-- pipeline/event_contract.py. A payload is the list of the rows it copies; the JSON around it, and a
-- merge's identity basis and scores, are passed through by the source and left out.
use projectree.Base.{
  ℕ, ◌+◌, Bool, true, false, ◌&&◌, Option, List, [], ◌∷◌, ◌++◌, String, if◌then◌else◌, ◌==◌, str_eq,
  leb,
}
use projectree.Base.Sorting.{sort_by}
use projectree.Base.Table.{update_where}
use projectree.Graph.{GraphNode, NodeState}

pub data MergeStatus : Type 0 where
  applied reverted : MergeStatus

pub record MergeOperation : Type 0 where
  pub id : ℕ
  pub project_id : String
  pub source_node_id : ℕ
  pub source_version : ℕ
  pub target_node_id : ℕ
  pub target_version : ℕ
  pub resolved_target : ℕ
  pub source_original_state : NodeState
  pub actor_type : String
  pub actor_id : Option String
  pub generation_run : Option ℕ
  pub reason_code : String
  pub reason_text : Option String
  pub status : MergeStatus
  pub applied_at : ℕ
  pub reverted_at : Option ℕ
  pub reverted_by : Option String

pub record MergeDependency : Type 0 where
  pub project_id : String
  pub operation_id : ℕ
  pub depends_on : ℕ

-- NodeMergeHistory, one row per source.
pub record MergeHistory : Type 0 where
  pub project_id : String
  pub source_node_id : ℕ
  pub target_node_id : ℕ
  pub approved_by : String
  pub approved_at : ℕ
  pub source_version : ℕ
  pub target_version : ℕ
  pub merged_title : String
  pub merged_content : String

pub record NodeRevision : Type 0 where
  pub id : ℕ
  pub project_id : String
  pub node_id : ℕ
  pub requires_evidence : Bool

pub record RevisionEvidence : Type 0 where
  pub project_id : String
  pub revision_id : ℕ

pub data EmbeddingStatus : Type 0 where
  pending ready stale failed : EmbeddingStatus

pub record NodeEmbedding : Type 0 where
  pub node_id : ℕ
  pub status : EmbeddingStatus

-- What `_audit_and_outbox` notes of a node before and after.
pub record NodeMark : Type 0 where
  pub node_id : ℕ
  pub graph_state : NodeState
  pub merged_into : Option ℕ
  pub version : ℕ

pub data ChangeDetail : Type 0 where
  merge_of : (operation target resolved : ℕ) → String → ChangeDetail
  unmerge_of : ℕ → String → ChangeDetail

pub record GraphChange : Type 0 where
  pub project_id : String
  pub request_id : Option ℕ
  pub node_id : ℕ
  pub change_type : String
  pub actor_type : String
  pub before : NodeMark
  pub after : NodeMark
  pub detail : ChangeDetail

pub data GraphEvent : Type 0 where
  graph_changed : String → String → ℕ → ChangeDetail → GraphEvent
  project_graph_changed : String → ℕ → List GraphNode → List GraphNode → GraphEvent

pub record GraphStore : Type 0 where
  pub nodes : List GraphNode
  pub operations : List MergeOperation
  pub dependencies : List MergeDependency
  pub histories : List MergeHistory
  pub revisions : List NodeRevision
  pub revision_evidence : List RevisionEvidence
  pub embeddings : List NodeEmbedding
  -- The meetings, by project, that an analysis command was received for.
  pub commanded : List (String × String)
  pub graph_versions : List (String × ℕ)
  pub changes : List GraphChange
  pub outbox : List GraphEvent

abbrev pub mark_of : GraphNode → NodeMark
mark_of n = record {
  node_id = n.id;
  graph_state = n.graph_state;
  merged_into = n.merged_into;
  version = n.version;
}

-- The row of a loaded node is written.
abbrev pub write_node : ℕ → (GraphNode → GraphNode) → List GraphNode → List GraphNode
write_node id f = update_where (λ n. n.id == id) f

abbrev pub is_ready : EmbeddingStatus → Bool
is_ready ready = true
is_ready _ = false

unfoldable pub mark_node_embedding_stale : ℕ → List NodeEmbedding → List NodeEmbedding
mark_node_embedding_stale id =
    update_where (λ e. e.node_id == id && is_ready e.status) (λ e. record e { status = stale })

abbrev pub audit_and_outbox :
    String
    → GraphNode
    → String
    → String
    → Option ℕ
    → NodeMark
    → ChangeDetail
    → Bool
    → GraphStore
    → GraphStore
audit_and_outbox project n change_type actor_type request before detail emit_legacy s = record s {
  changes =
      s.changes
      ++ record {
        project_id = project;
        request_id = request;
        node_id = n.id;
        change_type = change_type;
        actor_type = actor_type;
        before = before;
        after = mark_of n;
        detail = detail;
      }
        ∷ [];
  outbox =
      if emit_legacy
      then s.outbox ++ graph_changed project change_type n.id detail ∷ []
      else s.outbox;
}

-- `bump_graph_version`: an upsert; a project without a row has version 0.
unfoldable pub bump_graph_version : String → List (String × ℕ) → List (String × ℕ) × ℕ
bump_graph_version project [] = ((project, 1) ∷ [], 1)
bump_graph_version project ((key, version) ∷ rows) =
    let rest = bump_graph_version project rows in
    if str_eq key project
    then ((key, version + 1) ∷ rows, version + 1)
    else ((key, version) ∷ rest.0, rest.1)

abbrev pub by_id : List GraphNode → List GraphNode
by_id = sort_by (λ a b. leb a.id b.id)

abbrev pub stage_project_graph_changed :
    String → (upserted removed : List GraphNode) → GraphStore → GraphStore
stage_project_graph_changed project upserted removed s =
    let (versions, version) = bump_graph_version project s.graph_versions in
    record s {
      graph_versions = versions;
      outbox =
          s.outbox ++ project_graph_changed project version (by_id upserted) (by_id removed) ∷ [];
    }
