-- ===== src/Graph/Merge.antt =====
-- The logical merge and its undo (`apply_logical_merge` and `unmerge_operation` of
-- data-pipeline/data_pipeline/pipeline/graph.py). A new operation's id and the time are arguments;
-- an error gives no store, since the transaction is rolled back.
pub mod Redirect
pub mod RoundTrip
pub mod Dependents
use projectree.Base.{
  ℕ, suc, ◌+◌, Bool, true, false, not, ◌&&◌, ◌||◌, Option, none, some, List, [], ◌∷◌, ◌++◌, map,
  String, any, find, keep, if◌then◌else◌, ◌==◌, ◌≡◌, refl, str_eq, holds,
}
use projectree.Base.Table.{update_where}
use projectree.Graph.{
  GraphNode, NodeState, active, unattached, merged, GraphError, other_project,
  unavailable_operation, merge_other_project, merge_itself, source_unavailable, type_mismatch,
  would_cycle, without_revision, source_changed, no_revision, no_evidence, dependent_merge,
  multiple_rows, Result, ok, err, ◌>>=◌, ◌>>◌, refuse, or_raise, same_type, is_merged, is_canonical,
  is_some, get_project_node, resolve_canonical_node,
}
use projectree.Graph.Store.{
  MergeOperation, MergeStatus, applied, reverted, MergeDependency, MergeHistory, NodeRevision,
  GraphStore, mark_of, write_node, mark_node_embedding_stale, audit_and_outbox, merge_of,
  unmerge_of, stage_project_graph_changed,
}

-- Who merges, when, and why; `operation` is the id that the new row gets.
pub record MergeRequest : Type 0 where
  pub operation : ℕ
  pub actor_type : String
  pub actor_id : Option String
  pub generation_run : Option ℕ
  pub reason_code : String
  pub reason_text : Option String
  pub now : ℕ

abbrev pub is_applied : MergeStatus → Bool
is_applied applied = true
is_applied reverted = false

abbrev pub new_operation :
    String → MergeRequest → GraphNode → GraphNode → GraphNode → MergeOperation
new_operation project q source target canonical = record {
  id = q.operation;
  project_id = project;
  source_node_id = source.id;
  source_version = source.version;
  target_node_id = target.id;
  target_version = canonical.version;
  resolved_target = canonical.id;
  source_original_state = source.graph_state;
  actor_type = q.actor_type;
  actor_id = q.actor_id;
  generation_run = q.generation_run;
  reason_code = q.reason_code;
  reason_text = q.reason_text;
  status = applied;
  applied_at = q.now;
  reverted_at = none;
  reverted_by = none;
}

-- A merge depends on the applied ones that lead to its source.
unfoldable pub incoming_dependencies : String → ℕ → ℕ → List MergeOperation → List MergeDependency
incoming_dependencies project operation source operations =
    map (λ o. record { project_id = project; operation_id = operation; depends_on = o.id })
      (keep
        (λ o.
          str_eq o.project_id project
          && (is_applied o.status && (o.resolved_target == source && not (o.id == operation))))
        operations)

-- The source is redirected.
abbrev pub redirect : MergeRequest → ℕ → GraphNode → GraphNode
redirect q target n = record n {
  graph_state = merged;
  merged_into = some target;
  version = n.version + 1;
  last_actor = q.actor_type;
  updated_at = q.now;
}

abbrev or_actor_type : MergeRequest → String
or_actor_type q = elim q.actor_id [
  | none ↦ q.actor_type
  | some actor ↦ if str_eq actor "" then q.actor_type else actor
]

-- The legacy history keeps the first merge of a source.
abbrev add_history : MergeHistory → List MergeHistory → List MergeHistory
add_history h rows =
    if any (λ r. r.source_node_id == h.source_node_id) rows then rows else rows ++ h ∷ []

abbrev is_commanded : String → String → List (String × String) → Bool
is_commanded project meeting = any (λ c. str_eq c.0 project && str_eq c.1 meeting)

-- Everything a merge writes, once its checks have passed.
unfoldable pub write_merge :
    String → MergeRequest → (source target canonical : GraphNode) → GraphStore → GraphStore
write_merge project q source target canonical s =
    audit_and_outbox project (redirect q canonical.id source) "LOGICAL_MERGE" q.actor_type
      q.generation_run (mark_of source) (merge_of q.operation target.id canonical.id q.reason_code)
      (not (is_commanded project source.source_meeting_id s.commanded))
      (record s {
        nodes = write_node source.id (redirect q canonical.id) s.nodes;
        operations = s.operations ++ new_operation project q source target canonical ∷ [];
        dependencies =
            s.dependencies ++ incoming_dependencies project q.operation source.id s.operations;
        embeddings = mark_node_embedding_stale source.id s.embeddings;
        histories =
            add_history
              (record {
                project_id = project;
                source_node_id = source.id;
                target_node_id = canonical.id;
                approved_by = or_actor_type q;
                approved_at = q.now;
                source_version = source.version;
                target_version = canonical.version;
                merged_title = canonical.title;
                merged_content = canonical.content;
              })
              s.histories;
      })

-- The operation that was added is `q.operation`.
unfoldable pub apply_logical_merge :
    String → MergeRequest → (source target : GraphNode) → GraphStore → Result GraphStore
apply_logical_merge project q source target s = do
  refuse (not (str_eq source.project_id project && str_eq target.project_id project))
      merge_other_project
  refuse (source.id == target.id) merge_itself
  refuse (not (is_canonical source.graph_state) || is_some source.merged_into) source_unavailable
  refuse (not (same_type source.node_type target.node_type)) type_mismatch
  canonical ← resolve_canonical_node project (some source.node_type) target.id s.nodes
  refuse (canonical.id == source.id) would_cycle
  refuse (not (is_some source.current_revision && is_some canonical.current_revision))
      without_revision
  ok (write_merge project q source target canonical s)

-- The applied merges that depend on an operation. `scalar_one_or_none` raises on a second one.
unfoldable pub dependents : String → ℕ → GraphStore → List ℕ
dependents project operation s =
    map (λ d. d.operation_id)
      (keep
        (λ d.
          str_eq d.project_id project
          && (d.depends_on == operation
              && any (λ o. o.id == d.operation_id && is_applied o.status) s.operations))
        s.dependencies)

abbrev pub no_dependent : List ℕ → Result (Unit {0})
no_dependent [] = ok tt
no_dependent (_ ∷ []) = err dependent_merge
no_dependent (_ ∷ _ ∷ _) = err multiple_rows

abbrev pub check_recoverable : String → NodeRevision → GraphStore → Result (Unit {0})
check_recoverable project r s =
    if r.requires_evidence
    then refuse
        (not (any (λ e. str_eq e.project_id project && e.revision_id == r.id) s.revision_evidence))
        no_evidence
    else ok tt

-- The current revision of the source, which must be there.
unfoldable pub revision_to_restore : String → GraphNode → GraphStore → Option NodeRevision
revision_to_restore project n s =
    find (λ r. holds n.current_revision r.id && (str_eq r.project_id project && r.node_id == n.id))
      s.revisions

abbrev pub restore : NodeState → Bool → ℕ → GraphNode → GraphNode
restore original moved now n = record n {
  graph_state = original;
  merged_into = none;
  version = n.version + 1;
  last_actor = "USER";
  updated_at = now;
  needs_attention = n.needs_attention || moved;
}

abbrev pub revert : String → ℕ → MergeOperation → MergeOperation
revert actor now o = record o {
  status = reverted;
  reverted_at = some now;
  reverted_by = some actor;
}

unfoldable pub write_unmerge :
    String → String → ℕ → MergeOperation → (source target : GraphNode) → GraphStore → GraphStore
write_unmerge project actor now o source target s =
    let back = restore o.source_original_state (not (target.version == o.target_version)) now in
    stage_project_graph_changed project (back source ∷ target ∷ []) [] (
      audit_and_outbox project (back source) "LOGICAL_UNMERGE" "USER" none (mark_of source)
        (unmerge_of o.id actor) true
        (record s {
          nodes = write_node source.id back s.nodes;
          embeddings = mark_node_embedding_stale source.id s.embeddings;
          operations = update_where (λ p. p.id == o.id) (revert actor now) s.operations;
        }))

pub write_unmerge-nodes :
    (project actor : String) (now : ℕ) (o : MergeOperation) (source target : GraphNode)
    (s : GraphStore)
    → (write_unmerge project actor now o source target s).nodes
      ≡ write_node source.id
          (restore o.source_original_state (not (target.version == o.target_version)) now)
          s.nodes
unfolding write_unmerge
write_unmerge-nodes project actor now o source target s = refl

pub write_unmerge-operations :
    (project actor : String) (now : ℕ) (o : MergeOperation) (source target : GraphNode)
    (s : GraphStore)
    → (write_unmerge project actor now o source target s).operations
      ≡ update_where (λ p. p.id == o.id) (revert actor now) s.operations
unfolding write_unmerge
write_unmerge-operations project actor now o source target s = refl

abbrev pub find_operation : String → ℕ → List MergeOperation → Option MergeOperation
find_operation project id = find (λ o. o.id == id && str_eq o.project_id project)

unfoldable pub undo_applied : String → String → ℕ → MergeOperation → GraphStore → Result GraphStore
undo_applied project actor now o s = do
  no_dependent (dependents project o.id s)
  source ← get_project_node project o.source_node_id s.nodes
  refuse (not (is_merged source.graph_state) || not (holds source.merged_into o.resolved_target))
      source_changed
  revision ← or_raise (revision_to_restore project source s) no_revision
  check_recoverable project revision s
  target ← get_project_node project o.resolved_target s.nodes
  ok (write_unmerge project actor now o source target s)

unfoldable pub unmerge_operation : String → String → ℕ → ℕ → GraphStore → Result GraphStore
unmerge_operation project actor now id s = do
  o ← or_raise (find_operation project id s.operations) unavailable_operation
  if is_applied o.status then undo_applied project actor now o s else ok s

pub unmerge_operation-applied :
    (project actor : String) (now id : ℕ) (o : MergeOperation) (s : GraphStore)
    → find_operation project id s.operations ≡ some o
    → is_applied o.status ≡ true
    → unmerge_operation project actor now id s ≡ undo_applied project actor now o s
unfolding unmerge_operation
unmerge_operation-applied project actor now id o s f a = rw (f, a) refl
