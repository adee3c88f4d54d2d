-- ===== src/Graph/Relations.antt =====
-- The relations between canonical nodes (`list_canonical_relations` of
-- data-pipeline/data_pipeline/pipeline/graph.py). The rows come in the order of the query; an id is
-- ordered as its text.
pub mod Listed
use projectree.Base.{
  ℕ, Bool, true, false, not, ◌&&◌, Option, none, some, List, [], ◌∷◌, String, any, keep,
  if◌then◌else◌, ◌==◌, str_eq, leb,
}
use projectree.Graph.{GraphNode, Result, ok, err, ◌>>=◌, is_some, resolve_canonical_node}

pub data RelationStatus : Type 0 where
  proposed confirmed rejected : RelationStatus

pub record Relation : Type 0 where
  pub id : ℕ
  pub project_id : String
  pub from_node : ℕ
  pub to_node : ℕ
  pub relation_type : String
  pub status : RelationStatus
  pub valid_to : Option ℕ

pub record CanonicalRelation : Type 0 where
  pub relation_id : ℕ
  pub relation_type : String
  pub original_from : ℕ
  pub original_to : ℕ
  pub canonical_from : ℕ
  pub canonical_to : ℕ

abbrev is_confirmed : RelationStatus → Bool
is_confirmed confirmed = true
is_confirmed _ = false

-- The query's rows: confirmed and still valid.
abbrev pub is_current : String → Relation → Bool
is_current project r =
    str_eq r.project_id project && (is_confirmed r.status && not (is_some r.valid_to))

abbrev pub RelationKey : Type 0
RelationKey = ℕ × ℕ × String

abbrev pub same_key : RelationKey → RelationKey → Bool
same_key a b = a.0 == b.0 && (a.1 == b.1 && str_eq a.2 b.2)

-- A RELATED_TO relation has no direction.
unfoldable pub relation_key : ℕ → ℕ → String → RelationKey
relation_key a b kind =
    if str_eq kind "RELATED_TO"
    then (if leb a b then (a, b, kind) else (b, a, kind))
    else (a, b, kind)

abbrev pub key_of : CanonicalRelation → RelationKey
key_of r = relation_key r.canonical_from r.canonical_to r.relation_type

abbrev pub canonical_relation : Relation → GraphNode → GraphNode → CanonicalRelation
canonical_relation r a b = record {
  relation_id = r.id;
  relation_type = r.relation_type;
  original_from = r.from_node;
  original_to = r.to_node;
  canonical_from = a.id;
  canonical_to = b.id;
}

unfoldable pub collect :
    String → List GraphNode → List RelationKey → List Relation → Result (List CanonicalRelation)
collect project nodes seen [] = ok []
collect project nodes seen (r ∷ relations) = do
  from ← resolve_canonical_node project none r.from_node nodes
  to ← resolve_canonical_node project none r.to_node nodes
  let key = relation_key from.id to.id r.relation_type
  let skipped = collect project nodes seen relations
  let listed = collect project nodes (key ∷ seen) relations >>= λ rest.
      ok (canonical_relation r from to ∷ rest)
  if from.id == to.id then skipped else if any (same_key key) seen then skipped else listed

unfoldable pub list_canonical_relations :
    String → List GraphNode → List Relation → Result (List CanonicalRelation)
list_canonical_relations project nodes relations =
    collect project nodes [] (keep (is_current project) relations)
