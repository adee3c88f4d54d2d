-- ===== src/Graph/Forest.antt =====
-- The shape of the merge chains, which merges and undos keep
-- (data-pipeline/data_pipeline/pipeline/graph.py and pipeline/user_graph.py).
pub mod Undo
pub mod Total
use projectree.Base.{
  mem_of_find, ℕ, zero, suc, ◌+◌, ◌≡◌, ◌≤◌, refl, sym, ◌∙◌, ap, subst, inl, inr, Bool, true, false,
  not, Option, none, some, List, [], ◌∷◌, ◌++◌, String, All, All-and, All-of_mem, All-append,
  All-mem, Memᴰ, find, Bool-cases, ◌==◌, ==_iff, arith, ◌||◌,
}
use projectree.Base.Table.{
  UniqueBy, UniqueBy-eq, UniqueBy-map, All-update_where, update_where, when,
}
use projectree.Graph.{
  NodeState, deleted, GraphNode, Result, ok, err, live, is_live_node, is_merged, is_canonical,
}
use projectree.Graph.Chains.{ResolvesIn, live-id, same_some}
use projectree.Graph.Rows.{UniqueBy-write_node, All-write_node, live-update_inv, LiveUpdate}
use projectree.Graph.Store.{GraphStore, MergeOperation, write_node}
use projectree.Graph.Merge.{MergeRequest, redirect, restore, new_operation, apply_logical_merge}
use projectree.Graph.Merge.Redirect.{Merging, nodes-after, operations-after, ResolvesIn-after}

abbrev pub is_deleted_state : NodeState → Bool
is_deleted_state deleted = true
is_deleted_state _ = false

-- The table's constraint on soft-deleted rows.
abbrev pub Shaped : GraphNode → Type 0
Shaped n = n.is_deleted ≡ is_deleted_state n.graph_state

-- An undo brings a source back to a canonical state.
abbrev pub Returns : MergeOperation → Type 0
Returns o = is_canonical o.source_original_state ≡ true

-- A node that is canonical or redirected.
abbrev pub is_placed : GraphNode → Bool
is_placed n = is_canonical n.graph_state || is_merged n.graph_state

-- Each placed node of the project leads to a canonical one by at most `k` redirections.
pub record Forest (project : String) (k : ℕ) (s : GraphStore) : Type 0 where
  pub keys : UniqueBy (λ n. n.id) s.nodes
  pub shaped : All Shaped s.nodes
  pub returns : All Returns s.operations
  pub rooted :
      (id : ℕ) (n : GraphNode)
      → live project id s.nodes ≡ some n
      → is_placed n ≡ true
      → (d : ℕ) × (c : GraphNode) × (d ≤ k) × ResolvesIn project s.nodes n.node_type c id d

pub deleted-canonical : (s : NodeState) → is_canonical s ≡ true → is_deleted_state s ≡ false
deleted-canonical s h = ground arith

pub deleted-merged : (s : NodeState) → is_merged s ≡ true → is_deleted_state s ≡ false
deleted-merged s h = ground arith

module _ {project : String} {q : MergeRequest} {source target : GraphNode} {s s' : GraphStore}
    (m : Merging project q source target s s')
    (row : live project source.id s.nodes ≡ some source) where
  open m use {canonical, free, root}

  placed-after :
      (k : ℕ)
      → Forest project k s
      → (id : ℕ) (n : GraphNode) → live project id s'.nodes ≡ some n
      → is_placed n ≡ true
      → (d : ℕ) × (c : GraphNode) × (d ≤ suc k) × ResolvesIn project s'.nodes n.node_type c id d
  placed-after k f id n l placed =
      elim (live-update_inv project source (redirect q canonical.id) s.nodes row (λ i x. refl) id n
        (ap (live project id) (sym (nodes-after m)) ∙ l)) [
          | inl h ↦
              let start : ResolvesIn project s.nodes source.node_type source id zero =
                (ap (λ i. live project i s.nodes) h.0 ∙ row, refl, free, root) in
              let (d, c, short, r) = ResolvesIn-after m row source.node_type source id zero start in
              (
                d,
                c,
                omega arith,
                subst (λ t. ResolvesIn project s'.nodes t c id d) (ap (λ x. x.node_type) (sym h.1))
                    r,
              )
          | inr h ↦
              let (d, c, short, r) = f.rooted id n h.0 placed in
              let (d', c', short', r') = ResolvesIn-after m row n.node_type c id d r in
              (d', c', omega arith, r')
        ]

  pub merging-Forest : (k : ℕ) → Forest project k s → Forest project (suc k) s'
  merging-Forest k f = record {
    keys =
        subst (UniqueBy (λ n. n.id)) (sym (nodes-after m))
          (UniqueBy-write_node (redirect q canonical.id) (λ n. refl) source.id s.nodes f.keys);
    shaped = subst (All Shaped) (sym (nodes-after m)) (
        All-write_node Shaped (redirect q canonical.id) source s.nodes f.keys
          (mem_of_find (is_live_node project source.id) s.nodes row)
          (All-mem Shaped s.nodes f.shaped
              (mem_of_find (is_live_node project source.id) s.nodes row)
            ∙ deleted-canonical source.graph_state free)
          f.shaped);
    returns = subst (All Returns) (sym (operations-after m)) (
        All-append Returns s.operations (new_operation project q source target canonical ∷ [])
          f.returns (free, tt));
    rooted = placed-after k f;
  }
