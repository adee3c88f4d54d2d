-- ===== src/Graph/Merge/Redirect.antt =====
-- What a merge does to the canonical nodes (`apply_logical_merge` of
-- data-pipeline/data_pipeline/pipeline/graph.py).
use projectree.Base.{
  ℕ, zero, suc, ◌+◌, ◌≡◌, refl, sym, ◌∙◌, ap, subst, ◌≤◌, inl, inr, true, false, not, Option, none,
  some, List, [], ◌∷◌, ◌++◌, String, Bool-cases, ◌==◌, ==_iff, ==_refl, holds, if◌then◌else◌, arith,
  str_eq, ◌&&◌, ◌||◌, ◌<◌,
}
use projectree.Base.Table.{when}
use projectree.Contracts.{NodeType}
use projectree.Graph.{
  GraphNode, ok, err, live, is_live_node, is_merged, is_canonical, resolve_canonical_node,
  same_type, merge_other_project, merge_itself, source_unavailable, type_mismatch, would_cycle,
  without_revision, refuse-eq-ok, >>=-eq-ok, is_some,
}
use projectree.Graph.Chains.{
  ResolvesIn, live-id, resolve_canonical_exact, ResolvesIn-end, not_both, same_some,
}
use projectree.Graph.Rows.{found_with, find-update_where}
use projectree.Graph.Store.{GraphStore, write_node}
use projectree.Graph.Merge.{MergeRequest, redirect, write_merge, new_operation, apply_logical_merge}

-- What a merge that succeeds has checked, and what it has written.
pub record Merging (project : String) (q : MergeRequest) (source target : GraphNode)
    (s s' : GraphStore) : Type 0 where
  pub canonical : GraphNode
  pub free : is_canonical source.graph_state ≡ true
  pub root : source.merged_into ≡ none
  pub apart : (canonical.id == source.id) ≡ false
  pub resolved :
      resolve_canonical_node project (some source.node_type) target.id s.nodes ≡ ok canonical
  pub written : write_merge project q source target canonical s ≡ s'

pub merging :
    (project : String) (q : MergeRequest) (source target : GraphNode) (s s' : GraphStore)
    → apply_logical_merge project q source target s ≡ ok s'
    → Merging project q source target s s'
unfolding apply_logical_merge
merging project q source target s s' h =
    let (_, h1) =
      refuse-eq-ok (not (str_eq source.project_id project && str_eq target.project_id project))
        merge_other_project _ h in
    let (_, h2) = refuse-eq-ok (source.id == target.id) merge_itself _ h1 in
    let (free, h3) =
      refuse-eq-ok (not (is_canonical source.graph_state) || is_some source.merged_into)
        source_unavailable _ h2 in
    let (_, h4) =
      refuse-eq-ok (not (same_type source.node_type target.node_type)) type_mismatch _ h3 in
    let (c, resolved, h5) =
      >>=-eq-ok (resolve_canonical_node project (some source.node_type) target.id s.nodes) _ h4 in
    let (apart, h6) = refuse-eq-ok (c.id == source.id) would_cycle _ h5 in
    let (_, h7) =
      refuse-eq-ok (not (is_some source.current_revision && is_some c.current_revision))
        without_revision _ h6 in
    record {
      canonical = c;
      free = ground (arith, free);
      root = ground (arith, free);
      apart = apart;
      resolved = resolved;
      written = ground (arith, h7);
    }

write_merge-nodes :
    (project : String) (q : MergeRequest) (source target canonical : GraphNode) (s : GraphStore)
    → (write_merge project q source target canonical s).nodes
      ≡ write_node source.id (redirect q canonical.id) s.nodes
unfolding write_merge
write_merge-nodes project q source target canonical s = refl

module _ {project : String} {q : MergeRequest} {source target : GraphNode} {s s' : GraphStore}
    (m : Merging project q source target s s') where
  open m use {canonical, written}

  pub operations-after :
      s'.operations ≡ s.operations ++ new_operation project q source target canonical ∷ []
  unfolding write_merge
  operations-after = ap (λ u. u.operations) (sym written)

  pub nodes-after : s'.nodes ≡ write_node source.id (redirect q canonical.id) s.nodes
  nodes-after =
      ap (λ u. u.nodes) (sym written) ∙ write_merge-nodes project q source target canonical s

module _ {project : String} {q : MergeRequest} {source target : GraphNode} {s s' : GraphStore}
    (m : Merging project q source target s s')
    (row : live project source.id s.nodes ≡ some source) where
  open m use {canonical, free, apart}

  pub live-after :
      (id : ℕ)
      → live project id s'.nodes
        ≡ found_with
            (when (λ k. k.id == source.id) (redirect q canonical.id))
            (live project id s.nodes)
  live-after id =
      ap (live project id) (nodes-after m)
      ∙ find-update_where (is_live_node project id) (λ k. k.id == source.id)
          (redirect q canonical.id) (λ n. refl) s.nodes

  -- Rows other than the source's stay.
  pub live-kept :
      (id : ℕ) (n : GraphNode)
      → live project id s.nodes ≡ some n
      → (n.id == source.id) ≡ false
      → live project id s'.nodes ≡ some n
  live-kept id n l e = live-after id ∙ rw (l, e) refl

  pub live-source : live project source.id s'.nodes ≡ some (redirect q canonical.id source)
  live-source = live-after source.id ∙ rw (row, ==_refl source.id) refl

  merged-apart :
      (id : ℕ) (n : GraphNode)
      → live project id s.nodes ≡ some n
      → is_merged n.graph_state ≡ true
      → (n.id == source.id) ≡ false
  merged-apart id n l moved = elim (Bool-cases (n.id == source.id)) [
    | inr e ↦ e
    | inl e ↦
        let here : id ≡ source.id =
          sym (live-id project id s.nodes l) ∙ (==_iff n.id source.id).0 e in
        let same : n ≡ source = same_some (sym l ∙ ap (λ i. live project i s.nodes) here ∙ row) in
        absurd (
          not_both source.graph_state (sym free)
            (ap (λ k. is_merged k.graph_state) (sym same) ∙ moved))
  ]

  module _ (t : NodeType) where
    pub ResolvesIn-kept :
        (c : GraphNode) (d id : ℕ)
        → (c.id == source.id) ≡ false
        → ResolvesIn project s.nodes t c id d
        → ResolvesIn project s'.nodes t c id d
    ResolvesIn-kept c zero id e r = (live-kept id c r.0 e, r.1, r.2, r.3)
    ResolvesIn-kept c (suc d) id e r = (
      r.0,
      r.1,
      live-kept id r.0 r.2 (merged-apart id r.0 r.2 r.4),
      r.3,
      r.4,
      r.5,
      ResolvesIn-kept c d r.1 e r.6,
    )

    pub ResolvesIn-moved :
        (d id : ℕ)
        → ResolvesIn project s.nodes t canonical canonical.id zero
        → ResolvesIn project s.nodes t source id d
        → ResolvesIn project s'.nodes t canonical id (suc d)
    ResolvesIn-moved zero id end r =
        let here : source.id ≡ id = live-id project id s.nodes r.0 in
        (
          redirect q canonical.id source,
          canonical.id,
          subst (λ i. live project i s'.nodes ≡ some (redirect q canonical.id source)) here
              live-source,
          r.1,
          refl,
          refl,
          (live-kept canonical.id canonical end.0 apart, end.1, end.2, end.3),
        )
    ResolvesIn-moved (suc d) id end r = (
      r.0,
      r.1,
      live-kept id r.0 r.2 (merged-apart id r.0 r.2 r.4),
      r.3,
      r.4,
      r.5,
      ResolvesIn-moved d r.1 end r.6,
    )

module _ {project : String} {q : MergeRequest} {source target : GraphNode} {s s' : GraphStore}
    (m : Merging project q source target s s')
    (row : live project source.id s.nodes ≡ some source) where
  open m use {canonical, resolved, free, root}

  canonical-end : ResolvesIn project s.nodes source.node_type canonical canonical.id zero
  canonical-end =
      let (fits, d, _, chain) =
        (resolve_canonical_exact project (some source.node_type) target.id s.nodes canonical).0
          resolved in
      subst (λ t. ResolvesIn project s.nodes t canonical canonical.id zero) (sym fits)
        (ResolvesIn-end project s.nodes canonical.node_type canonical target.id d chain)

  -- The node that a chain ends at is the source only if it is the source's row.
  ends_at_source :
      (t : NodeType) (c : GraphNode) (id d : ℕ)
      → ResolvesIn project s.nodes t c id d
      → (c.id == source.id) ≡ true
      → (c ≡ source) × (t ≡ source.node_type)
  ends_at_source t c id d r e =
      let end = ResolvesIn-end project s.nodes t c id d r in
      let same : c ≡ source =
        same_some
          (sym end.0 ∙ ap (λ i. live project i s.nodes) ((==_iff c.id source.id).0 e) ∙ row) in
      (same, sym end.1 ∙ ap (λ k. k.node_type) same)

  -- Each chain is one redirection longer at most.
  pub ResolvesIn-after :
      (t : NodeType) (c : GraphNode) (id d : ℕ)
      → ResolvesIn project s.nodes t c id d
      → (d' : ℕ) × (c' : GraphNode) × (d' ≤ suc d) × ResolvesIn project s'.nodes t c' id d'
  ResolvesIn-after t c id d r = elim (Bool-cases (c.id == source.id)) [
    | inr e ↦ (d, c, omega arith, ResolvesIn-kept m row t c d id e r)
    | inl e ↦
        let (same, own) = ends_at_source t c id d r e in
        (
          suc d,
          canonical,
          omega arith,
          ResolvesIn-moved m row t d id
              (subst (λ u. ResolvesIn project s.nodes u canonical canonical.id zero) (sym own)
                canonical-end)
              (subst (λ k. ResolvesIn project s.nodes t k id d) same r),
        )
  ]

-- The canonical id of a node, where it has one.
unfoldable pub canonical_id : String → List GraphNode → ℕ → Option ℕ
canonical_id project nodes id = elim (resolve_canonical_node project none id nodes) [
  | err e ↦ none
  | ok c ↦ some c.id
]

-- The abstract merge of two classes: the members of the first get the second's representative.
unfoldable pub union : (ℕ → Option ℕ) → ℕ → ℕ → ℕ → Option ℕ
union find_class source target id =
    let of_target = find_class target in
    if holds (find_class id) source then of_target else find_class id

pub canonical_id_of_chain :
    (project : String) (nodes : List GraphNode) (c : GraphNode) (id d : ℕ)
    → d < 128
    → ResolvesIn project nodes c.node_type c id d
    → canonical_id project nodes id ≡ some c.id
unfolding canonical_id
canonical_id_of_chain project nodes c id d short r =
    rw ((resolve_canonical_exact project none id nodes c).1 (refl, d, short, r), canonical_id) refl

-- A merge that succeeds refines the union of two classes: each node that fewer than 127
-- redirections lead on from, and that belonged to the source, is then resolved to the target's
-- canonical node; each other one is resolved to the node it was resolved to before.
pub apply_logical_merge_refines :
    (project : String) (q : MergeRequest) (source target : GraphNode) (s s' : GraphStore)
    → live project source.id s.nodes ≡ some source
    → apply_logical_merge project q source target s ≡ ok s'
    → (id d : ℕ) (c : GraphNode) → d + 1 < 128
    → ResolvesIn project s.nodes c.node_type c id d
    → canonical_id project s'.nodes id ≡ union (canonical_id project s.nodes) source.id target.id id
unfolding union
apply_logical_merge_refines project q source target s s' row h id d c short r =
    let m = merging project q source target s s' h in
    let (fits, d', short', chain) =
      (resolve_canonical_exact project (some source.node_type) target.id s.nodes m.canonical).0
        m.resolved in
    let before = canonical_id_of_chain project s.nodes c id d (omega arith) r in
    let of_target = canonical_id_of_chain project s.nodes m.canonical target.id d' short' chain in
    elim (Bool-cases (c.id == source.id)) [
      | inr e ↦
          canonical_id_of_chain project s'.nodes c id d (omega arith)
            (ResolvesIn-kept m row c.node_type c d id e r)
          ∙ rw (before, e) refl
      | inl e ↦
          let end = ResolvesIn-end project s.nodes c.node_type c id d r in
          let same : c ≡ source =
            same_some
              (sym end.0 ∙ ap (λ i. live project i s.nodes) ((==_iff c.id source.id).0 e) ∙ row) in
          let own : c.node_type ≡ m.canonical.node_type = ap (λ k. k.node_type) same ∙ fits in
          let moved =
            ResolvesIn-moved m row m.canonical.node_type d id
              (ResolvesIn-end project s.nodes m.canonical.node_type m.canonical target.id d' chain)
              (subst (λ t. ResolvesIn project s.nodes t source id d) own
                (subst (λ k. ResolvesIn project s.nodes c.node_type k id d) same r)) in
          canonical_id_of_chain project s'.nodes m.canonical id (suc d) (omega arith) moved
          ∙ rw (before, e, of_target) refl
    ]
