-- ===== src/Graph/Forest/Undo.antt =====
-- An undo and the merge chains (`unmerge_operation` of
-- data-pipeline/data_pipeline/pipeline/graph.py).
use projectree.Base.{
  mem_of_find, ℕ, zero, suc, ◌≡◌, ◌≤◌, refl, sym, ◌∙◌, ap, subst, ◌⊎◌, inl, inr, true, false, not,
  some, List, String, All, All-mem, Bool-cases, Option-cases, ◌==◌, ==_iff, arith, ◌||◌, holds,
}
use projectree.Base.Table.{UniqueBy, All-update_where}
use projectree.Contracts.{NodeType}
use projectree.Graph.{
  GraphNode, ok, or_raise, or_raise-eq-ok, refuse-eq-ok, >>=-eq-ok, live, is_live_node, is_merged,
  is_canonical, get_project_node, source_changed, unavailable_operation, no_revision,
}
use projectree.Graph.Chains.{ResolvesIn, live-id, same_some, not_both}
use projectree.Graph.Rows.{
  UniqueBy-write_node, All-write_node, live-update_inv, live-update_kept, live-update_row,
}
use projectree.Graph.Store.{GraphStore, MergeOperation, write_node}
use projectree.Graph.Merge.{
  restore, write_unmerge, write_unmerge-nodes, write_unmerge-operations, revert, unmerge_operation,
  undo_applied, find_operation, is_applied, dependents, no_dependent, revision_to_restore,
  check_recoverable,
}
use projectree.Graph.Forest.{Forest, Shaped, is_placed, Returns, deleted-canonical, deleted-merged}

-- What an undo that succeeds has checked, and what it has written.
pub record Undoing (project actor : String) (now : ℕ) (o : MergeOperation) (s s' : GraphStore)
    : Type 0 where
  pub source : GraphNode
  pub target : GraphNode
  pub row : live project o.source_node_id s.nodes ≡ some source
  pub moved : is_merged source.graph_state ≡ true
  pub written : write_unmerge project actor now o source target s ≡ s'

pub live_of_ok :
    (project : String) (id : ℕ) (nodes : List GraphNode) (n : GraphNode)
    → get_project_node project id nodes ≡ ok n
    → live project id nodes ≡ some n
unfolding get_project_node
live_of_ok project id nodes n h = elim (Option-cases (live project id nodes)) [
  | inl l ↦ ground (arith, l)
  | inr l ↦ l.1 ∙ ground (arith, l.1)
]

pub undoing :
    (project actor : String) (now : ℕ) (o : MergeOperation) (s s' : GraphStore)
    → undo_applied project actor now o s ≡ ok s'
    → Undoing project actor now o s s'
unfolding undo_applied
undoing project actor now o s s' h =
    let (_, _, h1) = >>=-eq-ok (no_dependent (dependents project o.id s)) _ h in
    let (source, l, h2) = >>=-eq-ok (get_project_node project o.source_node_id s.nodes) _ h1 in
    let (moved, h3) =
      refuse-eq-ok
        (not (is_merged source.graph_state) || not (holds source.merged_into o.resolved_target))
        source_changed _ h2 in
    let (r, _, h4) = >>=-eq-ok (or_raise (revision_to_restore project source s) no_revision) _ h3 in
    let (_, _, h5) = >>=-eq-ok (check_recoverable project r s) _ h4 in
    let (target, _, h6) = >>=-eq-ok (get_project_node project o.resolved_target s.nodes) _ h5 in
    record {
      source = source;
      target = target;
      row = live_of_ok project o.source_node_id s.nodes source l;
      moved = ground (arith, moved);
      written = ground (arith, h6);
    }

-- An undo that succeeds found an operation, and it was applied or nothing changes.
pub unmerge_operation-inv :
    (project actor : String) (now id : ℕ) (s s' : GraphStore)
    → unmerge_operation project actor now id s ≡ ok s'
    → (o : MergeOperation) × (find_operation project id s.operations ≡ some o)
      × ((s ≡ s') ⊎ (undo_applied project actor now o s ≡ ok s'))
unfolding unmerge_operation
unmerge_operation-inv project actor now id s s' h =
    let (o, f, h1) =
      >>=-eq-ok (or_raise (find_operation project id s.operations) unavailable_operation) _ h in
    (
      o,
      or_raise-eq-ok (find_operation project id s.operations) unavailable_operation f,
      elim (Bool-cases (is_applied o.status)) [
        | inl a ↦ inr (ground (arith, a))
        | inr a ↦ inl (ground (arith, a))
      ],
    )

module _ {project actor : String} {now : ℕ} {o : MergeOperation} {s s' : GraphStore}
    (u : Undoing project actor now o s s')
    (original : is_canonical o.source_original_state ≡ true) where
  open u use {source, target, row, moved, written}

  abbrev back : GraphNode → GraphNode
  back = restore o.source_original_state (not (target.version == o.target_version)) now

  at : o.source_node_id ≡ source.id
  at = sym (live-id project o.source_node_id s.nodes row)

  own_row : live project source.id s.nodes ≡ some source
  own_row = subst (λ i. live project i s.nodes ≡ some source) at row

  nodes-after : s'.nodes ≡ write_node source.id back s.nodes
  nodes-after =
      ap (λ x. x.nodes) (sym written) ∙ write_unmerge-nodes project actor now o source target s

  kept :
      (id : ℕ) (n : GraphNode)
      → live project id s.nodes ≡ some n
      → (n.id == source.id) ≡ false
      → live project id s'.nodes ≡ some n
  kept id n l e =
      ap (live project id) nodes-after
      ∙ live-update_kept project source back s.nodes own_row (λ i x. refl) id n l e

  restored : live project source.id s'.nodes ≡ some (back source)
  restored =
      ap (live project source.id) nodes-after
      ∙ live-update_row project source back s.nodes own_row (λ i x. refl)

  -- The row that a chain goes through is the source's only where it has the source's id.
  is_source :
      (id : ℕ) (n : GraphNode)
      → live project id s.nodes ≡ some n
      → (n.id == source.id) ≡ true
      → (id ≡ source.id) × (n ≡ source)
  is_source id n l e =
      let here : id ≡ source.id =
        sym (live-id project id s.nodes l) ∙ (==_iff n.id source.id).0 e in
      (here, same_some (sym l ∙ ap (λ i. live project i s.nodes) here ∙ own_row))

  -- A chain through the source ends there; no other one changes.
  ResolvesIn-undone :
      (t : NodeType) (c : GraphNode) (d id : ℕ)
      → ResolvesIn project s.nodes t c id d
      → (d' : ℕ) × (c' : GraphNode) × (d' ≤ d) × ResolvesIn project s'.nodes t c' id d'
  ResolvesIn-undone t c zero id r = elim (Bool-cases (c.id == source.id)) [
    | inl e ↦ absurd (
        not_both c.graph_state (sym r.2)
          (ap (λ x. is_merged x.graph_state) (is_source id c r.0 e).1 ∙ moved))
    | inr e ↦ (zero, c, omega arith, (kept id c r.0 e, r.1, r.2, r.3))
  ]
  ResolvesIn-undone t c (suc d) id r = elim (Bool-cases (r.0.id == source.id)) [
    | inl e ↦
        let (here, same) = is_source id r.0 r.2 e in
        (
          zero,
          back source,
          omega arith,
          (
            ap (λ i. live project i s'.nodes) here ∙ restored,
            ap (λ x. x.node_type) (sym same) ∙ r.3,
            original,
            refl,
          ),
        )
    | inr e ↦
        let (d', c', short, r') = ResolvesIn-undone t c d r.1 r.6 in
        (suc d', c', omega arith, (r.0, r.1, kept id r.0 r.2 e, r.3, r.4, r.5, r'))
  ]

  placed-after :
      (k : ℕ)
      → Forest project k s
      → (id : ℕ) (n : GraphNode) → live project id s'.nodes ≡ some n
      → is_placed n ≡ true
      → (d : ℕ) × (c : GraphNode) × (d ≤ k) × ResolvesIn project s'.nodes n.node_type c id d
  placed-after k f id n l placed =
      elim (live-update_inv project source back s.nodes own_row (λ i x. refl) id n
        (ap (live project id) (sym nodes-after) ∙ l)) [
          | inl h ↦ (
            zero,
            back source,
            omega arith,
            (
              ap (λ i. live project i s'.nodes) h.0 ∙ restored,
              ap (λ x. x.node_type) (sym h.1),
              original,
              refl,
            ),
          )
          | inr h ↦
              let (d, c, short, r) = f.rooted id n h.0 placed in
              let (d', c', short', r') = ResolvesIn-undone n.node_type c d id r in
              (d', c', omega arith, r')
        ]

  pub undoing-Forest : (k : ℕ) → Forest project k s → Forest project k s'
  undoing-Forest k f = record {
    keys =
        subst (UniqueBy (λ n. n.id)) (sym nodes-after)
          (UniqueBy-write_node back (λ n. refl) source.id s.nodes f.keys);
    shaped = subst (All Shaped) (sym nodes-after) (
        All-write_node Shaped back source s.nodes f.keys
          (mem_of_find (is_live_node project source.id) s.nodes own_row)
          (All-mem Shaped s.nodes f.shaped
              (mem_of_find (is_live_node project source.id) s.nodes own_row)
            ∙ deleted-merged source.graph_state moved
            ∙ sym (deleted-canonical o.source_original_state original))
          f.shaped);
    returns =
        subst (All Returns)
          (sym (write_unmerge-operations project actor now o source target s)
            ∙ ap (λ x. x.operations) written)
          (All-update_where Returns Returns (λ p. p.id == o.id) (revert actor now) (λ p e h. h)
            (λ p e h. h) s.operations f.returns);
    rooted = placed-after k f;
  }
