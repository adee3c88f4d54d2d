-- ===== src/Graph/Merge/RoundTrip.antt =====
-- A merge that is undone at once (`apply_logical_merge` and `unmerge_operation` of
-- data-pipeline/data_pipeline/pipeline/graph.py).
use projectree.Base.{
  any_narrow, ℕ, ◌+◌, ◌≡◌, holds, refl, sym, ◌∙◌, ap, subst, inl, inr, Bool, true, false, not,
  Option, none, some, List, [], ◌∷◌, ◌++◌, map, String, find, any, keep, Bool-cases, ◌==◌, ==_iff,
  ==_refl, arith, str_eq_iff,
}
use projectree.Base.Table.{when-hit, when-miss, when}
use projectree.Graph.{GraphNode, ok, live, is_live_node, is_merged, get_project_node}
use projectree.Graph.Chains.{resolve_canonical_exact, ResolvesIn-end, live-id, same_some}
use projectree.Graph.Rows.{found_with, find-update_where}
use projectree.Graph.Store.{GraphStore, MergeOperation, NodeRevision}
use projectree.Graph.Merge.{
  MergeRequest, redirect, restore, write_merge, write_unmerge, write_unmerge-nodes,
  apply_logical_merge, unmerge_operation, unmerge_operation-applied, undo_applied, dependents,
  incoming_dependencies, revision_to_restore, check_recoverable, find_operation, new_operation,
}
use projectree.Graph.Merge.Redirect.{Merging, merging, live-after, live-kept, live-source}

keep-append_none {ℓ} :
    {A : Type ℓ} (p : A → Bool) (xs ys : List A)
    → any p xs ≡ false
    → any p ys ≡ false
    → keep p (xs ++ ys) ≡ []
keep-append_none p [] [] h k = refl
keep-append_none p [] (y ∷ ys) h k = elim (Bool-cases (p y)) [
  | inl e ↦ ground (arith, e)
  | inr e ↦ rw e (keep-append_none p [] ys h (ground (arith, e)))
]
keep-append_none p (x ∷ xs) ys h k = elim (Bool-cases (p x)) [
  | inl e ↦ ground (arith, e)
  | inr e ↦ rw e (keep-append_none p xs ys (ground (arith, e)) k)
]

-- Among rows of which none passes, the row added at the end is found.
find-append_new {ℓ} :
    {A : Type ℓ} (p : A → Bool) (xs : List A) (y : A)
    → any p xs ≡ false
    → p y ≡ true
    → find p (xs ++ y ∷ []) ≡ some y
find-append_new p [] y h k = rw k
find-append_new p (x ∷ xs) y h k = elim (Bool-cases (p x)) [
  | inl e ↦ ground (arith, e)
  | inr e ↦ rw e (find-append_new p xs y (ground (arith, e)) k)
]

any-map-keep {ℓ κ} :
    {A : Type ℓ} {B : Type κ} (test : B → Bool) (g : A → B) (p : A → Bool)
    → ((a : A) → p a ≡ true → test (g a) ≡ false)
    → (xs : List A) → any test (map g (keep p xs)) ≡ false
any-map-keep test g p f [] = refl
any-map-keep test g p f (x ∷ xs) = elim (Bool-cases (p x)) [
  | inl e ↦ rw e (ground (arith, f x e, any-map-keep test g p f xs))
  | inr e ↦ rw e (any-map-keep test g p f xs)
]

module _ {project : String} {q : MergeRequest} {source target : GraphNode} {s s' : GraphStore}
    (m : Merging project q source target s s')
    (fresh : any (λ o. o.id == q.operation) s.operations ≡ false)
    (unused : any (λ d. d.depends_on == q.operation) s.dependencies ≡ false) where
  open m use {canonical, written}

  independent : dependents project q.operation s' ≡ []
  unfolding dependents write_merge incoming_dependencies
  independent =
      subst (λ u. dependents project q.operation u ≡ []) written
        (ap (map (λ d. d.operation_id)) (
          keep-append_none _ s.dependencies
            (incoming_dependencies project q.operation source.id s.operations)
            (any_narrow _ (λ d. d.depends_on == q.operation) s.dependencies
              (λ d t. ground (arith, t)) unused)
            (any-map-keep _ _ _ (λ o t. ground (arith, t)) s.operations)))

  operation_known :
      find_operation project q.operation s'.operations
      ≡ some (new_operation project q source target canonical)
  unfolding write_merge
  operation_known =
      ap (λ u. find_operation project q.operation u.operations) (sym written)
      ∙ find-append_new _ s.operations (new_operation project q source target canonical)
          (any_narrow _ (λ o. o.id == q.operation) s.operations (λ o t. ground (arith, t)) fresh)
          (ground (arith, str_eq_iff project project))

  revision-kept :
      (r : NodeRevision)
      → revision_to_restore project source s ≡ some r
      → check_recoverable project r s ≡ ok tt
      → (revision_to_restore project (redirect q canonical.id source) s' ≡ some r)
        × (check_recoverable project r s' ≡ ok tt)
  unfolding write_merge revision_to_restore
  revision-kept r rev ev = (
    subst (λ u. revision_to_restore project (redirect q canonical.id source) u ≡ some r) written
        rev,
    subst (λ u. check_recoverable project r u ≡ ok tt) written ev,
  )

-- Where every check of an undo passes, it writes.
undo_applied-passes :
    (project actor : String) (now : ℕ) (o : MergeOperation) (source target : GraphNode)
    (r : NodeRevision) (s : GraphStore)
    → dependents project o.id s ≡ []
    → live project o.source_node_id s.nodes ≡ some source
    → is_merged source.graph_state ≡ true
    → holds source.merged_into o.resolved_target ≡ true
    → revision_to_restore project source s ≡ some r
    → check_recoverable project r s ≡ ok tt
    → live project o.resolved_target s.nodes ≡ some target
    → undo_applied project actor now o s ≡ ok (write_unmerge project actor now o source target s)
unfolding undo_applied get_project_node
undo_applied-passes project actor now o source target r s free l moved into rev ev there =
    rw (free, l, moved, into, rev, ev, there) refl

-- A node after a merge of it and the undo.
pub bumped : ℕ → GraphNode → GraphNode
bumped now n = record n { version = n.version + 2; last_actor = "USER"; updated_at = now }

-- The two updates of the source, one after the other.
restore-redirect :
    (now : ℕ) (q : MergeRequest) (target version : ℕ) (n : GraphNode)
    → n.merged_into ≡ none
    → restore n.graph_state (not (version == version)) now (redirect q target n) ≡ bumped now n
unfolding bumped
restore-redirect now q target version n none_left = ground arith

module _ {project : String} {q : MergeRequest} {source target : GraphNode} {s s' : GraphStore}
    (m : Merging project q source target s s')
    (row : live project source.id s.nodes ≡ some source) where
  abbrev back : ℕ → GraphNode → GraphNode
  back now = restore source.graph_state (not (m.canonical.version == m.canonical.version)) now

  twice :
      (now id : ℕ) (o : Option GraphNode)
      → live project id s.nodes ≡ o
      → found_with
          (when (λ k. k.id == source.id) (back now))
          (found_with (when (λ k. k.id == source.id) (redirect q m.canonical.id)) o)
        ≡ found_with (when (λ k. k.id == source.id) (bumped now)) o
  twice now id none l = refl
  twice now id (some n) l = elim (Bool-cases (n.id == source.id)) [
    | inr e ↦
        ap (λ k. some (when (λ u. u.id == source.id) (back now) k))
          (when-miss (λ u. u.id == source.id) (redirect q m.canonical.id) n e)
        ∙ ap some (
            when-miss (λ u. u.id == source.id) (back now) n e
            ∙ sym (when-miss (λ u. u.id == source.id) (bumped now) n e))
    | inl e ↦
        let same : source ≡ n = same_some (
          sym row
          ∙ ap (λ i. live project i s.nodes) (sym ((==_iff n.id source.id).0 e))
          ∙ ap (λ i. live project i s.nodes) (live-id project id s.nodes l)
          ∙ l) in
        ap (λ k. some (when (λ u. u.id == source.id) (back now) k))
          (when-hit (λ u. u.id == source.id) (redirect q m.canonical.id) n e)
        ∙ ap some (
            when-hit (λ u. u.id == source.id) (back now) (redirect q m.canonical.id n) e
            ∙ subst (λ k. back now (redirect q m.canonical.id k) ≡ bumped now k) same
                (restore-redirect now q m.canonical.id m.canonical.version source m.root)
            ∙ sym (when-hit (λ u. u.id == source.id) (bumped now) n e))
  ]

  -- Both updates in one, on each live node.
  after :
      (actor : String) (now id : ℕ)
      → live project id
          (write_unmerge project actor now
            (new_operation project q source target m.canonical)
            (redirect q m.canonical.id source)
            m.canonical
            s').nodes
        ≡ found_with (when (λ k. k.id == source.id) (bumped now)) (live project id s.nodes)
  after actor now id =
      ap (live project id) (
        write_unmerge-nodes project actor now (new_operation project q source target m.canonical)
          (redirect q m.canonical.id source) m.canonical s')
      ∙ find-update_where (is_live_node project id) (λ k. k.id == source.id) (back now) (λ n. refl)
          s'.nodes
      ∙ rw (live-after m row id) (twice now id (live project id s.nodes) refl)

-- A merge whose operation's id is new, of a source whose current revision is stored with the
-- Evidence it requires, can be undone at once. Every live node is then as it was before the merge,
-- but for the source's version, which is two higher, and the note of who changed it last and when.
pub unmerge-apply_logical_merge :
    (project actor : String) (now : ℕ) (q : MergeRequest) (source target : GraphNode)
    (r : NodeRevision) (s s' : GraphStore)
    → live project source.id s.nodes ≡ some source
    → any (λ o. o.id == q.operation) s.operations ≡ false
    → any (λ d. d.depends_on == q.operation) s.dependencies ≡ false
    → revision_to_restore project source s ≡ some r
    → check_recoverable project r s ≡ ok tt
    → apply_logical_merge project q source target s ≡ ok s'
    → (s'' : GraphStore) × (unmerge_operation project actor now q.operation s' ≡ ok s'')
      × ((id : ℕ)
          → live project id s''.nodes
            ≡ found_with (when (λ k. k.id == source.id) (bumped now)) (live project id s.nodes))
unmerge-apply_logical_merge project actor now q source target r s s' row fresh unused rev ev h =
    let m = merging project q source target s s' h in
    let c : GraphNode = m.canonical in
    let o : MergeOperation = new_operation project q source target c in
    let (_, d, _, chain) =
      (resolve_canonical_exact project (some source.node_type) target.id s.nodes c).0 m.resolved in
    let end = ResolvesIn-end project s.nodes c.node_type c target.id d chain in
    let (rev', ev') = revision-kept m fresh unused r rev ev in
    (
      write_unmerge project actor now o (redirect q c.id source) c s',
      unmerge_operation-applied project actor now q.operation o s' (operation_known m fresh unused)
            refl
          ∙ undo_applied-passes project actor now o (redirect q c.id source) c r s'
              (independent m fresh unused) (live-source m row) refl (==_refl c.id) rev' ev'
              (live-kept m row c.id c end.0 m.apart),
      after m row actor now,
    )
