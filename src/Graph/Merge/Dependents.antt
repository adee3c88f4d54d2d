-- ===== src/Graph/Merge/Dependents.antt =====
-- In which order merges are undone (`apply_logical_merge` and `unmerge_operation` of
-- data-pipeline/data_pipeline/pipeline/graph.py).
use mathlib.Core.List.Memᴰ
use projectree.Base.{
  find-append, mem_of_find, ℕ, ◌≡◌, refl, ◌∙◌, ap, subst, true, false, ◌&&◌, some, List, [], ◌∷◌,
  ◌++◌, String, Memᴰ, All-of, any, find-All, mem-keep, any_of_mem, ◌==◌, ==_iff, ==_refl, arith,
  str_eq, str_eq_iff,
}
use projectree.Graph.{GraphNode, GraphError, ok, err}
use projectree.Graph.Store.{GraphStore, MergeOperation, MergeDependency}
use projectree.Graph.Merge.{
  MergeRequest, write_merge, apply_logical_merge, unmerge_operation, unmerge_operation-applied,
  undo_applied, dependents, no_dependent, incoming_dependencies, find_operation, is_applied,
  new_operation,
}
use projectree.Graph.Merge.Redirect.{Merging, merging, operations-after}

refused : (d : ℕ) (ds : List ℕ) → Memᴰ d ds → (e : GraphError) × (no_dependent ds ≡ err e)
refused d [] m = absurd (Memᴰ.not-nil m)
refused d (x ∷ []) m = (_, refl)
refused d (x ∷ y ∷ ds) m = (_, refl)

undo_applied-refused :
    (project actor : String) (now : ℕ) (o : MergeOperation) (s : GraphStore) (d : ℕ)
    → Memᴰ d (dependents project o.id s)
    → (e : GraphError) × (undo_applied project actor now o s ≡ err e)
unfolding undo_applied
undo_applied-refused project actor now o s d m =
    let (e, h) = refused d (dependents project o.id s) m in (e, rw h refl)

module _ {project : String} {q : MergeRequest} {source target : GraphNode} {s s' : GraphStore}
    (m : Merging project q source target s s') (o : MergeOperation)
    (known : find_operation project o.id s.operations ≡ some o)
    (in_force : is_applied o.status ≡ true) (into : o.resolved_target ≡ source.id)
    (new : (o.id == q.operation) ≡ false) where
  open m use {canonical, written}

  own_project : str_eq o.project_id project ≡ true
  own_project =
      let (_, t) =
        find-All (λ p. p.id == o.id && str_eq p.project_id project) (λ p. Unit {0}) s.operations
          (All-of _ (λ p. tt) s.operations) known in
      ground (arith, t)

  abbrev edge : MergeDependency
  edge = record { project_id = project; operation_id = q.operation; depends_on = o.id }

  edge_added :
      Memᴰ edge (s.dependencies ++ incoming_dependencies project q.operation source.id s.operations)
  unfolding incoming_dependencies
  edge_added = Memᴰ.append_right s.dependencies (
      Memᴰ.map _ (
        mem-keep _ s.operations
          (ground (arith, own_project, in_force, new, into, ==_iff o.resolved_target source.id))
          (mem_of_find (λ p. p.id == o.id && str_eq p.project_id project) s.operations known)))

  new_applied :
      any
        (λ p. p.id == q.operation && is_applied p.status)
        (s.operations ++ new_operation project q source target canonical ∷ [])
      ≡ true
  new_applied =
      any_of_mem _ (s.operations ++ new_operation project q source target canonical ∷ [])
        (ground (arith, ==_refl q.operation)) (Memᴰ.append_right s.operations (Memᴰ.head refl))

  depends : Memᴰ q.operation (dependents project o.id s')
  unfolding dependents write_merge
  depends =
      subst (λ u. Memᴰ q.operation (dependents project o.id u)) written
        (Memᴰ.map (λ d. d.operation_id)
          (mem-keep _ _ (ground (arith, str_eq_iff project project, ==_refl o.id, new_applied))
            edge_added))

  still_known : find_operation project o.id s'.operations ≡ some o
  still_known =
      ap (find_operation project o.id) (operations-after m)
      ∙ find-append (λ p. p.id == o.id && str_eq p.project_id project) s.operations
          (new_operation project q source target canonical ∷ []) known

  merging-refused :
      (actor : String) (now : ℕ)
      → (e : GraphError) × (unmerge_operation project actor now o.id s' ≡ err e)
  merging-refused actor now =
      let (e, h) = undo_applied-refused project actor now o s' q.operation depends in
      (e, unmerge_operation-applied project actor now o.id o s' still_known in_force ∙ h)

-- Once the node that a merge led to has been merged on, the first merge cannot be undone: the undo
-- fails for every user and at every time.
pub unmerge-apply_logical_merge_refused :
    (project actor : String) (now : ℕ) (q : MergeRequest) (source target : GraphNode)
    (s s' : GraphStore) (o : MergeOperation)
    → apply_logical_merge project q source target s ≡ ok s'
    → find_operation project o.id s.operations ≡ some o
    → is_applied o.status ≡ true
    → o.resolved_target ≡ source.id
    → (o.id == q.operation) ≡ false
    → (e : GraphError) × (unmerge_operation project actor now o.id s' ≡ err e)
unmerge-apply_logical_merge_refused project actor now q source target s s' o h known in_force into
      new =
    merging-refused (merging project q source target s s' h) o known in_force into new actor now
