-- ===== src/Graph/Forest/Total.antt =====
-- Canonical reads after any sequence of users' merges and undos
-- (data-pipeline/data_pipeline/pipeline/user_graph.py).
use projectree.Base.{
  mem_of_find, ℕ, zero, suc, ◌+◌, ◌<◌, ◌≡◌, refl, sym, ◌∙◌, subst, inl, inr, Bool, true, false,
  ◌&&◌, none, some, List, [], ◌∷◌, String, All, All-mem, All-of, ==_refl, Bool-cases, ◌==◌, arith,
  find, find-All, length, str_eq,
}
use projectree.Base.Table.{UniqueBy}
use projectree.Graph.{
  GraphNode, Result, ok, err, or_raise, or_raise-eq-ok, refuse-eq-ok, >>=-eq-ok, live, is_live_node,
  is_merged, get_project_node, resolve_canonical_node, merge_itself, missing_merge_nodes,
  unavailable_operation,
}
use projectree.Graph.Chains.{ResolvesIn, live-id, ResolvesIn-own, resolve_canonical_exact}
use projectree.Graph.Store.{GraphStore, stage_project_graph_changed}
use projectree.Graph.Merge.{
  MergeRequest, apply_logical_merge, unmerge_operation, find_operation, is_applied,
}
use projectree.Graph.Merge.Redirect.{merging}
use projectree.Graph.UserMerges.{
  stored_node, is_stored_node, text_or_none, user_request, publish_merge, check_version,
  user_merge_nodes, remerge_reverted, remerge_operation, MergeAction, merge_nodes, undo,
  merge_again, perform, perform_all, or_rolled_back,
}
use projectree.Graph.Forest.{Forest, Shaped, Returns, is_placed, merging-Forest, deleted-canonical}
use projectree.Graph.Forest.Undo.{undoing, undoing-Forest, unmerge_operation-inv, live_of_ok}

Forest-more :
    (project : String) (k : ℕ) (s : GraphStore) → Forest project k s → Forest project (suc k) s
Forest-more project k s f = record {
  keys = f.keys;
  shaped = f.shaped;
  returns = f.returns;
  rooted = λ id n l p. let (d, c, short, r) = f.rooted id n l p in (d, c, omega arith, r);
}

-- What is published leaves nodes and operations alone.
publish_merge-Forest :
    (project : String) (k source_id : ℕ) (target : GraphNode) (s s' : GraphStore)
    → publish_merge project source_id target s ≡ ok s'
    → Forest project k s
    → Forest project k s'
publish_merge-Forest project k source_id target s s' h f =
    let (source, _, h1) =
      >>=-eq-ok (or_raise (stored_node project source_id s.nodes) missing_merge_nodes) _ h in
    let same : stage_project_graph_changed project (source ∷ target ∷ []) [] s ≡ s' =
      ground (arith, h1) in
    subst (Forest project k) same
      (record { keys = f.keys; shaped = f.shaped; returns = f.returns; rooted = f.rooted })

apply_logical_merge-Forest :
    (project : String) (k : ℕ) (q : MergeRequest) (source target : GraphNode) (s s' : GraphStore)
    → live project source.id s.nodes ≡ some source
    → apply_logical_merge project q source target s ≡ ok s'
    → Forest project k s
    → Forest project (suc k) s'
apply_logical_merge-Forest project k q source target s s' row h =
    merging-Forest (merging project q source target s s' h) row k

-- A stored row that is not soft-deleted is the live one.
find_stronger {ℓ} :
    {A : Type ℓ} {a : A} (p q : A → Bool)
    → ((x : A) → p x ≡ true → q x ≡ true)
    → (xs : List A) → find q xs ≡ some a
    → p a ≡ true
    → find p xs ≡ some a
find_stronger p q f [] h k = h
find_stronger {a} p q f (x ∷ xs) h k = elim (Bool-cases (q x)) [
  | inl e ↦ let same : x ≡ a = ground (arith, e) in rw (same, k) refl
  | inr e ↦ elim (Bool-cases (p x)) [
    | inl t ↦ ground (arith, f x t, e)
    | inr t ↦ rw t (find_stronger p q f xs (ground (arith, e)) k)
  ]
]

live_of_stored :
    (project : String) (id : ℕ) (nodes : List GraphNode) (n : GraphNode)
    → stored_node project id nodes ≡ some n
    → n.is_deleted ≡ false
    → live project n.id nodes ≡ some n
live_of_stored project id nodes n h e =
    let (_, test) =
      find-All (is_stored_node project id) (λ m. Unit {0}) nodes (All-of _ (λ m. tt) nodes) h in
    let at : n.id ≡ id = ground (arith, test) in
    find_stronger (is_live_node project n.id) (is_stored_node project n.id)
      (λ m t. ground (arith, t)) nodes
      (subst (λ i. stored_node project i nodes ≡ some n) (sym at) h)
      (ground (arith, test, e, ==_refl n.id))

user_merge_nodes-Forest :
    (strip : String → String) (project : String) (operation now source target sv tv : ℕ)
    (actor reason : String) (k : ℕ) (s s' : GraphStore)
    → user_merge_nodes strip project operation now source target sv tv actor reason s ≡ ok s'
    → Forest project k s
    → Forest project (suc k) s'
unfolding user_merge_nodes
user_merge_nodes-Forest strip project operation now source_id target_id sv tv actor reason k s s' h
      f =
    let (_, h1) = refuse-eq-ok (source_id == target_id) merge_itself _ h in
    let (source, stored_source, h2) =
      >>=-eq-ok (or_raise (stored_node project source_id s.nodes) missing_merge_nodes) _ h1 in
    let (target, _, h3) =
      >>=-eq-ok (or_raise (stored_node project target_id s.nodes) missing_merge_nodes) _ h2 in
    let (_, _, h4) = >>=-eq-ok (check_version source sv) _ h3 in
    let (_, _, h5) = >>=-eq-ok (check_version target tv) _ h4 in
    let q : MergeRequest =
      user_request operation now actor "USER_CONFIRMED_IDENTITY" (text_or_none (strip reason)) in
    let (s1, applied_merge, h6) = >>=-eq-ok (apply_logical_merge project q source target s) _ h5 in
    let (canonical, _, h7) =
      >>=-eq-ok (resolve_canonical_node project none target_id s1.nodes) _ h6 in
    let at =
      or_raise-eq-ok (stored_node project source_id s.nodes) missing_merge_nodes stored_source in
    let m = merging project q source target s s1 applied_merge in
    let here : source.is_deleted ≡ false =
      All-mem Shaped s.nodes f.shaped (mem_of_find (is_stored_node project source_id) s.nodes at)
      ∙ deleted-canonical source.graph_state m.free in
    publish_merge-Forest project (suc k) source_id canonical s1 s' h7
      (merging-Forest m (live_of_stored project source_id s.nodes source at here) k f)

remerge_reverted-Forest :
    (remark : ℕ → String) (project : String) (operation now : ℕ) (actor : String)
    (previous source target k : ℕ) (s s' : GraphStore)
    → remerge_reverted remark project operation now actor previous source target s ≡ ok s'
    → Forest project k s
    → Forest project (suc k) s'
remerge_reverted-Forest remark project operation now actor previous source_id target_id k s s' h f =
    let (source, got, h1) = >>=-eq-ok (get_project_node project source_id s.nodes) _ h in
    let (target, _, h2) =
      >>=-eq-ok (resolve_canonical_node project (some source.node_type) target_id s.nodes) _ h1 in
    let q : MergeRequest =
      user_request operation now actor "USER_REMERGE" (some (remark previous)) in
    let (s1, applied_merge, h3) = >>=-eq-ok (apply_logical_merge project q source target s) _ h2 in
    let l = live_of_ok project source_id s.nodes source got in
    let row : live project source.id s.nodes ≡ some source =
      subst (λ i. live project i s.nodes ≡ some source) (sym (live-id project source_id s.nodes l))
        l in
    publish_merge-Forest project (suc k) source_id target s1 s' h3
      (merging-Forest (merging project q source target s s1 applied_merge) row k f)

remerge_operation-Forest :
    (remark : ℕ → String) (project : String) (operation now : ℕ) (actor : String) (id k : ℕ)
    (s s' : GraphStore)
    → remerge_operation remark project operation now actor id s ≡ ok s'
    → Forest project k s
    → Forest project (suc k) s'
unfolding remerge_operation
remerge_operation-Forest remark project operation now actor id k s s' h f =
    let (o, _, h1) =
      >>=-eq-ok (or_raise (find_operation project id s.operations) unavailable_operation) _ h in
    elim (Bool-cases (is_applied o.status)) [
      | inl a ↦
          let (_, _, h2) =
            >>=-eq-ok (get_project_node project o.source_node_id s.nodes) (λ _. ok s) {end = s'}
              (ground (arith, a, h1)) in
          let same : s ≡ s' = ground (arith, h2) in
          subst (Forest project (suc k)) same (Forest-more project k s f)
      | inr a ↦
          remerge_reverted-Forest remark project operation now actor o.id o.source_node_id
            o.target_node_id k s s' (ground (arith, a, h1)) f
    ]

unmerge_operation-Forest :
    (project actor : String) (now id k : ℕ) (s s' : GraphStore)
    → unmerge_operation project actor now id s ≡ ok s'
    → Forest project k s
    → Forest project k s'
unmerge_operation-Forest project actor now id k s s' h f =
    let (o, found, outcome) = unmerge_operation-inv project actor now id s s' h in
    elim outcome [
      | inl same ↦ subst (Forest project k) same f
      | inr done ↦
          undoing-Forest (undoing project actor now o s s' done)
            (All-mem Returns s.operations f.returns
              (mem_of_find (λ p. p.id == id && str_eq p.project_id project) s.operations found))
            k f
    ]

perform-Forest :
    (strip : String → String) (remark : ℕ → String) (project : String) (a : MergeAction) (k : ℕ)
    (s s' : GraphStore)
    → perform strip remark project a s ≡ ok s'
    → Forest project k s
    → Forest project (suc k) s'
unfolding perform
perform-Forest strip remark project (merge_nodes operation now source target sv tv actor reason) k s
      s' h f =
    user_merge_nodes-Forest strip project operation now source target sv tv actor reason k s s' h f
perform-Forest strip remark project (undo now id actor) k s s' h f =
    Forest-more project k s' (unmerge_operation-Forest project actor now id k s s' h f)
perform-Forest strip remark project (merge_again operation now id actor) k s s' h f =
    remerge_operation-Forest remark project operation now actor id k s s' h f

request-Forest :
    (strip : String → String) (remark : ℕ → String) (project : String) (a : MergeAction) (k : ℕ)
    (s : GraphStore) (r : Result GraphStore)
    → perform strip remark project a s ≡ r
    → Forest project k s
    → Forest project (suc k) (or_rolled_back s r)
request-Forest strip remark project a k s (ok s') h f =
    perform-Forest strip remark project a k s s' h f
request-Forest strip remark project a k s (err e) h f = Forest-more project k s f

pub perform_all-Forest :
    (strip : String → String) (remark : ℕ → String) (project : String) (actions : List MergeAction)
    (k : ℕ) (s : GraphStore)
    → Forest project k s
    → Forest project (length actions + k) (perform_all strip remark project actions s)
unfolding perform_all
perform_all-Forest strip remark project [] k s f = subst (λ j. Forest project j s) (omega arith) f
perform_all-Forest strip remark project (a ∷ actions) k s f =
    let s' : GraphStore = or_rolled_back s (perform strip remark project a s) in
    subst (λ j. Forest project j (perform_all strip remark project actions s')) (omega arith)
      (perform_all-Forest strip remark project actions (suc k) s'
        (request-Forest strip remark project a k s (perform strip remark project a s) refl f))

-- No merge has happened yet.
abbrev pub Unmerged : GraphNode → Type 0
Unmerged n = (is_merged n.graph_state ≡ false) × (n.merged_into ≡ none)

Unmerged-Forest :
    (project : String) (s : GraphStore)
    → UniqueBy (λ n. n.id) s.nodes
    → All Shaped s.nodes
    → All Unmerged s.nodes
    → All Returns s.operations
    → Forest project zero s
Unmerged-Forest project s keys shaped roots returns = record {
  keys = keys;
  shaped = shaped;
  returns = returns;
  rooted = λ id n l placed.
      let (plain, _) = find-All (is_live_node project id) Unmerged s.nodes roots l in
      (zero, n, omega arith, (l, refl, ground (arith, placed, plain.0), plain.1));
}

-- Users merge, undo and merge again, in any order, from a store in which no node is merged and the
-- table's constraints hold. As long as they have made fewer than 128 requests, each node of the
-- project that is ACTIVE, UNATTACHED or MERGED is resolved, and to a node of its own type: no chain
-- is broken, none turns in a circle, and none is too long.
pub resolve_canonical_node_total :
    (strip : String → String) (remark : ℕ → String) (project : String) (actions : List MergeAction)
    (s : GraphStore)
    → UniqueBy (λ n. n.id) s.nodes
    → All Shaped s.nodes
    → All Unmerged s.nodes
    → All Returns s.operations
    → length actions < 128
    → (id : ℕ) (n : GraphNode)
    → live project id (perform_all strip remark project actions s).nodes ≡ some n
    → is_placed n ≡ true
    → (c : GraphNode) × (resolve_canonical_node project none id
          (perform_all strip remark project actions s).nodes
        ≡ ok c)
      × (c.node_type ≡ n.node_type)
resolve_canonical_node_total strip remark project actions s keys shaped roots returns few id n l
      placed =
    let f =
      perform_all-Forest strip remark project actions zero s
        (Unmerged-Forest project s keys shaped roots returns) in
    let (d, c, short, r) = f.rooted id n l placed in
    let own : c.node_type ≡ n.node_type = ResolvesIn-own project _ n.node_type c d id r in
    (
      c,
      (resolve_canonical_exact project none id _ c).1 (
        refl,
        d,
        omega arith,
        subst (λ t. ResolvesIn project (perform_all strip remark project actions s).nodes t c id d)
            (sym own) r,
      ),
      own,
    )
