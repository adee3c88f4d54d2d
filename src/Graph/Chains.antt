-- ===== src/Graph/Chains.antt =====
-- What a merge chain is, apart from the loop that follows it (`resolve_canonical_node` of
-- data-pipeline/data_pipeline/pipeline/graph.py).
use projectree.Base.{
  ℕ, zero, suc, ◌<◌, ◌≡◌, refl, sym, ◌∙◌, ap, subst, ◌↔◌, ◌⊎◌, inl, inr, true, false, Option, none,
  some, List, [], ◌∷◌, String, All, All-imp, any, find-All, All-of, Bool-cases, Option-cases, ◌==◌,
  ==_iff, arith,
}
use projectree.Contracts.{NodeType}
use projectree.Graph.{
  NodeState, GraphNode, Result, ok, err, Hop, arrived, redirected, live, is_live_node, is_merged,
  is_canonical, same_type→eq, eq→same_type, hop, follow, type_or, resolve_canonical_node,
  get_project_node, max_canonical_hops,
}

-- From `id`, `d` redirections through live nodes of the type `t` end at the canonical node `c`.
abbrev pub ResolvesIn : String → List GraphNode → NodeType → GraphNode → ℕ → ℕ → Type 0
ResolvesIn project nodes t c id zero =
    (live project id nodes ≡ some c)
    × (c.node_type ≡ t)
    × (is_canonical c.graph_state ≡ true)
    × (c.merged_into ≡ none)
ResolvesIn project nodes t c id (suc d) =
    (n : GraphNode) × (j : ℕ) × (live project id nodes ≡ some n)
    × (n.node_type ≡ t)
    × (is_merged n.graph_state ≡ true)
    × (n.merged_into ≡ some j)
    × ResolvesIn project nodes t c j d

pub same_some {ℓ} : {A : Type ℓ} {a b : A} → some a ≡ some b → a ≡ b
same_some h = ground arith

pub live-id :
    (project : String) (id : ℕ) (nodes : List GraphNode) {n : GraphNode}
    → live project id nodes ≡ some n
    → n.id ≡ id
live-id project id nodes {n} h =
    let (_, t) =
      find-All (is_live_node project id) (λ m. Unit {0}) nodes (All-of _ (λ m. tt) nodes) h in
    ground (arith, t)

pub not_both : (s : NodeState) → true ≡ is_canonical s → is_merged s ≡ true → ⊥
not_both s h k = ground arith

module _ (project : String) (nodes : List GraphNode) (t : NodeType) (c : GraphNode) where
  -- A chain to a canonical node has one length.
  pub ResolvesIn-unique :
      (d e id : ℕ) → ResolvesIn project nodes t c id d → ResolvesIn project nodes t c id e → d ≡ e
  ResolvesIn-unique zero zero id p q = refl
  ResolvesIn-unique zero (suc e) id p q = absurd (
      not_both c.graph_state (sym p.2)
        (subst (λ n. is_merged n.graph_state ≡ true) (sym (same_some (sym p.0 ∙ q.2))) q.4))
  ResolvesIn-unique (suc d) zero id p q = absurd (
      not_both c.graph_state (sym q.2)
        (subst (λ n. is_merged n.graph_state ≡ true) (same_some (sym p.2 ∙ q.0)) p.4))
  ResolvesIn-unique (suc d) (suc e) id p q =
      let same : p.0 ≡ q.0 = same_some (sym p.2 ∙ q.2) in
      let next : p.1 ≡ q.1 = same_some (sym p.5 ∙ ap (λ n. n.merged_into) same ∙ q.5) in
      ap suc
        (ResolvesIn-unique d e q.1 (subst (λ j. ResolvesIn project nodes t c j d) next p.6) q.6)

  hop-arrived :
      (visited : List ℕ) (n m : GraphNode)
      → hop project t visited nodes n ≡ ok (arrived m)
      → (m ≡ n) × (n.node_type ≡ t) × (is_canonical n.graph_state ≡ true) × (n.merged_into ≡ none)
  unfolding hop
  hop-arrived visited n m h = ground (arith, same_type→eq n.node_type t)

  hop-redirected :
      (visited : List ℕ) (n m : GraphNode)
      → hop project t visited nodes n ≡ ok (redirected m)
      → (j : ℕ) × (n.node_type ≡ t)
        × (is_merged n.graph_state ≡ true)
        × (n.merged_into ≡ some j)
        × (live project j nodes ≡ some m)
  unfolding hop
  hop-redirected visited n m h = ground (arith, same_type→eq n.node_type t)

  out_of_turns :
      (visited : List ℕ) (n : GraphNode) → ¬ (follow zero project t visited nodes n ≡ ok c)
  unfolding follow
  out_of_turns visited n h = cc

  pub ResolvesIn-live :
      (id d : ℕ)
      → ResolvesIn project nodes t c id d
      → (n : GraphNode) × (live project id nodes ≡ some n)
  ResolvesIn-live id zero r = (c, r.0)
  ResolvesIn-live id (suc d) r = (r.0, r.2)

  pub ResolvesIn-type :
      (id d : ℕ) (n : GraphNode)
      → live project id nodes ≡ some n
      → ResolvesIn project nodes t c id d
      → (n.node_type ≡ t) × (c.node_type ≡ t)
  ResolvesIn-type id zero n l r = (ap (λ x. x.node_type) (same_some (sym l ∙ r.0)) ∙ r.1, r.1)
  ResolvesIn-type id (suc d) n l r =
      let (m, there) = ResolvesIn-live r.1 d r.6 in
      (ap (λ x. x.node_type) (same_some (sym l ∙ r.2)) ∙ r.3, (ResolvesIn-type r.1 d m there r.6).1)

  pub ResolvesIn-own : (d id : ℕ) → ResolvesIn project nodes t c id d → c.node_type ≡ t
  ResolvesIn-own zero id r = r.1
  ResolvesIn-own (suc d) id r = ResolvesIn-own d r.1 r.6

  -- The end of a chain is found under its own id.
  pub ResolvesIn-end :
      (id d : ℕ) → ResolvesIn project nodes t c id d → ResolvesIn project nodes t c c.id zero
  ResolvesIn-end id zero r =
      subst (λ i. ResolvesIn project nodes t c i zero) (sym (live-id project id nodes r.0)) r
  ResolvesIn-end id (suc d) r = ResolvesIn-end r.1 d r.6

  follow-inv :
      (turns : ℕ) (visited : List ℕ) (n : GraphNode) (r : Result Hop)
      → hop project t visited nodes n ≡ r
      → follow (suc turns) project t visited nodes n ≡ ok c
      → (hop project t visited nodes n ≡ ok (arrived c))
        ⊎ ((m : GraphNode) × (hop project t visited nodes n ≡ ok (redirected m))
            × (follow turns project t (n.id ∷ visited) nodes m ≡ ok c))
  unfolding follow
  follow-inv turns visited n (err e) r h = ground (arith, r)
  follow-inv turns visited n (ok (arrived m)) r h = inl (ground (arith, r))
  follow-inv turns visited n (ok (redirected m)) r h = inr (m, r, ground (arith, r))

  pub follow_sound :
      (turns : ℕ) (visited : List ℕ) (n : GraphNode)
      → live project n.id nodes ≡ some n
      → follow turns project t visited nodes n ≡ ok c
      → (d : ℕ) × (d < turns) × ResolvesIn project nodes t c n.id d
  follow_sound zero visited n l h = absurd (out_of_turns visited n h)
  follow_sound (suc turns) visited n l h =
      elim (follow-inv turns visited n (hop project t visited nodes n) refl h) [
        | inl r ↦
            let (same, own, final, none_left) = hop-arrived visited n c r in
            (
              zero,
              omega arith,
              (
                subst (λ x. live project n.id nodes ≡ some x) (sym same) l,
                ap (λ x. x.node_type) same ∙ own,
                ap (λ x. is_canonical x.graph_state) same ∙ final,
                ap (λ x. x.merged_into) same ∙ none_left,
              ),
            )
        | inr k ↦
            let (j, own, moved, next, there) = hop-redirected visited n k.0 k.1 in
            let at = live-id project j nodes there in
            let (d, short, chain) =
              follow_sound turns (n.id ∷ visited) k.0
                (subst (λ i. live project i nodes ≡ some k.0) (sym at) there) k.2 in
            (
              suc d,
              omega arith,
              (n, j, l, own, moved, next, subst (λ i. ResolvesIn project nodes t c i d) at chain),
            )
      ]

  -- The chains from the visited nodes are longer than the one ahead, so that none comes again.
  abbrev pub Behind : ℕ → ℕ → Type 0
  Behind d v = (e : ℕ) × (d < e) × ResolvesIn project nodes t c v e

  unvisited :
      (id d : ℕ) (visited : List ℕ)
      → ResolvesIn project nodes t c id d
      → All (Behind d) visited
      → any (λ v. v == id) visited ≡ false
  unvisited id d [] r behind = refl
  unvisited id d (v ∷ visited) r behind = elim (Bool-cases (v == id)) [
    | inl e ↦
        let at : v ≡ id = (==_iff v id).0 e in
        let same =
          ResolvesIn-unique d behind.0.0 id r
            (subst (λ i. ResolvesIn project nodes t c i behind.0.0) at behind.0.2) in
        absurd (omega (arith, same, behind.0.1))
    | inr e ↦ rw e (unvisited id d visited r behind.1)
  ]

  hop-end :
      (visited : List ℕ)
      → any (λ v. v == c.id) visited ≡ false
      → c.node_type ≡ t
      → is_canonical c.graph_state ≡ true
      → c.merged_into ≡ none
      → hop project t visited nodes c ≡ ok (arrived c)
  unfolding hop
  hop-end visited u own final none_left = ground (arith, u, eq→same_type c.node_type t own)

  hop-next :
      (visited : List ℕ) (n m : GraphNode) (j : ℕ)
      → any (λ v. v == n.id) visited ≡ false
      → n.node_type ≡ t
      → is_merged n.graph_state ≡ true
      → n.merged_into ≡ some j
      → live project j nodes ≡ some m
      → hop project t visited nodes n ≡ ok (redirected m)
  unfolding hop
  hop-next visited n m j u own moved next there =
      ground (arith, u, eq→same_type n.node_type t own, there)

  follow-arrived :
      (turns : ℕ) (visited : List ℕ) (n m : GraphNode)
      → hop project t visited nodes n ≡ ok (arrived m)
      → follow (suc turns) project t visited nodes n ≡ ok m
  unfolding follow
  follow-arrived turns visited n m h = rw (h, follow) refl

  follow-redirected :
      (turns : ℕ) (visited : List ℕ) (n m : GraphNode)
      → hop project t visited nodes n ≡ ok (redirected m)
      → follow (suc turns) project t visited nodes n
        ≡ follow turns project t (n.id ∷ visited) nodes m
  unfolding follow
  follow-redirected turns visited n m h = rw (h, follow) refl

  Behind-more : (d : ℕ) (visited : List ℕ) → All (Behind (suc d)) visited → All (Behind d) visited
  Behind-more d visited =
      All-imp (Behind (suc d)) (Behind d) (λ v b. (b.0, omega (arith, b.1), b.2)) visited

  pub follow_complete :
      (turns : ℕ) (visited : List ℕ) (n : GraphNode) (d : ℕ)
      → live project n.id nodes ≡ some n
      → ResolvesIn project nodes t c n.id d
      → All (Behind d) visited
      → d < turns
      → follow turns project t visited nodes n ≡ ok c
  follow_complete zero visited n d l r behind lt = absurd (omega arith)
  follow_complete (suc turns) visited n zero l r behind lt =
      let here : n ≡ c = same_some (sym l ∙ r.0) in
      follow-arrived turns visited n c (
        subst (λ x. hop project t visited nodes x ≡ ok (arrived c)) (sym here)
          (hop-end visited
            (unvisited c.id zero visited
              (subst (λ x. ResolvesIn project nodes t c x.id zero) here r) behind)
            r.1 r.2 r.3))
  follow_complete (suc turns) visited n (suc d) l r behind lt =
      let here : r.0 ≡ n = same_some (sym r.2 ∙ l) in
      let (m, there) = ResolvesIn-live r.1 d r.6 in
      let at = live-id project r.1 nodes there in
      follow-redirected turns visited n m (
        hop-next visited n m r.1 (unvisited n.id (suc d) visited r behind)
          (ap (λ x. x.node_type) (sym here) ∙ r.3)
          (ap (λ x. is_merged x.graph_state) (sym here) ∙ r.4)
          (ap (λ x. x.merged_into) (sym here) ∙ r.5) there)
      ∙ follow_complete turns (n.id ∷ visited) m d
          (subst (λ i. live project i nodes ≡ some m) (sym at) there)
          (subst (λ i. ResolvesIn project nodes t c i d) (sym at) r.6)
          ((suc d, omega arith, r), Behind-more d visited behind) (omega arith)

module _ (project : String) (expected : Option NodeType) (id : ℕ) (nodes : List GraphNode) where
  pub resolve_canonical_node-live :
      (n : GraphNode)
      → live project id nodes ≡ some n
      → resolve_canonical_node project expected id nodes
        ≡ follow max_canonical_hops project (type_or expected n.node_type) [] nodes n
  unfolding resolve_canonical_node get_project_node
  resolve_canonical_node-live n h = rw h refl

  pub resolve_canonical_node-missing :
      (c : GraphNode)
      → live project id nodes ≡ none
      → ¬ (resolve_canonical_node project expected id nodes ≡ ok c)
  unfolding resolve_canonical_node get_project_node
  resolve_canonical_node-missing c h k = ground (arith, h)

-- `resolve_canonical_node` returns a node exactly where fewer than 128 redirections lead to it,
-- through live nodes of the project that are MERGED and of its type, and it is ACTIVE or UNATTACHED
-- itself and is of the expected type where one is given. The loop's test for cycles refuses no such
-- chain.
pub resolve_canonical_exact :
    (project : String) (expected : Option NodeType) (id : ℕ) (nodes : List GraphNode)
    (c : GraphNode)
    → (resolve_canonical_node project expected id nodes ≡ ok c) ↔ (
        (type_or expected c.node_type ≡ c.node_type)
        × (d : ℕ) × (d < 128)
        × ResolvesIn project nodes c.node_type c id d)
resolve_canonical_exact project expected id nodes c = (resolves, is_reached)
  where
    self : (n : GraphNode) → live project id nodes ≡ some n → live project n.id nodes ≡ some n
    self n l = subst (λ i. live project i nodes ≡ some n) (sym (live-id project id nodes l)) l

    resolves :
        resolve_canonical_node project expected id nodes ≡ ok c
        → (type_or expected c.node_type ≡ c.node_type)
          × (d : ℕ) × (d < 128)
          × ResolvesIn project nodes c.node_type c id d
    resolves h = elim (Option-cases (live project id nodes)) [
      | inl l ↦ absurd (resolve_canonical_node-missing project expected id nodes c l h)
      | inr n ↦
          let t : NodeType = type_or expected n.0.node_type in
          let (d, short, chain) =
            follow_sound project nodes t c max_canonical_hops [] n.0 (self n.0 n.1)
              (sym (resolve_canonical_node-live project expected id nodes n.0 n.1) ∙ h) in
          let (own, last) = ResolvesIn-type project nodes t c n.0.id d n.0 (self n.0 n.1) chain in
          (
            ap (type_or expected) (last ∙ sym own) ∙ sym last,
            d,
            short,
            subst (λ s. ResolvesIn project nodes s c id d) (sym last)
                (subst (λ i. ResolvesIn project nodes t c i d) (live-id project id nodes n.1)
                  chain),
          )
    ]

    is_reached :
        (type_or expected c.node_type ≡ c.node_type)
          × (d : ℕ) × (d < 128)
          × ResolvesIn project nodes c.node_type c id d
        → resolve_canonical_node project expected id nodes ≡ ok c
    is_reached (fits, d, short, chain) =
        let (n, l) = ResolvesIn-live project nodes c.node_type c id d chain in
        let (own, _) = ResolvesIn-type project nodes c.node_type c id d n l chain in
        resolve_canonical_node-live project expected id nodes n l
        ∙ follow_complete project nodes (type_or expected n.node_type) c max_canonical_hops [] n d
            (self n l)
            (subst (λ s. ResolvesIn project nodes s c n.id d)
              (sym (ap (type_or expected) own ∙ fits))
              (subst (λ i. ResolvesIn project nodes c.node_type c i d)
                (sym (live-id project id nodes l)) chain))
            tt short
