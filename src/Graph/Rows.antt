-- ===== src/Graph/Rows.antt =====
-- Rows of the node table under the update of one row.
use projectree.Base.{
  ℕ, ◌≡◌, refl, sym, ◌∙◌, ap, subst, ◌⊎◌, inl, inr, Bool, false, Option, none, some, List, [], ◌∷◌,
  String, All, All-and, All-of_mem, Memᴰ, find, Bool-cases, ◌==◌, ==_iff, ==_refl,
}
use projectree.Base.Table.{
  when-hit, when-miss, UniqueBy, UniqueBy-eq, UniqueBy-map, All-update_where, update_where, when,
}
use projectree.Graph.{GraphNode, live, is_live_node}
use projectree.Graph.Chains.{live-id, same_some}
use projectree.Graph.Store.{write_node}

when-same {ℓ} :
    {A : Type ℓ} (p q : A → Bool) (f : A → A)
    → ((a : A) → p (f a) ≡ p a)
    → (r : A) → p (when q f r) ≡ p r
when-same p q f same r = elim (Bool-cases (q r)) [ inl e ↦ rw e (same r) | inr e ↦ rw e refl ]

-- A row that was found, with `f` applied.
abbrev pub found_with {ℓ} : {A : Type ℓ} → (A → A) → Option A → Option A
found_with f none = none
found_with f (some r) = some (f r)

-- An update that the test does not see is applied to what the test finds.
pub find-update_where {ℓ} :
    {A : Type ℓ} (p q : A → Bool) (f : A → A)
    → ((a : A) → p (f a) ≡ p a)
    → (rows : List A) → find p (update_where q f rows) ≡ found_with (when q f) (find p rows)
find-update_where p q f same [] = refl
find-update_where p q f same (r ∷ rows) = elim (Bool-cases (p r)) [
  | inl e ↦ rw (when-same p q f same r, e) refl
  | inr e ↦ rw (when-same p q f same r, e) (find-update_where p q f same rows)
]

-- An update of one row keeps what it gives that row.
pub All-write_node :
    (P : GraphNode → Type 0) (f : GraphNode → GraphNode) (n : GraphNode) (nodes : List GraphNode)
    → UniqueBy (λ m. m.id) nodes
    → Memᴰ n nodes
    → P (f n)
    → All P nodes
    → All P (write_node n.id f nodes)
All-write_node P f n nodes u mem new old =
    All-update_where (λ m. P m × (m.id ≡ n.id → m ≡ n)) P (λ m. m.id == n.id) f
      (λ m e h. subst (λ x. P (f x)) (sym (h.1 ((==_iff m.id n.id).0 e))) new) (λ m e h. h.0) nodes
      (All-and P (λ m. m.id ≡ n.id → m ≡ n) nodes old
        (All-of_mem (λ m. m.id ≡ n.id → m ≡ n) nodes
          (λ m at e. UniqueBy-eq (λ x. x.id) nodes u at mem e)))

pub UniqueBy-write_node :
    (f : GraphNode → GraphNode)
    → ((n : GraphNode) → (f n).id ≡ n.id)
    → (id : ℕ) (nodes : List GraphNode) → UniqueBy (λ n. n.id) nodes
    → UniqueBy (λ n. n.id) (write_node id f nodes)
UniqueBy-write_node f same id =
    UniqueBy-map (λ n. n.id) (when (λ n. n.id == id) f)
      (λ n. elim (Bool-cases (n.id == id)) [ inl e ↦ rw e (same n) | inr e ↦ rw e refl ])

-- A node found after the update of the row `n` is that row, or was there as it is.
module _ (project : String) (n : GraphNode) (f : GraphNode → GraphNode) (nodes : List GraphNode)
    (row : live project n.id nodes ≡ some n)
    (same : (id : ℕ) (m : GraphNode)
      → is_live_node project id (f m) ≡ is_live_node project id m) where
  pub live-update :
      (id : ℕ)
      → live project id (write_node n.id f nodes)
        ≡ found_with (when (λ m. m.id == n.id) f) (live project id nodes)
  live-update id = find-update_where (is_live_node project id) (λ m. m.id == n.id) f (same id) nodes

  pub live-update_kept :
      (id : ℕ) (m : GraphNode)
      → live project id nodes ≡ some m
      → (m.id == n.id) ≡ false
      → live project id (write_node n.id f nodes) ≡ some m
  live-update_kept id m l e = live-update id ∙ rw (l, e) refl

  pub live-update_row : live project n.id (write_node n.id f nodes) ≡ some (f n)
  live-update_row = live-update n.id ∙ rw (row, ==_refl n.id) refl

  abbrev pub LiveUpdate : ℕ → GraphNode → Type 0
  LiveUpdate id m' =
      ((id ≡ n.id) × (m' ≡ f n)) ⊎ ((live project id nodes ≡ some m') × ((m'.id == n.id) ≡ false))

  pub live-update_inv :
      (id : ℕ) (m' : GraphNode)
      → live project id (write_node n.id f nodes) ≡ some m'
      → LiveUpdate id m'
  live-update_inv id m' l' = before (live project id nodes) refl
    where
      before : (o : Option GraphNode) → live project id nodes ≡ o → LiveUpdate id m'
      before none l =
          absurd (cc (sym l' ∙ live-update id ∙ ap (found_with (when (λ m. m.id == n.id) f)) l))
      before (some m) l =
          let now_found : some m' ≡ some (when (λ k. k.id == n.id) f m) =
            sym l' ∙ live-update id ∙ ap (found_with (when (λ k. k.id == n.id) f)) l in
          elim (Bool-cases (m.id == n.id)) [
            | inl e ↦
                let here : id ≡ n.id = sym (live-id project id nodes l) ∙ (==_iff m.id n.id).0 e in
                let own : m ≡ n = same_some (sym l ∙ ap (λ i. live project i nodes) here ∙ row) in
                inl (here, same_some now_found ∙ when-hit (λ k. k.id == n.id) f m e ∙ ap f own)
            | inr e ↦
                let kept : m ≡ m' =
                  sym (same_some now_found ∙ when-miss (λ k. k.id == n.id) f m e) in
                inr (l ∙ ap some kept, ap (λ k. k.id == n.id) (sym kept) ∙ e)
          ]
