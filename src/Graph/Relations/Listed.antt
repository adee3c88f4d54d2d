-- ===== src/Graph/Relations/Listed.antt =====
-- What the canonical relations list (`list_canonical_relations` of
-- data-pipeline/data_pipeline/pipeline/graph.py).
use projectree.Base.{
  ◌≡◌, ◌≢◌, refl, sym, ◌∙◌, subst, ◌⊎◌, inl, inr, Bool, true, false, ◌||◌, none, List, [], ◌∷◌,
  String, All, All-imp, any, keep, ◌==◌, ==_iff, if◌then◌else◌, arith, str_eq_iff,
}
use projectree.Graph.{GraphNode, Result, ok, ◌>>=◌, >>=-eq-ok, resolve_canonical_node}
use projectree.Graph.Relations.{
  Relation, CanonicalRelation, RelationKey, same_key, relation_key, key_of, canonical_relation,
  collect, list_canonical_relations, is_current,
}

-- No two listed relations have one key, and none is a loop.
abbrev pub Distinct : List CanonicalRelation → Type 0
Distinct [] = Unit
Distinct (c ∷ cs) = All (λ d. same_key (key_of d) (key_of c) ≡ false) cs × Distinct cs

abbrev pub NoLoop : CanonicalRelation → Type 0
NoLoop c = c.canonical_from ≢ c.canonical_to

-- The canonical ends of a relation are one node, or the relation's key is listed.
abbrev pub Covered :
    String → List GraphNode → List RelationKey → List CanonicalRelation → Relation → Type 0
Covered project nodes seen out r =
    (a : GraphNode) × (b : GraphNode) × (resolve_canonical_node project none r.from_node nodes
      ≡ ok a)
    × (resolve_canonical_node project none r.to_node nodes ≡ ok b)
    × ((a.id ≡ b.id)
        ⊎ (any (same_key (relation_key a.id b.id r.relation_type)) seen ≡ true)
        ⊎ (any (λ c. same_key (relation_key a.id b.id r.relation_type) (key_of c)) out ≡ true))

Listed :
    String → List GraphNode → List RelationKey → List Relation → List CanonicalRelation → Type 0
Listed project nodes seen relations out =
    All NoLoop out
    × Distinct out
    × All (λ c. any (same_key (key_of c)) seen ≡ false) out
    × All (Covered project nodes seen out) relations

or_left : (b c : Bool) → b ≡ true → (b || c) ≡ true
or_left b c h = ground arith

or_right : (b c : Bool) → c ≡ true → (b || c) ≡ true
or_right b c h = ground arith

or_false_left : (b c : Bool) → (b || c) ≡ false → b ≡ false
or_false_left b c h = ground arith

or_false_right : (b c : Bool) → (b || c) ≡ false → c ≡ false
or_false_right b c h = ground arith

-- A key among the new one and the known ones.
or_split : (b c d : Bool) → (b || c) ≡ true → (c ≡ true) ⊎ ((b || d) ≡ true)
or_split true c d h = inr refl
or_split false c d h = inl h

true_ne_false : ¬ (true ≡ false)
true_ne_false h = cc

same_key_refl : (k : RelationKey) → same_key k k ≡ true
same_key_refl k = ground (arith, str_eq_iff k.2 k.2)

-- The three ways through a loop's turn.
branch-inv {ℓ} :
    {A : Type ℓ} (loop known : Bool) (skipped rest : Result (List A)) (x : A) (out : List A)
    → (if loop then skipped else if known then skipped else rest >>= λ r. ok (x ∷ r)) ≡ ok out
    → ((loop ≡ true) × (skipped ≡ ok out))
      ⊎ ((known ≡ true) × (skipped ≡ ok out))
      ⊎ ((loop ≡ false) × (known ≡ false) × (r : List A) × (rest ≡ ok r) × (x ∷ r ≡ out))
branch-inv true known skipped rest x out h = inl (refl, h)
branch-inv false true skipped rest x out h = inr (inl (refl, h))
branch-inv false false skipped rest x out h =
    let (r, e, k) = >>=-eq-ok rest (λ r. ok (x ∷ r)) h in inr (inr (refl, refl, r, e, ground arith))

module _ (project : String) (nodes : List GraphNode) where
  collect-cons :
      (seen : List RelationKey) (r : Relation) (relations : List Relation) (a b : GraphNode)
      → resolve_canonical_node project none r.from_node nodes ≡ ok a
      → resolve_canonical_node project none r.to_node nodes ≡ ok b
      → collect project nodes seen (r ∷ relations) ≡ (
          if a.id == b.id
          then collect project nodes seen relations
          else if any (same_key (relation_key a.id b.id r.relation_type)) seen
          then collect project nodes seen relations
          else collect project nodes (relation_key a.id b.id r.relation_type ∷ seen) relations
            >>= λ rest. ok (canonical_relation r a b ∷ rest))
  unfolding collect
  collect-cons seen r relations a b from to = rw (from, to, collect) refl

  collect-nil :
      (seen : List RelationKey) (out : List CanonicalRelation)
      → collect project nodes seen [] ≡ ok out
      → [] ≡ out
  unfolding collect
  collect-nil seen out h = ground arith

  -- Both ends are resolved, or the listing fails.
  collect-ends :
      (seen : List RelationKey) (r : Relation) (relations : List Relation)
      (out : List CanonicalRelation)
      → collect project nodes seen (r ∷ relations) ≡ ok out
      → (a : GraphNode) × (b : GraphNode) × (resolve_canonical_node project none r.from_node nodes
          ≡ ok a)
        × (resolve_canonical_node project none r.to_node nodes ≡ ok b)
  unfolding collect
  collect-ends seen r relations out h =
      let (a, from, h1) = >>=-eq-ok (resolve_canonical_node project none r.from_node nodes) _ h in
      let (b, to, _) = >>=-eq-ok (resolve_canonical_node project none r.to_node nodes) _ h1 in
      (a, b, from, to)

  Covered-listed :
      (seen : List RelationKey) (c : CanonicalRelation) (out : List CanonicalRelation)
      (r : Relation)
      → Covered project nodes (key_of c ∷ seen) out r
      → Covered project nodes seen (c ∷ out) r
  Covered-listed seen c out r (a, b, from, to, inl same) = (a, b, from, to, inl same)
  Covered-listed seen c out r (a, b, from, to, inr (inr listed)) =
      (a, b, from, to, inr (inr (or_right _ _ listed)))
  Covered-listed seen c out r (a, b, from, to, inr (inl known)) =
      (a, b, from, to, inr (or_split _ _ _ known))

  collect-Listed :
      (seen : List RelationKey) (relations : List Relation) (out : List CanonicalRelation)
      → collect project nodes seen relations ≡ ok out
      → Listed project nodes seen relations out
  unfolding Listed
  collect-Listed seen [] out h =
      subst (Listed project nodes seen []) (collect-nil seen out h) (tt, tt, tt, tt)
  collect-Listed seen (r ∷ relations) out h =
      let (a, b, from, to) = collect-ends seen r relations out h in
      let c : CanonicalRelation = canonical_relation r a b in
      elim (branch-inv (a.id == b.id) (any (same_key (key_of c)) seen)
        (collect project nodes seen relations) (collect project nodes (key_of c ∷ seen) relations) c
        out (sym (collect-cons seen r relations a b from to) ∙ h)) [
          | inl k ↦
              let (plain, apart, fresh, covered) = collect-Listed seen relations out k.1 in
              (plain, apart, fresh, ((a, b, from, to, inl ((==_iff a.id b.id).0 k.0)), covered))
          | inr (inl k) ↦
              let (plain, apart, fresh, covered) = collect-Listed seen relations out k.1 in
              (plain, apart, fresh, ((a, b, from, to, inr (inl k.0)), covered))
          | inr (inr k) ↦
              let (plain, apart, fresh, covered) =
                collect-Listed (key_of c ∷ seen) relations k.2 k.3 in
              subst (Listed project nodes seen (r ∷ relations)) k.4 (
                ((λ e. true_ne_false (sym ((==_iff a.id b.id).1 e) ∙ k.0)), plain),
                (
                  All-imp _ (λ d. same_key (key_of d) (key_of c) ≡ false)
                      (λ d f. or_false_left _ _ f) k.2 fresh,
                  apart,
                ),
                (
                  k.1,
                  All-imp _ (λ d. any (same_key (key_of d)) seen ≡ false)
                      (λ d f. or_false_right _ _ f) k.2 fresh,
                ),
                (
                  (a, b, from, to, inr (inr (or_left _ _ (same_key_refl (key_of c))))),
                  All-imp (Covered project nodes (key_of c ∷ seen) k.2)
                      (Covered project nodes seen (c ∷ k.2)) (Covered-listed seen c k.2) relations
                      covered,
                ),
              )
        ]

-- The canonical ends of a relation are one node, or a listed relation has its key.
abbrev pub IsListed : String → List GraphNode → List CanonicalRelation → Relation → Type 0
IsListed project nodes out r =
    (a : GraphNode) × (b : GraphNode) × (resolve_canonical_node project none r.from_node nodes
      ≡ ok a)
    × (resolve_canonical_node project none r.to_node nodes ≡ ok b)
    × ((a.id ≡ b.id)
        ⊎ (any (λ c. same_key (relation_key a.id b.id r.relation_type) (key_of c)) out ≡ true))

-- A listing that succeeds has no relation of a node with itself and no two relations with one key,
-- and of each current relation of the project the two canonical ends are one node, or its key is in
-- the list. A key forgets the direction of a RELATED_TO relation.
pub list_canonical_relations_lem :
    (project : String) (nodes : List GraphNode) (relations : List Relation)
    (out : List CanonicalRelation)
    → list_canonical_relations project nodes relations ≡ ok out
    → All NoLoop out
      × Distinct out
      × All (IsListed project nodes out) (keep (is_current project) relations)
unfolding list_canonical_relations Listed
list_canonical_relations_lem project nodes relations out h =
    let current = keep (is_current project) relations in
    let (plain, apart, _, covered) = collect-Listed project nodes [] current out h in
    (
      plain,
      apart,
      All-imp (Covered project nodes [] out) (IsListed project nodes out) listed current covered,
    )
  where
    listed : (r : Relation) → Covered project nodes [] out r → IsListed project nodes out r
    listed r (a, b, from, to, inl same) = (a, b, from, to, inl same)
    listed r (a, b, from, to, inr (inl known)) = cc
    listed r (a, b, from, to, inr (inr c)) = (a, b, from, to, inr c)
