-- ===== src/DecisionFirst/Final.antt =====
-- When a decision is final (`_decision_is_final` of
-- data-pipeline/data_pipeline/pipeline/decision_first.py, over `_canonical` of
-- pipeline/parent_hint.py).
use mathlib.Core.Path.{subst}
use projectree.Base.{
  ℕ, zero, suc, ◌≡◌, ◌≤◌, ◌<◌, refl, sym, ◌∙◌, ap, ◌⊎◌, ◌↔◌, inl, inr, Bool, true, false, not, ◌&&◌,
  ◌||◌, Option, none, some, List, [], ◌∷◌, String, All, All-imp, any, Bool-cases, Option-cases,
  find-All, All-of, ◌==◌, ==_iff, arith,
}
use projectree.Contracts.{NodeType, decision, is_decision}
use projectree.Graph.{
  GraphNode, NodeState, active, merged, same_type, same_type→eq, eq→same_type, is_merged, is_some,
}
use projectree.Graph.UserMerges.{stored_node, is_stored_node}
use projectree.DecisionFirst.{
  ends, breaks, goes_on, hint_step, of_type, follow_hint, canonical_hint, is_settled,
  is_settled_decision, is_active_node, decision_is_final,
}

-- From `n`, `d` redirections through nodes of the project and of the type `t` end at `c`.
abbrev pub LeadsIn : String → List GraphNode → NodeType → GraphNode → ℕ → GraphNode → Type 0
LeadsIn project nodes t c zero n = (n ≡ c) × (n.merged_into ≡ none)
LeadsIn project nodes t c (suc d) n =
    (j : ℕ) × (m : GraphNode) × (n.merged_into ≡ some j)
    × (stored_node project j nodes ≡ some m)
    × (m.node_type ≡ t)
    × LeadsIn project nodes t c d m

-- A decision is final when it is ACTIVE and not redirected, or MERGED and at most five redirections away
-- from such a decision.
abbrev pub IsFinalDecision : String → List GraphNode → GraphNode → Type 0
IsFinalDecision project nodes n =
    ((n.graph_state ≡ active) × (n.merged_into ≡ none))
    ⊎ ((n.graph_state ≡ merged)
        × ((c : GraphNode) × (d : ℕ) × (d ≤ 5)
            × LeadsIn project nodes n.node_type c d n
            × (c.node_type ≡ decision)
            × (c.graph_state ≡ active)
            × (c.merged_into ≡ none)))

same_some : {A : Type 0} {a b : A} → some a ≡ some b → a ≡ b
same_some h = ground arith

stored-id :
    (project : String) (id : ℕ) (nodes : List GraphNode) (n : GraphNode)
    → stored_node project id nodes ≡ some n
    → n.id ≡ id
stored-id project id nodes n h =
    let (_, t) =
      find-All (is_stored_node project id) (λ m. Unit {0}) nodes (All-of _ (λ m. tt) nodes) h in
    ground (arith, t)

module _ (project : String) (nodes : List GraphNode) (t : NodeType) where
  ends_here :
      (visited : List ℕ) (n : GraphNode)
      → n.merged_into ≡ none
      → hint_step project t visited nodes n ≡ ends n
  ends_here visited n e = rw e refl

  goes_to :
      (visited : List ℕ) (n m : GraphNode) (j : ℕ)
      → any (λ v. v == n.id) visited ≡ false
      → n.merged_into ≡ some j
      → stored_node project j nodes ≡ some m
      → m.node_type ≡ t
      → hint_step project t visited nodes n ≡ goes_on m
  goes_to visited n m j new e at own =
      let typed : same_type m.node_type t ≡ true = eq→same_type m.node_type t own in
      rw (e, new, at, typed) refl

  breaks_at :
      (visited : List ℕ) (n : GraphNode) (j : ℕ)
      → n.merged_into ≡ some j
      → any (λ v. v == n.id) visited ≡ true
      → hint_step project t visited nodes n ≡ breaks
  breaks_at visited n j e seen = rw (e, seen) refl

  breaks_from :
      (visited : List ℕ) (n : GraphNode) (j : ℕ)
      → n.merged_into ≡ some j
      → any (λ v. v == n.id) visited ≡ false
      → of_type t (stored_node project j nodes) ≡ none
      → hint_step project t visited nodes n ≡ breaks
  breaks_from visited n j e new lost = rw (e, new, lost) refl

  typed_node :
      (o : Option GraphNode) (m : GraphNode)
      → of_type t o ≡ some m
      → (o ≡ some m) × (m.node_type ≡ t)
  typed_node none m h = cc
  typed_node (some k) m h = elim (Bool-cases (same_type k.node_type t)) [
    | inl e ↦
        let same : k ≡ m = same_some (rw e at h) in
        (ap some same, ap (λ n. n.node_type) (sym same) ∙ same_type→eq k.node_type t e)
    | inr e ↦ cc (rw e at h)
  ]

  abbrev Goes : GraphNode → Type 0
  Goes n =
      (j : ℕ) × (m : GraphNode) × (n.merged_into ≡ some j)
      × (stored_node project j nodes ≡ some m)
      × (m.node_type ≡ t)

  -- The three outcomes of a turn.
  step_cases :
      (visited : List ℕ) (n : GraphNode)
      → ((hint_step project t visited nodes n ≡ ends n) × (n.merged_into ≡ none))
        ⊎ ((hint_step project t visited nodes n ≡ breaks)
            ⊎ ((to : Goes n) × (hint_step project t visited nodes n ≡ goes_on to.1)))
  step_cases visited n = elim (Option-cases n.merged_into) [
    | inl e ↦ inl (ends_here visited n e, e)
    | inr (j, e) ↦ elim (Bool-cases (any (λ v. v == n.id) visited)) [
      | inl seen ↦ inr (inl (breaks_at visited n j e seen))
      | inr new ↦ elim (Option-cases (of_type t (stored_node project j nodes))) [
        | inl lost ↦ inr (inl (breaks_from visited n j e new lost))
        | inr (m, at) ↦
            let (found, own) = typed_node (stored_node project j nodes) m at in
            inr (inr ((j, m, e, found, own), goes_to visited n m j new e found own))
      ]
    ]
  ]

  module _ (c : GraphNode) where
    follow_goes :
        (k : ℕ) (visited : List ℕ) (n m : GraphNode)
        → hint_step project t visited nodes n ≡ goes_on m
        → follow_hint (suc k) project t visited nodes n
          ≡ follow_hint k project t (n.id ∷ visited) nodes m
    unfolding follow_hint
    follow_goes k visited n m h = rw (h, follow_hint) refl

    follow_ends :
        (k : ℕ) (visited : List ℕ) (n : GraphNode)
        → hint_step project t visited nodes n ≡ ends n
        → follow_hint k project t visited nodes n ≡ some n
    unfolding follow_hint
    follow_ends zero visited n h = rw (h, follow_hint) refl
    follow_ends (suc k) visited n h = rw (h, follow_hint) refl

    follow_breaks :
        (k : ℕ) (visited : List ℕ) (n : GraphNode)
        → hint_step project t visited nodes n ≡ breaks
        → follow_hint k project t visited nodes n ≡ none
    unfolding follow_hint
    follow_breaks zero visited n h = rw (h, follow_hint) refl
    follow_breaks (suc k) visited n h = rw (h, follow_hint) refl

    follow_stops :
        (visited : List ℕ) (n m : GraphNode)
        → hint_step project t visited nodes n ≡ goes_on m
        → follow_hint zero project t visited nodes n ≡ none
    unfolding follow_hint
    follow_stops visited n m h = rw (h, follow_hint) refl

    follow_sound :
        (k : ℕ) (visited : List ℕ) (n : GraphNode)
        → follow_hint k project t visited nodes n ≡ some c
        → (d : ℕ) × (d ≤ k) × LeadsIn project nodes t c d n
    follow_sound zero visited n h = elim (step_cases visited n) [
      | inl (e, last) ↦ (0, omega arith, (same_some (sym (follow_ends zero visited n e) ∙ h), last))
      | inr (inl e) ↦ cc (follow_breaks zero visited n e, h)
      | inr (inr (to, e)) ↦ cc (follow_stops visited n to.1 e, h)
    ]
    follow_sound (suc k) visited n h = elim (step_cases visited n) [
      | inl (e, last) ↦
          (0, omega arith, (same_some (sym (follow_ends (suc k) visited n e) ∙ h), last))
      | inr (inl e) ↦ cc (follow_breaks (suc k) visited n e, h)
      | inr (inr (to, e)) ↦
          let (d, le, there) =
            follow_sound k (n.id ∷ visited) to.1 (sym (follow_goes k visited n to.1 e) ∙ h) in
          (suc d, omega (arith, le), (to.0, to.1, to.2, to.3, to.4, there))
    ]

    LeadsIn-unique :
        (d e : ℕ) (n : GraphNode)
        → LeadsIn project nodes t c d n
        → LeadsIn project nodes t c e n
        → d ≡ e
    LeadsIn-unique zero zero n p q = refl
    LeadsIn-unique zero (suc e) n p q = cc (p.1, q.2)
    LeadsIn-unique (suc d) zero n p q = cc (p.2, q.1)
    LeadsIn-unique (suc d) (suc e) n p q =
        let next : p.0 ≡ q.0 = same_some (sym p.2 ∙ q.2) in
        let same : p.1 ≡ q.1 =
          same_some (sym p.3 ∙ (ap (λ j. stored_node project j nodes) next ∙ q.3)) in
        ap suc (LeadsIn-unique d e q.1 (subst (LeadsIn project nodes t c d) same p.5) q.5)

    -- The chains from the visited nodes are longer than the one ahead.
    abbrev Behind : ℕ → ℕ → Type 0
    Behind d v =
        (e : ℕ) × (m : GraphNode) × (d < e)
        × (stored_node project v nodes ≡ some m)
        × LeadsIn project nodes t c e m

    unvisited :
        (d : ℕ) (visited : List ℕ) (n : GraphNode)
        → stored_node project n.id nodes ≡ some n
        → LeadsIn project nodes t c d n
        → All (Behind d) visited
        → any (λ v. v == n.id) visited ≡ false
    unvisited d [] n at here behind = refl
    unvisited d (v ∷ visited) n at here behind = elim (Bool-cases (v == n.id)) [
      | inl e ↦
          let (k, m, longer, found, there) = behind.0 in
          let same : m ≡ n =
            same_some
              (sym found ∙ (ap (λ i. stored_node project i nodes) ((==_iff v n.id).0 e) ∙ at)) in
          absurd (
            apart d k longer
              (LeadsIn-unique d k n here (subst (LeadsIn project nodes t c k) same there)))
      | inr e ↦ rw e (unvisited d visited n at here behind.1)
    ]
      where
        apart : (a b : ℕ) → a < b → a ≡ b → ⊥
        apart a b h e = omega arith

    follow_complete :
        (d k : ℕ) (visited : List ℕ) (n : GraphNode)
        → d ≤ k
        → stored_node project n.id nodes ≡ some n
        → LeadsIn project nodes t c d n
        → All (Behind d) visited
        → follow_hint k project t visited nodes n ≡ some c
    follow_complete zero k visited n le at here behind =
        follow_ends k visited n (ends_here visited n here.1) ∙ ap some here.0
    follow_complete (suc d) zero visited n le at here behind = absurd (omega arith)
    follow_complete (suc d) (suc k) visited n le at here behind =
        let (j, m, e, found, own, rest) = here in
        let step = goes_to visited n m j (unvisited (suc d) visited n at here behind) e found own in
        follow_goes k visited n m step
        ∙ follow_complete d k (n.id ∷ visited) m (omega arith)
            (ap (λ i. stored_node project i nodes) (stored-id project j nodes m found) ∙ found) rest
            (
              (suc d, n, omega arith, at, here),
              All-imp (Behind (suc d)) (Behind d) (λ v b. (b.0, b.1, omega (arith, b.2), b.3, b.4))
                  visited behind,
            )

is_active-eq : (s : NodeState) → is_active_node s ≡ true → s ≡ active
is_active-eq s h = ground (arith, h)

is_merged-eq : (s : NodeState) → is_merged s ≡ true → s ≡ merged
is_merged-eq s h = ground (arith, h)

is_decision-eq : (t : NodeType) → is_decision t ≡ true → t ≡ decision
is_decision-eq t h = ground (arith, h)

none_set : (o : Option ℕ) → not (is_some o) ≡ true → o ≡ none
none_set none h = refl
none_set (some j) h = cc

two : (a b : Bool) → (a && b) ≡ true → (a ≡ true) × (b ≡ true)
two a b h = ground arith

neither : (a b : Bool) → (not a || not b) ≡ false → (a ≡ true) × (b ≡ true)
neither a b h = ground arith

settled : (n : GraphNode) → is_settled n ≡ true → (n.graph_state ≡ active) × (n.merged_into ≡ none)
settled n h =
    let (a, b) = two (is_active_node n.graph_state) (not (is_some n.merged_into)) h in
    (is_active-eq n.graph_state a, none_set n.merged_into b)

settled_decision :
    (o : Option GraphNode)
    → is_settled_decision o ≡ true
    → (c : GraphNode) × (o ≡ some c)
      × (c.node_type ≡ decision)
      × (c.graph_state ≡ active)
      × (c.merged_into ≡ none)
settled_decision none h = cc
settled_decision (some c) h =
    let (d, s) = two (is_decision c.node_type) (is_settled c) h in
    let (a, m) = settled c s in (c, refl, is_decision-eq c.node_type d, a, m)

module _ (project : String) (nodes : List GraphNode) (n : GraphNode) where
  is_final_sound : decision_is_final project nodes n ≡ true → IsFinalDecision project nodes n
  unfolding decision_is_final canonical_hint
  is_final_sound h = elim (Bool-cases (is_settled n)) [
    | inl e ↦ inl (settled n e)
    | inr e ↦ elim (Bool-cases (not (is_merged n.graph_state) || not (is_some n.merged_into))) [
      | inl f ↦ cc (rw (decision_is_final, e, f) at h)
      | inr f ↦
          let (m, s) = neither (is_merged n.graph_state) (is_some n.merged_into) f in
          let (c, found, own, on, last) =
            settled_decision (canonical_hint project nodes n) (rw (decision_is_final, e, f) at h) in
          let (d, le, chain) = follow_sound project nodes n.node_type c 5 [] n found in
          inr (is_merged-eq n.graph_state m, (c, d, le, chain, own, on, last))
    ]
  ]

  redirected :
      (c : GraphNode) (d : ℕ)
      → n.graph_state ≡ merged
      → c.graph_state ≡ active
      → LeadsIn project nodes n.node_type c d n
      → is_some n.merged_into ≡ true
  redirected c zero m on chain = cc (m, on, ap (λ x. x.graph_state) chain.0)
  redirected c (suc d) m on chain = rw chain.2 refl

  canonical_found :
      (c : GraphNode) (d : ℕ)
      → d ≤ 5
      → stored_node project n.id nodes ≡ some n
      → LeadsIn project nodes n.node_type c d n
      → canonical_hint project nodes n ≡ some c
  unfolding canonical_hint
  canonical_found c d le at chain =
      follow_complete project nodes n.node_type c d 5 [] n le at chain tt

  is_final_complete :
      stored_node project n.id nodes ≡ some n
      → IsFinalDecision project nodes n
      → decision_is_final project nodes n ≡ true
  unfolding decision_is_final
  is_final_complete at (inl (on, last)) = rw (decision_is_final, on, last) refl
  is_final_complete at (inr (m, (c, d, le, chain, own, on, last))) =
      let found : canonical_hint project nodes n ≡ some c = canonical_found c d le at chain in
      let set : is_some n.merged_into ≡ true = redirected c d m on chain in
      rw (decision_is_final, found, own, on, last, set, m) refl

-- The test holds exactly of the final decisions.
pub decision_is_final-exact :
    (project : String) (nodes : List GraphNode) (n : GraphNode)
    → stored_node project n.id nodes ≡ some n
    → (decision_is_final project nodes n ≡ true) ↔ IsFinalDecision project nodes n
decision_is_final-exact project nodes n at =
    (is_final_sound project nodes n, is_final_complete project nodes n at)
