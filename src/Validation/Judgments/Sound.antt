-- ===== src/Validation/Judgments/Sound.antt =====
-- An item whose judgment passes both passes is settled.
use projectree.Base.{
  str_eq_iff, ◌≡◌, refl, true, false, ◌&&◌, Option, none, some, String, arith, inl, inr, Bool-cases,
  Option-cases, ◌⊎◌,
}
use projectree.Base.Text.{text_of}
use projectree.Contracts.{
  NodeType, JudgmentResult, new_decision, attach, update_action, minutes_only, is_decision,
}
use projectree.Validation.Fields.{Judgment, is_minutes_only, is_new_decision, field_violations}
use projectree.Validation.Rules.{Context, is_type, is_item, item_type, member}
use projectree.Validation.Passes.{Chosen, result_at, second_rule, parent_rule}
use projectree.Validation.Judgments.Owned.{is_of}
use projectree.Validation.Judgments.FirstPass.{passes, passes_clean}
use projectree.Validation.Judgments.Settled.{
  Placed, starts, waits, updates, under_node, under_decision, under_action, Accepted, Settled,
}
use projectree.Validation.Judgments.Clean.{
  Clean, clean, only_decision, only_action, child_type, some_type, type_at, as_decision, as_action,
  as_new, as_attach, none_refused, update_shaped,
}

module _ (c : Context) (chosen : Chosen) (id : String) (j : Judgment)
    (k : Clean c chosen id j) where
  starts_tree :
      j.result ≡ some new_decision
      → (t : NodeType) → item_type c.items id ≡ some t
      → Placed c chosen id t j
  unfolding field_violations
  starts_tree r t e =
      starts (type_at (only_decision (item_type c.items id) (rw r at k.allowed)) e) r
        (ground (arith, k.shaped, r))

  changes_action :
      j.result ≡ some update_action
      → (t : NodeType) → item_type c.items id ≡ some t
      → Placed c chosen id t j
  unfolding field_violations
  changes_action r t e =
      updates (type_at (only_action (item_type c.items id) (rw r at k.allowed)) e) r
        (ground (arith, k.referring, r)) (update_shaped j k.shaped r)

  -- An attachment to a node goes by the candidate lists.
  attaches_out :
      j.result ≡ some attach
      → is_item c.items (text_of j.attach_to) ≡ false
      → (t : NodeType) → item_type c.items id ≡ some t
      → Placed c chosen id t j
  attaches_out r out t e = elim (child_type (item_type c.items id) (rw r at k.allowed)) [
    | inl a ↦ under_node r out (inl (λ d. cc, ground (arith, k.referring, r, out, a)))
    | inr i ↦ elim (Bool-cases (member (text_of j.attach_to) c.action_candidate_ids)) [
      | inl m ↦ under_node r out (inr (type_at i e, m))
      | inr m ↦ under_node r out (inl (λ d. cc, ground (arith, k.referring, r, out, m)))
    ]
  ]

  attaches_in :
      j.result ≡ some attach
      → is_item c.items (text_of j.attach_to) ≡ true
      → chosen id ≡ some j
      → second_rule c.items chosen id ≡ none
      → (t : NodeType) → item_type c.items id ≡ some t
      → Placed c chosen id t j
  unfolding second_rule parent_rule
  attaches_in r inside h q t e = elim (child_type (item_type c.items id) (rw r at k.allowed)) [
    | inl a ↦
        under_decision (λ d. cc) r
          (as_decision (item_type c.items (text_of j.attach_to))
            (ground (arith, q, h, r, inside, a)))
          (as_new (result_at chosen (text_of j.attach_to)) (ground (arith, q, h, r, inside, a)))
    | inr i ↦
        elim (Bool-cases (
          is_type is_decision (item_type c.items (text_of j.attach_to))
          && is_new_decision (result_at chosen (text_of j.attach_to)))) [
            | inl d ↦
                under_decision (λ f. cc) r
                  (as_decision (item_type c.items (text_of j.attach_to)) (ground (arith, d)))
                  (as_new (result_at chosen (text_of j.attach_to)) (ground (arith, d)))
            | inr n ↦
                under_action (type_at i e) r
                  (as_action (item_type c.items (text_of j.attach_to))
                    (ground (arith, q, h, r, inside, i, n)))
                  (as_attach (result_at chosen (text_of j.attach_to))
                    (ground (arith, q, h, r, inside, i, n)))
          ]
  ]

  -- A clean judgment with a type and nothing against its parent is placed.
  place :
      chosen id ≡ some j
      → second_rule c.items chosen id ≡ none
      → is_minutes_only j.result ≡ false
      → (r : Option JudgmentResult) → j.result ≡ r
      → (t : NodeType) → item_type c.items id ≡ some t
      → Placed c chosen id t j
  place h q m (some new_decision) r t e = starts_tree r t e
  place h q m (some attach) r t e = elim (Bool-cases (is_item c.items (text_of j.attach_to))) [
    | inl inside ↦ attaches_in r inside h q t e
    | inr out ↦ attaches_out r out t e
  ]
  place h q m (some update_action) r t e = changes_action r t e
  place h q m (some JudgmentResult.unattached) r t e = waits r
  place h q m (some minutes_only) r t e = absurd (ground (arith, m, r))
  place h q m none r t e =
      absurd (ground (arith, none_refused (item_type c.items id), rw r at k.allowed))

-- An item whose judgment passes both passes is settled.
pub settled :
    (c : Context) (chosen : Chosen) (id : String)
    → passes c id (chosen id) ≡ true
    → second_rule c.items chosen id ≡ none
    → is_of id (chosen id) ≡ true
    → Settled c chosen id
settled c chosen id p q own = elim (Option-cases (chosen id)) [
  | inl e ↦ cc (p, e)
  | inr (j, e) ↦ record {
    judgment = j;
    is_chosen = e;
    of_item = (str_eq_iff j.item_id id).0 (rw e at own);
    outcome = outcome j e (rw e at p);
  }
]
  where
    outcome :
        (j : Judgment)
        → chosen id ≡ some j
        → passes c id (some j) ≡ true
        → (is_minutes_only j.result ≡ true) ⊎ Accepted c chosen id j
    outcome j e p = elim (Bool-cases (is_minutes_only j.result)) [
      | inl m ↦ inl m
      | inr m ↦
          let k = clean c chosen id j m (passes_clean c id j p m) in
          let (t, typed) = some_type j.result (item_type c.items id) k.allowed in
          inr (record {
            t = t;
            typed = typed;
            supported = k.supported;
            placed = place c chosen id j k e q m j.result refl t typed;
          })
    ]
