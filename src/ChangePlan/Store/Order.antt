-- ===== src/ChangePlan/Store/Order.antt =====
-- The log of an application: one entry for each command, in order.
use mathlib.Core.Option
use mathlib.Core.List.{append-nil, append_assoc}
use mathlib.Core.Path.{subst}
use projectree.Base.{
  ◌&&◌, not, arith, ℕ, ◌≡◌, refl, ap, sym, ◌∙◌, Bool, true, false, Option, none, some, List, [],
  ◌∷◌, ◌++◌, map, String, inl, inr, ◌⊎◌, if◌then◌else◌,
}
use projectree.Base.Text.{text_of}
use projectree.Validation.Evidence.{TextTools}
use projectree.ChangePlan.{Command, PlanOp}
use projectree.Contracts.{NodeType}
use projectree.ChangePlan.Store.{
  Node, Applying, Applied, failed, done, apply_command, apply_each, apply_by, add_or_skip,
  create_under, update_target, find_duplicate_node, get_node, resolve_parent, Failure, is_present,
  parent_rule_broken, unknown_category,
}
use projectree.Contracts.{parent_rule_violation}
use projectree.Validation.Rules.{member}

-- What holds of the progress, if nothing failed.
abbrev pub OnDone : (Applying → Type 0) → Applied → Type 0
OnDone P (failed e) = Unit
OnDone P (done p) = P p

pub of_done : (P : Applying → Type 0) (o : Applied) (q : Applying) → o ≡ done q → OnDone P o → P q
of_done P (failed e) q f h = cc
of_done P (done p) q f h = subst P (same p q f) h
  where
    same : (p q : Applying) → done p ≡ done q → p ≡ q
    same p q f = cc

pub outcomes : (o : Applied) → ((e : Failure) × (o ≡ failed e)) ⊎ ((q : Applying) × (o ≡ done q))
outcomes (failed e) = inl (e, refl)
outcomes (done q) = inr (q, refl)

module _ (tools : TextTools) (values : List String) (new_id : ℕ → String)
    (project meeting : String) where
  added :
      (cmd : Command) (t : NodeType) (parent : Option String) (p : Applying) (o : Option Node)
      → OnDone
          (λ q. q.applied_order ≡ p.applied_order)
          (add_or_skip tools values new_id project meeting cmd t parent p o)
  added cmd t parent p none = refl
  added cmd t parent p (some dup) = refl

  abbrev RefusedOr : (Applying → Type 0) → Bool → Failure → Applied → Type 0
  RefusedOr P b e a = OnDone P (if b then failed e else a)

  pub on_else :
      (P : Applying → Type 0) (b : Bool) (e : Failure) (a : Applied)
      → OnDone P a
      → RefusedOr P b e a
  on_else P true e a h = tt
  on_else P false e a h = h

  created_under :
      (cmd : Command) (t : NodeType) (p : Applying) (parent : Option (Option (String × NodeType)))
      → OnDone
          (λ q. q.applied_order ≡ p.applied_order)
          (create_under tools values new_id project meeting cmd t p parent)
  created_under cmd t p none = tt
  created_under cmd t p (some parent) =
      let add =
        add_or_skip tools values new_id project meeting cmd t (Option.map (λ x. x.0) parent) p
          (find_duplicate_node tools project meeting cmd p.nodes) in
      on_else (λ q. q.applied_order ≡ p.applied_order)
        (is_present (parent_rule_violation t (Option.map (λ x. x.1) parent) cmd.graph_state))
        parent_rule_broken
        (if not (is_present cmd.category && member (text_of cmd.category) values)
          then failed unknown_category
          else add)
        (on_else (λ q. q.applied_order ≡ p.applied_order)
          (not (is_present cmd.category && member (text_of cmd.category) values)) unknown_category
          add
          (added cmd t (Option.map (λ x. x.0) parent) p
            (find_duplicate_node tools project meeting cmd p.nodes)))

  updated_target :
      (cmd : Command) (p : Applying) (o : Option Node)
      → OnDone
          (λ q. q.applied_order ≡ p.applied_order)
          (update_target tools values new_id project meeting cmd p o)
  updated_target cmd p none = tt
  updated_target cmd p (some node) =
      elim (outcomes (update_target tools values new_id project meeting cmd p (some node))) [
        | inl (e, h) ↦ subst (OnDone (λ q. q.applied_order ≡ p.applied_order)) (sym h) tt
        | inr (q, h) ↦
            subst (OnDone (λ q. q.applied_order ≡ p.applied_order)) (sym h) (ground (arith, h))
      ]

  apply_by_keeps :
      (cmd : Command) (p : Applying) (t : Option NodeType) (op : PlanOp)
      → OnDone
          (λ q. q.applied_order ≡ p.applied_order)
          (apply_by tools values new_id project meeting cmd p t op)
  apply_by_keeps cmd p t PlanOp.update_action =
      updated_target cmd p (get_node (text_of cmd.target_action_id) p.nodes)
  apply_by_keeps cmd p t PlanOp.record_minutes = refl
  apply_by_keeps cmd p none PlanOp.create_decision = tt
  apply_by_keeps cmd p none PlanOp.create_action = tt
  apply_by_keeps cmd p none PlanOp.create_issue = tt
  apply_by_keeps cmd p (some t) PlanOp.create_decision =
      created_under cmd t p (resolve_parent cmd.parent p)
  apply_by_keeps cmd p (some t) PlanOp.create_action =
      created_under cmd t p (resolve_parent cmd.parent p)
  apply_by_keeps cmd p (some t) PlanOp.create_issue =
      created_under cmd t p (resolve_parent cmd.parent p)

  apply_command_adds :
      (cmd : Command) (p : Applying)
      → OnDone
          (λ q. q.applied_order ≡ p.applied_order ++ cmd.item_id ∷ [])
          (apply_command tools values new_id project meeting cmd p)
  unfolding apply_command
  apply_command_adds cmd p =
      apply_by_keeps cmd (record p { applied_order = p.applied_order ++ cmd.item_id ∷ [] })
        cmd.node_type cmd.op

  pub apply_each_failed :
      (cmd : Command) (cmds : List Command) (p : Applying) (e : Failure)
      → apply_command tools values new_id project meeting cmd p ≡ failed e
      → apply_each tools values new_id project meeting (cmd ∷ cmds) p ≡ failed e
  unfolding apply_each
  apply_each_failed cmd cmds p e h = rw (h, apply_each) refl

  pub apply_each_done :
      (cmd : Command) (cmds : List Command) (p q : Applying)
      → apply_command tools values new_id project meeting cmd p ≡ done q
      → apply_each tools values new_id project meeting (cmd ∷ cmds) p
        ≡ apply_each tools values new_id project meeting cmds q
  unfolding apply_each
  apply_each_done cmd cmds p q h = rw (h, apply_each) refl

  pub apply_each_order :
      (cmds : List Command) (p : Applying)
      → OnDone
          (λ q. q.applied_order ≡ p.applied_order ++ map (λ c. c.item_id) cmds)
          (apply_each tools values new_id project meeting cmds p)
  unfolding apply_each
  apply_each_order [] p = sym (append-nil p.applied_order)
  apply_each_order (cmd ∷ cmds) p =
      elim (outcomes (apply_command tools values new_id project meeting cmd p)) [
        | inl (e, h) ↦ subst (OnDone _) (sym (apply_each_failed cmd cmds p e h)) tt
        | inr (q, h) ↦
            let here =
              of_done (λ q. q.applied_order ≡ p.applied_order ++ cmd.item_id ∷ [])
                (apply_command tools values new_id project meeting cmd p) q h
                (apply_command_adds cmd p) in
            subst (OnDone _) (sym (apply_each_done cmd cmds p q h)) (
              subst
                (λ l.
                  OnDone (λ r. r.applied_order ≡ l)
                    (apply_each tools values new_id project meeting cmds q))
                (ap (λ l. l ++ map (λ c. c.item_id) cmds) here
                  ∙ append_assoc p.applied_order (cmd.item_id ∷ []) (map (λ c. c.item_id) cmds))
                (apply_each_order cmds q))
      ]
