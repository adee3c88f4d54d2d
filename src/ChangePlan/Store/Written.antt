-- ===== src/ChangePlan/Store/Written.antt =====
-- What an applied plan has written to the nodes that were there before.
use mathlib.Core.Option
use mathlib.Core.Path.{subst}
use projectree.Base.{
  find-append, ◌&&◌, not, arith, ℕ, ◌≡◌, ◌+◌, refl, ap, sym, ◌∙◌, Bool, true, false, Option, none,
  some, List, [], ◌∷◌, ◌++◌, map, String, inl, inr, Option-cases, Bool-cases, if◌then◌else◌, str_eq,
  str_eq_iff, ◌==◌, ==_iff,
}
use projectree.Base.Table.{update_where}
use projectree.Base.Text.{text_of, lookup_text}
use projectree.Validation.Evidence.{TextTools}
use projectree.Validation.Rules.{member}
use projectree.Contracts.{NodeType, parent_rule_violation, is_action}
use projectree.ChangePlan.{Command, PlanOp}
use projectree.ChangePlan.Apply.{ordered_for_apply}
use projectree.ChangePlan.Store.{
  Node, Applying, Applied, failed, done, apply_command, apply_each, apply_change_plan, apply_by,
  nothing_yet, add_or_skip, create_under, update_target, update_node, expected_or,
  find_duplicate_node, get_node, resolve_parent, is_present, parent_rule_broken, unknown_category,
}
use projectree.ChangePlan.Store.Order.{
  OnDone, of_done, outcomes, on_else, apply_each_failed, apply_each_done, apply_each_order,
}

-- UPDATE_ACTION
abbrev pub is_update : PlanOp → Bool
is_update PlanOp.update_action = true
is_update _ = false

-- The command is an update of the node.
abbrev pub aims : String → Command → Bool
aims id cmd = is_update cmd.op && str_eq (text_of cmd.target_action_id) id

abbrev pub due_by : Option String → Option String → Option String
due_by none due = due
due_by (some d) due = some d

abbrev updated : Command → Node → Node
updated cmd n = record n {
  version = n.version + 1;
  due_date = due_by (lookup_text "dueDate" cmd.changes) n.due_date;
}

-- What one command does to a node that was there before.
abbrev written_by : String → Command → Node → Node
written_by id cmd n = if aims id cmd then updated cmd n else n

-- How many of the commands update the node.
unfoldable pub updates_of : String → List Command → ℕ
updates_of id [] = 0
updates_of id (cmd ∷ cmds) = let rest = updates_of id cmds in if aims id cmd then 1 + rest else rest

-- The due date of the last of those that set one, or else the old one.
unfoldable pub last_due : String → List Command → Option String → Option String
last_due id [] due = due
last_due id (cmd ∷ cmds) due =
    last_due id cmds (if aims id cmd then due_by (lookup_text "dueDate" cmd.changes) due else due)

abbrev pub written : String → List Command → Node → Node
written id cmds n = record n {
  version = n.version + updates_of id cmds;
  due_date = last_due id cmds n.due_date;
}

abbrev at_version : Node → ℕ → Option String → Node
at_version n v due = record n { version = v; due_date = due }

written-cons :
    (id : String) (cmd : Command) (cmds : List Command) (n : Node)
    → written id cmds (written_by id cmd n) ≡ written id (cmd ∷ cmds) n
unfolding updates_of last_due
written-cons id cmd cmds n = elim (Bool-cases (aims id cmd)) [
  | inl e ↦
      let sum : (n.version + 1) + updates_of id cmds ≡ n.version + (1 + updates_of id cmds) =
        omega arith in
      let due = last_due id cmds (due_by (lookup_text "dueDate" cmd.changes) n.due_date) in
      rw e (ap (λ v. at_version n v due) sum)
  | inr e ↦ rw e refl
]

written-nil : (id : String) (n : Node) → n ≡ written id [] n
unfolding updates_of last_due
written-nil id n =
    let sum : n.version ≡ n.version + 0 = omega arith in ap (λ v. at_version n v n.due_date) sum

same_node : {a b : Node} → some a ≡ some b → a ≡ b
same_node e = ground (arith, e)

get_node-id : (id : String) (n : Node) (ns : List Node) → get_node id ns ≡ some n → n.id ≡ id
get_node-id id n [] h = cc
get_node-id id n (x ∷ ns) h = elim (Bool-cases (str_eq x.id id)) [
  | inl e ↦
      let same : x ≡ n = ground (arith, e) in ap (λ x. x.id) (sym same) ∙ (str_eq_iff x.id id).0 e
  | inr e ↦ get_node-id id n ns (ground (arith, e))
]

-- The update of the node with the target's id.
get_node-update_where :
    (id : String) (n changed : Node) (ns : List Node)
    → get_node id ns ≡ some n
    → get_node id (update_where (λ x. str_eq x.id changed.id) (λ x. changed) ns)
      ≡ some (if str_eq changed.id id then changed else n)
get_node-update_where id n changed [] h = cc
get_node-update_where id n changed (x ∷ ns) h = elim (Bool-cases (str_eq x.id changed.id)) [
  | inl hit ↦
      let same : x.id ≡ changed.id = (str_eq_iff x.id changed.id).0 hit in
      elim (Bool-cases (str_eq changed.id id)) [
        | inl e ↦ rw (hit, e) refl
        | inr e ↦
            let other : str_eq x.id id ≡ false = rw same e in
            let later : get_node id ns ≡ some n = ground (arith, other, h) in
            let rest = get_node-update_where id n changed ns later in rw (hit, e) (rw e at rest)
      ]
  | inr miss ↦ elim (Bool-cases (str_eq x.id id)) [
    | inl e ↦
        let found : x ≡ n = ground (arith, e, h) in
        let other : str_eq changed.id id ≡ false = ground (
          arith,
          e,
          miss,
          str_eq_iff x.id id,
          str_eq_iff changed.id id,
          str_eq_iff x.id changed.id,
        ) in
        rw (miss, e, other, found) refl
    | inr e ↦ rw (miss, e) (get_node-update_where id n changed ns (ground (arith, e, h)))
  ]
]

module _ (tools : TextTools) (values : List String) (new_id : ℕ → String)
    (project meeting id : String) (n : Node) where
  -- The node that has the id is there, as it was.
  abbrev Same : Applying → Type 0
  Same q = get_node id q.nodes ≡ some n

  add_or_skip-Same :
      (cmd : Command) (t : NodeType) (parent : Option String) (p : Applying) (o : Option Node)
      → Same p
      → OnDone Same (add_or_skip tools values new_id project meeting cmd t parent p o)
  add_or_skip-Same cmd t parent p none h = find-append _ p.nodes _ h
  add_or_skip-Same cmd t parent p (some dup) h = h

  create_under-Same :
      (cmd : Command) (t : NodeType) (p : Applying) (parent : Option (Option (String × NodeType)))
      → Same p
      → OnDone Same (create_under tools values new_id project meeting cmd t p parent)
  create_under-Same cmd t p none h = tt
  create_under-Same cmd t p (some parent) h =
      let add =
        add_or_skip tools values new_id project meeting cmd t (Option.map (λ x. x.0) parent) p
          (find_duplicate_node tools project meeting cmd p.nodes) in
      let no_category = not (is_present cmd.category && member (text_of cmd.category) values) in
      on_else tools values new_id project meeting Same
        (is_present (parent_rule_violation t (Option.map (λ x. x.1) parent) cmd.graph_state))
        parent_rule_broken (if no_category then failed unknown_category else add)
        (on_else tools values new_id project meeting Same no_category unknown_category add (
          add_or_skip-Same cmd t (Option.map (λ x. x.0) parent) p
            (find_duplicate_node tools project meeting cmd p.nodes) h))

  abbrev AsWritten : Command → Applying → Type 0
  AsWritten cmd q = get_node id q.nodes ≡ some (written_by id cmd n)

  update_node-done :
      (cmd : Command) (node : Node) (p : Applying)
      → OnDone
          (λ q. q.nodes ≡ update_where (λ x. str_eq x.id node.id) (λ x. updated cmd node) p.nodes)
          (update_node tools values new_id project meeting cmd node p)
  update_node-done cmd node p =
      let from =
        expected_or tools values new_id project meeting cmd.expected_version node.version in
      elim (Bool-cases (is_action node.node_type)) [
        | inr other ↦ rw other tt
        | inl act ↦ elim (Bool-cases (node.version == from)) [
          | inr stale ↦ rw (act, stale) tt
          | inl fresh ↦
              let same : from ≡ node.version = sym ((==_iff node.version from).0 fresh) in
              elim (Option-cases (lookup_text "dueDate" cmd.changes)) [
                | inl d ↦ rw (act, fresh, d, same) refl
                | inr (due, d) ↦ rw (act, fresh, d, same) refl
              ]
        ]
      ]

  -- The write hits the node exactly when the command is aimed at it.
  aimed :
      (cmd : Command) (node : Node) (q p : Applying)
      → is_update cmd.op ≡ true
      → get_node (text_of cmd.target_action_id) p.nodes ≡ some node
      → Same p
      → q.nodes ≡ update_where (λ x. str_eq x.id node.id) (λ x. updated cmd node) p.nodes
      → AsWritten cmd q
  aimed cmd node q p op e h w =
      let target : node.id ≡ text_of cmd.target_action_id = get_node-id _ node p.nodes e in
      let found = get_node-update_where id n (updated cmd node) p.nodes h in
      elim (Bool-cases (str_eq (text_of cmd.target_action_id) id)) [
        | inl hit ↦
            let same : text_of cmd.target_action_id ≡ id = (str_eq_iff _ id).0 hit in
            let one : node ≡ n = same_node (sym e ∙ ap (λ k. get_node k p.nodes) same ∙ h) in
            let named : str_eq node.id id ≡ true = rw target hit in
            ap (get_node id) w ∙ found ∙ ap some (rw (named, op, hit) (ap (updated cmd) one))
        | inr miss ↦
            let named : str_eq node.id id ≡ false = rw target miss in
            ap (get_node id) w ∙ found ∙ ap some (rw (named, op, miss) refl)
      ]

  update_target-AsWritten :
      (cmd : Command) (p : Applying)
      → is_update cmd.op ≡ true
      → Same p
      → OnDone (AsWritten cmd) (
          update_target tools values new_id project meeting cmd p
            (get_node (text_of cmd.target_action_id) p.nodes))
  update_target-AsWritten cmd p op h =
      elim (Option-cases (get_node (text_of cmd.target_action_id) p.nodes)) [
        | inl e ↦ rw e tt
        | inr (node, e) ↦
            rw e (elim (outcomes (update_node tools values new_id project meeting cmd node p)) [
              | inl (f, g) ↦ subst (OnDone (AsWritten cmd)) (sym g) tt
              | inr (q, g) ↦ subst (OnDone (AsWritten cmd)) (sym g) (
                  aimed cmd node q p op e h (
                    of_done
                      (λ q.
                        q.nodes
                        ≡ update_where (λ x. str_eq x.id node.id) (λ x. updated cmd node) p.nodes)
                      _ q g (update_node-done cmd node p)))
            ])
      ]

  keeps-AsWritten :
      (cmd : Command) (o : Applied)
      → is_update cmd.op ≡ false
      → OnDone Same o
      → OnDone (AsWritten cmd) o
  keeps-AsWritten cmd (failed e) op h = tt
  keeps-AsWritten cmd (done q) op h = rw op h

  apply_by-AsWritten :
      (cmd : Command) (p : Applying) (t : Option NodeType) (op : PlanOp)
      → is_update cmd.op ≡ is_update op
      → Same p
      → OnDone (AsWritten cmd) (apply_by tools values new_id project meeting cmd p t op)
  apply_by-AsWritten cmd p t PlanOp.update_action e h = update_target-AsWritten cmd p e h
  apply_by-AsWritten cmd p t PlanOp.record_minutes e h = rw e h
  apply_by-AsWritten cmd p none PlanOp.create_decision e h = tt
  apply_by-AsWritten cmd p none PlanOp.create_action e h = tt
  apply_by-AsWritten cmd p none PlanOp.create_issue e h = tt
  apply_by-AsWritten cmd p (some t) PlanOp.create_decision e h =
      keeps-AsWritten cmd _ e (create_under-Same cmd t p (resolve_parent cmd.parent p) h)
  apply_by-AsWritten cmd p (some t) PlanOp.create_action e h =
      keeps-AsWritten cmd _ e (create_under-Same cmd t p (resolve_parent cmd.parent p) h)
  apply_by-AsWritten cmd p (some t) PlanOp.create_issue e h =
      keeps-AsWritten cmd _ e (create_under-Same cmd t p (resolve_parent cmd.parent p) h)

  apply_command-AsWritten :
      (cmd : Command) (p : Applying)
      → Same p
      → OnDone (AsWritten cmd) (apply_command tools values new_id project meeting cmd p)
  unfolding apply_command
  apply_command-AsWritten cmd p h =
      apply_by-AsWritten cmd (record p { applied_order = p.applied_order ++ cmd.item_id ∷ [] })
        cmd.node_type cmd.op refl h

module _ (tools : TextTools) (values : List String) (new_id : ℕ → String)
    (project meeting id : String) where
  apply_each-written :
      (cmds : List Command) (p : Applying) (n : Node)
      → get_node id p.nodes ≡ some n
      → OnDone
          (λ q. get_node id q.nodes ≡ some (written id cmds n))
          (apply_each tools values new_id project meeting cmds p)
  unfolding apply_each updates_of last_due
  apply_each-written [] p n h = h ∙ ap some (written-nil id n)
  apply_each-written (cmd ∷ cmds) p n h =
      elim (outcomes (apply_command tools values new_id project meeting cmd p)) [
        | inl (e, g) ↦
            subst (OnDone _)
              (sym (apply_each_failed tools values new_id project meeting cmd cmds p e g)) tt
        | inr (q, g) ↦
            let here =
              of_done (λ q. get_node id q.nodes ≡ some (written_by id cmd n)) _ q g
                (apply_command-AsWritten tools values new_id project meeting id n cmd p h) in
            subst (OnDone _)
              (sym (apply_each_done tools values new_id project meeting cmd cmds p q g))
              (subst
                (λ m.
                  OnDone (λ r. get_node id r.nodes ≡ some m)
                    (apply_each tools values new_id project meeting cmds q))
                (written-cons id cmd cmds n) (apply_each-written cmds q (written_by id cmd n) here))
      ]

-- A plan that is applied without a failure was put in order, and its log is the item ids of its
-- commands in that order. A node that was there before is there afterwards: its version is higher by the
-- number of UPDATE_ACTION commands aimed at it, its due date is that of the last of them which
-- sets one, and all else of it is as it was.
pub apply_change_plan-written :
    (tools : TextTools) (values : List String) (new_id : ℕ → String) (project meeting : String)
    (enabled : Bool) (commands : List Command) (nodes : List Node) (q : Applying)
    → apply_change_plan tools values new_id project meeting enabled commands nodes ≡ done q
    → (ordered : List Command) × (ordered_for_apply commands ≡ some ordered)
      × (q.applied_order ≡ map (λ c. c.item_id) ordered)
      × ((id : String) (n : Node)
          → get_node id nodes ≡ some n
          → get_node id q.nodes ≡ some (written id ordered n))
unfolding apply_change_plan
apply_change_plan-written tools values new_id project meeting false commands nodes q h = cc
apply_change_plan-written tools values new_id project meeting true commands nodes q h =
    elim (Option-cases (ordered_for_apply commands)) [
      | inl e ↦ cc (rw e at h)
      | inr (ordered, e) ↦
          let start = nothing_yet tools values new_id project meeting nodes in
          let applied : apply_each tools values new_id project meeting ordered start ≡ done q =
            rw e at h in
          (
            ordered,
            e,
            of_done (λ q. q.applied_order ≡ map (λ c. c.item_id) ordered) _ q applied
                (apply_each_order tools values new_id project meeting ordered start),
            λ id n there.
                of_done (λ q. get_node id q.nodes ≡ some (written id ordered n)) _ q applied
                  (apply_each-written tools values new_id project meeting id ordered start n there),
          )
    ]
