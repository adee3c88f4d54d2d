-- ===== src/ChangePlan/Build/Valid.antt =====
-- The plan of validated judgments is put in order: the parents that it creates are of a type nearer to
-- the root than their children.
use mathlib.Core.List.{Perm}
use projectree.Base.{
  ℕ, ◌≡◌, ◌<◌, refl, ap, sym, ◌∙◌, inl, inr, true, Option, none, some, List, [], ◌∷◌, String, any,
  str_eq, str_eq_iff, arith, All, All-mem,
}
use projectree.Base.Sorting.{sort_by, All-sort_by}
use projectree.Base.Text.{text_of}
use projectree.Contracts.{NodeType, decision, action, issue, attach}
use projectree.Validation.Evidence.{TextTools, Segments}
use projectree.Validation.Fields.{Item, Judgment, is_minutes_only}
use projectree.Validation.Rules.{Context, kind_of, is_item, item_type}
use projectree.Validation.Passes.{Chosen}
use projectree.Validation.Judgments.{item_order, key_leb}
use projectree.Validation.Judgments.Settled.{Settled, Placed}
use projectree.ChangePlan.{Command}
use projectree.ChangePlan.Apply.{ordered_for_apply}
use projectree.ChangePlan.Apply.Ordered.{
  is_parent, new_parent, ParentsFirst, ordered_for_apply_total,
}
use projectree.ChangePlan.Build.{items_by_id, judgment_of, item_commands, build_change_plan}
use projectree.ChangePlan.Build.Ranked.{
  FromItem, on_map, of_some, item_commands_made, items_by_id_known,
}

-- Decisions are roots, actions go under them, and issues under either.
abbrev type_rank : Option NodeType → ℕ
type_rank none = 0
type_rank (some decision) = 0
type_rank (some action) = 1
type_rank (some issue) = 2

abbrev pub rank_of : List Item → Command → ℕ
rank_of items c = type_rank (item_type items c.item_id)

known_item :
    (items : List Item) (id : String)
    → any (λ i. str_eq i.id id) items ≡ true
    → is_item items id ≡ true
unfolding kind_of
known_item [] id h = cc
known_item (it ∷ items) id h = ground (arith, known_item items id)

-- A child is farther from the root than its parent.
child_rank :
    (c : Context) (chosen : Chosen) (id : String) (t : NodeType) (j : Judgment)
    → j.result ≡ some attach
    → is_item c.items (text_of j.attach_to) ≡ true
    → Placed c chosen id t j
    → type_rank (item_type c.items (text_of j.attach_to)) < type_rank (some t)
child_rank c chosen id t j r k (Placed.starts d n q) = cc (r, n)
child_rank c chosen id t j r k (Placed.waits n) = cc (r, n)
child_rank c chosen id t j r k (Placed.updates a n m q) = cc (r, n)
child_rank c chosen id t j r k (Placed.under_node n out listed) = cc (k, out)
child_rank c chosen id t j r k (Placed.under_decision d n q m) = rw q (not_root t d)
  where
    not_root : (t : NodeType) → (t ≡ decision → ⊥) → 0 < type_rank (some t)
    not_root decision d = absurd (d refl)
    not_root action d = omega arith
    not_root issue d = omega arith
child_rank c chosen id t j r k (Placed.under_action i n q m) = rw (i, q) (omega arith)

module _ (tools : TextTools) (segments : Segments) (values : List String)
    (versions : List (String × ℕ)) (c : Context) (chosen : Chosen) (judgments : List Judgment) where
  ranked :
      All (Settled c chosen) (item_order c.items)
      → ((id : String) (j : Judgment) → judgment_of judgments id ≡ some j → chosen id ≡ some j)
      → (a p : Command) → FromItem tools segments values versions c.items judgments a
      → is_parent p a ≡ true
      → rank_of c.items p < rank_of c.items a
  ranked settles same a p from q =
      let s = All-mem (Settled c chosen) (item_order c.items) settles from.known in
      let (r, named, listed) = from.made.attaches (ground (arith, q)) in
      let parent : p.item_id ≡ text_of (new_parent a.parent) =
        (str_eq_iff p.item_id (text_of (new_parent a.parent))).0 (ground (arith, q)) in
      let one : from.j ≡ s.judgment =
        same_some (sym (same from.it.id from.j from.judged) ∙ s.is_chosen) in
      elim s.outcome [
        | inl m ↦ absurd (minutes from.j s.judgment one r m)
        | inr accepted ↦
            lt_of
              (ap (λ i. type_rank (item_type c.items i))
                (parent ∙ (named ∙ ap (λ j. text_of j.attach_to) one)))
              (ap (λ i. type_rank (item_type c.items i)) from.made.same_id
                ∙ ap type_rank accepted.typed)
              (child_rank c chosen from.it.id accepted.t s.judgment
                (sym (ap (λ j. j.result) one) ∙ r)
                (sym (ap (λ j. is_item c.items (text_of j.attach_to)) one)
                  ∙ known_item c.items (text_of from.j.attach_to) listed)
                accepted.placed)
      ]
    where
      same_some : {j k : Judgment} → some j ≡ some k → j ≡ k
      same_some e = ground arith

      lt_of : {m n k l : ℕ} → m ≡ n → k ≡ l → n < l → m < k
      lt_of e f h = omega arith

      minutes :
          (j k : Judgment) → j ≡ k → j.result ≡ some attach → is_minutes_only k.result ≡ true → ⊥
      minutes j k e r m = cc (ap (λ j. is_minutes_only j.result) e, ap is_minutes_only r, m)

  -- The plan is put in order.
  pub build_change_plan_ordered :
      (commands : List Command)
      → All (Settled c chosen) (item_order c.items)
      → ((id : String) (j : Judgment) → judgment_of judgments id ≡ some j → chosen id ≡ some j)
      → build_change_plan tools segments values versions c.items judgments ≡ some commands
      → (out : List Command) × (ordered_for_apply commands ≡ some out)
        × Perm out commands
        × ParentsFirst commands [] out
  unfolding build_change_plan
  build_change_plan_ordered commands settles same e =
      let made : All (FromItem tools segments values versions c.items judgments) commands =
        of_some (λ cs. All (FromItem tools segments values versions c.items judgments) cs)
          (build_change_plan tools segments values versions c.items judgments) commands e
          (on_map (λ cs. All (FromItem tools segments values versions c.items judgments) cs)
            (λ cs. All (FromItem tools segments values versions c.items judgments) cs)
            (item_commands tools segments values versions c.items judgments (items_by_id c.items))
            (sort_by (λ a b. key_leb a.sort_key b.sort_key))
            (λ cs h.
              All-sort_by (λ a b. key_leb a.sort_key b.sort_key)
                (FromItem tools segments values versions c.items judgments) cs h)
            (item_commands_made tools segments values versions c.items judgments
              (items_by_id c.items) (items_by_id_known c.items))) in
      ordered_for_apply_total commands (rank_of c.items) (λ a p m k q.
        ranked settles same a p
          (All-mem (FromItem tools segments values versions c.items judgments) commands made m) q)
