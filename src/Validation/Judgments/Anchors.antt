-- ===== src/Validation/Judgments/Anchors.antt =====
-- Attachments of a validated response have no cycles: each chain of them ends at a decision that starts
-- a tree or at a node of the candidate lists; and what is accepted is borne out by the transcript.

use projectree.Base.{
  ◌≡◌, ◌≢◌, refl, true, false, Bool, ◌||◌, some, List, [], ◌∷◌, ◌++◌, Memᴰ, String, str_eq,
  str_eq_iff, arith, All, inl, inr, Bool-cases, Option-cases, All-of_mem, All-mem, sym, map, ◌⊎◌,
  any, All-imp,
}
use projectree.Base.Text.{text_of}
use projectree.Contracts.{NodeType, decision, action, issue, new_decision, attach}
use projectree.Validation.Evidence.{TextTools, Segments, is_nil}
use projectree.Validation.Evidence.Sound.{Supports, resolve_item_evidence_valid}
use projectree.Validation.Fields.{Item, Judgment, is_minutes_only}
use projectree.Validation.Rules.{Context, item_type, kind_of, is_known, member}
use projectree.Validation.Passes.{Chosen, result_at}
use projectree.Validation.Judgments.{
  ValidationResult, validate_judgments, item_order, context, is_valid_evidence, holds_true,
}
use projectree.Validation.Judgments.Settled.{Settled, Accepted, Placed}
use projectree.Validation.Judgments.Outcome.{Distinct, validate_judgments_settles}

-- Where the chain of an attachment ends: at a decision of this meeting that starts a tree, or at a node
-- of the candidate lists.
pub data Grounded (c : Context) (chosen : Chosen) : String → Type 0 where
  new_root :
      (id : String)
      → item_type c.items id ≡ some decision
      → result_at chosen id ≡ some new_decision
      → Grounded c chosen id
  known_parent :
      (id : String) (j : Judgment)
      → chosen id ≡ some j
      → j.result ≡ some attach
      → member (text_of j.attach_to) (c.decision_candidate_ids ++ c.action_candidate_ids) ≡ true
      → Grounded c chosen id
  item_parent :
      (id : String) (j : Judgment)
      → chosen id ≡ some j
      → j.result ≡ some attach
      → Grounded c chosen (text_of j.attach_to)
      → Grounded c chosen id

any-append : {A : Type 0} (p : A → Bool) (xs ys : List A) → any p (xs ++ ys) ≡ any p xs || any p ys
any-append p [] ys = refl
any-append p (x ∷ xs) ys = ground (arith, any-append p xs ys)

kind_mem :
    (items : List Item) (id : String)
    → is_known (kind_of items id) ≡ true
    → Memᴰ id (item_order items)
unfolding kind_of
kind_mem [] id h = cc
kind_mem (it ∷ items) id h = elim (Bool-cases (is_known (kind_of items id))) [
  | inl e ↦ Memᴰ.tail (kind_mem items id e)
  | inr e ↦ Memᴰ.head (sym ((str_eq_iff it.id id).0 (ground (arith, h, e))))
]

module _ (c : Context) (chosen : Chosen) where
  either_list :
      (j : Judgment) (t : NodeType)
      → ((t ≢ decision) × (member (text_of j.attach_to) c.decision_candidate_ids ≡ true))
        ⊎ ((t ≡ issue) × (member (text_of j.attach_to) c.action_candidate_ids ≡ true))
      → member (text_of j.attach_to) (c.decision_candidate_ids ++ c.action_candidate_ids) ≡ true
  either_list j t (inl (n, m)) = ground (
    arith,
    any-append (str_eq (text_of j.attach_to)) c.decision_candidate_ids c.action_candidate_ids,
    m,
  )
  either_list j t (inr (n, m)) = ground (
    arith,
    any-append (str_eq (text_of j.attach_to)) c.decision_candidate_ids c.action_candidate_ids,
    m,
  )

  -- An action's attachment, or an issue's to a node or to a decision, is grounded at once; an issue
  -- under an action follows the action's.
  Grounded-by :
      (id : String) (t : NodeType) (j : Judgment)
      → chosen id ≡ some j
      → j.result ≡ some attach
      → (t ≡ issue
          → item_type c.items (text_of j.attach_to) ≡ some action
          → result_at chosen (text_of j.attach_to) ≡ some attach
          → Grounded c chosen (text_of j.attach_to))
      → Placed c chosen id t j
      → Grounded c chosen id
  Grounded-by id t j h r above (Placed.starts d n k) = cc (r, n)
  Grounded-by id t j h r above (Placed.waits n) = cc (r, n)
  Grounded-by id t j h r above (Placed.updates a n m k) = cc (r, n)
  Grounded-by id t j h r above (Placed.under_node n out listed) =
      Grounded.known_parent id j h r (either_list j t listed)
  Grounded-by id t j h r above (Placed.under_decision d n k m) =
      Grounded.item_parent id j h r (Grounded.new_root (text_of j.attach_to) k m)
  Grounded-by id t j h r above (Placed.under_action i n k m) =
      Grounded.item_parent id j h r (above i k m)

  -- The accepted judgment of an attached item.
  attached :
      (id : String)
      → Settled c chosen id
      → result_at chosen id ≡ some attach
      → (j : Judgment) × (chosen id ≡ some j) × (j.result ≡ some attach) × Accepted c chosen id j
  attached id s r = elim s.outcome [
    | inl m ↦ absurd (ground (arith, m, r, s.is_chosen))
    | inr a ↦ (s.judgment, s.is_chosen, ground (arith, r, s.is_chosen), a)
  ]

  action-Grounded :
      (id : String)
      → Settled c chosen id
      → item_type c.items id ≡ some action
      → result_at chosen id ≡ some attach
      → Grounded c chosen id
  action-Grounded id s k r =
      let (j, h, e, a) = attached id s r in
      Grounded-by id a.t j h e (λ i g f. cc (a.typed, k, i)) a.placed

  attachments-Grounded :
      All (Settled c chosen) (item_order c.items)
      → All (λ id. result_at chosen id ≡ some attach → Grounded c chosen id) (item_order c.items)
  attachments-Grounded all =
      All-of_mem (λ id. result_at chosen id ≡ some attach → Grounded c chosen id)
        (item_order c.items)
        (λ id m r.
          let (j, h, e, a) =
            attached id (All-mem (Settled c chosen) (item_order c.items) all m) r in
          Grounded-by id a.t j h e
            (λ i k f.
              action-Grounded (text_of j.attach_to)
                (All-mem (Settled c chosen) (item_order c.items) all
                  (kind_mem c.items (text_of j.attach_to) (ground (arith, k))))
                k f)
            a.placed)

-- An item of the id whose evidence is all borne out by the transcript.
pub record Evidenced (tools : TextTools) (segments : Segments) (items : List Item) (id : String)
    : Type 0 where
  pub item : Item
  pub is_listed : Memᴰ item items
  pub has_id : item.id ≡ id
  pub has_evidence : is_nil item.evidence ≡ false
  pub supported : All (Supports tools segments) item.evidence

evidenced :
    (tools : TextTools) (segments : Segments) (items : List Item) (id : String)
    → holds_true (is_valid_evidence tools segments items id) ≡ true
    → Evidenced tools segments items id
evidenced tools segments [] id h = cc
evidenced tools segments (it ∷ items) id h =
    elim (Option-cases (is_valid_evidence tools segments items id)) [
      | inr (v, e) ↦
          let found = evidenced tools segments items id (ground (arith, h, e)) in
          record {
            item = found.item;
            is_listed = Memᴰ.tail found.is_listed;
            has_id = found.has_id;
            has_evidence = found.has_evidence;
            supported = found.supported;
          }
      | inl e ↦
          let held =
            (resolve_item_evidence_valid tools segments it.evidence).0 (ground (arith, h, e)) in
          record {
            item = it;
            is_listed = Memᴰ.head refl;
            has_id = (str_eq_iff it.id id).0 (ground (arith, h, e));
            has_evidence = held.0;
            supported = held.1;
          }
    ]

module _ (tools : TextTools) (segments : Segments) (items : List Item)
    (decision_ids action_ids : List String) (raw : List Judgment) where
  -- In the result of a response that judges no item twice every attachment is grounded.
  pub validate_judgments-Grounded :
      Distinct (map (λ j. j.item_id) raw)
      → (result : ValidationResult) × (chosen : Chosen) × (validate_judgments tools segments items
            decision_ids action_ids raw
          ≡ some result)
        × (result.judgments ≡ map chosen (item_order items))
        × All
            (λ id.
              result_at chosen id ≡ some attach
              → Grounded (context tools segments items decision_ids action_ids) chosen id)
            (item_order items)
  validate_judgments-Grounded d =
      let (result, chosen, ends, listed, open_, settles) =
        validate_judgments_settles tools segments items decision_ids action_ids raw d in
      (
        result,
        chosen,
        ends,
        listed,
        attachments-Grounded (context tools segments items decision_ids action_ids) chosen settles,
      )

  -- In the result of a response that judges no item twice every item that is not left to the minutes
  -- has evidence, and all of it is borne out.
  pub validate_judgments-Evidenced :
      Distinct (map (λ j. j.item_id) raw)
      → (result : ValidationResult) × (chosen : Chosen) × (validate_judgments tools segments items
            decision_ids action_ids raw
          ≡ some result)
        × (result.judgments ≡ map chosen (item_order items))
        × All
            (λ id.
              is_minutes_only (result_at chosen id) ≡ false → Evidenced tools segments items id)
            (item_order items)
  validate_judgments-Evidenced d =
      let c = context tools segments items decision_ids action_ids in
      let (result, chosen, ends, listed, open_, settles) =
        validate_judgments_settles tools segments items decision_ids action_ids raw d in
      (
        result,
        chosen,
        ends,
        listed,
        All-imp (Settled c chosen)
            (λ id.
              is_minutes_only (result_at chosen id) ≡ false → Evidenced tools segments items id)
            (λ id s m. elim s.outcome [
              | inl minutes ↦ absurd (ground (arith, minutes, m, s.is_chosen))
              | inr a ↦ evidenced tools segments items id a.supported
            ])
            (item_order items) settles,
      )
