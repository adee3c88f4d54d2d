-- ===== src/Validation/Judgments/Settled.antt =====
-- What the judgments of a response look like once it is validated: where each of them puts its item,
-- described without the passes of the code.
use projectree.Base.{◌≡◌, ◌≢◌, true, false, some, [], String, All, ◌⊎◌}
use projectree.Base.Text.{truthy, text_of}
use projectree.Contracts.{
  NodeType, JudgmentResult, decision, action, issue, new_decision, attach, update_action,
  changes_key_allowed,
}
use projectree.Validation.Fields.{Judgment, is_minutes_only}
use projectree.Validation.Rules.{Context, is_item, item_type, member}
use projectree.Validation.Passes.{Chosen, result_at}

-- Where a judgment puts an item of type `t`.
pub data Placed (c : Context) (chosen : Chosen) (id : String) (t : NodeType) (j : Judgment)
    : Type 0 where
  -- A decision starts a tree of its own.
  starts :
      t ≡ decision
      → j.result ≡ some new_decision
      → truthy j.category ≡ true
      → Placed c chosen id t j
  -- The item waits for a parent.
  waits : j.result ≡ some JudgmentResult.unattached → Placed c chosen id t j
  -- An action changes a known action, in the fields that may change.
  updates :
      t ≡ action
      → j.result ≡ some update_action
      → member (text_of j.target_action_id) c.action_candidate_ids ≡ true
      → (j.changes ≢ []) × All (λ kv. changes_key_allowed kv.0 ≡ true) j.changes
      → Placed c chosen id t j
  -- An action or an issue goes under a known decision, an issue also under a known action.
  under_node :
      j.result ≡ some attach
      → is_item c.items (text_of j.attach_to) ≡ false
      → ((t ≢ decision) × (member (text_of j.attach_to) c.decision_candidate_ids ≡ true))
        ⊎ ((t ≡ issue) × (member (text_of j.attach_to) c.action_candidate_ids ≡ true))
      → Placed c chosen id t j
  -- It goes under a decision of this meeting that starts a tree.
  under_decision :
      t ≢ decision
      → j.result ≡ some attach
      → item_type c.items (text_of j.attach_to) ≡ some decision
      → result_at chosen (text_of j.attach_to) ≡ some new_decision
      → Placed c chosen id t j
  -- An issue goes under an action of this meeting that itself goes under something.
  under_action :
      t ≡ issue
      → j.result ≡ some attach
      → item_type c.items (text_of j.attach_to) ≡ some action
      → result_at chosen (text_of j.attach_to) ≡ some attach
      → Placed c chosen id t j

-- An accepted judgment: of a typed item with valid evidence, and placed.
pub record Accepted (c : Context) (chosen : Chosen) (id : String) (j : Judgment) : Type 0 where
  pub t : NodeType
  pub typed : item_type c.items id ≡ some t
  pub supported : c.valid id ≡ true
  pub placed : Placed c chosen id t j

-- Every item has a judgment, and it is MINUTES_ONLY or accepted.
pub record Settled (c : Context) (chosen : Chosen) (id : String) : Type 0 where
  pub judgment : Judgment
  pub is_chosen : chosen id ≡ some judgment
  pub of_item : judgment.item_id ≡ id
  pub outcome : (is_minutes_only judgment.result ≡ true) ⊎ Accepted c chosen id judgment
