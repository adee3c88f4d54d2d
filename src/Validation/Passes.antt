-- ===== src/Validation/Passes.antt =====
-- The two passes of `validate_judgments`
-- (data-pipeline/data_pipeline/validation/judgments.py).
use projectree.Base.{
  ℕ, zero, suc, Bool, true, false, not, ◌&&◌, ◌||◌, Option, none, some, List, [], ◌∷◌, ◌++◌, String,
  str_eq, if◌then◌else◌,
}
use projectree.Base.Text.{text_of}
use projectree.Contracts.{
  JudgmentResult, MinutesReason, no_related_decision, is_decision, is_action, is_issue,
}
use projectree.Validation.Fields.{Item, Judgment, is_attach, is_minutes_only, is_new_decision}
use projectree.Validation.Rules.{
  is_item, item_type, is_type, member, Context, Rule, Demotion, minutes_judgment, first_rule,
  attach_m_target_missing, attach_to_minutes_only, action_parent_invalid, issue_parent_invalid,
  attach_from_decision,
}

-- The dict `chosen`, and the log of demotions.
abbrev pub Chosen : Type 0
Chosen = String → Option Judgment

abbrev pub put : String → Judgment → Chosen → Chosen
put id j chosen = λ k. if str_eq id k then some j else chosen k

pub record State : Type 0 where
  pub chosen : Chosen
  pub demoted : List Demotion

abbrev was_result : Option Judgment → Option JudgmentResult
was_result none = none
was_result (some j) = j.result

-- `demote`
unfoldable pub demote : String → Rule → MinutesReason → State → State
demote id rule reason s = record {
  chosen = put id (minutes_judgment id reason) s.chosen;
  demoted = s.demoted ++ record { item_id = id; was = was_result (s.chosen id); rule = rule } ∷ [];
}

abbrev pub apply_rule : String → Option (Rule × MinutesReason) → State → State
apply_rule id none s = s
apply_rule id (some (rule, reason)) s = demote id rule reason s

abbrev pub rule_at : Context → String → Option Judgment → Option (Rule × MinutesReason)
rule_at c id none = none
rule_at c id (some j) = first_rule c id j

-- The first pass, in sequential order; filled items are skipped.
unfoldable pub first_pass : Context → List String → List String → State → State
first_pass c filled [] s = s
first_pass c filled (id ∷ ids) s =
    first_pass c filled ids
      (if member id filled then s else apply_rule id (rule_at c id (s.chosen id)) s)

abbrev pub result_at : Chosen → String → Option JudgmentResult
result_at chosen id = was_result (chosen id)

-- Rule 3: what is wrong with the parent of an item that attaches to another item.
unfoldable pub parent_rule : List Item → Chosen → String → String → Option Rule
parent_rule items chosen id target =
    if not (is_item items target)
    then some attach_m_target_missing
    else if is_minutes_only (result_at chosen target)
    then some attach_to_minutes_only
    else if is_type is_action (item_type items id)
    then if is_type is_decision (item_type items target)
        && is_new_decision (result_at chosen target)
      then none
      else some action_parent_invalid
    else if is_type is_issue (item_type items id)
    then if (is_type is_decision (item_type items target)
          && is_new_decision (result_at chosen target))
        || (is_type is_action (item_type items target) && is_attach (result_at chosen target))
      then none
      else some issue_parent_invalid
    else some attach_from_decision

abbrev second_rule_of : List Item → Chosen → String → Option Judgment → Option Rule
second_rule_of items chosen id none = none
second_rule_of items chosen id (some j) =
    if is_attach j.result && is_item items (text_of j.attach_to)
    then parent_rule items chosen id (text_of j.attach_to)
    else none

-- Why the second pass demotes the judgment of an item, if it does.
unfoldable pub second_rule : List Item → Chosen → String → Option Rule
second_rule items chosen id = second_rule_of items chosen id (chosen id)

abbrev pub apply_second : String → Option Rule → State → State
apply_second id none s = s
apply_second id (some rule) s = demote id rule no_related_decision s

abbrev pub fires : Option Rule → Bool
fires none = false
fires (some r) = true

-- One round of the fixpoint loop: the state, and `changed`.
unfoldable pub second_round : List Item → List String → State → State × Bool
second_round items [] s = (s, false)
second_round items (id ∷ ids) s =
    let fired = second_rule items s.chosen id in
    let (s', changed) = second_round items ids (apply_second id fired s) in
    (s', fires fired || changed)

-- `while changed`, with fuel; `none` is a loop that ran out of it.
unfoldable pub second_pass : ℕ → List Item → List String → State → Option State
second_pass zero items ids s = none
second_pass (suc fuel) items ids s =
    let (s', changed) = second_round items ids s in
    let rest = second_pass fuel items ids s' in if changed then rest else some s'
