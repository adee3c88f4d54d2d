-- ===== src/Validation/Fields.antt =====
-- Items and judgments, and which fields a judgment of each result carries
-- (`field_violations` of data-pipeline/data_pipeline/validation/judgments.py). A dict of the source is
-- a record here, whose texts are as `str(...)` reads them; a judgment's `result` is read into its value
-- set, `none` for any other text, and absent `changes` are an empty dict.
use projectree.Base.{
  Bool, true, false, not, ◌&&◌, Option, none, some, List, [], ◌∷◌, ◌++◌, String, all,
}
use projectree.Base.Text.{truthy}
use projectree.Contracts.{
  JudgmentResult, new_decision, attach, update_action, minutes_only, changes_key_allowed,
}
use projectree.Validation.Evidence.{Evidence, is_nil}

-- `type` is upper-cased already.
pub record Item : Type 0 where
  pub id : String
  pub type : String
  pub title : Option String
  pub content : Option String
  pub predicted_category : Option String
  pub evidence : List Evidence

pub record Judgment : Type 0 where
  pub item_id : String
  pub result : Option JudgmentResult
  pub category : Option String
  pub attach_to : Option String
  pub reason : Option String
  pub target_action_id : Option String
  pub changes : List (String × String)

pub data Violation : Type 0 where
  unexpected_target unexpected_changes category_required unexpected_attach_to : Violation
  unexpected_reason attach_to_required unexpected_category target_required : Violation
  changes_required disallowed_changes reason_required unknown_result : Violation

abbrev pub is_update : Option JudgmentResult → Bool
is_update (some update_action) = true
is_update _ = false

abbrev pub is_attach : Option JudgmentResult → Bool
is_attach (some attach) = true
is_attach _ = false

abbrev pub is_minutes_only : Option JudgmentResult → Bool
is_minutes_only (some minutes_only) = true
is_minutes_only _ = false

abbrev pub is_new_decision : Option JudgmentResult → Bool
is_new_decision (some new_decision) = true
is_new_decision _ = false

abbrev pub flag : Bool → Violation → List Violation
flag true v = v ∷ []
flag false v = []

abbrev pub changes_violations : List (String × String) → List Violation
changes_violations [] = changes_required ∷ []
changes_violations (c ∷ cs) =
    flag (not (all (λ kv. changes_key_allowed kv.0) (c ∷ cs))) disallowed_changes

-- The branch of `field_violations` for one result.
abbrev pub result_violations : Option JudgmentResult → Judgment → List Violation
result_violations (some new_decision) j =
    flag (not (truthy j.category)) category_required
    ++ (flag (truthy j.attach_to) unexpected_attach_to ++ flag (truthy j.reason) unexpected_reason)
result_violations (some attach) j =
    flag (not (truthy j.attach_to)) attach_to_required
    ++ (flag (truthy j.category) unexpected_category ++ flag (truthy j.reason) unexpected_reason)
result_violations (some update_action) j =
    flag (not (truthy j.target_action_id)) target_required
    ++ (changes_violations j.changes
        ++ (flag (truthy j.category) unexpected_category
            ++ (flag (truthy j.attach_to) unexpected_attach_to
                ++ flag (truthy j.reason) unexpected_reason)))
result_violations (some _) j =
    flag (not (truthy j.reason)) reason_required
    ++ (flag (truthy j.category) unexpected_category
        ++ flag (truthy j.attach_to) unexpected_attach_to)
result_violations none j = unknown_result ∷ []

unfoldable pub field_violations : Judgment → List Violation
field_violations j =
    flag (not (is_update j.result) && truthy j.target_action_id) unexpected_target
    ++ (flag (not (is_update j.result) && not (is_nil j.changes)) unexpected_changes
        ++ result_violations j.result j)
