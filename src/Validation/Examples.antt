-- ===== src/Validation/Examples.antt =====
-- The validation of one small meeting, and each theorem at an input that meets its hypotheses.
use mathlib.Core.Option
use projectree.Base.{
  arith, ◌++◌, Memᴰ, Option, ◌≡◌, ◌↔◌, refl, true, false, none, some, List, [], ◌∷◌, String, length,
  All, map,
}
use projectree.Contracts.{
  result_allowed_for_type, JudgmentResult, new_decision, attach, minutes_only, low_confidence,
}
use projectree.Validation.Evidence.{
  TextTools, Segments, Evidence, ResolvedEvidence, exact, found, check_evidence,
  resolve_item_evidence, is_nil, match_offsets,
}
use projectree.Validation.Evidence.Sound.{
  Supports, PointsAt, resolve_item_evidence_valid, check_evidence_offsets,
}
use projectree.Validation.Fields.{Item, Judgment, is_minutes_only, field_violations}
use projectree.Validation.Rules.{minutes_judgment, kind_of, first_rule}
use projectree.Validation.Passes.{
  Chosen, result_at, demote, first_pass, second_rule, parent_rule, second_round, second_pass,
}
use projectree.Validation.Judgments.{
  ValidationResult, validate_judgments, item_order, context, sequential_order, choose, fill,
  after_first_pass,
}
use projectree.Validation.Judgments.Settled.{Settled}
use projectree.Validation.Judgments.Outcome.{
  Distinct, validate_judgments_settles, validate_judgments_total, duplicates_void,
}
use projectree.Validation.Judgments.Anchors.{
  Grounded, Evidenced, validate_judgments-Grounded, validate_judgments-Evidenced,
}

-- Texts that need no normal form.
abbrev plain : TextTools
plain = record { strip = λ s. s; normalize_quote = λ s. s }

abbrev transcript : Segments
transcript =
    ("s1", record { text = "we choose the blue layout now"; start_ms = some 5 })
    ∷ ("s2", record { text = "so Ana writes the new page"; start_ms = some 9 })
    ∷ []

abbrev quoting : String → String → Evidence
quoting id quote = record { segment_id = some id; quote = some quote }

abbrev item : String → String → List Evidence → Item
item id type evidence = record {
  id = id;
  type = type;
  title = some id;
  content = none;
  predicted_category = none;
  evidence = evidence;
}

-- A decision, an action, an issue, an action that nobody said, and an issue that the model forgot.
abbrev meeting : List Item
meeting =
    item "d1" "DECISION" (quoting "s1" "the blue layout" ∷ [])
    ∷ item "a1" "ACTION" (quoting "s2" "Ana writes the new page" ∷ [])
    ∷ item "i1" "ISSUE" (quoting "s2" "the new page" ∷ [])
    ∷ item "a2" "ACTION" (quoting "s2" "Bob writes it" ∷ [])
    ∷ item "i2" "ISSUE" (quoting "s1" "the blue layout" ∷ [])
    ∷ []

abbrev judge : String → Judgment
judge id = minutes_judgment id low_confidence

abbrev attaching : String → String → Judgment
attaching id target = record {
  item_id = id;
  result = some attach;
  category = none;
  attach_to = some target;
  reason = none;
  target_action_id = none;
  changes = [];
}

abbrev answer : List Judgment
answer =
    record {
      item_id = "d1";
      result = some new_decision;
      category = some "UI";
      attach_to = none;
      reason = none;
      target_action_id = none;
      changes = [];
    }
    ∷ attaching "a1" "d1"
    ∷ attaching "i1" "a2"
    ∷ attaching "a2" "d1"
    ∷ attaching "x" "d1"
    ∷ []

abbrev results : Option ValidationResult → List (Option (Option JudgmentResult))
results none = []
results (some r) = map (λ j. Option.map (λ k. k.result) j) r.judgments

-- The unsupported action goes to the minutes, and the issue under it follows.
validated_meeting :
    results (validate_judgments plain transcript meeting [] [] answer)
    ≡ some (some new_decision)
      ∷ some (some attach)
      ∷ some (some minutes_only)
      ∷ some (some minutes_only)
      ∷ some (some minutes_only)
      ∷ []
unfolding validate_judgments after_first_pass first_pass first_rule demote choose fill second_pass
    second_round second_rule parent_rule sequential_order kind_of field_violations
    resolve_item_evidence result_allowed_for_type
validated_meeting = refl

-- The answer judges an item twice.
abbrev repeated : List Judgment
repeated = judge "d1" ∷ judge "a1" ∷ judge "d1" ∷ []

answer-Distinct : Distinct (map (λ j. j.item_id) answer)
answer-Distinct = (
  (refl, (refl, (refl, (refl, tt)))),
  ((refl, (refl, (refl, tt))), ((refl, (refl, tt)), ((refl, tt), (tt, tt)))),
)

repeated_ids : Distinct (map (λ j. j.item_id) repeated) → ⊥
repeated_ids d = ground arith

resolve_item_evidence_valid_example :
    ((resolve_item_evidence plain transcript (quoting "s2" "the new page" ∷ [])).valid ≡ true) ↔ (
      (is_nil (quoting "s2" "the new page" ∷ []) ≡ false)
      × All (Supports plain transcript) (quoting "s2" "the new page" ∷ []))
resolve_item_evidence_valid_example =
    resolve_item_evidence_valid plain transcript (quoting "s2" "the new page" ∷ [])

abbrev page : ResolvedEvidence
page = record {
  segment_id = "s2";
  start_ms = some 9;
  char_start = some 14;
  char_end = some 26;
  how = exact;
}

page_found : check_evidence plain transcript (quoting "s2" "the new page") ≡ found page
unfolding check_evidence match_offsets
page_found = refl

check_evidence_offsets_example : PointsAt plain transcript (quoting "s2" "the new page") page
check_evidence_offsets_example =
    check_evidence_offsets plain transcript (quoting "s2" "the new page") page page_found

validate_judgments_settles_example :
    (result : ValidationResult) × (chosen : Chosen) × (validate_judgments plain transcript meeting
        [] [] answer
      ≡ some result)
    × (result.judgments ≡ map chosen (item_order meeting))
    × (result.response_invalid ≡ none)
    × All (Settled (context plain transcript meeting [] []) chosen) (item_order meeting)
validate_judgments_settles_example =
    validate_judgments_settles plain transcript meeting [] [] answer answer-Distinct

validate_judgments_total_example :
    (result : ValidationResult) × (validate_judgments plain transcript meeting [] [] repeated
      ≡ some result)
    × (length result.judgments ≡ length meeting)
validate_judgments_total_example = validate_judgments_total plain transcript meeting [] [] repeated

duplicates_void_example :
    (result : ValidationResult) × (id : String) × (validate_judgments plain transcript meeting [] []
        repeated
      ≡ some result)
    × (result.response_invalid ≡ some id)
    × ((before : List String) × (after : List String) × (map (λ j. j.item_id) repeated
          ≡ before ++ id ∷ after)
        × Memᴰ id before
        × Distinct before)
    × (result.judgments ≡ map (λ k. some (minutes_judgment k low_confidence)) (item_order meeting))
duplicates_void_example = duplicates_void plain transcript meeting [] [] repeated repeated_ids

validate_judgments-Grounded_example :
    (result : ValidationResult) × (chosen : Chosen) × (validate_judgments plain transcript meeting
        [] [] answer
      ≡ some result)
    × (result.judgments ≡ map chosen (item_order meeting))
    × All
        (λ id.
          result_at chosen id ≡ some attach
          → Grounded (context plain transcript meeting [] []) chosen id)
        (item_order meeting)
validate_judgments-Grounded_example =
    validate_judgments-Grounded plain transcript meeting [] [] answer answer-Distinct

validate_judgments-Evidenced_example :
    (result : ValidationResult) × (chosen : Chosen) × (validate_judgments plain transcript meeting
        [] [] answer
      ≡ some result)
    × (result.judgments ≡ map chosen (item_order meeting))
    × All
        (λ id.
          is_minutes_only (result_at chosen id) ≡ false → Evidenced plain transcript meeting id)
        (item_order meeting)
validate_judgments-Evidenced_example =
    validate_judgments-Evidenced plain transcript meeting [] [] answer answer-Distinct
