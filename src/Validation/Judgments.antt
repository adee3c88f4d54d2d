-- ===== src/Validation/Judgments.antt =====
-- Server-side validation of the model's judgments
-- (`validate_judgments` of data-pipeline/data_pipeline/validation/judgments.py).
pub mod Fixpoint
pub mod FirstPass
pub mod Owned
pub mod Settled
pub mod Clean
pub mod Sound
pub mod Outcome
pub mod Anchors
use projectree.Base.{
  ℕ, zero, suc, Bool, true, false, not, ◌&&◌, ◌||◌, Option, none, some, List, [], ◌∷◌, ◌++◌, map,
  String, length, any, all, ltb, ◌==◌, str_eq, if◌then◌else◌,
}
use projectree.Base.Sorting.{sort_by}
use projectree.Base.Text.{text_leb, truthy, text_of}
use projectree.Contracts.{
  NodeType, JudgmentResult, MinutesReason, new_decision, attach, update_action, minutes_only,
  no_related_decision, low_confidence, not_confirmed, node_type_of_text, is_decision, is_action,
  is_issue, changes_key_allowed, result_allowed_for_type, decision, action, issue,
}
use projectree.Validation.Evidence.{
  TextTools, Segments, Evidence, EvidenceResolution, Problem, resolve_item_evidence, start_or_last,
  or_empty, is_nil,
}
use projectree.Validation.Fields.{Item, Judgment}
use projectree.Validation.Rules.{
  is_item, member, Context, Rule, Demotion, minutes_judgment, duplicate_item_id,
}
use projectree.Validation.Passes.{Chosen, put, State, first_pass, second_pass}

-- key=(start, segment, item id)
pub record SortKey : Type 0 where
  pub start_ms : ℕ
  pub segment_id : String
  pub item_id : String

-- Comparison of the keys as tuples.
abbrev pub key_leb : SortKey → SortKey → Bool
key_leb a b =
    ltb a.start_ms b.start_ms
    || (a.start_ms == b.start_ms
        && (not (text_leb b.segment_id a.segment_id)
            || (str_eq a.segment_id b.segment_id && text_leb a.item_id b.item_id)))

abbrev pub key_of : String → EvidenceResolution → SortKey
key_of id r = record {
  start_ms = start_or_last r.earliest_start_ms;
  segment_id = or_empty r.earliest_segment_id;
  item_id = id;
}

-- The order of `_sequential_order`.
unfoldable pub sequential_order : TextTools → Segments → List Item → List String
sequential_order tools segments items =
    map (λ k. k.item_id)
      (sort_by key_leb
        (map (λ it. key_of it.id (resolve_item_evidence tools segments it.evidence)) items))

-- `resolutions.get(id, {}).get("valid")`: of several items with one id the last is kept.
abbrev pub is_valid_evidence : TextTools → Segments → List Item → String → Option Bool
is_valid_evidence tools segments [] id = none
is_valid_evidence tools segments (it ∷ items) id =
    elim (is_valid_evidence tools segments items id) [
      | some v ↦ some v
      | none ↦
          if str_eq it.id id
          then some (resolve_item_evidence tools segments it.evidence).valid
          else none
    ]

abbrev pub holds_true : Option Bool → Bool
holds_true none = false
holds_true (some b) = b

-- The first item id that a judgment repeats.
abbrev pub find_duplicate : List String → List String → Option String
find_duplicate seen [] = none
find_duplicate seen (id ∷ ids) =
    let rest = find_duplicate (id ∷ seen) ids in if member id seen then some id else rest

-- The judgments of known items, the last one of an item being kept; the ids of the others.
unfoldable pub choose : List Item → List Judgment → Chosen → Chosen
choose items [] chosen = chosen
choose items (j ∷ js) chosen =
    choose items js (if is_item items j.item_id then put j.item_id j chosen else chosen)

abbrev pub dropped_ids : List Item → List Judgment → List String
dropped_ids items [] = []
dropped_ids items (j ∷ js) =
    let rest = dropped_ids items js in if is_item items j.item_id then rest else j.item_id ∷ rest

-- Coverage: an item without a judgment is recorded in the minutes.
unfoldable pub fill : List String → Chosen → List String → Chosen × List String
fill [] chosen filled = (chosen, filled)
fill (id ∷ ids) chosen filled = elim (chosen id) [
  | none ↦ fill ids (put id (minutes_judgment id no_related_decision) chosen) (filled ++ id ∷ [])
  | some j ↦ fill ids chosen filled
]

pub record ValidationResult : Type 0 where
  pub judgments : List (Option Judgment)
  pub demoted : List Demotion
  pub filled : List String
  pub dropped : List String
  pub invalid_evidence : List String
  pub sequential_order : List String
  pub response_invalid : Option String

abbrev invalid_ids : (String → Bool) → List String → List String
invalid_ids valid [] = []
invalid_ids valid (id ∷ ids) =
    let rest = invalid_ids valid ids in if valid id then rest else id ∷ rest

-- Rule 1: a response that judges an item twice is void.
abbrev pub void_response : List String → List String → String → ValidationResult
void_response order seq_order duplicate = record {
  judgments = map (λ id. some (minutes_judgment id low_confidence)) order;
  demoted = map (λ id. record { item_id = id; was = none; rule = duplicate_item_id }) order;
  filled = [];
  dropped = [];
  invalid_evidence = [];
  sequential_order = seq_order;
  response_invalid = some duplicate;
}

abbrev pub context : TextTools → Segments → List Item → List String → List String → Context
context tools segments items decision_ids action_ids = record {
  items = items;
  decision_candidate_ids = decision_ids;
  action_candidate_ids = action_ids;
  valid = λ id. holds_true (is_valid_evidence tools segments items id);
}

abbrev pub item_order : List Item → List String
item_order = map (λ it. it.id)

-- The state before the second pass.
unfoldable pub after_first_pass :
    TextTools → Segments → List Item → List String → List String → List Judgment → State
after_first_pass tools segments items decision_ids action_ids raw =
    let (chosen, filled) = fill (item_order items) (choose items raw (λ _. none)) [] in
    first_pass (context tools segments items decision_ids action_ids) filled
      (sequential_order tools segments items) (record { chosen = chosen; demoted = [] })

abbrev pub conclude :
    TextTools
    → Segments
    → List Item
    → List String
    → List String
    → List Judgment
    → Option State
    → Option ValidationResult
conclude tools segments items decision_ids action_ids raw none = none
conclude tools segments items decision_ids action_ids raw (some s) = some (record {
  judgments = map s.chosen (item_order items);
  demoted = s.demoted;
  filled = (fill (item_order items) (choose items raw (λ _. none)) []).1;
  dropped = dropped_ids items raw;
  invalid_evidence =
      invalid_ids (λ id. holds_true (is_valid_evidence tools segments items id)) (item_order items);
  sequential_order = sequential_order tools segments items;
  response_invalid = none;
})

-- `validate_judgments`; `none` would be a fixpoint loop without end.
unfoldable pub validate_judgments :
    TextTools
    → Segments
    → List Item
    → List String
    → List String
    → List Judgment
    → Option ValidationResult
unfolding after_first_pass
validate_judgments tools segments items decision_ids action_ids raw =
    elim (find_duplicate [] (map (λ j. j.item_id) raw)) [
      | some duplicate ↦
          some (void_response (item_order items) (sequential_order tools segments items) duplicate)
      | none ↦ conclude tools segments items decision_ids action_ids raw (
          second_pass (suc (length items)) items (item_order items)
            (after_first_pass tools segments items decision_ids action_ids raw))
    ]
