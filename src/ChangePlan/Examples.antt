-- ===== src/ChangePlan/Examples.antt =====
-- The plan of one small meeting, and each theorem at an input that meets its hypotheses.
use mathlib.Core.Option
use mathlib.Core.List.{Perm}
use projectree.Base.{
  zero, suc, All, All-mem, true, str_eq, if◌then◌else◌, ◌≡◌, ◌<◌, refl, Option, none, some, List,
  [], ◌∷◌, String, map, ℕ, arith, Memᴰ,
}
use projectree.Contracts.{
  parent_rule_violation, NodeType, JudgmentResult, new_decision, attach, result_allowed_for_type,
  action, decision, active,
}
use projectree.Validation.Evidence.{TextTools, Segments, resolve_item_evidence}
use projectree.Validation.Fields.{Item, Judgment, field_violations}
use projectree.Validation.Rules.{kind_of, first_rule}
use projectree.Validation.Passes.{
  demote, first_pass, parent_rule, second_rule, second_round, second_pass,
}
use projectree.Validation.Judgments.{
  ValidationResult, validate_judgments, after_first_pass, sequential_order, choose, fill, SortKey,
}
use projectree.Validation.Judgments.Outcome.{Distinct}
use projectree.ChangePlan.{
  Command, command, create_decision, create_action, update_action, PlanOp, EvidenceRef,
}
use projectree.ChangePlan.Apply.{ordered_for_apply, emit_ready, pick}
use projectree.ChangePlan.Store.Written.{written, apply_change_plan-written}
use projectree.ChangePlan.Store.{
  Node, get_node, Applied, Applying, done, failed, nothing_yet, apply_change_plan, apply_each,
  apply_command, resolve_parent, find_duplicate_node,
}
use projectree.ChangePlan.Apply.Ordered.{ParentsFirst, is_parent}
use projectree.ChangePlan.Apply.Parents.{CreatedFirst, ordered_for_apply-CreatedFirst}
use projectree.ChangePlan.Build.{
  judgments_in, build_change_plan, item_commands, item_command, coerce_category, evidence_refs,
}
use projectree.ChangePlan.Build.Once.{count, build_change_plan_once}
use projectree.ChangePlan.Build.Validated.{validated_plan_ordered}

abbrev plain : TextTools
plain = record { strip = λ s. s; normalize_quote = λ s. s }

abbrev transcript : Segments
transcript =
    ("s1", record { text = "so Ana writes the new page"; start_ms = some 5 })
    ∷ ("s2", record { text = "we choose the blue layout now"; start_ms = some 9 })
    ∷ []

abbrev item : String → String → String → String → Item
item id type segment quote = record {
  id = id;
  type = type;
  title = some id;
  content = none;
  predicted_category = none;
  evidence = record { segment_id = some segment; quote = some quote } ∷ [];
}

-- The action is said before the decision that it belongs to.
abbrev meeting : List Item
meeting =
    item "a1" "ACTION" "s1" "Ana writes the new page"
    ∷ item "d1" "DECISION" "s2" "the blue layout"
    ∷ []

abbrev judge : String → JudgmentResult → Option String → Option String → Judgment
judge id result category target = record {
  item_id = id;
  result = some result;
  category = category;
  attach_to = target;
  reason = none;
  target_action_id = none;
  changes = [];
}

abbrev answer : List Judgment
answer = judge "a1" attach none (some "d1") ∷ judge "d1" new_decision (some "UI") none ∷ []

abbrev validated : ValidationResult
validated = record {
  judgments = map (λ j. some j) answer;
  demoted = [];
  filled = [];
  dropped = [];
  invalid_evidence = [];
  sequential_order = "a1" ∷ "d1" ∷ [];
  response_invalid = none;
}

answer-validated : validate_judgments plain transcript meeting [] [] answer ≡ some validated
unfolding validate_judgments after_first_pass first_pass first_rule demote choose fill second_pass
    second_round second_rule parent_rule sequential_order kind_of field_violations
    resolve_item_evidence result_allowed_for_type
answer-validated = refl

answer_ids : Distinct (map (λ j. j.item_id) answer)
answer_ids = ((refl, tt), (tt, tt))

abbrev created :
    PlanOp → NodeType → String → SortKey → String → Option String → EvidenceRef → Command
created op t id key category parent ev = record {
  op = op;
  item_id = id;
  sort_key = key;
  node_type = some t;
  category = some category;
  title = some id;
  content = some "";
  parent = some (record { new_parent_item_id = parent; existing_node_id = none });
  graph_state = active;
  evidence = ev ∷ [];
  target_action_id = none;
  changes = [];
  expected_version = none;
  reason = none;
}

abbrev ids : Option (List Command) → List String
ids none = []
ids (some cs) = map (λ c. c.item_id) cs

-- The plan has the commands in the order of the transcript.
abbrev two_commands : List Command
two_commands =
    created create_action action "a1" (record { start_ms = 5; segment_id = "s1"; item_id = "a1" })
      "ETC" (some "d1")
      (record {
        segment_id = "s1";
        quote = "Ana writes the new page";
        quote_start = some 3;
        quote_end = some 26;
      })
    ∷ created create_decision decision "d1"
        (record { start_ms = 9; segment_id = "s2"; item_id = "d1" }) "UI" none
        (record {
          segment_id = "s2";
          quote = "the blue layout";
          quote_start = some 10;
          quote_end = some 25;
        })
    ∷ []

answer_built :
    build_change_plan plain transcript
      ("UI" ∷ "ETC" ∷ [])
      []
      meeting
      (judgments_in validated.judgments)
    ≡ some two_commands
unfolding build_change_plan item_commands item_command coerce_category evidence_refs command
    resolve_item_evidence Option.bind
answer_built = refl

-- They are applied with the parent first.
applied_order : ids (ordered_for_apply two_commands) ≡ "d1" ∷ "a1" ∷ []
unfolding ordered_for_apply emit_ready pick
applied_order = refl

validated_plan_ordered_example :
    (out : List Command) × (ordered_for_apply two_commands ≡ some out)
    × Perm out two_commands
    × ParentsFirst two_commands [] out
validated_plan_ordered_example =
    validated_plan_ordered plain transcript ("UI" ∷ "ETC" ∷ []) [] meeting [] [] answer validated
      two_commands answer_ids answer-validated answer_built

abbrev depth : Command → ℕ
depth c = if str_eq c.item_id "a1" then 1 else 0

abbrev Deeper : Command → Type 0
Deeper c = All (λ p. is_parent p c ≡ true → depth p < depth c) two_commands

All-Deeper : All Deeper two_commands
All-Deeper = (((λ h. cc), ((λ h. omega arith), tt)), (((λ h. cc), ((λ h. cc), tt)), tt))

depth_of_parent :
    (c p : Command)
    → Memᴰ c two_commands
    → Memᴰ p two_commands
    → is_parent p c ≡ true
    → depth p < depth c
depth_of_parent c p m k q =
    All-mem (λ p. is_parent p c ≡ true → depth p < depth c) two_commands
      (All-mem Deeper two_commands All-Deeper m) k q

ordered_for_apply-CreatedFirst_example :
    (out : List Command) × (ordered_for_apply two_commands ≡ some out)
    × Perm out two_commands
    × CreatedFirst two_commands [] out
ordered_for_apply-CreatedFirst_example =
    ordered_for_apply-CreatedFirst two_commands ((refl, tt), (tt, tt)) depth depth_of_parent

build_change_plan_once_example : count (λ c. str_eq c.item_id "a1") two_commands ≡ 1
build_change_plan_once_example =
    build_change_plan_once plain transcript ("UI" ∷ "ETC" ∷ []) [] meeting
      (judgments_in validated.judgments) two_commands "a1" answer_built

-- The two nodes are created in that order, the action under the decision.
abbrev uuid : ℕ → String
uuid zero = "n0"
uuid (suc n) = "n1"

abbrev result_of : Applied → Applying
result_of (done q) = q
result_of (failed e) = nothing_yet plain [] uuid "p" "m" []

abbrev final : Applying
final = result_of (apply_change_plan plain ("UI" ∷ "ETC" ∷ []) uuid "p" "m" true two_commands [])

final_parents : map (λ n. n.parent_id) final.nodes ≡ none ∷ some "n0" ∷ []
unfolding apply_change_plan apply_each apply_command ordered_for_apply emit_ready pick
    resolve_parent find_duplicate_node parent_rule_violation
final_parents = refl

-- An action of an earlier meeting, and a plan that also moves its due date.
abbrev old_action : Node
old_action = record {
  id = "old";
  project_id = "p";
  source_meeting_id = "before";
  source_item_id = "a9";
  node_type = action;
  category = some "ETC";
  title = "Ana writes the texts";
  content = "";
  parent_id = none;
  graph_state = active;
  version = 4;
  due_date = some "2026-01-01";
  evidence = [];
}

abbrev postpone : Command
postpone = record {
  op = update_action;
  item_id = "u1";
  sort_key = record { start_ms = 1; segment_id = "s0"; item_id = "u1" };
  node_type = none;
  category = none;
  title = none;
  content = none;
  parent = none;
  graph_state = active;
  evidence = [];
  target_action_id = some "old";
  changes = ("dueDate", "2026-02-01") ∷ [];
  expected_version = some 4;
  reason = none;
}

abbrev postponing : Applying
postponing = result_of (
    apply_change_plan plain ("UI" ∷ "ETC" ∷ []) uuid "p" "m" true (postpone ∷ two_commands)
      (old_action ∷ []))

postponed :
    apply_change_plan plain
      ("UI" ∷ "ETC" ∷ [])
      uuid
      "p"
      "m"
      true
      (postpone ∷ two_commands)
      (old_action ∷ [])
    ≡ done postponing
unfolding apply_change_plan apply_each apply_command ordered_for_apply emit_ready pick
    resolve_parent find_duplicate_node parent_rule_violation
postponed = refl

postponed_versions : map (λ n. n.version) postponing.nodes ≡ 5 ∷ 1 ∷ 1 ∷ []
unfolding apply_change_plan apply_each apply_command ordered_for_apply emit_ready pick
    resolve_parent find_duplicate_node parent_rule_violation
postponed_versions = refl

apply_change_plan-written_example :
    (ordered : List Command) × (ordered_for_apply (postpone ∷ two_commands) ≡ some ordered)
    × (postponing.applied_order ≡ map (λ c. c.item_id) ordered)
    × ((id : String) (n : Node)
        → get_node id (old_action ∷ []) ≡ some n
        → get_node id postponing.nodes ≡ some (written id ordered n))
apply_change_plan-written_example =
    apply_change_plan-written plain ("UI" ∷ "ETC" ∷ []) uuid "p" "m" true (postpone ∷ two_commands)
      (old_action ∷ []) postponing postponed
