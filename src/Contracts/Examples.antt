-- ===== src/Contracts/Examples.antt =====
-- The rules of the contracts at concrete inputs.
use projectree.Base.{◌≡◌, ◌↔◌, refl, true, none, some}
use projectree.Contracts.{
  issue, action, active, parent_rule_violation, is_allowed_parent_type, running,
  analysis_run_status_transition_allowed,
}
use projectree.Contracts.Rules.{Runs, parent_rule_violation_active, run_status_never_back}

parent_rule_violation_active_example :
    (parent_rule_violation issue (some action) active ≡ none)
    ↔ (is_allowed_parent_type issue (some action) ≡ true)
parent_rule_violation_active_example = parent_rule_violation_active issue (some action)

again : Runs running running
unfolding analysis_run_status_transition_allowed
again = Runs.change Runs.stay refl

run_status_never_back_example : running ≡ running
run_status_never_back_example = run_status_never_back running running again again
