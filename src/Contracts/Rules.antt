-- ===== src/Contracts/Rules.antt =====
-- The parent rule in its two forms, and the life of an analysis run.
use projectree.Base.{
  ℕ, ◌≡◌, ◌<◌, ◌↔◌, ◌⊎◌, inl, inr, refl, sym, ◌∙◌, true, Option, none, some, arith,
}
use projectree.Contracts.{
  NodeType, decision, action, issue, active, parent_rule_violation, is_allowed_parent_type,
  AnalysisRunStatus, running, completed, superseded, analysis_run_status_transition_allowed,
}

-- For an ACTIVE node the rule finds nothing wrong exactly where the parent's type, or its absence, is
-- allowed for the node's type.
pub parent_rule_violation_active :
    (child : NodeType) (parent : Option NodeType)
    → (parent_rule_violation child parent active ≡ none)
      ↔ (is_allowed_parent_type child parent ≡ true)
unfolding parent_rule_violation is_allowed_parent_type
parent_rule_violation_active decision none = ((λ h. refl), (λ h. refl))
parent_rule_violation_active decision (some p) = ((λ h. cc), (λ h. cc))
parent_rule_violation_active action none = ((λ h. cc), (λ h. cc))
parent_rule_violation_active action (some decision) = ((λ h. refl), (λ h. refl))
parent_rule_violation_active action (some action) = ((λ h. cc), (λ h. cc))
parent_rule_violation_active action (some issue) = ((λ h. cc), (λ h. cc))
parent_rule_violation_active issue none = ((λ h. cc), (λ h. cc))
parent_rule_violation_active issue (some decision) = ((λ h. refl), (λ h. refl))
parent_rule_violation_active issue (some action) = ((λ h. refl), (λ h. refl))
parent_rule_violation_active issue (some issue) = ((λ h. cc), (λ h. cc))

-- A run goes through allowed changes of its status.
pub data Runs (s : AnalysisRunStatus) : AnalysisRunStatus → Type 0 where
  stay : Runs s s
  change :
      {t u : AnalysisRunStatus}
      → Runs s t
      → analysis_run_status_transition_allowed t u ≡ true
      → Runs s u

abbrev stage : AnalysisRunStatus → ℕ
stage AnalysisRunStatus.pending = 0
stage running = 1
stage completed = 2
stage AnalysisRunStatus.failed = 3
stage superseded = 3

forward :
    (s t : AnalysisRunStatus)
    → analysis_run_status_transition_allowed s t ≡ true
    → (s ≡ t) ⊎ (stage s < stage t)
unfolding analysis_run_status_transition_allowed
forward AnalysisRunStatus.pending AnalysisRunStatus.pending h = inl refl
forward AnalysisRunStatus.pending running h = inr (omega arith)
forward AnalysisRunStatus.pending completed h = cc
forward AnalysisRunStatus.pending AnalysisRunStatus.failed h = inr (omega arith)
forward AnalysisRunStatus.pending superseded h = inr (omega arith)
forward running AnalysisRunStatus.pending h = cc
forward running running h = inl refl
forward running completed h = inr (omega arith)
forward running AnalysisRunStatus.failed h = inr (omega arith)
forward running superseded h = inr (omega arith)
forward completed AnalysisRunStatus.pending h = cc
forward completed running h = cc
forward completed completed h = inl refl
forward completed AnalysisRunStatus.failed h = cc
forward completed superseded h = inr (omega arith)
forward AnalysisRunStatus.failed AnalysisRunStatus.pending h = cc
forward AnalysisRunStatus.failed running h = cc
forward AnalysisRunStatus.failed completed h = cc
forward AnalysisRunStatus.failed AnalysisRunStatus.failed h = inl refl
forward AnalysisRunStatus.failed superseded h = cc
forward superseded AnalysisRunStatus.pending h = cc
forward superseded running h = cc
forward superseded completed h = cc
forward superseded AnalysisRunStatus.failed h = cc
forward superseded superseded h = inl refl

Runs-forward : (s t : AnalysisRunStatus) → Runs s t → (s ≡ t) ⊎ (stage s < stage t)
Runs-forward s t Runs.stay = inl refl
Runs-forward s t (Runs.change {t = u} runs e) = later (Runs-forward s u runs) (forward u t e)
  where
    later :
        {a b c : AnalysisRunStatus}
        → (a ≡ b) ⊎ (stage a < stage b)
        → (b ≡ c) ⊎ (stage b < stage c)
        → (a ≡ c) ⊎ (stage a < stage c)
    later (inl e) (inl f) = inl (e ∙ f)
    later (inl e) (inr g) = inr (rw e g)
    later (inr h) (inl f) = inr (rw (sym f) h)
    later (inr h) (inr g) = inr (omega arith)

-- A run never comes back to a status that it has left.
pub run_status_never_back : (s t : AnalysisRunStatus) → Runs s t → Runs t s → s ≡ t
run_status_never_back s t there back = elim (Runs-forward s t there) [
  | inl e ↦ e
  | inr h ↦ elim (Runs-forward t s back) [ inl e ↦ sym e | inr k ↦ absurd (omega arith) ]
]
