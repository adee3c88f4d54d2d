-- ===== src/ChangePlan/Build/Validated.antt =====
-- From a response of the model to an order of application: validation, plan and order together.
use mathlib.Core.List.{Perm}
use mathlib.Core.Path.{subst}
use projectree.Base.{
  ℕ, ◌≡◌, refl, ap, sym, ◌∙◌, inl, inr, Bool, true, false, none, some, List, [], ◌∷◌, map, String,
  str_eq, str_eq_iff, arith, Option-cases, All, All-imp, ◌⊎◌, if◌then◌else◌,
}
use projectree.Validation.Evidence.{TextTools, Segments}
use projectree.Validation.Fields.{Item, Judgment}
use projectree.Validation.Passes.{Chosen}
use projectree.Validation.Judgments.{ValidationResult, validate_judgments, item_order, context}
use projectree.Validation.Judgments.Settled.{Settled}
use projectree.Validation.Judgments.Outcome.{Distinct, validate_judgments_settles}
use projectree.ChangePlan.{Command}
use projectree.ChangePlan.Apply.{ordered_for_apply}
use projectree.ChangePlan.Apply.Ordered.{ParentsFirst}
use projectree.ChangePlan.Build.{judgments_in, judgment_of, build_change_plan}
use projectree.ChangePlan.Build.Valid.{build_change_plan_ordered}

-- A judgment that is found stands first, or is found later.
found_in :
    (first : Judgment) (js : List Judgment) (id : String) (j : Judgment)
    → judgment_of (first ∷ js) id ≡ some j
    → (judgment_of js id ≡ some j) ⊎ ((first.item_id ≡ id) × (first ≡ j))
found_in first js id j h = elim (Option-cases (judgment_of js id)) [
  | inr (later, f) ↦ inl (f ∙ (rw (f, judgment_of) at h))
  | inl f ↦ inr (here (str_eq first.item_id id) refl (rw (f, judgment_of) at h))
]
  where
    here :
        (b : Bool)
        → str_eq first.item_id id ≡ b
        → (if b then some first else none) ≡ some j
        → (first.item_id ≡ id) × (first ≡ j)
    here true e g = ((str_eq_iff first.item_id id).0 e, ground arith)
    here false e g = cc

judgments_in-none :
    (chosen : Chosen) (k : String) (ids : List String)
    → chosen k ≡ none
    → judgments_in (map chosen (k ∷ ids)) ≡ judgments_in (map chosen ids)
judgments_in-none chosen k ids e = rw (e, judgments_in) refl

judgments_in-some :
    (chosen : Chosen) (k : String) (ids : List String) (first : Judgment)
    → chosen k ≡ some first
    → judgments_in (map chosen (k ∷ ids)) ≡ first ∷ judgments_in (map chosen ids)
judgments_in-some chosen k ids first e = rw (e, judgments_in) refl

-- The judgment found for an id is the one chosen for it.
judgment_of_chosen :
    (chosen : Chosen) (ids : List String)
    → All (λ k. (j : Judgment) → chosen k ≡ some j → j.item_id ≡ k) ids
    → (id : String) (j : Judgment) → judgment_of (judgments_in (map chosen ids)) id ≡ some j
    → chosen id ≡ some j
judgment_of_chosen chosen [] own id j h = cc
judgment_of_chosen chosen (k ∷ ids) own id j h = elim (Option-cases (chosen k)) [
  | inl e ↦
      judgment_of_chosen chosen ids own.1 id j
        (subst (λ js. judgment_of js id ≡ some j) (judgments_in-none chosen k ids e) h)
  | inr (first, e) ↦
      elim (found_in first (judgments_in (map chosen ids)) id j
        (subst (λ js. judgment_of js id ≡ some j) (judgments_in-some chosen k ids first e) h)) [
          | inl later ↦ judgment_of_chosen chosen ids own.1 id j later
          | inr (named, same) ↦ ap chosen (sym named ∙ own.0 first e) ∙ (e ∙ ap some same)
        ]
]

module _ (tools : TextTools) (segments : Segments) (values : List String)
    (versions : List (String × ℕ)) (items : List Item) (decision_ids action_ids : List String)
    (raw : List Judgment) where
  -- The plan that is built from the validation of a response which judges no item twice has no cycle:
  -- its commands are put in order, each once, and each after the parents that the plan creates for it.
  pub validated_plan_ordered :
      (result : ValidationResult) (commands : List Command)
      → Distinct (map (λ j. j.item_id) raw)
      → validate_judgments tools segments items decision_ids action_ids raw ≡ some result
      → build_change_plan tools segments values versions items (judgments_in result.judgments)
        ≡ some commands
      → (out : List Command) × (ordered_for_apply commands ≡ some out)
        × Perm out commands
        × ParentsFirst commands [] out
  validated_plan_ordered result commands d validates builds =
      let c = context tools segments items decision_ids action_ids in
      let (r, chosen, ends, listed, open_, settles) =
        validate_judgments_settles tools segments items decision_ids action_ids raw d in
      let judged : result.judgments ≡ map chosen (item_order items) =
        ap (λ r. r.judgments) (same_result (sym validates ∙ ends)) ∙ listed in
      build_change_plan_ordered tools segments values versions c chosen
        (judgments_in (map chosen (item_order items))) commands settles
        (judgment_of_chosen chosen (item_order items) (
          All-imp (Settled c chosen) (λ k. (j : Judgment) → chosen k ≡ some j → j.item_id ≡ k)
            (λ k s j e. ap (λ j. j.item_id) (same_judgment (sym e ∙ s.is_chosen)) ∙ s.of_item)
            (item_order items) settles))
        (subst
          (λ js.
            build_change_plan tools segments values versions items (judgments_in js)
            ≡ some commands)
          judged builds)
    where
      same_result : {a b : ValidationResult} → some a ≡ some b → a ≡ b
      same_result e = ground arith

      same_judgment : {a b : Judgment} → some a ≡ some b → a ≡ b
      same_judgment e = ground arith
