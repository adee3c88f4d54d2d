-- ===== src/Validation/Judgments/Clean.antt =====
-- What a judgment has that the first pass leaves alone, result by result.
use projectree.Base.{
  ◌≡◌, ◌≢◌, refl, true, false, Bool, not, ◌&&◌, Option, none, some, List, [], ◌∷◌, ◌++◌, all,
  String, arith, All, inl, inr, ◌⊎◌,
}
use projectree.Base.Text.{truthy}
use projectree.Contracts.{
  NodeType, JudgmentResult, decision, action, issue, new_decision, attach, update_action,
  minutes_only, is_decision, is_action, changes_key_allowed, result_allowed_for_type,
}
use projectree.Validation.Fields.{
  Judgment, is_minutes_only, is_new_decision, is_attach, field_violations, changes_violations,
  result_violations, flag, is_update, unexpected_changes, unexpected_target,
}
use projectree.Validation.Rules.{Context, is_type, item_type, first_rule, reference_rule}
use projectree.Validation.Passes.{Chosen}
use projectree.Validation.Evidence.{is_nil}

module _ (c : Context) (chosen : Chosen) (id : String) (j : Judgment) where
  -- What a judgment has that the first pass leaves alone.
  pub record Clean : Type 0 where
    pub allowed : result_allowed_for_type j.result (item_type c.items id) ≡ true
    pub shaped : field_violations j ≡ []
    pub supported : c.valid id ≡ true
    pub referring : reference_rule c id j.result j ≡ none

  pub clean : is_minutes_only j.result ≡ false → first_rule c id j ≡ none → Clean
  unfolding first_rule
  clean m h = record {
    allowed = ground arith;
    shaped = nil_of (field_violations j) (ground arith);
    supported = ground arith;
    referring = ground arith;
  }
    where
      nil_of : {A : Type 0} (xs : List A) → is_nil xs ≡ true → xs ≡ []
      nil_of [] h = refl
      nil_of (x ∷ xs) h = cc

-- The types a result allows.
pub only_decision :
    (k : Option NodeType) → result_allowed_for_type (some new_decision) k ≡ true → k ≡ some decision
unfolding result_allowed_for_type
only_decision (some decision) h = refl
only_decision (some action) h = cc
only_decision (some issue) h = cc
only_decision none h = cc

pub only_action :
    (k : Option NodeType) → result_allowed_for_type (some update_action) k ≡ true → k ≡ some action
unfolding result_allowed_for_type
only_action (some decision) h = cc
only_action (some action) h = refl
only_action (some issue) h = cc
only_action none h = cc

pub child_type :
    (k : Option NodeType)
    → result_allowed_for_type (some attach) k ≡ true
    → (k ≡ some action) ⊎ (k ≡ some issue)
unfolding result_allowed_for_type
child_type (some decision) h = cc
child_type (some action) h = inl refl
child_type (some issue) h = inr refl
child_type none h = cc

pub some_type :
    (r : Option JudgmentResult) (k : Option NodeType)
    → result_allowed_for_type r k ≡ true
    → (t : NodeType) × (k ≡ some t)
unfolding result_allowed_for_type
some_type r (some t) h = (t, refl)
some_type (some r) none h = ground arith
some_type none none h = cc

pub type_at : {k : Option NodeType} {t u : NodeType} → k ≡ some t → k ≡ some u → u ≡ t
type_at e f = ground arith

not_decision : {t : NodeType} → is_decision t ≡ false → t ≢ decision
not_decision h e = ground arith

pub as_decision : (k : Option NodeType) → is_type is_decision k ≡ true → k ≡ some decision
as_decision (some decision) h = refl
as_decision (some action) h = cc
as_decision (some issue) h = cc
as_decision none h = cc

pub as_action : (k : Option NodeType) → is_type is_action k ≡ true → k ≡ some action
as_action (some decision) h = cc
as_action (some action) h = refl
as_action (some issue) h = cc
as_action none h = cc

pub as_new : (r : Option JudgmentResult) → is_new_decision r ≡ true → r ≡ some new_decision
as_new (some new_decision) h = refl
as_new (some attach) h = cc
as_new (some update_action) h = cc
as_new (some JudgmentResult.unattached) h = cc
as_new (some minutes_only) h = cc
as_new none h = cc

pub as_attach : (r : Option JudgmentResult) → is_attach r ≡ true → r ≡ some attach
as_attach (some attach) h = refl
as_attach (some new_decision) h = cc
as_attach (some update_action) h = cc
as_attach (some JudgmentResult.unattached) h = cc
as_attach (some minutes_only) h = cc
as_attach none h = cc

pub none_refused : (k : Option NodeType) → result_allowed_for_type none k ≡ false
unfolding result_allowed_for_type
none_refused none = refl
none_refused (some decision) = refl
none_refused (some action) = refl
none_refused (some issue) = refl

nil_parts : {A : Type 0} (xs ys : List A) → xs ++ ys ≡ [] → (xs ≡ []) × (ys ≡ [])
nil_parts [] ys h = (refl, h)
nil_parts (x ∷ xs) ys h = cc

all_of : {A : Type 0} (p : A → Bool) (xs : List A) → all p xs ≡ true → All (λ a. p a ≡ true) xs
all_of p [] h = tt
all_of p (x ∷ xs) h = (ground arith, all_of p xs (ground arith))

changes_shaped :
    (cs : List (String × String))
    → changes_violations cs ≡ []
    → (cs ≢ []) × All (λ kv. changes_key_allowed kv.0 ≡ true) cs
changes_shaped [] h = cc
changes_shaped (kv ∷ cs) h =
    (λ e. cc, all_of (λ kv. changes_key_allowed kv.0) (kv ∷ cs) (ground arith))

pub update_shaped :
    (j : Judgment)
    → field_violations j ≡ []
    → j.result ≡ some update_action
    → (j.changes ≢ []) × All (λ kv. changes_key_allowed kv.0 ≡ true) j.changes
unfolding field_violations
update_shaped j h r =
    let own =
      (nil_parts (flag (not (is_update j.result) && not (is_nil j.changes)) unexpected_changes)
        (result_violations j.result j)
        (nil_parts (flag (not (is_update j.result) && truthy j.target_action_id) unexpected_target)
          _ h).1).1 in
    changes_shaped j.changes
      (nil_parts (changes_violations j.changes) _ (nil_parts _ _ (rw r at own)).1).0
