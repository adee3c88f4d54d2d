-- ===== src/Validation/Judgments/Owned.antt =====
-- A judgment kept for an item is a judgment of that item, through every step of the validation.
use mathlib.Core.Path.{subst}
use projectree.Base.{
  ◌≡◌, refl, sym, true, false, Bool, Option, none, some, List, [], ◌∷◌, ◌++◌, String, str_eq,
  str_eq_iff, arith, if◌then◌else◌, Option-cases, inl, inr,
}
use projectree.Contracts.{MinutesReason, no_related_decision}
use projectree.Validation.Fields.{Item, Judgment}
use projectree.Validation.Rules.{Context, Rule, minutes_judgment, member, is_item}
use projectree.Validation.Passes.{Chosen, State, put, demote, apply_rule, rule_at, first_pass}
use projectree.Validation.Judgments.{choose, fill}
use projectree.Validation.Judgments.FirstPass.{fill-none, fill-some}

abbrev pub is_of : String → Option Judgment → Bool
is_of id none = true
is_of id (some j) = str_eq j.item_id id

abbrev pub AllOwn : Chosen → Type 0
AllOwn chosen = (id : String) → is_of id (chosen id) ≡ true

put-AllOwn :
    (id : String) (j : Judgment) (chosen : Chosen)
    → j.item_id ≡ id
    → AllOwn chosen
    → AllOwn (put id j chosen)
put-AllOwn id j chosen e h k = ground (arith, h k, e, str_eq_iff id k, str_eq_iff j.item_id k)

pub demote-AllOwn :
    (id : String) (rule : Rule) (reason : MinutesReason) (s : State)
    → AllOwn s.chosen
    → AllOwn (demote id rule reason s).chosen
unfolding demote
demote-AllOwn id rule reason s h = put-AllOwn id (minutes_judgment id reason) s.chosen refl h

pub choose-AllOwn :
    (items : List Item) (raw : List Judgment) (chosen : Chosen)
    → AllOwn chosen
    → AllOwn (choose items raw chosen)
unfolding choose
choose-AllOwn items [] chosen h = h
choose-AllOwn items (j ∷ js) chosen h =
    choose-AllOwn items js (if is_item items j.item_id then put j.item_id j chosen else chosen)
      (either (is_item items j.item_id))
  where
    either : (b : Bool) → AllOwn (if b then put j.item_id j chosen else chosen)
    either true = put-AllOwn j.item_id j chosen refl h
    either false = h

pub fill-AllOwn :
    (c : Context) (ids : List String) (chosen : Chosen) (filled : List String)
    → AllOwn chosen
    → AllOwn (fill ids chosen filled).0
unfolding fill
fill-AllOwn c [] chosen filled h = h
fill-AllOwn c (id ∷ ids) chosen filled h = elim (Option-cases (chosen id)) [
  | inl e ↦
      subst (λ r. AllOwn r.0) (sym (fill-none c id ids chosen filled e))
        (fill-AllOwn c ids (put id (minutes_judgment id no_related_decision) chosen)
          (filled ++ id ∷ [])
          (put-AllOwn id (minutes_judgment id no_related_decision) chosen refl h))
  | inr (j, e) ↦
      subst (λ r. AllOwn r.0) (sym (fill-some c id ids chosen filled e))
        (fill-AllOwn c ids chosen filled h)
]

apply_rule-AllOwn :
    (c : Context) (id : String) (o : Option (Rule × MinutesReason)) (s : State)
    → AllOwn s.chosen
    → AllOwn (apply_rule id o s).chosen
apply_rule-AllOwn c id none s h = h
apply_rule-AllOwn c id (some (rule, reason)) s h = demote-AllOwn id rule reason s h

pub first_pass-AllOwn :
    (c : Context) (filled ids : List String) (s : State)
    → AllOwn s.chosen
    → AllOwn (first_pass c filled ids s).chosen
unfolding first_pass
first_pass-AllOwn c filled [] s h = h
first_pass-AllOwn c filled (id ∷ ids) s h =
    first_pass-AllOwn c filled ids
      (if member id filled then s else apply_rule id (rule_at c id (s.chosen id)) s)
      (either (member id filled))
  where
    either :
        (b : Bool) → AllOwn (if b then s else apply_rule id (rule_at c id (s.chosen id)) s).chosen
    either true = h
    either false = apply_rule-AllOwn c id (rule_at c id (s.chosen id)) s h
