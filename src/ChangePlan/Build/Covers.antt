-- ===== src/ChangePlan/Build/Covers.antt =====
-- The loop over the items makes one command for each judged item.
use mathlib.Core.Option
use mathlib.Core.Path.{subst}
use projectree.Base.{
  ℕ, ◌≡◌, refl, ap, sym, ◌∙◌, Bool, true, false, Option, none, some, List, [], ◌∷◌, map, String,
  keep, inl, inr, Option-cases,
}
use projectree.Validation.Evidence.{TextTools, Segments}
use projectree.Validation.Fields.{Item, Judgment}
use projectree.ChangePlan.{Command}
use projectree.ChangePlan.Build.{judgment_of, item_command, item_commands}
use projectree.ChangePlan.Build.Ranked.{
  Made, OnSome, item_command-Made, item_commands_judged, item_commands_unjudged,
}

abbrev pub is_found : Option Judgment → Bool
is_found none = false
is_found (some j) = true

-- The items that have a judgment.
abbrev pub judged : List Judgment → List Item → List Item
judged judgments items = keep (λ it. is_found (judgment_of judgments it.id)) items

abbrev pub ids : List Command → List String
ids cs = map (λ c. c.item_id) cs

abbrev pub item_ids : List Item → List String
item_ids its = map (λ it. it.id) its

module _ (tools : TextTools) (segments : Segments) (values : List String)
    (versions : List (String × ℕ)) (items : List Item) (judgments : List Judgment) where
  joined :
      (it : Item) (rest : List Item) (j : Judgment) (o : Option Command)
      (later : Option (List Command))
      → OnSome (Made items it j) o
      → OnSome (λ cs. ids cs ≡ item_ids rest) later
      → OnSome
          (λ cs. ids cs ≡ item_ids (it ∷ rest))
          (Option.bind o (λ c. Option.map (λ cs. c ∷ cs) later))
  unfolding Option.bind
  joined it rest j none later h k = tt
  joined it rest j (some c) none h k = tt
  joined it rest j (some c) (some cs) h k =
      ap (λ id. id ∷ ids cs) h.same_id ∙ ap (λ rest. it.id ∷ rest) k

  judged_none :
      (it : Item) (rest : List Item)
      → judgment_of judgments it.id ≡ none
      → judged judgments (it ∷ rest) ≡ judged judgments rest
  judged_none it rest e = rw e refl

  judged_some :
      (it : Item) (rest : List Item) (j : Judgment)
      → judgment_of judgments it.id ≡ some j
      → judged judgments (it ∷ rest) ≡ it ∷ judged judgments rest
  judged_some it rest j e = rw e refl

  pub commands_cover :
      (some_items : List Item)
      → OnSome
          (λ cs. ids cs ≡ item_ids (judged judgments some_items))
          (item_commands tools segments values versions items judgments some_items)
  unfolding item_commands
  commands_cover [] = refl
  commands_cover (it ∷ rest) = elim (Option-cases (judgment_of judgments it.id)) [
    | inl e ↦
        subst2 (sym (judged_none it rest e))
          (sym (item_commands_unjudged tools segments values versions items judgments it rest e))
          (commands_cover rest)
    | inr (j, e) ↦
        subst2 (sym (judged_some it rest j e))
          (sym (item_commands_judged tools segments values versions items judgments it rest j e))
          (joined it (judged judgments rest) j
            (item_command tools segments values versions items it j j.result)
            (item_commands tools segments values versions items judgments rest)
            (item_command-Made tools segments values versions items it j j.result refl)
            (commands_cover rest))
  ]
    where
      subst2 :
          {its its' : List Item} {o o' : Option (List Command)}
          → its ≡ its'
          → o ≡ o'
          → OnSome (λ cs. ids cs ≡ item_ids its) o
          → OnSome (λ cs. ids cs ≡ item_ids its') o'
      subst2 {its} {its'} {o} {o'} e f h =
          subst (λ l. OnSome (λ cs. ids cs ≡ item_ids l) o') e
            (subst (OnSome (λ cs. ids cs ≡ item_ids its)) f h)
