-- ===== src/ChangePlan/Build/Once.antt =====
-- How many commands a plan has for an item
-- (data-pipeline/data_pipeline/validation/plan.py).

use mathlib.Core.Path.{subst}
use projectree.Base.{
  ℕ, suc, ◌≡◌, refl, ap, sym, ◌∙◌, Bool, true, false, not, ◌&&◌, ◌||◌, Option, none, some, List, [],
  ◌∷◌, map, String, any, find, keep, inl, inr, Option-cases, Bool-cases, if◌then◌else◌, str_eq,
  str_eq_iff, arith, any_of_find-none,
}
use projectree.Base.Sorting.{insert_by, sort_by}
use projectree.Validation.Evidence.{TextTools, Segments}
use projectree.Validation.Fields.{Item, Judgment}
use projectree.Validation.Judgments.{key_leb}
use projectree.ChangePlan.{Command}
use projectree.ChangePlan.Build.{
  items_by_id, put_first, judgment_of, item_commands, build_change_plan,
}
use projectree.ChangePlan.Build.Ranked.{on_map, of_some}
use projectree.ChangePlan.Build.Covers.{judged, is_found, ids, item_ids, commands_cover}

-- How many elements pass the test.
abbrev pub count {ℓ} : {A : Type ℓ} → (A → Bool) → List A → ℕ
count p [] = 0
count p (x ∷ xs) = let rest = count p xs in if p x then suc rest else rest

swapped :
    (a b : Bool) (n : ℕ)
    → (if b then suc (if a then suc n else n) else (if a then suc n else n))
      ≡ (if a then suc (if b then suc n else n) else (if b then suc n else n))
swapped true true n = refl
swapped true false n = refl
swapped false true n = refl
swapped false false n = refl

module _ {ℓ} {A : Type ℓ} (p : A → Bool) where
  count-insert_by :
      (le : A → A → Bool) (x : A) (xs : List A) → count p (insert_by le x xs) ≡ count p (x ∷ xs)
  count-insert_by le x [] = refl
  count-insert_by le x (y ∷ ys) = elim (Bool-cases (le x y)) [
    | inl e ↦ rw e refl
    | inr e ↦ rw e (
        ap (λ n. if p y then suc n else n) (count-insert_by le x ys)
        ∙ swapped (p x) (p y) (count p ys))
  ]

  count-sort_by : (le : A → A → Bool) (xs : List A) → count p (sort_by le xs) ≡ count p xs
  count-sort_by le [] = refl
  count-sort_by le (x ∷ xs) =
      count-insert_by le x (sort_by le xs)
      ∙ ap (λ n. if p x then suc n else n) (count-sort_by le xs)

  count_none : (xs : List A) → any p xs ≡ false → count p xs ≡ 0
  count_none [] h = refl
  count_none (x ∷ xs) h = elim (Bool-cases (p x)) [
    | inl e ↦ ground (arith, h, e)
    | inr e ↦ rw e (count_none xs (ground (arith, h, e)))
  ]

count-map :
    {A B : Type 0} (f : A → B) (p : B → Bool) (xs : List A)
    → count p (map f xs) ≡ count (λ a. p (f a)) xs
count-map f p [] = refl
count-map f p (x ∷ xs) = ap (λ n. if p (f x) then suc n else n) (count-map f p xs)

found_or : (b : Bool) (j : Judgment) → is_found (if b then some j else none) ≡ b
found_or true j = refl
found_or false j = refl

judged_id :
    (js : List Judgment) (id : String)
    → is_found (judgment_of js id) ≡ any (λ j. str_eq j.item_id id) js
judged_id [] id = refl
judged_id (j ∷ js) id = elim (Option-cases (judgment_of js id)) [
  | inl e ↦
      let absent : any (λ j. str_eq j.item_id id) js ≡ false =
        sym (judged_id js id) ∙ ap is_found e in
      rw (e, absent, judgment_of) (found_or (str_eq j.item_id id) j ∙ or_no (str_eq j.item_id id))
  | inr (k, e) ↦
      let there : any (λ j. str_eq j.item_id id) js ≡ true =
        sym (judged_id js id) ∙ ap is_found e in
      rw (e, there, judgment_of) (or_yes (str_eq j.item_id id))
]
  where
    or_no : (b : Bool) → b ≡ (b || false)
    or_no b = ground arith

    or_yes : (b : Bool) → true ≡ (b || true)
    or_yes b = ground arith

find_passes : {A : Type 0} (p : A → Bool) (xs : List A) (a : A) → find p xs ≡ some a → p a ≡ true
find_passes p [] a h = cc
find_passes p (x ∷ xs) a h = elim (Bool-cases (p x)) [
  | inl e ↦ let same : x ≡ a = ground (arith, e, h) in subst (λ y. p y ≡ true) same e
  | inr e ↦ find_passes p xs a (ground (arith, e, h))
]

module _ (id : String) where
  abbrev has_id : Item → Bool
  has_id it = str_eq it.id id

  none_counted :
      (js : List Judgment) (its : List Item)
      → is_found (judgment_of js id) ≡ false
      → count has_id (judged js its) ≡ 0
  none_counted js [] e = refl
  none_counted js (it ∷ its) e = elim (Bool-cases (has_id it)) [
    | inl same ↦
        let here : is_found (judgment_of js it.id) ≡ false =
          subst (λ x. is_found (judgment_of js x) ≡ false) (sym ((str_eq_iff it.id id).0 same)) e in
        rw here (none_counted js its e)
    | inr other ↦ elim (Bool-cases (is_found (judgment_of js it.id))) [
      | inl f ↦ rw (f, other) (none_counted js its e)
      | inr f ↦ rw f (none_counted js its e)
    ]
  ]

  count-judged :
      (js : List Judgment) (its : List Item)
      → count has_id (judged js its)
        ≡ (if is_found (judgment_of js id) then count has_id its else 0)
  count-judged js [] = elim (Bool-cases (is_found (judgment_of js id))) [
    | inl e ↦ rw e refl
    | inr e ↦ rw e refl
  ]
  count-judged js (it ∷ its) = elim (Bool-cases (has_id it)) [
    | inl same ↦
        let named : it.id ≡ id = (str_eq_iff it.id id).0 same in
        elim (Bool-cases (is_found (judgment_of js id))) [
          | inl e ↦
              let here : is_found (judgment_of js it.id) ≡ true = rw named e in
              rw (here, same, e) (ap suc (count-judged js its ∙ rw e refl))
          | inr e ↦
              let here : is_found (judgment_of js it.id) ≡ false = rw named e in
              rw (here, e) (none_counted js its e)
        ]
    | inr other ↦ elim (Bool-cases (is_found (judgment_of js it.id))) [
      | inl e ↦ rw (e, other) (count-judged js its)
      | inr e ↦ rw (e, other) (count-judged js its)
    ]
  ]

  keep_drops :
      (k : String) (it : Item) (its : List Item)
      → str_eq it.id k ≡ true
      → keep (λ i. not (str_eq i.id k)) (it ∷ its) ≡ keep (λ i. not (str_eq i.id k)) its
  keep_drops k it its e = rw e refl

  keep_holds :
      (k : String) (it : Item) (its : List Item)
      → str_eq it.id k ≡ false
      → keep (λ i. not (str_eq i.id k)) (it ∷ its) ≡ it ∷ keep (λ i. not (str_eq i.id k)) its
  keep_holds k it its e = rw e refl

  count-keep_same :
      (k : String) (its : List Item)
      → k ≡ id
      → count has_id (keep (λ i. not (str_eq i.id k)) its) ≡ 0
  count-keep_same k [] same = refl
  count-keep_same k (it ∷ its) same = elim (Bool-cases (str_eq it.id k)) [
    | inl e ↦ ap (count has_id) (keep_drops k it its e) ∙ count-keep_same k its same
    | inr e ↦
        let other : has_id it ≡ false = subst (λ x. str_eq it.id x ≡ false) same e in
        ap (count has_id) (keep_holds k it its e) ∙ rw other (count-keep_same k its same)
  ]

  count-keep_other :
      (k : String) (its : List Item)
      → str_eq k id ≡ false
      → count has_id (keep (λ i. not (str_eq i.id k)) its) ≡ count has_id its
  count-keep_other k [] other = refl
  count-keep_other k (it ∷ its) other = elim (Bool-cases (str_eq it.id k)) [
    | inl e ↦
        let miss : has_id it ≡ false =
          subst (λ x. str_eq x id ≡ false) (sym ((str_eq_iff it.id k).0 e)) other in
        ap (count has_id) (keep_drops k it its e)
        ∙ (count-keep_other k its other ∙ sym (rw miss refl))
    | inr e ↦
        ap (count has_id) (keep_holds k it its e)
        ∙ ap (λ n. if has_id it then suc n else n) (count-keep_other k its other)
  ]

  count-put_first :
      (it : Item) (later : List Item) (b : Bool)
      → count has_id later ≡ (if b then 1 else 0)
      → (found : Option Item) → find (λ i. str_eq i.id it.id) later ≡ found
      → count has_id (put_first it found later) ≡ (if has_id it || b then 1 else 0)
  count-put_first it later b counted none absent = elim (Bool-cases (has_id it)) [
    | inl e ↦
        let named : it.id ≡ id = (str_eq_iff it.id id).0 e in
        let nowhere : count has_id later ≡ 0 = count_none has_id later (
          subst (λ x. any (λ i. str_eq i.id x) later ≡ false) named
            (any_of_find-none (λ i. str_eq i.id it.id) later absent)) in
        rw e (ap suc nowhere)
    | inr e ↦ rw e counted
  ]
  count-put_first it later b counted (some last) at = elim (Bool-cases (has_id it)) [
    | inl e ↦
        let named : it.id ≡ id = (str_eq_iff it.id id).0 e in
        let lasts : has_id last ≡ true =
          (str_eq_iff last.id id).1 (same_id it later last at ∙ named) in
        rw (e, lasts) (ap suc (count-keep_same it.id later named))
    | inr e ↦
        let lasts : has_id last ≡ false =
          subst (λ x. str_eq x id ≡ false) (sym (same_id it later last at)) e in
        rw (e, lasts) (count-keep_other it.id later e ∙ counted)
  ]
    where
      same_id :
          (it : Item) (later : List Item) (last : Item)
          → find (λ i. str_eq i.id it.id) later ≡ some last
          → last.id ≡ it.id
      same_id it later last at =
          (str_eq_iff last.id it.id).0 (find_passes (λ i. str_eq i.id it.id) later last at)

  count-items_by_id :
      (its : List Item) → count has_id (items_by_id its) ≡ (if any has_id its then 1 else 0)
  count-items_by_id [] = refl
  count-items_by_id (it ∷ its) =
      count-put_first it (items_by_id its) (any has_id its) (count-items_by_id its)
        (find (λ i. str_eq i.id it.id) (items_by_id its)) refl

module _ (tools : TextTools) (segments : Segments) (values : List String)
    (versions : List (String × ℕ)) (items : List Item) (judgments : List Judgment) where
  -- A plan that is built has exactly one command for an id that some item of the meeting and some
  -- judgment have, however many of either do, and none for any other id.
  pub build_change_plan_once :
      (commands : List Command) (id : String)
      → build_change_plan tools segments values versions items judgments ≡ some commands
      → count (λ c. str_eq c.item_id id) commands ≡ (
          if any (λ j. str_eq j.item_id id) judgments && any (λ it. str_eq it.id id) items
          then 1
          else 0)
  unfolding build_change_plan
  build_change_plan_once commands id e =
      of_some Counted (build_change_plan tools segments values versions items judgments) commands e
        (on_map (λ cs. ids cs ≡ item_ids (judged judgments (items_by_id items))) Counted
          (item_commands tools segments values versions items judgments (items_by_id items))
          (sort_by (λ a b. key_leb a.sort_key b.sort_key)) counted
          (commands_cover tools segments values versions items judgments (items_by_id items)))
    where
      Counted : List Command → Type 0
      Counted cs =
          let expected : ℕ =
            if any (λ j. str_eq j.item_id id) judgments && any (λ it. str_eq it.id id) items
            then 1
            else 0 in
          count (λ c. str_eq c.item_id id) cs ≡ expected

      both :
          (a b : Bool)
          → (let left : ℕ = if a then (if b then 1 else 0) else 0 in left)
            ≡ (if a && b then 1 else 0)
      both true b = refl
      both false b = refl

      counted :
          (cs : List Command)
          → ids cs ≡ item_ids (judged judgments (items_by_id items))
          → Counted (sort_by (λ a b. key_leb a.sort_key b.sort_key) cs)
      counted cs h =
          count-sort_by (λ c. str_eq c.item_id id) (λ a b. key_leb a.sort_key b.sort_key) cs
          ∙ (sym (count-map (λ c. c.item_id) (λ k. str_eq k id) cs)
              ∙ (ap (count (λ k. str_eq k id)) h
                  ∙ (count-map (λ it. it.id) (λ k. str_eq k id)
                        (judged judgments (items_by_id items))
                      ∙ (count-judged id judgments (items_by_id items)
                          ∙ (ap
                                (λ b.
                                  if b
                                  then count (λ it. str_eq it.id id) (items_by_id items)
                                  else 0)
                                (judged_id judgments id)
                              ∙ (ap (λ n. if any (λ j. str_eq j.item_id id) judgments then n else 0)
                                    (count-items_by_id id items)
                                  ∙ both (any (λ j. str_eq j.item_id id) judgments)
                                      (any (λ it. str_eq it.id id) items)))))))
