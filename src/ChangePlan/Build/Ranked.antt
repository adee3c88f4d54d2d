-- ===== src/ChangePlan/Build/Ranked.antt =====
-- A plan built from validated judgments can be put in order: the parents that it creates are of a type
-- nearer to the root than their children.
use mathlib.Core.Option
use mathlib.Core.Path.{subst}
use projectree.Base.{
  ℕ, ◌≡◌, refl, sym, inl, inr, Bool, true, false, not, Option, none, some, List, [], ◌∷◌, Memᴰ,
  String, any, find, if◌then◌else◌, str_eq, arith, Bool-cases, Option-cases, All, All-imp, All-keep,
  find-All,
}
use projectree.Base.Text.{truthy, text_of}
use projectree.Contracts.{
  JudgmentResult, new_decision, attach, update_action, minutes_only, node_type_of_text,
}
use projectree.Validation.Evidence.{TextTools, Segments}
use projectree.Validation.Fields.{Item, Judgment}
use projectree.Validation.Judgments.{item_order}
use projectree.ChangePlan.{Command, command, has_shape}
use projectree.ChangePlan.Apply.Ordered.{new_parent}
use projectree.ChangePlan.Build.{
  put_first, items_by_id, judgment_of, attach_parent, item_command, item_commands, attach_op,
  create_op,
}

-- What holds of the result, if there is one.
abbrev pub OnSome : {A : Type 0} → (A → Type 0) → Option A → Type 0
OnSome P none = Unit
OnSome P (some a) = P a

on_bind :
    {A B : Type 0} (P : B → Type 0) (o : Option A) (f : A → Option B)
    → ((a : A) → OnSome P (f a))
    → OnSome P (Option.bind o f)
unfolding Option.bind
on_bind P none f h = tt
on_bind P (some a) f h = h a

pub on_map :
    {A B : Type 0} (P : A → Type 0) (Q : B → Type 0) (o : Option A) (f : A → B)
    → ((a : A) → P a → Q (f a))
    → OnSome P o
    → OnSome Q (Option.map f o)
on_map P Q none f h k = tt
on_map P Q (some a) f h k = h a k

pub of_some : {A : Type 0} (P : A → Type 0) (o : Option A) (a : A) → o ≡ some a → OnSome P o → P a
of_some P none a e h = cc
of_some P (some b) a e h = subst P (same e) h
  where
    same : {A : Type 0} {a b : A} → some a ≡ some b → a ≡ b
    same e = ground arith

on_if :
    (P : Command → Type 0) (b : Bool) (c : Command) → P c → OnSome P (if b then some c else none)
on_if P true c h = h
on_if P false c h = tt

on_command : (P : Command → Type 0) (c : Command) → P c → OnSome P (command c)
unfolding command
on_command P c h = on_if P (has_shape c.op c) c h

-- The command of an item, and where its new parent comes from.
pub record Made (items : List Item) (it : Item) (j : Judgment) (c : Command) : Type 0 where
  pub same_id : c.item_id ≡ it.id
  pub attaches :
      truthy (new_parent c.parent) ≡ true
      → (j.result ≡ some attach)
        × (text_of (new_parent c.parent) ≡ text_of j.attach_to)
        × (any (λ i. str_eq i.id (text_of j.attach_to)) items ≡ true)

-- A command without a new parent.
Made-root :
    (items : List Item) (it : Item) (j : Judgment) (c : Command)
    → c.item_id ≡ it.id
    → truthy (new_parent c.parent) ≡ false
    → Made items it j c
Made-root items it j c e n = record { same_id = e; attaches = λ t. cc (t, n) }

module _ (tools : TextTools) (segments : Segments) (values : List String)
    (versions : List (String × ℕ)) (items : List Item) where
  Made-attached :
      (it : Item) (j : Judgment) (c : Command)
      → j.result ≡ some attach
      → c.item_id ≡ it.id
      → c.parent ≡ some (attach_parent items (text_of j.attach_to))
      → Made items it j c
  Made-attached it j c r e q =
      elim (Bool-cases (any (λ i. str_eq i.id (text_of j.attach_to)) items)) [
        | inl a ↦ record { same_id = e; attaches = λ t. (r, ground (arith, q, a), a) }
        | inr n ↦ Made-root items it j c e (ground (arith, q, n))
      ]

  pub item_command-Made :
      (it : Item) (j : Judgment) (r : Option JudgmentResult)
      → j.result ≡ r
      → OnSome (Made items it j) (item_command tools segments values versions items it j r)
  unfolding item_command
  item_command-Made it j (some new_decision) e =
      on_bind (Made items it j) _ _
        (λ category. on_command (Made items it j) _ (Made-root items it j _ refl refl))
  item_command-Made it j (some attach) e =
      on_bind (Made items it j) (attach_op (node_type_of_text it.type)) _ (λ op.
        on_bind (Made items it j) _ _
          (λ category. on_command (Made items it j) _ (Made-attached it j _ e refl refl)))
  item_command-Made it j (some JudgmentResult.unattached) e =
      on_bind (Made items it j) (create_op (node_type_of_text it.type)) _ (λ op.
        on_bind (Made items it j) _ _
          (λ category. on_command (Made items it j) _ (Made-root items it j _ refl refl)))
  item_command-Made it j (some update_action) e =
      on_command (Made items it j) _ (Made-root items it j _ refl refl)
  item_command-Made it j (some minutes_only) e =
      on_command (Made items it j) _ (Made-root items it j _ refl refl)
  item_command-Made it j none e = on_command (Made items it j) _ (Made-root items it j _ refl refl)

  -- Every command of the plan was made for a judged item.
  pub record FromItem (judgments : List Judgment) (c : Command) : Type 0 where
    pub it : Item
    pub j : Judgment
    pub known : Memᴰ it.id (item_order items)
    pub judged : judgment_of judgments it.id ≡ some j
    pub made : Made items it j c

  pub item_commands_unjudged :
      (judgments : List Judgment) (it : Item) (rest : List Item)
      → judgment_of judgments it.id ≡ none
      → item_commands tools segments values versions items judgments (it ∷ rest)
        ≡ item_commands tools segments values versions items judgments rest
  unfolding item_commands
  item_commands_unjudged judgments it rest e = rw (e, item_commands) refl

  pub item_commands_judged :
      (judgments : List Judgment) (it : Item) (rest : List Item) (j : Judgment)
      → judgment_of judgments it.id ≡ some j
      → item_commands tools segments values versions items judgments (it ∷ rest)
        ≡ Option.bind (item_command tools segments values versions items it j j.result) (λ c.
          Option.map
            (λ cs. c ∷ cs)
            (item_commands tools segments values versions items judgments rest))
  unfolding item_commands
  item_commands_judged judgments it rest j e = rw (e, item_commands) refl

  -- A command and those after it.
  joined :
      (judgments : List Judgment) (o : Option Command) (later : Option (List Command))
      → OnSome (FromItem judgments) o
      → OnSome (λ cs. All (FromItem judgments) cs) later
      → OnSome
          (λ cs. All (FromItem judgments) cs)
          (Option.bind o (λ c. Option.map (λ cs. c ∷ cs) later))
  unfolding Option.bind
  joined judgments none later h k = tt
  joined judgments (some c) none h k = tt
  joined judgments (some c) (some cs) h k = (h, k)

  pub item_commands_made :
      (judgments : List Judgment) (some_items : List Item)
      → All (λ it. Memᴰ it.id (item_order items)) some_items
      → OnSome
          (λ cs. All (FromItem judgments) cs)
          (item_commands tools segments values versions items judgments some_items)
  unfolding item_commands
  item_commands_made judgments [] k = tt
  item_commands_made judgments (it ∷ rest) k = elim (Option-cases (judgment_of judgments it.id)) [
    | inl e ↦
        subst (OnSome (λ cs. All (FromItem judgments) cs))
          (sym (item_commands_unjudged judgments it rest e)) (item_commands_made judgments rest k.1)
    | inr (j, e) ↦
        subst (OnSome (λ cs. All (FromItem judgments) cs))
          (sym (item_commands_judged judgments it rest j e))
          (joined judgments (item_command tools segments values versions items it j j.result)
            (item_commands tools segments values versions items judgments rest)
            (from (item_command tools segments values versions items it j j.result)
              (item_command-Made it j j.result refl) e k.0)
            (item_commands_made judgments rest k.1))
  ]
    where
      from :
          {j : Judgment} (o : Option Command)
          → OnSome (Made items it j) o
          → judgment_of judgments it.id ≡ some j
          → Memᴰ it.id (item_order items)
          → OnSome (FromItem judgments) o
      from none h e m = tt
      from {j} (some c) h e m = record { it = it; j = j; known = m; judged = e; made = h }

put_first-All :
    (P : Item → Type 0) (it : Item) (later : List Item)
    → P it
    → All P later
    → All P (put_first it (find (λ i. str_eq i.id it.id) later) later)
put_first-All P it later h k = go (find (λ i. str_eq i.id it.id) later) refl
  where
    go : (o : Option Item) → find (λ i. str_eq i.id it.id) later ≡ o → All P (put_first it o later)
    go none e = (h, k)
    go (some last) e = (
      (find-All (λ i. str_eq i.id it.id) P later k e).0,
      All-keep P P (λ i. not (str_eq i.id it.id)) (λ i g m. m) later k,
    )

-- The items of a plan are items of the meeting.
pub items_by_id_known :
    (items : List Item) → All (λ it. Memᴰ it.id (item_order items)) (items_by_id items)
items_by_id_known [] = tt
items_by_id_known (it ∷ items) =
    put_first-All (λ i. Memᴰ i.id (item_order (it ∷ items))) it (items_by_id items) (Memᴰ.head refl)
      (All-imp (λ i. Memᴰ i.id (item_order items)) (λ i. Memᴰ i.id (item_order (it ∷ items)))
        (λ i m. Memᴰ.tail m) (items_by_id items) (items_by_id_known items))
