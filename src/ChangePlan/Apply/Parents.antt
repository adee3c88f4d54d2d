-- ===== src/ChangePlan/Apply/Parents.antt =====
-- In a plan without two commands of one item the creating command itself comes first.
use mathlib.Core.List.{Perm}
use mathlib.Core.List.Memᴰ
use mathlib.Core.Path.{subst}
use projectree.Base.{
  ℕ, ◌≡◌, ◌<◌, refl, ap, sym, ◌∙◌, inl, inr, true, false, some, List, [], ◌∷◌, Memᴰ, map, String,
  str_eq, str_eq_iff, arith, Bool-cases, All,
}
use projectree.Validation.Rules.{member}
use projectree.Validation.Judgments.Outcome.{Distinct}
use projectree.ChangePlan.{Command}
use projectree.ChangePlan.Apply.{ordered_for_apply}
use projectree.ChangePlan.Apply.Ordered.{is_parent, ParentsFirst, ordered_for_apply_all}

-- Each command comes after the very commands that create its parent.
abbrev pub CreatedFirst : List Command → List Command → List Command → Type 0
CreatedFirst commands before [] = Unit
CreatedFirst commands before (c ∷ ordered) =
    ((p : Command) → Memᴰ p commands → is_parent p c ≡ true → Memᴰ p before)
    × CreatedFirst commands (c ∷ before) ordered

module _ (commands : List Command) (once : Distinct (map (λ c. c.item_id) commands)) where
  head_alone :
      (c p : Command) (cs : List Command)
      → All (λ k. str_eq k c.item_id ≡ false) (map (λ c. c.item_id) cs)
      → Memᴰ p cs
      → p.item_id ≡ c.item_id
      → ⊥
  head_alone c p (d ∷ cs) h m e = elim (Memᴰ.cases_cons m) [
    | inl same ↦
        ground (arith, h.0, (str_eq_iff d.item_id c.item_id).1 (ap (λ c. c.item_id) (sym same) ∙ e))
    | inr deeper ↦ head_alone c p cs h.1 deeper e
  ]
  head_alone c p [] h m e = absurd (Memᴰ.not-nil m)

  same_command :
      (p q : Command) (cs : List Command)
      → Distinct (map (λ c. c.item_id) cs)
      → Memᴰ p cs
      → Memᴰ q cs
      → p.item_id ≡ q.item_id
      → p ≡ q
  same_command p q [] d m n e = absurd (Memᴰ.not-nil m)
  same_command p q (c ∷ cs) d m n e = elim (Memᴰ.cases_cons m) [
    | inl a ↦ elim (Memᴰ.cases_cons n) [
      | inl b ↦ a ∙ sym b
      | inr n' ↦ absurd (head_alone c q cs d.0 n' (sym e ∙ ap (λ c. c.item_id) a))
    ]
    | inr m' ↦ elim (Memᴰ.cases_cons n) [
      | inl b ↦ absurd (head_alone c p cs d.0 m' (e ∙ ap (λ c. c.item_id) b))
      | inr n' ↦ same_command p q cs d.1 m' n' e
    ]
  ]

  of_member :
      (id : String) (before : List Command)
      → member id (map (λ c. c.item_id) before) ≡ true
      → (q : Command) × Memᴰ q before × (q.item_id ≡ id)
  of_member id [] h = cc
  of_member id (c ∷ before) h = elim (Bool-cases (str_eq id c.item_id)) [
    | inl e ↦ (c, Memᴰ.head refl, sym ((str_eq_iff id c.item_id).0 e))
    | inr e ↦
        let (q, m, same) = of_member id before (ground (arith, h, e)) in (q, Memᴰ.tail m, same)
  ]

  created_first :
      (before out : List Command)
      → ((c : Command) → Memᴰ c before → Memᴰ c commands)
      → ((c : Command) → Memᴰ c out → Memᴰ c commands)
      → ParentsFirst commands (map (λ c. c.item_id) before) out
      → CreatedFirst commands before out
  created_first before [] earlier within h = tt
  created_first before (c ∷ out) earlier within h = (
    (λ p m q.
        let (r, n, same) = of_member p.item_id before (h.0 p m q) in
        subst (λ x. Memᴰ x before) (same_command r p commands once (earlier r n) m same) n),
    created_first (c ∷ before) out
        (λ d m. elim (Memᴰ.cases_cons m) [ inl e ↦ within d (Memᴰ.head e) | inr n ↦ earlier d n ])
        (λ d m. within d (Memᴰ.tail m)) h.1,
  )

  -- A plan with at most one command for an item, in which the parents that it creates have lower ranks
  -- than their children, has no cycle: all of its commands are put in order, each once, and each after
  -- the very commands that create its parents.
  pub ordered_for_apply-CreatedFirst :
      (rank : Command → ℕ)
      → ((c p : Command)
          → Memᴰ c commands
          → Memᴰ p commands
          → is_parent p c ≡ true
          → rank p < rank c)
      → (out : List Command) × (ordered_for_apply commands ≡ some out)
        × Perm out commands
        × CreatedFirst commands [] out
  ordered_for_apply-CreatedFirst rank lower =
      let (out, ends, perm, first, within) = ordered_for_apply_all commands rank lower in
      (out, ends, perm, created_first [] out (λ c m. absurd (Memᴰ.not-nil m)) within first)
