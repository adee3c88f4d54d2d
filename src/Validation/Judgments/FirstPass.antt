-- ===== src/Validation/Judgments/FirstPass.antt =====
-- After the first pass every item has a judgment, and one that is not MINUTES_ONLY passed every check
-- that looks at it alone.
use mathlib.Core.Path.{subst}
use projectree.Base.{
  ◌≡◌, refl, true, false, Bool, ◌||◌, Option, none, some, List, [], ◌∷◌, ◌++◌, Memᴰ, String, str_eq,
  str_eq_iff, arith, inl, inr, Bool-cases, Option-cases, if◌then◌else◌, sym, ap,
}
use projectree.Contracts.{MinutesReason, no_related_decision}
use projectree.Validation.Fields.{Judgment, is_minutes_only}
use projectree.Validation.Rules.{Context, Rule, minutes_judgment, first_rule, member}
use projectree.Validation.Passes.{State, Chosen, put, demote, first_pass, apply_rule, rule_at}
use projectree.Validation.Judgments.{fill}

abbrev no_rule : {A : Type 0} → Option A → Bool
no_rule none = true
no_rule (some r) = false

-- There is a judgment, and it is MINUTES_ONLY or has no rule of the first pass against it.
abbrev pub passes : Context → String → Option Judgment → Bool
passes c id none = false
passes c id (some j) = is_minutes_only j.result || no_rule (first_rule c id j)

abbrev pub is_there : Option Judgment → Bool
is_there none = false
is_there (some j) = true

no_rule-none : {A : Type 0} (r : Option A) → no_rule r ≡ true → r ≡ none
no_rule-none none h = refl
no_rule-none (some a) h = cc

module _ (c : Context) where
  pub passes_clean :
      (id : String) (j : Judgment)
      → passes c id (some j) ≡ true
      → is_minutes_only j.result ≡ false
      → first_rule c id j ≡ none
  passes_clean id j h m = no_rule-none (first_rule c id j) (ground (arith, h, m))

  -- A demotion keeps what holds of every judgment.
  pub passes-demote :
      (k id : String) (rule : Rule) (reason : MinutesReason) (s : State)
      → passes c k (s.chosen k) ≡ true
      → passes c k ((demote id rule reason s).chosen k) ≡ true
  unfolding demote
  passes-demote k id rule reason s h = ground arith

  there-demote :
      (k id : String) (rule : Rule) (reason : MinutesReason) (s : State)
      → is_there (s.chosen k) ≡ true
      → is_there ((demote id rule reason s).chosen k) ≡ true
  unfolding demote
  there-demote k id rule reason s h = ground arith

  -- The visit of an item makes its judgment pass.
  visit_passes :
      (id : String) (s : State)
      → is_there (s.chosen id) ≡ true
      → passes c id ((apply_rule id (rule_at c id (s.chosen id)) s).chosen id) ≡ true
  unfolding demote
  visit_passes id s h = ground (arith, str_eq_iff id id)

  visit_keeps :
      (k id : String) (s : State)
      → passes c k (s.chosen k) ≡ true
      → passes c k ((apply_rule id (rule_at c id (s.chosen id)) s).chosen k) ≡ true
  unfolding demote
  visit_keeps k id s h = ground arith

  visit_there :
      (k id : String) (s : State)
      → is_there (s.chosen k) ≡ true
      → is_there ((apply_rule id (rule_at c id (s.chosen id)) s).chosen k) ≡ true
  unfolding demote
  visit_there k id s h = ground arith

  module _ (filled : List String) where
    abbrev visit : String → State → State
    visit id s = if member id filled then s else apply_rule id (rule_at c id (s.chosen id)) s

    either : (P : State → Type 0) (b : Bool) {s s' : State} → P s → P s' → P (if b then s else s')
    either P true h h' = h
    either P false h h' = h'

    visited_passes :
        (k id : String) (s : State)
        → passes c k (s.chosen k) ≡ true
        → passes c k ((visit id s).chosen k) ≡ true
    visited_passes k id s h =
        either (λ t. passes c k (t.chosen k) ≡ true) (member id filled) h (visit_keeps k id s h)

    visited_there :
        (k id : String) (s : State)
        → is_there (s.chosen k) ≡ true
        → is_there ((visit id s).chosen k) ≡ true
    visited_there k id s h =
        either (λ t. is_there (t.chosen k) ≡ true) (member id filled) h (visit_there k id s h)

    first_pass_keeps :
        (k : String) (ids : List String) (s : State)
        → passes c k (s.chosen k) ≡ true
        → passes c k ((first_pass c filled ids s).chosen k) ≡ true
    unfolding first_pass
    first_pass_keeps k [] s h = h
    first_pass_keeps k (id ∷ ids) s h =
        first_pass_keeps k ids (visit id s) (visited_passes k id s h)

    -- The visit of an item: a filled item passed before.
    visited :
        (id : String) (s : State)
        → (member id filled ≡ true → passes c id (s.chosen id) ≡ true)
        → is_there (s.chosen id) ≡ true
        → passes c id ((visit id s).chosen id) ≡ true
    visited id s f h = elim (Bool-cases (member id filled)) [
      | inl e ↦
          subst
            (λ b.
              passes c id
                ((if b then s else apply_rule id (rule_at c id (s.chosen id)) s).chosen id)
              ≡ true)
            (sym e) (f e)
      | inr e ↦
          subst
            (λ b.
              passes c id
                ((if b then s else apply_rule id (rule_at c id (s.chosen id)) s).chosen id)
              ≡ true)
            (sym e) (visit_passes id s h)
    ]

    -- After the pass over the ids each of them passes.
    pub first_pass-passes :
        (k : String) (ids : List String) (s : State)
        → ((id : String) → member id filled ≡ true → passes c id (s.chosen id) ≡ true)
        → is_there (s.chosen k) ≡ true
        → Memᴰ k ids
        → passes c k ((first_pass c filled ids s).chosen k) ≡ true
    unfolding first_pass
    first_pass-passes k ids s f h (Memᴰ.head {x = id} {xs = rest} e) =
        first_pass_keeps k rest (visit id s)
          (subst (λ i. passes c k ((visit i s).chosen k) ≡ true) e (visited k s (f k) h))
    first_pass-passes k ids s f h (Memᴰ.tail {x = id} {xs = rest} m) =
        first_pass-passes k rest (visit id s) (λ i g. visited_passes i id s (f i g))
          (visited_there k id s h) m

  member-append :
      (k id : String) (ids : List String) → member k (ids ++ id ∷ []) ≡ member k ids || str_eq k id
  member-append k id [] = ground arith
  member-append k id (i ∷ ids) = ground (arith, member-append k id ids)

  pub fill-none :
      (id : String) (ids : List String) (chosen : Chosen) (filled : List String)
      → chosen id ≡ none
      → fill (id ∷ ids) chosen filled
        ≡ fill ids (put id (minutes_judgment id no_related_decision) chosen) (filled ++ id ∷ [])
  unfolding fill
  fill-none id ids chosen filled e = rw (e, fill) refl

  pub fill-some :
      (id : String) (ids : List String) (chosen : Chosen) (filled : List String) {j : Judgment}
      → chosen id ≡ some j
      → fill (id ∷ ids) chosen filled ≡ fill ids chosen filled
  unfolding fill
  fill-some id ids chosen filled e = rw (e, fill) refl

  -- Filling covers every id, and what it adds passes.
  fill_keeps :
      (k : String) (ids : List String) (chosen : Chosen) (filled : List String)
      → is_there (chosen k) ≡ true
      → is_there ((fill ids chosen filled).0 k) ≡ true
  unfolding fill
  fill_keeps k [] chosen filled h = h
  fill_keeps k (id ∷ ids) chosen filled h = elim (Option-cases (chosen id)) [
    | inl e ↦ rw (fill-none id ids chosen filled e) (
        fill_keeps k ids (put id (minutes_judgment id no_related_decision) chosen)
          (filled ++ id ∷ []) (ground arith))
    | inr (j, e) ↦ rw (fill-some id ids chosen filled e) (fill_keeps k ids chosen filled h)
  ]

  pub fill_there :
      (k : String) (ids : List String) (chosen : Chosen) (filled : List String)
      → Memᴰ k ids
      → is_there ((fill ids chosen filled).0 k) ≡ true
  fill_there k ids chosen filled (Memᴰ.head {x = id} {xs = rest} e) =
      elim (Option-cases (chosen id)) [
        | inl q ↦ rw (fill-none id rest chosen filled q) (
            fill_keeps k rest (put id (minutes_judgment id no_related_decision) chosen)
              (filled ++ id ∷ []) (ground (arith, str_eq_iff id k, e)))
        | inr (j, q) ↦
            rw (fill-some id rest chosen filled q)
              (fill_keeps k rest chosen filled (rw (ap chosen e, q) refl))
      ]
  fill_there k ids chosen filled (Memᴰ.tail {x = id} {xs = rest} m) =
      elim (Option-cases (chosen id)) [
        | inl q ↦ rw (fill-none id rest chosen filled q) (
            fill_there k rest (put id (minutes_judgment id no_related_decision) chosen)
              (filled ++ id ∷ []) m)
        | inr (j, q) ↦ rw (fill-some id rest chosen filled q) (fill_there k rest chosen filled m)
      ]

  pub fill-passes :
      (ids : List String) (chosen : Chosen) (filled : List String)
      → ((id : String) → member id filled ≡ true → passes c id (chosen id) ≡ true)
      → (k : String) → member k (fill ids chosen filled).1 ≡ true
      → passes c k ((fill ids chosen filled).0 k) ≡ true
  unfolding fill
  fill-passes [] chosen filled f = f
  fill-passes (id ∷ ids) chosen filled f = elim (Option-cases (chosen id)) [
    | inl e ↦ rw (fill-none id ids chosen filled e) (
        fill-passes ids (put id (minutes_judgment id no_related_decision) chosen)
          (filled ++ id ∷ []) (λ k m. filled_more k e (f k) m))
    | inr (j, e) ↦ rw (fill-some id ids chosen filled e) (fill-passes ids chosen filled f)
  ]
    where
      filled_more :
          (k : String)
          → chosen id ≡ none
          → (member k filled ≡ true → passes c k (chosen k) ≡ true)
          → member k (filled ++ id ∷ []) ≡ true
          → passes c k (put id (minutes_judgment id no_related_decision) chosen k) ≡ true
      filled_more k e f m =
          ground (arith, member-append k id filled, str_eq_iff k id, str_eq_iff id k)
