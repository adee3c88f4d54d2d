-- ===== src/Validation/Judgments/Fixpoint.antt =====
-- The fixpoint loop of the second pass ends, and where it ends no attachment is refused.
use mathlib.Core.Path.{subst}
use projectree.Base.{
  ℕ, zero, suc, ◌+◌, ◌≡◌, ◌≤◌, ◌<◌, refl, true, false, Bool, Option, none, some, List, [], ◌∷◌,
  Memᴰ, String, str_eq_iff, arith, All, length, inl, inr, Bool-cases, Option-cases, All-of_mem, ap,
}
use projectree.Contracts.{no_related_decision}
use projectree.Validation.Fields.{Item, is_attach}
use projectree.Validation.Rules.{Rule, minutes_judgment}
use projectree.Validation.Passes.{
  State, Chosen, put, demote, result_at, second_rule, second_round, second_pass, apply_second,
  fires,
}

abbrev one_if : Bool → ℕ
one_if true = 1
one_if false = 0

-- How many of the ids are attachments.
abbrev pub attachments : Chosen → List String → ℕ
attachments chosen [] = 0
attachments chosen (id ∷ ids) = one_if (is_attach (result_at chosen id)) + attachments chosen ids

abbrev demoted_at : String → Chosen → Chosen
demoted_at id chosen = put id (minutes_judgment id no_related_decision) chosen

attachments-le :
    (id : String) (chosen : Chosen) (ids : List String)
    → attachments (demoted_at id chosen) ids ≤ attachments chosen ids
attachments-le id chosen [] = omega arith
attachments-le id chosen (k ∷ ids) = ground (arith, attachments-le id chosen ids)

attachments-lt :
    (id : String) (chosen : Chosen) (ids : List String)
    → is_attach (result_at chosen id) ≡ true
    → Memᴰ id ids
    → attachments (demoted_at id chosen) ids < attachments chosen ids
attachments-lt id chosen ids a (Memᴰ.head {x = k} {xs = rest} e) =
    ground (arith, e, str_eq_iff id k, attachments-le id chosen rest)
attachments-lt id chosen ids a (Memᴰ.tail {x = k} {xs = rest} m) =
    ground (arith, attachments-lt id chosen rest a m)

-- Only an attachment is demoted by the second pass.
fires_attach :
    (items : List Item) (chosen : Chosen) (id : String)
    → fires (second_rule items chosen id) ≡ true
    → is_attach (result_at chosen id) ≡ true
unfolding second_rule
fires_attach items chosen id h = ground arith

apply_second_measure :
    (items : List Item) (id : String) (s : State) (all : List String)
    → Memᴰ id all
    → one_if (fires (second_rule items s.chosen id))
        + attachments (apply_second id (second_rule items s.chosen id) s).chosen all
      ≤ attachments s.chosen all
unfolding demote
apply_second_measure items id s all m = elim (Bool-cases (fires (second_rule items s.chosen id))) [
  | inl f ↦ ground (arith, f, attachments-lt id s.chosen all (fires_attach items s.chosen id f) m)
  | inr q ↦ ground (arith, q)
]

-- A round that changes something leaves fewer attachments.
round_measure :
    (items : List Item) (ids all : List String) (s : State)
    → All (λ id. Memᴰ id all) ids
    → one_if (second_round items ids s).1 + attachments (second_round items ids s).0.chosen all
      ≤ attachments s.chosen all
unfolding second_round
round_measure items [] all s m = omega arith
round_measure items (id ∷ ids) all s m = ground (
  arith,
  apply_second_measure items id s all m.0,
  round_measure items ids all (apply_second id (second_rule items s.chosen id) s) m.1,
)

-- A round that changes nothing found nothing to refuse.
pub round_quiet :
    (items : List Item) (ids : List String) (s : State)
    → (second_round items ids s).1 ≡ false
    → ((second_round items ids s).0 ≡ s) × All (λ id. second_rule items s.chosen id ≡ none) ids
unfolding second_round
round_quiet items [] s h = (refl, tt)
round_quiet items (id ∷ ids) s h = elim (Option-cases (second_rule items s.chosen id)) [
  | inl e ↦
      let (same, none_left) = round_quiet items ids s (rw e at h) in rw e (same, (refl, none_left))
  | inr (r, e) ↦ cc (rw e at h)
]

-- With fuel above the number of attachments the loop ends, in a state where a further round finds
-- nothing to refuse.
pub second_pass_ends :
    (fuel : ℕ) (items : List Item) (ids : List String) (s : State)
    → attachments s.chosen ids < fuel
    → (s' : State) × (second_pass fuel items ids s ≡ some s')
      × All (λ id. second_rule items s'.chosen id ≡ none) ids
unfolding second_pass
second_pass_ends zero items ids s h = elim h [ ]
second_pass_ends (suc fuel) items ids s h = elim (Bool-cases (second_round items ids s).1) [
  | inl more ↦
      let measure =
        round_measure items ids ids s (All-of_mem (λ id. Memᴰ id ids) ids (λ id m. m)) in
      let (s', ends, quiet) =
        second_pass_ends fuel items ids (second_round items ids s).0 (fewer more measure h) in
      (s', rw more ends, quiet)
  | inr done ↦
      let (same, quiet) = round_quiet items ids s done in (s, rw done (ap some same), quiet)
]
  where
    fewer : {b : Bool} {n m k : ℕ} → b ≡ true → one_if b + n ≤ m → m < suc k → n < k
    fewer e le lt = ground arith

pub attachments-le-length :
    (chosen : Chosen) (ids : List String) → attachments chosen ids ≤ length ids
attachments-le-length chosen [] = omega arith
attachments-le-length chosen (id ∷ ids) = ground (arith, attachments-le-length chosen ids)

module _ {κ} (P : State → Type κ) (items : List Item)
    (keeps : (id : String) (rule : Rule) (s : State)
      → P s
      → P (demote id rule no_related_decision s)) where
  apply_second_keeps : (id : String) (r : Option Rule) (s : State) → P s → P (apply_second id r s)
  apply_second_keeps id none s h = h
  apply_second_keeps id (some rule) s h = keeps id rule s h

  round_keeps : (ids : List String) (s : State) → P s → P (second_round items ids s).0
  unfolding second_round
  round_keeps [] s h = h
  round_keeps (id ∷ ids) s h =
      round_keeps ids (apply_second id (second_rule items s.chosen id) s)
        (apply_second_keeps id (second_rule items s.chosen id) s h)

  -- What every demotion keeps, the loop keeps.
  pub second_pass_keeps :
      (fuel : ℕ) (ids : List String) (s s' : State)
      → P s
      → second_pass fuel items ids s ≡ some s'
      → P s'
  unfolding second_pass
  second_pass_keeps zero ids s s' h e = cc
  second_pass_keeps (suc fuel) ids s s' h e = elim (Bool-cases (second_round items ids s).1) [
    | inl more ↦
        second_pass_keeps fuel ids (second_round items ids s).0 s' (round_keeps ids s h)
          (rw more at e)
    | inr done ↦ subst P (last (rw done at e)) (round_keeps ids s h)
  ]
    where
      last : {s s' : State} → some s ≡ some s' → s ≡ s'
      last e = ground arith
