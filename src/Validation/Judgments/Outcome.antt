-- ===== src/Validation/Judgments/Outcome.antt =====
-- What `validate_judgments` gives for a whole response.
use mathlib.Core.List.Memᴰ
use mathlib.Core.Path.{subst}
use projectree.Base.{
  ℕ, suc, ◌≡◌, ◌≤◌, ◌<◌, refl, true, false, none, some, List, [], ◌∷◌, Memᴰ, String, str_eq, arith,
  All, length, inl, inr, Bool-cases, Option-cases, All-of_mem, All-mem, sym, ◌∙◌, map, length-map,
  ap, ◌⊎◌, ◌++◌, str_eq_iff, All-and, All-imp,
}
use projectree.Base.Sorting.{mem-sort_by}
use projectree.Contracts.{no_related_decision, low_confidence}
use projectree.Validation.Evidence.{TextTools, Segments, resolve_item_evidence}
use projectree.Validation.Fields.{Item, Judgment}
use projectree.Validation.Rules.{Context, member, minutes_judgment}
use projectree.Validation.Passes.{Chosen, State, second_pass, second_rule}
use projectree.Validation.Judgments.{
  ValidationResult, validate_judgments, after_first_pass, item_order, sequential_order, key_of,
  key_leb, context, find_duplicate, choose, fill, conclude, void_response,
}
use projectree.Validation.Judgments.Owned.{
  AllOwn, first_pass-AllOwn, fill-AllOwn, choose-AllOwn, demote-AllOwn,
}
use projectree.Validation.Judgments.Fixpoint.{
  second_pass_ends, second_pass_keeps, attachments-le-length,
}
use projectree.Validation.Judgments.FirstPass.{
  passes, first_pass-passes, fill_there, fill-passes, passes-demote,
}
use projectree.Validation.Judgments.Settled.{Settled}
use projectree.Validation.Judgments.Sound.{settled}

-- No id stands twice.
abbrev pub Distinct : List String → Type 0
Distinct [] = Unit
Distinct (id ∷ ids) = All (λ k. str_eq k id ≡ false) ids × Distinct ids

-- The id that is found was seen, or stands among the ids before it, which have no other repetition.
repeated_at :
    (seen ids : List String) (id : String)
    → find_duplicate seen ids ≡ some id
    → (before : List String) × (after : List String) × (ids ≡ before ++ id ∷ after)
      × ((member id seen ≡ true) ⊎ Memᴰ id before)
      × All (λ k. member k seen ≡ false) before
      × Distinct before
repeated_at seen [] id h = cc
repeated_at seen (k ∷ ids) id h = elim (Bool-cases (member k seen)) [
  | inl e ↦
      let same : k ≡ id = same_text (rw e at h) in
      ([], ids, rw same refl, inl (subst (λ x. member x seen ≡ true) same e), tt, tt)
  | inr e ↦
      let (before, after, split, where_, fresh, once) = repeated_at (k ∷ seen) ids id (rw e at h) in
      (
        k ∷ before,
        after,
        ap (◌∷◌ k) split,
        earlier k before where_,
        (
          e,
          All-imp (λ x. member x (k ∷ seen) ≡ false) (λ x. member x seen ≡ false)
              (λ x f. ground (arith, f)) before fresh,
        ),
        (
          All-imp (λ x. member x (k ∷ seen) ≡ false) (λ x. str_eq x k ≡ false)
              (λ x f. ground (arith, f)) before fresh,
          once,
        ),
      )
]
  where
    same_text : {a b : String} → some a ≡ some b → a ≡ b
    same_text e = ground arith

    earlier :
        (k : String) (before : List String)
        → (member id (k ∷ seen) ≡ true) ⊎ Memᴰ id before
        → (member id seen ≡ true) ⊎ Memᴰ id (k ∷ before)
    earlier k before (inr m) = inr (Memᴰ.tail m)
    earlier k before (inl t) = elim (Bool-cases (member id seen)) [
      | inl e ↦ inl e
      | inr e ↦ inr (Memᴰ.head ((str_eq_iff id k).0 (ground (arith, t, e))))
    ]

second_time :
    (ids : List String) (id : String)
    → find_duplicate [] ids ≡ some id
    → (before : List String) × (after : List String) × (ids ≡ before ++ id ∷ after)
      × Memᴰ id before
      × Distinct before
second_time ids id h =
    let (before, after, split, at, fresh, once) = repeated_at [] ids id h in
    (before, after, split, elim at [ inl e ↦ cc | inr m ↦ m ], once)

-- No id is repeated in a list that goes on after the ids seen.
no_duplicate :
    (seen ids : List String)
    → All (λ k. member k seen ≡ false) ids
    → Distinct ids
    → find_duplicate seen ids ≡ none
no_duplicate seen [] u d = refl
no_duplicate seen (id ∷ ids) u d = rw u.0 (
    no_duplicate (id ∷ seen) ids
      (All-imp (λ k. (member k seen ≡ false) × (str_eq k id ≡ false))
        (λ k. member k (id ∷ seen) ≡ false) (λ k h. ground arith) ids
        (All-and (λ k. member k seen ≡ false) (λ k. str_eq k id ≡ false) ids u.1 d.0))
      d.1)

distinct :
    (seen ids : List String)
    → find_duplicate seen ids ≡ none
    → All (λ k. member k seen ≡ false) ids × Distinct ids
distinct seen [] h = (tt, tt)
distinct seen (id ∷ ids) h = elim (Bool-cases (member id seen)) [
  | inl e ↦ cc (rw e at h)
  | inr e ↦
      let (fresh, d) = distinct (id ∷ seen) ids (rw e at h) in
      (
        (
          e,
          All-imp (λ k. member k (id ∷ seen) ≡ false) (λ k. member k seen ≡ false)
              (λ k g. ground arith) ids fresh,
        ),
        (
          All-imp (λ k. member k (id ∷ seen) ≡ false) (λ k. str_eq k id ≡ false)
              (λ k g. ground arith) ids fresh,
          d,
        ),
      )
]

module _ (tools : TextTools) (segments : Segments) (items : List Item)
    (decision_ids action_ids : List String) (raw : List Judgment) where
  abbrev ctx : Context
  ctx = context tools segments items decision_ids action_ids

  in_sequence :
      (k : String) → Memᴰ k (item_order items) → Memᴰ k (sequential_order tools segments items)
  unfolding sequential_order
  in_sequence k m =
      let (it, mem, e) = Memᴰ.of_map (λ it. it.id) items m in
      Memᴰ.cast (sym e) (
        Memᴰ.map (λ s. s.item_id)
          (mem-sort_by key_leb
            (map (λ i. key_of i.id (resolve_item_evidence tools segments i.evidence)) items)
            (Memᴰ.map (λ i. key_of i.id (resolve_item_evidence tools segments i.evidence)) mem)))

  -- After the first pass every judgment passes.
  first_pass_done :
      (k : String)
      → Memᴰ k (item_order items)
      → passes ctx k ((after_first_pass tools segments items decision_ids action_ids raw).chosen k)
        ≡ true
  unfolding after_first_pass
  first_pass_done k m =
      first_pass-passes ctx (fill (item_order items) (choose items raw (λ i. none)) []).1 k
        (sequential_order tools segments items)
        (record {
          chosen = (fill (item_order items) (choose items raw (λ i. none)) []).0;
          demoted = [];
        })
        (fill-passes ctx (item_order items) (choose items raw (λ i. none)) [] (λ i h. cc))
        (fill_there ctx k (item_order items) (choose items raw (λ i. none)) [] m) (in_sequence k m)

  after_first_pass-AllOwn :
      AllOwn (after_first_pass tools segments items decision_ids action_ids raw).chosen
  unfolding after_first_pass
  after_first_pass-AllOwn =
      first_pass-AllOwn ctx (fill (item_order items) (choose items raw (λ i. none)) []).1
        (sequential_order tools segments items)
        (record {
          chosen = (fill (item_order items) (choose items raw (λ i. none)) []).0;
          demoted = [];
        })
        (fill-AllOwn ctx (item_order items) (choose items raw (λ i. none)) []
          (choose-AllOwn items raw (λ i. none) (λ i. refl)))

  -- The loop of the second pass ends with every item settled.
  second_pass_settles :
      (s : State) × (second_pass
          (suc (length items))
          items
          (item_order items)
          (after_first_pass tools segments items decision_ids action_ids raw)
        ≡ some s)
      × All (Settled ctx s.chosen) (item_order items)
  second_pass_settles =
      let start = after_first_pass tools segments items decision_ids action_ids raw in
      let (s, ends, quiet) = second_pass_ends (suc (length items)) items (item_order items) start (
        enough (attachments-le-length start.chosen (item_order items))
          (length-map (λ it. it.id) items)) in
      let passed =
        second_pass_keeps
          (λ t. (k : String) → Memᴰ k (item_order items) → passes ctx k (t.chosen k) ≡ true) items
          (λ id rule t h k m. passes-demote ctx k id rule no_related_decision t (h k m))
          (suc (length items)) (item_order items) start s first_pass_done ends in
      let own =
        second_pass_keeps (λ t. AllOwn t.chosen) items
          (λ id rule t h. demote-AllOwn id rule no_related_decision t h) (suc (length items))
          (item_order items) start s after_first_pass-AllOwn ends in
      (
        s,
        ends,
        All-of_mem (Settled ctx s.chosen) (item_order items) (λ k m.
            settled ctx s.chosen k (passed k m)
              (All-mem (λ id. second_rule items s.chosen id ≡ none) (item_order items) quiet m)
              (own k)),
      )
    where
      enough : {a b n : ℕ} → a ≤ b → b ≡ n → a < suc n
      enough h e = omega arith

  none_twice :
      Distinct (map (λ j. j.item_id) raw) → find_duplicate [] (map (λ j. j.item_id) raw) ≡ none
  none_twice =
      no_duplicate [] (map (λ j. j.item_id) raw)
        (All-of_mem (λ k. member k [] ≡ false) (map (λ j. j.item_id) raw) (λ k m. refl))

  validated :
      (s : State)
      → find_duplicate [] (map (λ j. j.item_id) raw) ≡ none
      → second_pass
          (suc (length items))
          items
          (item_order items)
          (after_first_pass tools segments items decision_ids action_ids raw)
        ≡ some s
      → validate_judgments tools segments items decision_ids action_ids raw
        ≡ conclude tools segments items decision_ids action_ids raw (some s)
  unfolding validate_judgments
  validated s n e = rw (n, e, validate_judgments) refl

  -- A response that judges no item twice is validated, and in the result every item is settled.
  pub validate_judgments_settles :
      Distinct (map (λ j. j.item_id) raw)
      → (result : ValidationResult) × (chosen : Chosen) × (validate_judgments tools segments items
            decision_ids action_ids raw
          ≡ some result)
        × (result.judgments ≡ map chosen (item_order items))
        × (result.response_invalid ≡ none)
        × All (Settled ctx chosen) (item_order items)
  validate_judgments_settles d =
      let (s, ends, settles) = second_pass_settles in
      (_, s.chosen, validated s (none_twice d) ends, refl, refl, settles)

  voided :
      (id : String)
      → find_duplicate [] (map (λ j. j.item_id) raw) ≡ some id
      → validate_judgments tools segments items decision_ids action_ids raw
        ≡ some (void_response (item_order items) (sequential_order tools segments items) id)
  unfolding validate_judgments
  voided id e = rw (e, validate_judgments) refl

  -- A response that judges an item twice is void. The result names the id that is first judged a second
  -- time: it stands among the ids before it, none of which stands twice. Every item is recorded as
  -- MINUTES_ONLY with LOW_CONFIDENCE.
  pub duplicates_void :
      (Distinct (map (λ j. j.item_id) raw) → ⊥)
      → (result : ValidationResult) × (id : String) × (validate_judgments tools segments items
            decision_ids action_ids raw
          ≡ some result)
        × (result.response_invalid ≡ some id)
        × ((before : List String) × (after : List String) × (map (λ j. j.item_id) raw
              ≡ before ++ id ∷ after)
            × Memᴰ id before
            × Distinct before)
        × (result.judgments
            ≡ map (λ k. some (minutes_judgment k low_confidence)) (item_order items))
  duplicates_void n = elim (Option-cases (find_duplicate [] (map (λ j. j.item_id) raw))) [
    | inl e ↦ absurd (n (distinct [] (map (λ j. j.item_id) raw) e).1)
    | inr (id, e) ↦ (_, id, voided id e, refl, second_time (map (λ j. j.item_id) raw) id e, refl)
  ]

  -- Validation always ends, with one judgment for each item, in the items' order.
  pub validate_judgments_total :
      (result : ValidationResult) × (validate_judgments tools segments items decision_ids action_ids
          raw
        ≡ some result)
      × (length result.judgments ≡ length items)
  validate_judgments_total = elim (Option-cases (find_duplicate [] (map (λ j. j.item_id) raw))) [
    | inl e ↦
        let (s, ends, settles) = second_pass_settles in
        (
          _,
          validated s e ends,
          length-map s.chosen (item_order items) ∙ length-map (λ it. it.id) items,
        )
    | inr (id, e) ↦ (
      _,
      voided id e,
      length-map (λ k. some (minutes_judgment k low_confidence)) (item_order items)
          ∙ length-map (λ it. it.id) items,
    )
  ]
