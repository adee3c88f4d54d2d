-- ===== src/Validation/Evidence/Sound.antt =====
-- Evidence counts exactly when the transcript bears it out, and its offsets point at the quote.
use mathlib.Core.Option
use mathlib.Core.Path.{subst}
use projectree.Base.{
  ℕ, zero, suc, ◌+◌, ◌≡◌, ◌<◌, ◌≤◌, ◌↔◌, ◌⊎◌, inl, inr, refl, true, false, Bool, not, ◌&&◌, ◌||◌,
  sym, ◌∙◌, Option, none, some, List, [], ◌∷◌, String, arith, All, Option-cases, Bool-cases, ltb,
  if◌then◌else◌,
}
use projectree.Base.Text.{
  count_chars, drop_chars, find_text, is_prefix, contains, truthy, lookup_text,
}
use projectree.Validation.Evidence.{
  TextTools, SegmentInfo, Segments, Evidence, ResolvedEvidence, Problem, Checked, refused, found,
  exact, normalized, match_offsets, check_evidence, check_all, push_checked, resolve_item_evidence,
  or_empty, min_quote_chars, is_nil, settle, push_checked,
}

-- The first place where the text reads `p`.
abbrev pub IsFirst : String → String → ℕ → Type 0
IsFirst p s i =
    (is_prefix p (drop_chars i s) ≡ true) × ((j : ℕ) → j < i → is_prefix p (drop_chars j s) ≡ false)

found_here :
    (b : Bool) (rest : Option ℕ) → (if b then some 0 else Option.map suc rest) ≡ some 0 → b ≡ true
found_here true rest h = refl
found_here false none h = cc
found_here false (some n) h = ground arith

found_later :
    (b : Bool) (rest : Option ℕ) (i : ℕ)
    → (if b then some 0 else Option.map suc rest) ≡ some (suc i)
    → (b ≡ false) × (rest ≡ some i)
found_later true rest i h = absurd (ground arith)
found_later false none i h = cc
found_later false (some n) i h = (refl, ground arith)

find_text-IsFirst : (p s : String) (i : ℕ) → find_text p s ≡ some i → IsFirst p s i
find_text-IsFirst p String.[] zero h =
    (found_here (is_prefix p String.[]) none h, λ j k. elim k [ ])
find_text-IsFirst p String.[] (suc i) h =
    absurd (none_later (found_later (is_prefix p String.[]) none i h).1)
  where
    none_later : {i : ℕ} → ◌≡◌ {A = Option ℕ} none (some i) → ⊥
    none_later e = cc
find_text-IsFirst p (String.◌∷◌ c s) zero h =
    (found_here (is_prefix p (String.◌∷◌ c s)) (find_text p s) h, λ j k. elim k [ ])
find_text-IsFirst p (String.◌∷◌ c s) (suc i) h =
    let (here, rest) = found_later (is_prefix p (String.◌∷◌ c s)) (find_text p s) i h in
    let (at, before) = find_text-IsFirst p s i rest in (at, earlier here before)
  where
    earlier :
        {i : ℕ}
        → is_prefix p (String.◌∷◌ c s) ≡ false
        → ((j : ℕ) → j < i → is_prefix p (drop_chars j s) ≡ false)
        → (j : ℕ) → j < suc i
        → is_prefix p (drop_chars j (String.◌∷◌ c s)) ≡ false
    earlier here before zero k = here
    earlier here before (suc j) k = before j (omega arith)

module _ (tools : TextTools) where
  -- The text has the quote, literally or in normal form.
  abbrev pub reads_quote : String → String → Bool
  reads_quote quote text =
      contains quote text
      || (truthy (some (tools.normalize_quote quote))
          && contains (tools.normalize_quote quote) (tools.normalize_quote text))

  -- What the server checks of one entry: its segment is there, its stripped quote is long enough, and
  -- the segment reads the quote, literally or in normal form.
  pub record Supports (segments : Segments) (ev : Evidence) : Type 0 where
    pub segment_id : String
    pub info : SegmentInfo
    pub named : ev.segment_id ≡ some segment_id
    pub stored : lookup_text segment_id segments ≡ some info
    pub long_enough : min_quote_chars ≤ count_chars (tools.strip (or_empty ev.quote))
    pub reads : reads_quote (tools.strip (or_empty ev.quote)) info.text ≡ true

  abbrev is_found : Checked → Bool
  is_found (refused p) = false
  is_found (found r) = true

  settled :
      (segment_id quote : String) (info : SegmentInfo)
      → is_found (settle segment_id info (match_offsets tools quote info.text))
        ≡ reads_quote quote info.text
  unfolding match_offsets
  settled segment_id quote info = ground arith

  Supports-found :
      (segments : Segments) (ev : Evidence)
      → Supports segments ev
      → is_found (check_evidence tools segments ev) ≡ true
  unfolding check_evidence
  Supports-found segments ev s =
      let enough : ltb (count_chars (tools.strip (or_empty ev.quote))) min_quote_chars ≡ false =
        ground (arith, s.long_enough) in
      rw (s.named, s.stored, enough)
        (settled s.segment_id (tools.strip (or_empty ev.quote)) s.info ∙ s.reads)

  found-Supports :
      (segments : Segments) (ev : Evidence)
      → is_found (check_evidence tools segments ev) ≡ true
      → Supports segments ev
  unfolding check_evidence
  found-Supports segments ev h = elim (Option-cases ev.segment_id) [
    | inl e ↦ cc (rw (e) at h)
    | inr (id, e) ↦ elim (Option-cases (lookup_text id segments)) [
      | inl m ↦ cc (rw (e, m) at h)
      | inr (info, m) ↦
          elim (Bool-cases (ltb (count_chars (tools.strip (or_empty ev.quote))) min_quote_chars)) [
            | inl short ↦ cc (rw (e, m, short) at h)
            | inr long ↦ record {
              segment_id = id;
              info = info;
              named = e;
              stored = m;
              long_enough = ground (arith, long);
              reads =
                  sym (settled id (tools.strip (or_empty ev.quote)) info) ∙ (rw (e, m, long) at h);
            }
          ]
    ]
  ]

  nil_problems :
      (c : Checked) (ps : List Problem) (rs : List ResolvedEvidence)
      → is_nil (push_checked c (ps, rs)).0 ≡ (is_found c && is_nil ps)
  nil_problems (refused p) ps rs = refl
  nil_problems (found r) ps rs = refl

  some_resolved :
      (c : Checked) (ps : List Problem) (rs : List ResolvedEvidence)
      → is_found c ≡ true
      → is_nil (push_checked c (ps, rs)).1 ≡ false
  some_resolved (refused p) ps rs h = cc
  some_resolved (found r) ps rs h = refl

  All-found :
      (segments : Segments) (evidence : List Evidence)
      → (is_nil (check_all tools segments evidence).0 ≡ true) ↔ All (Supports segments) evidence
  unfolding check_all
  All-found segments [] = ((λ h. tt), (λ h. refl))
  All-found segments (ev ∷ evidence) =
      let split =
        nil_problems (check_evidence tools segments ev) (check_all tools segments evidence).0
          (check_all tools segments evidence).1 in
      (
        (λ h.
            let (f, n) =
              both (is_found (check_evidence tools segments ev))
                (is_nil (check_all tools segments evidence).0) (sym split ∙ h) in
            (found-Supports segments ev f, (All-found segments evidence).0 n)),
        (λ h.
            split ∙ joined (Supports-found segments ev h.0) ((All-found segments evidence).1 h.1)),
      )
    where
      both : (a b : Bool) → (a && b) ≡ true → (a ≡ true) × (b ≡ true)
      both a b h = ground arith

      joined : {a b : Bool} → a ≡ true → b ≡ true → (a && b) ≡ true
      joined p q = ground arith

  -- An item's evidence is valid exactly when there is some, and every entry names a stored segment with a
  -- stripped quote of at least ten characters that the segment has, literally or in normal form.
  pub resolve_item_evidence_valid :
      (segments : Segments) (evidence : List Evidence)
      → ((resolve_item_evidence tools segments evidence).valid ≡ true)
        ↔ ((is_nil evidence ≡ false) × All (Supports segments) evidence)
  unfolding resolve_item_evidence check_all
  resolve_item_evidence_valid segments [] = ((λ h. cc), (λ h. cc (h.0)))
  resolve_item_evidence_valid segments (ev ∷ evidence) = (
    (λ h. (
      refl,
      (All-found segments (ev ∷ evidence)).0
          (first (is_nil (check_all tools segments (ev ∷ evidence)).0) _ h),
    )),
    (λ h. second ((All-found segments (ev ∷ evidence)).1 h.1) (
        some_resolved (check_evidence tools segments ev) (check_all tools segments evidence).0
          (check_all tools segments evidence).1 (Supports-found segments ev h.1.0))),
  )
    where
      first : (a b : Bool) → (a && b) ≡ true → a ≡ true
      first a b h = ground arith

      second : {a b : Bool} → a ≡ true → b ≡ false → (a && not b) ≡ true
      second p q = ground arith

  -- What the offsets of a resolved entry say.
  abbrev pub PointsAt : Segments → Evidence → ResolvedEvidence → Type 0
  PointsAt segments ev r =
      (info : SegmentInfo) × (lookup_text r.segment_id segments ≡ some info)
      × (((r.how ≡ normalized) × (r.char_start ≡ none) × (r.char_end ≡ none))
          ⊎ ((i : ℕ) × (r.how ≡ exact)
              × (r.char_start ≡ some i)
              × (r.char_end ≡ some (i + count_chars (tools.strip (or_empty ev.quote))))
              × IsFirst (tools.strip (or_empty ev.quote)) info.text i))

  abbrev OnFound : (ResolvedEvidence → Type 0) → Checked → Type 0
  OnFound P (refused p) = Unit
  OnFound P (found r) = P r

  of_found :
      (P : ResolvedEvidence → Type 0) (c : Checked) (r : ResolvedEvidence)
      → OnFound P c
      → c ≡ found r
      → P r
  of_found P (refused p) r h e = cc
  of_found P (found q) r h e = subst P (same q r e) h
    where
      same : (q r : ResolvedEvidence) → found q ≡ found r → q ≡ r
      same q r e = cc

  settle_points :
      (segments : Segments) (ev : Evidence) (id : String) (info : SegmentInfo)
      → lookup_text id segments ≡ some info
      → OnFound
          (PointsAt segments ev)
          (settle id info (match_offsets tools (tools.strip (or_empty ev.quote)) info.text))
  unfolding match_offsets
  settle_points segments ev id info m =
      elim (Option-cases (find_text (tools.strip (or_empty ev.quote)) info.text)) [
        | inr (i, e) ↦
            rw (e, match_offsets)
              (
                info,
                m,
                inr (
                  i,
                  refl,
                  refl,
                  refl,
                  find_text-IsFirst (tools.strip (or_empty ev.quote)) info.text i e,
                ),
              )
        | inl e ↦
            elim (Bool-cases (
              truthy (some (tools.normalize_quote (tools.strip (or_empty ev.quote))))
              && contains (tools.normalize_quote (tools.strip (or_empty ev.quote)))
                  (tools.normalize_quote info.text))) [
                    | inl n ↦ rw (e, n, match_offsets) (info, m, inl (refl, refl, refl))
                    | inr n ↦ rw (e, n, match_offsets) tt
                  ]
      ]

  check_points :
      (segments : Segments) (ev : Evidence)
      → OnFound (PointsAt segments ev) (check_evidence tools segments ev)
  unfolding check_evidence
  check_points segments ev = elim (Option-cases ev.segment_id) [
    | inl e ↦ rw e tt
    | inr (id, e) ↦ elim (Option-cases (lookup_text id segments)) [
      | inl m ↦ rw (e, m) tt
      | inr (info, m) ↦
          elim (Bool-cases (ltb (count_chars (tools.strip (or_empty ev.quote))) min_quote_chars)) [
            | inl short ↦ rw (e, m, short) tt
            | inr long ↦ rw (e, m, long) (settle_points segments ev id info m)
          ]
    ]
  ]

  -- The offsets of a resolved entry point into the segment that it names: a literal match has the first
  -- place of the segment's text that reads the stripped quote, and the end of the quote there; a match
  -- in normal form has no offsets.
  pub check_evidence_offsets :
      (segments : Segments) (ev : Evidence) (r : ResolvedEvidence)
      → check_evidence tools segments ev ≡ found r
      → PointsAt segments ev r
  check_evidence_offsets segments ev r h =
      of_found (PointsAt segments ev) (check_evidence tools segments ev) r
        (check_points segments ev) h
