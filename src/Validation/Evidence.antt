-- ===== src/Validation/Evidence.antt =====
-- Evidence of one item (data-pipeline/data_pipeline/validation/evidence.py): a quote counts only if
-- the server finds it in the transcript segment that it names.
pub mod Sound
use mathlib.Core.Option
use projectree.Base.{
  ℕ, ◌+◌, Bool, true, false, not, ◌&&◌, ◌||◌, Option, none, some, List, [], ◌∷◌, String, ltb, ◌==◌,
  if◌then◌else◌,
}
use projectree.Base.Sorting.{sort_by}
use projectree.Base.Text.{count_chars, find_text, contains, text_leb, truthy, lookup_text}

-- `str.strip`, and the quote's normal form of validation/normalize.py (NFKC and folded white space).
pub record TextTools : Type 0 where
  pub strip : String → String
  pub normalize_quote : String → String

abbrev pub min_quote_chars : ℕ
min_quote_chars = 10

pub record SegmentInfo : Type 0 where
  pub text : String
  pub start_ms : Option ℕ

abbrev pub Segments : Type 0
Segments = List (String × SegmentInfo)

-- One entry of an item's `evidence`, as the model sent it.
pub record Evidence : Type 0 where
  pub segment_id : Option String
  pub quote : Option String

pub data Match : Type 0 where
  exact normalized invalid : Match

pub record ResolvedEvidence : Type 0 where
  pub segment_id : String
  pub start_ms : Option ℕ
  pub char_start : Option ℕ
  pub char_end : Option ℕ
  pub how : Match

pub data Problem : Type 0 where
  no_evidence : Problem
  missing_segment : Option String → Problem
  quote_too_short quote_not_in : String → Problem

-- The absent start sorts last: 2_147_483_647
abbrev pub start_or_last : Option ℕ → ℕ
start_or_last none = 2147483647
start_or_last (some n) = n

-- key=(start_ms or 2_147_483_647, segment_id)
abbrev pub by_time : ResolvedEvidence → ResolvedEvidence → Bool
by_time a b =
    ltb (start_or_last a.start_ms) (start_or_last b.start_ms)
    || (start_or_last a.start_ms == start_or_last b.start_ms && text_leb a.segment_id b.segment_id)

pub record EvidenceResolution : Type 0 where
  pub valid : Bool
  pub problems : List Problem
  pub resolved : List ResolvedEvidence
  pub earliest_start_ms : Option ℕ
  pub earliest_segment_id : Option String

abbrev pub or_empty : Option String → String
or_empty none = ""
or_empty (some s) = s

-- What one entry of the evidence comes to.
pub data Checked : Type 0 where
  refused : Problem → Checked
  found : ResolvedEvidence → Checked

abbrev settle : String → SegmentInfo → Match × Option ℕ × Option ℕ → Checked
settle segment_id info (invalid, s, e) = refused (quote_not_in segment_id)
settle segment_id info (how, s, e) = found (record {
  segment_id = segment_id;
  start_ms = info.start_ms;
  char_start = s;
  char_end = e;
  how = how;
})

abbrev find_segment : Segments → Option String → Option (String × SegmentInfo)
find_segment segments none = none
find_segment segments (some id) = Option.map (λ info. (id, info)) (lookup_text id segments)

abbrev push_checked :
    Checked → List Problem × List ResolvedEvidence → List Problem × List ResolvedEvidence
push_checked (refused p) (problems, resolved) = (p ∷ problems, resolved)
push_checked (found r) (problems, resolved) = (problems, r ∷ resolved)

abbrev pub earliest : List ResolvedEvidence → Option ResolvedEvidence
earliest resolved = elim (sort_by by_time resolved) [ [] ↦ none | r ∷ rest ↦ some r ]

abbrev pub start_of : Option ResolvedEvidence → Option ℕ
start_of none = none
start_of (some r) = r.start_ms

abbrev pub segment_of : Option ResolvedEvidence → Option String
segment_of none = none
segment_of (some r) = some r.segment_id

abbrev pub is_nil {ℓ} : {A : Type ℓ} → List A → Bool
is_nil [] = true
is_nil (x ∷ xs) = false

module _ (tools : TextTools) where
  open tools use {strip, normalize_quote}

  -- `_match_offsets`
  unfoldable pub match_offsets : String → String → Match × Option ℕ × Option ℕ
  match_offsets quote text = elim (find_text quote text) [
    | some idx ↦ (exact, some idx, some (idx + count_chars quote))
    | none ↦
        if truthy (some (normalize_quote quote))
          && contains (normalize_quote quote) (normalize_quote text)
        then (normalized, none, none)
        else (invalid, none, none)
  ]

  abbrev check_in : Option String → String → Option (String × SegmentInfo) → Checked
  check_in id quote none = refused (missing_segment id)
  check_in id quote (some (segment_id, info)) =
      if ltb (count_chars quote) min_quote_chars
      then refused (quote_too_short segment_id)
      else settle segment_id info (match_offsets quote info.text)

  -- The body of the loop over the evidence.
  unfoldable pub check_evidence : Segments → Evidence → Checked
  unfolding match_offsets
  check_evidence segments ev =
      check_in ev.segment_id (strip (or_empty ev.quote)) (find_segment segments ev.segment_id)

  -- The loop: its two lists, in the order of the evidence.
  unfoldable pub check_all : Segments → List Evidence → List Problem × List ResolvedEvidence
  unfolding check_evidence
  check_all segments [] = ([], [])
  check_all segments (ev ∷ evidence) =
      push_checked (check_evidence segments ev) (check_all segments evidence)

  -- `resolve_item_evidence`, of the item's evidence.
  unfoldable pub resolve_item_evidence : Segments → List Evidence → EvidenceResolution
  unfolding check_all
  resolve_item_evidence segments [] = record {
    valid = false;
    problems = no_evidence ∷ [];
    resolved = [];
    earliest_start_ms = none;
    earliest_segment_id = none;
  }
  resolve_item_evidence segments (ev ∷ evidence) =
      let (problems, resolved) = check_all segments (ev ∷ evidence) in
      record {
        valid = is_nil problems && not (is_nil resolved);
        problems = problems;
        resolved = resolved;
        earliest_start_ms = start_of (earliest resolved);
        earliest_segment_id = segment_of (earliest resolved);
      }
