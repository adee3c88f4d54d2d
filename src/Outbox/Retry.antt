-- ===== src/Outbox/Retry.antt =====
-- The life of one event: an outcome is written once, and a poison event is dropped in the end.
use projectree.Base.{
  ltb_cong, lt_or_moved, ℕ, suc, ◌+◌, ◌≡◌, ◌<◌, refl, true, false, none, List, [], ◌∷◌, String,
  arith, length, any, if◌then◌else◌, any-map_none, find_of_none, inl, inr, Bool-cases, ltb, min,
  ◌⊎◌, ◌∙◌,
}
use native.Mathlib.Decide.{dec_lt}
use projectree.Base.Table.{update_where, update_where_absent, when}
use projectree.Outbox.{
  OutboxEvent, dead, is_open, claim_row, fail, succeed, owns, record_success, record_failure,
}

-- One attempt at an event whose delivery raises: the claim, and the failure recorded on it.
pub record Attempt : Type 0 where
  pub claimed_at : ℕ
  pub stall : ℕ
  pub token : ℕ
  pub failed_at : ℕ
  pub error : String

abbrev pub attempt : OutboxEvent → Attempt → OutboxEvent
attempt r a =
    if is_open r.status
    then fail a.failed_at a.error (claim_row a.claimed_at a.stall a.token r)
    else r

pub attempts : OutboxEvent → List Attempt → OutboxEvent
attempts r [] = r
attempts r (a ∷ rest) = attempts (attempt r a) rest

attempt_open :
    (r : OutboxEvent) (a : Attempt)
    → is_open r.status ≡ true
    → suc r.attempt_count < r.max_attempts
    → (is_open (attempt r a).status ≡ true)
      × ((attempt r a).attempt_count ≡ suc r.attempt_count)
      × ((attempt r a).max_attempts ≡ r.max_attempts)
attempt_open r a o h = ground arith

attempt_last :
    (r : OutboxEvent) (a : Attempt)
    → is_open r.status ≡ true
    → suc r.attempt_count ≡ r.max_attempts
    → ((attempt r a).status ≡ dead) × ((attempt r a).attempt_count ≡ r.max_attempts)
attempt_last r a o h = ground arith

attempts_dead : (r : OutboxEvent) (rest : List Attempt) → r.status ≡ dead → attempts r rest ≡ r
unfolding attempts
attempts_dead r [] d = refl
attempts_dead r (a ∷ rest) d =
    let fixed : attempt r a ≡ r = ground arith in rw fixed (attempts_dead r rest d)

-- An event that can never be delivered, claimed and failed again and again, is still open while its
-- failures are fewer than its attempts left, counts one attempt per failure up to `max_attempts`, and
-- is DEAD from then on: it cannot stall the relay for good.
pub poison_event_dies :
    (rest : List Attempt) (r : OutboxEvent)
    → is_open r.status ≡ true
    → r.attempt_count < r.max_attempts
    → (is_open (attempts r rest).status ≡ ltb (r.attempt_count + length rest) r.max_attempts)
      × ((attempts r rest).attempt_count ≡ min (r.attempt_count + length rest) r.max_attempts)
      × (((attempts r rest).status ≡ dead) ⊎ (r.attempt_count + length rest < r.max_attempts))
unfolding attempts
poison_event_dies [] r o h = (ground arith, omega arith, inr (omega arith))
poison_event_dies (a ∷ rest) r o h = elim (dec_lt (suc r.attempt_count) r.max_attempts) [
  | yes more ↦
      let (o', n, m) = attempt_open r a o more in
      let (ih, count, fate) = poison_event_dies rest (attempt r a) o' (omega arith) in
      let moved : (attempt r a).attempt_count + length rest ≡ r.attempt_count + suc (length rest) =
        omega arith in
      (ih ∙ ltb_cong moved m, omega arith, lt_or_moved fate moved m)
  | no last ↦
      let (d, n) = attempt_last r a o (omega arith) in
      let fixed = attempts_dead (attempt r a) rest d in
      (rw (fixed, d) (ground arith), rw fixed (omega arith), inl (rw fixed d))
]

-- A claim that owns no row writes nothing.
pub refused :
    (now event_id token : ℕ) (error : String) (rows : List OutboxEvent)
    → any (owns event_id token) rows ≡ false
    → (record_success now event_id token rows ≡ (rows, false))
      × (record_failure now event_id token error rows ≡ (rows, none))
unfolding record_success record_failure
refused now event_id token error rows h = (
  rw h,
  rw (
    update_where_absent (owns event_id token) (fail now error) rows h,
    find_of_none (owns event_id token) rows h,
  ),
)

write_releases :
    (event_id token : ℕ) (f : OutboxEvent → OutboxEvent) (rows : List OutboxEvent)
    → ((r : OutboxEvent) → owns event_id token (f r) ≡ false)
    → any (owns event_id token) (update_where (owns event_id token) f rows) ≡ false
write_releases event_id token f rows cleared =
    any-map_none (owns event_id token) (when (owns event_id token) f)
      (λ r. elim (Bool-cases (owns event_id token r)) [ inl e ↦ rw e (cleared r) | inr e ↦ rw e e ])
      rows

success_releases :
    (now event_id token : ℕ) (rows : List OutboxEvent)
    → any (owns event_id token) (record_success now event_id token rows).0 ≡ false
unfolding record_success
success_releases now event_id token rows = elim (Bool-cases (any (owns event_id token) rows)) [
  | inl e ↦ rw e (write_releases event_id token (succeed now) rows (λ r. ground arith))
  | inr e ↦ rw e e
]

-- Once an outcome of a claim is written, that claim writes no second one, early or late, of either
-- kind, and the table stays as the first outcome left it.
pub outcome_written_once :
    (now later event_id token : ℕ) (error : String) (rows : List OutboxEvent)
    → let after_success = (record_success now event_id token rows).0 in
      let after_failure = (record_failure now event_id token error rows).0 in
      (record_success later event_id token after_success ≡ (after_success, false))
      × (record_success later event_id token after_failure ≡ (after_failure, false))
      × (record_failure later event_id token error after_success ≡ (after_success, none))
      × (record_failure later event_id token error after_failure ≡ (after_failure, none))
unfolding record_failure
outcome_written_once now later event_id token error rows =
    let after_success = (record_success now event_id token rows).0 in
    let after_failure = (record_failure now event_id token error rows).0 in
    let (a, b) =
      refused later event_id token error after_success (success_releases now event_id token rows) in
    let (c, d) =
      refused later event_id token error after_failure
        (write_releases event_id token (fail now error) rows (λ r. ground arith)) in
    (a, c, b, d)
