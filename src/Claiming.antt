-- ===== src/Claiming.antt =====
-- Row claiming shared by the workers (data-pipeline/data_pipeline/jobs/claiming.py).
-- An instant is the number of microseconds since the epoch, so that a `timedelta` is a number too.
pub mod Backoff
pub mod Order
use projectree.Base.{
  ℕ, ◌-◌, ◌*◌, ◌^◌, Bool, Option, none, some, not, ◌&&◌, ◌||◌, List, min, ltb, leb, ◌==◌,
  if◌then◌else◌, take, keep,
}

-- `timedelta(seconds=n)`
abbrev pub seconds : ℕ → ℕ
seconds n = n * 1000000

-- Cap so that repeated failures cannot push the next attempt years into the future.
abbrev pub max_backoff_seconds : ℕ
max_backoff_seconds = 3600

-- `base_seconds` is a number of microseconds, and the delay is one. The doubling is exact in the
-- source's floats, but 2 ** (attempt_count - 1) is an integer that a float holds only below 2 ** 1024:
-- `none` is the OverflowError of a later attempt.
unfoldable pub backoff_delay : ℕ → ℕ → Option ℕ
backoff_delay attempt_count base =
    if ltb attempt_count 1
    then some 0
    else if ltb 1024 attempt_count
    then none
    else some (min (base * 2 ^ (attempt_count - 1)) (seconds max_backoff_seconds))

-- The default of `base_seconds`
abbrev pub default_base : ℕ
default_base = seconds 2

-- The delay of a row that goes back to its queue. Its attempts are fewer than its `max_attempts`, 8 for
-- an event and 3 for a job, so the error is out of reach; a row that allows more than 1024 attempts
-- is outside of the model.
abbrev delay_of : Option ℕ → ℕ
delay_of none = 0
delay_of (some delay) = delay

abbrev pub retry_delay : ℕ → ℕ
retry_delay attempt_count = delay_of (backoff_delay attempt_count default_base)

-- ORDER BY available_at, created_at
abbrev pub by_availability : {Row : Type 0} → (Row → ℕ) → (Row → ℕ) → Row → Row → Bool
by_availability available_at created_at a b =
    ltb (available_at a) (available_at b)
    || (available_at a == available_at b && leb (created_at a) (created_at b))

-- The first `limit` rows of the statement that no other transaction holds: `locked` says which rows
-- SKIP LOCKED passes over (none of them on SQLite).
unfoldable pub claim_rows : {Row : Type 0} → (Row → ℕ) → (ℕ → Bool) → ℕ → List Row → List Row
claim_rows id locked limit statement = take limit (keep (λ r. not (locked (id r))) statement)
