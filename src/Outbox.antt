-- ===== src/Outbox.antt =====
-- The transactional outbox and its relay (data-pipeline/data_pipeline/jobs/outbox.py, with the row of
-- data-pipeline/data_pipeline/storage/models.py). Each function that opens a session is one
-- transaction: the table before it to the table after it.
pub mod Rows
pub mod Batch
pub mod Relay
pub mod Counts
pub mod Queue
pub mod Retry
mod Examples
use projectree.Base.{
  ℕ, suc, ◌+◌, Bool, true, false, ◌&&◌, Option, none, some, List, [], ◌∷◌, ◌++◌, String, str_eq,
  if◌then◌else◌, ◌==◌, leb, any, keep, find, holds, length,
}
use projectree.Base.Sorting.{sort_by}
use projectree.Base.Table.{update_where}
use projectree.Base.Json.{Json}
use projectree.Base.Text.{take_chars}
use projectree.Claiming.{seconds, retry_delay, by_availability, claim_rows}

pub data OutboxStatus : Type 0 where
  pending publishing published dead : OutboxStatus

pub record OutboxEvent : Type 0 where
  pub id : ℕ
  pub event_type : String
  pub aggregate_type : String
  pub aggregate_id : String
  pub project_id : String
  pub schema_version : String
  pub payload : Json
  pub status : OutboxStatus
  pub created_at : ℕ
  pub attempt_count : ℕ
  pub max_attempts : ℕ
  pub available_at : ℕ
  pub claim_token : Option ℕ
  pub claimed_at : Option ℕ
  pub published_at : Option ℕ
  pub last_error : Option String

-- One envelope handed to a transport.
pub record OutboxMessage : Type 0 where
  pub event_id : ℕ
  pub event_type : String
  pub aggregate_type : String
  pub aggregate_id : String
  pub project_id : String
  pub schema_version : String
  pub occurred_at : ℕ
  pub payload : Json

-- `_to_message`
unfoldable pub to_message : OutboxEvent → OutboxMessage
to_message row = record {
  event_id = row.id;
  event_type = row.event_type;
  aggregate_type = row.aggregate_type;
  aggregate_id = row.aggregate_id;
  project_id = row.project_id;
  schema_version = row.schema_version;
  occurred_at = row.created_at;
  payload = row.payload;
}

-- PIPELINE_EVENT_TYPES
unfoldable pub is_pipeline_event_type : String → Bool
is_pipeline_event_type t = any (str_eq t) (
    "INITIAL_REVIEW_READY" ∷ "ANALYSIS_QUEUED" ∷ "FINAL_REVIEW_READY" ∷ "PIPELINE_COMPLETED"
    ∷ "PIPELINE_FAILED" ∷ "MEETING_SUMMARY_READY" ∷ [])

abbrev pub default_max_attempts : ℕ
default_max_attempts = 8

-- The row that `emit_outbox_event` stages. `fresh` is its identifier, drawn by the column's default.
abbrev pub new_event : ℕ → ℕ → String → String → String → String → Json → OutboxEvent
new_event now fresh event_type aggregate_type aggregate_id project_id payload = record {
  id = fresh;
  event_type = event_type;
  aggregate_type = aggregate_type;
  aggregate_id = aggregate_id;
  project_id = project_id;
  schema_version = "v2.2";
  payload = payload;
  status = pending;
  created_at = now;
  attempt_count = 0;
  max_attempts = default_max_attempts;
  available_at = now;
  claim_token = none;
  claimed_at = none;
  published_at = none;
  last_error = none;
}

-- The table after `emit_outbox_event`, or `none` where it raises ValueError.
unfoldable pub emit_outbox_event :
    ℕ → ℕ → String → String → String → String → Json → List OutboxEvent → Option (List OutboxEvent)
unfolding is_pipeline_event_type
emit_outbox_event now fresh event_type aggregate_type aggregate_id project_id payload rows =
    if is_pipeline_event_type event_type
    then some
        (rows ++ new_event now fresh event_type aggregate_type aggregate_id project_id payload ∷ [])
    else none

abbrev pub is_publishing : OutboxStatus → Bool
is_publishing publishing = true
is_publishing _ = false

-- status IN (PENDING, PUBLISHING)
abbrev pub is_open : OutboxStatus → Bool
is_open pending = true
is_open publishing = true
is_open _ = false

-- The optional filter `schema_version IN schema_versions`.
abbrev pub schema_allowed : Option (List String) → String → Bool
schema_allowed none v = true
schema_allowed (some versions) v = any (str_eq v) versions

-- The WHERE clause of the claim.
abbrev pub is_claimable : ℕ → Option (List String) → OutboxEvent → Bool
is_claimable now versions row =
    is_open row.status && (leb row.available_at now && schema_allowed versions row.schema_version)

abbrev pub claim_order : OutboxEvent → OutboxEvent → Bool
claim_order = by_availability (λ r. r.available_at) (λ r. r.created_at)

-- The rows that one claim takes, in order.
unfoldable pub select_claimable :
    ℕ → Option (List String) → (ℕ → Bool) → ℕ → List OutboxEvent → List OutboxEvent
unfolding claim_rows
select_claimable now versions locked batch_size rows =
    claim_rows (λ r. r.id) locked batch_size
      (sort_by claim_order (keep (is_claimable now versions) rows))

-- The claim of one row: a claimant's handle on it.
pub record Claim : Type 0 where
  pub event_id : ℕ
  pub claim_token : ℕ
  pub message : OutboxMessage

-- The body of the claim loop, on the claimed row.
abbrev pub claim_row : ℕ → ℕ → ℕ → OutboxEvent → OutboxEvent
claim_row now stall token row = record row {
  status = publishing;
  claim_token = some token;
  claimed_at = some now;
  available_at = now + seconds stall;
}

-- The claim loop. `uuid4` never repeats a value: the tokens are drawn from a counter.
unfoldable pub claim_each :
    ℕ → ℕ → ℕ → List OutboxEvent → List OutboxEvent → List OutboxEvent × List Claim
claim_each now stall token [] rows = (rows, [])
claim_each now stall token (row ∷ selected) rows =
    let (rows', claims) =
      claim_each now stall (suc token) selected
        (update_where (λ r. r.id == row.id) (claim_row now stall token) rows) in
    (rows', record { event_id = row.id; claim_token = token; message = to_message row } ∷ claims)

-- The first transaction of `publish_pending_events`.
unfoldable pub claim_batch :
    ℕ
    → ℕ
    → Option (List String)
    → (ℕ → Bool)
    → ℕ
    → ℕ
    → List OutboxEvent
    → List OutboxEvent × List Claim
unfolding claim_each select_claimable to_message
claim_batch now stall versions locked batch_size token rows =
    claim_each now stall token (select_claimable now versions locked batch_size rows) rows

-- id = event_id AND status = PUBLISHING AND claim_token = token
abbrev pub owns : ℕ → ℕ → OutboxEvent → Bool
owns event_id token row =
    row.id == event_id && (is_publishing row.status && holds row.claim_token token)

abbrev pub succeed : ℕ → OutboxEvent → OutboxEvent
succeed now row = record row {
  status = published;
  claim_token = none;
  published_at = some now;
  attempt_count = row.attempt_count + 1;
  last_error = none;
}

-- `_record_success`: only the worker that still holds the claim may write the outcome.
unfoldable pub record_success : ℕ → ℕ → ℕ → List OutboxEvent → List OutboxEvent × Bool
record_success now event_id token rows =
    if any (owns event_id token) rows
    then (update_where (owns event_id token) (succeed now) rows, true)
    else (rows, false)

-- A failed attempt; a poison event stops being retried. `error` is the rendered exception.
abbrev pub fail : ℕ → String → OutboxEvent → OutboxEvent
fail now error row =
    let tried = record row {
      attempt_count = row.attempt_count + 1;
      last_error = some (take_chars 2000 error);
      claim_token = none;
    } in
    if leb tried.max_attempts tried.attempt_count
    then record tried { status = dead }
    else record tried { status = pending; available_at = now + retry_delay tried.attempt_count }

-- The status of the row that the failure was recorded on, `none` where the worker owns no row.
abbrev failed_status : ℕ → String → Option OutboxEvent → Option OutboxStatus
failed_status now error none = none
failed_status now error (some row) = some (fail now error row).status

-- `_record_failure`
unfoldable pub record_failure :
    ℕ → ℕ → ℕ → String → List OutboxEvent → List OutboxEvent × Option OutboxStatus
record_failure now event_id token error rows = (
  update_where (owns event_id token) (fail now error) rows,
  failed_status now error (find (owns event_id token) rows),
)

-- What a worker's loop has done so far. `sent` is the transport's own record of the deliveries.
pub record Progress : Type 0 where
  pub rows : List OutboxEvent
  pub sent : List OutboxMessage
  pub published : ℕ
  pub failed : ℕ
  pub dead : ℕ

abbrev pub count_failure : Option OutboxStatus → Progress → Progress
count_failure (some dead) p = record p { dead = p.dead + 1 }
count_failure (some pending) p = record p { failed = p.failed + 1 }
count_failure _ p = p

abbrev pub count_success : Bool → Progress → Progress
count_success true p = record p { published = p.published + 1 }
count_success false p = p

-- The transport and the clock, at each call of the loop: the error of a delivery that raises, and
-- the instant at which its outcome is recorded.
pub record Environment : Type 0 where
  pub publish : OutboxMessage → Option String
  pub clock : Claim → ℕ

abbrev settle : ℕ → Claim → Option String → Progress → Progress
settle now c none p =
    let (rows', done) = record_success now c.event_id c.claim_token p.rows in
    count_success done (record p { rows = rows'; sent = p.sent ++ c.message ∷ [] })
settle now c (some error) p =
    let (rows', outcome) = record_failure now c.event_id c.claim_token error p.rows in
    count_failure outcome (record p { rows = rows' })

-- One claimed event: deliver it and record the outcome.
unfoldable pub publish_one : Environment → Claim → Progress → Progress
publish_one env c p = settle (env.clock c) c (env.publish c.message) p

unfoldable pub publish_each : Environment → List Claim → Progress → Progress
publish_each env [] p = p
publish_each env (c ∷ claims) p = publish_each env claims (publish_one env c p)

pub record PublishResult : Type 0 where
  pub claimed : ℕ
  pub published : ℕ
  pub failed : ℕ
  pub dead : ℕ

-- The outcome of `if not schema_versions: raise ValueError`.
abbrev pub no_versions : Option (List String) → Bool
no_versions (some []) = true
no_versions _ = false

abbrev pub idle : List OutboxEvent → Progress
idle rows = record { rows = rows; sent = []; published = 0; failed = 0; dead = 0 }

-- `publish_pending_events`: the table afterwards, the deliveries made and the counts returned;
-- `none` where it raises ValueError, with the transaction rolled back.
unfoldable pub publish_pending_events :
    Environment
    → ℕ
    → ℕ
    → Option (List String)
    → (ℕ → Bool)
    → ℕ
    → ℕ
    → List OutboxEvent
    → Option (List OutboxEvent × List OutboxMessage × PublishResult)
unfolding publish_each claim_batch
publish_pending_events env now stall versions locked batch_size token rows =
    let (claimed_rows, claims) = claim_batch now stall versions locked batch_size token rows in
    let done = publish_each env claims (idle claimed_rows) in
    if no_versions versions
    then none
    else some (
      done.rows,
      done.sent,
      record {
        claimed = length claims;
        published = done.published;
        failed = done.failed;
        dead = done.dead;
      },
    )
