-- ===== src/AnalysisJobs.antt =====
-- Durable analysis jobs (data-pipeline/data_pipeline/jobs/analysis_jobs.py, with the row of
-- data-pipeline/data_pipeline/storage/models.py). Each function that opens a session is one
-- transaction; `enqueue_analysis_job` and the callbacks run inside the caller's.
pub mod Rows
pub mod Workers
pub mod Claims
pub mod Owned
pub mod Outcomes
mod Examples
use projectree.Base.{
  ℕ, ◌+◌, Bool, true, false, not, ◌&&◌, Option, none, some, List, [], ◌∷◌, ◌++◌, String, str_eq,
  any, find, keep, holds, if◌then◌else◌, ◌==◌, ltb, leb,
}
use projectree.Base.Sorting.{sort_by}
use projectree.Base.Table.{update_where}
use projectree.Base.Text.{take_chars}
use projectree.Claiming.{seconds, retry_delay, by_availability, claim_rows}
use projectree.Outbox.{OutboxEvent}

pub data JobStatus : Type 0 where
  pending running succeeded failed : JobStatus

pub record AnalysisJob : Type 0 where
  pub id : ℕ
  pub project_id : String
  pub external_meeting_id : String
  pub node_id : ℕ
  pub node_version : ℕ
  pub status : JobStatus
  pub attempt_count : ℕ
  pub max_attempts : ℕ
  pub claim_token : Option ℕ
  pub claimed_at : Option ℕ
  pub available_at : ℕ
  pub analysis_run_id : Option ℕ
  pub failure_code : Option String
  pub last_error : Option String
  pub created_at : ℕ
  pub updated_at : ℕ

-- The columns of a Node that these functions read.
pub record NodeKey : Type 0 where
  pub id : ℕ
  pub project_id : String

-- What a transaction of this module reads and writes.
pub record JobStore : Type 0 where
  pub nodes : List NodeKey
  pub jobs : List AnalysisJob
  pub events : List OutboxEvent

pub data EnqueueError : Type 0 where
  node_missing : EnqueueError  -- ValueError
  duplicate_node : EnqueueError  -- IntegrityError, of the flush

pub data EnqueueResult : Type 0 where
  stored : JobStore → EnqueueResult
  raised : EnqueueError → EnqueueResult

abbrev pub is_node_of : ℕ → String → NodeKey → Bool
is_node_of node_id project_id n = n.id == node_id && str_eq n.project_id project_id

abbrev pub is_job_of : ℕ → String → AnalysisJob → Bool
is_job_of node_id project_id j = j.node_id == node_id && str_eq j.project_id project_id

-- A newer Node version invalidates a finished job: it is queued again.
abbrev pub requeue : ℕ → ℕ → AnalysisJob → AnalysisJob
requeue now node_version job = record job {
  status = pending;
  node_version = node_version;
  attempt_count = 0;
  claim_token = none;
  claimed_at = none;
  available_at = now;
  failure_code = none;
  last_error = none;
  updated_at = now;
}

abbrev pub new_job : ℕ → ℕ → String → String → ℕ → ℕ → ℕ → AnalysisJob
new_job now fresh project_id external_meeting_id node_id node_version max_attempts = record {
  id = fresh;
  project_id = project_id;
  external_meeting_id = external_meeting_id;
  node_id = node_id;
  node_version = node_version;
  status = pending;
  attempt_count = 0;
  max_attempts = max_attempts;
  claim_token = none;
  claimed_at = none;
  available_at = now;
  analysis_run_id = none;
  failure_code = none;
  last_error = none;
  created_at = now;
  updated_at = now;
}

-- `fresh` is the identifier of a new row. The flush raises IntegrityError where uq_analysis_job_node
-- is violated.
unfoldable pub enqueue_analysis_job : ℕ → ℕ → String → String → ℕ → ℕ → ℕ → JobStore → EnqueueResult
enqueue_analysis_job now fresh project_id external_meeting_id node_id node_version max_attempts s =
    if any (is_node_of node_id project_id) s.nodes
    then if any (is_job_of node_id project_id) s.jobs
      then stored (record s {
        jobs = update_where (is_job_of node_id project_id) (requeue now node_version) s.jobs;
      })
      else if any (λ j. j.node_id == node_id) s.jobs
      then raised duplicate_node
      else stored (record s {
        jobs =
            s.jobs
            ++ new_job now fresh project_id external_meeting_id node_id node_version max_attempts
              ∷ [];
      })
    else raised node_missing

pub record ClaimedAnalysisJob : Type 0 where
  pub job_id : ℕ
  pub project_id : String
  pub external_meeting_id : String
  pub node_id : ℕ
  pub node_version : ℕ
  pub attempt : ℕ
  pub claim_token : ℕ

abbrev pub is_running : JobStatus → Bool
is_running running = true
is_running _ = false

-- status IN (PENDING, RUNNING)
abbrev pub is_open : JobStatus → Bool
is_open pending = true
is_open running = true
is_open _ = false

-- The WHERE clause of the claim.
abbrev pub is_due : ℕ → AnalysisJob → Bool
is_due now job = is_open job.status && leb job.available_at now

abbrev pub claim_order : AnalysisJob → AnalysisJob → Bool
claim_order = by_availability (λ j. j.available_at) (λ j. j.created_at)

abbrev pub claim_limit : ℕ
claim_limit = 10

-- `claimed_at > now - timeout`, without the subtraction.
abbrev pub claimed_since : ℕ → ℕ → Option ℕ → Bool
claimed_since now timeout none = false
claimed_since now timeout (some t) = ltb now (t + seconds timeout)

-- A RUNNING row that a live worker still owns.
abbrev pub is_live : ℕ → ℕ → AnalysisJob → Bool
is_live now timeout job = is_running job.status && claimed_since now timeout job.claimed_at

unfoldable pub select_due : ℕ → (ℕ → Bool) → List AnalysisJob → List AnalysisJob
unfolding claim_rows
select_due now locked jobs =
    claim_rows (λ j. j.id) locked claim_limit (sort_by claim_order (keep (is_due now) jobs))

abbrev pub claim_job : ℕ → ℕ → ℕ → AnalysisJob → AnalysisJob
claim_job now timeout token job = record job {
  status = running;
  attempt_count = job.attempt_count + 1;
  claim_token = some token;
  claimed_at = some now;
  available_at = now + seconds timeout;
  updated_at = now;
}

abbrev pub handle : ℕ → AnalysisJob → ClaimedAnalysisJob
handle token job = record {
  job_id = job.id;
  project_id = job.project_id;
  external_meeting_id = job.external_meeting_id;
  node_id = job.node_id;
  node_version = job.node_version;
  attempt = job.attempt_count + 1;
  claim_token = token;
}

abbrev pub take_first :
    ℕ → ℕ → ℕ → List AnalysisJob → Option AnalysisJob → List AnalysisJob × Option ClaimedAnalysisJob
take_first now timeout token jobs none = (jobs, none)
take_first now timeout token jobs (some job) =
    (update_where (λ j. j.id == job.id) (claim_job now timeout token) jobs, some (handle token job))

-- The first selected row that no live worker owns is taken.
unfoldable pub claim_next_analysis_job :
    ℕ → ℕ → (ℕ → Bool) → ℕ → List AnalysisJob → List AnalysisJob × Option ClaimedAnalysisJob
unfolding select_due
claim_next_analysis_job now timeout locked token jobs =
    take_first now timeout token jobs
      (find (λ j. not (is_live now timeout j)) (select_due now locked jobs))

-- `_owned`
abbrev pub owned : ℕ → ℕ → AnalysisJob → Bool
owned job_id token job = job.id == job_id && (holds job.claim_token token && is_running job.status)

abbrev pub complete_job : ℕ → Option ℕ → AnalysisJob → AnalysisJob
complete_job now run job = record job {
  status = succeeded;
  analysis_run_id = run;
  claim_token = none;
  failure_code = none;
  last_error = none;
  updated_at = now;
}

-- `on_session` stages outbox events in the transaction that completes the job.
unfoldable pub complete_analysis_job :
    ℕ → ℕ → ℕ → Option ℕ → (List OutboxEvent → List OutboxEvent) → JobStore → JobStore × Bool
complete_analysis_job now job_id token run on_session s =
    if any (owned job_id token) s.jobs
    then (
      record s {
        jobs = update_where (owned job_id token) (complete_job now run) s.jobs;
        events = on_session s.events;
      },
      true,
    )
    else (s, false)

-- `retryable and job.attempt_count < job.max_attempts`
abbrev pub retries : Bool → AnalysisJob → Bool
retries retryable job = retryable && ltb job.attempt_count job.max_attempts

abbrev pub fail_job : ℕ → String → String → Bool → AnalysisJob → AnalysisJob
fail_job now failure_code error retryable job =
    let marked = record job {
      claim_token = none;
      failure_code = some (take_chars 128 failure_code);
      last_error = some (take_chars 2000 error);
      updated_at = now;
    } in
    if retries retryable job
    then record marked { status = pending; available_at = now + retry_delay job.attempt_count }
    else record marked { status = failed }

abbrev pub is_failed : JobStatus → Bool
is_failed failed = true
is_failed _ = false

abbrev record_fate :
    ℕ
    → ℕ
    → ℕ
    → String
    → String
    → Bool
    → (List OutboxEvent → List OutboxEvent)
    → JobStore
    → Option AnalysisJob
    → JobStore × Option JobStatus
record_fate now job_id token failure_code error retryable on_terminal_failure s none = (s, none)
record_fate now job_id token failure_code error retryable on_terminal_failure s (some job) =
    let status = (fail_job now failure_code error retryable job).status in
    (
      record s {
        jobs = update_where (owned job_id token) (fail_job now failure_code error retryable) s.jobs;
        events = if is_failed status then on_terminal_failure s.events else s.events;
      },
      some status,
    )

-- The resulting status; `none` stands for "UNOWNED".
unfoldable pub fail_analysis_job :
    ℕ
    → ℕ
    → ℕ
    → String
    → String
    → Bool
    → (List OutboxEvent → List OutboxEvent)
    → JobStore
    → JobStore × Option JobStatus
fail_analysis_job now job_id token failure_code error retryable on_terminal_failure s =
    record_fate now job_id token failure_code error retryable on_terminal_failure s
      (find (owned job_id token) s.jobs)
