-- ===== src/AnalysisJobs/Rows.antt =====
-- What holds of one analysis job between two transactions, and that every write keeps it.
use projectree.Base.{ℕ, ◌+◌, ◌≤◌, ◌<◌, ◌≡◌, Bool, Option, none, some, String, arith, suc}
use projectree.Claiming.{seconds}
use projectree.AnalysisJobs.{
  JobStatus, AnalysisJob, pending, running, requeue, new_job, claim_job, complete_job, fail_job,
}

-- A running job carries a token that was drawn, any other job none.
abbrev pub TokenFits : ℕ → JobStatus → Option ℕ → Type 0
TokenFits bound running (some t) = t < bound
TokenFits bound running none = ⊥
TokenFits bound _ none = Unit
TokenFits bound _ (some _) = ⊥

-- A running job is out of the claim window until its claim times out.
abbrev pub WindowFits : ℕ → JobStatus → Option ℕ → ℕ → Type 0
WindowFits timeout running (some c) available_at = available_at ≡ c + seconds timeout
WindowFits timeout running none available_at = ⊥
WindowFits timeout _ claimed_at available_at = Unit

pub record JobFits (timeout bound : ℕ) (j : AnalysisJob) : Type 0 where
  pub token_fits : TokenFits bound j.status j.claim_token
  pub window_fits : WindowFits timeout j.status j.claimed_at j.available_at
  pub has_attempts : 1 ≤ j.max_attempts
  pub pending_has_budget : j.status ≡ pending → j.attempt_count < j.max_attempts
  pub running_was_counted : j.status ≡ running → 1 ≤ j.attempt_count

module _ (timeout bound now : ℕ) where
  pub requeue-JobFits :
      (node_version : ℕ) (j : AnalysisJob)
      → JobFits timeout bound j
      → JobFits timeout bound (requeue now node_version j)
  requeue-JobFits node_version j f = ground arith

  pub new_job-JobFits :
      (fresh : ℕ) (project_id meeting : String) (node_id node_version max_attempts : ℕ)
      → 1 ≤ max_attempts
      → JobFits timeout bound
          (new_job now fresh project_id meeting node_id node_version max_attempts)
  new_job-JobFits fresh project_id meeting node_id node_version max_attempts h = ground arith

  pub claim_job-JobFits :
      (token : ℕ) (j : AnalysisJob)
      → token < bound
      → JobFits timeout bound j
      → JobFits timeout bound (claim_job now timeout token j)
  claim_job-JobFits token j h f = ground arith

  pub complete_job-JobFits :
      (run : Option ℕ) (j : AnalysisJob)
      → JobFits timeout bound j
      → JobFits timeout bound (complete_job now run j)
  complete_job-JobFits run j f = ground arith

  pub fail_job-JobFits :
      (failure_code error : String) (retryable : Bool) (j : AnalysisJob)
      → JobFits timeout bound j
      → JobFits timeout bound (fail_job now failure_code error retryable j)
  fail_job-JobFits failure_code error retryable j f = ground arith

pub JobFits-mono :
    (timeout b : ℕ) (j : AnalysisJob) → JobFits timeout b j → JobFits timeout (suc b) j
JobFits-mono timeout b j f = ground arith
