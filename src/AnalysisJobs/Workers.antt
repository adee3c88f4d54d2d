-- ===== src/AnalysisJobs/Workers.antt =====
-- Any number of analysis workers and of callers that enqueue, over one store.
pub mod Consistent
use projectree.Base.{ℕ, suc, ◌≡◌, ◌≢◌, ◌≤◌, Bool, Option, List, String, All}
use projectree.Outbox.{OutboxEvent}
use projectree.AnalysisJobs.{
  JobStore, enqueue_analysis_job, stored, claim_next_analysis_job, complete_analysis_job,
  fail_analysis_job,
}

-- The store and the tokens drawn.
pub record World : Type 0 where
  pub store : JobStore
  pub next_token : ℕ

-- Every worker is configured with one claim timeout. Outcomes may come late, twice, or never.
pub data Step (timeout : ℕ) : World → World → Type 0 where
  enqueue :
      (w : World) (now fresh : ℕ) (project_id meeting : String)
      (node_id node_version max_attempts : ℕ) (s : JobStore)
      → All (λ j. fresh ≢ j.id) w.store.jobs
      → 1 ≤ max_attempts
      → enqueue_analysis_job now fresh project_id meeting node_id node_version max_attempts w.store
        ≡ stored s
      → Step timeout w (record w { store = s })
  claim :
      (w : World) (now : ℕ) (locked : ℕ → Bool)
      → Step timeout w (record {
        store = record w.store {
          jobs = (claim_next_analysis_job now timeout locked w.next_token w.store.jobs).0;
        };
        next_token = suc w.next_token;
      })
  complete :
      (w : World) (now job_id token : ℕ) (run : Option ℕ)
      (on_session : List OutboxEvent → List OutboxEvent)
      → Step timeout w
          (record w { store = (complete_analysis_job now job_id token run on_session w.store).0 })
  fail :
      (w : World) (now job_id token : ℕ) (failure_code error : String) (retryable : Bool)
      (on_terminal_failure : List OutboxEvent → List OutboxEvent)
      → Step timeout w (record w {
        store =
            (fail_analysis_job now job_id token failure_code error retryable on_terminal_failure
              w.store).0;
      })

pub data Reach (timeout : ℕ) (w : World) : World → Type 0 where
  here : Reach timeout w w
  next : {u v : World} → Reach timeout w u → Step timeout u v → Reach timeout w v
