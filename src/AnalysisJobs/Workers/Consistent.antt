-- ===== src/AnalysisJobs/Workers/Consistent.antt =====
-- The invariant of the job table, kept by every step of every worker.
use mathlib.Core.Path.{subst}
use projectree.Base.{
  ℕ, suc, ◌≡◌, ◌≢◌, ◌≤◌, false, Bool, Option, List, [], ◌∷◌, ◌++◌, String, arith, inl, inr, any,
  find, Bool-cases, Option-cases, All, All-imp, All-append, All-of_none, ◌==◌, not,
}
use projectree.Base.Table.{
  All-update_where, UniqueBy, UniqueBy-map, update_where, when, UniqueBy-concat,
}
use projectree.Outbox.{OutboxEvent}
use projectree.AnalysisJobs.{
  AnalysisJob, JobStore, EnqueueResult, NodeKey, stored, raised, is_live, is_job_of, is_node_of,
  new_job, requeue, select_due, claim_job, owned, complete_job, fail_job, enqueue_analysis_job,
  claim_next_analysis_job, complete_analysis_job, fail_analysis_job,
}
use projectree.AnalysisJobs.Rows.{
  JobFits, JobFits-mono, requeue-JobFits, new_job-JobFits, claim_job-JobFits, complete_job-JobFits,
  fail_job-JobFits,
}
use projectree.AnalysisJobs.Workers.{World, Step, enqueue, claim, complete, fail, Reach, here, next}

-- One row per job and per Node, and each row fits.
pub record IsConsistent (timeout bound : ℕ) (jobs : List AnalysisJob) : Type 0 where
  pub ids_unique : UniqueBy (λ j. j.id) jobs
  pub nodes_unique : UniqueBy (λ j. j.node_id) jobs
  pub jobs_fit : All (JobFits timeout bound) jobs

module _ (timeout bound : ℕ) (p : AnalysisJob → Bool) (f : AnalysisJob → AnalysisJob) where
  -- An UPDATE whose write keeps the row's keys and fits.
  update-IsConsistent :
      (jobs : List AnalysisJob)
      → ((j : AnalysisJob) → (when p f j).id ≡ j.id)
      → ((j : AnalysisJob) → (when p f j).node_id ≡ j.node_id)
      → ((j : AnalysisJob) → JobFits timeout bound j → JobFits timeout bound (f j))
      → IsConsistent timeout bound jobs
      → IsConsistent timeout bound (update_where p f jobs)
  update-IsConsistent jobs ids nodes fits s = record {
    ids_unique = UniqueBy-map (λ j. j.id) (when p f) ids jobs s.ids_unique;
    nodes_unique = UniqueBy-map (λ j. j.node_id) (when p f) nodes jobs s.nodes_unique;
    jobs_fit =
        All-update_where (JobFits timeout bound) (JobFits timeout bound) p f (λ j e h. fits j h)
          (λ j e h. h) jobs s.jobs_fit;
  }

IsConsistent-mono :
    (timeout bound : ℕ) (jobs : List AnalysisJob)
    → IsConsistent timeout bound jobs
    → IsConsistent timeout (suc bound) jobs
IsConsistent-mono timeout bound jobs s = record {
  ids_unique = s.ids_unique;
  nodes_unique = s.nodes_unique;
  jobs_fit =
      All-imp (JobFits timeout bound) (JobFits timeout (suc bound)) (JobFits-mono timeout bound)
        jobs s.jobs_fit;
}

claim_next-IsConsistent :
    (timeout now : ℕ) (locked : ℕ → Bool) (bound : ℕ) (jobs : List AnalysisJob)
    → IsConsistent timeout bound jobs
    → IsConsistent timeout (suc bound) (claim_next_analysis_job now timeout locked bound jobs).0
unfolding claim_next_analysis_job
claim_next-IsConsistent timeout now locked bound jobs s =
    elim (Option-cases (find (λ j. not (is_live now timeout j)) (select_due now locked jobs))) [
      | inl e ↦ rw e (IsConsistent-mono timeout bound jobs s)
      | inr (job, e) ↦ rw e (
          update-IsConsistent timeout (suc bound) (λ j. j.id == job.id)
            (claim_job now timeout bound) jobs (λ j. ground arith) (λ j. ground arith)
            (λ j h. claim_job-JobFits timeout (suc bound) now bound j (omega arith) h)
            (IsConsistent-mono timeout bound jobs s))
    ]

complete-IsConsistent :
    (timeout bound now job_id token : ℕ) (run : Option ℕ) (cb : List OutboxEvent → List OutboxEvent)
    (s : JobStore)
    → IsConsistent timeout bound s.jobs
    → IsConsistent timeout bound (complete_analysis_job now job_id token run cb s).0.jobs
unfolding complete_analysis_job
complete-IsConsistent timeout bound now job_id token run cb s h =
    elim (Bool-cases (any (owned job_id token) s.jobs)) [
      | inl e ↦ rw e (
          update-IsConsistent timeout bound (owned job_id token) (complete_job now run) s.jobs
            (λ j. ground arith) (λ j. ground arith) (complete_job-JobFits timeout bound now run) h)
      | inr e ↦ rw e h
    ]

fail-IsConsistent :
    (timeout bound now job_id token : ℕ) (code error : String) (retryable : Bool)
    (cb : List OutboxEvent → List OutboxEvent) (s : JobStore)
    → IsConsistent timeout bound s.jobs
    → IsConsistent timeout bound
        (fail_analysis_job now job_id token code error retryable cb s).0.jobs
unfolding fail_analysis_job
fail-IsConsistent timeout bound now job_id token code error retryable cb s h =
    elim (Option-cases (find (owned job_id token) s.jobs)) [
      | inl e ↦ rw e h
      | inr (job, e) ↦ rw e (
          update-IsConsistent timeout bound (owned job_id token) (fail_job now code error retryable)
            s.jobs (λ j. ground arith) (λ j. ground arith)
            (fail_job-JobFits timeout bound now code error retryable) h)
    ]

new_job-IsConsistent :
    (timeout bound : ℕ) (j : AnalysisJob) (jobs : List AnalysisJob)
    → All (λ k. j.id ≢ k.id) jobs
    → any (λ k. k.node_id == j.node_id) jobs ≡ false
    → JobFits timeout bound j
    → IsConsistent timeout bound jobs
    → IsConsistent timeout bound (jobs ++ j ∷ [])
new_job-IsConsistent timeout bound j jobs d n f s = record {
  ids_unique = UniqueBy-concat (λ j. j.id) j jobs d s.ids_unique;
  nodes_unique =
      UniqueBy-concat (λ j. j.node_id) j jobs
        (All-of_none (λ k. k.node_id == j.node_id) (λ k. j.node_id ≢ k.node_id)
          (λ k e. ground arith) jobs n)
        s.nodes_unique;
  jobs_fit = All-append (JobFits timeout bound) jobs (j ∷ []) s.jobs_fit (f, tt);
}

-- A property of the store, where the call returned one.
abbrev OnStored : (JobStore → Type 0) → EnqueueResult → Type 0
OnStored P (stored s) = P s
OnStored P (raised e) = Unit

stored-eq : (s t : JobStore) → stored s ≡ stored t → s ≡ t
stored-eq s t h = cc

of_stored :
    (P : JobStore → Type 0) (r : EnqueueResult) (s : JobStore) → OnStored P r → r ≡ stored s → P s
of_stored P (stored t) s h e = subst P (stored-eq t s e) h
of_stored P (raised x) s h e = cc

enqueue-IsConsistent :
    (timeout bound now fresh : ℕ) (project_id meeting : String)
    (node_id node_version max_attempts : ℕ) (s : JobStore)
    → All (λ j. fresh ≢ j.id) s.jobs
    → 1 ≤ max_attempts
    → IsConsistent timeout bound s.jobs
    → OnStored
        (λ t. IsConsistent timeout bound t.jobs)
        (enqueue_analysis_job now fresh project_id meeting node_id node_version max_attempts s)
unfolding enqueue_analysis_job
enqueue-IsConsistent timeout bound now fresh project_id meeting node_id node_version max_attempts s
      d k h =
    elim (Bool-cases (any (is_node_of node_id project_id) s.nodes)) [
      | inr missing ↦ rw missing tt
      | inl found ↦ elim (Bool-cases (any (is_job_of node_id project_id) s.jobs)) [
        | inl old ↦
            rw (found, old)
              (update-IsConsistent timeout bound (is_job_of node_id project_id)
                (requeue now node_version) s.jobs (λ j. ground arith) (λ j. ground arith)
                (requeue-JobFits timeout bound now node_version) h)
        | inr new ↦ elim (Bool-cases (any (λ j. j.node_id == node_id) s.jobs)) [
          | inl clash ↦ rw (found, new, clash) tt
          | inr free ↦
              rw (found, new, free)
                (new_job-IsConsistent timeout bound
                  (new_job now fresh project_id meeting node_id node_version max_attempts) s.jobs d
                  free
                  (new_job-JobFits timeout bound now fresh project_id meeting node_id node_version
                    max_attempts k)
                  h)
        ]
      ]
    ]

-- Every step of every worker and caller keeps the invariant.
pub Step-IsConsistent :
    {timeout : ℕ} {w v : World}
    → Step timeout w v
    → IsConsistent timeout w.next_token w.store.jobs
    → IsConsistent timeout v.next_token v.store.jobs
Step-IsConsistent {timeout}
      (enqueue w now fresh project_id meeting node_id node_version max_attempts s d k e) h =
    of_stored (λ t. IsConsistent timeout w.next_token t.jobs) _ s
      (enqueue-IsConsistent timeout w.next_token now fresh project_id meeting node_id node_version
        max_attempts w.store d k h)
      e
Step-IsConsistent {timeout} (claim w now locked) h =
    claim_next-IsConsistent timeout now locked w.next_token w.store.jobs h
Step-IsConsistent {timeout} (complete w now job_id token run cb) h =
    complete-IsConsistent timeout w.next_token now job_id token run cb w.store h
Step-IsConsistent {timeout} (fail w now job_id token code error retryable cb) h =
    fail-IsConsistent timeout w.next_token now job_id token code error retryable cb w.store h

abbrev pub start : List NodeKey → World
start nodes = record { store = record { nodes = nodes; jobs = []; events = [] }; next_token = 0 }

-- From a store without jobs on, whatever the workers and callers do and in whatever order, there is one
-- job per identifier and one per Node; a job has a drawn claim token exactly while it is RUNNING; a
-- RUNNING job was counted as an attempt and is out of the claim window until its claim times out; and
-- a PENDING job has attempts left.
pub Reach-IsConsistent :
    {timeout : ℕ} (nodes : List NodeKey) {w : World}
    → Reach timeout (start nodes) w
    → IsConsistent timeout w.next_token w.store.jobs
Reach-IsConsistent nodes here = record { ids_unique = tt; nodes_unique = tt; jobs_fit = tt }
Reach-IsConsistent nodes (next r st) = Step-IsConsistent st (Reach-IsConsistent nodes r)
