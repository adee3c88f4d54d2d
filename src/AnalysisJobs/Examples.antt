-- ===== src/AnalysisJobs/Examples.antt =====
-- The analysis jobs on a concrete store, and each theorem at an input that meets its hypotheses.
use projectree.Base.{
  ℕ, ◌+◌, ◌<◌, ◌≤◌, ◌≡◌, ◌≢◌, ◌⊎◌, refl, true, false, none, some, List, [], ◌∷◌, Memᴰ, arith, ltb,
  min, length,
}
use projectree.Outbox.{OutboxEvent, new_event}
use projectree.Base.Json.{null}
use projectree.AnalysisJobs.{
  AnalysisJob, JobStore, NodeKey, pending, succeeded, failed, new_job, claim_job, handle,
  enqueue_analysis_job, stored, claim_next_analysis_job, complete_analysis_job, fail_analysis_job,
}
use projectree.AnalysisJobs.Workers.{Reach, here, next, enqueue}
use projectree.AnalysisJobs.Workers.Consistent.{IsConsistent, Reach-IsConsistent, start}
use projectree.AnalysisJobs.Rows.{JobFits, claim_job-JobFits, new_job-JobFits}
use projectree.AnalysisJobs.Claims.{live_claim_kept}
use projectree.AnalysisJobs.Owned.{OthersKept}
use projectree.AnalysisJobs.Outcomes.{
  Round, is_pending, rounds, failing_job_stops, enqueue_queues, complete_analysis_job_of_owner,
  fail_analysis_job_of_owner, overtaken_outcome_refused, Waits, Ended,
}

abbrev node : NodeKey
node = record { id = 3; project_id = "p-1" }

abbrev job : AnalysisJob
job = new_job 20 70 "p-1" "m-1" 3 1 3

abbrev one_job : JobStore
one_job = record { nodes = node ∷ []; jobs = job ∷ []; events = [] }

enqueued : enqueue_analysis_job 20 70 "p-1" "m-1" 3 1 3 (start (node ∷ [])).store ≡ stored one_job
unfolding enqueue_analysis_job
enqueued = refl

one_job_world : Reach 1800 (start (node ∷ [])) (record { store = one_job; next_token = 0 })
one_job_world =
    next here
      (enqueue (start (node ∷ [])) 20 70 "p-1" "m-1" 3 1 3 one_job tt (omega arith) enqueued)

Reach-IsConsistent_example : IsConsistent 1800 0 (job ∷ [])
Reach-IsConsistent_example = Reach-IsConsistent {timeout = 1800} (node ∷ []) one_job_world

-- A second job waits while the first is claimed; the second claim takes the second job.
abbrev later_job : AnalysisJob
later_job = new_job 21 71 "p-1" "m-1" 4 1 3

abbrev claimed_jobs : List AnalysisJob
claimed_jobs = claim_job 25 1800 0 job ∷ later_job ∷ []

claimed_fits : JobFits 1800 1 (claim_job 25 1800 0 job)
claimed_fits =
    claim_job-JobFits 1800 1 25 0 job (omega arith)
      (new_job-JobFits 1800 1 20 70 "p-1" "m-1" 3 1 3 (omega arith))

later_fits : JobFits 1800 1 later_job
later_fits = new_job-JobFits 1800 1 21 71 "p-1" "m-1" 4 1 3 (omega arith)

second_claim :
    (claim_next_analysis_job 26 1800 (λ _. false) 1 claimed_jobs).1 ≡ some (handle 1 later_job)
unfolding claim_next_analysis_job
second_claim = refl

live_claim_kept_example : (handle 1 later_job).job_id ≢ 70
live_claim_kept_example =
    live_claim_kept 26 1800 1 1 (λ _. false) claimed_jobs (claim_job 25 1800 0 job) 25
      (handle 1 later_job) (claimed_fits, (later_fits, tt)) (omega arith) (Memᴰ.head refl) refl refl
      (omega arith) second_claim

abbrev one_claimed : JobStore
one_claimed = record { nodes = node ∷ []; jobs = claim_job 25 1800 0 job ∷ []; events = [] }

abbrev stage : List OutboxEvent → List OutboxEvent
stage events = new_event 30 9 "PIPELINE_FAILED" "node" "3" "p-1" null ∷ events

complete_analysis_job_of_owner_example :
    let (s', done) = complete_analysis_job 30 70 0 (some 5) stage one_claimed in
    (done ≡ true)
    × ((k : AnalysisJob) × Memᴰ k s'.jobs
        × (k.id ≡ 70)
        × (k.node_id ≡ 3)
        × (k.status ≡ succeeded)
        × (k.analysis_run_id ≡ some 5)
        × (k.claim_token ≡ none)
        × (k.last_error ≡ none)
        × (k.attempt_count ≡ 1))
    × OthersKept 70 one_claimed.jobs s'.jobs
    × (s'.events ≡ stage [])
complete_analysis_job_of_owner_example =
    complete_analysis_job_of_owner 30 70 0 (claim_job 25 1800 0 job) one_claimed (some 5) stage
      (Memᴰ.head refl) refl

-- The first of three attempts fails and is retried.
fail_analysis_job_of_owner_example :
    let (s', status) = fail_analysis_job 30 70 0 "ValueError" "bad node" true stage one_claimed in
    OthersKept 70 one_claimed.jobs s'.jobs
    × (((true ≡ true)
          × (1 < 3)
          × (status ≡ some pending)
          × Waits 30 70 0 (claim_job 25 1800 0 job) one_claimed "ValueError" "bad node" s'
          × (s'.events ≡ []))
        ⊎ (((true ≡ false) ⊎ (3 ≤ 1))
            × (status ≡ some failed)
            × Ended 30 70 0 (claim_job 25 1800 0 job) one_claimed "ValueError" "bad node" s'
            × (s'.events ≡ stage [])))
fail_analysis_job_of_owner_example =
    fail_analysis_job_of_owner 30 70 0 (claim_job 25 1800 0 job) one_claimed "ValueError" "bad node"
      true stage (tt, tt) (Memᴰ.head refl) refl

-- The first claim times out and a second worker takes the job.
abbrev overtaken_store : JobStore
overtaken_store = record {
  nodes = node ∷ [];
  jobs = (claim_next_analysis_job 2000000000 1800 (λ _. false) 1 one_claimed.jobs).0;
  events = [];
}

second_worker :
    (claim_next_analysis_job 2000000000 1800 (λ _. false) 1 one_claimed.jobs).1
    ≡ some (handle 1 (claim_job 25 1800 0 job))
unfolding claim_next_analysis_job
second_worker = refl

overtaken_outcome_refused_example :
    (complete_analysis_job 2000000030 70 0 none stage overtaken_store ≡ (overtaken_store, false))
    × (fail_analysis_job 2000000030 70 0 "E" "late" true stage overtaken_store
        ≡ (overtaken_store, none))
overtaken_outcome_refused_example =
    overtaken_outcome_refused 2000000000 1800 2000000030 1 0 (λ _. false) one_claimed.jobs
      (handle 1 (claim_job 25 1800 0 job)) (node ∷ []) [] none "E" "late" true stage second_worker
      (omega arith)

abbrev failing_round : ℕ → Round
failing_round n = record {
  claimed_at = n;
  timeout = 1800;
  token = n;
  failed_at = n + 1;
  failure_code = "E";
  error = "down";
}

abbrev three_rounds : List Round
three_rounds = failing_round 30 ∷ failing_round 40 ∷ failing_round 50 ∷ []

failing_job_stops_example :
    (is_pending (rounds job three_rounds).status ≡ ltb (0 + length three_rounds) 3)
    × ((rounds job three_rounds).attempt_count ≡ min (0 + length three_rounds) 3)
    × (((rounds job three_rounds).status ≡ failed) ⊎ (0 + length three_rounds < 3))
failing_job_stops_example = failing_job_stops three_rounds job refl (omega arith)

enqueue_queues_example :
    (s' : JobStore) × (j : AnalysisJob) × (enqueue_analysis_job 60 72 "p-1" "m-1" 3 2 3 one_claimed
      ≡ stored s')
    × Memᴰ j s'.jobs
    × (j.node_id ≡ 3)
    × (j.status ≡ pending)
    × (j.node_version ≡ 2)
    × (j.attempt_count ≡ 0)
    × (j.available_at ≡ 60)
enqueue_queues_example = enqueue_queues 60 72 "p-1" "m-1" 3 2 3 one_claimed refl (refl, tt)
