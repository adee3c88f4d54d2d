-- ===== src/AnalysisJobs/Outcomes.antt =====
-- What the outcome of a claimed job writes, with the event that commits beside it.
use mathlib.Core.List.Memᴰ
use mathlib.Core.Path.{subst}
use native.Mathlib.Decide.{dec_lt}
use projectree.Base.{
  ℕ, suc, ◌+◌, ◌≡◌, ◌<◌, refl, true, false, Bool, Option, none, some, List, [], ◌∷◌, ◌++◌, Memᴰ,
  String, arith, any, any_cong, any-map_none, ltb_cong, lt_or_moved, find, if◌then◌else◌, inl, inr,
  Bool-cases, ap, ◌∙◌, ◌⊎◌, length, ltb, min, ◌≤◌, ◌≢◌, not, any_of_mem, find_of_none, find_of_any,
  find-All, All, All-of_mem, ◌==◌,
}
use projectree.Base.Table.{UniqueBy, update_where, when}
use projectree.Base.Text.{take_chars}
use projectree.Claiming.{retry_delay}
use projectree.Outbox.{OutboxEvent}
use projectree.AnalysisJobs.Owned.{mem-update_where, owned_id, find-owned, OthersKept, others_kept}
use projectree.AnalysisJobs.{
  AnalysisJob, JobStore, JobStatus, NodeKey, ClaimedAnalysisJob, claim_next_analysis_job,
  select_due, take_first, is_live, pending, succeeded, failed, retries, owned, complete_job,
  fail_job, claim_job, complete_analysis_job, fail_analysis_job, enqueue_analysis_job, stored,
  is_node_of, is_job_of, requeue, new_job,
}

exhausted :
    (retryable : Bool) (j : AnalysisJob)
    → retries retryable j ≡ false
    → (retryable ≡ false) ⊎ (j.max_attempts ≤ j.attempt_count)
exhausted false j h = inl refl
exhausted true j h = inr (ground (arith, h))

module _ (now job_id token : ℕ) (j : AnalysisJob) (s : JobStore) where
  -- The worker that owns a job completes it. The job is in the table as SUCCEEDED with the run, without
  -- a token or an error and with its attempts as they were; the jobs with other ids are untouched, and
  -- what the callback stages is committed with it.
  pub complete_analysis_job_of_owner :
      (run : Option ℕ) (on_session : List OutboxEvent → List OutboxEvent)
      → Memᴰ j s.jobs
      → owned job_id token j ≡ true
      → let (s', done) = complete_analysis_job now job_id token run on_session s in
        (done ≡ true)
        × ((k : AnalysisJob) × Memᴰ k s'.jobs
            × (k.id ≡ j.id)
            × (k.node_id ≡ j.node_id)
            × (k.status ≡ succeeded)
            × (k.analysis_run_id ≡ run)
            × (k.claim_token ≡ none)
            × (k.last_error ≡ none)
            × (k.attempt_count ≡ j.attempt_count))
        × OthersKept job_id s.jobs s'.jobs
        × (s'.events ≡ on_session s.events)
  unfolding complete_analysis_job
  complete_analysis_job_of_owner run on_session m o =
      rw (any_of_mem (owned job_id token) s.jobs o m) (
        refl,
        (
          complete_job now run j,
          mem-update_where (owned job_id token) (complete_job now run) s.jobs o m,
          refl,
          refl,
          refl,
          refl,
          refl,
          refl,
          refl,
        ),
        others_kept (owned job_id token) (complete_job now run) job_id s.jobs
            (owned_id job_id token),
        refl,
      )

  -- A job that waits for its next attempt.
  abbrev pub Waits : String → String → JobStore → Type 0
  Waits failure_code error s' =
      (k : AnalysisJob) × Memᴰ k s'.jobs
      × (k.id ≡ j.id)
      × (k.status ≡ pending)
      × (k.attempt_count ≡ j.attempt_count)
      × (k.claim_token ≡ none)
      × (k.available_at ≡ now + retry_delay j.attempt_count)
      × (k.failure_code ≡ some (take_chars 128 failure_code))
      × (k.last_error ≡ some (take_chars 2000 error))

  -- A job that has failed for good.
  abbrev pub Ended : String → String → JobStore → Type 0
  Ended failure_code error s' =
      (k : AnalysisJob) × Memᴰ k s'.jobs
      × (k.id ≡ j.id)
      × (k.status ≡ failed)
      × (k.attempt_count ≡ j.attempt_count)
      × (k.claim_token ≡ none)
      × (k.failure_code ≡ some (take_chars 128 failure_code))
      × (k.last_error ≡ some (take_chars 2000 error))

  -- The worker that owns a job of a table with unique identifiers fails it. A retryable failure with
  -- attempts left sends the job back to PENDING until its delay is over, and stages no event. Any other
  -- one makes it FAILED, and what the callback stages is committed with it. Either way the job keeps
  -- its attempts, loses its token and has the cut texts of the error, and the jobs with other ids are
  -- untouched.
  pub fail_analysis_job_of_owner :
      (failure_code error : String) (retryable : Bool)
      (on_terminal_failure : List OutboxEvent → List OutboxEvent)
      → UniqueBy (λ j. j.id) s.jobs
      → Memᴰ j s.jobs
      → owned job_id token j ≡ true
      → let (s', status) =
          fail_analysis_job now job_id token failure_code error retryable on_terminal_failure s in
        OthersKept job_id s.jobs s'.jobs
        × (((retryable ≡ true)
              × (j.attempt_count < j.max_attempts)
              × (status ≡ some pending)
              × Waits failure_code error s'
              × (s'.events ≡ s.events))
            ⊎ (((retryable ≡ false) ⊎ (j.max_attempts ≤ j.attempt_count))
                × (status ≡ some failed)
                × Ended failure_code error s'
                × (s'.events ≡ on_terminal_failure s.events)))
  unfolding fail_analysis_job
  fail_analysis_job_of_owner failure_code error retryable cb u m o =
      rw (find-owned job_id token j s.jobs u m o) (
        others_kept (owned job_id token) (fail_job now failure_code error retryable) job_id s.jobs
            (owned_id job_id token),
        elim (Bool-cases (retries retryable j)) [
          | inl e ↦ inl (
            ground (arith, e),
            ground (arith, e),
            rw e refl,
            (
              fail_job now failure_code error retryable j,
              mem-update_where (owned job_id token) (fail_job now failure_code error retryable)
                  s.jobs o m,
              rw e refl,
              rw e refl,
              rw e refl,
              rw e refl,
              rw e refl,
              rw e refl,
              rw e refl,
            ),
            rw e refl,
          )
          | inr e ↦ inr (
            exhausted retryable j e,
            rw e refl,
            (
              fail_job now failure_code error retryable j,
              mem-update_where (owned job_id token) (fail_job now failure_code error retryable)
                  s.jobs o m,
              rw e refl,
              rw e refl,
              rw e refl,
              rw e refl,
              rw e refl,
              rw e refl,
            ),
            rw e refl,
          )
        ],
      )

complete_unowned :
    (now job_id token : ℕ) (run : Option ℕ) (cb : List OutboxEvent → List OutboxEvent)
    (s : JobStore)
    → any (owned job_id token) s.jobs ≡ false
    → complete_analysis_job now job_id token run cb s ≡ (s, false)
unfolding complete_analysis_job
complete_unowned now job_id token run cb s h = rw h refl

fail_unowned :
    (now job_id token : ℕ) (failure_code error : String) (retryable : Bool)
    (cb : List OutboxEvent → List OutboxEvent) (s : JobStore)
    → any (owned job_id token) s.jobs ≡ false
    → fail_analysis_job now job_id token failure_code error retryable cb s ≡ (s, none)
unfolding fail_analysis_job
fail_unowned now job_id token failure_code error retryable cb s h =
    rw (find_of_none (owned job_id token) s.jobs h) refl

claimed_not_owned :
    (now timeout token old id : ℕ) (r : AnalysisJob)
    → token ≢ old
    → owned id old (when (λ j. j.id == id) (claim_job now timeout token) r) ≡ false
claimed_not_owned now timeout token old id r other = ground arith

-- What the claim leaves has no row that the other token owns.
overtaken :
    (now timeout : ℕ) (locked : ℕ → Bool) (token old : ℕ) (jobs : List AnalysisJob)
    (h : ClaimedAnalysisJob)
    → token ≢ old
    → (claim_next_analysis_job now timeout locked token jobs).1 ≡ some h
    → any (owned h.job_id old) (claim_next_analysis_job now timeout locked token jobs).0 ≡ false
unfolding claim_next_analysis_job
overtaken now timeout locked token old jobs h other taken =
    of_first (find (λ j. not (is_live now timeout j)) (select_due now locked jobs)) taken
  where
    same_handle : {a b : ClaimedAnalysisJob} → some a ≡ some b → a ≡ b
    same_handle e = ground arith

    of_first :
        (first : Option AnalysisJob)
        → (take_first now timeout token jobs first).1 ≡ some h
        → any (owned h.job_id old) (take_first now timeout token jobs first).0 ≡ false
    of_first none e = cc
    of_first (some job) e =
        subst (λ id. any (owned id old) (take_first now timeout token jobs (some job)).0 ≡ false)
          (ap (λ h. h.job_id) (same_handle e))
          (any-map_none (owned job.id old)
            (when (λ j. j.id == job.id) (claim_job now timeout token))
            (λ r. claimed_not_owned now timeout token old job.id r other) jobs)

-- When a claim takes a job, the worker that had claimed it before, with another token, changes neither
-- the jobs nor the events any more: its completion and its failure are both refused, at any time.
pub overtaken_outcome_refused :
    (now timeout later token old : ℕ) (locked : ℕ → Bool) (jobs : List AnalysisJob)
    (h : ClaimedAnalysisJob) (nodes : List NodeKey) (events : List OutboxEvent) (run : Option ℕ)
    (failure_code error : String) (retryable : Bool) (cb : List OutboxEvent → List OutboxEvent)
    → (claim_next_analysis_job now timeout locked token jobs).1 ≡ some h
    → token ≢ old
    → let s : JobStore = record {
      nodes = nodes;
      jobs = (claim_next_analysis_job now timeout locked token jobs).0;
      events = events;
    } in
      (complete_analysis_job later h.job_id old run cb s ≡ (s, false))
      × (fail_analysis_job later h.job_id old failure_code error retryable cb s ≡ (s, none))
overtaken_outcome_refused now timeout later token old locked jobs h nodes events run failure_code
      error retryable cb taken other =
    let free : any (owned h.job_id old) (claim_next_analysis_job now timeout locked token jobs).0
        ≡ false =
      overtaken now timeout locked token old jobs h other taken in
    (
      complete_unowned later h.job_id old run cb _ free,
      fail_unowned later h.job_id old failure_code error retryable cb _ free,
    )

-- A claim whose work raises a retryable error.
pub record Round : Type 0 where
  pub claimed_at : ℕ
  pub timeout : ℕ
  pub token : ℕ
  pub failed_at : ℕ
  pub failure_code : String
  pub error : String

abbrev pub is_pending : JobStatus → Bool
is_pending pending = true
is_pending _ = false

abbrev pub round : AnalysisJob → Round → AnalysisJob
round j a =
    if is_pending j.status
    then fail_job a.failed_at a.failure_code a.error true
        (claim_job a.claimed_at a.timeout a.token j)
    else j

pub rounds : AnalysisJob → List Round → AnalysisJob
rounds j [] = j
rounds j (a ∷ rest) = rounds (round j a) rest

round_pending :
    (j : AnalysisJob) (a : Round)
    → j.status ≡ pending
    → suc j.attempt_count < j.max_attempts
    → ((round j a).status ≡ pending)
      × ((round j a).attempt_count ≡ suc j.attempt_count)
      × ((round j a).max_attempts ≡ j.max_attempts)
round_pending j a p h = ground arith

round_last :
    (j : AnalysisJob) (a : Round)
    → j.status ≡ pending
    → suc j.attempt_count ≡ j.max_attempts
    → ((round j a).status ≡ failed) × ((round j a).attempt_count ≡ j.max_attempts)
round_last j a p h = ground arith

rounds_failed : (j : AnalysisJob) (rest : List Round) → j.status ≡ failed → rounds j rest ≡ j
unfolding rounds
rounds_failed j [] d = refl
rounds_failed j (a ∷ rest) d =
    let fixed : round j a ≡ j = ground arith in rw fixed (rounds_failed j rest d)

-- A PENDING job whose work keeps raising retryable errors goes back to PENDING while its claims are
-- fewer than its attempts left, counts one attempt per claim, and is FAILED once they are used up, for
-- good.
pub failing_job_stops :
    (rest : List Round) (j : AnalysisJob)
    → j.status ≡ pending
    → j.attempt_count < j.max_attempts
    → (is_pending (rounds j rest).status ≡ ltb (j.attempt_count + length rest) j.max_attempts)
      × ((rounds j rest).attempt_count ≡ min (j.attempt_count + length rest) j.max_attempts)
      × (((rounds j rest).status ≡ failed) ⊎ (j.attempt_count + length rest < j.max_attempts))
unfolding rounds
failing_job_stops [] j p h = (ground arith, omega arith, inr (omega arith))
failing_job_stops (a ∷ rest) j p h = elim (dec_lt (suc j.attempt_count) j.max_attempts) [
  | yes more ↦
      let (p', n, m) = round_pending j a p more in
      let (ih, count, fate) = failing_job_stops rest (round j a) p' (omega arith) in
      let moved : (round j a).attempt_count + length rest ≡ j.attempt_count + suc (length rest) =
        omega arith in
      (ih ∙ ltb_cong moved m, omega arith, lt_or_moved fate moved m)
  | no last ↦
      let (d, n) = round_last j a p (omega arith) in
      let fixed = rounds_failed (round j a) rest d in
      (rw (fixed, d) (ground arith), rw fixed (omega arith), inl (rw fixed d))
]

-- Where the jobs of a Node belong to the Node's project, an enqueue for an existing Node leaves a fresh
-- PENDING job for it, at the requested version and with no attempt counted, whether it adds the row or
-- revives it.
pub enqueue_queues :
    (now fresh : ℕ) (project_id meeting : String) (node_id node_version max_attempts : ℕ)
    (s : JobStore)
    → any (is_node_of node_id project_id) s.nodes ≡ true
    → All (λ j. (j.node_id == node_id) ≡ is_job_of node_id project_id j) s.jobs
    → (s' : JobStore) × (j : AnalysisJob) × (enqueue_analysis_job now fresh project_id meeting
          node_id node_version max_attempts s
        ≡ stored s')
      × Memᴰ j s'.jobs
      × (j.node_id ≡ node_id)
      × (j.status ≡ pending)
      × (j.node_version ≡ node_version)
      × (j.attempt_count ≡ 0)
      × (j.available_at ≡ now)
unfolding enqueue_analysis_job
enqueue_queues now fresh project_id meeting node_id node_version max_attempts s n fk =
    elim (Bool-cases (any (is_job_of node_id project_id) s.jobs)) [
      | inl old ↦
          let (k, found, p) = find_of_any (is_job_of node_id project_id) s.jobs old in
          let m =
            (find-All (is_job_of node_id project_id) (λ k. Memᴰ k s.jobs) s.jobs
              (All-of_mem (λ k. Memᴰ k s.jobs) s.jobs (λ k n. n)) found).0 in
          (
            record s {
              jobs = update_where (is_job_of node_id project_id) (requeue now node_version) s.jobs;
            },
            requeue now node_version k,
            rw (n, old),
            mem-update_where (is_job_of node_id project_id) (requeue now node_version) s.jobs p m,
            ground arith,
            refl,
            refl,
            refl,
            refl,
          )
      | inr new ↦ (
        record s {
          jobs =
              s.jobs ++ new_job now fresh project_id meeting node_id node_version max_attempts ∷ [];
        },
        new_job now fresh project_id meeting node_id node_version max_attempts,
        rw (
          n,
          new,
          any_cong (λ j. j.node_id == node_id) (is_job_of node_id project_id) s.jobs fk ∙ new,
        ),
        Memᴰ.append_right s.jobs (Memᴰ.head refl),
        refl,
        refl,
        refl,
        refl,
        refl,
      )
    ]
