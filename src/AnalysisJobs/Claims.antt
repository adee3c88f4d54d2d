-- ===== src/AnalysisJobs/Claims.antt =====
-- Which job a claim takes: the oldest due one, and never one that a live worker owns.
use projectree.Base.{
  ℕ, ◌+◌, ◌≡◌, ◌≢◌, ◌<◌, refl, true, Bool, not, Option, none, some, List, Memᴰ, arith, find, keep,
  take, All, All-mem, All-take, All-keep, All-of_mem, ◌∙◌, find-All,
}
use mathlib.Core.List.Memᴰ
use mathlib.Core.Path.{subst}
use projectree.Base.Sorting.{sort_by, All-sort_by}
use projectree.Base.Table.{UniqueBy, UniqueBy-eq}
use projectree.Claiming.{seconds}
use projectree.AnalysisJobs.{
  AnalysisJob, ClaimedAnalysisJob, running, is_due, is_live, claim_order, select_due, take_first,
  claim_next_analysis_job,
}
use projectree.AnalysisJobs.Rows.{JobFits}

out_of_window :
    (timeout bound now : ℕ) (j : AnalysisJob) (claimed_at : ℕ)
    → JobFits timeout bound j
    → j.status ≡ running
    → j.claimed_at ≡ some claimed_at
    → now < claimed_at + seconds timeout
    → is_due now j ≡ true
    → ⊥
out_of_window timeout bound now j claimed_at f r c early d = ground arith

abbrev due_queue : ℕ → (ℕ → Bool) → List AnalysisJob → List AnalysisJob
due_queue now locked jobs =
    keep (λ j. not (locked j.id)) (sort_by claim_order (keep (is_due now) jobs))

due_queue-All {κ} :
    (now : ℕ) (locked : ℕ → Bool) (jobs : List AnalysisJob) (P : AnalysisJob → Type κ)
    → All P jobs
    → All (λ j. P j × (is_due now j ≡ true)) (due_queue now locked jobs)
due_queue-All now locked jobs P h =
    let Q = λ (j : AnalysisJob). P j × (is_due now j ≡ true) in
    All-keep Q Q (λ j. not (locked j.id)) (λ j e q. q) _
      (All-sort_by claim_order Q _ (All-keep P Q (is_due now) (λ j e q. (q, e)) jobs h))

module _ (now timeout bound token : ℕ) (locked : ℕ → Bool) (jobs : List AnalysisJob) where
  handle-eq :
      (o : Option AnalysisJob) (h : ClaimedAnalysisJob)
      → (take_first now timeout token jobs o).1 ≡ some h
      → (a : AnalysisJob) × (o ≡ some a) × (a.id ≡ h.job_id)
  handle-eq none h e = cc
  handle-eq (some a) h e = (a, refl, ground arith)

  -- While a claim has not timed out, no other claim takes its job.
  pub live_claim_kept :
      (j : AnalysisJob) (claimed_at : ℕ) (h : ClaimedAnalysisJob)
      → All (JobFits timeout bound) jobs
      → UniqueBy (λ j. j.id) jobs
      → Memᴰ j jobs
      → j.status ≡ running
      → j.claimed_at ≡ some claimed_at
      → now < claimed_at + seconds timeout
      → (claim_next_analysis_job now timeout locked token jobs).1 ≡ some h
      → h.job_id ≢ j.id
  unfolding claim_next_analysis_job
  live_claim_kept j claimed_at h fits unique m r c early e same =
      let (first, found, is_it) =
        handle-eq (find (λ q. not (is_live now timeout q)) (select_due now locked jobs)) h e in
      let Q = λ (q : AnalysisJob). Memᴰ q jobs × (is_due now q ≡ true) in
      let (n, d) =
        (find-All (λ q. not (is_live now timeout q)) Q (take 10 (due_queue now locked jobs))
          (All-take Q 10 (due_queue now locked jobs) (
            due_queue-All now locked jobs (λ q. Memᴰ q jobs)
              (All-of_mem (λ q. Memᴰ q jobs) jobs (λ q m. m))))
          found).0 in
      let this = UniqueBy-eq (λ j. j.id) jobs unique n m (is_it ∙ same) in
      out_of_window timeout bound now j claimed_at (All-mem (JobFits timeout bound) jobs fits m) r c
        early (subst (λ q. is_due now q ≡ true) this d)
