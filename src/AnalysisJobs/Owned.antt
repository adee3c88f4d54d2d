-- ===== src/AnalysisJobs/Owned.antt =====
-- The rows that a worker owns: what the lookup finds and what a write leaves.
use mathlib.Core.List.Memᴰ
use mathlib.Core.Path.{subst}
use projectree.Base.{
  ℕ, ◌≡◌, sym, true, false, Bool, some, List, Memᴰ, arith, find, inl, inr, Bool-cases, ap, ◌∙◌, ◌⊎◌,
  any_of_mem, find_of_any, find-All, All, All-of_mem,
}
use projectree.Base.Table.{UniqueBy, UniqueBy-eq, update_where, when, when-miss}
use projectree.AnalysisJobs.{AnalysisJob, owned}

pub mem-update_where :
    (p : AnalysisJob → Bool) (f : AnalysisJob → AnalysisJob) {j : AnalysisJob}
    (jobs : List AnalysisJob)
    → p j ≡ true
    → Memᴰ j jobs
    → Memᴰ (f j) (update_where p f jobs)
mem-update_where p f {j} jobs h m =
    subst (λ x. Memᴰ x (update_where p f jobs)) (hit p f j h) (Memᴰ.map (when p f) m)
  where
    hit :
        (p : AnalysisJob → Bool) (f : AnalysisJob → AnalysisJob) (j : AnalysisJob)
        → p j ≡ true
        → when p f j ≡ f j
    hit p f j h = rw h

pub owned_id : (job_id token : ℕ) (j : AnalysisJob) → owned job_id token j ≡ true → j.id ≡ job_id
owned_id job_id token j h = ground arith

-- In a table with unique identifiers the lookup of an owned job finds that job.
pub find-owned :
    (job_id token : ℕ) (j : AnalysisJob) (jobs : List AnalysisJob)
    → UniqueBy (λ j. j.id) jobs
    → Memᴰ j jobs
    → owned job_id token j ≡ true
    → find (owned job_id token) jobs ≡ some j
find-owned job_id token j jobs u m o =
    let (k, found, p) =
      find_of_any (owned job_id token) jobs (any_of_mem (owned job_id token) jobs o m) in
    let n =
      (find-All (owned job_id token) (λ k. Memᴰ k jobs) jobs
        (All-of_mem (λ k. Memᴰ k jobs) jobs (λ k n. n)) found).0 in
    found
    ∙ ap some (
        UniqueBy-eq (λ j. j.id) jobs u n m
          (owned_id job_id token k p ∙ sym (owned_id job_id token j o)))

pub mem-update_where_miss :
    (p : AnalysisJob → Bool) (f : AnalysisJob → AnalysisJob) {j : AnalysisJob}
    (jobs : List AnalysisJob)
    → p j ≡ false
    → Memᴰ j jobs
    → Memᴰ j (update_where p f jobs)
mem-update_where_miss p f {j} jobs h m =
    subst (λ x. Memᴰ x (update_where p f jobs)) (when-miss p f j h) (Memᴰ.map (when p f) m)

-- The jobs with another id are in the table as they were.
abbrev pub OthersKept : ℕ → List AnalysisJob → List AnalysisJob → Type 0
OthersKept job_id before after = All (λ k. (k.id ≡ job_id) ⊎ Memᴰ k after) before

pub others_kept :
    (p : AnalysisJob → Bool) (f : AnalysisJob → AnalysisJob) (job_id : ℕ) (jobs : List AnalysisJob)
    → ((k : AnalysisJob) → p k ≡ true → k.id ≡ job_id)
    → OthersKept job_id jobs (update_where p f jobs)
others_kept p f job_id jobs own =
    All-of_mem (λ k. (k.id ≡ job_id) ⊎ Memᴰ k (update_where p f jobs)) jobs
      (λ k m. elim (Bool-cases (p k)) [
        | inl e ↦ inl (own k e)
        | inr e ↦ inr (mem-update_where_miss p f jobs e m)
      ])
