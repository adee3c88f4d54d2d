-- ===== src/DecisionFirst/Release.antt =====
-- What a release writes (`release_pending_dependent_nodes_if_ready` of
-- data-pipeline/data_pipeline/pipeline/decision_first.py).

use mathlib.Core.Path.{subst}
use projectree.Base.{
  ℕ, ◌+◌, ◌≡◌, refl, sym, ◌⊎◌, inl, inr, Bool, true, false, ◌&&◌, List, [], ◌∷◌, map, String, All,
  All-mem, All-append, All-keep, All-of_mem, Memᴰ, keep, mem-keep, Bool-cases, arith,
}
use projectree.Base.Result.{ok, >>=-eq-ok}
use projectree.Base.Sorting.{All-sort_by, mem-sort_by}
use projectree.Base.Table.{UniqueBy, All-update_where}
use projectree.AnalysisJobs.{
  AnalysisJob, JobStore, pending, requeue, new_job, is_job_of, enqueue_analysis_job,
}
use projectree.Graph.{GraphNode}
use projectree.DecisionFirst.{
  is_reviewed, some_decision_waits, Phase, phase_of, has_job, by_creation, reviewed_nodes,
  is_eligible, of_enqueue, release_node, release_each, ReleaseResult, release_pending,
}
use projectree.DecisionFirst.Eligible.{MayQueue, eligible, eligible-exact}
use projectree.DecisionFirst.Again.{
  OwnJobs, enqueue-jobs, release_node-enqueues, release_each-Queued, mem_of_keep, same_store,
  same_result,
}

-- A job that a release queued, for a node of which `Q` holds.
abbrev pub QueuedFor : (GraphNode → Type 0) → AnalysisJob → Type 0
QueuedFor Q j =
    (n : GraphNode) × (j.node_id ≡ n.id)
    × (j.node_version ≡ n.version)
    × (j.status ≡ pending)
    × (j.attempt_count ≡ 0)
    × Q n

job_node :
    (id : ℕ) (project : String) (j : AnalysisJob) → is_job_of id project j ≡ true → j.node_id ≡ id
job_node id project j h = ground (arith, h)

module _ (now : ℕ) (project meeting : String) (before : List AnalysisJob)
    (Q : GraphNode → Type 0) where
  abbrev Known : AnalysisJob → Type 0
  Known j = Memᴰ j before ⊎ QueuedFor Q j

  enqueue-Known :
      (fresh : ℕ) (n : GraphNode) (s s' : JobStore)
      → Q n
      → All Known s.jobs
      → of_enqueue (enqueue_analysis_job now fresh project meeting n.id n.version 3 s) ≡ ok s'
      → All Known s'.jobs
  enqueue-Known fresh n s s' q known h =
      elim (enqueue-jobs now project meeting fresh n.id n.version s s' h) [
        | inl (_, jobs) ↦ subst (All Known) (sym jobs) (
            All-update_where Known Known (is_job_of n.id project) (requeue now n.version)
              (λ j e k. inr (n, job_node n.id project j e, refl, refl, refl, q)) (λ j e k. k) s.jobs
              known)
        | inr jobs ↦ subst (All Known) (sym jobs) (
            All-append Known s.jobs (new_job now fresh project meeting n.id n.version 3 ∷ []) known
              (inr (n, refl, refl, refl, refl, q), tt))
      ]

  release_each-Known :
      (text : ℕ → String) (fresh : ℕ) (phase : Phase) (nodes : List GraphNode) (s s' : JobStore)
      → All Q nodes
      → All Known s.jobs
      → release_each text now fresh phase project meeting nodes s ≡ ok s'
      → All Known s'.jobs
  unfolding release_each
  release_each-Known text fresh phase [] s s' q known h =
      subst (λ u. All Known u.jobs) (same_store h) known
  release_each-Known text fresh phase (n ∷ nodes) s s' q known h =
      let (u, first, rest) =
        >>=-eq-ok (release_node text now fresh phase project meeting n s) _ h in
      let (v, queued, jobs) =
        release_node-enqueues now project meeting text fresh phase n s u first in
      release_each-Known text (fresh + 1) phase nodes u s' q.1
        (subst (All Known) jobs (enqueue-Known fresh n s v q.0 known queued)) rest

both : (a b : Bool) → (a && b) ≡ true → (a ≡ true) × (b ≡ true)
both a b h = ground arith

clash : {b : Bool} → b ≡ true → b ≡ false → ⊥
clash {b} h k = cc

two_true : (a b : Bool) → a ≡ true → b ≡ true → (a && b) ≡ true
two_true a b h k = ground arith

-- Node ids are unique, and the jobs of the meeting's reviewed nodes are jobs of that meeting. Then a
-- release that succeeds queues exactly the nodes that may be queued. Each job that it leaves was in the
-- table before, as it is, or is a PENDING one without an attempt, at the current version of such a
-- node; and each node of the table is none of them, or has a job of the meeting then. A node may be
-- queued that was reviewed, is UNATTACHED and has no job of the meeting: a decision while some decision
-- of the meeting is not final, any other node once all of them are. Final is a decision that is
-- ACTIVE and not redirected, or MERGED and at most five redirections from such a decision.
pub release_pending_order :
    (text : ℕ → String) (now fresh : ℕ) (project meeting : String) (nodes : List GraphNode)
    (s : JobStore) (r : ReleaseResult)
    → UniqueBy (λ n. n.id) nodes
    → OwnJobs project meeting (reviewed_nodes project meeting nodes) s.jobs
    → release_pending text now fresh project meeting nodes s ≡ ok r
    → All
        (λ j.
          Memᴰ j s.jobs ⊎ QueuedFor (λ n. Memᴰ n nodes × MayQueue project meeting nodes s.jobs n) j)
        r.store.jobs
      × All
          (λ n.
            (¬ MayQueue project meeting nodes s.jobs n)
            ⊎ (has_job project meeting r.store.jobs n.id ≡ true))
          nodes
unfolding release_pending
release_pending_order text now fresh project meeting nodes s r u own h =
    let phase = phase_of (some_decision_waits project meeting nodes) in
    let reviewed = reviewed_nodes project meeting nodes in
    let chosen = keep (is_eligible phase project meeting s.jobs) reviewed in
    let (s', step, end) =
      >>=-eq-ok (release_each text now fresh phase project meeting chosen s)
        (λ v. ok (record { phase = phase; queued = map (λ n. n.id) chosen; store = v })) h in
    let listed : All Allowed chosen =
      All-keep (λ n. Memᴰ n nodes × (is_reviewed project meeting n ≡ true)) Allowed
        (is_eligible phase project meeting s.jobs)
        (λ n e k. (k.0, (eligible-exact project meeting nodes u s.jobs n).0 (two_true _ _ k.1 e)))
        reviewed
        (All-sort_by by_creation (λ n. Memᴰ n nodes × (is_reviewed project meeting n ≡ true)) _
          (All-keep (λ n. Memᴰ n nodes) (λ n. Memᴰ n nodes × (is_reviewed project meeting n ≡ true))
            (is_reviewed project meeting) (λ n e m. (m, e)) nodes
            (All-of_mem (λ n. Memᴰ n nodes) nodes (λ n m. m)))) in
    let (queued, kept) =
      release_each-Queued now project meeting reviewed text fresh phase chosen s s'
        (λ n m. mem_of_keep _ reviewed m) own step in
    subst
      (λ x.
        All (λ j. Memᴰ j s.jobs ⊎ QueuedFor Allowed j) x.store.jobs
        × All
            (λ n.
              (¬ MayQueue project meeting nodes s.jobs n)
              ⊎ (has_job project meeting x.store.jobs n.id ≡ true))
            nodes)
      (same_result end)
      (
        release_each-Known now project meeting s.jobs Allowed text fresh phase chosen s s' listed
            (All-of_mem _ s.jobs (λ j m. inl m)) step,
        All-of_mem _ nodes (λ n m. elim (Bool-cases (eligible project meeting nodes u s.jobs n)) [
          | inl e ↦
              let (r, q) =
                both (is_reviewed project meeting n) (is_eligible phase project meeting s.jobs n)
                  e in
              inr (
                All-mem (λ n. has_job project meeting s'.jobs n.id ≡ true) chosen queued
                  (mem-keep (is_eligible phase project meeting s.jobs) reviewed q
                    (mem-sort_by by_creation _ (mem-keep (is_reviewed project meeting) nodes r m))))
          | inr e ↦ inl (λ may. clash ((eligible-exact project meeting nodes u s.jobs n).1 may) e)
        ]),
      )
  where
    Allowed : GraphNode → Type 0
    Allowed n = Memᴰ n nodes × MayQueue project meeting nodes s.jobs n
