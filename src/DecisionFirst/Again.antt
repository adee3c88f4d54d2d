-- ===== src/DecisionFirst/Again.antt =====
-- A second release of the same meeting (`release_pending_dependent_nodes_if_ready` of
-- data-pipeline/data_pipeline/pipeline/decision_first.py).
use mathlib.Core.List.Memᴰ
use projectree.Base.{
  ℕ, ◌+◌, ◌≡◌, refl, sym, ◌∙◌, ap, subst, ◌⊎◌, inl, inr, Bool, true, false, ◌&&◌, List, [], ◌∷◌,
  ◌++◌, map, String, All, All-mem, All-append, Memᴰ, any, any-map, any_of_mem, find_of_any,
  mem_of_find, mem-keep, keep, All-of, All-of_mem, Bool-cases, ◌==◌, ==_refl, arith, str_eq,
  str_eq_iff,
}
use projectree.Base.Result.{Fallible, ok, >>=-eq-ok, or_raise}
use projectree.Base.Table.{update_where, when, All-update_where}
use projectree.Outbox.{emit_outbox_event}
use projectree.AnalysisJobs.{
  AnalysisJob, JobStore, enqueue_analysis_job, requeue, new_job, is_job_of, is_node_of,
}
use projectree.Graph.{GraphNode}
use projectree.DecisionFirst.{
  some_decision_waits, Phase, phase_of, has_job, reviewed_nodes, released_payload, unknown_event,
  is_eligible, ReleaseError, of_enqueue, release_node, release_each, ReleaseResult, release_pending,
}

-- The job is one of the meeting.
abbrev pub InMeeting : String → String → AnalysisJob → Type 0
InMeeting project meeting j =
    (str_eq j.project_id project && str_eq j.external_meeting_id meeting) ≡ true

-- The jobs of the given nodes are jobs of the meeting.
abbrev pub OwnJobs : String → String → List GraphNode → List AnalysisJob → Type 0
OwnJobs project meeting nodes jobs =
    All (λ j. All (λ n. j.node_id ≡ n.id → InMeeting project meeting j) nodes) jobs

str_same : (s : String) → str_eq s s ≡ true
str_same s = (str_eq_iff s s).1 refl

any-append_left {ℓ} :
    {A : Type ℓ} (p : A → Bool) (xs ys : List A) → any p xs ≡ true → any p (xs ++ ys) ≡ true
any-append_left p [] ys h = cc
any-append_left p (x ∷ xs) ys h = elim (Bool-cases (p x)) [
  | inl e ↦ rw e refl
  | inr e ↦ rw (any-append_left p xs ys (ground (arith, e, h))) (ground arith)
]

any-append_last {ℓ} :
    {A : Type ℓ} (p : A → Bool) (a : A) (xs : List A) → p a ≡ true → any p (xs ++ a ∷ []) ≡ true
any-append_last p a [] h = rw h refl
any-append_last p a (x ∷ xs) h = rw (any-append_last p a xs h) (ground arith)

pub same_store :
    {x y : JobStore} → (let r : Fallible ReleaseError JobStore = ok x in r) ≡ ok y → x ≡ y
same_store h = ground arith

pub same_result :
    {x y : ReleaseResult} → (let r : Fallible ReleaseError ReleaseResult = ok x in r) ≡ ok y → x ≡ y
same_result h = ground arith

pub mem_of_keep {ℓ} :
    {A : Type ℓ} {a : A} (p : A → Bool) (xs : List A) → Memᴰ a (keep p xs) → Memᴰ a xs
mem_of_keep p [] m = m
mem_of_keep {a} p (x ∷ xs) m = elim (Bool-cases (p x)) [
  | inl e ↦ elim (Memᴰ.cases_cons (subst (Memᴰ a) (when_kept e) m)) [
    | inl same ↦ Memᴰ.head same
    | inr deeper ↦ Memᴰ.tail (mem_of_keep p xs deeper)
  ]
  | inr e ↦ Memᴰ.tail (mem_of_keep p xs (subst (Memᴰ a) (when_dropped e) m))
]
  where
    when_kept : p x ≡ true → keep p (x ∷ xs) ≡ x ∷ keep p xs
    when_kept e = rw e refl

    when_dropped : p x ≡ false → keep p (x ∷ xs) ≡ keep p xs
    when_dropped e = rw e refl

keep_nothing {ℓ} :
    {A : Type ℓ} (p : A → Bool) (xs : List A) → All (λ a. p a ≡ false) xs → keep p xs ≡ []
keep_nothing p [] h = refl
keep_nothing p (x ∷ xs) h = rw h.0 (keep_nothing p xs h.1)

module _ (now : ℕ) (project meeting : String) where
  pub enqueue-jobs :
      (fresh id version : ℕ) (s s' : JobStore)
      → of_enqueue (enqueue_analysis_job now fresh project meeting id version 3 s) ≡ ok s'
      → ((any (is_job_of id project) s.jobs ≡ true)
          × (s'.jobs ≡ update_where (is_job_of id project) (requeue now version) s.jobs))
        ⊎ (s'.jobs ≡ s.jobs ++ new_job now fresh project meeting id version 3 ∷ [])
  unfolding enqueue_analysis_job
  enqueue-jobs fresh id version s s' h = elim (Bool-cases (any (is_node_of id project) s.nodes)) [
    | inr e ↦ ground (arith, e)
    | inl e ↦ elim (Bool-cases (any (is_job_of id project) s.jobs)) [
      | inl f ↦ inl (f, ground (arith, e, f))
      | inr f ↦ elim (Bool-cases (any (λ j. j.node_id == id) s.jobs)) [
        | inl g ↦ ground (arith, e, f, g)
        | inr g ↦ inr (ground (arith, e, f, g))
      ]
    ]
  ]

  -- The jobs that a release of one node leaves are those of the enqueue.
  pub release_node-enqueues :
      (text : ℕ → String) (fresh : ℕ) (phase : Phase) (n : GraphNode) (s s' : JobStore)
      → release_node text now fresh phase project meeting n s ≡ ok s'
      → (u : JobStore) × (of_enqueue
            (enqueue_analysis_job now fresh project meeting n.id n.version 3 s)
          ≡ ok u)
        × (u.jobs ≡ s'.jobs)
  release_node-enqueues text fresh phase n s s' h =
      let (u, queued, rest) =
        >>=-eq-ok (of_enqueue (enqueue_analysis_job now fresh project meeting n.id n.version 3 s)) _
          h in
      let (events, _, end) =
        >>=-eq-ok
          (or_raise
            (emit_outbox_event now fresh "ANALYSIS_QUEUED" "node" (text n.id) project
              (released_payload text phase meeting n.id) u.events)
            unknown_event)
          (λ events. ok (record u { events = events })) rest in
      (u, queued, ap (λ x. x.jobs) (same_store end))

  -- To queue a job again changes nothing of what has_job reads.
  has_job-requeue :
      (id other version : ℕ) (jobs : List AnalysisJob)
      → has_job project meeting
          (update_where (is_job_of other project) (requeue now version) jobs)
          id
        ≡ has_job project meeting jobs id
  has_job-requeue id other version jobs =
      any-map _ (when (is_job_of other project) (requeue now version)) jobs (λ j.
        (elim (Bool-cases (is_job_of other project j)) [ inl e ↦ rw e refl | inr e ↦ rw e refl ]))

  has_job-append_last :
      (fresh id version : ℕ) (jobs : List AnalysisJob)
      → has_job project meeting (jobs ++ new_job now fresh project meeting id version 3 ∷ []) id
        ≡ true
  has_job-append_last fresh id version jobs =
      any-append_last _ (new_job now fresh project meeting id version 3) jobs
        (rw (str_same project, str_same meeting, ==_refl id) refl)

  module _ (reviewed : List GraphNode) where
    OwnJobs-requeue :
        (version id : ℕ) (jobs : List AnalysisJob)
        → OwnJobs project meeting reviewed jobs
        → OwnJobs project meeting reviewed
            (update_where (is_job_of id project) (requeue now version) jobs)
    OwnJobs-requeue version id jobs own =
        All-update_where (λ j. All (λ n. j.node_id ≡ n.id → InMeeting project meeting j) reviewed)
          (λ j. All (λ n. j.node_id ≡ n.id → InMeeting project meeting j) reviewed)
          (is_job_of id project) (requeue now version) (λ j e h. h) (λ j e h. h) jobs own

    OwnJobs-append :
        (fresh id version : ℕ) (jobs : List AnalysisJob)
        → OwnJobs project meeting reviewed jobs
        → OwnJobs project meeting reviewed
            (jobs ++ new_job now fresh project meeting id version 3 ∷ [])
    OwnJobs-append fresh id version jobs own =
        All-append (λ j. All (λ n. j.node_id ≡ n.id → InMeeting project meeting j) reviewed) jobs
          (new_job now fresh project meeting id version 3 ∷ []) own
          (
            All-of
                (λ n.
                  id ≡ n.id
                  → InMeeting project meeting (new_job now fresh project meeting id version 3))
                (λ n e. rw (str_same project, str_same meeting) refl) reviewed,
            tt,
          )

    -- A node of the meeting that has a job at all has one of the meeting.
    own_job :
        (n : GraphNode) (jobs : List AnalysisJob)
        → Memᴰ n reviewed
        → OwnJobs project meeting reviewed jobs
        → any (is_job_of n.id project) jobs ≡ true
        → has_job project meeting jobs n.id ≡ true
    own_job n jobs mem own h =
        let (j, at, test) = find_of_any (is_job_of n.id project) jobs h in
        let here : Memᴰ j jobs = mem_of_find (is_job_of n.id project) jobs at in
        let same : j.node_id ≡ n.id = ground (arith, test) in
        let inside =
          All-mem (λ m. j.node_id ≡ m.id → InMeeting project meeting j) reviewed
            (All-mem (λ j. All (λ n. j.node_id ≡ n.id → InMeeting project meeting j) reviewed) jobs
              own here)
            mem same in
        any_of_mem _ jobs (ground (arith, inside, test)) here

    -- The node has a job of the meeting then, and no node has lost its own.
    abbrev Queued : GraphNode → (before after : List AnalysisJob) → Type 0
    Queued n before after =
        (has_job project meeting after n.id ≡ true)
        × OwnJobs project meeting reviewed after
        × ((id : ℕ)
            → has_job project meeting before id ≡ true
            → has_job project meeting after id ≡ true)

    enqueue-Queued :
        (fresh : ℕ) (n : GraphNode) (s s' : JobStore)
        → Memᴰ n reviewed
        → OwnJobs project meeting reviewed s.jobs
        → of_enqueue (enqueue_analysis_job now fresh project meeting n.id n.version 3 s) ≡ ok s'
        → Queued n s.jobs s'.jobs
    enqueue-Queued fresh n s s' mem own h = elim (enqueue-jobs fresh n.id n.version s s' h) [
      | inl (known, jobs) ↦ subst (Queued n s.jobs) (sym jobs) (
        has_job-requeue n.id n.id n.version s.jobs ∙ own_job n s.jobs mem own known,
        OwnJobs-requeue n.version n.id s.jobs own,
        λ id has. has_job-requeue id n.id n.version s.jobs ∙ has,
      )
      | inr jobs ↦ subst (Queued n s.jobs) (sym jobs) (
        has_job-append_last fresh n.id n.version s.jobs,
        OwnJobs-append fresh n.id n.version s.jobs own,
        λ id has. any-append_left _ s.jobs _ has,
      )
    ]

    release_node-Queued :
        (text : ℕ → String) (fresh : ℕ) (phase : Phase) (n : GraphNode) (s s' : JobStore)
        → Memᴰ n reviewed
        → OwnJobs project meeting reviewed s.jobs
        → release_node text now fresh phase project meeting n s ≡ ok s'
        → Queued n s.jobs s'.jobs
    release_node-Queued text fresh phase n s s' mem own h =
        let (u, queued, same) = release_node-enqueues text fresh phase n s s' h in
        subst (λ jobs. Queued n s.jobs jobs) same (enqueue-Queued fresh n s u mem own queued)

    pub release_each-Queued :
        (text : ℕ → String) (fresh : ℕ) (phase : Phase) (nodes : List GraphNode) (s s' : JobStore)
        → ((n : GraphNode) → Memᴰ n nodes → Memᴰ n reviewed)
        → OwnJobs project meeting reviewed s.jobs
        → release_each text now fresh phase project meeting nodes s ≡ ok s'
        → All (λ n. has_job project meeting s'.jobs n.id ≡ true) nodes
          × ((id : ℕ)
              → has_job project meeting s.jobs id ≡ true
              → has_job project meeting s'.jobs id ≡ true)
    unfolding release_each
    release_each-Queued text fresh phase [] s s' inside own h =
        (tt, λ id has. subst (λ u. has_job project meeting u.jobs id ≡ true) (same_store h) has)
    release_each-Queued text fresh phase (n ∷ nodes) s s' inside own h =
        let (u, first, rest) =
          >>=-eq-ok (release_node text now fresh phase project meeting n s) _ h in
        let (has, own', more) =
          release_node-Queued text fresh phase n s u (inside n (Memᴰ.head refl)) own first in
        let (all_have, kept) =
          release_each-Queued text (fresh + 1) phase nodes u s' (λ m i. inside m (Memᴰ.tail i)) own'
            rest in
        ((kept n.id has, all_have), λ id k. kept id (more id k))

module _ (phase : Phase) (project meeting : String) (before after : List AnalysisJob) where
  is_eligible_cong :
      (n : GraphNode)
      → has_job project meeting after n.id ≡ has_job project meeting before n.id
      → is_eligible phase project meeting after n ≡ is_eligible phase project meeting before n
  is_eligible_cong n e = rw e refl

  no_longer_eligible :
      (n : GraphNode)
      → (is_eligible phase project meeting before n ≡ true
          → has_job project meeting after n.id ≡ true)
      → (has_job project meeting before n.id ≡ true → has_job project meeting after n.id ≡ true)
      → is_eligible phase project meeting after n ≡ false
  no_longer_eligible n queued kept = elim (Bool-cases (has_job project meeting after n.id)) [
    | inl e ↦ rw e (ground arith)
    | inr e ↦ elim (Bool-cases (is_eligible phase project meeting before n)) [
      | inl f ↦ ground (arith, e, queued f)
      | inr f ↦ elim (Bool-cases (has_job project meeting before n.id)) [
        | inl g ↦ ground (arith, e, kept g)
        | inr g ↦ is_eligible_cong n (e ∙ sym g) ∙ f
      ]
    ]
  ]

-- Where the jobs of the meeting's reviewed nodes are jobs of that meeting, a second release after one
-- that succeeded, at any time and with the nodes as they were, succeeds and queues nothing: it leaves
-- the jobs and the events as the first one left them.
pub release_pending_again :
    (text : ℕ → String) (now later fresh fresh' : ℕ) (project meeting : String)
    (nodes : List GraphNode) (s : JobStore) (r : ReleaseResult)
    → OwnJobs project meeting (reviewed_nodes project meeting nodes) s.jobs
    → release_pending text now fresh project meeting nodes s ≡ ok r
    → release_pending text later fresh' project meeting nodes r.store
      ≡ ok (record { phase = r.phase; queued = []; store = r.store })
unfolding release_pending release_each
release_pending_again text now later fresh fresh' project meeting nodes s r own h =
    let phase = phase_of (some_decision_waits project meeting nodes) in
    let reviewed = reviewed_nodes project meeting nodes in
    let eligible = keep (is_eligible phase project meeting s.jobs) reviewed in
    let (s', step, end) =
      >>=-eq-ok (release_each text now fresh phase project meeting eligible s)
        (λ u. ok (record { phase = phase; queued = map (λ n. n.id) eligible; store = u })) h in
    let (queued, kept) =
      release_each-Queued now project meeting reviewed text fresh phase eligible s s'
        (λ n m. mem_of_keep _ reviewed m) own step in
    let nothing = keep_nothing (is_eligible phase project meeting s'.jobs) reviewed (
      All-of_mem _ reviewed (λ n m.
        no_longer_eligible phase project meeting s.jobs s'.jobs n
          (λ e.
            All-mem (λ n. has_job project meeting s'.jobs n.id ≡ true) eligible queued
              (mem-keep _ reviewed e m))
          (kept n.id))) in
    subst
      (λ x.
        release_pending text later fresh' project meeting nodes x.store
        ≡ ok (record { phase = x.phase; queued = []; store = x.store }))
      (same_result end) (rw nothing refl)
