-- ===== src/DecisionFirst/Eligible.antt =====
-- Which nodes a release may queue (`release_pending_dependent_nodes_if_ready` of
-- data-pipeline/data_pipeline/pipeline/decision_first.py).

use projectree.Base.{
  ℕ, ◌≡◌, refl, ◌∙◌, ap, ◌⊎◌, ◌↔◌, inl, inr, Bool, true, false, not, ◌&&◌, Option, none, some, List,
  String, All, All-mem, All-of, All-keep, All-of_mem, Memᴰ, any_of_mem, find_of_any, mem_of_find,
  mem-keep, keep, Bool-cases, ◌==◌, ==_iff, ==_refl, arith, str_eq, str_eq_iff,
}
use projectree.Base.Table.{UniqueBy, UniqueBy-eq}
use projectree.Contracts.{NodeType, decision, is_decision}
use projectree.AnalysisJobs.{AnalysisJob}
use projectree.Graph.{GraphNode, NodeState, unattached, is_some}
use projectree.Graph.UserMerges.{stored_node, is_stored_node}
use projectree.DecisionFirst.{
  decision_is_final, is_reviewed, meeting_decisions, some_decision_waits, phase_of, in_phase,
  is_unattached, has_job, is_eligible,
}
use projectree.DecisionFirst.Final.{IsFinalDecision, decision_is_final-exact}
use projectree.DecisionFirst.Again.{mem_of_keep}

-- A node of the meeting that came from a reviewed candidate.
abbrev pub IsOfMeeting : String → String → GraphNode → Type 0
IsOfMeeting project meeting n =
    (n.project_id ≡ project)
    × (n.source_meeting_id ≡ meeting)
    × ((c : ℕ) × (n.source_candidate ≡ some c))

abbrev pub IsJobOf : String → String → ℕ → AnalysisJob → Type 0
IsJobOf project meeting id j =
    (j.project_id ≡ project) × (j.external_meeting_id ≡ meeting) × (j.node_id ≡ id)

-- A decision of the meeting that is not final yet.
abbrev pub SomeWaits : String → String → List GraphNode → Type 0
SomeWaits project meeting nodes =
    (d : GraphNode) × Memᴰ d nodes
    × IsOfMeeting project meeting d
    × (d.node_type ≡ decision)
    × ¬ IsFinalDecision project nodes d

abbrev pub AllFinal : String → String → List GraphNode → Type 0
AllFinal project meeting nodes =
    All
      (λ d.
        (¬ (IsOfMeeting project meeting d × (d.node_type ≡ decision)))
        ⊎ IsFinalDecision project nodes d)
      nodes

-- An UNATTACHED node of the meeting without a job there, and its turn: a decision while some decision
-- waits, and any other node once all decisions are final.
abbrev pub MayQueue : String → String → List GraphNode → List AnalysisJob → GraphNode → Type 0
MayQueue project meeting nodes jobs n =
    IsOfMeeting project meeting n
    × (n.graph_state ≡ unattached)
    × (n.merged_into ≡ none)
    × All (λ j. ¬ IsJobOf project meeting n.id j) jobs
    × (((n.node_type ≡ decision) × SomeWaits project meeting nodes)
        ⊎ ((¬ (n.node_type ≡ decision)) × AllFinal project meeting nodes))

set_some : (o : Option ℕ) → is_some o ≡ true → (c : ℕ) × (o ≡ some c)
set_some none h = cc
set_some (some c) h = (c, refl)

unset_none : (o : Option ℕ) → not (is_some o) ≡ true → o ≡ none
unset_none none h = refl
unset_none (some c) h = cc

clash : {b : Bool} → b ≡ true → b ≡ false → ⊥
clash {b} h k = cc

two_true : (a b : Bool) → (a && b) ≡ true → (a ≡ true) × (b ≡ true)
two_true a b h = ground arith

-- What passes the test that selected a list.
kept_test {ℓ} : {A : Type ℓ} (p : A → Bool) (xs : List A) (a : A) → Memᴰ a (keep p xs) → p a ≡ true
kept_test p xs a m =
    All-mem (λ a. p a ≡ true) (keep p xs)
      (All-keep (λ a. Unit {0}) (λ a. p a ≡ true) p (λ a e h. e) xs
        (All-of (λ a. Unit {0}) (λ a. tt) xs))
      m

three_true : (a b c : Bool) → (a && (b && c)) ≡ true → (a ≡ true) × (b ≡ true) × (c ≡ true)
three_true a b c h = ground arith

decision_type : (t : NodeType) → is_decision t ≡ true → t ≡ decision
decision_type t h = ground (arith, h)

type_decision : (t : NodeType) → t ≡ decision → is_decision t ≡ true
type_decision t e = rw e refl

unattached_state : (s : NodeState) → is_unattached s ≡ true → s ≡ unattached
unattached_state s h = ground (arith, h)

reviewed-IsOfMeeting :
    (project meeting : String) (n : GraphNode)
    → is_reviewed project meeting n ≡ true
    → IsOfMeeting project meeting n
reviewed-IsOfMeeting project meeting n h =
    let (p, m, c) =
      three_true (str_eq n.project_id project) (str_eq n.source_meeting_id meeting)
        (is_some n.source_candidate) h in
    (
      (str_eq_iff n.project_id project).0 p,
      (str_eq_iff n.source_meeting_id meeting).0 m,
      set_some n.source_candidate c,
    )

IsOfMeeting-reviewed :
    (project meeting : String) (n : GraphNode)
    → IsOfMeeting project meeting n
    → is_reviewed project meeting n ≡ true
IsOfMeeting-reviewed project meeting n (p, m, (c, s)) =
    let p' = (str_eq_iff n.project_id project).1 p in
    let m' = (str_eq_iff n.source_meeting_id meeting).1 m in rw (p', m', s) refl

job_test :
    (project meeting : String) (id : ℕ) (j : AnalysisJob)
    → IsJobOf project meeting id j
    → (str_eq j.project_id project && (str_eq j.external_meeting_id meeting && j.node_id == id))
      ≡ true
job_test project meeting id j (p, m, n) =
    let p' = (str_eq_iff j.project_id project).1 p in
    let m' = (str_eq_iff j.external_meeting_id meeting).1 m in
    let n' = (==_iff j.node_id id).1 n in rw (p', m', n') refl

no_job :
    (project meeting : String) (id : ℕ) (jobs : List AnalysisJob)
    → has_job project meeting jobs id ≡ false
    → All (λ j. ¬ IsJobOf project meeting id j) jobs
no_job project meeting id jobs h =
    All-of_mem (λ j. ¬ IsJobOf project meeting id j) jobs
      (λ j m own. clash (any_of_mem _ jobs (job_test project meeting id j own) m) h)

job_there :
    (project meeting : String) (id : ℕ) (jobs : List AnalysisJob)
    → has_job project meeting jobs id ≡ true
    → ¬ All (λ j. ¬ IsJobOf project meeting id j) jobs
job_there project meeting id jobs h none_is =
    let (j, at, test) = find_of_any _ jobs h in
    let (p, m, n) =
      three_true (str_eq j.project_id project) (str_eq j.external_meeting_id meeting)
        (j.node_id == id) test in
    All-mem (λ j. ¬ IsJobOf project meeting id j) jobs none_is (mem_of_find _ jobs at)
      (
        (str_eq_iff j.project_id project).0 p,
        (str_eq_iff j.external_meeting_id meeting).0 m,
        (==_iff j.node_id id).0 n,
      )

stored :
    (project : String) (nodes : List GraphNode) (n : GraphNode)
    → UniqueBy (λ n. n.id) nodes
    → Memᴰ n nodes
    → n.project_id ≡ project
    → stored_node project n.id nodes ≡ some n
stored project nodes n u m p =
    let own : is_stored_node project n.id n ≡ true =
      rw (==_refl n.id, (str_eq_iff n.project_id project).1 p) refl in
    let (k, found, test) =
      find_of_any (is_stored_node project n.id) nodes (any_of_mem _ nodes own m) in
    let same_id : k.id ≡ n.id = ground (arith, test) in
    found ∙ ap some (UniqueBy-eq (λ n. n.id) nodes u (mem_of_find _ nodes found) m same_id)

module _ (project meeting : String) (nodes : List GraphNode) (u : UniqueBy (λ n. n.id) nodes) where
  waits-SomeWaits :
      some_decision_waits project meeting nodes ≡ true → SomeWaits project meeting nodes
  waits-SomeWaits h =
      let (d, at, test) =
        find_of_any (λ n. not (decision_is_final project nodes n))
          (meeting_decisions project meeting nodes) h in
      let inside = mem_of_find _ (meeting_decisions project meeting nodes) at in
      let m = mem_of_keep _ nodes inside in
      let (r, t) = kept d inside in
      let own = reviewed-IsOfMeeting project meeting d r in
      (
        d,
        m,
        own,
        decision_type d.node_type t,
        λ final.
            refuted (decision_is_final project nodes d)
              ((decision_is_final-exact project nodes d (stored project nodes d u m own.0)).1 final)
              test,
      )
    where
      refuted : (b : Bool) → b ≡ true → not b ≡ true → ⊥
      refuted b h k = ground arith

      kept :
          (d : GraphNode)
          → Memᴰ d (meeting_decisions project meeting nodes)
          → (is_reviewed project meeting d ≡ true) × (is_decision d.node_type ≡ true)
      kept d m =
          two_true (is_reviewed project meeting d) (is_decision d.node_type)
            (kept_test (λ n. is_reviewed project meeting n && is_decision n.node_type) nodes d m)

  settled-AllFinal :
      some_decision_waits project meeting nodes ≡ false → AllFinal project meeting nodes
  settled-AllFinal h = All-of_mem _ nodes (λ d m.
      elim (Bool-cases (is_reviewed project meeting d && is_decision d.node_type)) [
        | inl e ↦
            let (r, t) = two_true (is_reviewed project meeting d) (is_decision d.node_type) e in
            let own = reviewed-IsOfMeeting project meeting d r in
            inr (
              (decision_is_final-exact project nodes d (stored project nodes d u m own.0)).0
                (elim (Bool-cases (decision_is_final project nodes d)) [
                  | inl f ↦ f
                  | inr f ↦ absurd (
                      clash
                        (any_of_mem (λ n. not (decision_is_final project nodes n))
                          (meeting_decisions project meeting nodes) (rw f refl)
                          (mem-keep (λ n. is_reviewed project meeting n && is_decision n.node_type)
                            nodes e m))
                        h)
                ]))
        | inr e ↦ inl (λ own.
            clash
              (rw (IsOfMeeting-reviewed project meeting d own.0, type_decision d.node_type own.1)
                refl)
              e)
      ])

  apart : SomeWaits project meeting nodes → AllFinal project meeting nodes → ⊥
  apart (d, m, own, t, waits) all = elim (All-mem _ nodes all m) [
    | inl other ↦ other (own, t)
    | inr final ↦ waits final
  ]

  abbrev pub eligible : List AnalysisJob → GraphNode → Bool
  eligible jobs n =
      is_reviewed project meeting n
      && is_eligible (phase_of (some_decision_waits project meeting nodes)) project meeting jobs n

  turn :
      (w : Bool) (n : GraphNode)
      → some_decision_waits project meeting nodes ≡ w
      → in_phase (phase_of w) n ≡ true
      → ((n.node_type ≡ decision) × SomeWaits project meeting nodes)
        ⊎ ((¬ (n.node_type ≡ decision)) × AllFinal project meeting nodes)
  turn true n e h = inl (decision_type n.node_type h, waits-SomeWaits e)
  turn false n e h =
      inr (
        (λ d. refuted (is_decision n.node_type) (type_decision n.node_type d) h),
        settled-AllFinal e,
      )
    where
      refuted : (b : Bool) → b ≡ true → not b ≡ true → ⊥
      refuted b h k = ground arith

  in_turn :
      (w : Bool) (n : GraphNode)
      → some_decision_waits project meeting nodes ≡ w
      → ((n.node_type ≡ decision) × SomeWaits project meeting nodes)
        ⊎ ((¬ (n.node_type ≡ decision)) × AllFinal project meeting nodes)
      → in_phase (phase_of w) n ≡ true
  in_turn true n e (inl (d, waits)) = type_decision n.node_type d
  in_turn true n e (inr (d, final)) = absurd (apart (waits-SomeWaits e) final)
  in_turn false n e (inl (d, waits)) = absurd (apart waits (settled-AllFinal e))
  in_turn false n e (inr (d, final)) = elim (Bool-cases (is_decision n.node_type)) [
    | inl t ↦ absurd (d (decision_type n.node_type t))
    | inr t ↦ rw t refl
  ]

  -- The tests pass exactly the nodes that may be queued.
  pub eligible-exact :
      (jobs : List AnalysisJob) (n : GraphNode)
      → (eligible jobs n ≡ true) ↔ MayQueue project meeting nodes jobs n
  eligible-exact jobs n = (to, from)
    where
      to : eligible jobs n ≡ true → MayQueue project meeting nodes jobs n
      to h =
          let w = some_decision_waits project meeting nodes in
          let (r, e) =
            two_true (is_reviewed project meeting n)
              (is_eligible (phase_of w) project meeting jobs n) h in
          let (own, rest) =
            two_true (in_phase (phase_of w) n)
              (is_unattached n.graph_state
                && (not (is_some n.merged_into) && not (has_job project meeting jobs n.id)))
              e in
          let (free, alone, new) =
            three_true (is_unattached n.graph_state) (not (is_some n.merged_into))
              (not (has_job project meeting jobs n.id)) rest in
          (
            reviewed-IsOfMeeting project meeting n r,
            unattached_state n.graph_state free,
            unset_none n.merged_into alone,
            no_job project meeting n.id jobs (negated (has_job project meeting jobs n.id) new),
            turn w n refl own,
          )
        where
          negated : (b : Bool) → not b ≡ true → b ≡ false
          negated b h = ground arith

      from : MayQueue project meeting nodes jobs n → eligible jobs n ≡ true
      from (own, free, alone, new, phase) =
          let w = some_decision_waits project meeting nodes in
          let none_there : has_job project meeting jobs n.id ≡ false =
            elim (Bool-cases (has_job project meeting jobs n.id)) [
              | inl e ↦ absurd (job_there project meeting n.id jobs e new)
              | inr e ↦ e
            ] in
          all_pass (is_reviewed project meeting n) (in_phase (phase_of w) n)
            (is_unattached n.graph_state) (not (is_some n.merged_into))
            (not (has_job project meeting jobs n.id)) (IsOfMeeting-reviewed project meeting n own)
            (in_turn w n refl phase) (rw free refl) (rw alone refl) (rw none_there refl)
        where
          all_pass :
              (a b c d e : Bool)
              → a ≡ true
              → b ≡ true
              → c ≡ true
              → d ≡ true
              → e ≡ true
              → (a && (b && (c && (d && e)))) ≡ true
          all_pass a b c d e h i j k l = ground arith
