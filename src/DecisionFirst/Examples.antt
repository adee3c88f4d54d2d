-- ===== src/DecisionFirst/Examples.antt =====
-- A meeting with an unattached decision and an action, and the release of its analyses.
use projectree.Base.{
  ℕ, ◌≡◌, refl, Option, true, false, none, some, List, [], ◌∷◌, All, Memᴰ, ◌⊎◌, arith,
}
use projectree.Base.Result.{ok, err}
use projectree.Contracts.{NodeType, decision, action}
use projectree.AnalysisJobs.{JobStore, enqueue_analysis_job, new_job}
use projectree.Outbox.{emit_outbox_event, new_event}
use projectree.Graph.{GraphNode, NodeState, unattached}
use projectree.DecisionFirst.{
  has_job, dependent_blocked, assert_phase_allowed, decision_is_final, canonical_hint, follow_hint,
  release_each, release_pending, decision_phase, released_payload,
}
use projectree.DecisionFirst.Eligible.{MayQueue}
use projectree.DecisionFirst.Release.{QueuedFor, release_pending_order}
use projectree.DecisionFirst.ParentHint.{
  NodeCandidate, inherit, approved, same_meeting_candidate, resolve_parent_hint,
}
use projectree.DecisionFirst.Again.{release_pending_again}

abbrev meeting_node : ℕ → NodeType → NodeState → GraphNode
meeting_node id type state = record {
  id = id;
  project_id = "p";
  source_meeting_id = "m";
  source_candidate = some id;
  node_type = type;
  category = "PLAN";
  title = "title";
  content = "content";
  graph_state = state;
  merged_into = none;
  parent_id = none;
  current_revision = some id;
  version = 1;
  last_actor = "SYSTEM";
  needs_attention = false;
  created_at = id;
  updated_at = id;
  is_deleted = false;
}

abbrev both_wait : List GraphNode
both_wait = meeting_node 1 action unattached ∷ meeting_node 2 decision unattached ∷ []

abbrev no_jobs : JobStore
no_jobs = record {
  nodes = record { id = 1; project_id = "p" } ∷ record { id = 2; project_id = "p" } ∷ [];
  jobs = [];
  events = [];
}

-- What the first release leaves.
abbrev one_job : JobStore
one_job = record {
  nodes = no_jobs.nodes;
  jobs = new_job 10 50 "p" "m" 2 1 3 ∷ [];
  events =
      new_event 10 50 "ANALYSIS_QUEUED" "node" "id" "p"
        (released_payload (λ _. "id") decision_phase "m" 2)
      ∷ [];
}

action_blocked :
    assert_phase_allowed true both_wait (meeting_node 1 action unattached) ≡ err dependent_blocked
unfolding assert_phase_allowed decision_is_final
action_blocked = refl

-- The decision is queued first.
release_pending_order_example :
    All
      (λ j. Memᴰ j [] ⊎ QueuedFor (λ n. Memᴰ n both_wait × MayQueue "p" "m" both_wait [] n) j)
      one_job.jobs
    × All
        (λ n. (¬ MayQueue "p" "m" both_wait [] n) ⊎ (has_job "p" "m" one_job.jobs n.id ≡ true))
        both_wait
unfolding release_pending release_each enqueue_analysis_job emit_outbox_event decision_is_final
release_pending_order_example =
    release_pending_order (λ _. "id") 10 50 "p" "m" both_wait no_jobs
      (record { phase = decision_phase; queued = 2 ∷ []; store = one_job })
      (((λ e. absurd (omega (arith, e))), tt), (tt, tt)) tt refl

release_pending_again_example :
    release_pending (λ _. "id") 20 60 "p" "m" both_wait one_job
    ≡ ok (record { phase = decision_phase; queued = []; store = one_job })
unfolding release_pending release_each enqueue_analysis_job emit_outbox_event decision_is_final
release_pending_again_example =
    release_pending_again (λ _. "id") 10 20 50 60 "p" "m" both_wait no_jobs
      (record { phase = decision_phase; queued = 2 ∷ []; store = one_job }) tt refl

abbrev candidate : ℕ → Option ℕ → NodeCandidate
candidate id parent = record {
  id = id;
  suggested_parent_candidate = parent;
  suggested_parent_node = none;
  reviewed_parent_mode = inherit;
  reviewed_parent_candidate = none;
  reviewed_parent_node = none;
  review_status = approved;
  initial_review_node = some id;
}

-- The decision that the action's candidate was suggested for.
action_hint :
    resolve_parent_hint
      (candidate 1 (some 2) ∷ candidate 2 none ∷ [])
      both_wait
      (meeting_node 1 action unattached)
    ≡ some (record { node_id = 2; node_version = 1; origin = same_meeting_candidate })
unfolding resolve_parent_hint canonical_hint follow_hint
action_hint = refl
