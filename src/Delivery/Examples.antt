-- ===== src/Delivery/Examples.antt =====
-- A cycle of one meeting, and its barrier.
use projectree.Base.{◌≡◌, refl, true, false, ◌&&◌, none, some, [], ◌∷◌, str_eq}
use projectree.Delivery.{
  DeliveryStore, processing, succeeded, now_processing, now_succeeded, new_state, graph_ready,
  summary_ready, stage_analysis_processing, stage_analysis_failed, mark_ready,
  try_complete_analysis,
}
use projectree.Delivery.Marking.{Marked, mark_each}
use projectree.Delivery.Barrier.{completion_barrier}

abbrev empty_store : DeliveryStore
empty_store = record { delivery_state = λ _ _. none; events = [] }

abbrev first_cycle : DeliveryStore
first_cycle = record {
  delivery_state = λ project meeting. elim (str_eq project "p" && str_eq meeting "m") [
    | true ↦ some (new_state 1 "p" "m" processing)
    | false ↦ none
  ];
  events = record { project_id = "p"; external_meeting_id = "m"; payload = now_processing } ∷ [];
}

-- A failure that comes after the success is ignored.
late_failure_ignored :
    (stage_analysis_failed
      (λ _ t. t)
      9
      "LATE"
      none
      "p"
      "m"
      (mark_each "p" "m" ((2, graph_ready 4) ∷ (3, summary_ready 1) ∷ []) first_cycle)).0.status
    ≡ succeeded
unfolding stage_analysis_failed mark_ready try_complete_analysis
late_failure_ignored = refl

-- A new cycle starts after a failure.
restarted :
    (stage_analysis_processing 9 "p" "m"
      (stage_analysis_failed (λ _ t. t) 5 "CODE" none "p" "m" first_cycle).1).0.status
    ≡ processing
unfolding stage_analysis_failed stage_analysis_processing
restarted = refl

completion_barrier_example :
    Marked "p" "m" succeeded
      (some 5)
      (some 1)
      (record { project_id = "p"; external_meeting_id = "m"; payload = now_processing }
        ∷ record {
          project_id = "p";
          external_meeting_id = "m";
          payload = now_succeeded (some 4) (some 1);
        }
        ∷ [])
      (mark_each "p" "m"
        ((2, graph_ready 4) ∷ (3, summary_ready 1) ∷ (4, graph_ready 5) ∷ [])
        first_cycle)
completion_barrier_example =
    completion_barrier "p" "m" ((2, graph_ready 4) ∷ (3, summary_ready 1) ∷ (4, graph_ready 5) ∷ [])
      first_cycle (new_state 1 "p" "m" processing) (refl, refl, refl) refl refl refl
