-- ===== src/Outbox/Examples.antt =====
-- The outbox on concrete tables: runs that can be followed in the source, and each theorem at an input
-- that meets its hypotheses.
use mathlib.Core.Option
use mathlib.Core.List.Memᴰ
use projectree.Base.{
  All, ap, ◌++◌, ltb, min, ◌*◌, ◌≤◌, ◌⊎◌, if◌then◌else◌, ◌==◌, ◌+◌, ◌≡◌, refl, false, none, some,
  [], ◌∷◌, ℕ, Memᴰ, arith, length, List, ◌<◌, true, inl, inr,
}
use projectree.Base.Json.{null}
use projectree.Claiming.{backoff_delay, seconds, max_backoff_seconds}
use projectree.Outbox
use projectree.Outbox.{
  OutboxEvent, OutboxStatus, Claim, new_event, OutboxMessage, PublishResult, claim_order,
  publish_pending_events, publish_each, publish_one, claim_each, record_success, record_failure,
  Environment, emit_outbox_event, claim_batch, to_message, select_claimable, is_open, owns,
}
use projectree.Outbox.Relay.{
  World, Step, Reach, start, emit, claim, deliver, succeed, fail, here, next,
}
use projectree.Outbox.Relay.Safe.{IsSafe, Reach-IsSafe}
use projectree.Outbox.Relay.Exclusive.{final_frozen}
use projectree.Outbox.Counts.{publish_pending_events_total}
use projectree.Outbox.Queue.{
  ComesBefore, IsQueue, IsDue, select_claimable-IsDue, select_claimable_fair,
}
use projectree.Outbox.Retry.{Attempt, attempts, poison_event_dies, outcome_written_once}
use projectree.Claiming.Backoff.{backoff_delay_doubles}

abbrev queued_event : ℕ → ℕ → OutboxEvent
queued_event now id = new_event now id "PIPELINE_FAILED" "meeting" "m-1" "p-1" null

abbrev table : List OutboxEvent
table = queued_event 30 7 ∷ queued_event 10 8 ∷ queued_event 20 9 ∷ []

-- The transport rejects event 8.
abbrev moody : Environment
moody = record {
  publish = λ m. if m.event_id == 8 then some "RuntimeError: rejected" else none;
  clock = λ c. 1000;
}

-- The two oldest events are claimed; one is delivered and one waits for its next attempt.
run_moody :
    Option.map (λ t. t.2) (publish_pending_events moody 50 300 none (λ _. false) 2 0 table)
    ≡ some (record { claimed = 2; published = 1; failed = 1; dead = 0 })
unfolding publish_pending_events publish_each publish_one claim_batch claim_each record_success
    record_failure backoff_delay
run_moody = refl

publish_pending_events_total_example :
    (rows' : List OutboxEvent) × (sent : List OutboxMessage) × (result : PublishResult)
    × (publish_pending_events moody 50 300 none (λ _. false) 2 0 table ≡ some (rows', sent, result))
    × (result.published + result.failed + result.dead ≡ result.claimed)
    × (result.claimed ≡ length (select_claimable 50 none (λ _. false) 2 table))
publish_pending_events_total_example =
    publish_pending_events_total moody 50 300 none (λ _. false) 2 0 table (omega arith) refl

-- The third event waits for the next batch, which has room for two.
select_claimable_fair_example :
    (length (select_claimable 50 none (λ _. false) 2 table) ≡ 2)
    × All (λ s. ComesBefore s (queued_event 30 7)) (select_claimable 50 none (λ _. false) 2 table)
unfolding select_claimable
select_claimable_fair_example =
    select_claimable_fair 50 none (λ _. false) 2 table (queued_event 30 7) (Memᴰ.head refl)
      (inl refl, omega arith, tt) refl (not_chosen (Memᴰ.not-nil))
  where
    not_chosen :
        (Memᴰ (queued_event 30 7) [] → ⊥)
        → ¬ Memᴰ (queued_event 30 7) (queued_event 10 8 ∷ queued_event 20 9 ∷ [])
    not_chosen end m = elim (Memᴰ.cases_cons m) [
      | inl e ↦ absurd (omega (arith, ap (λ r. r.id) e))
      | inr n ↦ elim (Memᴰ.cases_cons n) [
        | inl e ↦ absurd (omega (arith, ap (λ r. r.id) e))
        | inr k ↦ end k
      ]
    ]

select_claimable-IsDue_example :
    IsQueue (select_claimable 50 none (λ _. false) 2 table)
    × (length (select_claimable 50 none (λ _. false) 2 table) ≤ 2)
    × All
        (λ r. Memᴰ r table × IsDue 50 none r × (false ≡ false))
        (select_claimable 50 none (λ _. false) 2 table)
select_claimable-IsDue_example = select_claimable-IsDue 50 none (λ _. false) 2 table

abbrev failure : ℕ → Attempt
failure n = record { claimed_at = n; stall = 300; token = n; failed_at = n + 1; error = "E: down" }

abbrev eight_failures : List Attempt
eight_failures =
    failure 1
    ∷ failure 2
    ∷ failure 3
    ∷ failure 4
    ∷ failure 5
    ∷ failure 6
    ∷ failure 7
    ∷ failure 8
    ∷ []

emitted_event :
    emit_outbox_event 40 5 "PIPELINE_FAILED" "meeting" "m-1" "p-1" null []
    ≡ some (queued_event 40 5 ∷ [])
unfolding emit_outbox_event
emitted_event = refl

-- A world in which event 5 was emitted and claimed.
abbrev claimed_world : World
claimed_world = record {
  rows = (claim_batch 50 300 none (λ _. false) 20 0 (queued_event 40 5 ∷ [])).0;
  next_token = 0 + length (claim_batch 50 300 none (λ _. false) 20 0 (queued_event 40 5 ∷ [])).1;
  held = (claim_batch 50 300 none (λ _. false) 20 0 (queued_event 40 5 ∷ [])).1 ++ [];
  sent = [];
}

claimed_world-Reach : Reach start claimed_world
claimed_world-Reach =
    next
      (next here (
        emit start 40 5 "PIPELINE_FAILED" "meeting" "m-1" "p-1" null (queued_event 40 5 ∷ []) tt
          emitted))
      (claim _ 50 300 none (λ _. false) 20)
  where
    emitted :
        emit_outbox_event 40 5 "PIPELINE_FAILED" "meeting" "m-1" "p-1" null []
        ≡ some (queued_event 40 5 ∷ [])
    emitted = emitted_event

Reach-IsSafe_example : IsSafe claimed_world
Reach-IsSafe_example = Reach-IsSafe claimed_world-Reach

poison_event_dies_example :
    (is_open (attempts (queued_event 10 8) (eight_failures)).status
      ≡ ltb (0 + length eight_failures) 8)
    × ((attempts (queued_event 10 8) eight_failures).attempt_count
        ≡ min (0 + length eight_failures) 8)
    × (((attempts (queued_event 10 8) eight_failures).status ≡ OutboxStatus.dead)
        ⊎ (0 + length eight_failures < 8))
poison_event_dies_example = poison_event_dies eight_failures (queued_event 10 8) refl (omega arith)

-- The first outcome of the claim is recorded.
first_outcome : (record_success 60 5 0 claimed_world.rows).1 ≡ true
unfolding claim_batch record_success
first_outcome = refl

outcome_written_once_example :
    let after_success = (record_success 60 5 0 claimed_world.rows).0 in
    let after_failure = (record_failure 60 5 0 "E: x" claimed_world.rows).0 in
    (record_success 70 5 0 after_success ≡ (after_success, false))
    × (record_success 70 5 0 after_failure ≡ (after_failure, false))
    × (record_failure 70 5 0 "E: x" after_success ≡ (after_success, none))
    × (record_failure 70 5 0 "E: x" after_failure ≡ (after_failure, none))
outcome_written_once_example = outcome_written_once 60 70 5 0 "E: x" claimed_world.rows

backoff_delay_doubles_example :
    (backoff_delay 0 (seconds 2) ≡ some 0)
    × (backoff_delay 1 (seconds 2) ≡ some (min (seconds 2) (seconds max_backoff_seconds)))
    × ((delay : ℕ) × (backoff_delay 4 (seconds 2) ≡ some delay)
        × (delay ≤ seconds max_backoff_seconds)
        × (backoff_delay 5 (seconds 2) ≡ some (min (2 * delay) (seconds max_backoff_seconds))))
    × (backoff_delay 1026 (seconds 2) ≡ none)
backoff_delay_doubles_example = backoff_delay_doubles 3 1 (seconds 2) (omega arith)

abbrev the_claim : Claim
the_claim = record { event_id = 5; claim_token = 0; message = to_message (queued_event 40 5) }

abbrev claimed_row : OutboxEvent
claimed_row = Outbox.claim_row 50 300 0 (queued_event 40 5)

the_claim_held : Memᴰ the_claim claimed_world.held
unfolding claim_batch
the_claim_held = Memᴰ.head refl

-- The event is delivered and recorded, and a second, late outcome of the same claim comes after it.
abbrev sent_world : World
sent_world = record claimed_world { sent = the_claim ∷ [] }

abbrev published_world : World
published_world = record sent_world { rows = (record_success 60 5 0 sent_world.rows).0 }

published_world-Reach : Reach start published_world
published_world-Reach =
    next (next claimed_world-Reach (deliver claimed_world the_claim the_claim_held))
      (succeed sent_world the_claim 60 (Memᴰ.head refl))

late_failure :
    Step published_world
      (record published_world { rows = (record_failure 99 5 0 "E: late" published_world.rows).0 })
late_failure = fail published_world the_claim 99 "E: late" the_claim_held

published_row_there : Memᴰ (Outbox.succeed 60 claimed_row) published_world.rows
unfolding claim_batch record_success
published_row_there = Memᴰ.head refl

final_frozen_example :
    Memᴰ (Outbox.succeed 60 claimed_row) (record_failure 99 5 0 "E: late" published_world.rows).0
final_frozen_example =
    final_frozen (Reach-IsSafe published_world-Reach) late_failure (inl refl) published_row_there
