-- ===== src/MeetingAnalysis/Examples.antt =====
-- The theorems on meeting analysis at concrete stores.
use projectree.Base.{◌≡◌, refl, true, false, none, [], ◌∷◌, map, String}
use projectree.Base.Result.{ok, err}
use projectree.MeetingAnalysis.{
  summary_task, nodes_task, TaskStatus, succeeded, skipped, InputStatus, completed, AnalysisStore,
}
use projectree.MeetingAnalysis.Inbox.{
  RecordingMessage, CommandMessage, multiple_inputs, new_command, new_recording, new_task,
  persist_recording_ready, join,
}
use projectree.MeetingAnalysis.Inbox.Join.{
  command_then_recording, recording_then_command, BothReady, inputs_meet,
}
use projectree.MeetingAnalysis.Coordinator.{
  claim_ready, claim_first, has_work, take_command, record_task_success, finish_inputs,
}
use projectree.MeetingAnalysis.Coordinator.Run.{Outside, run_once, record_outcomes}
use projectree.MeetingAnalysis.Coordinator.Run.Ended.{Stranded}
use projectree.MeetingAnalysis.Coordinator.Run.Stranded.{Round, after_rounds, run_once-Stranded}

abbrev command : CommandMessage
command = record {
  command_id = 7;
  project_id = "p";
  meeting_id = "m";
  room_name = "r";
  generate_summary = true;
  generate_nodes = false;
  requested_at = 1;
}

abbrev recording : RecordingMessage
recording = record {
  project_id = "p";
  room_name = "r";
  egress_id = "e";
  object_key = "k";
  kind = "MIXED";
  member_id = none;
  ended_at_raw = none;
}

abbrev empty : AnalysisStore
empty = record { commands = []; recordings = []; tasks = []; events = [] }

abbrev same_text : String → String
same_text s = s

abbrev hash : CommandMessage → String
hash c = "h"

inputs_meet_example :
    (s1 : AnalysisStore) × (s2 : AnalysisStore) × (command_then_recording same_text hash 4 10 20
        command recording "b" empty
      ≡ ok s1)
    × (recording_then_command same_text hash 4 10 20 command recording "b" empty ≡ ok s2)
    × BothReady hash 4 command recording "b" empty s1
    × BothReady hash 4 command recording "b" empty s2
inputs_meet_example =
    inputs_meet same_text hash 4 10 20 command recording "b" empty refl refl refl refl refl refl
      refl refl refl

-- While a first recording of a room waits, a second one is not stored.
abbrev one_waiting : AnalysisStore
one_waiting = record empty { recordings = new_recording 4 recording "b" ∷ [] }

second_recording_refused :
    persist_recording_ready same_text 5 9
      (record recording { egress_id = "e2"; object_key = "k2" })
      "b"
      one_waiting
    ≡ err multiple_inputs
unfolding persist_recording_ready join
second_recording_refused = refl

abbrev ready_store : AnalysisStore
ready_store = record {
  commands = new_command command "h" InputStatus.ready ∷ [];
  recordings = record (new_recording 4 recording "b") { status = InputStatus.ready } ∷ [];
  tasks = new_task 7 summary_task TaskStatus.ready 0 ∷ new_task 7 nodes_task skipped 0 ∷ [];
  events = [];
}

abbrev calm : Outside
calm = record {
  transcript = λ _. none;
  processor = λ _. none;
  order = λ kinds. kinds;
  texts = record { strip = same_text; cut = λ n s. s };
}

abbrev round : Round
round = record {
  now = 100;
  later = 200;
  timeout = 900;
  token = 3;
  locked_command = λ _. false;
  locked_recording = λ _. false;
  outside = calm;
}

-- A round that nothing disturbs completes the command.
round_completes :
    map (λ c. c.status) (after_rounds (round ∷ []) ready_store).commands ≡ completed ∷ []
unfolding run_once claim_ready claim_first has_work take_command record_outcomes record_task_success
    finish_inputs
round_completes = refl

-- The worker ended after it recorded the outcome.
abbrev left_behind : AnalysisStore
left_behind = record {
  commands = new_command command "h" InputStatus.processing ∷ [];
  recordings = record (new_recording 4 recording "b") { status = InputStatus.processing } ∷ [];
  tasks = new_task 7 summary_task succeeded 0 ∷ new_task 7 nodes_task skipped 0 ∷ [];
  events = [];
}

run_once-Stranded_example : Stranded 7 (after_rounds (round ∷ round ∷ []) left_behind)
run_once-Stranded_example =
    run_once-Stranded 7 (round ∷ round ∷ []) left_behind
      ((((λ e. refl), ((λ e. refl), tt)), refl), ((λ e. refl), tt))
