-- ===== src/MeetingAnalysis/Inbox.antt =====
-- The two input queues and their join
-- (data-pipeline/data_pipeline/meeting_analysis/persistence.py). Each call is one transaction; a
-- unique-key error of a concurrent one leads to the same call again and has no step of its own. The
-- identifier of a new row, the time, the payload's hash and `str.strip` are arguments.
pub mod Join
use projectree.Base.{
  ℕ, Bool, true, false, not, ◌&&◌, ◌||◌, Option, none, some, List, [], ◌∷◌, ◌++◌, String, any, find,
  keep, if◌then◌else◌, ◌==◌, str_eq,
}
use projectree.Base.Result.{Fallible, ok, err, ◌>>=◌, ◌>>◌, refuse}
use projectree.Base.Table.{update_where}
use projectree.MeetingAnalysis.{
  TaskType, summary_task, nodes_task, TaskStatus, waiting_input, skipped, InputStatus, waiting,
  AnalysisCommand, Recording, AnalysisTask, AnalysisStore, is_waiting, is_waiting_input, in_room,
}

pub data InboxError : Type 0 where
  blank_bucket recording_conflict command_conflict multiple_inputs : InboxError

abbrev pub Inbox : Type 0 → Type 0
Inbox A = Fallible InboxError A

-- `OpenViduEgressEvent`, as parsed.
pub record RecordingMessage : Type 0 where
  pub project_id : String
  pub room_name : String
  pub egress_id : String
  pub object_key : String
  pub kind : String
  pub member_id : Option String
  pub ended_at_raw : Option String

-- `MeetingAnalysisCommandMessage`
pub record CommandMessage : Type 0 where
  pub command_id : ℕ
  pub project_id : String
  pub meeting_id : String
  pub room_name : String
  pub generate_summary : Bool
  pub generate_nodes : Bool
  pub requested_at : ℕ

-- `scalar_one_or_none`
abbrev pub one_or_none {ℓ} : {A : Type ℓ} → List A → Fallible InboxError (Option A)
one_or_none [] = ok none
one_or_none (a ∷ []) = ok (some a)
one_or_none (_ ∷ _ ∷ _) = err multiple_inputs

-- WAITING_FOR_RECORDING or WAITING_FOR_COMMAND, or READY.
abbrev pub is_joinable : InputStatus → Bool
is_joinable waiting = true
is_joinable InputStatus.ready = true
is_joinable _ = false

abbrev pub open_commands : String → String → List AnalysisCommand → List AnalysisCommand
open_commands project room =
    keep (λ c. in_room project room c.project_id c.room_name && is_joinable c.status)

abbrev pub open_recordings : String → String → List Recording → List Recording
open_recordings project room =
    keep (λ r. in_room project room r.project_id r.room_name && is_joinable r.status)

abbrev pub task_status : Bool → Bool → TaskStatus
task_status false now_ready = skipped
task_status true true = TaskStatus.ready
task_status true false = waiting_input

-- Both inputs and the command's waiting tasks become READY.
unfoldable pub join_inputs : ℕ → AnalysisCommand → Recording → AnalysisStore → AnalysisStore
join_inputs now c r s = record s {
  commands =
      update_where (λ d. d.command_id == c.command_id)
        (λ d. record d { status = InputStatus.ready }) s.commands;
  recordings =
      update_where (λ p. p.id == r.id) (λ p. record p { status = InputStatus.ready }) s.recordings;
  tasks =
      update_where (λ t. t.command_id == c.command_id && is_waiting_input t.status)
        (λ t. record t { status = TaskStatus.ready; available_at = now }) s.tasks;
}

abbrev pub join_found :
    ℕ → Option AnalysisCommand → Option Recording → AnalysisStore → AnalysisStore
join_found now (some c) (some r) s = join_inputs now c r s
join_found now _ _ s = s

-- `_join`
unfoldable pub join : ℕ → String → String → AnalysisStore → Inbox AnalysisStore
join now project room s = do
  command ← one_or_none (open_commands project room s.commands)
  recording ← one_or_none (open_recordings project room s.recordings)
  ok (join_found now command recording s)

abbrev same_identity : RecordingMessage → String → Recording → Bool
same_identity e bucket r =
    str_eq r.project_id e.project_id
    && (str_eq r.room_name e.room_name
        && (str_eq r.egress_id e.egress_id
            && (str_eq r.recording_bucket bucket
                && (str_eq r.object_key e.object_key && str_eq r.kind e.kind))))

abbrev pub new_recording : ℕ → RecordingMessage → String → Recording
new_recording id e bucket = record {
  id = id;
  project_id = e.project_id;
  room_name = e.room_name;
  egress_id = e.egress_id;
  kind = e.kind;
  member_id = e.member_id;
  recording_bucket = bucket;
  object_key = e.object_key;
  ended_at_raw = e.ended_at_raw;
  status = waiting;
}

-- The rows that the message's egress or object is known by.
abbrev pub known_recording : RecordingMessage → String → List Recording → Option Recording
known_recording e bucket = find (λ r.
    str_eq r.egress_id e.egress_id
    || (str_eq r.recording_bucket bucket && str_eq r.object_key e.object_key))

abbrev pub receive_recording :
    Option Recording
    → (id now : ℕ) → RecordingMessage
    → String
    → AnalysisStore
    → Inbox (AnalysisStore × Bool)
receive_recording (some r) id now e bucket s =
    if same_identity e bucket r then ok (s, false) else err recording_conflict
receive_recording none id now e bucket s =
    join now e.project_id e.room_name
      (record s { recordings = s.recordings ++ new_recording id e bucket ∷ [] })
    >>= λ s'. ok (s', true)

-- The flag tells whether a row was created.
unfoldable pub persist_recording_ready :
    (String → String)
    → (id now : ℕ) → RecordingMessage
    → String
    → AnalysisStore
    → Inbox (AnalysisStore × Bool)
persist_recording_ready strip id now e bucket s = do
  refuse (str_eq (strip bucket) "") blank_bucket
  receive_recording (known_recording e bucket s.recordings) id now e bucket s

abbrev pub new_task : ℕ → TaskType → TaskStatus → ℕ → AnalysisTask
new_task command kind status now = record {
  command_id = command;
  task_type = kind;
  status = status;
  attempt_count = 0;
  max_attempts = 3;
  claim_token = none;
  claimed_at = none;
  available_at = now;
  failure_code = none;
  last_error = none;
  updated_at = now;
}

abbrev pub new_command : CommandMessage → String → InputStatus → AnalysisCommand
new_command c hash status = record {
  command_id = c.command_id;
  project_id = c.project_id;
  meeting_id = c.meeting_id;
  room_name = c.room_name;
  generate_summary = c.generate_summary;
  generate_nodes = c.generate_nodes;
  requested_at = c.requested_at;
  status = status;
  payload_hash = hash;
}

abbrev pub has_recording : Option Recording → Bool
has_recording none = false
has_recording (some _) = true

-- A command with its two tasks.
unfoldable pub add_command : ℕ → CommandMessage → String → Bool → AnalysisStore → AnalysisStore
add_command now c hash recorded s = record s {
  commands =
      s.commands ++ new_command c hash (if recorded then InputStatus.ready else waiting) ∷ [];
  tasks =
      s.tasks
      ++ new_task c.command_id summary_task (task_status c.generate_summary recorded) now
        ∷ new_task c.command_id nodes_task (task_status c.generate_nodes recorded) now
        ∷ [];
}

abbrev pub known_command : CommandMessage → List AnalysisCommand → Option AnalysisCommand
known_command c = find (λ d.
    d.command_id == c.command_id
    || (str_eq d.project_id c.project_id && str_eq d.meeting_id c.meeting_id))

abbrev pub receive_command :
    Option AnalysisCommand
    → ℕ
    → CommandMessage
    → String
    → AnalysisStore
    → Inbox (AnalysisStore × Bool)
receive_command (some d) now c hash s =
    if d.command_id == c.command_id && str_eq d.payload_hash hash
    then ok (s, false)
    else err command_conflict
receive_command none now c hash s = do
  recording ← one_or_none (open_recordings c.project_id c.room_name s.recordings)
  s' ← join now c.project_id c.room_name (add_command now c hash (has_recording recording) s)
  ok (s', true)

unfoldable pub persist_analysis_command :
    (CommandMessage → String) → ℕ → CommandMessage → AnalysisStore → Inbox (AnalysisStore × Bool)
persist_analysis_command command_hash now c s =
    receive_command (known_command c s.commands) now c (command_hash c) s
