-- ===== src/MeetingAnalysis.antt =====
-- The inputs of a meeting analysis: Java's command, the recording it waits for and the two tasks of
-- the command (the tables of data-pipeline/data_pipeline/storage/models.py). Identifiers are numbers,
-- an instant is a number of microseconds, and a claim token is a number that is drawn once.
pub mod Inbox
pub mod Coordinator
mod Examples
use projectree.Base.{ℕ, Bool, true, false, ◌&&◌, Option, none, some, List, [], ◌∷◌, String, str_eq}

pub data TaskType : Type 0 where
  summary_task nodes_task : TaskType

pub data TaskStatus : Type 0 where
  waiting_input ready processing succeeded failed skipped : TaskStatus

-- The statuses of a command, and of a recording, which waits for the other input.
pub data InputStatus : Type 0 where
  waiting ready claimed processing completed failed : InputStatus

pub record AnalysisCommand : Type 0 where
  pub command_id : ℕ
  pub project_id : String
  pub meeting_id : String
  pub room_name : String
  pub generate_summary : Bool
  pub generate_nodes : Bool
  pub requested_at : ℕ
  pub status : InputStatus
  pub payload_hash : String

pub record Recording : Type 0 where
  pub id : ℕ
  pub project_id : String
  pub room_name : String
  pub egress_id : String
  pub kind : String
  pub member_id : Option String
  pub recording_bucket : String
  pub object_key : String
  pub ended_at_raw : Option String
  pub status : InputStatus

pub record AnalysisTask : Type 0 where
  pub command_id : ℕ
  pub task_type : TaskType
  pub status : TaskStatus
  pub attempt_count : ℕ
  pub max_attempts : ℕ
  pub claim_token : Option ℕ
  pub claimed_at : Option ℕ
  pub available_at : ℕ
  pub failure_code : Option String
  pub last_error : Option String
  pub updated_at : ℕ

-- The event that a task has failed for good.
pub record TaskFailed : Type 0 where
  pub command_id : ℕ
  pub task_type : TaskType
  pub failure_code : String
  pub failure_message : String

pub record AnalysisStore : Type 0 where
  pub commands : List AnalysisCommand
  pub recordings : List Recording
  pub tasks : List AnalysisTask
  pub events : List TaskFailed

abbrev pub same_task_type : TaskType → TaskType → Bool
same_task_type summary_task summary_task = true
same_task_type nodes_task nodes_task = true
same_task_type _ _ = false

abbrev pub is_waiting : InputStatus → Bool
is_waiting waiting = true
is_waiting _ = false

abbrev pub is_waiting_input : TaskStatus → Bool
is_waiting_input waiting_input = true
is_waiting_input _ = false

abbrev pub is_ready_task : TaskStatus → Bool
is_ready_task TaskStatus.ready = true
is_ready_task _ = false

abbrev pub is_skipped : TaskStatus → Bool
is_skipped skipped = true
is_skipped _ = false

abbrev pub is_processing_task : TaskStatus → Bool
is_processing_task TaskStatus.processing = true
is_processing_task _ = false

-- SUCCEEDED, FAILED and SKIPPED are for good.
abbrev pub is_terminal_task : TaskStatus → Bool
is_terminal_task succeeded = true
is_terminal_task TaskStatus.failed = true
is_terminal_task skipped = true
is_terminal_task _ = false

-- A row of a room of a project.
abbrev pub in_room : String → String → String → String → Bool
in_room project room row_project row_room = str_eq row_project project && str_eq row_room room
