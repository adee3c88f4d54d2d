-- ===== src/MeetingAnalysis/Coordinator.antt =====
-- The coordinator of the tasks
-- (data-pipeline/data_pipeline/meeting_analysis/coordinator.py, with stage_task_failed_v3 of
-- result_events.py). Each method is a transaction of its own: `run_once` keeps what was committed
-- before an exception. The rows that other transactions hold, the token that is drawn, the time, what
-- the transcript loader and the processors do and in which order they end are arguments.
pub mod Run
use projectree.Base.{
  ℕ, ◌+◌, Bool, true, false, not, ◌&&◌, ◌||◌, Option, none, some, List, [], ◌∷◌, ◌++◌, map, String,
  any, all, find, keep, if◌then◌else◌, ◌==◌, str_eq, leb, ltb, holds,
}
use projectree.Base.Result.{Fallible, ok, err, ◌>>=◌, ◌>>◌, refuse, or_raise}
use projectree.Base.Sorting.{sort_by}
use projectree.Base.Table.{update_where}
use projectree.MeetingAnalysis.{
  TaskType, summary_task, nodes_task, TaskStatus, succeeded, InputStatus, completed,
  AnalysisCommand, Recording, AnalysisTask, AnalysisStore, TaskFailed, same_task_type,
  is_ready_task, is_skipped, is_processing_task, is_terminal_task, in_room,
}

pub data CoordinatorError : Type 0 where
  multiple_recordings missing_input input_mismatch claim_lost blank_code : CoordinatorError

abbrev pub Coordinated {ℓ} : Type ℓ → Type ℓ
Coordinated A = Fallible CoordinatorError A

pub record TaskClaim : Type 0 where
  pub command_id : ℕ
  pub recording_id : ℕ
  pub claim_token : ℕ
  pub task_types : List TaskType

abbrev pub is_active : InputStatus → Bool
is_active InputStatus.ready = true
is_active InputStatus.processing = true
is_active _ = false

-- `task.claimed_at < now - timeout`
abbrev pub is_stale : ℕ → ℕ → Option ℕ → Bool
is_stale now timeout none = false
is_stale now timeout (some t) = ltb (t + timeout) now

abbrev pub is_claimable_task : ℕ → ℕ → AnalysisTask → Bool
is_claimable_task now timeout t =
    is_ready_task t.status || (is_processing_task t.status && is_stale now timeout t.claimed_at)

abbrev by_request : AnalysisCommand → AnalysisCommand → Bool
by_request a b = leb a.requested_at b.requested_at

-- NODES comes before SUMMARY.
abbrev by_type : AnalysisTask → AnalysisTask → Bool
by_type a b = same_task_type a.task_type nodes_task || same_task_type b.task_type summary_task

abbrev pub tasks_of : ℕ → List AnalysisTask → List AnalysisTask
tasks_of command tasks = sort_by by_type (keep (λ t. t.command_id == command) tasks)

abbrev pub one_recording : List Recording → Coordinated (Option Recording)
one_recording [] = ok none
one_recording (r ∷ []) = ok (some r)
one_recording (_ ∷ _ ∷ _) = err multiple_recordings

abbrev pub active_recordings : (ℕ → Bool) → AnalysisCommand → List Recording → List Recording
active_recordings locked c = keep (λ r.
    in_room c.project_id c.room_name r.project_id r.room_name
    && (is_active r.status && not (locked r.id)))

abbrev pub start_task : ℕ → ℕ → AnalysisTask → AnalysisTask
start_task token now t = record t {
  status = TaskStatus.processing;
  claim_token = some token;
  claimed_at = some now;
  attempt_count = t.attempt_count + 1;
  failure_code = none;
  last_error = none;
}

abbrev pub set_command : ℕ → InputStatus → List AnalysisCommand → List AnalysisCommand
set_command id status = update_where (λ c. c.command_id == id) (λ c. record c { status = status })

abbrev pub set_recording : ℕ → InputStatus → List Recording → List Recording
set_recording id status = update_where (λ r. r.id == id) (λ r. record r { status = status })

-- The writes of a claim.
unfoldable pub take_command :
    (now timeout token : ℕ)
    → AnalysisCommand
    → Recording
    → AnalysisStore
    → TaskClaim × AnalysisStore
take_command now timeout token c r s = (
  record {
    command_id = c.command_id;
    recording_id = r.id;
    claim_token = token;
    task_types =
        map (λ t. t.task_type)
          (keep (is_claimable_task now timeout) (tasks_of c.command_id s.tasks));
  },
  record s {
    commands = set_command c.command_id InputStatus.processing s.commands;
    recordings = set_recording r.id InputStatus.processing s.recordings;
    tasks =
        update_where (λ t. t.command_id == c.command_id && is_claimable_task now timeout t)
          (start_task token now) s.tasks;
  },
)

-- A command with work, or all of whose tasks are SKIPPED.
unfoldable pub has_work : (now timeout : ℕ) → ℕ → List AnalysisTask → Bool
has_work now timeout command tasks =
    any (is_claimable_task now timeout) (tasks_of command tasks)
    || all (λ t. is_skipped t.status) (tasks_of command tasks)

abbrev pub Taken : Type 0
Taken = Coordinated (Option (TaskClaim × AnalysisStore))

-- A command with a recording and with work is taken; any other one is passed over.
abbrev pub take_or_pass :
    Bool → (Recording → TaskClaim × AnalysisStore) → Taken → Option Recording → Taken
take_or_pass work take next none = next
take_or_pass work take next (some r) = if work then ok (some (take r)) else next

-- The loop over the commands.
unfoldable pub claim_first :
    (now timeout token : ℕ) → (ℕ → Bool) → List AnalysisCommand → AnalysisStore → Taken
claim_first now timeout token locked [] s = ok none
claim_first now timeout token locked (c ∷ commands) s =
    let next = claim_first now timeout token locked commands s in
    one_recording (active_recordings locked c s.recordings)
    >>= take_or_pass (has_work now timeout c.command_id s.tasks)
        (λ r. take_command now timeout token c r s) next

-- `_claim_ready`
unfoldable pub claim_ready :
    (now timeout token : ℕ) → (locked_command locked_recording : ℕ → Bool) → AnalysisStore → Taken
claim_ready now timeout token locked_command locked_recording s =
    claim_first now timeout token locked_recording
      (keep (λ c. not (locked_command c.command_id))
        (sort_by by_request (keep (λ c. is_active c.status) s.commands)))
      s

-- The task is still this claim's.
abbrev pub owns_task : TaskClaim → TaskType → AnalysisTask → Bool
owns_task claim kind t =
    t.command_id == claim.command_id
    && (same_task_type t.task_type kind
        && (is_processing_task t.status && holds t.claim_token claim.claim_token))

abbrev pub end_task : TaskStatus → ℕ → AnalysisTask → AnalysisTask
end_task status now t = record t {
  status = status;
  claim_token = none;
  claimed_at = none;
  updated_at = now;
}

-- `_record_success`
unfoldable pub record_task_success :
    ℕ → TaskClaim → TaskType → AnalysisStore → Coordinated AnalysisStore
record_task_success now claim kind s =
    if any (owns_task claim kind) s.tasks
    then ok
        (record s { tasks = update_where (owns_task claim kind) (end_task succeeded now) s.tasks })
    else err claim_lost

-- What `_record_failure` reads of an exception; `described` is the text that it stores.
pub record TaskError : Type 0 where
  pub failure_code : String
  pub retryable : Bool
  pub emit_failure_event : Bool
  pub message : String
  pub described : String

-- `str.strip` and the slice `text[:n]`.
pub record ErrorTexts : Type 0 where
  pub strip : String → String
  pub cut : ℕ → String → String

abbrev pub is_final_failure : TaskError → AnalysisTask → Bool
is_final_failure e t = not e.retryable || leb t.max_attempts t.attempt_count

abbrev pub fail_task : Bool → ℕ → TaskError → AnalysisTask → AnalysisTask
fail_task final now e t = record t {
  status = if final then TaskStatus.failed else TaskStatus.ready;
  claim_token = none;
  claimed_at = none;
  available_at = if final then t.available_at else now;
  failure_code = some e.failure_code;
  last_error = some e.described;
  updated_at = now;
}

-- `stage_task_failed_v3`
unfoldable pub stage_task_failed :
    ErrorTexts → ℕ → TaskType → TaskError → List TaskFailed → Coordinated (List TaskFailed)
stage_task_failed texts command kind e events = do
  let code = texts.strip e.failure_code
  let message = texts.strip e.message
  refuse (str_eq code "") blank_code
  ok (
      events
      ++ record {
        command_id = command;
        task_type = kind;
        failure_code = texts.cut 100 code;
        failure_message = texts.cut 1000 (if str_eq message "" then code else message);
      }
        ∷ [])

-- `_record_failure`; the flag tells whether the failure is final.
unfoldable pub record_task_failure :
    ErrorTexts
    → ℕ
    → TaskClaim
    → TaskType
    → TaskError
    → AnalysisStore
    → Coordinated (AnalysisStore × Bool)
record_task_failure texts now claim kind e s = do
  t ← or_raise (find (owns_task claim kind) s.tasks) claim_lost
  let final = is_final_failure e t
  let staged = stage_task_failed texts claim.command_id kind e s.events
  events ← (if final && e.emit_failure_event then staged else ok s.events)
  ok (
    record s {
      tasks = update_where (owns_task claim kind) (fail_task final now e) s.tasks;
      events = events;
    },
    final,
  )

abbrev pub set_inputs : (command recording : ℕ) → InputStatus → AnalysisStore → AnalysisStore
set_inputs command recording status s = record s {
  commands = set_command command status s.commands;
  recordings = set_recording recording status s.recordings;
}

-- The inputs of a command all of whose tasks are terminal, or of which one is READY, or neither.
abbrev pub settle_inputs :
    (all_terminal any_ready : Bool) → (command recording : ℕ) → AnalysisStore → AnalysisStore
settle_inputs true any_ready command recording s = set_inputs command recording completed s
settle_inputs false true command recording s = set_inputs command recording InputStatus.ready s
settle_inputs false false command recording s = s

-- `_finish_inputs_if_terminal`
unfoldable pub finish_inputs : (command recording : ℕ) → AnalysisStore → Coordinated AnalysisStore
finish_inputs command recording s = do
  refuse (not (any (λ c. c.command_id == command) s.commands)) missing_input
  refuse (not (any (λ r. r.id == recording) s.recordings)) missing_input
  let tasks = keep (λ t. t.command_id == command) s.tasks
  ok (
      settle_inputs (all (λ t. is_terminal_task t.status) tasks)
        (any (λ t. is_ready_task t.status) tasks) command recording s)
