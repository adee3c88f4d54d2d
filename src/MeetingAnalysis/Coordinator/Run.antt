-- ===== src/MeetingAnalysis/Coordinator/Run.antt =====
-- One round of the coordinator (`run_once` of
-- data-pipeline/data_pipeline/meeting_analysis/coordinator.py).
pub mod Ended
pub mod Stranded
use mathlib.Core.Option
use projectree.Base.{
  ℕ, Bool, true, false, not, ◌&&◌, Option, none, some, List, [], ◌∷◌, String, any, find, keep,
  if◌then◌else◌, ◌==◌, str_eq,
}
use projectree.Base.Result.{Fallible, ok, err, ◌>>=◌, ◌>>◌, refuse, or_raise}
use projectree.MeetingAnalysis.{
  TaskType, summary_task, nodes_task, AnalysisCommand, Recording, AnalysisStore, same_task_type,
  in_room,
}
use projectree.MeetingAnalysis.Coordinator.{
  CoordinatorError, Coordinated, missing_input, input_mismatch, TaskClaim, Taken, TaskError,
  ErrorTexts, claim_ready, record_task_success, record_task_failure, finish_inputs,
}

pub data TaskFate : Type 0 where
  succeeds retries fails : TaskFate

-- An exception of the loader or of a processor: `TaskProcessingError`, or any other.
pub data Raised : Type 0 where
  task_error : TaskError → Raised
  other_error : (message described : String) → Raised

-- What the code outside of the coordinator does in a round; `order` is the order of `as_completed`.
pub record Outside : Type 0 where
  pub transcript : TaskClaim → Option (String × String)
  pub processor : TaskType → Option Raised
  pub order : List TaskType → List TaskType
  pub texts : ErrorTexts

pub record CoordinatorRunResult : Type 0 where
  pub has_claimed : Bool
  pub command_id : Option ℕ
  pub transcript_loads : ℕ
  pub succeeded_types : List TaskType
  pub retrying_types : List TaskType
  pub failed_types : List TaskType

-- The store that is left, also after an exception.
abbrev pub Run : Type 0 → Type 0
Run A = AnalysisStore × Coordinated A

abbrev default_error : String → String → String → TaskError
default_error code message described = record {
  failure_code = code;
  retryable = true;
  emit_failure_event = true;
  message = message;
  described = described;
}

abbrev failure_of : TaskType → Raised → TaskError
failure_of kind (task_error e) = e
failure_of summary_task (other_error message described) =
    default_error "SUMMARY_GENERATION_FAILED" message described
failure_of nodes_task (other_error message described) =
    default_error "NODES_FAILED" message described

abbrev fate_of : Bool → TaskFate
fate_of final = if final then fails else retries

-- The outcome of one task, recorded.
abbrev pub record_outcome :
    ErrorTexts
    → ℕ
    → TaskClaim
    → TaskType
    → Option TaskError
    → AnalysisStore
    → Coordinated (AnalysisStore × TaskFate)
record_outcome texts now claim kind none s =
    record_task_success now claim kind s >>= λ s'. ok (s', succeeds)
record_outcome texts now claim kind (some e) s =
    record_task_failure texts now claim kind e s >>= λ r. ok (r.0, fate_of r.1)

-- An exception of a recording ends the loop, with what was committed before it.
abbrev pub after_outcome :
    AnalysisStore
    → TaskType
    → (AnalysisStore → Run (List (TaskType × TaskFate)))
    → Coordinated (AnalysisStore × TaskFate)
    → Run (List (TaskType × TaskFate))
after_outcome s kind rest (err e) = (s, err e)
after_outcome s kind rest (ok r) =
    let tail = rest r.0 in (tail.0, tail.1 >>= λ fates. ok ((kind, r.1) ∷ fates))

unfoldable pub record_outcomes :
    ErrorTexts
    → ℕ
    → TaskClaim
    → (TaskType → Option TaskError)
    → List TaskType
    → AnalysisStore
    → Run (List (TaskType × TaskFate))
record_outcomes texts now claim outcome [] s = (s, ok [])
record_outcomes texts now claim outcome (kind ∷ kinds) s =
    after_outcome s kind (λ u. record_outcomes texts now claim outcome kinds u)
      (record_outcome texts now claim kind (outcome kind) s)

abbrev is_fate : TaskFate → TaskFate → Bool
is_fate succeeds succeeds = true
is_fate retries retries = true
is_fate fails fails = true
is_fate _ _ = false

-- The claimed tasks with a fate, in the order of the claim.
abbrev with_fate : TaskFate → List TaskType → List (TaskType × TaskFate) → List TaskType
with_fate f kinds fates =
    keep (λ kind. any (λ r. same_task_type r.0 kind && is_fate f r.1) fates) kinds

abbrev pub run_result : TaskClaim → ℕ → List (TaskType × TaskFate) → CoordinatorRunResult
run_result claim loads fates = record {
  has_claimed = true;
  command_id = some claim.command_id;
  transcript_loads = loads;
  succeeded_types = with_fate succeeds claim.task_types fates;
  retrying_types = with_fate retries claim.task_types fates;
  failed_types = with_fate fails claim.task_types fates;
}

abbrev pub idle : CoordinatorRunResult
idle = record {
  has_claimed = false;
  command_id = none;
  transcript_loads = 0;
  succeeded_types = [];
  retrying_types = [];
  failed_types = [];
}

-- `_load_inputs`
abbrev pub load_inputs : TaskClaim → AnalysisStore → Coordinated (Unit {0})
load_inputs claim s = do
  c ← or_raise (find (λ c. c.command_id == claim.command_id) s.commands) missing_input
  r ← or_raise (find (λ r. r.id == claim.recording_id) s.recordings) input_mismatch
  refuse (not (in_room c.project_id c.room_name r.project_id r.room_name)) input_mismatch
  ok tt

abbrev pub after_finish :
    TaskClaim
    → ℕ
    → List (TaskType × TaskFate)
    → AnalysisStore
    → Coordinated AnalysisStore
    → Run CoordinatorRunResult
after_finish claim loads fates s (err e) = (s, err e)
after_finish claim loads fates s (ok s') = (s', ok (run_result claim loads fates))

abbrev pub finish_run : TaskClaim → ℕ → Run (List (TaskType × TaskFate)) → Run CoordinatorRunResult
finish_run claim loads (s, err e) = (s, err e)
finish_run claim loads (s, ok fates) =
    after_finish claim loads fates s (finish_inputs claim.command_id claim.recording_id s)

abbrev outcome_of : Outside → TaskType → Option TaskError
outcome_of out kind = Option.map (failure_of kind) (out.processor kind)

-- The transcript, then the tasks. A loader that raises fails each task with STT_FAILED.
abbrev pub process :
    ℕ
    → Outside
    → TaskClaim
    → Option (String × String)
    → AnalysisStore
    → Run (List (TaskType × TaskFate))
process now out claim (some raised) s =
    record_outcomes out.texts now claim (λ _. some (default_error "STT_FAILED" raised.0 raised.1))
      claim.task_types s
process now out claim none s =
    record_outcomes out.texts now claim (outcome_of out) (out.order claim.task_types) s

abbrev pub is_empty : List TaskType → Bool
is_empty [] = true
is_empty (_ ∷ _) = false

abbrev pub run_tasks : ℕ → Outside → TaskClaim → AnalysisStore → Run CoordinatorRunResult
run_tasks now out claim s =
    if is_empty claim.task_types
    then finish_run claim 0 (s, ok [])
    else finish_run claim 1 (process now out claim (out.transcript claim) s)

abbrev pub after_inputs :
    ℕ → Outside → TaskClaim → AnalysisStore → Coordinated (Unit {0}) → Run CoordinatorRunResult
after_inputs now out claim s (err e) = (s, err e)
after_inputs now out claim s (ok _) = run_tasks now out claim s

abbrev pub after_claim : ℕ → Outside → AnalysisStore → Taken → Run CoordinatorRunResult
after_claim now out s (err e) = (s, err e)
after_claim now out s (ok none) = (s, ok idle)
after_claim now out s (ok (some r)) = after_inputs now out r.0 r.1 (load_inputs r.0 r.1)

unfoldable pub run_once :
    (now later timeout token : ℕ)
    → (locked_command locked_recording : ℕ → Bool) → Outside
    → AnalysisStore
    → Run CoordinatorRunResult
run_once now later timeout token locked_command locked_recording out s =
    after_claim later out s (claim_ready now timeout token locked_command locked_recording s)
