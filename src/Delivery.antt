-- ===== src/Delivery.antt =====
-- The completion barrier of a meeting's analysis
-- (data-pipeline/data_pipeline/pipeline/event_contract.py and the AnalysisDeliveryState table). The
-- table is a map from a project and a meeting, which its unique key makes it. The time and the slice
-- `text[:n]` are arguments.
pub mod Marking
pub mod Barrier
mod Examples
use projectree.Base.{
  ℕ, Bool, true, false, not, ◌&&◌, ◌||◌, Option, none, some, List, [], ◌∷◌, ◌++◌, String,
  if◌then◌else◌, str_eq,
}

pub data DeliveryStatus : Type 0 where
  processing succeeded failed : DeliveryStatus

pub record DeliveryState : Type 0 where
  pub project_id : String
  pub external_meeting_id : String
  pub status : DeliveryStatus
  pub required_graph_version : Option ℕ
  pub required_summary_version : Option ℕ
  pub failure_code : Option String
  pub failure_message : Option String
  pub updated_at : ℕ

-- What the payload of an event says of the status.
pub data StatusPayload : Type 0 where
  now_processing : StatusPayload
  now_succeeded : (graph summary : Option ℕ) → StatusPayload
  now_failed : (code message : Option String) → StatusPayload

pub record StatusEvent : Type 0 where
  pub project_id : String
  pub external_meeting_id : String
  pub payload : StatusPayload

pub record DeliveryStore : Type 0 where
  pub delivery_state : String → String → Option DeliveryState
  pub events : List StatusEvent

-- An empty text is left out.
abbrev nonempty_text : Option String → Option String
nonempty_text none = none
nonempty_text (some t) = if str_eq t "" then none else some t

abbrev pub payload_of : DeliveryState → DeliveryStatus → StatusPayload
payload_of s processing = now_processing
payload_of s succeeded = now_succeeded s.required_graph_version s.required_summary_version
payload_of s failed = now_failed s.failure_code (nonempty_text s.failure_message)

abbrev pub put_state : DeliveryState → DeliveryStore → DeliveryStore
put_state s store = record store {
  delivery_state = λ project meeting.
      if str_eq project s.project_id && str_eq meeting s.external_meeting_id
      then some s
      else store.delivery_state project meeting;
}

-- `_stage_analysis_event`, of a state that is written with it.
abbrev pub stage_analysis_event : DeliveryState → DeliveryStore → DeliveryStore
stage_analysis_event s store = record store {
  events =
      store.events
      ++ record {
        project_id = s.project_id;
        external_meeting_id = s.external_meeting_id;
        payload = payload_of s s.status;
      }
        ∷ [];
}

abbrev pub new_state : ℕ → String → String → DeliveryStatus → DeliveryState
new_state now project meeting status = record {
  project_id = project;
  external_meeting_id = meeting;
  status = status;
  required_graph_version = none;
  required_summary_version = none;
  failure_code = none;
  failure_message = none;
  updated_at = now;
}

abbrev pub is_processing : DeliveryStatus → Bool
is_processing processing = true
is_processing _ = false

abbrev pub is_succeeded : DeliveryStatus → Bool
is_succeeded succeeded = true
is_succeeded _ = false

abbrev pub is_failed : DeliveryStatus → Bool
is_failed failed = true
is_failed _ = false

abbrev pub write_state : DeliveryState → DeliveryStore → DeliveryState × DeliveryStore
write_state s store = (s, stage_analysis_event s (put_state s store))

-- A new cycle clears what the last one left.
abbrev pub restart : ℕ → DeliveryState → DeliveryState
restart now s = record s {
  status = processing;
  required_graph_version = none;
  required_summary_version = none;
  failure_code = none;
  failure_message = none;
  updated_at = now;
}

unfoldable pub stage_analysis_processing :
    ℕ → String → String → DeliveryStore → DeliveryState × DeliveryStore
stage_analysis_processing now project meeting store = elim (store.delivery_state project meeting) [
  | none ↦ write_state (new_state now project meeting processing) store
  | some s ↦ if is_processing s.status then (s, store) else write_state (restart now s) store
]

abbrev pub fail_state :
    (ℕ → String → String) → ℕ → String → Option String → DeliveryState → DeliveryState
fail_state cut now code message s = record s {
  status = failed;
  failure_code = some (cut 128 code);
  failure_message = elim (nonempty_text message) [ none ↦ none | some text ↦ some (cut 500 text) ];
  updated_at = now;
}

unfoldable pub stage_analysis_failed :
    (ℕ → String → String)
    → ℕ
    → String
    → Option String
    → String
    → String
    → DeliveryStore
    → DeliveryState × DeliveryStore
stage_analysis_failed cut now code message project meeting store =
    elim (store.delivery_state project meeting) [
      | none ↦
          write_state (fail_state cut now code message (new_state now project meeting failed)) store
      | some s ↦
          if is_succeeded s.status
          then (s, store)
          else write_state (fail_state cut now code message s) store
    ]

abbrev pub is_set : Option ℕ → Bool
is_set none = false
is_set (some _) = true

abbrev pub complete_state : ℕ → DeliveryState → DeliveryStore → DeliveryStore
complete_state now s store =
    if is_failed s.status
      || (not (is_set s.required_graph_version && is_set s.required_summary_version)
          || is_succeeded s.status)
    then store
    else (write_state (record s { status = succeeded; updated_at = now }) store).1

unfoldable pub try_complete_analysis : ℕ → String → String → DeliveryStore → DeliveryStore
try_complete_analysis now project meeting store = elim (store.delivery_state project meeting) [
  | none ↦ store
  | some s ↦ complete_state now s store
]

-- The state of the meeting, of a new cycle where there is none.
abbrev pub state_or_processing : ℕ → String → String → DeliveryStore → DeliveryState × DeliveryStore
state_or_processing now project meeting store = elim (store.delivery_state project meeting) [
  | none ↦ stage_analysis_processing now project meeting store
  | some s ↦ (s, store)
]

-- `mark_graph_ready` and `mark_summary_ready`
pub data Mark : Type 0 where
  graph_ready summary_ready : ℕ → Mark

abbrev pub note_version : ℕ → Mark → DeliveryState → DeliveryState
note_version now (graph_ready version) s = record s {
  required_graph_version = some version;
  updated_at = now;
}
note_version now (summary_ready version) s = record s {
  required_summary_version = some version;
  updated_at = now;
}

unfoldable pub mark_ready : ℕ → Mark → String → String → DeliveryStore → DeliveryStore
mark_ready now mark project meeting store =
    let (s, found) = state_or_processing now project meeting store in
    try_complete_analysis now project meeting (put_state (note_version now mark s) found)
