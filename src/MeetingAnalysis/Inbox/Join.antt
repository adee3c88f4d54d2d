-- ===== src/MeetingAnalysis/Inbox/Join.antt =====
-- Two inputs of a room, in either order
-- (data-pipeline/data_pipeline/meeting_analysis/persistence.py).
use mathlib.Core.List.{map-append}
use projectree.Base.{
  ℕ, ◌≡◌, refl, ◌∙◌, ap, Bool, true, false, ◌&&◌, Option, none, some, List, [], ◌∷◌, ◌++◌, map,
  String, any, any_narrow, any_of_find-none, keep, keep-append, if◌then◌else◌, ◌==◌, ==_refl, arith,
  str_eq, str_eq_iff,
}
use projectree.Base.Result.{ok, ◌>>=◌}
use projectree.Base.Table.{update_where-append, when, when-hit}
use projectree.MeetingAnalysis.{
  TaskType, summary_task, nodes_task, TaskStatus, InputStatus, waiting, AnalysisCommand, Recording,
  AnalysisTask, AnalysisStore, in_room, is_waiting_input,
}
use projectree.MeetingAnalysis.Inbox.{
  Inbox, RecordingMessage, CommandMessage, one_or_none, is_joinable, open_commands, open_recordings,
  task_status, join_inputs, join, new_recording, known_recording, persist_recording_ready, new_task,
  new_command, add_command, known_command, has_recording, persist_analysis_command,
}

two_eq {ℓ} : {A : Type ℓ} {x x' y y' : A} → x ≡ x' → y ≡ y' → x ∷ y ∷ [] ≡ x' ∷ y' ∷ []
two_eq h k = cc

keep-new {ℓ} :
    {A : Type ℓ} (p : A → Bool) (xs : List A) (y : A)
    → keep p xs ≡ []
    → p y ≡ true
    → keep p (xs ++ y ∷ []) ≡ y ∷ []
keep-new p xs y old new = keep-append p xs (y ∷ []) ∙ rw (old, new) refl

module _ (now : ℕ) (project room : String) (s : AnalysisStore) where
  join-both :
      (c : AnalysisCommand) (r : Recording)
      → open_commands project room s.commands ≡ c ∷ []
      → open_recordings project room s.recordings ≡ r ∷ []
      → join now project room s ≡ ok (join_inputs now c r s)
  unfolding join
  join-both c r one two = rw (one, two) refl

  join-command :
      (c : AnalysisCommand)
      → open_commands project room s.commands ≡ c ∷ []
      → open_recordings project room s.recordings ≡ []
      → join now project room s ≡ ok s
  unfolding join
  join-command c one none_open = rw (one, none_open) refl

  join-recording :
      (r : Recording)
      → open_commands project room s.commands ≡ []
      → open_recordings project room s.recordings ≡ r ∷ []
      → join now project room s ≡ ok s
  unfolding join
  join-recording r none_open one = rw (none_open, one) refl

module _ (hash : CommandMessage → String) (now : ℕ) (c : CommandMessage) (s : AnalysisStore) where
  persist_command-new :
      (recs : Option Recording) (s' : AnalysisStore)
      → known_command c s.commands ≡ none
      → one_or_none (open_recordings c.project_id c.room_name s.recordings) ≡ ok recs
      → join now c.project_id c.room_name (add_command now c (hash c) (has_recording recs) s)
        ≡ ok s'
      → persist_analysis_command hash now c s ≡ ok (s', true)
  unfolding persist_analysis_command
  persist_command-new recs s' unknown one joined = rw (unknown, one, joined) refl

module _ (strip : String → String) (id now : ℕ) (e : RecordingMessage) (bucket : String)
    (s : AnalysisStore) where
  persist_recording-new :
      (s' : AnalysisStore)
      → str_eq (strip bucket) "" ≡ false
      → known_recording e bucket s.recordings ≡ none
      → join now e.project_id e.room_name
          (record s { recordings = s.recordings ++ new_recording id e bucket ∷ [] })
        ≡ ok s'
      → persist_recording_ready strip id now e bucket s ≡ ok (s', true)
  unfolding persist_recording_ready
  persist_recording-new s' named unknown joined = rw (named, unknown, joined) refl

two_calls :
    (m : Inbox (AnalysisStore × Bool)) (k : AnalysisStore → Inbox (AnalysisStore × Bool))
    (a b : AnalysisStore)
    → m ≡ ok (a, true)
    → k a ≡ ok (b, true)
    → (do x ← m; y ← k x.0; ok y.0) ≡ ok b
two_calls m k a b h1 h2 = rw h1 (rw h2 refl)

-- A command and a recording, delivered one after the other.
pub command_then_recording :
    (String → String)
    → (CommandMessage → String)
    → (id first second : ℕ) → CommandMessage
    → RecordingMessage
    → String
    → AnalysisStore
    → Inbox AnalysisStore
command_then_recording strip hash id first second c e bucket s = do
  a ← persist_analysis_command hash first c s
  b ← persist_recording_ready strip id second e bucket a.0
  ok b.0

pub recording_then_command :
    (String → String)
    → (CommandMessage → String)
    → (id first second : ℕ) → CommandMessage
    → RecordingMessage
    → String
    → AnalysisStore
    → Inbox AnalysisStore
recording_then_command strip hash id first second c e bucket s = do
  a ← persist_recording_ready strip id first e bucket s
  b ← persist_analysis_command hash second c a.0
  ok b.0

abbrev pub TaskMark : Type 0
TaskMark = ℕ × TaskType × TaskStatus

abbrev pub mark : AnalysisTask → TaskMark
mark t = (t.command_id, t.task_type, t.status)

-- Both inputs are there and READY, and so are the tasks that the command selects.
abbrev pub BothReady :
    (CommandMessage → String)
    → ℕ
    → CommandMessage
    → RecordingMessage
    → String
    → AnalysisStore
    → AnalysisStore
    → Type 0
BothReady hash id c e bucket s s' =
    (s'.commands ≡ s.commands ++ new_command c (hash c) InputStatus.ready ∷ [])
    × (s'.recordings
        ≡ s.recordings ++ record (new_recording id e bucket) { status = InputStatus.ready } ∷ [])
    × (map mark s'.tasks
        ≡ map mark s.tasks
          ++ (c.command_id, summary_task, task_status c.generate_summary true)
            ∷ (c.command_id, nodes_task, task_status c.generate_nodes true)
            ∷ [])

module _ (hash : CommandMessage → String) (id : ℕ) (c : CommandMessage) (e : RecordingMessage)
    (bucket : String) (s : AnalysisStore) where
  abbrev status_of : Bool → InputStatus
  status_of recorded = if recorded then InputStatus.ready else waiting

  -- Both rows, before they are joined.
  abbrev filled : ℕ → Bool → AnalysisStore
  unfolding add_command
  filled t recorded = record (add_command t c (hash c) recorded s) {
    recordings = s.recordings ++ new_recording id e bucket ∷ [];
  }

  marked :
      (now t : ℕ) (recorded selected : Bool) (kind : TaskType)
      → mark (
          when
            (λ k. k.command_id == c.command_id && is_waiting_input k.status)
            (λ k. record k { status = TaskStatus.ready; available_at = now })
            (new_task c.command_id kind (task_status selected recorded) t))
        ≡ (c.command_id, kind, task_status selected true)
  marked now t recorded false kind = rw (==_refl c.command_id) refl
  marked now t true true kind = rw (==_refl c.command_id) refl
  marked now t false true kind = rw (==_refl c.command_id) refl

  module _ (new_id : any (λ d. d.command_id == c.command_id) s.commands ≡ false)
      (no_tasks : any (λ t. t.command_id == c.command_id) s.tasks ≡ false)
      (new_recording_id : any (λ r. r.id == id) s.recordings ≡ false) where
    joined :
        (now t : ℕ) (recorded : Bool)
        → BothReady hash id c e bucket s (
            join_inputs now
              (new_command c (hash c) (status_of recorded))
              (new_recording id e bucket)
              (filled t recorded))
    unfolding join_inputs filled
    joined now t recorded = (
      update_where-append (λ d. d.command_id == c.command_id) _ s.commands _ new_id
          ∙ ap (λ d. s.commands ++ d ∷ [])
              (when-hit (λ d. d.command_id == c.command_id)
                (λ d. record d { status = InputStatus.ready })
                (new_command c (hash c) (status_of recorded)) (==_refl c.command_id)),
      update_where-append (λ r. r.id == id) _ s.recordings _ new_recording_id
          ∙ ap (λ r. s.recordings ++ r ∷ [])
              (when-hit (λ r. r.id == id) (λ p. record p { status = InputStatus.ready })
                (new_recording id e bucket) (==_refl id)),
      ap (map mark) (
            update_where-append (λ k. k.command_id == c.command_id && is_waiting_input k.status) _
              s.tasks _
              (any_narrow _ (λ k. k.command_id == c.command_id) s.tasks (λ k h. ground (arith, h))
                no_tasks))
          ∙ map-append mark s.tasks _
          ∙ ap (λ ms. map mark s.tasks ++ ms)
              (two_eq (marked now t recorded c.generate_summary summary_task)
                (marked now t recorded c.generate_nodes nodes_task)),
    )

module _ (strip : String → String) (hash : CommandMessage → String) (id first second : ℕ)
    (c : CommandMessage) (e : RecordingMessage) (bucket : String) (s : AnalysisStore)
    (one_project : e.project_id ≡ c.project_id) (one_room : e.room_name ≡ c.room_name)
    (named : str_eq (strip bucket) "" ≡ false) (unknown_command : known_command c s.commands ≡ none)
    (unknown_recording : known_recording e bucket s.recordings ≡ none)
    (no_commands : open_commands c.project_id c.room_name s.commands ≡ [])
    (no_recordings : open_recordings c.project_id c.room_name s.recordings ≡ []) where
  abbrev the_recording : Recording
  the_recording = new_recording id e bucket

  in_the_room : in_room c.project_id c.room_name e.project_id e.room_name ≡ true
  in_the_room =
      ground (arith, str_eq_iff e.project_id c.project_id, str_eq_iff e.room_name c.room_name)

  command_in_room : in_room c.project_id c.room_name c.project_id c.room_name ≡ true
  command_in_room =
      ground (arith, str_eq_iff c.project_id c.project_id, str_eq_iff c.room_name c.room_name)

  one_recording :
      open_recordings c.project_id c.room_name (s.recordings ++ the_recording ∷ [])
      ≡ the_recording ∷ []
  one_recording = keep-new _ s.recordings the_recording no_recordings (rw in_the_room refl)

  one_command :
      (status : InputStatus)
      → is_joinable status ≡ true
      → open_commands c.project_id c.room_name (s.commands ++ new_command c (hash c) status ∷ [])
        ≡ new_command c (hash c) status ∷ []
  one_command status h =
      keep-new _ s.commands (new_command c (hash c) status) no_commands
        (rw (command_in_room, h) refl)

  same_room :
      (now : ℕ) (s' : AnalysisStore)
      → join now e.project_id e.room_name s' ≡ join now c.project_id c.room_name s'
  same_room now s' =
      ap (λ p. join now p e.room_name s') one_project
      ∙ ap (λ r. join now c.project_id r s') one_room

  command_first :
      command_then_recording strip hash id first second c e bucket s
      ≡ ok (
          join_inputs second
            (new_command c (hash c) waiting)
            the_recording
            (filled hash id c e bucket s first false))
  unfolding command_then_recording filled add_command
  command_first =
      let new : AnalysisCommand = new_command c (hash c) waiting in
      let s1 : AnalysisStore = add_command first c (hash c) false s in
      two_calls (persist_analysis_command hash first c s)
        (λ u. persist_recording_ready strip id second e bucket u) s1
        (join_inputs second new the_recording (filled hash id c e bucket s first false))
        (persist_command-new hash first c s none s1 unknown_command (rw no_recordings refl) (
          join-command first c.project_id c.room_name s1 new (one_command waiting refl)
            no_recordings))
        (persist_recording-new strip id second e bucket s1 _ named unknown_recording (
          same_room second (filled hash id c e bucket s first false)
          ∙ join-both second c.project_id c.room_name (filled hash id c e bucket s first false) new
              the_recording (one_command waiting refl) one_recording))

  recording_first :
      recording_then_command strip hash id first second c e bucket s
      ≡ ok (
          join_inputs second
            (new_command c (hash c) InputStatus.ready)
            the_recording
            (filled hash id c e bucket s second true))
  unfolding recording_then_command filled add_command
  recording_first =
      let new : AnalysisCommand = new_command c (hash c) InputStatus.ready in
      let s1 : AnalysisStore = record s { recordings = s.recordings ++ the_recording ∷ [] } in
      two_calls (persist_recording_ready strip id first e bucket s)
        (λ u. persist_analysis_command hash second c u) s1
        (join_inputs second new the_recording (filled hash id c e bucket s second true))
        (persist_recording-new strip id first e bucket s s1 named unknown_recording (
          same_room first s1
          ∙ join-recording first c.project_id c.room_name s1 the_recording no_commands
              one_recording))
        (persist_command-new hash second c s1 (some the_recording) _ unknown_command
          (rw one_recording refl)
          (join-both second c.project_id c.room_name (filled hash id c e bucket s second true) new
            the_recording (one_command InputStatus.ready refl) one_recording))

-- A new command and a new recording of one room, in which no other input is waiting or READY, meet in
-- whichever order they are delivered: both rows are READY then, and so is each of the command's two
-- tasks that it selects, while the other is SKIPPED. Older rows stay as they were, but for the times
-- of tasks.
pub inputs_meet :
    (strip : String → String) (hash : CommandMessage → String) (id first second : ℕ)
    (c : CommandMessage) (e : RecordingMessage) (bucket : String) (s : AnalysisStore)
    → e.project_id ≡ c.project_id
    → e.room_name ≡ c.room_name
    → str_eq (strip bucket) "" ≡ false
    → known_command c s.commands ≡ none
    → known_recording e bucket s.recordings ≡ none
    → open_commands c.project_id c.room_name s.commands ≡ []
    → open_recordings c.project_id c.room_name s.recordings ≡ []
    → any (λ t. t.command_id == c.command_id) s.tasks ≡ false
    → any (λ r. r.id == id) s.recordings ≡ false
    → (s1 : AnalysisStore) × (s2 : AnalysisStore) × (command_then_recording strip hash id first
          second c e bucket s
        ≡ ok s1)
      × (recording_then_command strip hash id first second c e bucket s ≡ ok s2)
      × BothReady hash id c e bucket s s1
      × BothReady hash id c e bucket s s2
inputs_meet strip hash id first second c e bucket s project room named unknown_c unknown_r no_c no_r
      no_tasks new_id =
    (
      _,
      _,
      command_first strip hash id first second c e bucket s project room named unknown_c unknown_r
          no_c no_r,
      recording_first strip hash id first second c e bucket s project room named unknown_c unknown_r
          no_c no_r,
      joined hash id c e bucket s (unseen s.commands unknown_c) no_tasks new_id second first false,
      joined hash id c e bucket s (unseen s.commands unknown_c) no_tasks new_id second second true,
    )
  where
    unseen :
        (cs : List AnalysisCommand)
        → known_command c cs ≡ none
        → any (λ d. d.command_id == c.command_id) cs ≡ false
    unseen cs h = any_narrow _ _ cs (λ d t. rw t refl) (any_of_find-none _ cs h)
