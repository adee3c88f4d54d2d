-- ===== src/Delivery/Marking.antt =====
-- Marks, and one mark of a meeting's state (data-pipeline/data_pipeline/pipeline/event_contract.py).
use projectree.Base.{
  ℕ, ◌≡◌, refl, sym, ◌∙◌, ap, true, false, not, ◌&&◌, ◌||◌, Option, some, List, [], ◌∷◌, ◌++◌,
  String, if◌then◌else◌, str_eq, str_eq_iff,
}
use projectree.Delivery.{
  DeliveryStatus, succeeded, DeliveryState, DeliveryStore, StatusEvent, now_succeeded, put_state,
  complete_state, try_complete_analysis, write_state, state_or_processing, is_failed, is_succeeded,
  Mark, graph_ready, summary_ready, note_version, mark_ready, is_set,
}

-- A graph version or a summary version, and when it is marked.
abbrev pub Marks : Type 0
Marks = List (ℕ × Mark)

abbrev pub mark_each : String → String → Marks → DeliveryStore → DeliveryStore
mark_each project meeting [] store = store
mark_each project meeting (m ∷ marks) store =
    mark_each project meeting marks (mark_ready m.0 m.1 project meeting store)

abbrev pub graph_after : Option ℕ → Mark → Option ℕ
graph_after graph (graph_ready version) = some version
graph_after graph (summary_ready _) = graph

abbrev pub summary_after : Option ℕ → Mark → Option ℕ
summary_after summary (graph_ready _) = summary
summary_after summary (summary_ready version) = some version

abbrev pub last_graph : Option ℕ → Marks → Option ℕ
last_graph graph [] = graph
last_graph graph (m ∷ marks) = last_graph (graph_after graph m.1) marks

abbrev pub last_summary : Option ℕ → Marks → Option ℕ
last_summary summary [] = summary
last_summary summary (m ∷ marks) = last_summary (summary_after summary m.1) marks

-- The one event that the marks announce: when both versions are there for the first time.
abbrev pub announced : String → String → (graph summary : Option ℕ) → Marks → List StatusEvent
announced project meeting graph summary [] = []
announced project meeting graph summary (m ∷ marks) =
    let later =
      announced project meeting (graph_after graph m.1) (summary_after summary m.1) marks in
    if is_set (graph_after graph m.1) && is_set (summary_after summary m.1)
    then record {
      project_id = project;
      external_meeting_id = meeting;
      payload = now_succeeded (graph_after graph m.1) (summary_after summary m.1);
    }
      ∷ []
    else later

-- The state that the store has for a meeting.
abbrev pub HasState : String → String → DeliveryStore → DeliveryState → Type 0
HasState project meeting store s =
    (store.delivery_state project meeting ≡ some s)
    × (s.project_id ≡ project)
    × (s.external_meeting_id ≡ meeting)

-- What marks leave: the last versions, with the status and the new events.
abbrev pub Marked :
    String
    → String
    → DeliveryStatus
    → (graph summary : Option ℕ) → List StatusEvent
    → DeliveryStore
    → Type 0
Marked project meeting status graph summary events store =
    (s : DeliveryState) × HasState project meeting store s
    × (s.status ≡ status)
    × (s.required_graph_version ≡ graph)
    × (s.required_summary_version ≡ summary)
    × (store.events ≡ events)

str_same : (s t : String) → s ≡ t → str_eq t s ≡ true
str_same s t e = (str_eq_iff t s).1 (sym e)

pub is_set-last_graph :
    (graph : Option ℕ) (marks : Marks)
    → is_set graph ≡ true
    → is_set (last_graph graph marks) ≡ true
is_set-last_graph graph [] h = h
is_set-last_graph graph ((t, graph_ready v) ∷ marks) h = is_set-last_graph (some v) marks refl
is_set-last_graph graph ((t, summary_ready v) ∷ marks) h = is_set-last_graph graph marks h

pub is_set-last_summary :
    (summary : Option ℕ) (marks : Marks)
    → is_set summary ≡ true
    → is_set (last_summary summary marks) ≡ true
is_set-last_summary summary [] h = h
is_set-last_summary summary ((t, graph_ready v) ∷ marks) h = is_set-last_summary summary marks h
is_set-last_summary summary ((t, summary_ready v) ∷ marks) h =
    is_set-last_summary (some v) marks refl

pub append_nil {ℓ} : {A : Type ℓ} (xs : List A) → xs ++ [] ≡ xs
append_nil [] = refl
append_nil (x ∷ xs) = ap (◌∷◌ x) (append_nil xs)

module _ (project meeting : String) where
  pub put_state-HasState :
      (s : DeliveryState) (store : DeliveryStore)
      → s.project_id ≡ project
      → s.external_meeting_id ≡ meeting
      → HasState project meeting (put_state s store) s
  put_state-HasState s store p m =
      (rw (str_same s.project_id project p, str_same s.external_meeting_id meeting m) refl, p, m)

  try_complete-found :
      (now : ℕ) (store : DeliveryStore) (s : DeliveryState)
      → store.delivery_state project meeting ≡ some s
      → try_complete_analysis now project meeting store ≡ complete_state now s store
  unfolding try_complete_analysis
  try_complete-found now store s at = rw (at, try_complete_analysis) refl

  pub note_version-keys :
      (now : ℕ) (k : Mark) (s : DeliveryState)
      → ((note_version now k s).project_id ≡ s.project_id)
        × ((note_version now k s).external_meeting_id ≡ s.external_meeting_id)
        × ((note_version now k s).status ≡ s.status)
        × ((note_version now k s).required_graph_version ≡ graph_after s.required_graph_version k)
        × ((note_version now k s).required_summary_version
            ≡ summary_after s.required_summary_version k)
  note_version-keys now (graph_ready v) s = (refl, refl, refl, refl, refl)
  note_version-keys now (summary_ready v) s = (refl, refl, refl, refl, refl)

  pub noted-HasState :
      (now : ℕ) (k : Mark) (store : DeliveryStore) (s : DeliveryState)
      → HasState project meeting store s
      → HasState project meeting (put_state (note_version now k s) store) (note_version now k s)
  noted-HasState now k store s (at, p, m) =
      let keys = note_version-keys now k s in
      put_state-HasState (note_version now k s) store (keys.0 ∙ p) (keys.1 ∙ m)

  mark_ready-found :
      (now : ℕ) (k : Mark) (store : DeliveryStore) (s : DeliveryState)
      → HasState project meeting store s
      → mark_ready now k project meeting store
        ≡ complete_state now (note_version now k s) (put_state (note_version now k s) store)
  unfolding mark_ready
  mark_ready-found now k store s has =
      ap (λ x. try_complete_analysis now project meeting (put_state (note_version now k x.0) x.1))
        found
      ∙ try_complete-found now (put_state (note_version now k s) store) (note_version now k s)
          (noted-HasState now k store s has).0
    where
      found : state_or_processing now project meeting store ≡ (s, store)
      found = rw (has.0, state_or_processing) refl

  -- A mark of a meeting that is not completed by it only notes the version.
  pub mark_ready-noted :
      (now : ℕ) (k : Mark) (store : DeliveryStore) (s : DeliveryState)
      → HasState project meeting store s
      → (is_failed s.status
          || (not (
                is_set (graph_after s.required_graph_version k)
                && is_set (summary_after s.required_summary_version k))
              || is_succeeded s.status))
        ≡ true
      → mark_ready now k project meeting store ≡ put_state (note_version now k s) store
  mark_ready-noted now k store s has quiet =
      mark_ready-found now k store s has
      ∙ rw
          (
            (note_version-keys now k s).2,
            (note_version-keys now k s).3,
            (note_version-keys now k s).4,
            quiet,
          )
          refl

  -- A mark that completes a meeting announces it.
  pub mark_ready-completed :
      (now : ℕ) (k : Mark) (store : DeliveryStore) (s : DeliveryState)
      → HasState project meeting store s
      → (is_failed s.status
          || (not (
                is_set (graph_after s.required_graph_version k)
                && is_set (summary_after s.required_summary_version k))
              || is_succeeded s.status))
        ≡ false
      → mark_ready now k project meeting store
        ≡ (write_state
            (record (note_version now k s) { status = succeeded; updated_at = now })
            (put_state (note_version now k s) store)).1
  mark_ready-completed now k store s has completes =
      mark_ready-found now k store s has
      ∙ rw
          (
            (note_version-keys now k s).2,
            (note_version-keys now k s).3,
            (note_version-keys now k s).4,
            completes,
          )
          refl
