-- ===== src/Delivery/Barrier.antt =====
-- What a sequence of marks leaves of a meeting's analysis (`mark_graph_ready` and `mark_summary_ready`
-- of data-pipeline/data_pipeline/pipeline/event_contract.py).
use projectree.Base.{
  ℕ, ◌≡◌, refl, sym, ◌∙◌, ap, subst, inl, inr, true, false, ◌&&◌, Option, none, List, [], ◌∷◌, ◌++◌,
  String, Bool-cases, if◌then◌else◌, arith,
}
use projectree.Delivery.{
  processing, succeeded, DeliveryState, DeliveryStore, StatusEvent, put_state, write_state, Mark,
  note_version, mark_ready, is_set,
}
use projectree.Delivery.Marking.{
  Marks, mark_each, graph_after, summary_after, last_graph, last_summary, announced, HasState,
  Marked, is_set-last_graph, is_set-last_summary, append_nil, put_state-HasState, note_version-keys,
  noted-HasState, mark_ready-noted, mark_ready-completed,
}

module _ (project meeting : String) where
  -- After the announcement marks only change the versions.
  marks_after :
      (marks : Marks) (store : DeliveryStore) (s : DeliveryState) (graph summary : Option ℕ)
      → HasState project meeting store s
      → s.status ≡ succeeded
      → s.required_graph_version ≡ graph
      → s.required_summary_version ≡ summary
      → Marked project meeting succeeded
          (last_graph graph marks)
          (last_summary summary marks)
          store.events
          (mark_each project meeting marks store)
  marks_after [] store s graph summary has done g u = (s, has, done, g, u, refl)
  marks_after (m ∷ marks) store s graph summary has done g u =
      let keys = note_version-keys project meeting m.0 m.1 s in
      subst
        (λ x.
          Marked project meeting succeeded (last_graph (graph_after graph m.1) marks)
            (last_summary (summary_after summary m.1) marks) store.events
            (mark_each project meeting marks x))
        (sym (mark_ready-noted project meeting m.0 m.1 store s has (rw done (ground arith))))
        (marks_after marks (put_state (note_version m.0 m.1 s) store) (note_version m.0 m.1 s)
          (graph_after graph m.1) (summary_after summary m.1)
          (noted-HasState project meeting m.0 m.1 store s has) (keys.2 ∙ done)
          (keys.3 ∙ ap (λ x. graph_after x m.1) g) (keys.4 ∙ ap (λ x. summary_after x m.1) u))

  abbrev WaitedBy :
      ℕ × Mark → (graph summary : Option ℕ) → Marks → List StatusEvent → DeliveryStore → Type 0
  WaitedBy m graph summary marks events store =
      Marked project meeting
        (if is_set (last_graph graph (m ∷ marks)) && is_set (last_summary summary (m ∷ marks))
          then succeeded
          else processing)
        (last_graph graph (m ∷ marks)) (last_summary summary (m ∷ marks))
        (events ++ announced project meeting graph summary (m ∷ marks)) store

  abbrev Waited : (graph summary : Option ℕ) → Marks → List StatusEvent → DeliveryStore → Type 0
  Waited graph summary marks events store =
      Marked project meeting
        (if is_set (last_graph graph marks) && is_set (last_summary summary marks)
          then succeeded
          else processing)
        (last_graph graph marks) (last_summary summary marks)
        (events ++ announced project meeting graph summary marks)
        (mark_each project meeting marks store)

  completed_by :
      (m : ℕ × Mark) (marks : Marks) (store : DeliveryStore) (s : DeliveryState)
      (graph summary : Option ℕ)
      → HasState project meeting store s
      → s.status ≡ processing
      → s.required_graph_version ≡ graph
      → s.required_summary_version ≡ summary
      → (is_set (graph_after graph m.1) && is_set (summary_after summary m.1)) ≡ true
      → WaitedBy m graph summary marks store.events
          (mark_each project meeting marks (mark_ready m.0 m.1 project meeting store))
  completed_by m marks store s graph summary has waits g u e =
      let keys = note_version-keys project meeting m.0 m.1 s in
      let t = note_version m.0 m.1 s in
      let w = record t { status = succeeded; updated_at = m.0 } in
      let first = (write_state w (put_state t store)).1 in
      let after =
        marks_after marks first w (graph_after graph m.1) (summary_after summary m.1)
          (put_state-HasState project meeting w (put_state t store) (keys.0 ∙ has.1)
            (keys.1 ∙ has.2))
          refl (keys.3 ∙ ap (λ x. graph_after x m.1) g)
          (keys.4 ∙ ap (λ x. summary_after x m.1) u) in
      subst (λ x. WaitedBy m graph summary marks store.events (mark_each project meeting marks x))
        (sym (mark_ready-completed project meeting m.0 m.1 store s has (rw (waits, g, u, e) refl)))
        (
          after.0,
          after.1,
          after.2 ∙ sym (still_set e),
          after.3,
          after.4,
          after.5 ∙ rw (e, keys.0, keys.1, keys.3, keys.4, has.1, has.2, g, u) refl,
        )
    where
      still_set :
          (is_set (graph_after graph m.1) && is_set (summary_after summary m.1)) ≡ true
          → (if is_set (last_graph (graph_after graph m.1) marks)
                && is_set (last_summary (summary_after summary m.1) marks)
              then succeeded
              else processing)
            ≡ succeeded
      still_set e =
          rw
            (
              is_set-last_graph (graph_after graph m.1) marks (ground (arith, e)),
              is_set-last_summary (summary_after summary m.1) marks (ground (arith, e)),
            )
            refl

  marks_before :
      (marks : Marks) (store : DeliveryStore) (s : DeliveryState) (graph summary : Option ℕ)
      → HasState project meeting store s
      → s.status ≡ processing
      → s.required_graph_version ≡ graph
      → s.required_summary_version ≡ summary
      → (is_set graph && is_set summary) ≡ false
      → Waited graph summary marks store.events store
  marks_before [] store s graph summary has waits g u missing =
      (s, has, waits ∙ sym (rw missing refl), g, u, sym (append_nil store.events))
  marks_before (m ∷ marks) store s graph summary has waits g u missing =
      elim (Bool-cases (is_set (graph_after graph m.1) && is_set (summary_after summary m.1))) [
        | inl e ↦ completed_by m marks store s graph summary has waits g u e
        | inr e ↦
            let keys = note_version-keys project meeting m.0 m.1 s in
            let rest =
              marks_before marks (put_state (note_version m.0 m.1 s) store) (note_version m.0 m.1 s)
                (graph_after graph m.1) (summary_after summary m.1)
                (noted-HasState project meeting m.0 m.1 store s has) (keys.2 ∙ waits)
                (keys.3 ∙ ap (λ x. graph_after x m.1) g) (keys.4 ∙ ap (λ x. summary_after x m.1) u)
                e in
            subst
              (λ x. WaitedBy m graph summary marks store.events (mark_each project meeting marks x))
              (sym
                (mark_ready-noted project meeting m.0 m.1 store s has (rw (waits, g, u, e) refl)))
              (rest.0, rest.1, rest.2, rest.3, rest.4, rest.5 ∙ rw e refl)
      ]

-- Marks of graph and summary versions, in any order and number, on a meeting that is PROCESSING with
-- neither version: the meeting has the last version of each kind, and is SUCCEEDED exactly when both
-- kinds were marked. One event is staged then, by the mark that brings the second kind and with the
-- versions of that moment; otherwise no event is.
pub completion_barrier :
    (project meeting : String) (marks : Marks) (store : DeliveryStore) (s : DeliveryState)
    → HasState project meeting store s
    → s.status ≡ processing
    → s.required_graph_version ≡ none
    → s.required_summary_version ≡ none
    → Marked project meeting
        (if is_set (last_graph none marks) && is_set (last_summary none marks)
          then succeeded
          else processing)
        (last_graph none marks)
        (last_summary none marks)
        (store.events ++ announced project meeting none none marks)
        (mark_each project meeting marks store)
completion_barrier project meeting marks store s has waits g u =
    marks_before project meeting marks store s none none has waits g u refl
