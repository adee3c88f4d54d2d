-- ===== src/MeetingAnalysis/Coordinator/Run/Stranded.antt =====
-- A command whose last outcome was recorded and whose inputs were not finished, as a worker leaves it
-- that ends between the two (data-pipeline/data_pipeline/meeting_analysis/coordinator.py).
use projectree.Base.{
  ℕ, ◌≡◌, ◌≢◌, refl, sym, ◌∙◌, ap, subst, inl, inr, Bool, true, false, not, ◌&&◌, Option, none,
  some, List, [], ◌∷◌, String, All, any, all, keep, Bool-cases, ◌==◌, ==_iff,
}
use projectree.Base.Result.{ok, err, >>=-eq-ok, refuse-eq-ok}
use projectree.Base.Table.{All-update_where}
use projectree.MeetingAnalysis.{
  succeeded, InputStatus, completed, AnalysisCommand, Recording, AnalysisTask, AnalysisStore,
  TaskType, is_ready_task, is_terminal_task,
}
use projectree.MeetingAnalysis.Coordinator.{
  TaskClaim, Coordinated, missing_input, settle_inputs, Taken, TaskError, ErrorTexts, one_recording,
  active_recordings, take_or_pass, set_command, is_claimable_task, has_work, take_command,
  claim_first, claim_ready, owns_task, start_task, end_task, fail_task, record_task_success,
  record_task_failure, finish_inputs,
}
use projectree.MeetingAnalysis.Coordinator.Run.{
  Outside, Run, TaskFate, record_outcome, after_outcome, record_outcomes, after_finish, finish_run,
  process, is_empty, after_inputs, after_claim, load_inputs, run_once,
}
use projectree.MeetingAnalysis.Coordinator.Run.Ended.{
  is_completed, AllDone, Stranded, clash, AllDone-has_work, AllDone-update, take_or_pass-inv,
  same_ok, if_keeps, success-inv, failure-inv,
}

module _ (command : ℕ) where
  -- Writes to the row of another command.
  set_command-other :
      (id : ℕ) (status : InputStatus) (commands : List AnalysisCommand)
      → id ≢ command
      → All (λ c. c.command_id ≡ command → is_completed c.status ≡ false) commands
      → All
          (λ c. c.command_id ≡ command → is_completed c.status ≡ false)
          (set_command id status commands)
  set_command-other id status commands other =
      All-update_where (λ c. c.command_id ≡ command → is_completed c.status ≡ false)
        (λ c. c.command_id ≡ command → is_completed c.status ≡ false) (λ c. c.command_id == id)
        (λ c. record c { status = status })
        (λ c e h k. absurd (other (sym ((==_iff c.command_id id).0 e) ∙ k))) (λ c e h. h) commands

  another :
      (id : ℕ) (t : AnalysisTask)
      → id ≢ command
      → t.command_id ≡ command
      → (t.command_id == id) ≡ false
  another id t other k = elim (Bool-cases (t.command_id == id)) [
    | inl e ↦ absurd (other (sym ((==_iff t.command_id id).0 e) ∙ k))
    | inr e ↦ e
  ]

  take_command-Stranded :
      (now timeout token : ℕ) (c : AnalysisCommand) (r : Recording) (s : AnalysisStore)
      → c.command_id ≢ command
      → Stranded command s
      → Stranded command (take_command now timeout token c r s).1
  unfolding take_command
  take_command-Stranded now timeout token c r s other h = (
    AllDone-update command (λ t. t.command_id == c.command_id && is_claimable_task now timeout t)
        (start_task token now) (λ t k. rw (another c.command_id t other k) refl) (λ t. refl) s.tasks
        h.0,
    set_command-other c.command_id InputStatus.processing s.commands other h.1,
  )

  -- A claim takes another command.
  claim_first-Stranded :
      (now timeout token : ℕ) (locked : ℕ → Bool) (commands : List AnalysisCommand)
      (s : AnalysisStore) (x : TaskClaim × AnalysisStore)
      → Stranded command s
      → claim_first now timeout token locked commands s ≡ ok (some x)
      → (x.0.command_id ≢ command) × Stranded command x.1
  unfolding claim_first take_command
  claim_first-Stranded now timeout token locked [] s x h e = cc
  claim_first-Stranded now timeout token locked (c ∷ commands) s x h e =
      let (r, _, k) =
        >>=-eq-ok (one_recording (active_recordings locked c s.recordings))
          (take_or_pass (has_work now timeout c.command_id s.tasks)
            (λ r. take_command now timeout token c r s)
            (claim_first now timeout token locked commands s))
          e in
      elim (take_or_pass-inv (has_work now timeout c.command_id s.tasks)
        (λ r. take_command now timeout token c r s)
        (claim_first now timeout token locked commands s) r x k) [
          | inl next ↦ claim_first-Stranded now timeout token locked commands s x h next
          | inr took ↦
              let other : c.command_id ≢ command = λ same.
                clash (has_work now timeout c.command_id s.tasks) took.0 (
                  ap (λ i. has_work now timeout i s.tasks) same
                  ∙ AllDone-has_work command now timeout s.tasks h.0) in
              (
                (λ same. other (ap (λ y. y.0.command_id) took.2 ∙ same)),
                subst (λ y. Stranded command y.1) took.2
                    (take_command-Stranded now timeout token c took.1 s other h),
              )
        ]

  module _ (claim : TaskClaim) (other : claim.command_id ≢ command) where
    owned_elsewhere :
        (kind : TaskType) (t : AnalysisTask)
        → t.command_id ≡ command
        → owns_task claim kind t ≡ false
    owned_elsewhere kind t k = rw (another claim.command_id t other k) refl

    record_outcome-Stranded :
        (texts : ErrorTexts) (now : ℕ) (kind : TaskType) (o : Option TaskError) (s : AnalysisStore)
        (x : AnalysisStore × TaskFate)
        → record_outcome texts now claim kind o s ≡ ok x
        → Stranded command s
        → Stranded command x.0
    record_outcome-Stranded texts now kind none s x h z =
        let (s', e, k) = >>=-eq-ok (record_task_success now claim kind s) _ h in
        let same : s' ≡ x.0 = ap (λ y. y.0) (same_ok k) in
        subst (Stranded command) (success-inv now claim kind s s' e ∙ same) (
          AllDone-update command (owns_task claim kind) (end_task succeeded now)
              (owned_elsewhere kind) (λ t. refl) s.tasks z.0,
          z.1,
        )
    record_outcome-Stranded texts now kind (some e) s x h z =
        let (r, f, k) = >>=-eq-ok (record_task_failure texts now claim kind e s) _ h in
        let (commands, tasks) = failure-inv texts now claim kind e s r f in
        subst (λ u. Stranded command u) (ap (λ y. y.0) (same_ok k))
          (
            subst (AllDone command) (sym tasks) (
                AllDone-update command (owns_task claim kind) (fail_task r.1 now e)
                  (owned_elsewhere kind) (λ t. refl) s.tasks z.0),
            subst (All (λ c. c.command_id ≡ command → is_completed c.status ≡ false)) (sym commands)
                z.1,
          )

    after_outcome-Stranded :
        (kind : TaskType) (rest : AnalysisStore → Run (List (TaskType × TaskFate)))
        (s : AnalysisStore) (r : Coordinated (AnalysisStore × TaskFate))
        → ((x : AnalysisStore × TaskFate) → r ≡ ok x → Stranded command (rest x.0).0)
        → Stranded command s
        → Stranded command (after_outcome s kind rest r).0
    after_outcome-Stranded kind rest s (err e) kept z = z
    after_outcome-Stranded kind rest s (ok x) kept z = kept x refl

    record_outcomes-Stranded :
        (texts : ErrorTexts) (now : ℕ) (outcome : TaskType → Option TaskError)
        (kinds : List TaskType) (s : AnalysisStore)
        → Stranded command s
        → Stranded command (record_outcomes texts now claim outcome kinds s).0
    unfolding record_outcomes
    record_outcomes-Stranded texts now outcome [] s z = z
    record_outcomes-Stranded texts now outcome (kind ∷ kinds) s z =
        after_outcome-Stranded kind (record_outcomes texts now claim outcome kinds) s
          (record_outcome texts now claim kind (outcome kind) s)
          (λ x h.
            record_outcomes-Stranded texts now outcome kinds x.0
              (record_outcome-Stranded texts now kind (outcome kind) s x h z))
          z

    settle_inputs-Stranded :
        (all_terminal any_ready : Bool) (s : AnalysisStore)
        → Stranded command s
        → Stranded command
            (settle_inputs all_terminal any_ready claim.command_id claim.recording_id s)
    settle_inputs-Stranded true any_ready s z =
        (z.0, set_command-other claim.command_id completed s.commands other z.1)
    settle_inputs-Stranded false true s z =
        (z.0, set_command-other claim.command_id InputStatus.ready s.commands other z.1)
    settle_inputs-Stranded false false s z = z

    finish_inputs-Stranded :
        (s s' : AnalysisStore)
        → finish_inputs claim.command_id claim.recording_id s ≡ ok s'
        → Stranded command s
        → Stranded command s'
    unfolding finish_inputs
    finish_inputs-Stranded s s' h z =
        let (_, h1) =
          refuse-eq-ok (not (any (λ c. c.command_id == claim.command_id) s.commands)) missing_input
            _ h in
        let (_, h2) =
          refuse-eq-ok (not (any (λ r. r.id == claim.recording_id) s.recordings)) missing_input _
            h1 in
        let tasks = keep (λ t. t.command_id == claim.command_id) s.tasks in
        subst (Stranded command) (same_ok h2) (
          settle_inputs-Stranded (all (λ t. is_terminal_task t.status) tasks)
            (any (λ t. is_ready_task t.status) tasks) s z)

    after_finish-Stranded :
        (loads : ℕ) (fates : List (TaskType × TaskFate)) (s : AnalysisStore)
        (r : Coordinated AnalysisStore)
        → ((s' : AnalysisStore) → r ≡ ok s' → Stranded command s')
        → Stranded command s
        → Stranded command (after_finish claim loads fates s r).0
    after_finish-Stranded loads fates s (err e) kept z = z
    after_finish-Stranded loads fates s (ok s') kept z = kept s' refl

    finish_run-Stranded :
        (loads : ℕ) (r : Run (List (TaskType × TaskFate)))
        → Stranded command r.0
        → Stranded command (finish_run claim loads r).0
    finish_run-Stranded loads (s, err e) z = z
    finish_run-Stranded loads (s, ok fates) z =
        after_finish-Stranded loads fates s (finish_inputs claim.command_id claim.recording_id s)
          (λ s' h. finish_inputs-Stranded s s' h z) z

    process-Stranded :
        (now : ℕ) (out : Outside) (t : Option (String × String)) (s : AnalysisStore)
        → Stranded command s
        → Stranded command (process now out claim t s).0
    process-Stranded now out (some raised) s z =
        record_outcomes-Stranded out.texts now _ claim.task_types s z
    process-Stranded now out none s z =
        record_outcomes-Stranded out.texts now _ (out.order claim.task_types) s z

    after_inputs-Stranded :
        (now : ℕ) (out : Outside) (s : AnalysisStore) (r : Coordinated (Unit {0}))
        → Stranded command s
        → Stranded command (after_inputs now out claim s r).0
    after_inputs-Stranded now out s (err e) z = z
    after_inputs-Stranded now out s (ok _) z =
        if_keeps (λ r. Stranded command r.0) (is_empty claim.task_types)
          (finish_run claim 0 (s, ok []))
          (finish_run claim 1 (process now out claim (out.transcript claim) s))
          (finish_run-Stranded 0 (s, ok []) z)
          (finish_run-Stranded 1 (process now out claim (out.transcript claim) s)
            (process-Stranded now out (out.transcript claim) s z))

  after_claim-Stranded :
      (now : ℕ) (out : Outside) (s : AnalysisStore) (r : Taken)
      → ((x : TaskClaim × AnalysisStore)
          → r ≡ ok (some x)
          → (x.0.command_id ≢ command) × Stranded command x.1)
      → Stranded command s
      → Stranded command (after_claim now out s r).0
  after_claim-Stranded now out s (err e) taken z = z
  after_claim-Stranded now out s (ok none) taken z = z
  after_claim-Stranded now out s (ok (some x)) taken z =
      let (other, kept) = taken x refl in
      after_inputs-Stranded x.0 other now out x.1 (load_inputs x.0 x.1) kept

-- A round of a coordinator, with what the outside does in it.
pub record Round : Type 0 where
  pub now : ℕ
  pub later : ℕ
  pub timeout : ℕ
  pub token : ℕ
  pub locked_command : ℕ → Bool
  pub locked_recording : ℕ → Bool
  pub outside : Outside

abbrev pub after_rounds : List Round → AnalysisStore → AnalysisStore
after_rounds [] s = s
after_rounds (r ∷ rounds) s =
    after_rounds rounds
      ((run_once r.now r.later r.timeout r.token r.locked_command r.locked_recording r.outside s).0)

-- A command all of whose tasks have ended, not all of them as SKIPPED, and that is not COMPLETED is
-- never COMPLETED: no round of the coordinator takes it again, whatever rounds there are.
pub run_once-Stranded :
    (command : ℕ) (rounds : List Round) (s : AnalysisStore)
    → Stranded command s
    → Stranded command (after_rounds rounds s)
unfolding run_once claim_ready
run_once-Stranded command [] s z = z
run_once-Stranded command (r ∷ rounds) s z =
    run_once-Stranded command rounds
      ((run_once r.now r.later r.timeout r.token r.locked_command r.locked_recording r.outside s).0)
      (after_claim-Stranded command r.later r.outside s
        (claim_ready r.now r.timeout r.token r.locked_command r.locked_recording s)
        (λ x h. claim_first-Stranded command r.now r.timeout r.token r.locked_recording _ s x z h)
        z)
