-- ===== src/MeetingAnalysis/Coordinator/Run/Ended.antt =====
-- Commands whose tasks have ended, and what a recorded outcome writes
-- (data-pipeline/data_pipeline/meeting_analysis/coordinator.py).
use projectree.Base.{
  ℕ, ◌≡◌, ◌⊎◌, refl, sym, ◌∙◌, ap, inl, inr, Bool, true, false, not, ◌&&◌, ◌||◌, Option, none, some,
  List, [], ◌∷◌, All, All-keep, Memᴰ, any, any-map, all, find, find_of_any, keep, mem-keep,
  mem_of_find, Bool-cases, if◌then◌else◌, ◌==◌, ==_iff, arith,
}
use projectree.Base.Result.{ok, >>=-eq-ok, or_raise}
use projectree.Base.Sorting.{All-sort_by, mem-sort_by}
use projectree.Base.Table.{update_where, when, when-hit, when-miss, All-update_where}
use projectree.MeetingAnalysis.{
  succeeded, InputStatus, completed, Recording, AnalysisTask, AnalysisStore, TaskType, is_skipped,
  is_terminal_task,
}
use projectree.MeetingAnalysis.Coordinator.{
  TaskClaim, Coordinated, claim_lost, stage_task_failed, is_final_failure, Taken, TaskError,
  ErrorTexts, take_or_pass, tasks_of, is_claimable_task, has_work, owns_task, end_task, fail_task,
  record_task_success, record_task_failure,
}

abbrev pub is_completed : InputStatus → Bool
is_completed completed = true
is_completed _ = false

-- All tasks of the command are terminal, and not all of them are SKIPPED.
abbrev pub AllDone : ℕ → List AnalysisTask → Type 0
AllDone command tasks =
    All (λ t. t.command_id ≡ command → is_terminal_task t.status ≡ true) tasks
    × (any (λ t. t.command_id == command && not (is_skipped t.status)) tasks ≡ true)

-- ... and yet the command is not COMPLETED.
abbrev pub Stranded : ℕ → AnalysisStore → Type 0
Stranded command s =
    AllDone command s.tasks
    × All (λ c. c.command_id ≡ command → is_completed c.status ≡ false) s.commands

none_of_All {ℓ} :
    {A : Type ℓ} (p : A → Bool) (xs : List A) → All (λ a. p a ≡ false) xs → any p xs ≡ false
none_of_All p [] h = refl
none_of_All p (x ∷ xs) h = rw (h.0, none_of_All p xs h.1) refl

not_all {ℓ} :
    {A : Type ℓ} {a : A} (p : A → Bool) (xs : List A) → Memᴰ a xs → p a ≡ false → all p xs ≡ false
not_all p xs (Memᴰ.head {x = x} {xs = rest} e) h = rw (← e, h) refl
not_all p xs (Memᴰ.tail {x = x} {xs = rest} m) h = rw (not_all p rest m h) (ground arith)

both_false : (b c : Bool) → b ≡ false → c ≡ false → (b || c) ≡ false
both_false b c h k = ground arith

pub clash : (b : Bool) → b ≡ true → b ≡ false → ⊥
clash b h k = cc

terminal_unclaimable :
    (now timeout : ℕ) (t : AnalysisTask)
    → is_terminal_task t.status ≡ true
    → is_claimable_task now timeout t ≡ false
terminal_unclaimable now timeout t h = ground arith

module _ (command : ℕ) where
  -- The command has no work for any claim.
  pub AllDone-has_work :
      (now timeout : ℕ) (tasks : List AnalysisTask)
      → AllDone command tasks
      → has_work now timeout command tasks ≡ false
  unfolding has_work
  AllDone-has_work now timeout tasks done =
      let mine : List AnalysisTask = keep (λ t. t.command_id == command) tasks in
      let idle_tasks : All (λ t. is_claimable_task now timeout t ≡ false) mine =
        All-keep (λ t. t.command_id ≡ command → is_terminal_task t.status ≡ true)
          (λ t. is_claimable_task now timeout t ≡ false) (λ t. t.command_id == command)
          (λ t e h. terminal_unclaimable now timeout t (h ((==_iff t.command_id command).0 e)))
          tasks done.0 in
      let (t, at, test) =
        find_of_any (λ t. t.command_id == command && not (is_skipped t.status)) tasks done.1 in
      let here : Memᴰ t (tasks_of command tasks) = mem-sort_by _ mine (
        mem-keep (λ t. t.command_id == command) tasks (ground (arith, test))
          (mem_of_find (λ t. t.command_id == command && not (is_skipped t.status)) tasks at)) in
      both_false _ _
        (none_of_All (is_claimable_task now timeout) (tasks_of command tasks)
          (All-sort_by _ (λ t. is_claimable_task now timeout t ≡ false) mine idle_tasks))
        (not_all (λ t. is_skipped t.status) (tasks_of command tasks) here (ground (arith, test)))

  -- Writes to tasks of other commands.
  pub AllDone-update :
      (q : AnalysisTask → Bool) (f : AnalysisTask → AnalysisTask)
      → ((t : AnalysisTask) → t.command_id ≡ command → q t ≡ false)
      → ((t : AnalysisTask) → (f t).command_id ≡ t.command_id)
      → (tasks : List AnalysisTask) → AllDone command tasks
      → AllDone command (update_where q f tasks)
  AllDone-update q f other same tasks done = (
    All-update_where (λ t. t.command_id ≡ command → is_terminal_task t.status ≡ true)
        (λ t. t.command_id ≡ command → is_terminal_task t.status ≡ true) q f
        (λ t e h k. absurd (clash (q t) e (other t (sym (same t) ∙ k)))) (λ t e h. h) tasks done.0,
    any-map (λ t. t.command_id == command && not (is_skipped t.status)) (when q f) tasks
          (λ t. elim (Bool-cases (q t)) [
            | inr e ↦
                ap (λ u. u.command_id == command && not (is_skipped u.status)) (when-miss q f t e)
            | inl e ↦
                let elsewhere : (t.command_id == command) ≡ false =
                  elim (Bool-cases (t.command_id == command)) [
                    | inl x ↦ absurd (clash (q t) e (other t ((==_iff t.command_id command).0 x)))
                    | inr x ↦ x
                  ] in
                ap (λ u. u.command_id == command && not (is_skipped u.status)) (when-hit q f t e)
                ∙ rw (same t, elsewhere) refl
          ])
        ∙ done.1,
  )

pub take_or_pass-inv :
    (work : Bool) (take : Recording → TaskClaim × AnalysisStore) (next : Taken)
    (r : Option Recording) (x : TaskClaim × AnalysisStore)
    → take_or_pass work take next r ≡ ok (some x)
    → (next ≡ ok (some x)) ⊎ ((work ≡ true) × (p : Recording) × (take p ≡ x))
take_or_pass-inv work take next none x h = inl h
take_or_pass-inv true take next (some p) x h = inr (refl, p, ground arith)
take_or_pass-inv false take next (some p) x h = inl h

pub same_ok : {A : Type 0} {a b : A} → (let r : Coordinated A = ok a in r) ≡ ok b → a ≡ b
same_ok h = ground arith

pub if_keeps {ℓ κ} :
    {A : Type ℓ} (P : A → Type κ) (b : Bool) (x y : A) → P x → P y → P (if b then x else y)
if_keeps P true x y h k = h
if_keeps P false x y h k = k

pub success-inv :
    (now : ℕ) (claim : TaskClaim) (kind : TaskType) (s s' : AnalysisStore)
    → record_task_success now claim kind s ≡ ok s'
    → record s { tasks = update_where (owns_task claim kind) (end_task succeeded now) s.tasks } ≡ s'
unfolding record_task_success
success-inv now claim kind s s' h = elim (Bool-cases (any (owns_task claim kind) s.tasks)) [
  | inl e ↦ ground (arith, e)
  | inr e ↦ ground (arith, e)
]

-- A recorded failure writes the claim's task, and events.
pub failure-inv :
    (texts : ErrorTexts) (now : ℕ) (claim : TaskClaim) (kind : TaskType) (e : TaskError)
    (s : AnalysisStore) (x : AnalysisStore × Bool)
    → record_task_failure texts now claim kind e s ≡ ok x
    → (x.0.commands ≡ s.commands)
      × (x.0.tasks ≡ update_where (owns_task claim kind) (fail_task x.1 now e) s.tasks)
unfolding record_task_failure
failure-inv texts now claim kind e s x h =
    let (t, _, h1) = >>=-eq-ok (or_raise (find (owns_task claim kind) s.tasks) claim_lost) _ h in
    let staged = stage_task_failed texts claim.command_id kind e s.events in
    let (events, _, h2) =
      >>=-eq-ok (if is_final_failure e t && e.emit_failure_event then staged else ok s.events) _
        h1 in
    let same : (
      record s {
        tasks =
            update_where (owns_task claim kind) (fail_task (is_final_failure e t) now e) s.tasks;
        events = events;
      },
      is_final_failure e t,
    )
        ≡ x =
      same_ok h2 in
    (
      ap (λ y. y.0.commands) (sym same),
      ap (λ y. y.0.tasks) (sym same)
          ∙ ap (λ b. update_where (owns_task claim kind) (fail_task b now e) s.tasks)
              (ap (λ y. y.1) same),
    )
