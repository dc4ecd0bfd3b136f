-- ===== src/Orchestration/Service/History.antt =====
-- The history that the service records for each run and task.
use soloscale_ai_os.Prelude.{
  ◌≡◌, refl, sym, ap, subst, ◌∙◌, true, false, ◌&&◌, Option, none, some, List, [], ◌∷◌, ◌++◌,
  String, str_eq, str_eq_iff, str_eq_refl, Result-cases, filter_by, filter_by-append, Result, ok,
  err, arith, Bool-cases, inl, inr, if◌then◌else◌,
}
use mathlib.Core.List.{append-nil}
use soloscale_ai_os.Prelude.Text.{Text, strip, is_empty}
use soloscale_ai_os.Prelude.Blank.{has_ink-strip}
use soloscale_ai_os.Orchestration.Models.{
  TaskStatus, status_eq, state_transition, TaskEnvelope, RunEvent, is_missing,
  validate_transition_event,
}
use soloscale_ai_os.Orchestration.StateMachine.{is_allowed, validate_transition}
use soloscale_ai_os.Orchestration.EventStore.{ReadError}
use soloscale_ai_os.Orchestration.Service.{
  EventLog, ServiceError, Call, make_event, is_prior, continues, admit, transition, after_call,
  run_calls, normalize,
}
use soloscale_ai_os.Orchestration.Service.Chains.{
  has_text, IsStep, Chain, Chain-snoc, continues_end,
}

-- What the guards of an admitted call establish.
record IsAdmitted (events : List RunEvent) (call : Call) : Type 0 where
  continued : continues (filter_by (is_prior call.task.id) events) call.task.status ≡ true
  permitted : is_allowed call.task.status call.target ≡ true
  evidenced : is_empty (strip call.evidence_receipt) ≡ false
  approved :
      status_eq call.target TaskStatus.executing && is_missing (normalize call.approval_receipt)
      ≡ false
  validated : validate_transition_event (make_event call) ≡ true

admit-IsAdmitted :
    (events : List RunEvent) (call : Call) → admit events call ≡ ok tt → IsAdmitted events call
unfolding admit validate_transition
admit-IsAdmitted events call h = ground arith

normalize-has_text :
    (o : Option Text) → is_missing (normalize o) ≡ false → has_text (normalize o) ≡ true
normalize-has_text none h = ground arith
normalize-has_text (some a) h = elim (Bool-cases (is_empty a)) [
  | inl blank ↦ ground (arith, blank)
  | inr filled ↦ rw filled (has_ink-strip a (rw filled at h))
]

IsAdmitted-IsStep :
    {events : List RunEvent} {call : Call}
    → IsAdmitted events call
    → IsStep call.task.status (make_event call) call.target
unfolding make_event
IsAdmitted-IsStep {call} a = record {
  left = refl;
  entered = refl;
  permitted = a.permitted;
  evidenced = has_ink-strip call.evidence_receipt a.evidenced;
  approved = ground (arith, normalize-has_text call.approval_receipt, a.approved);
}

-- the part of a run's history that the event of a call belongs to
new_part :
    (call : Call) (run task : String)
    → filter_by (is_prior task) (if str_eq call.run_id run then make_event call ∷ [] else [])
      ≡ (if str_eq call.run_id run && str_eq call.task.id task then make_event call ∷ [] else [])
unfolding make_event
new_part call run task = ground (arith, str_eq_refl state_transition)

-- the chain of the call's own task grows by its event
grow_own :
    (call : Call) (es : List RunEvent) (t : TaskStatus)
    → IsAdmitted es call
    → Chain TaskStatus.new (filter_by (is_prior call.task.id) es) t
    → Chain TaskStatus.new
        (filter_by (is_prior call.task.id) es ++ make_event call ∷ [])
        call.target
grow_own call es t a chain =
    let mine = filter_by (is_prior call.task.id) es in
    let ends = continues_end t mine call.task.status chain a.continued in
    Chain-snoc TaskStatus.new t call.target mine (make_event call) chain
      (subst (λ s. IsStep s (make_event call) call.target) (sym ends) (IsAdmitted-IsStep a))

-- the chain of any run and task after the event of an admitted call
grow :
    (call : Call) (run name : String) (es : List RunEvent) (t : TaskStatus)
    → (str_eq call.run_id run ≡ true → IsAdmitted es call)
    → Chain TaskStatus.new (filter_by (is_prior name) es) t
    → (u : TaskStatus) × Chain TaskStatus.new
        (filter_by (is_prior name) es
          ++ (if str_eq call.run_id run && str_eq call.task.id name
              then make_event call ∷ []
              else []))
        u
grow call run name es t admitted chain =
    elim (Bool-cases (str_eq call.run_id run && str_eq call.task.id name)) [
      | inl mine ↦
          let same_run : str_eq call.run_id run ≡ true = ground arith in
          let same_task : call.task.id ≡ name = (str_eq_iff call.task.id name).0 (ground arith) in
          (
            call.target,
            rw mine (
                subst
                  (λ n.
                    Chain TaskStatus.new (filter_by (is_prior n) es ++ make_event call ∷ [])
                      call.target)
                  same_task
                  (grow_own call es t (admitted same_run) (
                    subst (λ n. Chain TaskStatus.new (filter_by (is_prior n) es) t) (sym same_task)
                      chain))),
          )
      | inr other ↦ (t, rw (other, append-nil) chain)
    ]

same_events :
    {a b : Result ReadError (List RunEvent)} {es fs : List RunEvent}
    → a ≡ b
    → a ≡ ok es
    → b ≡ ok fs
    → es ≡ fs
same_events p q r = cc

module _ (store : EventLog) where
  open store use {Log, empty_log, replay, append, replay-empty_log, replay-append}

  -- For every run and task, the log can be replayed, and the transitions of the task in the run lead
  -- from NEW, step by step.
  abbrev pub IsGoverned : Log → Type 0
  IsGoverned log =
      (run task : String)
      → (es : List RunEvent) × (replay log run ≡ ok es)
        × (t : TaskStatus) × Chain TaskStatus.new (filter_by (is_prior task) es) t

  -- What a successful call has seen and done.
  record Recorded (log : Log) (call : Call) (e : RunEvent) (task : TaskEnvelope) (after : Log)
      : Type 0 where
    events : List RunEvent
    replayed : replay log call.run_id ≡ ok events
    admitted : IsAdmitted events call
    event : e ≡ make_event call
    moved : task ≡ record call.task { status = call.target }
    appended : after ≡ append log (make_event call)

  transition_admitted :
      (log : Log) (call : Call) (es : List RunEvent)
      → replay log call.run_id ≡ ok es
      → admit es call ≡ ok tt
      → transition store log call
        ≡ ok (
          make_event call,
          record call.task { status = call.target },
          append log (make_event call),
        )
  unfolding transition
  transition_admitted log call es p q = ground arith

  transition_refused :
      (log : Log) (call : Call) (es : List RunEvent) (x : ServiceError)
      → replay log call.run_id ≡ ok es
      → admit es call ≡ err x
      → transition store log call ≡ err x
  unfolding transition
  transition_refused log call es x p q = ground arith

  transition_unreadable :
      (log : Log) (call : Call) (x : ReadError)
      → replay log call.run_id ≡ err x
      → transition store log call ≡ err (ServiceError.unreadable x)
  unfolding transition
  transition_unreadable log call x p = ground arith

  transition-Recorded :
      (log : Log) (call : Call) (e : RunEvent) (task : TaskEnvelope) (after : Log)
      → transition store log call ≡ ok (e, task, after)
      → Recorded log call e task after
  transition-Recorded log call e task after h = go (replay log call.run_id) refl
    where
      go :
          (r : Result ReadError (List RunEvent))
          → replay log call.run_id ≡ r
          → Recorded log call e task after
      go (err x) p = cc (transition_unreadable log call x p, h)
      go (ok es) p = elim (Result-cases (admit es call)) [
        | inl (u, q) ↦
            let done = sym h ∙ transition_admitted log call es p q in
            record {
              events = es;
              replayed = p;
              admitted = admit-IsAdmitted es call q;
              event = cc done;
              moved = cc done;
              appended = cc done;
            }
        | inr (x, q) ↦ cc (transition_refused log call es x p q, h)
      ]

  transition-governs :
      (log : Log) (call : Call) (e : RunEvent) (task : TaskEnvelope) (after : Log)
      → IsGoverned log
      → transition store log call ≡ ok (e, task, after)
      → IsGoverned after
  unfolding make_event
  transition-governs log call e task after governed h run name =
      let r = transition-Recorded log call e task after h in
      let (es, p, t, chain) = governed run name in
      let same = λ (q : str_eq call.run_id run ≡ true).
        subst (λ fs. IsAdmitted fs call)
          (same_events (ap (replay log) ((str_eq_iff call.run_id run).0 q)) r.replayed p)
          r.admitted in
      let (u, longer) = grow call run name es t same chain in
      let more : List RunEvent = if str_eq call.run_id run then make_event call ∷ [] else [] in
      (
        es ++ more,
        ap (λ l. replay l run) r.appended
            ∙ replay-append log (make_event call) run es r.admitted.validated p,
        u,
        subst (λ fs. Chain TaskStatus.new fs u)
            (sym (
              filter_by-append (is_prior name) es more
              ∙ ap (λ fs. filter_by (is_prior name) es ++ fs) (new_part call run name)))
            longer,
      )

  -- What a successful call makes of the history.
  pub record Extends (log : Log) (call : Call) (e : RunEvent) (task : TaskEnvelope) (after : Log)
      : Type 0 where
    pub kept :
        (run : String) (es : List RunEvent)
        → replay log run ≡ ok es
        → replay after run ≡ ok (es ++ (if str_eq call.run_id run then e ∷ [] else []))
    pub of_run : e.run_id ≡ call.run_id
    pub of_task : e.task_id ≡ call.task.id
    pub left : e.from_status ≡ some call.task.status
    pub entered : e.to_status ≡ some call.target
    pub moved : task ≡ record call.task { status = call.target }
    pub governed : IsGoverned after

  -- A transition that succeeds on a governed log keeps what every run has recorded, and adds one event to
  -- its own run and none to another; the event is that of the call's run and task, from the task's
  -- status into the target, which is the status of the task that is returned; and for every run and task
  -- the recorded transitions are still allowed steps from NEW.
  pub transition-Extends :
      (log : Log) (call : Call) (e : RunEvent) (task : TaskEnvelope) (after : Log)
      → IsGoverned log
      → transition store log call ≡ ok (e, task, after)
      → Extends log call e task after
  unfolding make_event
  transition-Extends log call e task after governed h =
      let r = transition-Recorded log call e task after h in
      record {
        kept = λ run es p.
            ap (λ l. replay l run) r.appended
            ∙ replay-append log (make_event call) run es r.admitted.validated p
            ∙ ap (λ x. ok (es ++ (if str_eq call.run_id run then x ∷ [] else []))) (sym r.event);
        of_run = ap (λ (x : RunEvent). x.run_id) r.event;
        of_task = ap (λ (x : RunEvent). x.task_id) r.event;
        left = ap (λ (x : RunEvent). x.from_status) r.event;
        entered = ap (λ (x : RunEvent). x.to_status) r.event;
        moved = r.moved;
        governed = transition-governs log call e task after governed h;
      }

  after_call-IsGoverned :
      (log : Log) (call : Call) → IsGoverned log → IsGoverned (after_call store log call)
  unfolding after_call
  after_call-IsGoverned log call governed = elim (Result-cases (transition store log call)) [
    | inl ((e, task, after), p) ↦
        let kept : after_call store log call ≡ after = rw (p, after_call) in
        subst IsGoverned (sym kept) (transition-governs log call e task after governed p)
    | inr (x, p) ↦
        let kept : after_call store log call ≡ log = rw (p, after_call) in
        subst IsGoverned (sym kept) governed
  ]

  -- So does any sequence of calls, whatever tasks and statuses the callers bring.
  pub run_calls-IsGoverned :
      (log : Log) (calls : List Call) → IsGoverned log → IsGoverned (run_calls store log calls)
  unfolding run_calls
  run_calls-IsGoverned log [] governed = governed
  run_calls-IsGoverned log (call ∷ calls) governed =
      run_calls-IsGoverned (after_call store log call) calls
        (after_call-IsGoverned log call governed)

  pub IsGoverned-empty_log : IsGoverned empty_log
  IsGoverned-empty_log run name = ([], replay-empty_log run, TaskStatus.new, refl)
