-- ===== src/Processes/Signals.antt =====
-- What the calls on the runs leave of the signals, and what the approval gate is resumed with.
use mathlib.Core.Path.{subst}
use ticket_graph.Prelude.{
  ℕ, String, ◌≡◌, refl, sym, ap, ◌∙◌, ◌≢◌, ◌⊎◌, inl, inr, Bool, true, false, Option, none, some,
  List, [], ◌∷◌, arith, All, All-append, Bool-cases, Option-cases, ◌==◌, nat_eq, string_eq, ==_iff,
}
use ticket_graph.Result.{ok}
use ticket_graph.Json.{Json, get, lookup, str}
use ticket_graph.Models.{Ticket, DraftReply, ApprovalDecision, TicketStatus}
use ticket_graph.Models.Codec.{Pydantic}
use ticket_graph.Sql.{select_where, exists_where}
use ticket_graph.Sql.Laws.{All-update_where, All-select_where}
use ticket_graph.Sql.Pick.{All-first_by}
use ticket_graph.Workflows.{approval_decision_signal}
use ticket_graph.TaskQueue.{QueuedTask}
use ticket_graph.Graph.Dispatch.{TicketState}
use ticket_graph.Graph.Payloads.{approval_envelope, dict_get}
use ticket_graph.Graph.Drive.{await_approval}
use ticket_graph.Graph.Taken.{Asks, Brings}
use ticket_graph.Runs.{
  RunStore, PendingSignal, claim_run, create_run, save_run, consume, is_signal, used, next_run,
  is_run,
}
use ticket_graph.Runs.Signals.{add_pending_signal_if_waiting, unconsumed, waiting}
use ticket_graph.Runner.{
  ResumeValue, resume_for_run, resume_value, approval_resume_value, oldest_signal, decision_value,
  timeout_value, System, timer_value,
}
use ticket_graph.Runner.Step.{reconcile_threads, get_state}
use ticket_graph.Processes.Proper.{SignalWell}

-- the value for a ticket's gate: a timeout, or the oldest decision on it
abbrev Answers : String → List PendingSignal → ResumeValue → Type 0
Answers ticket_id signals value =
    (value.payload ≡ timeout_value)
    ⊎ ((g : PendingSignal) × (oldest_signal ticket_id signals ≡ some g)
        × (value.payload ≡ decision_value g.payload))

gate_value :
    (m : Pydantic) (ticket : Ticket) (reply : DraftReply) (w : ℕ) (wakeup_at : Option ℕ)
    (signals : List PendingSignal) (rows : List QueuedTask) (value : ResumeValue)
    → resume_for_run (approval_envelope m ticket reply w) wakeup_at signals rows ≡ some value
    → Answers ticket.id signals value
unfolding resume_for_run resume_value approval_resume_value get lookup
gate_value m ticket reply w wakeup_at signals rows value e = elim (Bool-cases (ticket.id == "")) [
  | inl nameless ↦ timed wakeup_at (rw nameless at e)
  | inr named ↦ elim (Option-cases (oldest_signal ticket.id signals)) [
    | inl silent ↦ timed wakeup_at (rw (named, silent) at e)
    | inr (g, oldest) ↦ inr (g, oldest, told g (rw (named, oldest) at e))
  ]
]
  where
    timed : (o : Option ℕ) → timer_value o ≡ some value → Answers ticket.id signals value
    timed none e = absurd (cc e)
    timed (some t) e =
        let same : record { payload = timeout_value; consumed_signal_id = none } ≡ value = cc (e) in
        inl (ap (λ v. v.payload) (sym same))

    told :
        (g : PendingSignal)
        → some (record { payload = decision_value g.payload; consumed_signal_id = some g.id })
          ≡ some value
        → value.payload ≡ decision_value g.payload
    told g e =
        let same : record { payload = decision_value g.payload; consumed_signal_id = some g.id }
            ≡ value =
          cc (e) in
        ap (λ v. v.payload) (sym same)

abbrev says_decision : Option Json → Bool
says_decision (some (str k)) = k == "decision"
says_decision _ = false

no_decision : get "kind" timeout_value ≢ some (str "decision")
unfolding get lookup
no_decision h = let differs : false ≡ true = ap says_decision h in cc (differs)

module _ (m : Pydantic) (P : String → ApprovalDecision → Type 0) where
  oldest-Well :
      (id : String) (signals : List PendingSignal) (g : PendingSignal)
      → All (SignalWell m P) signals
      → oldest_signal id signals ≡ some g
      → (unconsumed id approval_decision_signal g ≡ true) × SignalWell m P g
  unfolding oldest_signal
  oldest-Well id signals g well oldest =
      All-first_by (λ x. x.created_at)
        (λ x. (unconsumed id approval_decision_signal x ≡ true) × SignalWell m P x)
        (select_where (unconsumed id approval_decision_signal) signals) g
        (All-select_where (SignalWell m P) (unconsumed id approval_decision_signal) signals well)
        oldest

  decided-Well :
      (id : String) (signals : List PendingSignal) (g : PendingSignal) (d : ApprovalDecision)
      → All (SignalWell m P) signals
      → oldest_signal id signals ≡ some g
      → m.decision.model_validate (dict_get "decision" (decision_value g.payload)) ≡ ok d
      → P id d
  unfolding get lookup
  decided-Well id signals g d well oldest read =
      let (free, (d', dumped, has)) = oldest-Well id signals g well oldest in
      let same : d ≡ d' =
        m.decision.validate-dump_eq d' d (ap m.decision.model_validate (sym dumped) ∙ read) in
      let mine : g.workflow_id ≡ id = (==_iff g.workflow_id id).0 (ground (arith, free)) in
      subst (λ x. P id x) (sym same) (subst (λ x. P x d') mine has)

  -- What a runner resumes the gate with brings no decision but a submitted one on the ticket.
  pub gate-Brings :
      (s : TicketState) (envelope : Json) (wakeup_at : Option ℕ) (signals : List PendingSignal)
      (rows : List QueuedTask) (value : ResumeValue)
      → Asks m await_approval s envelope
      → All (SignalWell m P) signals
      → resume_for_run envelope wakeup_at signals rows ≡ some value
      → Brings m P s value.payload
  gate-Brings s envelope wakeup_at signals rows value (t, reply, w, whose, asked) well e ticket d
        mine (kind, read) =
      let same : t ≡ ticket = cc (whose, mine) in
      let e' : resume_for_run (approval_envelope m t reply w) wakeup_at signals rows ≡ some value =
        subst (λ x. resume_for_run x wakeup_at signals rows ≡ some value) asked e in
      subst (λ x. P x.id d) same
        (elim (gate_value m t reply w wakeup_at signals rows value e') [
          | inl late ↦
              absurd (no_decision (subst (λ x. get "kind" x ≡ some (str "decision")) late kind))
          | inr (g, oldest, told) ↦
              decided-Well t.id signals g d well oldest
                (subst (λ x. m.decision.model_validate (dict_get "decision" x) ≡ ok d) told read)
        ])

  -- The calls on the runs: they add no signal, except that a decision is submitted.
  pub claimed-Well :
      (locked : String → Bool) (worker : String) (now : ℕ) (s : RunStore)
      → All (SignalWell m P) s.signals
      → All (SignalWell m P) (claim_run locked worker now s).1.signals
  unfolding claim_run
  claimed-Well locked worker now s h = elim (Option-cases (next_run locked now s)) [
    | inl e ↦ rw (e, claim_run) h
    | inr (c, e) ↦ rw (e, claim_run) h
  ]

  pub created-Well :
      (id : String) (status : TicketStatus) (wakeup_at : Option ℕ) (now : ℕ) (s : RunStore)
      → All (SignalWell m P) s.signals
      → All (SignalWell m P) (create_run id status wakeup_at now s).signals
  unfolding create_run
  created-Well id status wakeup_at now s h = elim (Bool-cases (exists_where (is_run id) s.runs)) [
    | inl e ↦ rw (e, create_run) h
    | inr e ↦ rw (e, create_run) h
  ]

  pub saved-Well :
      (id : String) (status : TicketStatus) (wakeup_at consumed : Option ℕ) (now : ℕ) (s : RunStore)
      → All (SignalWell m P) s.signals
      → All (SignalWell m P) (save_run id status wakeup_at consumed now s).signals
  unfolding save_run consume
  saved-Well id status wakeup_at none now s h = h
  saved-Well id status wakeup_at (some i) now s h =
      All-update_where (SignalWell m P) (is_signal i) (used now) s.signals (λ g _ w. w) h

  pub added-Well :
      (id : String) (d : ApprovalDecision) (status : TicketStatus) (now : ℕ) (s : RunStore)
      → P id d
      → All (SignalWell m P) s.signals
      → All
          (SignalWell m P)
          (add_pending_signal_if_waiting id approval_decision_signal
            (m.decision.model_dump d)
            status
            now
            s).1.signals
  unfolding add_pending_signal_if_waiting
  added-Well id d status now s has h = elim (Bool-cases (exists_where (waiting id status) s.runs)) [
    | inr idle ↦ rw (idle, add_pending_signal_if_waiting) h
    | inl waits ↦
        elim (Bool-cases (exists_where (unconsumed id approval_decision_signal) s.signals)) [
          | inl taken ↦ rw (waits, taken, add_pending_signal_if_waiting) h
          | inr free ↦
              rw (waits, free, add_pending_signal_if_waiting)
                (All-append (SignalWell m P) s.signals _ h ((d, refl, has), tt))
        ]
  ]

  pub reconciled-Well :
      (sys : System) (now : ℕ) (ids : List String) (s : RunStore)
      → All (SignalWell m P) s.signals
      → All (SignalWell m P) (reconcile_threads sys now ids s).1.signals
  unfolding reconcile_threads
  reconciled-Well sys now [] s h = h
  reconciled-Well sys now (i ∷ ids) s h = elim (Option-cases (get_state i sys)) [
    | inl e ↦ rw (e, reconcile_threads) (reconciled-Well sys now ids s h)
    | inr (c, e) ↦ elim (Bool-cases c.materialized) [
      | inr empty ↦ rw (e, empty, reconcile_threads) (reconciled-Well sys now ids s h)
      | inl there ↦ elim (Option-cases c.values.status) [
        | inl none_there ↦ rw (e, there, none_there, reconcile_threads) h
        | inr (status, f) ↦
            rw (e, there, f, reconcile_threads)
              (reconciled-Well sys now ids (create_run i status c.values.wakeup_at now s)
                (created-Well i status c.values.wakeup_at now s h))
      ]
    ]
  ]
