-- ===== src/Runner/Ready.antt =====
-- What the runner resumes a suspended graph with.
use ticket_graph.Prelude.{
  ℕ, String, ◌≡◌, refl, inl, inr, true, false, ◌||◌, Option, none, some, List, [], ◌∷◌, ◌++◌, arith,
  All, if◌then◌else◌, Bool-cases, is_some, ◌==◌, nat_eq, string_eq, ==_refl,
}
use ticket_graph.Json.{Json, get, str}
use ticket_graph.Models.{TicketStatus}
use ticket_graph.Sql.{select_where, exists_where, first_by}
use ticket_graph.Sql.Laws.{exists-select, select-insert, All-update_cases, All-read}
use ticket_graph.Workflows.{approval_decision_signal}
use ticket_graph.Runs.{RunStore, WorkflowRun, PendingSignal, is_run, woken}
use ticket_graph.Runs.Signals.{add_pending_signal_if_waiting, unconsumed, new_signal, waiting}
use ticket_graph.TaskQueue.{QueuedTask, TaskTable, has_key, is_settled, is_failed}
use ticket_graph.TaskQueue.Settled.{Holds}
use ticket_graph.TaskQueue.Invariant.{IsValid, RowIsValid}
use ticket_graph.Runner.{
  resume_for_run, resume_value, approval_resume_value, oldest_signal, decision_value, answered,
  task_value, timer_value, or_timer, answer_with, is_text, get_or_none,
}

oldest-insert :
    (fresh : ℕ) (ticket_id : String) (payload : Json) (now : ℕ) (signals : List PendingSignal)
    → exists_where (unconsumed ticket_id approval_decision_signal) signals ≡ false
    → let g = new_signal fresh ticket_id approval_decision_signal payload now in
      oldest_signal ticket_id (signals ++ g ∷ []) ≡ some g
unfolding oldest_signal first_by
oldest-insert fresh ticket_id payload now signals free = rw (
  select-insert (unconsumed ticket_id approval_decision_signal) signals
      (new_signal fresh ticket_id approval_decision_signal payload now),
  exists-select (unconsumed ticket_id approval_decision_signal) signals free,
  ==_refl ticket_id,
)

-- At the approval gate the oldest decision is what the runner resumes with.
approval_ready :
    (ticket_id : String) (envelope : Json) (wakeup_at : Option ℕ) (signals : List PendingSignal)
    (rows : List QueuedTask) (g : PendingSignal)
    → (ticket_id == "") ≡ false
    → get "kind" envelope ≡ some (str "approval_required")
    → get "ticket_id" envelope ≡ some (str ticket_id)
    → oldest_signal ticket_id signals ≡ some g
    → resume_for_run envelope wakeup_at signals rows
      ≡ some record { payload = decision_value g.payload; consumed_signal_id = some g.id }
unfolding resume_for_run resume_value approval_resume_value
approval_ready ticket_id envelope wakeup_at signals rows g named kind ticket oldest =
    ground (arith, kind, ticket, named, oldest)

-- A decision that the API accepts for a ticket, whose id is not the empty text, is what the runner
-- resumes the ticket's approval gate with, whatever timer is set and whatever the queue holds, and
-- the run is due at once.
pub submitted_ready :
    (ticket_id : String) (payload : Json) (status : TicketStatus) (now i : ℕ) (s : RunStore)
    (envelope : Json) (wakeup_at : Option ℕ) (rows : List QueuedTask)
    → (ticket_id == "") ≡ false
    → get "kind" envelope ≡ some (str "approval_required")
    → get "ticket_id" envelope ≡ some (str ticket_id)
    → (add_pending_signal_if_waiting ticket_id approval_decision_signal payload status now s).0
      ≡ some i
    → let s' =
        (add_pending_signal_if_waiting ticket_id approval_decision_signal payload status now s).1 in
      (resume_for_run envelope wakeup_at s'.signals rows
        ≡ some record { payload = decision_value payload; consumed_signal_id = some i })
      × All (λ (r : WorkflowRun). is_run ticket_id r ≡ true → r.wakeup_at ≡ some now) s'.runs
unfolding add_pending_signal_if_waiting
submitted_ready ticket_id payload status now i s envelope wakeup_at rows named kind ticket h =
    elim (Bool-cases (exists_where (waiting ticket_id status) s.runs)) [
      | inr idle ↦ absurd (ground arith)
      | inl waits ↦
          elim (Bool-cases
            (exists_where (unconsumed ticket_id approval_decision_signal) s.signals)) [
              | inl taken ↦ absurd (ground arith)
              | inr free ↦
                  let fresh : s.next_signal ≡ i = ground arith in
                  rw (waits, free)
                    (
                      rw (
                        approval_ready ticket_id envelope wakeup_at
                            (s.signals
                              ++ new_signal s.next_signal ticket_id approval_decision_signal payload
                                  now
                                ∷ [])
                            rows
                            (new_signal s.next_signal ticket_id approval_decision_signal payload
                              now)
                            named kind ticket
                            (oldest-insert s.next_signal ticket_id payload now s.signals free),
                        fresh,
                      ),
                      All-update_cases (λ r. is_run ticket_id r ≡ true → r.wakeup_at ≡ some now)
                          (is_run ticket_id) (woken now) s.runs (λ r hit mine. refl)
                          (λ r miss mine. absurd (cc (miss, mine))),
                    )
            ]
    ]

-- The one row of a key is what the query for an answer reads, if it is answered.
select-answered :
    (key : String) (rows : List QueuedTask)
    → select_where (answered key) rows
      ≡ select_where (λ r. is_some r.result || is_failed r.status) (select_where (has_key key) rows)
unfolding select_where
select-answered key [] = refl
select-answered key (r ∷ rows) = ground (arith, select-answered key rows)

settled_answer :
    (r : QueuedTask) (wakeup_at : Option ℕ)
    → RowIsValid r
    → or_timer
        (answer_with (select_where (λ x. is_some x.result || is_failed x.status) (r ∷ [])))
        wakeup_at
      ≡ (if is_settled r.status then some (task_value r) else timer_value wakeup_at)
unfolding select_where
settled_answer r wakeup_at valid = ground (arith, valid.answered)

-- On a valid queue that holds the task, a graph that waits for a task, with an envelope of any kind
-- but `approval_required`, resumes when the task is settled and not before: with its result if it is done, with its error if it has failed; until
-- then with a timeout if a timer is set, and not at all if none is.
pub settled_ready :
    (key : String) (r : QueuedTask) (t : TaskTable) (envelope : Json) (wakeup_at : Option ℕ)
    (signals : List PendingSignal)
    → IsValid t
    → Holds key r t
    → is_text "approval_required" (get_or_none "kind" envelope) ≡ false
    → get "idempotency_key" envelope ≡ some (str key)
    → resume_for_run envelope wakeup_at signals t.rows
      ≡ (if is_settled r.status then some (task_value r) else timer_value wakeup_at)
unfolding resume_for_run resume_value approval_resume_value
settled_ready key r t envelope wakeup_at signals v h kind named =
    let valid = (All-read RowIsValid (has_key key) t.rows r v.valid h).1 in
    rw (waits, named) (rw (select-answered key t.rows, h) (settled_answer r wakeup_at valid))
  where
    waits : approval_resume_value envelope signals ≡ none
    waits = ground (arith, kind)
