-- ===== src/Runner.antt =====
-- src/ticketflow/runner.py: the runner, which claims a run, looks for what its suspended graph
-- waits for, resumes the graph and saves the run.
pub mod Step
pub mod Loop
pub mod Timers
pub mod Ready
pub mod Reconcile
use ticket_graph.Prelude.{
  ℕ, zero, suc, ◌+◌, ◌-◌, ◌*◌, ◌/◌, ◌%◌, ◌^◌, ◌≤◌, ◌<◌, String, ◌≡◌, refl, sym, ap, ◌∙◌, ◌≢◌, ◌↔◌,
  ◌⊎◌, inl, inr, Bool, true, false, not, ◌&&◌, ◌||◌, Option, none, some, List, [], ◌∷◌, ◌++◌, arith,
  All, All-append, All-impl, All-intro, All-zip, Distinct, Distinct-unique, length, ltb, leb,
  if◌then◌else◌, Bool-cases, Option-cases, is_some, some_of, Eq, ◌==◌, nat_eq, string_eq, ==_iff,
  ==_refl, ne_of_==, text_le, text_le_antisym, text_le_total, text_order, Order, sort_by, insert_by,
  IsSorted, sort_by-IsSorted, sort_by_sorted, All-sort_by, map, length-insert, Trace, Trace-trans,
  Trace-impl,
}
use ticket_graph.Clock.{lease_time}
use ticket_graph.Json.{Json, get, null, bool, num, str, obj, end, field}
use ticket_graph.Result.{Result, ok, err, Error, key_error, type_error}
use ticket_graph.Sql.{select_where, first_by}
use ticket_graph.Workflows.{Config, approval_decision_signal}
use ticket_graph.Models.{TicketStatus}
use ticket_graph.Models.Codec.{Pydantic}
use ticket_graph.TaskQueue.{
  TaskTable, QueuedTask, has_key, is_failed, reclaim_expired, prune_settled,
}
use ticket_graph.Graph.Dispatch.{TicketState}
use ticket_graph.Graph.Drive.{Node, Thread, Stop, parked, ended, crashed, resume}
use ticket_graph.Runs.{
  RunStore, WorkflowRun, PendingSignal, claim_run, save_run, create_run, reclaim_expired_runs,
  archive_terminal_runs, prune_consumed_signals, list_orphaned_checkpoint_threads,
}
use ticket_graph.Runs.Signals.{unconsumed}

pub record ResumeValue : Type 0 where
  pub payload : Json
  pub consumed_signal_id : Option ℕ

-- `{"kind": "decision", "decision": payload}` and the other resume values
abbrev pub decision_value : Json → Json
decision_value payload = obj (field "kind" (str "decision") (field "decision" payload end))

-- `error` is NULL or a text.
abbrev or_null : Option String → Json
or_null none = null
or_null (some e) = str e

abbrev pub failed_value : Option String → Bool → Json
failed_value error permanent = obj (
    field "kind" (str "task_failed")
      (field "error" (or_null error) (field "permanent" (bool permanent) end)))

abbrev pub timeout_value : Json
timeout_value = obj (field "kind" (str "timeout") end)

-- ORDER BY created_at, id over signals of one table, whose ids grow in the order of the table.
unfoldable pub oldest_signal : String → List PendingSignal → Option PendingSignal
oldest_signal workflow_id signals =
    first_by (λ g. g.created_at)
      (select_where (unconsumed workflow_id approval_decision_signal) signals)

-- `d.get(key)`, with None for a missing key
abbrev pub get_or_none : String → Json → Json
get_or_none key j = elim (get key j) [ none ↦ null | some v ↦ v ]

-- whether Python takes the value for true
abbrev truthy : Json → Bool
truthy null = false
truthy (bool b) = b
truthy (num n) = ltb 0 n
truthy (str s) = not (s == "")
truthy (obj end) = false
truthy (obj _) = true

-- `envelope.get("ticket_id") or envelope.get("workflow_id")`
abbrev pub envelope_workflow : Json → Json
envelope_workflow envelope =
    if truthy (get_or_none "ticket_id" envelope)
    then get_or_none "ticket_id" envelope
    else get_or_none "workflow_id" envelope

abbrev pub is_text : String → Json → Bool
is_text text (str s) = s == text
is_text text _ = false

abbrev pub decide_with : Option PendingSignal → Option ResumeValue
decide_with none = none
decide_with (some g) =
    some record { payload = decision_value g.payload; consumed_signal_id = some g.id }

abbrev signal_of : Json → List PendingSignal → Option ResumeValue
signal_of (str workflow_id) signals = decide_with (oldest_signal workflow_id signals)
signal_of _ signals = none

unfoldable pub approval_resume_value : Json → List PendingSignal → Option ResumeValue
approval_resume_value envelope signals =
    if is_text "approval_required" (get_or_none "kind" envelope)
    then signal_of (envelope_workflow envelope) signals
    else none

-- `idempotency_key = %s AND (result IS NOT NULL OR status = 'failed')`
abbrev pub answered : String → QueuedTask → Bool
answered key r = has_key key r && (is_some r.result || is_failed r.status)

-- `result` of a row that is not failed; the WHERE leaves no NULL there
abbrev result_or_null : Option Json → Json
result_or_null none = null
result_or_null (some j) = j

abbrev pub task_value : QueuedTask → ResumeValue
task_value r = record {
  payload =
      if is_failed r.status then failed_value r.error r.permanent else result_or_null r.result;
  consumed_signal_id = none;
}

abbrev pub answer_with : List QueuedTask → Option ResumeValue
answer_with [] = none
answer_with (r ∷ rows) = some (task_value r)

abbrev pub task_of : Option Json → List QueuedTask → Option ResumeValue
task_of (some (str key)) rows = answer_with (select_where (answered key) rows)
task_of _ rows = none

-- a decision, or else the answer to the envelope's task
abbrev pub or_task : Option ResumeValue → Option Json → List QueuedTask → Option ResumeValue
or_task (some decision) key rows = some decision
or_task none key rows = task_of key rows

unfoldable pub resume_value : Json → List PendingSignal → List QueuedTask → Option ResumeValue
unfolding approval_resume_value
resume_value envelope signals rows =
    or_task (approval_resume_value envelope signals) (get "idempotency_key" envelope) rows

abbrev pub timer_value : Option ℕ → Option ResumeValue
timer_value none = none
timer_value (some t) = some record { payload = timeout_value; consumed_signal_id = none }

-- a ready value wins over the timer
abbrev pub or_timer : Option ResumeValue → Option ℕ → Option ResumeValue
or_timer (some ready) wakeup_at = some ready
or_timer none wakeup_at = timer_value wakeup_at

unfoldable pub resume_for_run :
    Json → Option ℕ → List PendingSignal → List QueuedTask → Option ResumeValue
unfolding resume_value
resume_for_run envelope wakeup_at signals rows =
    or_timer (resume_value envelope signals rows) wakeup_at

-- A timestamp is a number in the model; no text that is no timestamp is put in an envelope.
unfoldable pub parse_wakeup_at : Json → Result (Option ℕ)
parse_wakeup_at null = ok none
parse_wakeup_at (num t) = ok (some t)
parse_wakeup_at _ = err type_error

unfoldable pub next_wakeup_at : Stop → Result (Option ℕ)
unfolding parse_wakeup_at
next_wakeup_at (parked th) = parse_wakeup_at (get_or_none "wakeup_at" th.envelope)
next_wakeup_at (ended state) = ok state.wakeup_at
next_wakeup_at (crashed e) = err e

-- A LangGraph checkpoint: whether it has values, those of the thread, and where it is suspended if it
-- is.
pub record Checkpoint : Type 0 where
  pub thread_id : String
  pub materialized : Bool
  pub values : TicketState
  pub suspended : Option Thread

-- All that the processes share: the database, and LangGraph's checkpoints.
pub record System : Type 0 where
  pub store : RunStore
  pub tasks : TaskTable
  pub checkpoints : List Checkpoint
