-- ===== src/TaskQueue/Traces.antt =====
-- What the processes do to the task queue as a list of calls of TaskQueue/Calls.
use ticket_graph.Prelude.{◌≡◌, refl, List, [], ◌∷◌, ◌++◌, nat_eq, string_eq, Trace, Trace-trans}
use ticket_graph.TaskQueue.{TaskTable}
use ticket_graph.TaskQueue.Calls.{Call, run, step}

abbrev pub QueueTrace : (Call → Type 0) → TaskTable → TaskTable → Type 0
QueueTrace P t t' = Trace run P t t'

run-append : (t : TaskTable) (cs ds : List Call) → run t (cs ++ ds) ≡ run (run t cs) ds
unfolding run
run-append t [] ds = refl
run-append t (c ∷ cs) ds = run-append (step t c) cs ds

module _ {P : Call → Type 0} where
  pub trace_none : (t : TaskTable) → QueueTrace P t t
  trace_none t = record { calls = []; within = tt; ends = unfold run in refl }

  pub trace_one : (t : TaskTable) (c : Call) → P c → QueueTrace P t (step t c)
  trace_one t c p = record { calls = c ∷ []; within = (p, tt); ends = unfold run in refl }

  pub trace_then : {t u v : TaskTable} → QueueTrace P t u → QueueTrace P u v → QueueTrace P t v
  trace_then a b = Trace-trans run-append a b
