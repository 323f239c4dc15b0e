-- ===== src/Examples/Worker.antt =====
-- A worker's round on the task queue of `Examples/Queue`.
use ticket_graph.Prelude.{String, [], nat_eq, string_eq}
use ticket_graph.Json.{Json}
use ticket_graph.Result.{Result, err, Error, agent_permanent}
use ticket_graph.TaskQueue.{QueuedTask, new_row, lease_to}
use ticket_graph.Runner.{System}
use ticket_graph.Examples.Queue.{queue, task_of}
use ticket_graph.Examples.Runs.{store}

abbrev system : System
system = record { store = store; tasks = queue; checkpoints = [] }

abbrev refuse : QueuedTask → Result Json
refuse task = err (agent_permanent "no")

abbrev describe : Error → String
describe e = "error"

abbrev first_task : QueuedTask
first_task = lease_to "w" 40 (new_row 10 1 (task_of "a"))
