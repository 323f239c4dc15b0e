-- ===== src/Processes.antt =====
-- All processes of the program on the system that they share: the API of src/ticketflow/api.py, the
-- runner of runner.py and the workers of agent_worker.py. A step is one operation of one process, at
-- any time and with any arguments; `Traced` relates it to the calls of TaskQueue/Calls and
-- Runs/Calls, whose interleavings are finer.
pub mod Acts
pub mod Traced
pub mod Sound
pub mod Proper
pub mod Signals
pub mod Graphs
pub mod Authorised
pub mod Rounds
use ticket_graph.Prelude.{ℕ, String, ◌≡◌, Bool, some}
use ticket_graph.Json.{Json}
use ticket_graph.Result.{Result, Error}
use ticket_graph.Workflows.{Config}
use ticket_graph.Models.{ApprovalDecision}
use ticket_graph.Models.Codec.{Pydantic}
use ticket_graph.TaskQueue.{QueuedTask}
use ticket_graph.Graph.Drive.{Node}
use ticket_graph.Runner.{System}
use ticket_graph.Runner.Step.{step, reconcile_orphaned_runs, reclaim_expired_leases, run_retention}
use ticket_graph.Worker.{process_one_task}
use ticket_graph.Api.{Reply, CreateTicketRequest, create_ticket, submit_approval}

module _ (cfg : Config) (m : Pydantic) where
  -- what the processes do but for retention
  pub data Work : System → System → Type 0 where
    creates :
        {sys sys' : System} {reply : Reply String} (at : Node → ℕ) (id : String)
        (request : CreateTicketRequest) (now : ℕ)
        → create_ticket cfg m at id request now sys ≡ some (reply, sys')
        → Work sys sys'
    decides :
        (ticket_id : String) (decision : ApprovalDecision) (now : ℕ) (sys : System)
        → Work sys (submit_approval m ticket_id decision now sys).1
    runs :
        {sys sys' : System} {acted : Result Bool} (at : Node → ℕ) (locked : String → Bool)
        (worker : String) (claimed_at now : ℕ)
        → step cfg m at locked worker claimed_at now sys ≡ some (acted, sys')
        → Work sys sys'
    works :
        (describe : Error → String) (now woken_at : ℕ) (run_activity : QueuedTask → Result Json)
        (locked : ℕ → Bool) (queue worker : String) (leased_at : ℕ) (sys : System)
        → Work sys
            (process_one_task describe now woken_at run_activity locked queue worker leased_at
              sys).1
    reclaims : (now : ℕ) (sys : System) → Work sys (reclaim_expired_leases now sys).1
    reconciles : (now : ℕ) (sys : System) → Work sys (reconcile_orphaned_runs now sys).1

  -- a series of these
  pub data Working : System → System → Type 0 where
    idle : (sys : System) → Working sys sys
    then_works : {sys sys' sys'' : System} → Working sys sys' → Work sys' sys'' → Working sys sys''

  -- a history of the system, retention included
  pub data History : System → System → Type 0 where
    begins : (sys : System) → History sys sys
    continues : {sys sys' sys'' : System} → History sys sys' → Work sys' sys'' → History sys sys''
    retains :
        {sys sys' : System} (age now : ℕ)
        → History sys sys'
        → History sys (run_retention age now sys').1
