-- ===== src/Lib.antt =====
-- TicketFlow, a durable workflow for support tickets: a ticket is classified and answered by an
-- agent, risky answers pass a human approval, and the reply and the refund are carried out once.
-- All state is in Postgres. The API starts a ticket's graph and takes decisions, workers lease
-- tasks from a queue and store their results, the side-effect worker sends replies and refunds,
-- and the runner claims a run whose task or decision is ready and resumes its graph.
--
-- Which file models what:
--   Sql, Sql/Laws, Sql/Pick: the clauses of the SQL statements, on a table as the list of its rows.
--   TaskQueue: src/ticketflow/taskqueue.py, and dequeue of src/ticketflow/db.py. Each function is
--     one statement, TaskTable -> answer and TaskTable. TaskQueue/Calls: interleavings as lists.
--   Runs, Runs/Signals: the other transactions of src/ticketflow/db.py, on workflow_run,
--     workflow_run_archive and pending_signal; Runs/Calls: their interleavings; Runs/Listing: the
--     listing by status.
--   Migrations: the schema migrations of src/ticketflow/db.py. What Postgres does for a statement of
--     DDL is a parameter.
--   Models, Workflows: src/ticketflow/models.py, workflows.py, signals.py and the constants of
--     config.py. Models/Codec: pydantic as an interface; Models/Plain: one instance of it.
--   Graph: src/ticketflow/graph.py. Graph/Action is the monad of a node, which writes the queue and
--     may suspend or raise; Graph/Nodes has the eight nodes, Graph/Drive the edges and `ainvoke`;
--     Graph/Course: the stops of a ticket from its start to its end.
--   Runner, Runner/Step, Runner/Loop: src/ticketflow/runner.py on the whole database and the
--     checkpoints; a round of run_forever is one function.
--   Worker: process_one_task of src/ticketflow/agent_worker.py, with the activity as a parameter (a
--     cancelled one leaves its task leased);
--     Worker/Bucket: its TokenBucket, over the times of the calls; Worker/Loop: run_forever, over
--     what the tasks and the event loop do in each turn.
--   Agent, Agent/Mock: src/ticketflow/agent, the agent's operations of activities.py and
--     _run_activity of agent_worker.py. The random generator is a parameter with its documented laws.
--   Api: the handlers of src/ticketflow/api.py on the whole system; a handler takes the parsed
--     request and gives a body, an HTTPException or what it raises.
--   Ledger, Ledger/Finalize: src/ticketflow/ledger.py, readmodel.py, the effects of activities.py
--     and run_finalize of side_effect_worker.py.
--   Logging: src/ticketflow/logging.py: the filter, the formatters and setup_logging, with the
--     standard library's part as a parameter; Logging/Context: the ticket context, with the
--     middleware of api.py.
--   Tracing: src/ticketflow/tracing.py and the defaults that src/ticketflow/__init__.py sets.
--   Startup: the mains of the processes, the lifespan of the API and managed_pool of
--     src/ticketflow/db.py, as the calls that may raise.
--   Scripts: scripts/. Scripts/Batch, Scripts/Poll and Scripts/Run: batch.py; Scripts/Doctor:
--     doctor.py; Scripts/Wait: wait_for_api.py. A loop is given the answer of each request, and the
--     clock; Scripts/Dict: a dict in its order of insertion.
--   Processes: a step of the system as one operation of one process, and its histories. Graph/Taken,
--     Graph/Resolution and Processes/Signals follow a decision from the call that submits it to the
--     finalize task, for any property of decisions on tickets.
--   The other files hold the proofs about these; Examples holds the tests.
--
-- Conventions and bounds:
--   A timestamp is a number of microseconds, and each function takes the `now()` of its transaction.
--   The event loop's clock and its intervals are whole numbers, added without rounding.
--   A float is the number of units of 2^-1074, of which each finite double is a whole multiple.
--   FOR UPDATE SKIP LOCKED is a test of the rows that another transaction holds. Of rows with equal
--   ORDER BY keys the first in the table is picked, which SQL leaves open. The async variants of a
--   function run the same statement. The fuel of `ainvoke` is 8, the number of nodes; the graph has
--   no cycle, so a run from any node has at most 8, and Graph/Fuel proves that it is enough.
--   The inner loop of Worker/Loop has max_concurrent as fuel, since each turn of it adds a task.
--   In Runner/Step and Processes one operation of a process is one function; what other processes do
--   in the middle of it is in the lists of calls of TaskQueue/Calls and Runs/Calls.
--
-- Not modelled: FastAPI's routing, the reading of the environment, and of the scripts the parsing of
-- arguments, the printing, the HTTP client and reset.py. A worker's loop is not joined to the
-- histories of Processes, in which each round of a worker is a step of its own.
-- LangGraph, pydantic and Postgres are not part of the repository: what is used of them is as they
-- document it. What LangGraph keeps of the nodes of a call that then raises is left out, and so is
-- the length of a worker's pause.
mod Prelude
pub mod Sql
pub mod Clock
pub mod Json
pub mod TaskQueue
pub mod Result
pub mod Models
pub mod Workflows
pub mod Ledger
pub mod Graph
pub mod Runs
pub mod Runner
pub mod Worker
pub mod Agent
pub mod Api
pub mod Migrations
pub mod Processes
pub mod Scripts
pub mod Logging
pub mod Startup
pub mod Tracing
mod Examples
