-- ===== src/Startup.antt =====
-- The mains of the processes and the lifespan of the API, with the pools that they open: `main` of
-- src/ticketflow/agent_worker.py, fallback_worker.py, side_effect_worker.py and runner.py, `lifespan`
-- of api.py, and `managed_pool` of db.py. A call is an event; `raises` says which raise. The log has
-- the calls that have returned, and `serves`, which is begun, the newest
-- first.
pub mod Closes
use ticket_graph.Prelude.{Bool, true, false, Option, none, some, List, [], ◌∷◌}
use ticket_graph.Result.{Error}

-- the pool of `bootstrap`, and those of a process
pub data Pool : Type 0 where
  own_pool sync_pool async_pool : Pool

pub data Call : Type 0 where
  sets_up_logging migrates makes_activities : Call
  opens closes : Pool → Call
  -- AsyncPostgresSaver.from_conn_string, its `setup` and the end of its block
  connects_saver sets_up_saver ends_saver : Call
  compiles : Call
  -- `run_forever`, or the handling of requests: its begin and its return
  serves served : Call

-- what a piece of code raises, if anything, and the log after it
abbrev pub Program : Type 0
Program = List Call → Option Error × List Call

abbrev returns : Option Error → Call → List Call → Option Error × List Call
returns none c log = (none, c ∷ log)
returns (some e) c log = (some e, log)

abbrev pub skip : Program
skip log = (none, log)

abbrev pub after : Program → Option Error × List Call → Option Error × List Call
after next (none, log) = next log
after next (some e, log) = (some e, log)

-- one piece of code after the other
abbrev pub all_of : List Program → Program
all_of [] log = (none, log)
all_of (first ∷ rest) log = after (all_of rest) (first log)

abbrev closed : Option Error → Option Error × List Call → Option Error × List Call
closed raised (none, log) = (raised, log)
closed raised (some e, log) = (some e, log)

-- `try: body finally: closing`, and the blocks of `with`
abbrev pub finally_do : Program → Program → Program
finally_do closing body log = let (raised, log1) = body log in closed raised (closing log1)

module _ (raises : Call → Option Error) where
  abbrev pub call : Call → Program
  call c log = returns (raises c) c log

  -- `managed_pool`; `injected` says whether a pool is given
  abbrev pub managed_pool : Bool → Program → Program
  managed_pool true body = body
  managed_pool false body =
      all_of (call (opens own_pool) ∷ finally_do (call (closes own_pool)) body ∷ [])

  -- `_validate_migrations`, which comes first, is in Migrations and opens no pool.
  abbrev pub bootstrap : Program
  bootstrap = managed_pool false (call migrates)

  abbrev pub serve : Program
  serve = all_of ((λ log. (none, serves ∷ log)) ∷ call served ∷ [])

  -- `main` of agent_worker.py; those of the other workers make other activities and serve another
  -- queue, with the same calls
  abbrev pub worker_main : Program
  worker_main = all_of (
      call sets_up_logging
      ∷ bootstrap
      ∷ call (opens sync_pool)
      ∷ call makes_activities
      ∷ finally_do (call (closes sync_pool)) serve
      ∷ [])

  abbrev pub fallback_main : Program
  fallback_main = worker_main

  abbrev pub side_effect_main : Program
  side_effect_main = worker_main

  -- the setup of the saver, the graph, and what the process is for
  abbrev pub saver_block : Program
  saver_block = all_of (call sets_up_saver ∷ call compiles ∷ serve ∷ [])

  abbrev pub with_saver : Program
  with_saver = all_of (call connects_saver ∷ finally_do (call ends_saver) saver_block ∷ [])

  abbrev pub close_pools : Program
  close_pools = all_of (call (closes async_pool) ∷ call (closes sync_pool) ∷ [])

  -- what `lifespan` does, and the `main` of the runner after `setup_logging`
  abbrev pub lifespan : Program
  lifespan = all_of (
      bootstrap
      ∷ call (opens sync_pool)
      ∷ call (opens async_pool)
      ∷ finally_do close_pools with_saver
      ∷ [])

  abbrev pub runner_main : Program
  runner_main = all_of (call sets_up_logging ∷ lifespan ∷ [])

pub data Process : Type 0 where
  agent_worker fallback_worker side_effect_worker runner api : Process

unfoldable pub main : (Call → Option Error) → Process → Program
main raises agent_worker = worker_main raises
main raises fallback_worker = fallback_main raises
main raises side_effect_worker = side_effect_main raises
main raises runner = runner_main raises
main raises api = lifespan raises
