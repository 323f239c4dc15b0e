-- ===== src/Examples/Api.antt =====
-- A ticket that is created, one whose creation was cut short, and one that is archived.
use ticket_graph.Prelude.{
  ◌≡◌, refl, true, false, none, some, [], ◌∷◌, if◌then◌else◌, ◌==◌, nat_eq, string_eq,
}
use ticket_graph.Result.{ok}
use ticket_graph.Models.{classifying, TicketResult, resolved, awaiting_approval}
use ticket_graph.Models.Plain.{plain}
use ticket_graph.Sql.{select_where, exists_where, delete_where}
use ticket_graph.TaskQueue.{has_key, new_row, prune_settled}
use ticket_graph.TaskQueue.Calls.{empty}
use ticket_graph.Ledger.{Ledger, save_result, load_result}
use ticket_graph.Graph.Dispatch.{agent_key}
use ticket_graph.Graph.Drive.{initial}
use ticket_graph.Runs.{
  fresh_run, is_run, list_orphaned_checkpoint_threads, RunStore, archive_terminal_runs,
  prune_consumed_signals,
}
use ticket_graph.Runner.{System}
use ticket_graph.Runner.Step.{run_retention, reconcile_orphaned_runs, RetentionResult}
use ticket_graph.Api.{
  CreateTicketRequest, create_ticket, get_ticket, body, info_of_result, new_ticket,
}
use ticket_graph.Api.Create.{
  IsNew, seeded, created, create_ticket_lem, reconcile-seeded, armed_at, classify_task, first_info,
}
use ticket_graph.Api.Read.{get_ticket-run_retention}
use ticket_graph.Examples.Workflow.{config, clock}
use ticket_graph.Ledger.Results.{load_result-save_result}

abbrev pub no_runs : RunStore
no_runs = record { runs = []; archive = []; signals = []; next_signal = 1 }

abbrev pub nothing : System
nothing = record { store = no_runs; tasks = empty; checkpoints = [] }

abbrev pub request : CreateTicketRequest
request = record {
  customer_email = "jo@example.com";
  subject = "refund please";
  body = "charged twice";
}

pub new : IsNew config plain clock (new_ticket "t" request) nothing
unfolding exists_where
new = record { thread = refl; run = refl; task = refl }

abbrev pub ledger : Ledger
ledger = record {
  refunds = [];
  refund_attempts = [];
  next_refund_attempt = 1;
  sent_replies = [];
  reply_attempts = [];
  next_reply_attempt = 1;
  ticket_results = [];
}

abbrev pub after : System
after = created config plain clock "t" request 101 nothing

create_ticket_lem_example :
    (create_ticket config plain clock "t" request 101 nothing ≡ some (body "t", after))
    × (get_ticket plain "t" after ledger ≡ body (first_info "t"))
    × (select_where (is_run "t") after.store.runs
        ≡ fresh_run "t" classifying
            (some (armed_at config plain clock (new_ticket "t" request)))
            101
          ∷ [])
    × (select_where (has_key (agent_key "t" "classify")) after.tasks.rows
        ≡ new_row 100 1 (classify_task config plain clock (new_ticket "t" request)) ∷ [])
create_ticket_lem_example = create_ticket_lem config plain clock "t" request 101 nothing ledger new

reconcile-seeded_example :
    reconcile_orphaned_runs 101 (seeded config plain clock (new_ticket "t" request) nothing)
    ≡ (ok 1, after)
unfolding list_orphaned_checkpoint_threads delete_where
reconcile-seeded_example = reconcile-seeded config plain clock "t" request 101 nothing new refl

abbrev result : TicketResult
result = record {
  ticket_id = "t";
  status = resolved;
  reply_text = "Here it is.";
  refund_executed = false;
  model_path = "primary/primary";
}

abbrev pub finished : System
finished = record nothing {
  store = record no_runs { runs = fresh_run "t" resolved none 10 ∷ [] };
  checkpoints =
      record {
        thread_id = "t";
        materialized = true;
        values = initial (new_ticket "t" request);
        suspended = none;
      }
      ∷ [];
}

abbrev retained : RetentionResult
retained = record { runs = 1; checkpoint_threads = 1; signals = 0; tasks = 0 }

get_ticket-run_retention_example :
    get_ticket plain "t" (run_retention 50 100 finished).1 (save_result plain result ledger)
    ≡ body (info_of_result "t" result)
unfolding run_retention archive_terminal_runs prune_consumed_signals prune_settled exists_where
    select_where delete_where
get_ticket-run_retention_example =
    get_ticket-run_retention plain 50 100 finished (run_retention 50 100 finished).1 retained ledger
      result refl refl

-- three runs, of which two wait for an approval and are of one age
abbrev busy : RunStore
busy = record no_runs {
  runs =
      fresh_run "b" awaiting_approval none 10
      ∷ fresh_run "c" resolved none 5
      ∷ fresh_run "a" awaiting_approval none 10
      ∷ [];
}

load_result-save_result_example :
    load_result plain "u" (save_result plain result ledger)
    ≡ (if result.ticket_id == "u" then ok (some result) else load_result plain "u" ledger)
load_result-save_result_example = load_result-save_result plain result ledger "u"
