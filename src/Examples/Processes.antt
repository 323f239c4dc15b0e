-- ===== src/Examples/Processes.antt =====
-- Short histories of the system: a ticket that is created, a retention pass, a settled task, and a
-- finalize task whose refund was approved.
use ticket_graph.Prelude.{
  ◌≡◌, refl, true, false, none, some, [], ◌∷◌, arith, length, is_some, nat_eq, string_eq,
}
use ticket_graph.Sql.{select_where, exists_where, first_by, updated, update_where}
use ticket_graph.Result.{ok}
use ticket_graph.Models.{ApprovalDecision}
use ticket_graph.Models.Plain.{plain}
use ticket_graph.TaskQueue.{QueuedTask, dequeue, next_due, lease_to, reclaim_expired, pending}
use ticket_graph.TaskQueue.Invariant.{empty-IsValid}
use ticket_graph.TaskQueue.Settled.{Holds}
use ticket_graph.Ledger.{record_refund, refund_recorded, record_sent_reply, save_result}
use ticket_graph.Ledger.Finalize.{
  run_finalize, read_job, refund_step, execute_refund, send_reply, record_result,
}
use ticket_graph.Runs.Archive.{has_run}
use ticket_graph.Runner.{System}
use ticket_graph.Runner.Loop.{Pace, Round, no_timers, round}
use ticket_graph.Processes.Rounds.{round-Leaves}
use ticket_graph.Runner.Timers.{Leaves}
use ticket_graph.Runner.Step.{run_retention, reclaim_expired_leases}
use ticket_graph.Api.{create_ticket, body}
use ticket_graph.Api.Create.{create_ticket_lem}
use ticket_graph.Processes.{Work, creates, reclaims, begins, continues, retains, idle, then_works}
use ticket_graph.Processes.Sound.{IsSound, History-IsSound, History-has_run, Working-Holds}
use ticket_graph.Processes.Proper.{Proper}
use ticket_graph.Processes.Authorised.{History-paid}
use ticket_graph.Examples.Queue.{done_row, table_of, done-IsValid, unlocked}
use ticket_graph.Examples.Effects.{ByAnn, finalize_row, no_books, authorised, job}
use ticket_graph.Examples.Workflow.{config, clock}
use ticket_graph.Examples.Api.{nothing, request, after, finished, new, ledger}

creation : create_ticket config plain clock "t" request 101 nothing ≡ some (body "t", after)
creation = (create_ticket_lem config plain clock "t" request 101 nothing ledger new).0

abbrev created_ticket : Work config plain nothing after
created_ticket = creates clock "t" request 101 creation

nothing-IsSound : IsSound nothing
unfolding select_where
nothing-IsSound = (empty-IsValid, record { runs = tt; signals = λ w k. ground arith })

History-IsSound_example : IsSound after
History-IsSound_example =
    History-IsSound config plain (continues (begins nothing) created_ticket) nothing-IsSound

History-has_run_example : has_run "t" (run_retention 50 100 finished).1.store ≡ true
unfolding exists_where
History-has_run_example = History-has_run config plain "t" (retains 50 100 (begins finished)) refl

abbrev settled_system : System
settled_system = record nothing { tasks = table_of done_row }

Working-Holds_example : Holds "a" done_row (reclaim_expired_leases 50 settled_system).1.tasks
unfolding select_where
Working-Holds_example =
    Working-Holds config plain "a" done_row refl
      (then_works (idle settled_system) (reclaims 50 settled_system)) done-IsValid refl

-- the finalize task of `Examples/Effects` before it is leased
abbrev pending_row : QueuedTask
pending_row = record finalize_row {
  status = pending;
  attempts = 0;
  lease_owner = none;
  lease_expires_at = none;
}

abbrev approved_system : System
approved_system = record nothing { tasks = record { rows = pending_row ∷ []; next_id = 8 } }

approved-Proper : Proper plain ByAnn approved_system
approved-Proper = record { tasks = (λ _. authorised, tt); threads = tt; signals = tt }

abbrev leased_row : QueuedTask
leased_row = lease_to "w" 40 pending_row

leased_next :
    (dequeue unlocked "ticketflow" "w" 40 (reclaim_expired_leases 20 approved_system).1.tasks).0
    ≡ some leased_row
unfolding reclaim_expired_leases reclaim_expired dequeue next_due first_by select_where updated
    update_where
leased_next = refl

leased_read : read_job plain leased_row ≡ ok job
unfolding read_job plain
leased_read = refl

leased_pays : length (run_finalize plain 50 leased_row no_books).1.paid ≡ 1
unfolding run_finalize read_job plain refund_step execute_refund record_refund refund_recorded
    send_reply record_sent_reply record_result save_result exists_where select_where
leased_pays = refl

History-paid_example : (d : ApprovalDecision) × ByAnn job.ticket.id d × (d.approved ≡ true)
History-paid_example =
    History-paid config plain ByAnn unlocked "ticketflow" "w" 40 50 leased_row job no_books
      (continues (begins approved_system) (reclaims 20 approved_system)) (tt, tt) approved-Proper
      leased_next refl leased_read (λ e. cc (leased_pays, e))

abbrev pace : Pace
pace = record { janitor_interval = 30; retention_interval = 3600; retention_max_age = 1000 }

abbrev tick : Round
tick = record {
  time = 500;
  reclaimed_at = 20;
  reconciled_at = 21;
  retained_at = 22;
  claimed_at = 23;
  saved_at = 24;
  at = clock;
  locked = λ i. false;
}

round-Leaves_example :
    (is_some (round config plain "w" pace tick no_timers approved_system) ≡ true)
    × Leaves pace tick no_timers (round config plain "w" pace tick no_timers approved_system)
round-Leaves_example = round-Leaves config plain "w" pace tick no_timers approved_system
