-- ===== src/Api/Create.antt =====
-- What `create_ticket` leaves, and that a crash between its two transactions is repaired.
use ticket_graph.Prelude.{
  ℕ, ◌+◌, String, ◌≡◌, refl, inl, inr, true, false, none, some, List, [], ◌∷◌, ◌++◌, Bool-cases,
  nat_eq, string_eq, ==_refl,
}
use ticket_graph.Result.{ok}
use ticket_graph.Models.{Ticket, TicketStatusInfo, classifying}
use ticket_graph.Models.Codec.{Pydantic}
use ticket_graph.Workflows.{Config}
use ticket_graph.Ledger.{Ledger}
use ticket_graph.Sql.{select_where, exists_where, delete_where, fetchone}
use ticket_graph.Sql.Laws.{select-insert, exists-select}
use ticket_graph.TaskQueue.{TaskTable, NewTask, enqueue, new_row, has_key}
use ticket_graph.Graph.Dispatch.{
  primary_task, primary_envelope, agent_key, await_agent_task, enqueue_agent_task,
}
use ticket_graph.Graph.Payloads.{classify_payload}
use ticket_graph.Graph.Nodes
use ticket_graph.Graph.Drive.{
  Node, Thread, parked, start, initial, drive, run_node, edge, dispatch_classify, await_classify,
}
use ticket_graph.Runs.{is_run, fresh_run, create_run, acreate_run, list_orphaned_checkpoint_threads}
use ticket_graph.Runner.{Checkpoint, System}
use ticket_graph.Runner.Step.{
  get_state, is_thread, thread_ids, reconcile_orphaned_runs, reconcile_threads,
}
use ticket_graph.Runner.Reconcile.{reconcile-next}
use ticket_graph.Api.{body, CreateTicketRequest, new_ticket, seed, create_ticket, get_ticket}

module _ (cfg : Config) (m : Pydantic) (at : Node → ℕ) (ticket : Ticket) where
  -- when the agent's task is to have been started
  abbrev pub armed_at : ℕ
  armed_at = at dispatch_classify + cfg.agent_schedule_to_start

  abbrev pub classify_task : NewTask
  classify_task = primary_task cfg "classify" ticket.id (classify_payload m ticket)

  -- where a new thread waits
  abbrev pub first_thread : Thread
  first_thread = record {
    state = record (initial ticket) { status = some classifying; wakeup_at = some armed_at };
    node = await_classify;
    resumes = [];
    envelope =
        primary_envelope cfg (agent_key ticket.id "classify") "classify" ticket.id (some armed_at);
  }

  start_lem :
      (tasks : TaskTable)
      → start cfg m at ticket tasks
        ≡ some (parked first_thread, (enqueue (at dispatch_classify) classify_task tasks).1)
  unfolding start drive run_node Nodes.dispatch_classify Nodes.await_classify await_agent_task
      enqueue_agent_task edge
  start_lem tasks = refl

  abbrev pub first_checkpoint : Checkpoint
  first_checkpoint = record {
    thread_id = ticket.id;
    materialized = true;
    values = first_thread.state;
    suspended = some first_thread;
  }

  -- the system after the first transaction of `create_ticket`
  abbrev pub seeded : System → System
  seeded sys = record sys {
    tasks = (enqueue (at dispatch_classify) classify_task sys.tasks).1;
    checkpoints = sys.checkpoints ++ first_checkpoint ∷ [];
  }

  pub seed_lem : (sys : System) → seed cfg m at ticket sys ≡ some (parked first_thread, seeded sys)
  unfolding seed
  seed_lem sys = rw (start_lem sys.tasks, seed)

  -- No thread, run or task of the ticket is there yet.
  pub record IsNew (sys : System) : Type 0 where
    pub thread : exists_where (is_thread ticket.id) sys.checkpoints ≡ false
    pub run : exists_where (is_run ticket.id) sys.store.runs ≡ false
    pub task : exists_where (has_key (agent_key ticket.id "classify")) sys.tasks.rows ≡ false

  read-first :
      (cs : List Checkpoint)
      → exists_where (is_thread ticket.id) cs ≡ false
      → fetchone (select_where (is_thread ticket.id) (cs ++ first_checkpoint ∷ []))
        ≡ some first_checkpoint
  read-first cs new = rw (
    select-insert (is_thread ticket.id) cs first_checkpoint,
    exists-select (is_thread ticket.id) cs new,
    ==_refl ticket.id,
  )

-- what the ticket's creator reads
abbrev pub first_info : String → TicketStatusInfo
first_info id = record {
  ticket_id = id;
  status = classifying;
  classification = none;
  draft = none;
  decision = none;
  result = none;
}

module _ (cfg : Config) (m : Pydantic) (at : Node → ℕ) (id : String) (request : CreateTicketRequest)
    (now : ℕ) (sys : System) where
  abbrev pub created : System
  created =
      let sys' = seeded cfg m at (new_ticket id request) sys in
      record sys' {
        store =
            acreate_run id classifying (some (armed_at cfg m at (new_ticket id request))) now
              sys.store;
      }

  create_ticket-eq : create_ticket cfg m at id request now sys ≡ some (body id, created)
  unfolding create_ticket
  create_ticket-eq = rw (seed_lem cfg m at (new_ticket id request) sys, create_ticket)

  -- Creating a ticket under a new id answers with the id, and leaves the ticket readable as one that
  -- is being classified, one run of it that waits for the agent until its timer, and one pending task
  -- that classifies it.
  pub create_ticket_lem :
      (l : Ledger)
      → IsNew cfg m at (new_ticket id request) sys
      → (create_ticket cfg m at id request now sys ≡ some (body id, created))
        × (get_ticket m id created l ≡ body (first_info id))
        × (select_where (is_run id) created.store.runs
            ≡ fresh_run id classifying (some (armed_at cfg m at (new_ticket id request))) now ∷ [])
        × (select_where (has_key (agent_key id "classify")) created.tasks.rows
            ≡ new_row
                (at dispatch_classify)
                sys.tasks.next_id
                (classify_task cfg m at (new_ticket id request))
              ∷ [])
  create_ticket_lem l new = (
    create_ticket-eq,
    unfold get_ticket get_state in
        rw (read-first cfg m at (new_ticket id request) sys.checkpoints new.thread, get_ticket),
    unfold acreate_run create_run in
        rw (new.run) (
          rw (
            select-insert (is_run id) sys.store.runs
                (fresh_run id classifying (some (armed_at cfg m at (new_ticket id request))) now),
            exists-select (is_run id) sys.store.runs new.run,
            ==_refl id,
          )),
    unfold enqueue in
        rw (new.task) (
          rw
            (
              select-insert (has_key (agent_key id "classify")) sys.tasks.rows (
                  new_row (at dispatch_classify) sys.tasks.next_id
                    (classify_task cfg m at (new_ticket id request))),
              exists-select (has_key (agent_key id "classify")) sys.tasks.rows new.task,
            )
            (unfold new_row in rw (==_refl (agent_key id "classify")))),
  )

  orphan-appended :
      (cs : List Checkpoint) (c : Checkpoint)
      → list_orphaned_checkpoint_threads (thread_ids cs) sys.store ≡ []
      → exists_where (is_run c.thread_id) sys.store.runs ≡ false
      → list_orphaned_checkpoint_threads (thread_ids (cs ++ c ∷ [])) sys.store ≡ c.thread_id ∷ []
  unfolding list_orphaned_checkpoint_threads delete_where
  orphan-appended [] c whole free = rw free
  orphan-appended (d ∷ cs) c whole free =
      elim (Bool-cases (exists_where (is_run d.thread_id) sys.store.runs)) [
        | inl known ↦ rw known (orphan-appended cs c (rw known at whole) free)
        | inr orphan ↦ absurd (cc (rw orphan at whole))
      ]

  -- If `create_ticket` dies after it has seeded the thread of a new ticket, and no other thread had
  -- lost its run, then the reconciler of the runner, at the time at which the handler would have
  -- written the run, leaves exactly what the handler would have left.
  pub reconcile-seeded :
      IsNew cfg m at (new_ticket id request) sys
      → list_orphaned_checkpoint_threads (thread_ids sys.checkpoints) sys.store ≡ []
      → reconcile_orphaned_runs now (seeded cfg m at (new_ticket id request) sys) ≡ (ok 1, created)
  unfolding reconcile_orphaned_runs acreate_run
  reconcile-seeded new whole =
      let ticket = new_ticket id request in
      rw (orphan-appended sys.checkpoints (first_checkpoint cfg m at ticket) whole new.run) (
        rw
          (reconcile-next (seeded cfg m at ticket sys) now id [] sys.store
            (first_checkpoint cfg m at ticket) classifying
            (unfold get_state in read-first cfg m at ticket sys.checkpoints new.thread) refl refl)
          (unfold reconcile_threads in refl))
