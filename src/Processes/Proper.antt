-- ===== src/Processes/Proper.antt =====
-- The threads that the checkpoints hold and the finalize tasks on the queue, and what workers and the
-- graph's outcomes keep of them.
use mathlib.Core.Path.{subst}
use ticket_graph.Prelude.{
  ℕ, String, ◌≡◌, refl, inl, inr, Bool, true, false, Option, none, some, List, [], ◌∷◌, arith, All,
  Bool-cases, Option-cases, nat_eq, string_eq,
}
use ticket_graph.Json.{Json}
use ticket_graph.Result.{Result, Error, ok, err}
use ticket_graph.Models.Codec.{Pydantic}
use ticket_graph.Sql.{select_where, update_where, fetchone}
use ticket_graph.Sql.Laws.{All-update_where}
use ticket_graph.TaskQueue.{
  QueuedTask, TaskTable, dequeue, next_due, complete, fail, has_id, lease_to, leased_id, completed,
  failed_once,
}
use ticket_graph.Graph.Authority.{RowAuthorised}
use ticket_graph.Graph.Entry.{Entry}
use ticket_graph.Graph.Drive.{Stop, Thread, parked, ended, crashed}
use ticket_graph.Graph.Threads.{StopsWell}
use ticket_graph.Graph.Resolution.{AllAuthorised}
use ticket_graph.Runner.{System, Checkpoint}
use ticket_graph.Runner.Step.{envelope_of, pending, checkpointed}
use ticket_graph.Worker.{settle, settle_leased, is_permanent, is_cancelled}
use ticket_graph.Api.{checkpoint_of, stop_values}
use ticket_graph.Models.{ApprovalDecision}
use ticket_graph.Graph.Taken.{ThreadTaken}
use ticket_graph.Runs.{PendingSignal, RunStore, wake_run}
use ticket_graph.Worker.{wake_if}
use ticket_graph.Graph.Resolution.{StopTaken}

module _ (m : Pydantic) (P : String → ApprovalDecision → Type 0) where
  -- A suspended thread stands at a node that it may have reached, and if it holds a decision that has
  -- the property.
  abbrev pub SuspendedWell : Option Thread → Type 0
  SuspendedWell none = Unit
  SuspendedWell (some th) = Entry th.node th.state × ThreadTaken m P th

  abbrev pub CheckpointWell : Checkpoint → Type 0
  CheckpointWell c = SuspendedWell c.suspended

  -- A signal is a submitted decision that has the property.
  abbrev pub SignalWell : PendingSignal → Type 0
  SignalWell g = (d : ApprovalDecision) × (g.payload ≡ m.decision.model_dump d) × P g.workflow_id d

-- All finalize tasks on the queue are authorised, all threads are ones that may be resumed, and all
-- signals are decisions with the property.
pub record Proper (m : Pydantic) (P : String → ApprovalDecision → Type 0) (sys : System)
    : Type 0 where
  pub tasks : AllAuthorised m P sys.tasks
  pub threads : All (CheckpointWell m P) sys.checkpoints
  pub signals : All (SignalWell m P) sys.store.signals

module _ (m : Pydantic) (P : String → ApprovalDecision → Type 0) where
  pub updated-Authorised :
      (p : QueuedTask → Bool) (f : QueuedTask → QueuedTask) (t : TaskTable)
      → ((r : QueuedTask) → RowAuthorised m P r → RowAuthorised m P (f r))
      → AllAuthorised m P t
      → All (RowAuthorised m P) (update_where p f t.rows)
  updated-Authorised p f t keep a =
      All-update_where (RowAuthorised m P) p f t.rows (λ r _ h. keep r h) a

  pub dequeue-Authorised :
      (locked : ℕ → Bool) (queue worker : String) (now : ℕ) (t : TaskTable)
      → AllAuthorised m P t
      → AllAuthorised m P (dequeue locked queue worker now t).1
  unfolding dequeue
  dequeue-Authorised locked queue worker now t a =
      elim (Option-cases (next_due locked queue now t)) [
        | inl e ↦ rw (e, dequeue) a
        | inr (c, e) ↦
            rw (e, dequeue) (updated-Authorised (has_id c.id) (lease_to worker now) t (λ r h. h) a)
      ]

  settle-Authorised :
      (describe : Error → String) (now woken_at : ℕ) (task : QueuedTask) (outcome : Result Json)
      (sys : System)
      → AllAuthorised m P sys.tasks
      → AllAuthorised m P (settle describe now woken_at task outcome sys).tasks
  unfolding settle complete fail
  settle-Authorised describe now woken_at task (err e) sys a = elim (Bool-cases (is_cancelled e)) [
    | inl gone ↦ rw (gone, settle) a
    | inr fails ↦
        rw (fails, settle)
          (updated-Authorised (leased_id task.id) (failed_once (describe e) (is_permanent e) now)
            sys.tasks (λ r h. h) a)
  ]
  settle-Authorised describe now woken_at task (ok result) sys a =
      updated-Authorised (leased_id task.id) (completed result) sys.tasks (λ r h. h) a

  pub settled-Proper :
      (describe : Error → String) (now woken_at : ℕ) (run_activity : QueuedTask → Result Json)
      (got : Option QueuedTask) (sys : System)
      → Proper m P sys
      → Proper m P (settle_leased describe now woken_at run_activity got sys).1
  settled-Proper describe now woken_at run_activity none sys a = a
  settled-Proper describe now woken_at run_activity (some task) sys a = record {
    tasks = settle-Authorised describe now woken_at task (run_activity task) sys a.tasks;
    threads = same (run_activity task);
    signals = same_signals (run_activity task);
  }
    where
      same :
          (outcome : Result Json)
          → All (CheckpointWell m P) (settle describe now woken_at task outcome sys).checkpoints
      same (ok result) = unfold settle in a.threads
      same (err e) =
          unfold settle in
          elim (Bool-cases (is_cancelled e)) [
            | inl gone ↦ rw (gone, settle) (a.threads)
            | inr fails ↦ rw (fails, settle) (a.threads)
          ]

      woken_signals :
          (b : Bool) (s : RunStore)
          → All (SignalWell m P) s.signals
          → All (SignalWell m P) (wake_if b task.workflow_id woken_at s).signals
      woken_signals true s h = unfold wake_run in h
      woken_signals false s h = h

      same_signals :
          (outcome : Result Json)
          → All (SignalWell m P) (settle describe now woken_at task outcome sys).store.signals
      same_signals (ok result) = unfold settle in woken_signals _ sys.store a.signals
      same_signals (err e) =
          unfold settle in
          elim (Bool-cases (is_cancelled e)) [
            | inl gone ↦ rw (gone, settle) (a.signals)
            | inr fails ↦ rw (fails, settle) (woken_signals _ sys.store a.signals)
          ]

-- what an operation that may run out of fuel leaves
abbrev pub LeavesProper :
    {X : Type 0} → Pydantic → (String → ApprovalDecision → Type 0) → Option (X × System) → Type 0
LeavesProper m P none = Unit
LeavesProper m P (some (x, sys)) = Proper m P sys

-- The checkpoint that `create_ticket` adds.
pub checkpoint_of-Well :
    (m : Pydantic) (P : String → ApprovalDecision → Type 0) (id : String) (stop : Stop)
    (tasks : TaskTable)
    → StopsWell (some (stop, tasks))
    → StopTaken m P stop
    → All (CheckpointWell m P) (checkpoint_of id stop (stop_values stop))
checkpoint_of-Well m P id (parked th) tasks h t = ((h, t), tt)
checkpoint_of-Well m P id (ended state) tasks h t = (tt, tt)
checkpoint_of-Well m P id (crashed e) tasks h t = tt

pub checkpointed-Well :
    (m : Pydantic) (P : String → ApprovalDecision → Type 0) (stop : Stop) (tasks : TaskTable)
    (c : Checkpoint)
    → StopsWell (some (stop, tasks))
    → StopTaken m P stop
    → CheckpointWell m P c
    → CheckpointWell m P (checkpointed stop c)
checkpointed-Well m P (parked th) tasks c h t w = (h, t)
checkpointed-Well m P (ended state) tasks c h t w = tt
checkpointed-Well m P (crashed e) tasks c h t w = w

-- The thread that a step resumes is a checkpoint's.
pub fetched-Well :
    (m : Pydantic) (P : String → ApprovalDecision → Type 0) (p : Checkpoint → Bool)
    (cs : List Checkpoint) (c : Checkpoint)
    → All (CheckpointWell m P) cs
    → fetchone (select_where p cs) ≡ some c
    → CheckpointWell m P c
unfolding select_where
fetched-Well m P p [] c h e = absurd cc
fetched-Well m P p (d ∷ cs) c h e = elim (Bool-cases (p d)) [
  | inl here ↦ let same : d ≡ c = cc (rw here at e) in subst (CheckpointWell m P) same h.0
  | inr there ↦ fetched-Well m P p cs c h.1 (rw there at e)
]

pub pending-Well :
    (m : Pydantic) (P : String → ApprovalDecision → Type 0) (o : Option Checkpoint)
    → ((c : Checkpoint) → o ≡ some c → CheckpointWell m P c)
    → SuspendedWell m P (pending o)
unfolding pending
pending-Well m P none h = tt
pending-Well m P (some c) h = shown c.suspended (h c refl)
  where
    shown : (o : Option Thread) → SuspendedWell m P o → SuspendedWell m P (envelope_of o)
    shown none w = tt
    shown (some th) w = ground arith
