-- ===== src/Runs/Signals.antt =====
-- `add_pending_signal_if_waiting` of src/ticketflow/db.py: a signal is kept only while its workflow
-- waits for it, and one unconsumed signal of a kind at a time.
use ticket_graph.Prelude.{
  ℕ, suc, String, ◌≡◌, Bool, true, false, not, ◌&&◌, Option, none, some, [], ◌∷◌, ◌++◌, arith,
  if◌then◌else◌, ◌==◌, nat_eq, string_eq, ==_refl,
}
use ticket_graph.Json.{Json}
use ticket_graph.Models.{
  TicketStatus, received, classifying, drafting, awaiting_approval, resolved, rejected, escalated,
}
use ticket_graph.Runs.{
  RunStore, WorkflowRun, PendingSignal, is_run, woken, exists_where, update_where,
}
use ticket_graph.Sql.Pick.{exists-insert}

-- `status = %s`
abbrev pub is_status : TicketStatus → TicketStatus → Bool
is_status received received = true
is_status classifying classifying = true
is_status drafting drafting = true
is_status awaiting_approval awaiting_approval = true
is_status resolved resolved = true
is_status rejected rejected = true
is_status escalated escalated = true
is_status _ _ = false

abbrev pub waiting : String → TicketStatus → WorkflowRun → Bool
waiting workflow_id status r = is_run workflow_id r && is_status status r.status

-- the rows of the partial unique index with one key
abbrev pub unconsumed : String → String → PendingSignal → Bool
unconsumed workflow_id kind g = g.workflow_id == workflow_id && g.kind == kind && not g.consumed

abbrev pub new_signal : ℕ → String → String → Json → ℕ → PendingSignal
new_signal fresh workflow_id kind payload now = record {
  id = fresh;
  workflow_id = workflow_id;
  kind = kind;
  payload = payload;
  consumed = false;
  created_at = now;
  consumed_at = none;
}

-- At most one run waits, since `ticket_id` is the primary key. ON CONFLICT DO NOTHING has drawn the
-- next id all the same.
unfoldable pub add_pending_signal_if_waiting :
    String → String → Json → TicketStatus → ℕ → RunStore → Option ℕ × RunStore
add_pending_signal_if_waiting workflow_id kind payload waiting_status now s =
    if exists_where (waiting workflow_id waiting_status) s.runs
    then (if exists_where (unconsumed workflow_id kind) s.signals
        then (none, record s { next_signal = suc s.next_signal })
        else (
          some s.next_signal,
          record s {
            runs = update_where (is_run workflow_id) (woken now) s.runs;
            signals = s.signals ++ new_signal s.next_signal workflow_id kind payload now ∷ [];
            next_signal = suc s.next_signal;
          },
        ))
    else (none, s)

-- The decision of a human is taken at most once: after a submission that was accepted, a second one
-- is refused and changes no row, whatever it says, until the first has been consumed.
pub submit-submit :
    (workflow_id kind : String) (first second : Json) (status : TicketStatus) (now later i : ℕ)
    (s : RunStore)
    → (add_pending_signal_if_waiting workflow_id kind first status now s).0 ≡ some i
    → let s' = (add_pending_signal_if_waiting workflow_id kind first status now s).1 in
      let after = add_pending_signal_if_waiting workflow_id kind second status later s' in
      (after.0 ≡ none) × (after.1.runs ≡ s'.runs) × (after.1.signals ≡ s'.signals)
unfolding add_pending_signal_if_waiting
submit-submit workflow_id kind first second status now later i s h = ground (
  arith,
  exists-insert (unconsumed workflow_id kind) (new_signal s.next_signal workflow_id kind first now)
      s.signals,
  ==_refl workflow_id,
  ==_refl kind,
)
