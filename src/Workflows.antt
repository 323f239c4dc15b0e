-- ===== src/Workflows.antt =====
-- src/ticketflow/workflows.py and signals.py, and the settings of config.py that the graph reads.
use ticket_graph.Prelude.{ℕ, ◌*◌, ◌/◌, String}
use ticket_graph.Clock.{second}
use ticket_graph.Models.{one}

-- 0.75
abbrev pub confidence_threshold : ℕ
confidence_threshold = 3 * (one / 4)

-- timedelta(hours=24)
abbrev pub approval_timeout : ℕ
approval_timeout = 24 * 3600 * second

abbrev pub rejection_reply : String
rejection_reply =
    "Thanks for your patience. After review we cannot fulfil this request automatically; a human agent will follow up shortly."

abbrev pub escalation_reply : String
escalation_reply =
    "We need a bit more time with your request and have escalated your ticket to a human agent."

-- APPROVAL_DECISION_SIGNAL
abbrev pub approval_decision_signal : String
approval_decision_signal = "approval_decision"

-- what the environment sets: the names of the queues, and AGENT_SCHEDULE_TO_START_S
pub record Config : Type 0 where
  pub task_queue : String
  pub agent_task_queue : String
  pub fallback_task_queue : String
  pub agent_schedule_to_start : ℕ
