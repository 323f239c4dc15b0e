-- ===== src/Examples/Course.antt =====
-- A ticket whose refund is approved, from its start to its end.
use ticket_graph.Prelude.{refl, true, none, some, nat_eq, string_eq}
use ticket_graph.Models.{Classification, DraftReply, TicketResult, refund, billing, resolved}
use ticket_graph.Models.Plain.{plain}
use ticket_graph.TaskQueue.Calls.{empty}
use ticket_graph.Graph.Course.{Verdict, decides}
use ticket_graph.Graph.Course.Ends.{Stages, runs_course}
use ticket_graph.Examples.Effects.{ticket}
use ticket_graph.Examples.Workflow.{config, clock}

abbrev pub sorted : Classification
sorted = record { category = billing; confidence = 1; model = "primary" }

abbrev pub draft : DraftReply
draft = record {
  reply_text = "Here is your money.";
  action = record { type = refund; refund_amount = some 5 };
  confidence = 1;
  model = "primary";
}

abbrev verdict : Verdict
verdict = decides (record { approved = true; approver = "ann"; note = none })

abbrev result : TicketResult
result = record {
  ticket_id = "t";
  status = resolved;
  reply_text = "Here is your money.";
  refund_executed = true;
  model_path = "primary/primary";
}

runs_course_example : Stages config plain clock ticket sorted draft verdict result empty
runs_course_example =
    runs_course config plain clock ticket sorted draft verdict result empty refl refl refl
