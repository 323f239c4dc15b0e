-- ===== src/Examples/Scripts.antt =====
-- A batch of two tickets, and the doctor on a stack whose
-- graph is not compiled.
use ticket_graph.Prelude.{
  ℕ, String, ◌≡◌, refl, inl, inr, true, false, some, List, [], ◌∷◌, arith, if◌then◌else◌, ◌==◌,
  nat_eq, string_eq,
}
use ticket_graph.Json.{Json, str, obj, field, end}
use ticket_graph.Result.{ok}
use ticket_graph.Api.{health, ready, ready_body}
use ticket_graph.Scripts.{response, timed_out, Answer}
use ticket_graph.Scripts.Batch.{make_ticket_payloads}
use ticket_graph.Scripts.Poll.{Turn}
use ticket_graph.Scripts.Run.{run_batch, create_tickets}
use ticket_graph.Scripts.Run.Reports.{Reports, run_batch-Reports}
use ticket_graph.Api.{CreateTicketRequest}
use ticket_graph.Scripts.Doctor.{check_stack}
use ticket_graph.Scripts.Diagnosis.{report, check_stack-ready}
use ticket_graph.Examples.Workflow.{config}

abbrev str_of : ℕ → String
str_of n = "n"

abbrev text_of : Json → String
text_of (str s) = s
text_of _ = "json"

abbrev first_body : String
first_body = "I need a refund because my card shows the same charge twice."

abbrev body_of : String → Json
body_of status = obj (field "status" (str status) end)

-- The first answer of `b` does not come, and its second one is settled.
abbrev first_turn : Turn
first_turn = record {
  time = 0;
  answer = λ id. if id == "a" then response 200 (some (body_of "resolved")) else timed_out;
}

abbrev second_turn : Turn
second_turn = record { time = 5; answer = λ id. response 200 (some (body_of "escalated")) }

abbrev late_turn : Turn
late_turn = record { time = 60; answer = λ id. timed_out }

abbrev turns : List Turn
turns = first_turn ∷ second_turn ∷ late_turn ∷ []

abbrev post : CreateTicketRequest → Answer
post p =
    response 200
      (some (obj (field "ticket_id" (str (if p.body == first_body then "a" else "b")) end)))

run_batch-Reports_example :
    Reports
      (create_tickets text_of post (make_ticket_payloads str_of 2))
      2
      (run_batch str_of text_of post 0 60 turns 2)
run_batch-Reports_example =
    run_batch-Reports str_of text_of post 0 60 turns 2 (inr (inr (inl (omega arith))))

check_stack-ready_example :
    check_stack str_of text_of
      (response 200 (some health))
      (response 200 (some (ready_body config "postgresql://" (ready true false))))
    ≡ ok (report "postgresql://" true false)
check_stack-ready_example =
    check_stack-ready str_of text_of config "postgresql://" true false (λ s. refl)
