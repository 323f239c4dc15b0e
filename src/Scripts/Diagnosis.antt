-- ===== src/Scripts/Diagnosis.antt =====
-- What the doctor says of the API's own answers.
use Prim.Native.String.{◌++◌ as ◌<>◌}
use ticket_graph.Prelude.{
  ℕ, String, ◌≡◌, refl, Bool, true, false, ◌&&◌, some, [], ◌∷◌, if◌then◌else◌, nat_eq, string_eq,
}
use ticket_graph.Json.{Json, str, lookup}
use ticket_graph.Result.{ok}
use ticket_graph.Workflows.{Config}
use ticket_graph.Api.{ready, ready_body, health}
use ticket_graph.Scripts.{response}
use ticket_graph.Scripts.Doctor.{check_stack, diagnose, CheckResult}

-- what the doctor prints of a stack whose API answers
abbrev pub report : String → Bool → Bool → CheckResult
report database_url connected compiled = record {
  exit_code = if connected && compiled then 0 else 1;
  lines =
      "api: healthy"
      ∷ ("database: "
          <> (if connected then "connected" else "unavailable")
          <> " ("
          <> database_url
          <> ")")
      ∷ ("orchestration: " <> (if compiled then "ready" else "not_ready"))
      ∷ [];
}

-- On the answers of the API's handlers the doctor succeeds exactly if the database answers and the
-- graph is compiled, and it names the state of both and the database. `str` of a text is the text.
pub check_stack-ready :
    (str_of : ℕ → String) (text_of : Json → String) (cfg : Config) (database_url : String)
    (connected compiled : Bool)
    → ((s : String) → text_of (str s) ≡ s)
    → check_stack str_of text_of
        (response 200 (some health))
        (response 200 (some (ready_body cfg database_url (ready connected compiled))))
      ≡ ok (report database_url connected compiled)
unfolding check_stack diagnose ready lookup
check_stack-ready str_of text_of cfg database_url true true same =
    rw (same database_url, same "connected", same "ready") refl
check_stack-ready str_of text_of cfg database_url true false same =
    rw (same database_url, same "connected", same "not_ready") refl
check_stack-ready str_of text_of cfg database_url false true same =
    rw (same database_url, same "unavailable", same "ready") refl
check_stack-ready str_of text_of cfg database_url false false same =
    rw (same database_url, same "unavailable", same "not_ready") refl
