-- ===== src/Scripts/Doctor.antt =====
-- scripts/doctor.py. `str_of` is `str` of a number and `text_of` of a JSON value.
use Prim.Native.String.{◌++◌ as ◌<>◌}
use ticket_graph.Prelude.{
  ℕ, String, Bool, false, not, ◌&&◌, Option, none, some, List, [], ◌∷◌, ltb, if◌then◌else◌, ◌==◌,
  nat_eq, string_eq,
}
use ticket_graph.Json.{Json, Fields, lookup, str, obj, end}
use ticket_graph.Result.{Result, ok, err, ◌>>=◌, type_error}
use ticket_graph.Scripts.{Answer, response}

pub record CheckResult : Type 0 where
  pub exit_code : ℕ
  pub lines : List String

-- `d.get(key)` of a dict; an AttributeError of what is none
abbrev as_dict : Json → Result Fields
as_dict (obj fields) = ok fields
as_dict _ = err type_error

-- `body.get(key, {})`
abbrev section : String → Fields → Result Fields
section key fields = elim (lookup key fields) [ none ↦ ok end | some j ↦ as_dict j ]

module _ (str_of : ℕ → String) (text_of : Json → String) where
  -- `str(d.get(key, "unknown"))`, which is `_config_value`
  abbrev config_value : Fields → String → String
  config_value fields key = elim (lookup key fields) [ none ↦ "unknown" | some j ↦ text_of j ]

  abbrev message_lines : Option Json → List String
  message_lines (some (str message)) =
      if message == "" then [] else ("orchestration: " <> message) ∷ []
  message_lines _ = []

  abbrev is_healthy : Option Json → Bool
  is_healthy (some (str status)) = status == "healthy"
  is_healthy _ = false

  -- what is made of the body of `/ready`
  unfoldable pub diagnose : ℕ → Json → Result CheckResult
  diagnose code body = do
    fields ← as_dict body
    config ← section "config" fields
    database ← section "database" fields
    orchestration ← section "orchestration" fields
    ok (record {
      exit_code = if ltb code 500 && is_healthy (lookup "status" fields) then 0 else 1;
      lines =
          "api: healthy"
          ∷ ("database: "
              <> config_value database "status"
              <> " ("
              <> config_value config "database_url"
              <> ")")
          ∷ ("orchestration: " <> config_value orchestration "status")
          ∷ message_lines (lookup "message" orchestration);
    })

  abbrev unknown_lines : String → List String
  unknown_lines first = first ∷ "database: unknown" ∷ "orchestration: unknown" ∷ []

  abbrev unhealthy : String → CheckResult
  unhealthy first = record { exit_code = 1; lines = unknown_lines first }

  abbrev read_ready : Answer → Result CheckResult
  read_ready (response code (some body)) = diagnose code body
  read_ready _ = ok (unhealthy "api: healthy")

  -- `health` and `ready` are what the two requests come to.
  unfoldable pub check_stack : Answer → Answer → Result CheckResult
  unfolding diagnose
  check_stack (response code body) ready =
      if not (code == 200)
      then ok (unhealthy ("api: unavailable (HTTP " <> str_of code <> "; run `make api`)"))
      else read_ready ready
  check_stack _ ready = ok (unhealthy "api: unavailable (run `make api`)")

unfoldable pub lines_to_print : CheckResult → Bool → List String
lines_to_print result quiet = if quiet && result.exit_code == 0 then [] else result.lines
