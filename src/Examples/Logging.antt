-- ===== src/Examples/Logging.antt =====
-- A JSON logger of three fields.
use ticket_graph.Prelude.{String, refl, none, some, [], ◌∷◌, if◌then◌else◌, ◌==◌, nat_eq, string_eq}
use ticket_graph.Json.{Json, str}
use ticket_graph.Result.{ok, err, value_error}
use ticket_graph.Logging.{
  Library, Defaults, LogRecord, Root, setup_logging, text_or, list_or, to_format,
}
use ticket_graph.Logging.Accepts.{SetUp, setup_logging-SetUp}

abbrev text_of : Json → String
text_of (str s) = s
text_of _ = "json"

abbrev library : Library
library = record {
  format_time = λ n. "2026-01-01T00:00:00+0000";
  dumps = λ d. "{}";
  str_of = text_of;
  lower = λ s. if s == "JSON" then "json" else s;
  check_level = λ s. if s == "INFO" then ok 20 else err (value_error "Unknown level");
}

abbrev defaults : Defaults
defaults = record {
  log_format = "text";
  log_level = "INFO";
  log_fields = "time" ∷ "level" ∷ "message" ∷ [];
}

abbrev log_record : LogRecord
log_record = record {
  created = 0;
  level_name = "INFO";
  name = "ticketflow.runner";
  message = ok "runner starting";
  module_name = "runner";
  function_name = "main";
  line_number = 440;
  ticket_id = none;
  task_queue = some "ticketflow";
}

abbrev root : Root
root = record { handlers = []; level = 30 }

setup_logging-SetUp_example :
    SetUp library "t" log_record
      (to_format (library.lower (text_or (some "JSON") defaults.log_format)))
      (list_or none defaults.log_fields)
      (library.check_level (text_or none defaults.log_level))
      root
      (setup_logging library defaults (some "JSON") none none root)
setup_logging-SetUp_example =
    setup_logging-SetUp library "t" log_record defaults (some "JSON") none none root refl
