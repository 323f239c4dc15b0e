-- ===== src/Logging.antt =====
-- src/ticketflow/logging.py: the filter, the formatters and the root logger that setup_logging sets
-- up. A level is given by its name, and the stream of the handler is left out. `logging` is the
-- standard library's: the text of a time, the level that a name stands for and
-- the writing of JSON are parameters.
pub mod Context
pub mod Supported
pub mod Accepts
use Prim.Native.String.{◌++◌ as ◌<>◌}
use ticket_graph.Prelude.{
  ℕ, zero, suc, ◌+◌, ◌-◌, ◌*◌, ◌/◌, ◌%◌, ◌^◌, ◌≤◌, ◌<◌, String, ◌≡◌, refl, sym, ap, ◌∙◌, ◌≢◌, ◌↔◌,
  ◌⊎◌, inl, inr, Bool, true, false, not, ◌&&◌, ◌||◌, Option, none, some, List, [], ◌∷◌, ◌++◌, arith,
  All, All-append, All-impl, All-intro, All-zip, Distinct, Distinct-unique, length, ltb, leb,
  if◌then◌else◌, Bool-cases, Option-cases, is_some, some_of, Eq, ◌==◌, nat_eq, string_eq, ==_iff,
  ==_refl, ne_of_==, text_le, text_le_antisym, text_le_total, text_order, Order, sort_by, insert_by,
  IsSorted, sort_by-IsSorted, sort_by_sorted, All-sort_by, map, length-insert, Trace, Trace-trans,
  Trace-impl,
}
use ticket_graph.Json.{Json, num, str}
use ticket_graph.Result.{Error, Result, ok, err, ◌>>=◌, value_error}
use ticket_graph.Sql.{select_where}
use ticket_graph.Migrations.{to_set, listed}
use ticket_graph.Scripts.Dict.{Dict, put}

-- SUPPORTED_FIELDS
abbrev pub supported_fields : List String
supported_fields =
    "time" ∷ "level" ∷ "logger" ∷ "message" ∷ "ticket_id" ∷ "task_queue" ∷ "module" ∷ "function"
    ∷ "line" ∷ []

-- The attributes of a `logging.LogRecord` that are read here; `message` is what its
-- `getMessage()` returns, or raises if the arguments do not fit the message; and
-- `extra` may give it a ticket id and a task queue.
pub record LogRecord : Type 0 where
  pub created : ℕ
  pub level_name : String
  pub name : String
  pub message : Result String
  pub module_name : String
  pub function_name : String
  pub line_number : ℕ
  pub ticket_id : Option String
  pub task_queue : Option String

-- what a `hasattr` that fails puts there
abbrev or_text : String → Option String → Option String
or_text text none = some text
or_text text (some s) = some s

-- ContextFilter.filter; `current` is the context's ticket id
abbrev pub filter_record : String → LogRecord → LogRecord
filter_record current r = record r {
  ticket_id = or_text current r.ticket_id;
  task_queue = or_text "" r.task_queue;
}

-- `getattr(record, key, "")`
abbrev attribute : Option String → Json
attribute none = str ""
attribute (some s) = str s

-- JsonFormatter._value; `format_time` is `formatTime` with the source's format
unfoldable pub value : (ℕ → String) → LogRecord → String → Result Json
value format_time r field =
    if field == "time"
    then ok (str (format_time r.created))
    else if field == "level"
    then ok (str r.level_name)
    else if field == "logger"
    then ok (str r.name)
    else if field == "message"
    then r.message >>= (λ text. ok (str text))
    else if field == "ticket_id"
    then ok (attribute r.ticket_id)
    else if field == "task_queue"
    then ok (attribute r.task_queue)
    else if field == "module"
    then ok (str r.module_name)
    else if field == "function"
    then ok (str r.function_name)
    else if field == "line"
    then ok (num r.line_number)
    else err (value_error ("Unsupported log field: " <> field))

-- the values of the fields, in their order
unfoldable pub values_of : (ℕ → String) → LogRecord → List String → Result (List (String × Json))
unfolding value
values_of format_time r [] = ok []
values_of format_time r (f ∷ fields) =
    value format_time r f >>= λ v. values_of format_time r fields >>= λ rest. ok ((f, v) ∷ rest)

-- `{field: ... for field in ...}`
unfoldable pub to_dict : List (String × Json) → Dict Json → Dict Json
unfolding put
to_dict [] d = d
to_dict ((f, v) ∷ rest) d = to_dict rest (put f v d)

-- `" | ".join(...)`
unfoldable pub join : List String → String
join [] = ""
join (s ∷ []) = s
join (s ∷ t ∷ rest) = s <> " | " <> join (t ∷ rest)

pub data Format : Type 0 where
  json_format text_format : Format

-- a StreamHandler with the context filter and a formatter
pub record Handler : Type 0 where
  pub format : Format
  pub fields : List String

-- What the module takes from the standard library: `formatTime`, `json.dumps` with `default=str`,
-- `str`, `str.lower`, and the level that a name stands for (`logging._checkLevel`).
pub record Library : Type 0 where
  pub format_time : ℕ → String
  pub dumps : Dict Json → String
  pub str_of : Json → String
  pub lower : String → String
  pub check_level : String → Result ℕ

module _ (lib : Library) where
  -- JsonFormatter.format and TextFormatter.format
  unfoldable pub format_record : Handler → LogRecord → Result String
  unfolding values_of to_dict join
  format_record h r = values_of lib.format_time r h.fields >>= λ vs. ok (elim h.format [
    | json_format ↦ lib.dumps (to_dict vs [])
    | text_format ↦ join (map (λ e. lib.str_of e.1) vs)
  ])

  -- what the handler writes for a record: its filter, then its formatter
  unfoldable pub emit : String → Handler → LogRecord → Result String
  unfolding format_record
  emit current h r = format_record h (filter_record current r)

-- the root logger
pub record Root : Type 0 where
  pub handlers : List Handler
  pub level : ℕ

-- `a or b` for a text and for a list
abbrev pub text_or : Option String → String → String
text_or none b = b
text_or (some a) b = if a == "" then b else a

abbrev pub list_or : Option (List String) → List String → List String
list_or (some (a ∷ rest)) b = a ∷ rest
list_or _ b = b

-- LOG_FORMAT, LOG_LEVEL and LOG_FIELDS of config.py
pub record Defaults : Type 0 where
  pub log_format : String
  pub log_level : String
  pub log_fields : List String

-- `sorted(set(fields) - SUPPORTED_FIELDS)`
unfoldable pub unsupported : List String → List String
unfolding to_set select_where
unsupported fields =
    sort_by text_order (select_where (λ f. not (listed f supported_fields)) (to_set fields))

abbrev pub to_format : String → Option Format
to_format s =
    if s == "json" then some json_format else if s == "text" then some text_format else none

module _ (lib : Library) (defaults : Defaults) where
  -- What it raises, if anything, and the root logger: `root.handlers = [handler]` and then `root.setLevel(...)`, which may raise
  unfoldable pub install : Handler → String → Root → Option Error × Root
  install h level root = elim (lib.check_level level) [
    | err e ↦ (some e, record root { handlers = h ∷ [] })
    | ok n ↦ (none, record { handlers = h ∷ []; level = n })
  ]

  unfoldable pub install_fields : Format → List String → String → Root → Option Error × Root
  unfolding unsupported install
  install_fields format fields level root = elim (unsupported fields) [
    | [] ↦ install (record { format = format; fields = fields }) level root
    | f ∷ fs ↦ (some (value_error ("Unsupported log field: " <> f)), root)
  ]

  abbrev pub install_format :
      String → Option Format → List String → String → Root → Option Error × Root
  install_format name none fields level root =
      (some (value_error ("Unsupported log format: " <> name)), root)
  install_format name (some format) fields level root = install_fields format fields level root

  unfoldable pub setup_logging :
      Option String → Option String → Option (List String) → Root → Option Error × Root
  unfolding install_fields
  setup_logging log_format level fields root =
      let resolved_format = lib.lower (text_or log_format defaults.log_format) in
      install_format resolved_format (to_format resolved_format)
        (list_or fields defaults.log_fields) (text_or level defaults.log_level) root
