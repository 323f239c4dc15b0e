-- ===== src/Tracing.antt =====
-- src/ticketflow/tracing.py but for instrument_fastapi_app: which provider is set up; and what
-- src/ticketflow/__init__.py does to the environment. The objects of
-- OpenTelemetry are values: a provider is its service and its processors. `lower` is `str.lower`.
use Prim.Native.String.{◌++◌ as ◌<>◌}
use ticket_graph.Prelude.{
  ℕ, String, ◌≡◌, refl, inl, inr, Bool, not, ◌&&◌, Option, none, some, List, [], ◌∷◌, if◌then◌else◌,
  Bool-cases, is_some, ◌==◌, nat_eq, string_eq,
}
use ticket_graph.Result.{Result, ok, err, value_error}
use ticket_graph.Migrations.{listed}
use ticket_graph.Logging.{text_or}
use ticket_graph.Sql.{delete_where}
use ticket_graph.Scripts.Dict.{Dict, find, put}

-- SUPPORTED_EXPORTERS
abbrev pub supported_exporters : List String
supported_exporters = "none" ∷ "console" ∷ "otlp" ∷ []

-- a SimpleSpanProcessor of the exporter that the caller gave, by its number, or a BatchSpanProcessor
-- that writes to the console or to an endpoint
pub data Processor : Type 0 where
  simple : ℕ → Processor
  batch_console : Processor
  batch_otlp : String → Processor

pub record TracerProvider : Type 0 where
  pub service_name : String
  pub processors : List Processor

-- TRACE_EXPORTER and OTLP_ENDPOINT of config.py
pub record TracingDefaults : Type 0 where
  pub trace_exporter : String
  pub otlp_endpoint : String

module _ (lower : String → String) (defaults : TracingDefaults) where
  abbrev pub processor_for : String → Option String → Option ℕ → Processor
  processor_for exporter endpoint (some span_exporter) = simple span_exporter
  processor_for exporter endpoint none =
      if exporter == "console"
      then batch_console
      else batch_otlp (text_or endpoint defaults.otlp_endpoint)

  -- `set_tracer_provider`, unless a provider of the SDK is set already
  abbrev set_provider : TracerProvider → Option TracerProvider → Option TracerProvider
  set_provider provider none = some provider
  set_provider provider (some current) = some current

  abbrev enabled :
      String
      → TracerProvider
      → Option TracerProvider
      → Result (Option TracerProvider) × Option TracerProvider
  enabled service_name provider current = (ok (some provider), set_provider provider current)

  -- `none` without an exporter of the caller's
  abbrev is_off : String → Option ℕ → Bool
  is_off resolved span_exporter = not (is_some span_exporter) && resolved == "none"

  -- The last argument is the provider of the process, which is given back with the answer.
  unfoldable pub setup_tracing_components :
      String
      → Option String
      → Option String
      → Option ℕ
      → Option TracerProvider
      → Result (Option TracerProvider) × Option TracerProvider
  setup_tracing_components service_name exporter endpoint span_exporter current =
      let resolved = lower (text_or exporter defaults.trace_exporter) in
      if not (listed resolved supported_exporters)
      then (err (value_error ("Unsupported trace exporter: " <> resolved)), current)
      else if is_off resolved span_exporter
      then (ok none, current)
      else enabled service_name
          (record {
            service_name = service_name;
            processors = processor_for resolved endpoint span_exporter ∷ [];
          })
          current

  -- A provider that is set stays in place, whatever tracing is set up later.
  setup_tracing_components_kept :
      (service_name : String) (exporter endpoint : Option String) (span_exporter : Option ℕ)
      (current : TracerProvider)
      → (setup_tracing_components service_name exporter endpoint span_exporter (some current)).1
        ≡ some current
  unfolding setup_tracing_components
  setup_tracing_components_kept service_name exporter endpoint span_exporter current =
      let resolved = lower (text_or exporter defaults.trace_exporter) in
      elim (Bool-cases (listed resolved supported_exporters)) [
        | inr e ↦ rw e refl
        | inl e ↦ elim (Bool-cases (is_off resolved span_exporter)) [
          | inl off ↦ rw (e, off) refl
          | inr on ↦ rw (e, on) refl
        ]
      ]

-- `_TRUTHY_ENV_VALUES` of src/ticketflow/__init__.py
abbrev pub truthy_env_values : List String
truthy_env_values = "1" ∷ "true" ∷ "t" ∷ "yes" ∷ "y" ∷ "on" ∷ []

-- `os.environ.pop(name, None)`
abbrev pop : String → Dict String → Dict String
pop name environ = delete_where (λ e. e.0 == name) environ

-- `cleaned` is `.strip().lower()`.
module _ (cleaned : String → String) where
  abbrev pub env_is_truthy : String → Dict String → Bool
  env_is_truthy name environ =
      listed (cleaned (elim (find name environ) [ none ↦ "" | some s ↦ s ])) truthy_env_values

  unfoldable pub disable_langsmith_tracing_by_default : Dict String → Dict String
  disable_langsmith_tracing_by_default environ =
      if env_is_truthy "TICKETFLOW_LANGSMITH_TRACING" environ
      then environ
      else pop "LANGCHAIN_HANDLER" (
          pop "LANGCHAIN_TRACING"
            (put "LANGCHAIN_TRACING_V2" "false" (put "LANGSMITH_TRACING_V2" "false" environ)))
