-- ===== src/Telemetry.antt =====
-- orchestrator/src/telemetry/mod.rs: the instruments, and how logging and tracing are set up. The
-- crates tracing and opentelemetry are an interface.
pub mod Laws
use ai_assistant.Prelude.{
  String, Bool, List, [], ◌∷◌, Option, none, some, Io, pure, ◌>>=◌, ◌>>◌, Result, ok, err, ◌==◌,
  if◌then◌else◌,
}
use ai_assistant.Config.{TelemetrySettings}

pub data Kind : Type 0 where
  u64_counter f64_histogram : Kind

-- An instrument of the meter "orchestrator".
pub record Instrument : Type 0 where
  pub meter : String
  pub kind : Kind
  pub name : String
  pub description : String

pub record Metrics : Type 0 where
  pub requests_total : Instrument
  pub request_duration_ms : Instrument
  pub tool_calls_total : Instrument
  pub tool_duration_ms : Instrument

abbrev instrument : Kind → String → String → Instrument
instrument kind name description = record {
  meter = "orchestrator";
  kind = kind;
  name = name;
  description = description;
}

unfoldable pub build : Metrics
build = record {
  requests_total = instrument u64_counter "agent.requests.total" "Total inbound agent requests";
  request_duration_ms =
      instrument f64_histogram "agent.request.duration_ms" "End-to-end agent loop duration in ms";
  tool_calls_total =
      instrument u64_counter "agent.tool_calls.total" "Tool invocations by name and status";
  tool_duration_ms =
      instrument f64_histogram "agent.tool.duration_ms" "Tool execution duration in ms";
}

-- The layer that writes the log, with the format of its timer and its `EnvFilter`.
pub data FmtLayer (F : Type 0) : Type 0 where
  json : String → F → FmtLayer F
  pretty : String → F → FmtLayer F

pub data Sampler : Type 0 where
  always_on always_off : Sampler
  trace_id_ratio_based : String → Sampler

-- A provider of tracers over an exporter of spans.
pub record TracerProvider (S : Type 0) : Type 0 where
  pub sampler : Sampler
  pub exporter : S
  pub resource : List (String × String)

pub record MeterProvider (M : Type 0) : Type 0 where
  pub exporter : M
  pub resource : List (String × String)

-- `ge` and `le` compare two floats by their texts. `install` is `init` of the registry with the
-- layer, and with the layer of the tracer "orchestrator" of a provider if there is one.
pub record Otel (W F S M : Type 0) : Type 0 where
  pub ge : String → String → Bool
  pub le : String → String → Bool
  pub try_from_default_env : Io W (Result String F)
  pub new : String → F
  pub span_exporter : String → Io W (Result String S)
  pub metric_exporter : String → Io W (Result String M)
  pub set_tracer_provider : TracerProvider S → Io W Unit
  pub set_meter_provider : MeterProvider M → Io W Unit
  pub install : FmtLayer F → Option (TracerProvider S) → Io W Unit

module _ {W F S M : Type 0} (otel : Otel W F S M) (t : TelemetrySettings) where
  abbrev filter_of : Result String F → F
  filter_of (ok filter) = filter
  filter_of (err _) = otel.new t.log_level

  abbrev local_time : String
  local_time = "%Y-%m-%dT%H:%M:%S%.3f%:z"

  -- The pretty layer has a filter of its own.
  unfoldable pub fmt_layer : F → FmtLayer F
  fmt_layer filter =
      if t.log_format == "json"
      then json local_time filter
      else pretty local_time (otel.new t.log_level)

  unfoldable pub sampler_of : String → Sampler
  sampler_of rate =
      if otel.ge rate "1.0"
      then always_on
      else if otel.le rate "0.0"
      then always_off
      else trace_id_ratio_based rate

  abbrev resource : List (String × String)
  resource = ("service.name", t.service_name) ∷ []

  abbrev tracer_provider : S → TracerProvider S
  tracer_provider exporter = record {
    sampler = sampler_of t.sampling_rate;
    exporter = exporter;
    resource = resource;
  }

  -- What follows the building of the exporter of metrics; `?` ends `init` at an error.
  unfoldable pub with_metrics :
      FmtLayer F → TracerProvider S → Result String M → Io W (Result String Unit)
  with_metrics layer provider (err e) = pure (err e)
  with_metrics layer provider (ok exporter) = do
    otel.set_meter_provider (record { exporter = exporter; resource = resource })
    otel.install layer (some provider)
    pure (ok tt)

  -- What follows the building of the exporter of spans.
  unfoldable pub with_traces : FmtLayer F → String → Result String S → Io W (Result String Unit)
  with_traces layer endpoint (err e) = pure (err e)
  with_traces layer endpoint (ok exporter) = do
    otel.set_tracer_provider (tracer_provider exporter)
    built ← otel.metric_exporter endpoint
    with_metrics layer (tracer_provider exporter) built

  unfoldable pub with_endpoint : FmtLayer F → Option String → Io W (Result String Unit)
  with_endpoint layer none = do otel.install layer none; pure (ok tt)
  with_endpoint layer (some endpoint) = do
    built ← otel.span_exporter endpoint
    with_traces layer endpoint built

  unfoldable pub init : Io W (Result String Unit)
  init = do
    env ← otel.try_from_default_env
    with_endpoint (fmt_layer (filter_of env)) t.otlp_endpoint
