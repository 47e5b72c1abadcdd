-- ===== src/Telemetry/Laws.antt =====
-- What `init` of orchestrator/src/telemetry/mod.rs leaves installed.
use ai_assistant.Prelude.{
  String, ◌≡◌, ◌⊎◌, Bool, true, false, List, [], ◌∷◌, Option, none, some, Result, ok, err,
}
use ai_assistant.Config.{TelemetrySettings}
use ai_assistant.Telemetry.{
  FmtLayer, json, pretty, Sampler, TracerProvider, MeterProvider, Otel, resource, always_on,
  always_off, trace_id_ratio_based,
}

-- What is global in the program, each set once or more.
pub record Globals (F S M : Type 0) : Type 0 where
  pub tracing : List (TracerProvider S)
  pub metering : List (MeterProvider M)
  pub logging : List (FmtLayer F × Option (TracerProvider S))

abbrev pub nothing : {F S M : Type 0} → Globals F S M
nothing = record { tracing = []; metering = []; logging = [] }

-- The crates with the results that the environment and the exporters give, over what is global.
abbrev pub recording :
    {F S M : Type 0}
    → (String → String → Bool)
    → (String → String → Bool)
    → (String → F)
    → Result String F
    → (String → Result String S)
    → (String → Result String M)
    → Otel (Globals F S M) F S M
recording ge le new env spans metrics = record {
  ge = ge;
  le = le;
  try_from_default_env = λ w. (env, w);
  new = new;
  span_exporter = λ endpoint w. (spans endpoint, w);
  metric_exporter = λ endpoint w. (metrics endpoint, w);
  set_tracer_provider = λ p w. (tt, record w { tracing = p ∷ w.tracing });
  set_meter_provider = λ p w. (tt, record w { metering = p ∷ w.metering });
  install = λ layer provider w. (tt, record w { logging = (layer, provider) ∷ w.logging });
}

module _ {F S M : Type 0} (ge le : String → String → Bool) (new : String → F)
    (env : Result String F) (spans : String → Result String S) (metrics : String → Result String M)
    (t : TelemetrySettings) where
  abbrev otel : Otel (Globals F S M) F S M
  otel = recording ge le new env spans metrics

  -- The log's filter is the one of the settings, or with the JSON format that of the environment.
  abbrev pub Filtered : FmtLayer F → Type 0
  Filtered (json timer filter) =
      (t.log_format ≡ "json")
      × ((env ≡ ok filter) ⊎ ((e : String) × (env ≡ err e) × (filter ≡ new t.log_level)))
  Filtered (pretty timer filter) = filter ≡ new t.log_level

  -- The sampler that the rate stands for.
  abbrev pub Sampled : Sampler → Type 0
  Sampled always_on = ge t.sampling_rate "1.0" ≡ true
  Sampled always_off = (ge t.sampling_rate "1.0" ≡ false) × (le t.sampling_rate "0.0" ≡ true)
  Sampled (trace_id_ratio_based rate) =
      (rate ≡ t.sampling_rate)
      × (ge t.sampling_rate "1.0" ≡ false)
      × (le t.sampling_rate "0.0" ≡ false)

  -- How `init` ends, and what it has set: everything; or nothing, with an error of the exporter of
  -- spans; or with an error of the exporter of metrics the tracer provider alone.
  pub data Initialised : Result String Unit × Globals F S M → Type 0 where
    logs :
        (layer : FmtLayer F)
        → Filtered layer
        → t.otlp_endpoint ≡ none
        → Initialised (ok tt, record { tracing = []; metering = []; logging = (layer, none) ∷ [] })
    exports :
        (layer : FmtLayer F) (endpoint : String) (p : TracerProvider S) (m : MeterProvider M)
        → Filtered layer
        → t.otlp_endpoint ≡ some endpoint
        → spans endpoint ≡ ok p.exporter
        → metrics endpoint ≡ ok m.exporter
        → Sampled p.sampler
        → p.resource ≡ m.resource
        → Initialised
            (ok tt, record { tracing = p ∷ []; metering = m ∷ []; logging = (layer, some p) ∷ [] })
    no_spans :
        (endpoint e : String)
        → t.otlp_endpoint ≡ some endpoint
        → spans endpoint ≡ err e
        → Initialised (err e, nothing)
    no_metrics :
        (endpoint e : String) (p : TracerProvider S)
        → t.otlp_endpoint ≡ some endpoint
        → spans endpoint ≡ ok p.exporter
        → metrics endpoint ≡ err e
        → Initialised (err e, record { tracing = p ∷ []; metering = []; logging = [] })
