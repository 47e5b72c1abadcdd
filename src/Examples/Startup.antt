-- ===== src/Examples/Startup.antt =====
-- The theorems of `Telemetry`, `Main` and `Api.Router`.
use ai_assistant.Prelude.{
  ℕ, suc, String, ◌≡◌, refl, Bool, true, false, [], none, some, Result, ok, err, ◌==◌,
}
use ai_assistant.Config.{Builder, Settings, TelemetrySettings, load, set_defaults}
use ai_assistant.Cognition.Connect.{connect}
use ai_assistant.Telemetry.{Otel, build, init, with_endpoint}
use ai_assistant.Main.{
  Program, Hosting, Crates, main, start, with_logging, with_client, wire, launch, init_memory,
}
use ai_assistant.Main.Laws.{Ends, main-Ends}
use ai_assistant.Tools.Registry.Load.{load as load_tools, load_dir, load_entries}
use ai_assistant.Api.Router.{webhook, Parts, build_router, enter}
use ai_assistant.Api.Router.Access.{Access, enter-Access}
use ai_assistant.Examples.Load.{paths, from_toml, files, dirs}
use ai_assistant.Samples.{tokens, deps, settings, auth, new_v4}

-- Pretty, with an endpoint.
abbrev telemetry : TelemetrySettings
telemetry = record {
  log_level = "info";
  log_format = "pretty";
  otlp_endpoint = some "http://collector";
  service_name = "orchestrator";
  sampling_rate = "1.0";
}

abbrev same : String → String → Bool
same a b = a == b

abbrev spans : String → Result String ℕ
spans endpoint = ok 1

-- The exporter of metrics fails after the one of spans.
abbrev metrics : String → Result String ℕ
metrics endpoint = err "no collector"

abbrev loaded : Settings
loaded = record {
  cognition_engine = (deps (ok (tokens 10))).cognition.settings;
  qdrant = record { url = "http://qdrant"; api_key = none; collection_prefix = "agent" };
  http = record { host = "0.0.0.0"; port = 8080; grpc_health_port = 8081 };
  tools = record {
    tools_dir = "tools";
    default_timeout_secs = 10;
    max_memory_pages = 16;
    sandbox_root = ".";
    allowed_binaries = [];
    max_output_bytes = 100;
  };
  agent = settings;
  telemetry = record telemetry { otlp_endpoint = none };
  auth = auth none;
}

abbrev config : Builder ℕ ℕ ℕ
config = record {
  dotenv = λ w. (tt, suc w);
  builder = 0;
  set_default = λ key value b. ok (suc b);
  environment = λ prefix prefix_separator separator b. b;
  build = λ b w. (ok b, suc w);
  try_deserialize = λ c. ok loaded;
}

abbrev otel : Otel ℕ String ℕ ℕ
otel = record {
  ge = same;
  le = same;
  try_from_default_env = λ w. (err "unset", suc w);
  new = λ level. level;
  span_exporter = λ endpoint w. (ok 1, suc w);
  metric_exporter = λ endpoint w. (ok 1, suc w);
  set_tracer_provider = λ p w. (tt, suc w);
  set_meter_provider = λ p w. (tt, suc w);
  install = λ layer provider w. (tt, suc w);
}

-- Without an embedding model, so that there is no memory store.
abbrev crates : Crates ℕ ℕ ℕ String ℕ ℕ String ℕ ℕ ℕ
crates = record {
  config = config;
  otel = otel;
  transport = record {
    from_shared = λ address. ok address;
    connect_channel =
        λ e connecting requesting w. (ok (deps (ok (tokens 10))).cognition.inner, suc w);
  };
  paths = paths;
  from_toml = from_toml;
  files = files;
  dirs = dirs;
  wasmtime = ok tt;
  try_new = λ w. (err "no model", suc w);
  build = λ url api_key. err "no client";
}

abbrev hosting : Hosting ℕ (Program ℕ ℕ ℕ ℕ ℕ) String String
hosting = record {
  parse_addr = λ address. ok address;
  start_grpc_health_server = λ addr w. (tt, suc w);
  spawn_heartbeat = λ program w. (tt, suc w);
  bind = λ address w. (ok address, suc w);
  serve = λ listener program w. (ok tt, suc w);
}

main-Ends_example : Ends crates hosting 0 (main crates hosting 0)
main-Ends_example = main-Ends crates hosting 0

-- The four instruments have different names.
names : (build.requests_total.name == build.tool_calls_total.name) ≡ false
unfolding build
names = refl

-- Without a memory store the program serves.
serves : (main crates hosting 0).0 ≡ ok tt
unfolding main start with_logging with_client wire launch init_memory init with_endpoint connect
    load set_defaults load_tools load_dir load_entries
serves = refl

-- Each key has its own limiter, which lets everything through.
abbrev parts : Parts ℕ ℕ
parts = record {
  deps = deps (ok (tokens 10));
  memory = none;
  keyed = λ rpm. λ key w. (true, suc w);
  new_v4 = new_v4;
  requests_total = λ endpoint w. (tt, suc w);
  request_duration_ms = λ endpoint ms w. (tt, suc w);
}

enter-Access_example : Access (auth (some "key")) (some "Bearer key") webhook (
    enter
      (build_router parts (record loaded { auth = auth (some "key") }))
      webhook
      (some "Bearer key"))
enter-Access_example =
    enter-Access parts (record loaded { auth = auth (some "key") }) webhook (some "Bearer key")
