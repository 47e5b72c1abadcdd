-- ===== src/Main/Laws.antt =====
-- How a run of orchestrator/src/main.rs ends.
use ai_assistant.Prelude.{String, ◌<>◌, ◌≡◌, refl, none, Result, ok, err, map_err, show_ℕ}
use ai_assistant.Errors.{CognitionError, ToolError}
use ai_assistant.Config.{Settings, listen_address, load as load_settings}
use ai_assistant.Session.{empty}
use ai_assistant.Cognition.{CognitionClient}
use ai_assistant.Cognition.Connect.{connect}
use ai_assistant.Tools.Registry.{ToolRegistry}
use ai_assistant.Telemetry.{init}
use ai_assistant.Health.Status.{initial}
use ai_assistant.Main.{
  Program, Failure, config_failed, telemetry_failed, cognition_failed, tools_failed, address_failed,
  bind_failed, serve_failed, Hosting, Crates, or_return, init_memory, served, launch, wire,
  load_registry, with_client, with_logging, start, main,
}

module _ {W B C F S T E N M V Q A L : Type 0} (crates : Crates W B C F S T E N V Q)
    (hosting : Hosting W (Program W N M V Q) A L) where
  open hosting use {parse_addr, start_grpc_health_server, spawn_heartbeat, bind, serve}

  -- The settings are loaded and the telemetry is set up.
  pub record Logging (w w' : W) (settings : Settings) : Type 0 where
    pub between : W
    pub loaded : load_settings crates.config w ≡ (ok settings, between)
    pub logged : init crates.otel settings.telemetry between ≡ (ok tt, w')

  -- And all parts of the program are made from the settings, those with a state in their first one.
  pub record Wired (w w' : W) (program : Program W N M V Q) : Type 0 where
    pub logging_at : W
    pub client_at : W
    pub tools_at : W
    pub logging : Logging w logging_at program.settings
    pub client :
        connect crates.transport program.settings.cognition_engine logging_at
        ≡ (ok program.cognition, client_at)
    pub tools :
        load_registry crates hosting program.settings client_at ≡ (ok program.registry, tools_at)
    pub store :
        init_memory crates.try_new crates.build program.settings.qdrant none tools_at
        ≡ ((program.memory, program.engine), w')
    pub no_sessions : program.sessions ≡ empty
    pub healthy : program.health ≡ initial

  abbrev grpc_address : Settings → String
  grpc_address settings = "0.0.0.0:" <> show_ℕ settings.http.grpc_health_port

  -- The world after the health server and the heartbeat were started.
  abbrev spawned : Program W N M V Q → A → W → W
  spawned program addr w = (spawn_heartbeat program (start_grpc_health_server addr w).1).1

  -- The result of `main` and the world that it leaves: the last one is of the step that failed.
  pub data Ends (w : W) : Result Failure Unit × W → Type 0 where
    no_config :
        (e : String) (w' : W)
        → load_settings crates.config w ≡ (err e, w')
        → Ends w (err (config_failed e), w')
    no_telemetry :
        (settings : Settings) (e : String) (w1 w' : W)
        → load_settings crates.config w ≡ (ok settings, w1)
        → init crates.otel settings.telemetry w1 ≡ (err e, w')
        → Ends w (err (telemetry_failed e), w')
    no_client :
        (settings : Settings) (e : CognitionError) (w1 w' : W)
        → Logging w w1 settings
        → connect crates.transport settings.cognition_engine w1 ≡ (err e, w')
        → Ends w (err (cognition_failed e), w')
    no_tools :
        (settings : Settings) (cognition : CognitionClient W) (e : ToolError) (w1 w2 w' : W)
        → Logging w w1 settings
        → connect crates.transport settings.cognition_engine w1 ≡ (ok cognition, w2)
        → load_registry crates hosting settings w2 ≡ (err e, w')
        → Ends w (err (tools_failed e), w')
    no_address :
        (program : Program W N M V Q) (e : String) (w' : W)
        → Wired w w' program
        → parse_addr (grpc_address program.settings) ≡ err e
        → Ends w (err (address_failed e), w')
    no_listener :
        (program : Program W N M V Q) (addr : A) (e : String) (w1 w' : W)
        → Wired w w1 program
        → parse_addr (grpc_address program.settings) ≡ ok addr
        → bind (listen_address program.settings.http) (spawned program addr w1) ≡ (err e, w')
        → Ends w (err (bind_failed e), w')
    ended :
        (program : Program W N M V Q) (addr : A) (listener : L) (r : Result String Unit)
        (w1 w2 w' : W)
        → Wired w w1 program
        → parse_addr (grpc_address program.settings) ≡ ok addr
        → bind (listen_address program.settings.http) (spawned program addr w1) ≡ (ok listener, w2)
        → serve listener program w2 ≡ (r, w')
        → Ends w (map_err serve_failed r, w')

  serve-Ends :
      {w w1 w2 : W} (program : Program W N M V Q) (addr : A) (listener : L)
      (out : Result String Unit × W)
      → Wired w w1 program
      → parse_addr (grpc_address program.settings) ≡ ok addr
      → bind (listen_address program.settings.http) (spawned program addr w1) ≡ (ok listener, w2)
      → serve listener program w2 ≡ out
      → Ends w (or_return serve_failed (λ u v. (ok u, v)) out.0 out.1)
  serve-Ends program addr listener (err e, w') p a b s =
      ended program addr listener (err e) _ _ w' p a b s
  serve-Ends program addr listener (ok u, w') p a b s =
      ended program addr listener (ok u) _ _ w' p a b s

  bind-Ends :
      {w w1 : W} (program : Program W N M V Q) (addr : A) (out : Result String L × W)
      → Wired w w1 program
      → parse_addr (grpc_address program.settings) ≡ ok addr
      → bind (listen_address program.settings.http) (spawned program addr w1) ≡ out
      → Ends w (or_return bind_failed (served hosting program) out.0 out.1)
  bind-Ends program addr (err e, w') p a b = no_listener program addr e _ w' p a b
  bind-Ends program addr (ok listener, w2) p a b =
      serve-Ends program addr listener (serve listener program w2) p a b refl

  launch-Ends :
      {w w1 : W} (program : Program W N M V Q) (r : Result String A)
      → Wired w w1 program
      → parse_addr (grpc_address program.settings) ≡ r
      → Ends w (
          or_return address_failed
            (launch hosting (listen_address program.settings.http) program)
            r
            w1)
  unfolding launch
  launch-Ends program (err e) p a = no_address program e _ p a
  launch-Ends {w} {w1} program (ok addr) p a =
      bind-Ends program addr (bind (listen_address program.settings.http) (spawned program addr w1))
        p a refl

  tools-Ends :
      {w w1 w2 : W} (settings : Settings) (cognition : CognitionClient W)
      (out : Result ToolError (ToolRegistry N M) × W)
      → Logging w w1 settings
      → connect crates.transport settings.cognition_engine w1 ≡ (ok cognition, w2)
      → load_registry crates hosting settings w2 ≡ out
      → Ends w (or_return tools_failed (wire crates hosting settings cognition) out.0 out.1)
  unfolding wire
  tools-Ends settings cognition (err e, w') l c t = no_tools settings cognition e _ _ w' l c t
  tools-Ends settings cognition (ok registry, w3) l c t =
      launch-Ends _ _
        (record {
          logging_at = _;
          client_at = _;
          tools_at = w3;
          logging = l;
          client = c;
          tools = t;
          store = refl;
          no_sessions = refl;
          healthy = refl;
        })
        refl

  client-Ends :
      {w w1 : W} (settings : Settings) (out : Result CognitionError (CognitionClient W) × W)
      → Logging w w1 settings
      → connect crates.transport settings.cognition_engine w1 ≡ out
      → Ends w (or_return cognition_failed (with_client crates hosting settings) out.0 out.1)
  unfolding with_client
  client-Ends settings (err e, w') l c = no_client settings e _ w' l c
  client-Ends settings (ok cognition, w2) l c =
      tools-Ends settings cognition (load_registry crates hosting settings w2) l c refl

  logging-Ends :
      {w w1 : W} (settings : Settings) (out : Result String Unit × W)
      → load_settings crates.config w ≡ (ok settings, w1)
      → init crates.otel settings.telemetry w1 ≡ out
      → Ends w (or_return telemetry_failed (λ _. with_logging crates hosting settings) out.0 out.1)
  unfolding with_logging
  logging-Ends settings (err e, w') l i = no_telemetry settings e _ w' l i
  logging-Ends settings (ok u, w') l i =
      client-Ends settings (connect crates.transport settings.cognition_engine w')
        (record { between = _; loaded = l; logged = i }) refl

  start-Ends :
      (w : W) (out : Result String Settings × W)
      → load_settings crates.config w ≡ out
      → Ends w (or_return config_failed (start crates hosting) out.0 out.1)
  unfolding start
  start-Ends w (err e, w') l = no_config e w' l
  start-Ends w (ok settings, w1) l =
      logging-Ends settings (init crates.otel settings.telemetry w1) l refl

  -- The program ends at the first step that fails, with its error, and nothing is done after it: the
  -- settings, the telemetry, the engine's client, the tools, the address of the health server, the
  -- listener. A memory store that cannot be made is no failure. If none of them fails, the health
  -- server and the heartbeat are started before the listener, all parts are those that the settings
  -- make, with no session and a good report, and the program ends as the server does.
  pub main-Ends : (w : W) → Ends w (main crates hosting w)
  unfolding main
  main-Ends w = start-Ends w (load_settings crates.config w) refl
