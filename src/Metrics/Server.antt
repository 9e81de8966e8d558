-- ===== src/Metrics/Server.antt =====
-- metrics/server.go, metrics/options.go and metrics/config.go: the server of the metrics, its options
-- and its start and stop. `R` is the registry, `H` the options of its handler and `L` the logger; a
-- port is a number and a duration an int64 of nanoseconds. Start runs ListenAndServe of net/http in a
-- goroutine that writes no state of the server.
pub mod Running
use dora_service_utils.Base.{
  ℕ, Bool, true, false, ◌&&◌, ◌||◌, not, Option, none, some, List, [], ◌∷◌, ◌++◌, if◌then◌else◌,
  nat_eq,
}
use dora_service_utils.Base.Int.{ℤ, pos}
use dora_service_utils.Base.Text.{Str, codes, str_beq}
use dora_service_utils.Base.Dict.{Dict, get, insert}
use dora_service_utils.Base.Result.{
  Result, ok, err, Error, wrapped, err_metrics_disabled, err_metrics_running,
  err_metrics_not_running,
}
use dora_service_utils.Metrics.{Instrumentation, collectors}
use dora_service_utils.Metrics.Kind

-- `&http.Server{...}` of Start: its address, the path and the handler on it, and the timeouts.
pub record HttpServer (R H : Type 0) : Type 0 where
  pub addr : Str
  pub handled : Str
  pub registry : R
  pub handler_opts : H
  pub read_timeout : ℤ
  pub read_header_timeout : ℤ

pub record Server (R H L : Type 0) : Type 0 where
  pub srv : Option (HttpServer R H)
  pub reg : R
  pub log : L
  pub enabled : Bool
  pub opts : H
  pub host : Str
  pub port : ℕ
  pub path : Str
  pub is_running : Bool
  pub http_read_timeout : ℤ
  pub http_read_header_timeout : ℤ

-- metrics.Config
pub record Config : Type 0 where
  pub enabled : Bool
  pub path : Str
  pub host : Str
  pub port : ℕ
  pub http_timeout : ℤ
  pub http_header_timeout : ℤ

-- time.Minute
abbrev minute : ℤ
minute = pos 60_000_000_000

abbrev pub default_config : Config
default_config = record {
  enabled = true;
  path = codes "/metrics";
  host = [];
  port = 8081;
  http_timeout = minute;
  http_header_timeout = minute;
}

-- What the server uses of prometheus, of the logger and of fmt.
pub record Library (V R H L : Type 0) : Type 0 where
  pub new_registry : R
  pub no_opts : H
  pub nop_logger : L
  pub register : R → V → R × Result (Unit {0})
  pub set_version : Str → V → Option V
  pub decimal : ℕ → Str

module _ {R H L : Type 0} where
  abbrev pub with_logger : L → Server R H L → Server R H L
  with_logger logger s = record s { log = logger }

  abbrev pub with_enabled : Bool → Server R H L → Server R H L
  with_enabled enabled s = record s { enabled = enabled }

  abbrev pub with_registry : R → Server R H L → Server R H L
  with_registry reg s = record s { reg = reg }

  abbrev pub with_server : Option (HttpServer R H) → Server R H L → Server R H L
  with_server server s = record s { srv = server }

  abbrev pub with_prometheus_handler_opts : H → Server R H L → Server R H L
  with_prometheus_handler_opts opts s = record s { opts = opts }

  abbrev pub with_path : Str → Server R H L → Server R H L
  with_path path s = record s { path = path }

  abbrev pub with_port : ℕ → Server R H L → Server R H L
  with_port port s = record s { port = port }

  abbrev pub with_host : Str → Server R H L → Server R H L
  with_host host s = record s { host = host }

  abbrev pub with_http_timeout : ℤ → Server R H L → Server R H L
  with_http_timeout timeout s = record s { http_read_timeout = timeout }

  abbrev pub with_http_header_timeout : ℤ → Server R H L → Server R H L
  with_http_header_timeout timeout s = record s { http_read_header_timeout = timeout }

  apply_opts : Server R H L → List (Server R H L → Server R H L) → Server R H L
  apply_opts s [] = s
  apply_opts s (opt ∷ opts) = apply_opts (opt s) opts

  -- Path
  unfoldable pub served_path : Server R H L → Str
  unfolding str_beq
  served_path s = if str_beq s.path [] then codes "/metrics" else s.path

  -- Stop; `closed` is what Close of the http.Server returns.
  unfoldable pub stop : Result (Unit {0}) → Server R H L → Server R H L × Result (Unit {0})
  stop closed s = if not s.enabled then (s, err err_metrics_disabled) else elim s.srv [
    | none ↦ (s, err err_metrics_not_running)
    | some server ↦
        if not s.is_running
        then (s, err err_metrics_not_running)
        else elim closed [ err e ↦ (s, err e) | ok u ↦ (record s { is_running = false }, ok tt) ]
  ]

module _ {V R H L : Type 0} (lib : Library V R H L) where
  open lib use {new_registry, no_opts, nop_logger, register, set_version, decimal}

  abbrev pub default_server : Server R H L
  default_server = record {
    srv = none;
    reg = new_registry;
    log = nop_logger;
    enabled = true;
    opts = no_opts;
    host = [];
    port = 8080;
    path = codes "/metrics";
    is_running = false;
    http_read_timeout = minute;
    http_read_header_timeout = minute;
  }

  -- NewServer
  unfoldable pub new_server : List (Server R H L → Server R H L) → Server R H L
  unfolding apply_opts
  new_server opts = apply_opts default_server opts

  -- The http.Server that Start makes.
  unfoldable pub http_server : Server R H L → HttpServer R H
  unfolding served_path
  http_server s = record {
    addr = s.host ++ (codes ":" ++ decimal s.port);
    handled = served_path s;
    registry = s.reg;
    handler_opts = s.opts;
    read_timeout = s.http_read_timeout;
    read_header_timeout = s.http_read_header_timeout;
  }

  -- `s.srv != nil && s.isRunning`
  abbrev pub runs : Server R H L → Bool
  runs s = elim s.srv [ none ↦ false | some server ↦ s.is_running ]

  unfoldable pub start : Server R H L → Server R H L × Result (Unit {0})
  unfolding http_server
  start s =
      if not s.enabled
      then (s, err err_metrics_disabled)
      else if runs s
      then (s, err err_metrics_running)
      else (record s { srv = some (http_server s); is_running = true }, ok tt)

  -- The loop of Register: what has been registered before an error stays so.
  unfoldable pub register_all : R → List V → R × Result (Unit {0})
  register_all reg [] = (reg, ok tt)
  register_all reg (c ∷ cs) =
      let (registered, r) = register reg c in
      let rest = register_all registered cs in
      elim r [ ok u ↦ rest | err e ↦ (registered, err (wrapped e)) ]

  -- Register
  unfoldable pub register_collectors :
      Server R H L → Instrumentation V → Server R H L × Result (Unit {0})
  unfolding register_all collectors
  register_collectors s instrumentation =
      let (reg, r) = register_all s.reg (collectors instrumentation) in (record s { reg = reg }, r)

  -- `GaugeVecs[InstrumentationTypeVersion].With(...).Set(1)`, a panic where there is no such gauge.
  unfoldable pub set_version_gauge : Str → Instrumentation V → Option (Instrumentation V)
  set_version_gauge version i = elim (get Kind.version i.gauge_vecs) [
    | none ↦ none
    | some v ↦ elim (set_version version v) [
      | none ↦ none
      | some w ↦ some (record i { gauge_vecs = insert Kind.version w i.gauge_vecs })
    ]
  ]

  -- The server of StartMetricsServer.
  unfoldable pub configured : Config → L → Server R H L
  unfolding new_server
  configured config logger = new_server (
      with_logger logger
      ∷ with_enabled config.enabled
      ∷ with_host config.host
      ∷ with_port config.port
      ∷ with_http_timeout config.http_timeout
      ∷ with_http_header_timeout config.http_header_timeout
      ∷ [])

  start_registered :
      Server R H L × Result (Unit {0})
      → Instrumentation V
      → Str
      → Option (Server R H L × Instrumentation V × Result (Unit {0}))
  unfolding set_version_gauge start
  start_registered (s, err e) i version = some (s, i, err e)
  start_registered (s, ok u) i version = elim (set_version_gauge version i) [
    | none ↦ none
    | some j ↦ let (started, r) = start s in some (started, j, r)
  ]

  -- StartMetricsServer, none where it panics.
  unfoldable pub start_metrics_server :
      Config
      → Instrumentation V
      → L
      → Str
      → Option (Server R H L × Instrumentation V × Result (Unit {0}))
  unfolding configured register_collectors start_registered
  start_metrics_server config instrumentation logger version =
      start_registered (register_collectors (configured config logger) instrumentation)
        instrumentation version
