-- ===== src/Metrics/Server/Running.antt =====
-- The start and stop of the server of metrics/server.go, and the server that StartMetricsServer makes.
use dora_service_utils.Base.{
  ◌≡◌, refl, ap, ◌∙◌, Bool, true, false, not, none, some, List, [], ◌∷◌, ◌++◌, arith, if◌then◌else◌,
}
use dora_service_utils.Base.Text.{Str, codes, str_beq}
use dora_service_utils.Base.Result.{
  Result, ok, err, err_metrics_disabled, err_metrics_running, err_metrics_not_running,
}
use dora_service_utils.Metrics.{Instrumentation, collectors}
use dora_service_utils.Metrics.Server.{
  Server, Config, Library, new_server, apply_opts, served_path, http_server, runs, start, stop,
  register_all, register_collectors, set_version_gauge, configured, start_registered,
  start_metrics_server,
}

-- The calls of an owner; Close of the http.Server has the given result.
pub data Call : Type 0 where
  start_call : Call
  stop_call : Result (Unit {0}) → Call

-- What a server promises: it is off, or it is on and then runs or does not.
pub record Promise : Type 0 where
  pub enabled : Bool
  pub running : Bool

abbrev pub promised : Call → Promise → Promise × Result (Unit {0})
promised start_call p =
    if not p.enabled
    then (p, err err_metrics_disabled)
    else if p.running
    then (p, err err_metrics_running)
    else (record p { running = true }, ok tt)
promised (stop_call (ok u)) p =
    if not p.enabled
    then (p, err err_metrics_disabled)
    else if p.running
    then (record p { running = false }, ok tt)
    else (p, err err_metrics_not_running)
promised (stop_call (err e)) p =
    if not p.enabled
    then (p, err err_metrics_disabled)
    else if p.running
    then (p, err e)
    else (p, err err_metrics_not_running)

unfoldable pub promises : List Call → Promise → Promise × List (Result (Unit {0}))
promises [] p = (p, [])
promises (c ∷ calls) p =
    let (q, r) = promised c p in let (last, rs) = promises calls q in (last, r ∷ rs)

module _ {V R H L : Type 0} (lib : Library V R H L) where
  abbrev pub call : Call → Server R H L → Server R H L × Result (Unit {0})
  call start_call s = start lib s
  call (stop_call closed) s = stop closed s

  unfoldable pub run : List Call → Server R H L → Server R H L × List (Result (Unit {0}))
  run [] s = (s, [])
  run (c ∷ calls) s = let (t, r) = call c s in let (last, rs) = run calls t in (last, r ∷ rs)

  -- What the server's state stands for.
  abbrev pub promise_of : Server R H L → Promise
  promise_of s = record { enabled = s.enabled; running = runs lib s }

  call-promised :
      (c : Call) (s : Server R H L)
      → (promise_of (call c s).0 ≡ (promised c (promise_of s)).0)
        × ((call c s).1 ≡ (promised c (promise_of s)).1)
  unfolding start stop
  call-promised start_call s = ground arith
  call-promised (stop_call (ok tt)) s = ground arith
  call-promised (stop_call (err e)) s = ground arith

  -- Any sequence of calls of Start and Stop on any server, whatever Close returns: the results of the
  -- calls are those that the two flags promise, enabled and running, and so are the flags at the end.
  -- A server that is not enabled refuses every call; an enabled one starts exactly where it does not
  -- run, and stops exactly where it runs and Close succeeds, and can then be started again.
  pub run-promises :
      (calls : List Call) (s : Server R H L)
      → (promise_of (run calls s).0 ≡ (promises calls (promise_of s)).0)
        × ((run calls s).1 ≡ (promises calls (promise_of s)).1)
  unfolding run promises
  run-promises [] s = (refl, refl)
  run-promises (c ∷ calls) s =
      let (state, result) = call-promised c s in
      let (last, results) = run-promises calls (call c s).0 in
      (
        last ∙ ap (λ p. (promises calls p).0) state,
        ap (λ r. r ∷ (run calls (call c s).0).1) result
            ∙ ap (λ rs. (promised c (promise_of s)).1 ∷ rs)
                (results ∙ ap (λ p. (promises calls p).1) state),
      )

  -- The server of StartMetricsServer once all collectors have been registered.
  abbrev registered : Config → L → R → Server R H L
  registered config logger reg = record {
    srv = none;
    reg = reg;
    log = logger;
    enabled = config.enabled;
    opts = lib.no_opts;
    host = config.host;
    port = config.port;
    path = codes "/metrics";
    is_running = false;
    http_read_timeout = config.http_timeout;
    http_read_header_timeout = config.http_header_timeout;
  }

  register_configured :
      (config : Config) (i : Instrumentation V) (logger : L) (reg : R)
      → register_all lib lib.new_registry (collectors i) ≡ (reg, ok tt)
      → register_collectors lib (configured lib config logger) i
        ≡ (registered config logger reg, ok tt)
  unfolding register_collectors configured new_server apply_opts
  register_configured config i logger reg h = rw h refl

  start_configured :
      (config : Config) (i j : Instrumentation V) (logger : L) (version : Str) (reg : R)
      → register_all lib lib.new_registry (collectors i) ≡ (reg, ok tt)
      → set_version_gauge lib version i ≡ some j
      → start_metrics_server lib config i logger version
        ≡ some (
          (start lib (registered config logger reg)).0,
          j,
          (start lib (registered config logger reg)).1,
        )
  unfolding start_metrics_server start_registered
  start_configured config i j logger version reg h g =
      rw (register_configured config i logger reg h) (rw (g, start_registered) refl)

  -- StartMetricsServer, where every collector is registered and the gauge of the version is there:
  -- the server that it leaves is enabled as configured, listens on the configured host and port with
  -- the configured timeouts, serves the registry with all collectors, and serves it on /metrics,
  -- whatever path is configured; it runs, and there is no error, where it is enabled, and is refused
  -- otherwise.
  pub start_metrics_server-Serves :
      (config : Config) (i j : Instrumentation V) (logger : L) (version : Str) (reg : R)
      → register_all lib lib.new_registry (collectors i) ≡ (reg, ok tt)
      → set_version_gauge lib version i ≡ some j
      → (s : Server R H L) × (r : Result (Unit {0})) × (start_metrics_server lib config i logger
            version
          ≡ some (s, j, r))
        × (http_server lib s ≡ record {
          addr = config.host ++ (codes ":" ++ lib.decimal config.port);
          handled = codes "/metrics";
          registry = reg;
          handler_opts = lib.no_opts;
          read_timeout = config.http_timeout;
          read_header_timeout = config.http_header_timeout;
        })
        × (s.srv ≡ (if config.enabled then some (http_server lib s) else none))
        × (runs lib s ≡ config.enabled)
        × (r ≡ (if config.enabled then ok tt else err err_metrics_disabled))
  unfolding start http_server served_path str_beq
  start_metrics_server-Serves config i j logger version reg h g =
      let s = registered config logger reg in
      let started = start_configured config i j logger version reg h g in
      (
        (start lib s).0,
        (start lib s).1,
        started,
        ground arith,
        ground arith,
        ground arith,
        ground arith,
      )
