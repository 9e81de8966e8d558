-- ===== src/Tests/Metrics.antt =====
-- Runs of the theorems on the metrics. A collector is the number of labels that it is made for, with
-- the label values of each Inc.
use dora_service_utils.Base.{
  ℕ, suc, ◌+◌, ◌≡◌, refl, ap, Bool, true, false, Option, none, some, List, [], ◌∷◌, ◌++◌, arith,
  length, nat_beq, ltb, if◌then◌else◌, Bool-cases, inl, inr,
}
use dora_service_utils.Base.Int.{pos}
use dora_service_utils.Base.Text.{Str, codes, all_bytes}
use dora_service_utils.Base.Result.{Result, ok, err, plain}
use dora_service_utils.Metrics.{Instrumentation, collectors}
use dora_service_utils.Metrics.Kind
use dora_service_utils.Metrics.Recording.{Prometheus, db_family}
use dora_service_utils.Metrics.Recording.Counted.{Counts, Recorder, labels_beq}
use dora_service_utils.Metrics.Recording.Sequence.{Site, Call, run_calls, Tallied}
use dora_service_utils.Metrics.Recording.Returns.{Arity, Ready, run_calls-counts}
use dora_service_utils.Metrics.Server.{
  Server, Config, Library, default_config, default_server, http_server, runs, register_all,
  set_version_gauge, start_metrics_server,
}
use dora_service_utils.Metrics.Server.Running.{
  start_call, stop_call, promise_of, promises, run, run-promises, start_metrics_server-Serves,
}

record Vec : Type 0 where
  labels : ℕ
  seen : List (List Str)

inc_vec : List Str → Vec → Option Vec
inc_vec ls v = if nat_beq (length ls) v.labels then some (record v { seen = ls ∷ v.seen }) else none

observe_vec : ℕ → List Str → Vec → Option Vec
observe_vec d ls v = if nat_beq (length ls) v.labels then some v else none

abbrev vectors : Prometheus Vec ℕ
vectors = record { inc = inc_vec; observe = observe_vec }

times : List Str → List (List Str) → ℕ
times ks [] = 0
times ks (ls ∷ seen) = times ks seen + (if labels_beq ls ks then 1 else 0)

vectors-Counts : Counts vectors
unfolding inc_vec times
vectors-Counts = record { value = λ ks v. times ks v.seen; value-inc = λ ls ks v w h. ground arith }

-- ASCII text is valid UTF-8.
ascii : Str → Bool
ascii s = all_bytes (λ c. ltb c 128) s

vectors-Arity : Arity vectors
unfolding inc_vec observe_vec
vectors-Arity = record {
  arity = λ v. v.labels;
  valid_string = ascii;
  inc_returns = λ ls v h t. (record v { seen = ls ∷ v.seen }, ground arith, refl);
  observe_returns = λ d ls v h t. (v, ground arith, refl);
}

abbrev unused : Vec
unused = record { labels = 1; seen = [] }

abbrev of_db : Instrumentation Vec
of_db = record {
  namespace = codes "dora";
  counters = [];
  counter_vecs =
      (Kind.db_request_count, unused)
      ∷ (Kind.db_request_success, unused)
      ∷ (Kind.db_request_failure, unused)
      ∷ [];
  gauges = [];
  gauge_vecs = (Kind.version, unused) ∷ [];
  histograms = [];
  histogram_vecs = (Kind.db_request_duration, unused) ∷ [];
  summaries = [];
  summary_vecs = [];
}

abbrev read_of : Str → Result (Unit {0}) → Call ℕ
read_of table result = record { site = Site.db (table ∷ []); elapsed = 5; result = result }

abbrev reads : List (Call ℕ)
reads =
    read_of (codes "users") (ok tt)
    ∷ read_of (codes "users") (err plain)
    ∷ read_of (codes "pools") (ok tt)
    ∷ []

of_db-Ready : Ready vectors vectors-Arity 1 db_family of_db
unfolding vectors-Arity dora_service_utils.Base.Dict.get
of_db-Ready = record {
  count = (unused, refl, refl);
  success = (unused, refl, refl);
  failure = (unused, refl, refl);
  duration = (unused, refl, refl);
}

run_calls-counts_example :
    (j : Instrumentation Vec) × (run_calls vectors reads of_db ≡ some j)
    × Tallied vectors vectors-Counts reads Recorder.db (codes "users" ∷ []) of_db j
unfolding vectors-Arity ascii all_bytes
run_calls-counts_example =
    run_calls-counts vectors vectors-Arity vectors-Counts reads of_db Recorder.db
      (codes "users" ∷ []) (of_db-Ready, refl, (of_db-Ready, refl, (of_db-Ready, refl, tt)))

register_vec : List Vec → Vec → List Vec × Result (Unit {0})
register_vec reg v = (v ∷ reg, ok tt)

set_vec : Str → Vec → Option Vec
set_vec version v = some (record v { seen = (version ∷ []) ∷ v.seen })

write_port : ℕ → Str
write_port n = n ∷ []

abbrev library : Library Vec (List Vec) (Unit {0}) (Unit {0})
library = record {
  new_registry = [];
  no_opts = tt;
  nop_logger = tt;
  register = register_vec;
  set_version = set_vec;
  decimal = write_port;
}

abbrev server : Server (List Vec) (Unit {0}) (Unit {0})
server = default_server library

run-promises_example :
    (promise_of library
        (run library
          (start_call ∷ start_call ∷ stop_call (err plain) ∷ stop_call (ok tt) ∷ start_call ∷ [])
          server).0
      ≡ (promises
          (start_call ∷ start_call ∷ stop_call (err plain) ∷ stop_call (ok tt) ∷ start_call ∷ [])
          (promise_of library server)).0)
    × ((run library
          (start_call ∷ start_call ∷ stop_call (err plain) ∷ stop_call (ok tt) ∷ start_call ∷ [])
          server).1
        ≡ (promises
            (start_call ∷ start_call ∷ stop_call (err plain) ∷ stop_call (ok tt) ∷ start_call ∷ [])
            (promise_of library server)).1)
run-promises_example =
    run-promises library
      (start_call ∷ start_call ∷ stop_call (err plain) ∷ stop_call (ok tt) ∷ start_call ∷ []) server

-- The configured path is not the one that is served.
abbrev elsewhere : Config
elsewhere = record default_config { path = codes "/stats" }

abbrev versioned : Instrumentation Vec
versioned = record of_db {
  gauge_vecs = (Kind.version, record unused { seen = (codes "v1" ∷ []) ∷ [] }) ∷ [];
}

start_metrics_server-Serves_example :
    (s : Server (List Vec) (Unit {0}) (Unit {0})) × (r : Result (Unit {0})) × (start_metrics_server
        library elsewhere of_db tt
        (codes "v1")
      ≡ some (s, versioned, r))
    × (http_server library s ≡ record {
      addr = codes ":" ++ (8081 ∷ []);
      handled = codes "/metrics";
      registry = unused ∷ unused ∷ unused ∷ unused ∷ unused ∷ [];
      handler_opts = tt;
      read_timeout = pos 60_000_000_000;
      read_header_timeout = pos 60_000_000_000;
    })
    × (s.srv ≡ some (http_server library s))
    × (runs library s ≡ true)
    × (r ≡ ok tt)
unfolding register_all register_vec collectors set_version_gauge set_vec write_port
    dora_service_utils.Base.Dict.get dora_service_utils.Base.Dict.insert
start_metrics_server-Serves_example =
    start_metrics_server-Serves library elsewhere of_db versioned tt (codes "v1")
      (unused ∷ unused ∷ unused ∷ unused ∷ unused ∷ []) refl refl
