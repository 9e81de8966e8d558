-- ===== src/Metrics/Recording.antt =====
-- metrics/instrumentation.go, metrics/interceptors.go and metrics/middleware.go: what is recorded of a
-- call. A panic is none: the maps give a nil collector for a type that has none, and prometheus
-- panics at a number of labels that a collector was not made for and at a label that is not UTF-8.
-- The recorded function is one that does not itself record.
pub mod Counted
pub mod Sequence
pub mod Returns
use dora_service_utils.Base.{ℕ, Option, none, some, List, [], ◌∷◌, nat_eq}
use dora_service_utils.Base.Text.{Str}
use dora_service_utils.Base.Dict.{get, insert}
use dora_service_utils.Base.Result.{Result, ok, err, Error}
use dora_service_utils.Metrics.{Instrumentation}
use dora_service_utils.Metrics.Kind

-- `WithLabelValues(labels...).Inc()` and `WithLabelValues(labels...).Observe(d)` on a collector.
pub record Prometheus (V D : Type 0) : Type 0 where
  pub inc : List Str → V → Option V
  pub observe : D → List Str → V → Option V

-- A panic ends the call.
infixl 5 ◌>>=◌
abbrev pub ◌>>=◌ {ℓ κ} : {A : Type ℓ} {B : Type κ} → Option A → (A → Option B) → Option B
none >>= f = none
some a >>= f = f a

-- The four types under which a call is recorded.
pub record Family : Type 0 where
  pub count : ℕ
  pub duration : ℕ
  pub success : ℕ
  pub failure : ℕ

abbrev pub http_family : Family
http_family = record {
  count = Kind.http_request_count;
  duration = Kind.http_request_duration;
  success = Kind.http_request_success;
  failure = Kind.http_request_failure;
}

abbrev pub grpc_family : Family
grpc_family = record {
  count = Kind.grpc_request_count;
  duration = Kind.grpc_request_duration;
  success = Kind.grpc_request_success;
  failure = Kind.grpc_request_failure;
}

abbrev pub db_family : Family
db_family = record {
  count = Kind.db_request_count;
  duration = Kind.db_request_duration;
  success = Kind.db_request_success;
  failure = Kind.db_request_failure;
}

abbrev pub cache_family : Family
cache_family = record {
  count = Kind.cache_request_count;
  duration = Kind.cache_request_duration;
  success = Kind.cache_request_success;
  failure = Kind.cache_request_failure;
}

abbrev pub network_family : Family
network_family = record {
  count = Kind.network_request_count;
  duration = Kind.network_request_duration;
  success = Kind.network_request_success;
  failure = Kind.network_request_failure;
}

-- `if err != nil`: the type that counts the outcome.
abbrev pub outcome {ℓ} : {R : Type ℓ} → Family → Result R → ℕ
outcome kinds (ok r) = kinds.success
outcome kinds (err e) = kinds.failure

module _ {V D : Type 0} (prometheus : Prometheus V D) where
  open prometheus use {inc, observe}

  -- `CounterVecs[kind].WithLabelValues(labels...).Inc()`
  unfoldable pub inc_at : ℕ → List Str → Instrumentation V → Option (Instrumentation V)
  inc_at kind labels i = do
    v ← get kind i.counter_vecs
    w ← inc labels v
    some (record i { counter_vecs = insert kind w i.counter_vecs })

  -- `HistogramVecs[kind].WithLabelValues(labels...).Observe(elapsed)`
  unfoldable pub observe_at : ℕ → D → List Str → Instrumentation V → Option (Instrumentation V)
  observe_at kind elapsed labels i = do
    v ← get kind i.histogram_vecs
    w ← observe elapsed labels v
    some (record i { histogram_vecs = insert kind w i.histogram_vecs })

  module _ {S R : Type 0} where
    -- A recorded call of `f` on the state that it works on, which takes `elapsed`.
    unfoldable pub record_metric :
        Family
        → (S → S × Result R)
        → D
        → List Str
        → Instrumentation V × S
        → Option (Instrumentation V × S × Result R)
    unfolding inc_at observe_at
    record_metric kinds f elapsed labels (i, s) = do
      counted ← inc_at kinds.count labels i
      let (t, r) = f s
      timed ← observe_at kinds.duration elapsed labels counted
      done ← inc_at (outcome kinds r) labels timed
      some (done, t, r)

    -- NewConnectInterceptor
    abbrev pub connect_interceptor :
        (S → S × Result R)
        → D
        → Str
        → Str
        → Instrumentation V × S
        → Option (Instrumentation V × S × Result R)
    connect_interceptor next elapsed method procedure =
        record_metric http_family next elapsed (method ∷ procedure ∷ [])

    -- NewGrpcInterceptor
    abbrev pub grpc_interceptor :
        (S → S × Result R)
        → D
        → Str
        → Instrumentation V × S
        → Option (Instrumentation V × S × Result R)
    grpc_interceptor handler elapsed full_method =
        record_metric grpc_family handler elapsed (full_method ∷ [])

  module _ {S : Type 0} where
    abbrev pub record_db_metric :
        (S → S × Result (Unit {0}))
        → D
        → List Str
        → Instrumentation V × S
        → Option (Instrumentation V × S × Result (Unit {0}))
    record_db_metric = record_metric db_family

    abbrev pub record_cache_metric :
        (S → S × Result (Unit {0}))
        → D
        → List Str
        → Instrumentation V × S
        → Option (Instrumentation V × S × Result (Unit {0}))
    record_cache_metric = record_metric cache_family

    abbrev pub record_network_metric :
        (S → S × Result (Unit {0}))
        → D
        → List Str
        → Instrumentation V × S
        → Option (Instrumentation V × S × Result (Unit {0}))
    record_network_metric = record_metric network_family

    -- Handle of HttpMiddleware: its one type is that of the counter and of the histogram.
    unfoldable pub handle :
        ℕ → (S → S) → D → Str → Str → Instrumentation V × S → Option (Instrumentation V × S)
    unfolding inc_at observe_at
    handle kind next elapsed method path (i, s) = do
      let labels = method ∷ path ∷ []
      counted ← inc_at kind labels i
      let t = next s
      timed ← observe_at kind elapsed labels counted
      some (timed, t)
