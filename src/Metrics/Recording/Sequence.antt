-- ===== src/Metrics/Recording/Sequence.antt =====
-- The counters after a sequence of recorded calls, of metrics/instrumentation.go and
-- metrics/interceptors.go.
use dora_service_utils.Base.{
  ℕ, ◌+◌, ◌≡◌, refl, sym, ap, ◌∙◌, Bool, true, ◌&&◌, not, Option, some, List, [], ◌∷◌, arith,
  if◌then◌else◌,
}
use dora_service_utils.Base.Text.{Str}
use dora_service_utils.Base.Result.{Result, ok, err, is_ok}
use dora_service_utils.Metrics.{Instrumentation}
use dora_service_utils.Metrics.Recording.{
  Prometheus, ◌>>=◌, outcome, record_metric, connect_interceptor, grpc_interceptor,
  record_db_metric, record_cache_metric, record_network_metric,
}
use dora_service_utils.Metrics.Recording.Counted.{
  labels_beq, >>=-eq-some, Counts, value_at, added, record_metric_counts, Recorder, family_of, same,
  apart,
}

-- A call that is recorded, with what the recording function is given for its labels: the request of
-- NewConnectInterceptor, the method of NewGrpcInterceptor, and the labels of RecordDbMetric,
-- RecordCacheMetric and RecordNetworkMetric.
pub data Site : Type 0 where
  connect : Str → Str → Site
  grpc : Str → Site
  db cache network : List Str → Site

-- The call, how long it took and what it gave.
pub record Call (D : Type 0) : Type 0 where
  pub site : Site
  pub elapsed : D
  pub result : Result (Unit {0})

abbrev pub recorder_of : Site → Recorder
recorder_of (Site.connect method procedure) = Recorder.http
recorder_of (Site.grpc full_method) = Recorder.grpc
recorder_of (Site.db labels) = Recorder.db
recorder_of (Site.cache labels) = Recorder.cache
recorder_of (Site.network labels) = Recorder.network

abbrev pub labels_of : Site → List Str
labels_of (Site.connect method procedure) = method ∷ procedure ∷ []
labels_of (Site.grpc full_method) = full_method ∷ []
labels_of (Site.db labels) = labels
labels_of (Site.cache labels) = labels
labels_of (Site.network labels) = labels

module _ {D : Type 0} where
  -- The calls of one recorder under the given labels whose results pass the test.
  unfoldable pub tally : (Result (Unit {0}) → Bool) → Recorder → List Str → List (Call D) → ℕ
  unfolding labels_beq
  tally p m ks [] = 0
  tally p m ks (c ∷ calls) =
      (if same (recorder_of c.site) m && (labels_beq (labels_of c.site) ks && p c.result)
        then 1
        else 0)
      + tally p m ks calls

module _ {V D : Type 0} (prometheus : Prometheus V D) where
  -- The call through the function that records it.
  unfoldable pub record_site :
      Site
      → D
      → Result (Unit {0})
      → Instrumentation V
      → Option (Instrumentation V × Unit {0} × Result (Unit {0}))
  record_site (Site.connect method procedure) elapsed r i =
      connect_interceptor prometheus (λ (u : Unit {0}). (u, r)) elapsed method procedure (i, tt)
  record_site (Site.grpc full_method) elapsed r i =
      grpc_interceptor prometheus (λ (u : Unit {0}). (u, r)) elapsed full_method (i, tt)
  record_site (Site.db labels) elapsed r i =
      record_db_metric prometheus (λ (u : Unit {0}). (u, r)) elapsed labels (i, tt)
  record_site (Site.cache labels) elapsed r i =
      record_cache_metric prometheus (λ (u : Unit {0}). (u, r)) elapsed labels (i, tt)
  record_site (Site.network labels) elapsed r i =
      record_network_metric prometheus (λ (u : Unit {0}). (u, r)) elapsed labels (i, tt)

  -- Each function records under the types of its own collectors.
  pub record_site_lem :
      (s : Site) (elapsed : D) (r : Result (Unit {0})) (i : Instrumentation V)
      → record_site s elapsed r i
        ≡ record_metric prometheus
            (family_of (recorder_of s))
            (λ (u : Unit {0}). (u, r))
            elapsed
            (labels_of s)
            (i, tt)
  unfolding record_site
  record_site_lem (Site.connect method procedure) elapsed r i = refl
  record_site_lem (Site.grpc full_method) elapsed r i = refl
  record_site_lem (Site.db labels) elapsed r i = refl
  record_site_lem (Site.cache labels) elapsed r i = refl
  record_site_lem (Site.network labels) elapsed r i = refl

  unfoldable pub run_calls : List (Call D) → Instrumentation V → Option (Instrumentation V)
  run_calls [] i = some i
  run_calls (c ∷ calls) i = record_site c.site c.elapsed c.result i >>= λ x. run_calls calls x.0

  module _ (counts : Counts prometheus) where
    abbrev pub value : ℕ → List Str → Instrumentation V → ℕ
    value = value_at prometheus counts

    -- By how much the three counters of a recorder have grown under some labels.
    pub record Tallied (calls : List (Call D)) (m : Recorder) (ks : List Str)
        (i j : Instrumentation V) : Type 0 where
      pub count :
          value (family_of m).count ks j
          ≡ value (family_of m).count ks i + tally (λ r. true) m ks calls
      pub success :
          value (family_of m).success ks j
          ≡ value (family_of m).success ks i + tally is_ok m ks calls
      pub failure :
          value (family_of m).failure ks j
          ≡ value (family_of m).failure ks i + tally (λ r. not (is_ok r)) m ks calls

    -- What one call adds to any counter.
    grown :
        (c : Call D) (i : Instrumentation V) (x : Instrumentation V × Unit {0} × Result (Unit {0}))
        (k : ℕ) (ks : List Str)
        → record_metric prometheus
            (family_of (recorder_of c.site))
            (λ (u : Unit {0}). (u, c.result))
            c.elapsed
            (labels_of c.site)
            (i, tt)
          ≡ some x
        → value k ks x.0
          ≡ value k ks i
            + added prometheus counts (family_of (recorder_of c.site)).count (labels_of c.site) k ks
            + added prometheus counts
                (outcome (family_of (recorder_of c.site)) c.result)
                (labels_of c.site)
                k
                ks
    grown c i x k ks h =
        let (gave, sum) =
          record_metric_counts prometheus counts (family_of (recorder_of c.site))
            (λ (u : Unit {0}). (u, c.result)) c.elapsed (labels_of c.site) i x.0 tt x.1 x.2 k ks
            h in
        let same_result : x.2 ≡ c.result = cc in
        sum
        ∙ ap
            (λ q.
              value k ks i
              + added prometheus counts (family_of (recorder_of c.site)).count (labels_of c.site) k
                  ks
              + added prometheus counts (outcome (family_of (recorder_of c.site)) q)
                  (labels_of c.site) k ks)
            same_result

    one_call :
        (c : Call D) (r : Result (Unit {0})) (m : Recorder) (ks : List Str)
        (i j : Instrumentation V)
        → c.result ≡ r
        → ((k : ℕ)
            → value k ks j
              ≡ value k ks i
                + added prometheus counts
                    (family_of (recorder_of c.site)).count
                    (labels_of c.site)
                    k
                    ks
                + added prometheus counts
                    (outcome (family_of (recorder_of c.site)) r)
                    (labels_of c.site)
                    k
                    ks)
        → Tallied (c ∷ []) m ks i j
    unfolding tally
    one_call c (ok tt) m ks i j e g =
        let a = apart (recorder_of c.site) m in
        ground (
          arith,
          e,
          g (family_of m).count,
          g (family_of m).success,
          g (family_of m).failure,
          a.success,
          a.failure,
          a.count_success,
          a.count_failure,
          a.success_count,
          a.success_failure,
        )
    one_call c (err x) m ks i j e g =
        let a = apart (recorder_of c.site) m in
        ground (
          arith,
          e,
          g (family_of m).count,
          g (family_of m).success,
          g (family_of m).failure,
          a.success,
          a.failure,
          a.count_success,
          a.count_failure,
          a.failure_count,
          a.failure_success,
        )

    two_parts :
        (c : Call D) (calls : List (Call D)) (m : Recorder) (ks : List Str)
        (i j k : Instrumentation V)
        → Tallied (c ∷ []) m ks i j
        → Tallied calls m ks j k
        → Tallied (c ∷ calls) m ks i k
    unfolding tally
    two_parts c calls m ks i j k a b = record {
      count = omega (arith, a.count, b.count);
      success = omega (arith, a.success, b.success);
      failure = omega (arith, a.failure, b.failure);
    }

    -- A sequence of recorded calls that does not panic: the counters of each recorder have grown,
    -- under each combination of labels, by exactly the calls that were recorded there, those that
    -- succeeded and those that failed.
    pub run_calls-Tallied :
        (calls : List (Call D)) (m : Recorder) (ks : List Str) (i j : Instrumentation V)
        → run_calls calls i ≡ some j
        → Tallied calls m ks i j
    unfolding run_calls tally
    run_calls-Tallied [] m ks i j h = ground arith
    run_calls-Tallied (c ∷ calls) m ks i j h =
        let (x, recorded, rest) = >>=-eq-some (record_site c.site c.elapsed c.result i) _ h in
        two_parts c calls m ks i x.0 j
          (one_call c c.result m ks i x.0 refl
            (λ k. grown c i x k ks (sym (record_site_lem c.site c.elapsed c.result i) ∙ recorded)))
          (run_calls-Tallied calls m ks x.0 j rest)
