-- ===== src/Metrics/Recording/Counted.antt =====
-- What the recorded calls of metrics/instrumentation.go and metrics/interceptors.go leave in the
-- counters.
use dora_service_utils.Base.{
  ℕ, ◌+◌, ◌≡◌, refl, sym, ap, ◌∙◌, Bool, true, false, ◌&&◌, Option, none, some, List, [], ◌∷◌,
  arith, nat_beq, nat_eq, if◌then◌else◌,
}
use dora_service_utils.Base.Text.{Str, str_beq}
use dora_service_utils.Base.Dict.{get, insert, get-insert}
use dora_service_utils.Base.Result.{Result}
use dora_service_utils.Metrics.{Instrumentation}
use dora_service_utils.Metrics.Kind
use dora_service_utils.Metrics.Recording.{
  Prometheus, ◌>>=◌, Family, outcome, inc_at, observe_at, record_metric,
}

unfoldable pub labels_beq : List Str → List Str → Bool
labels_beq [] [] = true
labels_beq (l ∷ ls) (k ∷ ks) = str_beq l k && labels_beq ls ks
labels_beq _ _ = false

pub >>=-eq-some {ℓ κ} :
    {A : Type ℓ} {B : Type κ} (m : Option A) (f : A → Option B) {b : B}
    → (m >>= f) ≡ some b
    → (a : A) × (m ≡ some a) × (f a ≡ some b)
>>=-eq-some none f h = absurd (ground arith)
>>=-eq-some (some a) f h = (a, refl, h)

module _ {V D : Type 0} (prometheus : Prometheus V D) where
  open prometheus use {inc, observe}

  -- A counter for each combination of label values: Inc adds one to that of its labels.
  pub record Counts : Type 0 where
    pub value : List Str → V → ℕ
    pub value-inc :
        (labels ks : List Str) (v w : V)
        → inc labels v ≡ some w
        → value ks w ≡ value ks v + (if labels_beq labels ks then 1 else 0)

  module _ (c : Counts) where
    open c use {value, value-inc}

    -- The value of a type's counter under labels; a type that has no counter counts nothing.
    abbrev pub value_at : ℕ → List Str → Instrumentation V → ℕ
    value_at kind ks i = elim (get kind i.counter_vecs) [ none ↦ 0 | some v ↦ value ks v ]

    -- What an Inc under one type and labels adds to another.
    abbrev pub added : ℕ → List Str → ℕ → List Str → ℕ
    added kind labels k ks = if nat_beq kind k then (if labels_beq labels ks then 1 else 0) else 0

    inc_at-some :
        (kind : ℕ) (labels : List Str) (i j : Instrumentation V)
        → inc_at prometheus kind labels i ≡ some j
        → (v w : V) × (get kind i.counter_vecs ≡ some v)
          × (inc labels v ≡ some w)
          × (j ≡ record i { counter_vecs = insert kind w i.counter_vecs })
    unfolding inc_at
    inc_at-some kind labels i j h =
        let (v, found, rest) = >>=-eq-some (get kind i.counter_vecs) _ h in
        let (w, added, done) = >>=-eq-some (inc labels v) _ rest in (v, w, found, added, cc)

    value_at-inc_at :
        (kind k : ℕ) (labels ks : List Str) (i j : Instrumentation V)
        → inc_at prometheus kind labels i ≡ some j
        → value_at k ks j ≡ value_at k ks i + added kind labels k ks
    value_at-inc_at kind k labels ks i j h =
        let (v, w, found, step, e) = inc_at-some kind labels i j h in
        ground (
          arith,
          e,
          found,
          get-insert kind k w i.counter_vecs,
          value-inc labels ks v w step,
          (nat_eq.beq_iff kind k),
        )

    value_at-observe_at :
        (kind k : ℕ) (elapsed : D) (labels ks : List Str) (i j : Instrumentation V)
        → observe_at prometheus kind elapsed labels i ≡ some j
        → value_at k ks j ≡ value_at k ks i
    unfolding observe_at
    value_at-observe_at kind k elapsed labels ks i j h =
        let (v, found, rest) = >>=-eq-some (get kind i.histogram_vecs) _ h in
        let (w, added, done) = >>=-eq-some (observe elapsed labels v) _ rest in
        let e : j ≡ record i { histogram_vecs = insert kind w i.histogram_vecs } = cc in
        ap (value_at k ks) e

    -- A recorded call gives what the function gives, and adds one to the counter of calls and one to
    -- that of its outcome, each under its labels.
    pub record_metric_counts :
        {S : Type 0} {R : Type 0} (kinds : Family) (f : S → S × Result R) (elapsed : D)
        (labels : List Str) (i j : Instrumentation V) (s t : S) (r : Result R) (k : ℕ)
        (ks : List Str)
        → record_metric prometheus kinds f elapsed labels (i, s) ≡ some (j, t, r)
        → (f s ≡ (t, r))
          × (value_at k ks j
              ≡ value_at k ks i
                + added kinds.count labels k ks
                + added (outcome kinds r) labels k ks)
    unfolding record_metric
    record_metric_counts kinds f elapsed labels i j s t r k ks h =
        let (counted, a, rest) = >>=-eq-some (inc_at prometheus kinds.count labels i) _ h in
        let (timed, b, rest') =
          >>=-eq-some (observe_at prometheus kinds.duration elapsed labels counted) _ rest in
        let (done, d, last) =
          >>=-eq-some (inc_at prometheus (outcome kinds (f s).1) labels timed) _ rest' in
        let same : (f s).1 ≡ r = cc in
        let ends : done ≡ j = cc in
        let result : f s ≡ (t, r) = cc in
        (
          result,
          ap (value_at k ks) (sym ends)
              ∙ value_at-inc_at (outcome kinds (f s).1) k labels ks timed done d
              ∙ ap (λ n. n + added (outcome kinds (f s).1) labels k ks)
                  (value_at-observe_at kinds.duration k elapsed labels ks counted timed b
                    ∙ value_at-inc_at kinds.count k labels ks i counted a)
              ∙ ap
                  (λ q.
                    value_at k ks i
                    + added kinds.count labels k ks
                    + added (outcome kinds q) labels k ks)
                  same,
        )

-- The five ways in which a call is recorded under four types.
pub data Recorder : Type 0 where
  http grpc db cache network : Recorder

-- The types of the four collectors of each.
abbrev pub family_of : Recorder → Family
family_of Recorder.http = record {
  count = Kind.http_request_count;
  duration = Kind.http_request_duration;
  success = Kind.http_request_success;
  failure = Kind.http_request_failure;
}
family_of Recorder.grpc = record {
  count = Kind.grpc_request_count;
  duration = Kind.grpc_request_duration;
  success = Kind.grpc_request_success;
  failure = Kind.grpc_request_failure;
}
family_of Recorder.db = record {
  count = Kind.db_request_count;
  duration = Kind.db_request_duration;
  success = Kind.db_request_success;
  failure = Kind.db_request_failure;
}
family_of Recorder.cache = record {
  count = Kind.cache_request_count;
  duration = Kind.cache_request_duration;
  success = Kind.cache_request_success;
  failure = Kind.cache_request_failure;
}
family_of Recorder.network = record {
  count = Kind.network_request_count;
  duration = Kind.network_request_duration;
  success = Kind.network_request_success;
  failure = Kind.network_request_failure;
}

abbrev pub same : Recorder → Recorder → Bool
same f m = nat_beq (family_of f).count (family_of m).count

-- No two of the types are one.
pub record Apart (f m : Recorder) : Type 0 where
  pub success : nat_beq (family_of f).success (family_of m).success ≡ same f m
  pub failure : nat_beq (family_of f).failure (family_of m).failure ≡ same f m
  pub count_success : nat_beq (family_of f).count (family_of m).success ≡ false
  pub count_failure : nat_beq (family_of f).count (family_of m).failure ≡ false
  pub success_count : nat_beq (family_of f).success (family_of m).count ≡ false
  pub success_failure : nat_beq (family_of f).success (family_of m).failure ≡ false
  pub failure_count : nat_beq (family_of f).failure (family_of m).count ≡ false
  pub failure_success : nat_beq (family_of f).failure (family_of m).success ≡ false

pub apart : (f m : Recorder) → Apart f m
apart Recorder.http Recorder.http = ground arith
apart f m = ground arith
