-- ===== src/Metrics/Recording/Returns.antt =====
-- When the recording of metrics/instrumentation.go and metrics/interceptors.go does not panic.
use dora_service_utils.Base.{
  ℕ, Bool, true, ◌&&◌, ◌≡◌, refl, sym, subst, ◌∙◌, some, List, [], ◌∷◌, arith, length, nat_beq,
  nat_eq, Bool-cases, inl, inr,
}
use dora_service_utils.Base.Text.{Str}
use dora_service_utils.Base.Dict.{Dict, get, insert, get-insert}
use dora_service_utils.Base.Result.{Result, ok, err}
use dora_service_utils.Metrics.{Instrumentation}
use dora_service_utils.Metrics.Recording.{
  Prometheus, Family, outcome, inc_at, observe_at, record_metric,
}
use dora_service_utils.Metrics.Recording.Counted.{Recorder, family_of, Counts}
use dora_service_utils.Metrics.Recording.Sequence.{
  Call, recorder_of, labels_of, record_site_lem, run_calls, Tallied, run_calls-Tallied,
}

abbrev pub all_valid : (Str → Bool) → List Str → Bool
all_valid valid_string [] = true
all_valid valid_string (l ∷ labels) = valid_string l && all_valid valid_string labels

module _ {V D : Type 0} (prometheus : Prometheus V D) where
  open prometheus use {inc, observe}

  -- A collector is made for a number of labels, and takes that many label values which are valid
  -- UTF-8, as utf8.ValidString says.
  pub record Arity : Type 0 where
    pub arity : V → ℕ
    pub valid_string : Str → Bool
    pub inc_returns :
        (labels : List Str) (v : V)
        → length labels ≡ arity v
        → all_valid valid_string labels ≡ true
        → (w : V) × (inc labels v ≡ some w) × (arity w ≡ arity v)
    pub observe_returns :
        (elapsed : D) (labels : List Str) (v : V)
        → length labels ≡ arity v
        → all_valid valid_string labels ≡ true
        → (w : V) × (observe elapsed labels v ≡ some w) × (arity w ≡ arity v)

  module _ (a : Arity) where
    open a use {arity, valid_string, inc_returns, observe_returns}

    -- The map has a collector for so many labels.
    abbrev pub Has : ℕ → ℕ → Dict ℕ V → Type 0
    Has kind n d = (v : V) × (get kind d ≡ some v) × (arity v ≡ n)

    -- The four collectors of a recorder.
    pub record Ready (n : ℕ) (kinds : Family) (i : Instrumentation V) : Type 0 where
      pub count : Has kinds.count n i.counter_vecs
      pub success : Has kinds.success n i.counter_vecs
      pub failure : Has kinds.failure n i.counter_vecs
      pub duration : Has kinds.duration n i.histogram_vecs

    Has-insert :
        (kind k n : ℕ) (v w : V) (d : Dict ℕ V)
        → get kind d ≡ some v
        → arity w ≡ arity v
        → Has k n d
        → Has k n (insert kind w d)
    Has-insert kind k n v w d g e (u, found, m) = elim (Bool-cases (nat_beq kind k)) [
      | inl y ↦ (w, get-insert kind k w d ∙ rw y refl, ground (arith, nat_eq.beq_iff kind k, y))
      | inr x ↦ (u, get-insert kind k w d ∙ rw x found, m)
    ]

    inc_at-returns :
        (kind n : ℕ) (labels : List Str) (i : Instrumentation V)
        → length labels ≡ n
        → all_valid valid_string labels ≡ true
        → Has kind n i.counter_vecs
        → (j : Instrumentation V) × (inc_at prometheus kind labels i ≡ some j)
          × ((k m : ℕ) → Has k m i.counter_vecs → Has k m j.counter_vecs)
          × (j.histogram_vecs ≡ i.histogram_vecs)
    unfolding inc_at
    inc_at-returns kind n labels i l t (v, g, m) =
        let (w, stepped, same) = inc_returns labels v (l ∙ sym m) t in
        (
          record i { counter_vecs = insert kind w i.counter_vecs },
          rw g (rw stepped refl),
          λ k q h. Has-insert kind k q v w i.counter_vecs g same h,
          refl,
        )

    observe_at-returns :
        (kind n : ℕ) (elapsed : D) (labels : List Str) (i : Instrumentation V)
        → length labels ≡ n
        → all_valid valid_string labels ≡ true
        → Has kind n i.histogram_vecs
        → (j : Instrumentation V) × (observe_at prometheus kind elapsed labels i ≡ some j)
          × ((k m : ℕ) → Has k m i.histogram_vecs → Has k m j.histogram_vecs)
          × (j.counter_vecs ≡ i.counter_vecs)
    unfolding observe_at
    observe_at-returns kind n elapsed labels i l t (v, g, m) =
        let (w, stepped, same) = observe_returns elapsed labels v (l ∙ sym m) t in
        (
          record i { histogram_vecs = insert kind w i.histogram_vecs },
          rw g (rw stepped refl),
          λ k q h. Has-insert kind k q v w i.histogram_vecs g same h,
          refl,
        )

    -- Each collector that the maps had, they still have.
    record Keeps (i j : Instrumentation V) : Type 0 where
      counters : (k m : ℕ) → Has k m i.counter_vecs → Has k m j.counter_vecs
      histograms : (k m : ℕ) → Has k m i.histogram_vecs → Has k m j.histogram_vecs

    Ready-Keeps :
        (n : ℕ) (kinds : Family) (i j : Instrumentation V)
        → Keeps i j
        → Ready n kinds i
        → Ready n kinds j
    Ready-Keeps n kinds i j k r = record {
      count = k.counters kinds.count n r.count;
      success = k.counters kinds.success n r.success;
      failure = k.counters kinds.failure n r.failure;
      duration = k.histograms kinds.duration n r.duration;
    }

    Ready-outcome :
        (n : ℕ) (kinds : Family) (r : Result (Unit {0})) (i : Instrumentation V)
        → Ready n kinds i
        → Has (outcome kinds r) n i.counter_vecs
    Ready-outcome n kinds (ok u) i h = h.success
    Ready-outcome n kinds (err e) i h = h.failure

    inc_at-Keeps :
        (kind n : ℕ) (labels : List Str) (i : Instrumentation V)
        → length labels ≡ n
        → all_valid valid_string labels ≡ true
        → Has kind n i.counter_vecs
        → (j : Instrumentation V) × (inc_at prometheus kind labels i ≡ some j) × Keeps i j
    inc_at-Keeps kind n labels i l t h =
        let (j, e, kept, same) = inc_at-returns kind n labels i l t h in
        (j, e, record { counters = kept; histograms = λ k m had. subst (Has k m) (sym same) had })

    observe_at-Keeps :
        (kind n : ℕ) (elapsed : D) (labels : List Str) (i : Instrumentation V)
        → length labels ≡ n
        → all_valid valid_string labels ≡ true
        → Has kind n i.histogram_vecs
        → (j : Instrumentation V) × (observe_at prometheus kind elapsed labels i ≡ some j)
          × Keeps i j
    observe_at-Keeps kind n elapsed labels i l t h =
        let (j, e, kept, same) = observe_at-returns kind n elapsed labels i l t h in
        (j, e, record { counters = λ k m had. subst (Has k m) (sym same) had; histograms = kept })

    record_metric-returns :
        (c : Call D) (i : Instrumentation V)
        → Ready (length (labels_of c.site)) (family_of (recorder_of c.site)) i
        → all_valid valid_string (labels_of c.site) ≡ true
        → (j : Instrumentation V) × (record_metric prometheus
              (family_of (recorder_of c.site))
              (λ (u : Unit {0}). (u, c.result))
              c.elapsed
              (labels_of c.site)
              (i, tt)
            ≡ some (j, tt, c.result))
          × Keeps i j
    unfolding record_metric
    record_metric-returns c i ready t =
        let kinds = family_of (recorder_of c.site) in
        let n = length (labels_of c.site) in
        let (counted, e1, k1) =
          inc_at-Keeps kinds.count n (labels_of c.site) i refl t ready.count in
        let (timed, e2, k2) =
          observe_at-Keeps kinds.duration n c.elapsed (labels_of c.site) counted refl t
            (k1.histograms kinds.duration n ready.duration) in
        let (done, e3, k3) =
          inc_at-Keeps (outcome kinds c.result) n (labels_of c.site) timed refl t (
            k2.counters (outcome kinds c.result) n
              (k1.counters (outcome kinds c.result) n (Ready-outcome n kinds c.result i ready))) in
        (
          done,
          rw e1 (rw e2 (rw e3 refl)),
          record {
            counters = λ k m had. k3.counters k m (k2.counters k m (k1.counters k m had));
            histograms = λ k m had. k3.histograms k m (k2.histograms k m (k1.histograms k m had));
          },
        )

    -- Each call finds its four collectors, made for as many labels as it gives, and its labels are
    -- valid UTF-8.
    abbrev pub AllReady : List (Call D) → Instrumentation V → Type 0
    AllReady [] i = Unit
    AllReady (c ∷ calls) i =
        Ready (length (labels_of c.site)) (family_of (recorder_of c.site)) i
        × (all_valid valid_string (labels_of c.site) ≡ true)
        × AllReady calls i

    AllReady-Keeps :
        (calls : List (Call D)) (i j : Instrumentation V)
        → Keeps i j
        → AllReady calls i
        → AllReady calls j
    AllReady-Keeps [] i j k h = tt
    AllReady-Keeps (c ∷ calls) i j k h = (
      Ready-Keeps (length (labels_of c.site)) (family_of (recorder_of c.site)) i j k h.0,
      h.1,
      AllReady-Keeps calls i j k h.2,
    )

    run_calls-returns :
        (calls : List (Call D)) (i : Instrumentation V)
        → AllReady calls i
        → (j : Instrumentation V) × (run_calls prometheus calls i ≡ some j)
    unfolding run_calls
    run_calls-returns [] i h = (i, refl)
    run_calls-returns (c ∷ calls) i h =
        let (mid, e, k) = record_metric-returns c i h.0 h.1 in
        let (j, rest) = run_calls-returns calls mid (AllReady-Keeps calls i mid k h.2) in
        (j, rw (record_site_lem prometheus c.site c.elapsed c.result i) (rw e rest))

    -- A sequence of calls that are recorded, by the interceptors and by the functions for databases,
    -- caches and networks, each of which finds its four collectors, made for as many labels as it
    -- gives, and gives labels that are valid UTF-8: it does not panic, and the three counters that are
    -- named after each recorder have grown, under each combination of labels, by exactly the calls
    -- that were recorded there, those that succeeded and those that failed.
    pub run_calls-counts :
        (counts : Counts prometheus) (calls : List (Call D)) (i : Instrumentation V) (m : Recorder)
        (ks : List Str)
        → AllReady calls i
        → (j : Instrumentation V) × (run_calls prometheus calls i ≡ some j)
          × Tallied prometheus counts calls m ks i j
    run_calls-counts counts calls i m ks h =
        let (j, e) = run_calls-returns calls i h in
        (j, e, run_calls-Tallied prometheus counts calls m ks i j e)
