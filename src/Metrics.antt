-- ===== src/Metrics.antt =====
-- metrics/instrumentation.go and metrics/options.go: the collectors of a service, in maps by what they
-- measure. `V` is a collector of prometheus with its values and `F` is float64; the constructors of
-- prometheus are a parameter, a function of the call that the code makes.
pub mod Kind
pub mod Recording
pub mod Server
use dora_service_utils.Base.{ℕ, List, [], ◌∷◌, ◌++◌, nat_eq}
use dora_service_utils.Base.Text.{Str}
use dora_service_utils.Base.Dict.{Dict, insert}

-- What the options of all collectors share.
pub record Opts : Type 0 where
  pub namespace : Str
  pub name : Str
  pub help : Str

-- A call of a constructor, such as prometheus.NewCounterVec.
pub data Collected (F : Type 0) : Type 0 where
  counter : Opts → Collected F
  counter_vec : Opts → List Str → Collected F
  gauge : Opts → Collected F
  gauge_vec : Opts → List Str → Collected F
  histogram : Opts → List F → Collected F
  histogram_vec : Opts → List Str → List F → Collected F
  summary : Opts → Dict F F → Collected F
  summary_vec : Opts → List Str → Dict F F → Collected F

pub record Instrumentation (V : Type 0) : Type 0 where
  pub namespace : Str
  pub counters : Dict ℕ V
  pub counter_vecs : Dict ℕ V
  pub gauges : Dict ℕ V
  pub gauge_vecs : Dict ℕ V
  pub histograms : Dict ℕ V
  pub histogram_vecs : Dict ℕ V
  pub summaries : Dict ℕ V
  pub summary_vecs : Dict ℕ V

module _ {V F : Type 0} (create : Collected F → V) where
  abbrev opts_of : Instrumentation V → Str → Str → Opts
  opts_of i name help = record { namespace = i.namespace; name = name; help = help }

  pub with_counter : ℕ → Str → Str → Instrumentation V → Instrumentation V
  with_counter kind name help i = record i {
    counters = insert kind (create (Collected.counter (opts_of i name help))) i.counters;
  }

  pub with_counter_vec : ℕ → Str → Str → List Str → Instrumentation V → Instrumentation V
  with_counter_vec kind name help labels i = record i {
    counter_vecs =
        insert kind (create (Collected.counter_vec (opts_of i name help) labels)) i.counter_vecs;
  }

  pub with_gauge : ℕ → Str → Str → Instrumentation V → Instrumentation V
  with_gauge kind name help i = record i {
    gauges = insert kind (create (Collected.gauge (opts_of i name help))) i.gauges;
  }

  pub with_gauge_vec : ℕ → Str → Str → List Str → Instrumentation V → Instrumentation V
  with_gauge_vec kind name help labels i = record i {
    gauge_vecs =
        insert kind (create (Collected.gauge_vec (opts_of i name help) labels)) i.gauge_vecs;
  }

  pub with_histogram : ℕ → Str → Str → List F → Instrumentation V → Instrumentation V
  with_histogram kind name help buckets i = record i {
    histograms =
        insert kind (create (Collected.histogram (opts_of i name help) buckets)) i.histograms;
  }

  pub with_histogram_vec : ℕ → Str → Str → List Str → List F → Instrumentation V → Instrumentation V
  with_histogram_vec kind name help labels buckets i = record i {
    histogram_vecs =
        insert kind (create (Collected.histogram_vec (opts_of i name help) labels buckets))
          i.histogram_vecs;
  }

  pub with_summary : ℕ → Str → Str → Dict F F → Instrumentation V → Instrumentation V
  with_summary kind name help objectives i = record i {
    summaries =
        insert kind (create (Collected.summary (opts_of i name help) objectives)) i.summaries;
  }

  pub with_summary_vec : ℕ → Str → Str → List Str → Dict F F → Instrumentation V → Instrumentation V
  with_summary_vec kind name help labels objectives i = record i {
    summary_vecs =
        insert kind (create (Collected.summary_vec (opts_of i name help) labels objectives))
          i.summary_vecs;
  }

module _ {V : Type 0} where
  abbrev empty_instrumentation : Str → Instrumentation V
  empty_instrumentation namespace = record {
    namespace = namespace;
    counters = [];
    counter_vecs = [];
    gauges = [];
    gauge_vecs = [];
    histograms = [];
    histogram_vecs = [];
    summaries = [];
    summary_vecs = [];
  }

  apply_options :
      List (Instrumentation V → Instrumentation V) → Instrumentation V → Instrumentation V
  apply_options [] i = i
  apply_options (opt ∷ opts) i = apply_options opts (opt i)

  -- NewInstrumentation
  unfoldable pub new_instrumentation :
      Str → List (Instrumentation V → Instrumentation V) → Instrumentation V
  unfolding apply_options
  new_instrumentation namespace opts = apply_options opts (empty_instrumentation namespace)

  unfoldable pub values_of : Dict ℕ V → List V
  values_of [] = []
  values_of ((kind, v) ∷ d) = v ∷ values_of d

  -- Collectors, each map in an arbitrary order.
  unfoldable pub collectors : Instrumentation V → List V
  unfolding values_of
  collectors i =
      values_of i.counters
      ++ values_of i.counter_vecs
      ++ values_of i.gauges
      ++ values_of i.gauge_vecs
      ++ values_of i.histograms
      ++ values_of i.histogram_vecs
      ++ values_of i.summaries
      ++ values_of i.summary_vecs
