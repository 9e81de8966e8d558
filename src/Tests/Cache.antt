-- ===== src/Tests/Cache.antt =====
-- Runs of the theorems on caches and on what they read from Kafka.
use dora_service_utils.Base.{
  ℕ, ◌+◌, ◌≤◌, ◌<◌, ◌≡◌, ◌↔◌, ◌⊎◌, refl, Bool, true, false, Option, none, some, List, [], ◌∷◌, ◌++◌,
  length, arith,
}
use dora_service_utils.Base.Int.{pos}
use dora_service_utils.Base.Text.{Str, codes}
use dora_service_utils.Base.Result.{Result, ok, err, Error, plain}
use dora_service_utils.Cache.{
  Phase, absent, spawned, polling, finished, fetched, ready, running, stopped, Cache, Event,
  call_init, call_start, call_stop, begin, poll, process, leave, update, new, start, stop, run,
}
use dora_service_utils.Cache.Invariant.{Inv}
use dora_service_utils.Cache.Reachable.{reachable-Inv}
use dora_service_utils.Cache.Records.{
  pending, polled, of_goroutine, apply_all, processed, records_refine,
}
use dora_service_utils.Cache.Ending.{count_of, done_goroutine_bounded, done_goroutine_can_end}
use dora_service_utils.Cache.Races.{earlier_goroutine_not_stopped, early_stop_leaves_running}
use dora_service_utils.Cache.Consume.{FetchPartition, Fetch, Client}
use dora_service_utils.Kafka.{Offsets, ConsumerLag, collect_consumer_lag}
use dora_service_utils.Kafka.Lag.{lag_at, collect_consumer_lag_lem}

-- A batch is a number, and the records are the batches, the last first.
abbrev keep : ℕ → List ℕ → List ℕ × Result (Unit {0})
keep f r = (f ∷ r, ok tt)

abbrev NatCache : Type 0
NatCache = Cache ℕ (List ℕ)

abbrev no_phase : ℕ → Phase ℕ
no_phase i = absent

abbrev none_done : ℕ → Bool
none_done i = false

abbrev begun_phase : ℕ → Phase ℕ
begun_phase = update (update no_phase 0 spawned) 0 polling

abbrev begin_events : List (Event ℕ)
begin_events = call_init (ok tt) ∷ call_start ∷ begin 0 ∷ []

abbrev begun : NatCache
begun = record {
  status = running;
  has_client = true;
  client_closed = false;
  cancel_func = some 0;
  records = [];
  count = 1;
  phase = begun_phase;
  done = update none_done 0 false;
}

reachable-Inv_example : Inv begun × ((stop begun ≡ none) ↔ (begun.count ≡ 0))
unfolding run
reachable-Inv_example = reachable-Inv keep false [] begin_events begun refl

abbrev poll_events : List (Event ℕ)
poll_events = call_init (ok tt) ∷ call_start ∷ begin 0 ∷ poll 0 5 ∷ process 0 ∷ poll 0 6 ∷ []

abbrev polled_once : NatCache
polled_once = record begun {
  records = 5 ∷ [];
  phase = update (update (update begun_phase 0 (fetched 5)) 0 polling) 0 (fetched 6);
}

records_refine_example :
    (polled_once.records ≡ apply_all keep (processed keep poll_events (new false [])) [])
    × ((i : ℕ)
        → of_goroutine i (processed keep poll_events (new false []))
            ++ pending (polled_once.phase i)
          ≡ polled i poll_events)
unfolding run
records_refine_example = records_refine keep false [] poll_events polled_once refl

abbrev stop_events : List (Event ℕ)
stop_events = call_init (ok tt) ∷ call_start ∷ begin 0 ∷ call_stop ∷ []

abbrev halted : NatCache
halted = record begun { status = stopped; done = update (update none_done 0 false) 0 true }

done_goroutine_can_end_example :
    (es : List (Event ℕ)) × (d : NatCache) × (run keep es halted ≡ some d)
    × (d.phase 0 ≡ finished)
    × (count_of 0 es ≡ length es)
    × (length es ≤ 2)
unfolding run
done_goroutine_can_end_example =
    done_goroutine_can_end keep false [] stop_events halted 0 refl (omega arith) refl

abbrev left : NatCache
left = record halted { phase = update begun_phase 0 finished }

abbrev leave_events : List (Event ℕ)
leave_events = leave 0 (ok tt) ∷ []

done_goroutine_bounded_example :
    (polled 0 leave_events ≡ [])
    × ((count_of 0 leave_events < 2) ⊎ ((count_of 0 leave_events ≡ 2) × (left.phase 0 ≡ finished)))
unfolding run
done_goroutine_bounded_example =
    done_goroutine_bounded keep false [] stop_events halted 0 refl (omega arith) refl leave_events
      left refl

abbrev start_events : List (Event ℕ)
start_events = call_init (ok tt) ∷ call_start ∷ call_start ∷ []

abbrev twice : NatCache
twice = record {
  status = ready;
  has_client = true;
  client_closed = false;
  cancel_func = some 1;
  records = [];
  count = 2;
  phase = update (update no_phase 0 spawned) 1 spawned;
  done = update (update none_done 0 false) 1 false;
}

abbrev twice_stopped : NatCache
twice_stopped = record twice {
  status = stopped;
  done = update (update (update none_done 0 false) 1 false) 1 true;
}

earlier_goroutine_not_stopped_example : twice_stopped.done 0 ≡ false
unfolding run
earlier_goroutine_not_stopped_example =
    earlier_goroutine_not_stopped keep false [] start_events (call_stop ∷ []) twice twice_stopped 0
      refl (omega arith) refl refl refl

abbrev ready_cache : NatCache
ready_cache = record (new true []) { status = ready }

abbrev stuck : NatCache
stuck = record {
  status = running;
  has_client = true;
  client_closed = false;
  cancel_func = some 0;
  records = [];
  count = 1;
  phase = update (update (update no_phase 0 spawned) 0 polling) 0 finished;
  done = update (update none_done 0 false) 0 true;
}

early_stop_leaves_running_example :
    (stuck.status ≡ running)
    × (stuck.phase 0 ≡ finished)
    × (stuck.count ≡ 1)
    × ((start stuck).1 ≡ err plain)
unfolding run start
early_stop_leaves_running_example =
    early_stop_leaves_running keep ready_cache stuck (ok tt) refl refl

-- A client that keeps the marked records, with a 0 for each commit.
abbrev log_client : Client ℕ
log_client = record { State = List ℕ; mark = λ r s. r ∷ s; commit = λ s. (0 ∷ s, ok tt) }

abbrev partition_of : Option Error → List ℕ → FetchPartition ℕ
partition_of e l = record { partition = pos 0; error = e; records = l }

abbrev batch : List (Fetch ℕ)
batch =
    record {
      topics =
          record {
            topic = codes "orders";
            partitions = partition_of none (1 ∷ 2 ∷ []) ∷ partition_of (some plain) (3 ∷ []) ∷ [];
          }
          ∷ [];
    }
    ∷ []

abbrev committed_offsets : Offsets
committed_offsets = (codes "orders", (pos 0, pos 4) ∷ []) ∷ []

abbrev end_offsets : Offsets
end_offsets = (codes "orders", (pos 0, pos 9) ∷ []) ∷ []

abbrev orders_lag : ConsumerLag
orders_lag = record {
  topic = codes "orders";
  partition = pos 0;
  committed_offset = pos 4;
  log_end_offset = pos 9;
  lag = pos 5;
}

collect_consumer_lag_lem_example :
    (lags : List ConsumerLag) × (collect_consumer_lag
        (λ g. ok committed_offsets)
        (λ ts. ok end_offsets)
        (codes "cache")
      ≡ ok lags)
    × (lag_at (codes "orders") (pos 0) lags ≡ some orders_lag)
unfolding dora_service_utils.Base.Dict.get dora_service_utils.Kafka.end_offset
    dora_service_utils.Base.Text.str_beq dora_service_utils.Kafka.lag_of
    dora_service_utils.Base.Word.◌-i◌ dora_service_utils.Base.Word.wrap64
    dora_service_utils.Base.Int.◌-ℤ◌
collect_consumer_lag_lem_example =
    collect_consumer_lag_lem (λ g. ok committed_offsets) (λ ts. ok end_offsets) (codes "cache")
      (codes "orders") (pos 0) committed_offsets end_offsets refl refl (refl, tt) (ground arith)
