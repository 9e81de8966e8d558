-- ===== src/Cache/Consume.antt =====
-- processRecordsFunc of cache/options.go, what a cache does with a batch where no function is given:
-- it logs and marks the records and commits after each partition. The Kafka client is a state with
-- its two calls.
pub mod Partitions
use dora_service_utils.Base.{
  ◌≡◌, refl, ap, ◌∙◌, ◌⊎◌, inl, inr, List, [], ◌∷◌, ◌++◌, Option, none, some, arith,
}
use dora_service_utils.Base.Int.{ℤ}
use dora_service_utils.Base.Text.{Str}
use dora_service_utils.Base.Result.{Result, ok, err, Error}

-- `Rec` is *kgo.Record.
pub record FetchPartition (Rec : Type 0) : Type 0 where
  pub partition : ℤ
  pub error : Option Error
  pub records : List Rec

pub record FetchTopic (Rec : Type 0) : Type 0 where
  pub topic : Str
  pub partitions : List (FetchPartition Rec)

pub record Fetch (Rec : Type 0) : Type 0 where
  pub topics : List (FetchTopic Rec)

-- MarkCommitRecords and CommitMarkedOffsets.
pub record Client (Rec : Type 0) : Type 1 where
  pub State : Type 0
  pub mark : Rec → State → State
  pub commit : State → State × Result (Unit {0})

module _ {Rec : Type 0} (client : Client Rec) where
  open client use {State, mark, commit}

  -- What a loop that may return early goes on with.
  abbrev pub continue :
      State × Result (Unit {0}) → (State → State × Result (Unit {0})) → State × Result (Unit {0})
  continue (c, ok u) rest = rest c
  continue (c, err e) rest = (c, err e)

  unfoldable pub mark_records : List Rec → State → State
  mark_records [] c = c
  mark_records (r ∷ records) c = mark_records records (mark r c)

  unfoldable pub process_partition : FetchPartition Rec → State → State × Result (Unit {0})
  unfolding mark_records
  process_partition p c = elim p.error [
    | some e ↦ (c, err e)
    | none ↦ commit (mark_records p.records c)
  ]

  unfoldable pub process_partitions : List (FetchPartition Rec) → State → State × Result (Unit {0})
  unfolding process_partition
  process_partitions [] c = (c, ok tt)
  process_partitions (p ∷ ps) c = continue (process_partition p c) (λ d. process_partitions ps d)

  unfoldable pub process_topics : List (FetchTopic Rec) → State → State × Result (Unit {0})
  unfolding process_partitions
  process_topics [] c = (c, ok tt)
  process_topics (t ∷ ts) c =
      continue (process_partitions t.partitions c) (λ d. process_topics ts d)

  unfoldable pub process_records : List (Fetch Rec) → State → State × Result (Unit {0})
  unfolding process_topics
  process_records [] c = (c, ok tt)
  process_records (f ∷ fetches) c =
      continue (process_topics f.topics c) (λ d. process_records fetches d)
