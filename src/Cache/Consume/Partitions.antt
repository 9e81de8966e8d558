-- ===== src/Cache/Consume/Partitions.antt =====
-- processRecordsFunc of cache/options.go, read as one loop over the partitions of a batch.
use dora_service_utils.Base.{◌≡◌, ◌⊎◌, List, [], ◌∷◌, ◌++◌, none, some}
use dora_service_utils.Base.Result.{Result, ok, err, Error}
use dora_service_utils.Cache.Consume.{FetchPartition, FetchTopic, Fetch, Client, mark_records}

module _ {Rec : Type 0} where
  abbrev pub partitions_of : List (FetchTopic Rec) → List (FetchPartition Rec)
  partitions_of [] = []
  partitions_of (t ∷ ts) = t.partitions ++ partitions_of ts

  -- The partitions of a batch, in the order of the loops.
  abbrev pub all_partitions : List (Fetch Rec) → List (FetchPartition Rec)
  all_partitions [] = []
  all_partitions (f ∷ fetches) = partitions_of f.topics ++ all_partitions fetches

module _ {Rec : Type 0} (client : Client Rec) where
  open client use {State, mark, commit}

  abbrev Outcome : Type 0
  Outcome = State × Result (Unit {0})

  -- The client after the partitions have been marked and committed, one after the other.
  abbrev pub consumed : List (FetchPartition Rec) → State → State
  consumed [] c = c
  consumed (p ∷ ps) c = consumed ps (commit (mark_records client p.records c)).0

  -- No partition has an error, and each commit succeeds.
  abbrev pub AllCommitted : List (FetchPartition Rec) → State → Type 0
  AllCommitted [] c = Unit
  AllCommitted (p ∷ ps) c =
      (p.error ≡ none)
      × ((commit (mark_records client p.records c)).1 ≡ ok tt)
      × AllCommitted ps (commit (mark_records client p.records c)).0

  -- The loop ends at a partition that was fetched with an error, or whose commit fails.
  abbrev pub EndsAt : List (FetchPartition Rec) → State → State → Error → Type 0
  EndsAt ps c d e =
      (before after : List (FetchPartition Rec)) × (p : FetchPartition Rec) × (ps
        ≡ before ++ p ∷ after)
      × AllCommitted before c
      × (((p.error ≡ some e) × (d ≡ consumed before c))
          ⊎ ((p.error ≡ none)
              × (commit (mark_records client p.records (consumed before c)) ≡ (d, err e))))

  abbrev pub Consumes : List (FetchPartition Rec) → State → Outcome → Type 0
  Consumes ps c (d, ok u) = AllCommitted ps c × (d ≡ consumed ps c)
  Consumes ps c (d, err e) = EndsAt ps c d e
