-- ===== src/Kafka/Lag.antt =====
-- The lags that kafka/lag.go collects.
use dora_service_utils.Base.{
  ◌+◌, ◌-◌, ◌≡◌, ◌∙◌, refl, false, ◌&&◌, List, [], ◌∷◌, ◌++◌, Option, none, some, arith,
  if◌then◌else◌,
}
use dora_service_utils.Base.Int.{ℤ, pos, pos_part, neg_part, ◌-ℤ◌, int_eq, beq_ℤ, beq_ℤ_iff}
use dora_service_utils.Base.Text.{Str, str_beq, str_eq, str_beq_iff}
use dora_service_utils.Base.Word.{InI64, ◌-i◌, wrap64_id}
use dora_service_utils.Base.Dict.{Dict, get, IsMap}
use dora_service_utils.Base.Result.{Result, ok}
use dora_service_utils.Kafka.{
  ConsumerLag, Offsets, end_offset, lag_of, partition_lags, topic_lags, topics_of,
  collect_consumer_lag,
}

-- The entry of a topic and a partition.
abbrev pub lag_at : Str → ℤ → List ConsumerLag → Option ConsumerLag
lag_at tp p [] = none
lag_at tp p (l ∷ ls) = if str_beq l.topic tp && beq_ℤ l.partition p then some l else lag_at tp p ls

-- The entry that the loop makes of a committed offset and the end of the log.
abbrev entry : Str → ℤ → Option ℤ → Option ℤ → Option ConsumerLag
entry tp p (some committed) (some log_end) = some (record {
  topic = tp;
  partition = p;
  committed_offset = committed;
  log_end_offset = log_end;
  lag = lag_of log_end committed;
})
entry tp p _ _ = none

abbrev or_else : Option ConsumerLag → Option ConsumerLag → Option ConsumerLag
or_else none b = b
or_else (some a) b = some a

lag_at-append :
    (tp : Str) (p : ℤ) (xs ys : List ConsumerLag)
    → lag_at tp p (xs ++ ys) ≡ or_else (lag_at tp p xs) (lag_at tp p ys)
lag_at-append tp p [] ys = refl
lag_at-append tp p (x ∷ xs) ys = ground (arith, lag_at-append tp p xs ys)

lag_at-partition_lags :
    (ends : Offsets) (tp : Str) (p : ℤ) (d : Dict ℤ ℤ)
    → lag_at tp p (partition_lags ends tp d) ≡ entry tp p (get p d) (end_offset ends tp p)
unfolding partition_lags get
lag_at-partition_lags ends tp p [] = refl
lag_at-partition_lags ends tp p ((q, c) ∷ d) =
    ground (arith, lag_at-partition_lags ends tp p d, beq_ℤ_iff q p, str_beq_iff tp tp)

other_topic :
    (ends : Offsets) (tp tp' : Str) (p : ℤ) (d : Dict ℤ ℤ)
    → str_beq tp' tp ≡ false
    → lag_at tp p (partition_lags ends tp' d) ≡ none
unfolding partition_lags
other_topic ends tp tp' p [] h = refl
other_topic ends tp tp' p ((q, c) ∷ d) h = ground (arith, other_topic ends tp tp' p d h)

topic_lags-none :
    (ends offsets : Offsets) (tp : Str) (p : ℤ)
    → get tp offsets ≡ none
    → lag_at tp p (topic_lags ends offsets) ≡ none
unfolding topic_lags get
topic_lags-none ends [] tp p h = refl
topic_lags-none ends ((t, d) ∷ offsets) tp p h =
    rw (lag_at-append tp p (partition_lags ends t d) (topic_lags ends offsets)) (
      rw (other_topic ends tp t p d (ground arith))
        (topic_lags-none ends offsets tp p (ground arith)))

lag_at-topic_lags :
    (ends offsets : Offsets) (tp : Str) (p : ℤ)
    → IsMap offsets
    → lag_at tp p (topic_lags ends offsets)
      ≡ entry tp p (end_offset offsets tp p) (end_offset ends tp p)
unfolding topic_lags end_offset get
lag_at-topic_lags ends [] tp p h = refl
lag_at-topic_lags ends ((t, d) ∷ offsets) tp p h =
    rw (lag_at-append tp p (partition_lags ends t d) (topic_lags ends offsets)) (
      ground (
        arith,
        lag_at-partition_lags ends tp p d,
        topic_lags-none ends offsets tp p,
        other_topic ends tp t p d,
        lag_at-topic_lags ends offsets tp p h.1,
        str_beq_iff t tp,
        h.0,
      ))

-- The entry for a committed offset and the end of the log, where both are known: the lag is how far
-- the end lies behind the committed offset, and 0 where it lies before it.
abbrev pub expected : Str → ℤ → Option ℤ → Option ℤ → Option ConsumerLag
expected tp p (some committed) (some log_end) = some (record {
  topic = tp;
  partition = p;
  committed_offset = committed;
  log_end_offset = log_end;
  lag = pos (pos_part log_end + neg_part committed - (pos_part committed + neg_part log_end));
})
expected tp p _ _ = none

-- The distance between two offsets that are known is an int64.
abbrev pub AreNear : Option ℤ → Option ℤ → Type 0
AreNear (some committed) (some log_end) = InI64 (log_end -ℤ committed)
AreNear _ _ = Unit

-- A distance that an int64 holds is the lag, or 0 where it is negative.
lag_of_exact :
    (log_end committed : ℤ)
    → InI64 (log_end -ℤ committed)
    → lag_of log_end committed
      ≡ pos (pos_part log_end + neg_part committed - (pos_part committed + neg_part log_end))
unfolding lag_of ◌-i◌ ◌-ℤ◌
lag_of_exact e c h = ground (arith, wrap64_id (e -ℤ c) h)

entry-expected :
    (tp : Str) (p : ℤ) (committed log_end : Option ℤ)
    → AreNear committed log_end
    → entry tp p committed log_end ≡ expected tp p committed log_end
entry-expected tp p (some c) (some e) h = rw (lag_of_exact e c h) refl
entry-expected tp p (some c) none h = refl
entry-expected tp p none (some e) h = refl
entry-expected tp p none none h = refl

-- CollectConsumerLag, where the offsets and the ends of the logs have been fetched, and the distance
-- between the two offsets of the partition, if both are known, is an int64: it succeeds, and its entry
-- for a topic and a partition is there exactly where the partition has a committed offset and an end,
-- with these two and how far the end lies behind the committed offset, or 0 where it lies before it.
pub collect_consumer_lag_lem :
    (fetch_offsets : Str → Result Offsets) (list_end_offsets : List Str → Result Offsets)
    (group tp : Str) (p : ℤ) (offsets ends : Offsets)
    → fetch_offsets group ≡ ok offsets
    → list_end_offsets (topics_of offsets) ≡ ok ends
    → IsMap offsets
    → AreNear (end_offset offsets tp p) (end_offset ends tp p)
    → (lags : List ConsumerLag) × (collect_consumer_lag fetch_offsets list_end_offsets group
        ≡ ok lags)
      × (lag_at tp p lags ≡ expected tp p (end_offset offsets tp p) (end_offset ends tp p))
unfolding collect_consumer_lag
collect_consumer_lag_lem fetch list_ends group tp p offsets ends f l h near = (
  topic_lags ends offsets,
  ground (arith, f, l),
  lag_at-topic_lags ends offsets tp p h
      ∙ entry-expected tp p (end_offset offsets tp p) (end_offset ends tp p) near,
)
