-- ===== src/Kafka.antt =====
-- kafka/client.go, kafka/helper.go, kafka/service.go and kafka/lag.go. The Kafka client, protobuf and
-- the environment are parameters.
pub mod Settings
pub mod Lag
use dora_service_utils.Base.{
  Bool, not, ◌&&◌, List, [], ◌∷◌, ◌++◌, Option, none, some, if◌then◌else◌, ltb, length,
}
use dora_service_utils.Base.Int.{ℤ, pos, ltb_ℤ}
use dora_service_utils.Base.Word.{◌-i◌}
use dora_service_utils.Base.Text.{Str, join, str_beq, str_eq, hyphen, codes}
use dora_service_utils.Base.Int.{int_eq}
use dora_service_utils.Base.Dict.{Dict, get}
use dora_service_utils.Base.Result.{Result, ok, err, Error, plain, wrap_error, ◌>>=◌}
use dora_service_utils.Kafka.Settings.{Config}

-- kgo.Opt, by the functions that make the options.
pub data ClientOpt : Type 0 where
  seed_brokers consume_topics : List Str → ClientOpt
  default_produce_topic consumer_group_opt : Str → ClientOpt
  sasl_plain : Str → Str → ClientOpt

abbrev pub is_set : Str → Bool
is_set s = not (str_beq s [])

-- The options that NewClient gives to kgo.NewClient.
unfoldable pub new_client_options : Config → Str → Str → List Str → List ClientOpt
new_client_options config produce_topic consumer_group consume =
    (seed_brokers config.brokers ∷ [])
    ++ (if is_set produce_topic then default_produce_topic produce_topic ∷ [] else [])
    ++ (if is_set consumer_group then consumer_group_opt consumer_group ∷ [] else [])
    ++ (if ltb 0 (length consume) then consume_topics consume ∷ [] else [])
    ++ (if is_set config.authentication.username && is_set config.authentication.password
        then sasl_plain config.authentication.username config.authentication.password ∷ []
        else [])

-- NewClient over kgo.NewClient.
unfoldable pub new_client :
    {C : Type 0} → (List ClientOpt → Result C) → Config → Str → Str → List Str → Result C
unfolding new_client_options
new_client kgo config produce_topic consumer_group consume =
    kgo (new_client_options config produce_topic consumer_group consume)

-- The hardware addresses that are not empty, from net.Interfaces.
set_addresses : List Str → List Str
set_addresses [] = []
set_addresses (a ∷ l) = if is_set a then a ∷ set_addresses l else set_addresses l

unfoldable pub get_mac_addr : Result (List Str) → Result (List Str)
unfolding set_addresses
get_mac_addr interfaces = do l ← interfaces; ok (set_addresses l)

-- ConsumerGroup, from the variable HOSTNAME and the interfaces.
unfoldable pub consumer_group : Str → Result (List Str) → Str → Str
unfolding get_mac_addr join
consumer_group hostname interfaces component =
    if is_set hostname then hostname ++ (hyphen ∷ component) else elim (get_mac_addr interfaces) [
      | err e ↦ component
      | ok mac ↦ join (codes ":") mac ++ (hyphen ∷ component)
    ]

pub record Record : Type 0 where
  pub topic : Str
  pub value : Str

-- The records of SendMessageToTopic, over proto.Marshal.
unfoldable pub records_of : {M : Type 0} → (M → Result Str) → Str → List M → Result (List Record)
records_of marshal topic [] = ok []
records_of marshal topic (msg ∷ messages) = elim (marshal msg) [
  | err e ↦ err plain
  | ok bs ↦ do
    rs ← records_of marshal topic messages
    ok (record { topic = topic; value = bs } ∷ rs)
]

-- SendMessageToTopic: the records given to ProduceSync, if it is called, and the result.
unfoldable pub send_message_to_topic :
    {M : Type 0}
    → (M → Result Str)
    → (List Record → Result (Unit {0}))
    → Str
    → List M
    → Option (List Record) × Result (Unit {0})
unfolding records_of
send_message_to_topic marshal produce_sync topic messages =
    elim (records_of marshal topic messages) [
      | err e ↦ (none, err e)
      | ok rs ↦ (some rs, produce_sync rs)
    ]

pub record ConsumerLag : Type 0 where
  pub topic : Str
  pub partition : ℤ
  pub committed_offset : ℤ
  pub log_end_offset : ℤ
  pub lag : ℤ

-- kadm.OffsetResponses and kadm.ListedOffsets, with the offsets alone.
abbrev pub Offsets : Type 0
Offsets = Dict Str (Dict ℤ ℤ)

-- `endOffsetsResp[tp][partition]`
unfoldable pub end_offset : Offsets → Str → ℤ → Option ℤ
end_offset ends tp partition = elim (get tp ends) [ none ↦ none | some d ↦ get partition d ]

unfoldable pub lag_of : ℤ → ℤ → ℤ
lag_of log_end committed =
    let lag = log_end -i committed in if ltb_ℤ lag (pos 0) then pos 0 else lag

unfoldable pub partition_lags : Offsets → Str → Dict ℤ ℤ → List ConsumerLag
unfolding end_offset lag_of
partition_lags ends tp [] = []
partition_lags ends tp ((partition, committed) ∷ d) =
    let rest = partition_lags ends tp d in
    elim (end_offset ends tp partition) [
      | none ↦ rest
      | some log_end ↦
          record {
            topic = tp;
            partition = partition;
            committed_offset = committed;
            log_end_offset = log_end;
            lag = lag_of log_end committed;
          }
          ∷ rest
    ]

unfoldable pub topic_lags : Offsets → Offsets → List ConsumerLag
unfolding partition_lags
topic_lags ends [] = []
topic_lags ends ((tp, d) ∷ offsets) = partition_lags ends tp d ++ topic_lags ends offsets

unfoldable pub topics_of : Offsets → List Str
topics_of [] = []
topics_of ((tp, d) ∷ offsets) = tp ∷ topics_of offsets

-- CollectConsumerLag, over FetchOffsets and ListEndOffsets of the admin client.
unfoldable pub collect_consumer_lag :
    (Str → Result Offsets) → (List Str → Result Offsets) → Str → Result (List ConsumerLag)
unfolding topic_lags topics_of
collect_consumer_lag fetch_offsets list_end_offsets group = do
  offsets ← wrap_error (fetch_offsets group)
  ends ← wrap_error (list_end_offsets (topics_of offsets))
  ok (topic_lags ends offsets)
