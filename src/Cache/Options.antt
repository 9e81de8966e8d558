-- ===== src/Cache/Options.antt =====
-- cache/options.go: the options of a cache, and the client that Init makes from them. An option is a
-- function on the options. `C` is the client, `P` the function that processes a batch and `L` the
-- logger; a duration is an int64.
use dora_service_utils.Base.{◌&&◌, List, [], ◌∷◌, ◌++◌, Option, none, some, if◌then◌else◌}
use dora_service_utils.Base.Int.{ℤ, pos}
use dora_service_utils.Base.Text.{Str, codes}
use dora_service_utils.Base.Result.{Result, ok}
use dora_service_utils.Kafka.{
  ClientOpt, seed_brokers, consume_topics, consumer_group_opt, sasl_plain, is_set, consumer_group,
}
use dora_service_utils.Kafka.Settings
use dora_service_utils.Kafka.Settings.{Config}

pub record Options (C P L : Type 0) : Type 0 where
  pub config : Config
  pub topics : List Str
  pub group : Str
  pub poll_timeout : ℤ
  pub max_poll_records : ℤ
  pub user_id : Str
  pub password : Str
  pub process_func : P
  pub logger : L
  pub client : Option C
  pub process_timeout : ℤ

-- time.Second
abbrev second : ℤ
second = pos 1_000_000_000

module _ {C P L : Type 0} where
  abbrev pub with_kafka_config : Config → Options C P L → Options C P L
  with_kafka_config config o = record o { config = config }

  abbrev pub with_brokers : List Str → Options C P L → Options C P L
  with_brokers brokers o = record o { config = record o.config { brokers = brokers } }

  abbrev pub with_consume_topics : List Str → Options C P L → Options C P L
  with_consume_topics topics o = record o { topics = topics }

  abbrev pub with_consumer_group : Str → Options C P L → Options C P L
  with_consumer_group group o = record o { group = group }

  abbrev pub with_poll_timeout : ℤ → Options C P L → Options C P L
  with_poll_timeout timeout o = record o { poll_timeout = timeout }

  abbrev pub with_max_poll_records : ℤ → Options C P L → Options C P L
  with_max_poll_records records o = record o { max_poll_records = records }

  abbrev pub with_user_id : Str → Options C P L → Options C P L
  with_user_id user_id o = record o { user_id = user_id }

  abbrev pub with_password : Str → Options C P L → Options C P L
  with_password password o = record o { password = password }

  abbrev pub with_process_func : P → Options C P L → Options C P L
  with_process_func process_func o = record o { process_func = process_func }

  abbrev pub with_logger : L → Options C P L → Options C P L
  with_logger logger o = record o { logger = logger }

  abbrev pub with_client : C → Options C P L → Options C P L
  with_client client o = record o { client = some client }

  abbrev pub with_process_timeout : ℤ → Options C P L → Options C P L
  with_process_timeout timeout o = record o { process_timeout = timeout }

  -- The arguments are processRecordsFunc and the logger on Stderr.
  abbrev pub default_options : P → L → Options C P L
  default_options process_records stderr = record {
    config = Settings.default_config;
    topics = [];
    group = [];
    poll_timeout = second;
    max_poll_records = pos 0;
    user_id = [];
    password = [];
    process_func = process_records;
    logger = stderr;
    client = none;
    process_timeout = second;
  }

  apply_from : Options C P L → List (Options C P L → Options C P L) → Options C P L
  apply_from opts [] = opts
  apply_from opts (apply ∷ options) = apply_from (apply opts) options

  unfoldable pub apply_options : P → L → List (Options C P L → Options C P L) → Options C P L
  unfolding apply_from
  apply_options process_records stderr options =
      apply_from (default_options process_records stderr) options

  -- The options that Init gives to kgo.NewClient; the arguments are what kafka.ConsumerGroup reads.
  unfoldable pub client_options : Str → Result (List Str) → Options C P L → List ClientOpt
  client_options hostname interfaces o =
      (seed_brokers o.config.brokers ∷ [])
      ++ (consume_topics o.topics ∷ [])
      ++ (if is_set o.group
          then consumer_group_opt o.group ∷ []
          else consumer_group_opt (consumer_group hostname interfaces (codes "cache")) ∷ [])
      ++ (if is_set o.user_id && is_set o.password
          then sasl_plain o.user_id o.password ∷ []
          else [])

  -- The client that Init leaves in the options.
  unfoldable pub init_client :
      (List ClientOpt → Result C) → Str → Result (List Str) → Options C P L → Result C
  unfolding client_options
  init_client new_client hostname interfaces o = elim o.client [
    | some c ↦ ok c
    | none ↦ new_client (client_options hostname interfaces o)
  ]
