-- ===== src/Streams.antt =====
-- The streams, buckets and consumers that proxies/internal/natsb/natsb.go asks JetStream for, and the
-- consumers that proxies/cmd/coordinator asks for. How a filter matches a subject is JetStream's: it
-- is an argument where it is used. Durations are nanoseconds.
pub mod Unheard
use proxy_harv.Prelude.{
  ℕ, ◌*◌, ◌^◌, Bool, true, false, ◌||◌, Option, none, some, List, [], ◌∷◌, ◌++◌, if◌then◌else◌,
}
use proxy_harv.Text.{Bytes, codes, str_eq}
use proxy_harv.Model.{second, hour}
use proxy_harv.Wire.{durable_for_validator}

pub data Retention : Type 0 where
  interest work_queue limits : Retention

-- `jetstream.StreamConfig`; every stream is kept in files and discards its oldest messages
pub record StreamConfig : Type 0 where
  pub name : Bytes
  pub subject : Bytes
  pub retention : Retention
  pub max_bytes : ℕ

abbrev pub stream : Bytes → Bytes → Retention → ℕ → StreamConfig
stream name subject retention max_bytes = record {
  name = name;
  subject = subject;
  retention = retention;
  max_bytes = max_bytes;
}

abbrev pub gb : ℕ
gb = 2 ^ 30

-- `ensureAll`: the streams, in the order in which they are asked for
unfoldable pub streams : ℕ → List StreamConfig
streams unit =
    stream (codes "RAW") (codes "raw.import") interest (1 * unit)
    ∷ stream (codes "JOBS_L0") (codes "jobs.l0.>") work_queue (5 * unit)
    ∷ stream (codes "JOBS_L1") (codes "jobs.l1.>") work_queue (5 * unit)
    ∷ stream (codes "JOBS_L2") (codes "jobs.l2.>") work_queue (1 * unit)
    ∷ stream (codes "JOBS_VAL") (codes "jobs.validator.>") work_queue (1 * unit)
    ∷ stream (codes "RESULTS") (codes "results.>") interest (5 * unit)
    ∷ stream (codes "DLQ") (codes "$JS.EVENT.ADVISORY.CONSUMER.MAX_DELIVERIES.>") limits (1 * unit)
    ∷ []

-- `jetstream.ConsumerConfig`; every consumer acknowledges explicitly and starts at the first message
pub record ConsumerConfig : Type 0 where
  pub stream : Bytes
  pub durable : Bytes
  pub filter : Bytes
  pub max_deliver : ℕ
  pub ack_wait : ℕ

unfoldable pub ack_wait_of : Bytes → ℕ
unfolding str_eq
ack_wait_of name =
    if str_eq name (codes "JOBS_L2")
    then 600 * second
    else if str_eq name (codes "RAW") || str_eq name (codes "RESULTS")
    then 120 * second
    else 300 * second

-- `EnsureConsumer`: what it asks for
unfoldable pub consumer : Bytes → Bytes → Bytes → ConsumerConfig
unfolding ack_wait_of
consumer name durable filter = record {
  stream = name;
  durable = durable;
  filter = filter;
  max_deliver = 3;
  ack_wait = ack_wait_of name;
}

-- the consumers that `run` of the coordinator asks for before it publishes
unfoldable pub start_consumers : List ConsumerConfig
unfolding consumer
start_consumers =
    consumer (codes "RAW") (codes "coordinator-raw") (codes "raw.import")
    ∷ consumer (codes "RESULTS") (codes "coordinator-results") (codes "results.>")
    ∷ consumer (codes "JOBS_L0") (codes "workers-l0") (codes "jobs.l0.>")
    ∷ consumer (codes "JOBS_L1") (codes "workers-l1") (codes "jobs.l1.>")
    ∷ consumer (codes "JOBS_L2") (codes "workers-l2") (codes "jobs.l2.>")
    ∷ []

unfoldable pub validator_filter : Bytes → Bytes
validator_filter vantage = codes "jobs.validator." ++ (vantage ++ codes ".>")

-- the consumer that `watchVantages` asks for when a validator has sent a heartbeat
unfoldable pub validator_consumer : Bytes → Bytes → Option ConsumerConfig
unfolding consumer validator_filter str_eq durable_for_validator
validator_consumer vantage role =
    if str_eq role (codes "validator")
    then some
        (consumer (codes "JOBS_VAL") (durable_for_validator vantage) (validator_filter vantage))
    else none
