-- ===== src/Worker/Loop.antt =====
-- `run`, `attach` and one round of `consume` of proxies/cmd/worker/main.go.
pub mod Answers
use proxy_harv.Prelude.{ℕ, ◌+◌, Bool, true, false, Option, none, some, List, [], ◌∷◌, ◌++◌}
use proxy_harv.Text.{Bytes, codes}
use proxy_harv.Floats.{Floats}
use proxy_harv.Wire.{JobNode, JobBatch, ResultsBatch, durable_for_validator}
use proxy_harv.Bus.{Given, fetch_msgs, handled, to_answer, left_over}
use proxy_harv.Streams.{ConsumerConfig, consumer}
use proxy_harv.Metrics.{Registry}
use proxy_harv.Worker.{Role, tester, validator, Prober, Clock, Answer, process_job}

-- What a worker consumes: a stream, a durable name, a filter, and how many messages it fetches.
pub record Consumption : Type 0 where
  pub stream : Bytes
  pub durable : Bytes
  pub filter : Bytes
  pub batch : ℕ

abbrev consumption : Bytes → Bytes → Bytes → ℕ → Consumption
consumption stream durable filter batch = record {
  stream = stream;
  durable = durable;
  filter = filter;
  batch = batch;
}

-- `run`: the calls of `consume`
unfoldable pub run_worker : Role → Bytes → ℕ → ℕ → ℕ → List Consumption
unfolding durable_for_validator
run_worker tester vantage batch_l0 batch_l1 batch_l2 =
    consumption (codes "JOBS_L0") (codes "workers-l0") (codes "jobs.l0.>") batch_l0
    ∷ consumption (codes "JOBS_L1") (codes "workers-l1") (codes "jobs.l1.>") batch_l1
    ∷ consumption (codes "JOBS_L2") (codes "workers-l2") (codes "jobs.l2.>") batch_l2
    ∷ []
run_worker validator vantage batch_l0 batch_l1 batch_l2 =
    consumption (codes "JOBS_VAL") (durable_for_validator vantage)
      (codes "jobs.validator." ++ vantage) batch_l1
    ∷ []

-- `attach`: the consumer that is there, or the one that is asked for
unfoldable pub attach : Option ConsumerConfig → Consumption → ConsumerConfig
unfolding consumer
attach (some there) c = there
attach none c = consumer c.stream c.durable c.filter

module _ (fl : Floats) where
  -- A round: the answers to the messages, the batches given to the bus, the messages refused and those
  -- left without an answer, and the registry.
  pub record JobRound {ℓ} (Msg : Type ℓ) : Type ℓ where
    pub answers : List (Msg × Answer)
    pub sent : List (ResultsBatch fl)
    pub refused : List Msg
    pub unanswered : List Msg
    pub registry : Registry fl

  module _ (p : Prober fl) (vantage : Bytes) (shuffle : List JobNode → List JobNode)
      (clock : ℕ → Clock fl) (published : ResultsBatch fl → Bool) where
    -- the loop over the jobs from the k-th on, one answer for each
    unfoldable pub process_each :
        ℕ → List JobBatch → Registry fl → List Answer × List (ResultsBatch fl) × Registry fl
    unfolding process_job
    process_each k [] reg = ([], [], reg)
    process_each k (job ∷ jobs) reg =
        let (out, answer, reg') = process_job fl p vantage (clock k) shuffle published job reg in
        let (answers, outs, reg'') = process_each (k + 1) jobs reg' in
        (answer ∷ answers, out ∷ outs, reg'')

    -- the message at the position of an answer
    unfoldable pub pair_up {ℓ} : {Msg : Type ℓ} → List Msg → List Answer → List (Msg × Answer)
    pair_up [] answers = []
    pair_up (m ∷ ms) [] = []
    pair_up (m ∷ ms) (a ∷ answers) = (m, a) ∷ pair_up ms answers

    -- one round of `consume`
    unfoldable pub jobs_round {ℓ} :
        {Msg : Type ℓ} → (Msg → Option JobBatch) → Given Msg → Registry fl → JobRound Msg
    unfolding process_each pair_up fetch_msgs handled to_answer left_over
    jobs_round decode given reg =
        let fetched = fetch_msgs decode given in
        let (answers, outs, reg') = process_each 0 (handled fetched) reg in
        record {
          answers = pair_up (to_answer fetched) answers;
          sent = outs;
          refused = fetched.refused;
          unanswered = left_over fetched;
          registry = reg';
        }
