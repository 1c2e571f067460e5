-- ===== src/Coordinator/Consuming.antt =====
-- One round of the loops `consumeRaw` and `consumeResults` of proxies/cmd/coordinator/consume.go: what
-- `FetchMsgs` hands on is ingested message by message, and each message is acknowledged behind it.
pub mod Delivery
use proxy_harv.Prelude.{ℕ, ◌+◌, Option, none, some, List, [], ◌∷◌, ◌++◌}
use proxy_harv.Text.{Bytes}
use proxy_harv.Floats.{Floats}
use proxy_harv.Model.{Tables}
use proxy_harv.Wire.{RawBatch, JobBatch, ResultsBatch}
use proxy_harv.Bus.{Given, fetch_msgs, handled, to_answer, left_over}
use proxy_harv.Coordinator.Ingest.{Located, Context, ingest_batch, ingest_results}

module _ (fl : Floats) where
  -- A round: the tables, the jobs published, and the messages acknowledged, refused, and left without
  -- an answer.
  pub record Round {ℓ} (Msg : Type ℓ) : Type ℓ where
    pub tables : Tables fl
    pub jobs : List JobBatch
    pub acknowledged : List Msg
    pub refused : List Msg
    pub unanswered : List Msg

  -- the batches from the k-th on, each with the context at its time
  unfoldable pub ingest_each :
      (ℕ → Context fl) → ℕ → List (ResultsBatch fl) → Tables fl → Tables fl × List JobBatch
  unfolding ingest_results
  ingest_each context k [] db = (db, [])
  ingest_each context k (b ∷ bs) db =
      let (db', jobs) = ingest_results fl (context k) b db in
      let (db'', more) = ingest_each context (k + 1) bs db' in (db'', jobs ++ more)

  -- `consumeResults`
  unfoldable pub results_round {ℓ} :
      {Msg : Type ℓ}
      → (Msg → Option (ResultsBatch fl))
      → (ℕ → Context fl)
      → Given Msg
      → Tables fl
      → Round Msg
  unfolding ingest_each fetch_msgs handled to_answer left_over
  results_round decode context given db =
      let fetched = fetch_msgs decode given in
      let (db', jobs) = ingest_each context 0 (handled fetched) db in
      record {
        tables = db';
        jobs = jobs;
        acknowledged = to_answer fetched;
        refused = fetched.refused;
        unanswered = left_over fetched;
      }

  unfoldable pub ingest_raws :
      (ℕ → ℕ) → Option (Bytes → Located fl) → ℕ → List RawBatch → Tables fl → Tables fl
  unfolding ingest_batch
  ingest_raws now locate k [] db = db
  ingest_raws now locate k (b ∷ bs) db =
      ingest_raws now locate (k + 1) bs (ingest_batch fl (now k) locate b.nodes db)

  -- `consumeRaw`
  unfoldable pub raw_round {ℓ} :
      {Msg : Type ℓ}
      → (Msg → Option RawBatch)
      → (ℕ → ℕ)
      → Option (Bytes → Located fl)
      → Given Msg
      → Tables fl
      → Round Msg
  unfolding ingest_raws fetch_msgs handled to_answer left_over
  raw_round decode now locate given db =
      let fetched = fetch_msgs decode given in
      record {
        tables = ingest_raws now locate 0 (handled fetched) db;
        jobs = [];
        acknowledged = to_answer fetched;
        refused = fetched.refused;
        unanswered = left_over fetched;
      }
