-- ===== src/Coordinator/Plan.antt =====
-- `planJobs` and `publishBatched`, proxies/cmd/coordinator/plan.go. A failure of the database is not
-- modelled; a failure of the bus is the answer of a test on each batch.
pub mod Batches
pub mod Coverage
use proxy_harv.Prelude.{
  ℕ, zero, suc, ◌+◌, ◌-◌, ◌*◌, Bool, true, false, not, ◌&&◌, Option, none, some, List, [], ◌∷◌,
  ◌++◌, map, ltb, if◌then◌else◌, take, drop, length,
}
use proxy_harv.Text.{Bytes, codes, is_empty}
use proxy_harv.Text.Number.{ℤ, pos}
use proxy_harv.Runtime.{Runtime}
use proxy_harv.Floats.{Floats}
use proxy_harv.Parse.Line.{Node}
use proxy_harv.Model.{Stage, l0, l1, l2, val, Vantage, NodeRow, Tables, hour}
use proxy_harv.Model.Due.{nodes_due_l0, nodes_due_l1, nodes_for_l2, nodes_for_validation}
use proxy_harv.Model.Catalog.{list_vantages}
use proxy_harv.Wire.{JobNode, JobBatch}
use proxy_harv.Coordinator.Ingest.{node_of_uri}

-- The loop of `publishBatched` from the node `start` on: each round publishes nodes[start:end] and
-- goes on at start+batch. The fuel bounds the rounds; `none` means that it ran out.
unfoldable pub batches_from : Stage → Bytes → ℕ → ℕ → List JobNode → Option (List JobBatch)
batches_from stage vantage batch fuel [] = some []
batches_from stage vantage batch zero (n ∷ ns) = none
batches_from stage vantage batch (suc fuel) (n ∷ ns) =
    let rest = batches_from stage vantage batch fuel (drop batch (n ∷ ns)) in
    elim rest [
      | none ↦ none
      | some more ↦
          some (record { stage = stage; vantage = vantage; nodes = take batch (n ∷ ns) } ∷ more)
    ]

-- Publishing stops at the first batch that the bus refuses.
unfoldable pub published : (JobBatch → Bool) → List JobBatch → List JobBatch
published accepts [] = []
published accepts (b ∷ bs) = let rest = published accepts bs in if accepts b then b ∷ rest else []

abbrev or_nothing : Option (List JobBatch) → List JobBatch
or_nothing none = []
or_nothing (some bs) = bs

-- `publishBatched` for a batch size that is not 0; one round for each node is enough
unfoldable pub publish_batched :
    (JobBatch → Bool) → Stage → Bytes → List JobNode → ℕ → List JobBatch
unfolding batches_from published
publish_batched accepts stage vantage nodes batch =
    published accepts (or_nothing (batches_from stage vantage batch (length nodes) nodes))

pub record PlanConfig : Type 0 where
  pub batch_l0 : ℕ
  pub batch_l1 : ℕ
  pub batch_l2 : ℕ
  pub top_l2 : ℕ
  pub top_val : ℕ
  pub val_l2_top : ℕ

abbrev cloud_vantage : Bytes
cloud_vantage = codes "cloud-eu-1"

module _ (fl : Floats) (rt : Runtime) where
  abbrev port_of : Option Node → ℤ
  port_of none = pos 0
  port_of (some n) = n.port

  -- the port is no column; it is derived from the stored uri
  unfoldable pub l0_job : NodeRow fl → JobNode
  unfolding node_of_uri
  l0_job n = record {
    node_id = n.id;
    host = n.host;
    port = port_of (node_of_uri rt n.uri);
    transport = n.transport;
    outbound = none;
  }

  -- nodes whose link does not parse are left out
  unfoldable pub outbound_jobs : List (NodeRow fl) → List JobNode
  unfolding node_of_uri
  outbound_jobs [] = []
  outbound_jobs (n ∷ ns) =
      let rest = outbound_jobs ns in
      elim (node_of_uri rt n.uri) [
        | none ↦ rest
        | some p ↦
            record {
              node_id = n.id;
              host = [];
              port = pos 0;
              transport = [];
              outbound = some p.outbound;
            }
            ∷ rest
      ]

  module _ (accepts : JobBatch → Bool) (cfg : PlanConfig) (now : ℕ) (db : Tables fl) where
    unfoldable pub plan_l0 : List JobBatch
    unfolding publish_batched l0_job nodes_due_l0
    plan_l0 =
        publish_batched accepts l0 cloud_vantage
          (map l0_job (nodes_due_l0 fl now (cfg.batch_l0 * 4) db)) cfg.batch_l0

    unfoldable pub plan_l1 : List JobBatch
    unfolding publish_batched outbound_jobs nodes_due_l1
    plan_l1 =
        publish_batched accepts l1 cloud_vantage
          (outbound_jobs (nodes_due_l1 fl now (cfg.batch_l1 * 4) db)) cfg.batch_l1

    unfoldable pub plan_l2 : List JobBatch
    unfolding publish_batched outbound_jobs nodes_for_l2
    plan_l2 =
        publish_batched accepts l2 cloud_vantage
          (outbound_jobs (nodes_for_l2 fl now cfg.top_l2 (24 * hour) (cfg.batch_l2 * 10) db))
          cfg.batch_l2

    -- the jobs of one edge vantage: L1 for the top nodes, L2 for the best few of them
    unfoldable pub plan_edge : Bytes → List JobBatch
    unfolding publish_batched outbound_jobs nodes_for_validation
    plan_edge vantage =
        let nodes = outbound_jobs (nodes_for_validation fl now vantage cfg.top_val db) in
        publish_batched accepts val vantage nodes cfg.batch_l1
        ++ publish_batched accepts l2 vantage (take cfg.val_l2_top nodes) cfg.batch_l2

    unfoldable pub plan_vantages : List Vantage → List JobBatch
    unfolding plan_edge
    plan_vantages [] = []
    plan_vantages (v ∷ vs) =
        let rest = plan_vantages vs in if v.is_edge_kind then plan_edge v.id ++ rest else rest

    -- `planJobs`: what it publishes, in order
    unfoldable pub plan_jobs : List JobBatch
    unfolding plan_l0 plan_l1 plan_l2 plan_vantages list_vantages
    plan_jobs = plan_l0 ++ (plan_l1 ++ (plan_l2 ++ plan_vantages (list_vantages fl true db)))
