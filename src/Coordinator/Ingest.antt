-- ===== src/Coordinator/Ingest.antt =====
-- `ingestBatch`, `ingestResults`, `enqueueL1` and the heartbeat handler of
-- proxies/cmd/coordinator/consume.go. A failure of the database or of the bus is not modelled.
pub mod Redelivery
pub mod Safe
pub mod Repeat
pub mod Overtaken
use proxy_harv.Prelude.{
  ℕ, ◌/◌, Bool, true, false, ◌&&◌, Option, none, some, List, [], ◌∷◌, ◌++◌, if◌then◌else◌,
}
use proxy_harv.Text.{Bytes, codes, is_empty, str_eq, strip_prefix}
use proxy_harv.Text.Number.{pos}
use proxy_harv.Runtime.{Runtime}
use proxy_harv.Floats.{Floats}
use proxy_harv.Parse.Error.{Result, ok, err}
use proxy_harv.Parse.Line.{Node, parse_line}
use proxy_harv.Model.{Stage, l0, l1, same_stage, second, Vantage, Check, Tables}
use proxy_harv.Model.Store.{NewNode, get_node, upsert_node, insert_check, update_node_geo}
use proxy_harv.Model.Catalog.{upsert_vantage}
use proxy_harv.Wire.{RawNode, JobNode, JobBatch, ResultItem, ResultsBatch}
use proxy_harv.Score.{Weights}
use proxy_harv.Coordinator.Aggregate.{recompute_node}

-- the node of a stored link, if it parses
unfoldable pub node_of_uri : Runtime → Bytes → Option Node
unfolding parse_line
node_of_uri rt uri = elim (parse_line rt uri) [ ok n ↦ n | err e ↦ none ]

module _ (fl : Floats) where
  open fl use {F}

  -- What `Locate` finds for a host: the address, and country, city and position if the lookup
  -- succeeded.
  pub record Located : Type 0 where
    pub ip : Bytes
    pub place : Option (Bytes × Bytes × F × F)

  unfoldable pub locate_node : (Bytes → Located) → ℕ → Bytes → Tables fl → Tables fl
  unfolding update_node_geo
  locate_node locate i host db =
      let found = locate host in
      elim found.place [
        | none ↦ update_node_geo fl i found.ip none none none none db
        | some (cc, city, lat, lon) ↦
            update_node_geo fl i found.ip (some cc) (some city) (some lat) (some lon) db
      ]

  -- one link of a batch; `locate` is absent when the coordinator has no geo database
  unfoldable pub ingest_raw : ℕ → Option (Bytes → Located) → RawNode → Tables fl → Tables fl
  unfolding upsert_node locate_node
  ingest_raw now locate rn db =
      let n : NewNode fl = record {
        uri_hash = rn.uri_hash;
        uri = rn.uri;
        protocol = rn.protocol;
        transport = rn.transport;
        host = rn.host;
      } in
      let (db', i, created) = upsert_node fl now n db in
      elim locate [
        | none ↦ db'
        | some find ↦ if created then locate_node find i rn.host db' else db'
      ]

  -- `ingestBatch`
  unfoldable pub ingest_batch : ℕ → Option (Bytes → Located) → List RawNode → Tables fl → Tables fl
  unfolding ingest_raw
  ingest_batch now locate [] db = db
  ingest_batch now locate (rn ∷ rns) db = ingest_batch now locate rns (ingest_raw now locate rn db)

  abbrev outbound_job : ℕ → Node → JobNode
  outbound_job i n = record {
    node_id = i;
    host = [];
    port = pos 0;
    transport = [];
    outbound = some n.outbound;
  }

  unfoldable pub l1_node : Runtime → Tables fl → ℕ → List JobNode
  unfolding get_node node_of_uri
  l1_node rt db i = elim (get_node fl db i) [
    | none ↦ []
    | some row ↦ (elim (node_of_uri rt row.uri) [ none ↦ [] | some n ↦ outbound_job i n ∷ [] ])
  ]

  abbrev cloud_vantage : Bytes
  cloud_vantage = codes "cloud-eu-1"

  abbrev l1_batch : List JobNode → List JobBatch
  l1_batch [] = []
  l1_batch (n ∷ ns) = record { stage = l1; vantage = cloud_vantage; nodes = n ∷ ns } ∷ []

  unfoldable pub l1_nodes : Runtime → Tables fl → List ℕ → List JobNode
  unfolding l1_node
  l1_nodes rt db [] = []
  l1_nodes rt db (i ∷ is) = l1_node rt db i ++ l1_nodes rt db is

  -- `enqueueL1`: the job that it publishes, if any node is left
  unfoldable pub enqueue_l1 : Runtime → Tables fl → List ℕ → List JobBatch
  unfolding l1_nodes
  enqueue_l1 rt db is = l1_batch (l1_nodes rt db is)

  -- the row of a result; a time that does not parse is the time of the arrival
  unfoldable pub check_of : ℕ → ResultsBatch fl → ResultItem fl → Check fl
  check_of now batch r =
      let ts : ℕ = elim r.ts [ none ↦ now | some t ↦ t ] in
      record {
        node_id = r.node_id;
        vantage = batch.vantage;
        stage = batch.stage;
        passed = r.passed;
        latency_ms = r.latency_ms;
        speed_mbps = r.speed_mbps;
        error_code = r.error_code;
        ts = ts;
        ts_bucket = ts / second / 300;
      }

  -- The clock, the configuration, and the orders in which the map of checks is visited.
  pub record Context : Type 0 where
    pub rt : Runtime
    pub weights : Weights fl
    pub now : ℕ
    pub visit : List (Bytes × Check fl) → List (Bytes × Check fl)
    pub visit' : List (Bytes × Check fl) → List (Bytes × Check fl)

  -- the jobs that follow an inserted check
  unfoldable pub follow_up : Context → Stage → ResultItem fl → Tables fl → List JobBatch
  unfolding enqueue_l1 same_stage
  follow_up x stage r db =
      if same_stage stage l0 && r.passed then enqueue_l1 x.rt db (r.node_id ∷ []) else []

  unfoldable pub ingest_inserted :
      Context → Stage → ResultItem fl → Tables fl × Bool → Tables fl × List JobBatch
  unfolding recompute_node follow_up
  ingest_inserted x stage r (db, false) = (db, [])
  ingest_inserted x stage r (db, true) =
      let db' = recompute_node fl x.weights x.now x.visit x.visit' r.node_id db in
      (db', follow_up x stage r db')

  -- one result: the tables, and the jobs published
  unfoldable pub ingest_result :
      Context → ResultsBatch fl → ResultItem fl → Tables fl → Tables fl × List JobBatch
  unfolding check_of insert_check ingest_inserted
  ingest_result x batch r db =
      ingest_inserted x batch.stage r (insert_check fl (check_of x.now batch r) db)

  unfoldable pub ingest_items :
      Context → ResultsBatch fl → List (ResultItem fl) → Tables fl → Tables fl × List JobBatch
  unfolding ingest_result
  ingest_items x batch [] db = (db, [])
  ingest_items x batch (r ∷ rs) db =
      let (db', jobs) = ingest_result x batch r db in
      let (db'', more) = ingest_items x batch rs db' in (db'', jobs ++ more)

  -- `ingestResults`
  unfoldable pub ingest_results : Context → ResultsBatch fl → Tables fl → Tables fl × List JobBatch
  unfolding ingest_items
  ingest_results x batch db = ingest_items x batch batch.results db

  -- An entry of the registry under a key: `vantage`, `role` and `ts` of the heartbeat.
  pub record Heartbeat : Type 0 where
    pub vantage : Bytes
    pub role : Bytes
    pub ts : ℕ

  -- the body of `watchVantages` for an entry that was put and that decodes
  unfoldable pub on_heartbeat : Bytes → Heartbeat → Tables fl → Tables fl
  unfolding strip_prefix str_eq upsert_vantage
  on_heartbeat key hb db = elim (strip_prefix (codes "vantage.") key) [
    | none ↦ db
    | some _ ↦
        upsert_vantage fl
          (record {
            id = hb.vantage;
            is_edge_kind = str_eq hb.role (codes "validator");
            region = none;
            enabled = true;
            last_heartbeat = some hb.ts;
          })
          db
  ]
