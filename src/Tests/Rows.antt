-- ===== src/Tests/Rows.antt =====
-- Tables, batches of links and of results, and jobs.
use Prim.Native.Nat.{min}
use mathlib.Core.List.{Perm}
use mathlib.Core.List.Permᴰ
use proxy_harv.Prelude.{
  false, ℕ, Bool, true, none, some, List, [], ◌∷◌, ◌++◌, map, length, ◌≤◌, ◌≡◌, refl, arith, All,
  ◌==◌,
}
use proxy_harv.Text.{Bytes, codes}
use proxy_harv.Text.Number.{pos}
use proxy_harv.Model.{unknown, cloud, l1, NodeRow, Check, Tables}
use proxy_harv.Model.Store.{get_node, latest_by_vantage}
use proxy_harv.Wire.{RawNode, JobNode, JobBatch, ResultItem, ResultsBatch}
use proxy_harv.Parse.Many.{add_lines, parse_many}
use proxy_harv.Score.{default_weights}
use proxy_harv.Coordinator.Aggregate.{recompute_node}
use proxy_harv.Coordinator.Aggregate.Verdict.{
  deserved_status, deserved_class, recompute_node-verdict,
}
use proxy_harv.Coordinator.Ingest.{Context, ingest_batch}
use proxy_harv.Coordinator.Ingest.{check_of, ingest_result}
use proxy_harv.Model.{l2, dead, keep, same_stage}
use proxy_harv.Coordinator.Ingest.Overtaken.{Precede, of_node, ingest_result-overtaken}
use proxy_harv.Coordinator.Ingest.Repeat.{holds, identities, ingest_batch_redelivered}
use proxy_harv.Coordinator.Plan.{publish_batched, PlanConfig, plan_l0}
use proxy_harv.Coordinator.Plan.Coverage.{IsDueJob, due_rows, plan_l0-due}
use proxy_harv.Coordinator.Plan.Batches.{
  all_nodes, IsBatch, publish_batched-prefix, publish_batched-all,
}
use proxy_harv.Coordinator.Publishing.{line_of, body_of}
use proxy_harv.Coordinator.Publishing.Body.{parse_many-body_of}
use proxy_harv.Tests.{toy, toy_rt}

abbrev pub row : NodeRow toy
row = record {
  id = 1;
  uri_hash = codes "h";
  uri = codes "socks://a:1#x";
  protocol = codes "socks";
  transport = codes "tcp";
  host = codes "a";
  host_ip = none;
  cc = some (codes "DE");
  city = none;
  lat = none;
  lon = none;
  status = unknown;
  best_class = cloud;
  score = 0;
  first_seen = 0;
  last_seen = 0;
  last_l1_ok_at = none;
}

abbrev check : Check toy
check = record {
  node_id = 1;
  vantage = codes "cloud-eu-1";
  stage = l1;
  passed = true;
  latency_ms = some (pos 42);
  speed_mbps = none;
  error_code = none;
  ts = 7;
  ts_bucket = 0;
}

abbrev pub tables : Tables toy
tables = record {
  nodes = row ∷ [];
  checks = check ∷ [];
  vantages = [];
  sources = [];
  publishes = [];
  next_node = 2;
  next_source = 1;
  next_version = 1;
}

row-get_node : get_node toy tables 1 ≡ some row
unfolding get_node
row-get_node = refl

recompute_node-verdict_example :
    (row' : NodeRow toy) × (get_node toy
        (recompute_node toy (default_weights toy) 9 (λ m. m) (λ m. m) 1 tables)
        1
      ≡ some row')
    × (row'.status ≡ deserved_status toy (latest_by_vantage toy tables 1))
    × (row'.best_class ≡ deserved_class toy (latest_by_vantage toy tables 1))
recompute_node-verdict_example =
    recompute_node-verdict toy (default_weights toy) 9 (λ m. m) (λ m. m) 1 tables row
      (λ m. ∣ Permᴰ.refl m ∣₁) row-get_node

abbrev pub context : Context toy
context = record {
  rt = toy_rt;
  weights = default_weights toy;
  now = 9;
  visit = λ m. m;
  visit' = λ m. m;
}

-- a result of the node at another time
abbrev pub results : ResultsBatch toy
results = record {
  vantage = codes "rf-1";
  stage = l1;
  results =
      record {
        node_id = 1;
        passed = true;
        latency_ms = some (pos 50);
        speed_mbps = none;
        error_code = none;
        ts = some 8;
      }
      ∷ [];
}

-- a link that is new, and one that is known
abbrev raw_node : Bytes → RawNode
raw_node h = record {
  uri = codes "socks://b:2";
  uri_hash = h;
  protocol = codes "socks";
  transport = codes "tcp";
  host = codes "b";
  port = pos 2;
}

abbrev pub raw_nodes : List RawNode
raw_nodes = raw_node (codes "k") ∷ raw_node (codes "h") ∷ []

ingest_batch_redelivered_example :
    All
      (λ rn.
        holds toy rn.uri_hash (identities toy (ingest_batch toy 9 none raw_nodes tables)) ≡ true)
      raw_nodes
    × (identities toy
          (ingest_batch toy 10 none raw_nodes (ingest_batch toy 9 none raw_nodes tables))
        ≡ identities toy (ingest_batch toy 9 none raw_nodes tables))
ingest_batch_redelivered_example = ingest_batch_redelivered toy 9 10 none none raw_nodes tables

abbrev job : ℕ → JobNode
job i = record {
  node_id = i;
  host = codes "a";
  port = pos 1;
  transport = codes "tcp";
  outbound = none;
}

abbrev jobs : List JobNode
jobs = job 1 ∷ job 2 ∷ job 3 ∷ []

-- the bus refuses the batch that begins with the node 3
abbrev accepts : JobBatch → Bool
accepts b = elim b.nodes [ [] ↦ true | n ∷ ns ↦ n.node_id == 1 ]

publish_batched-prefix_example :
    ((rest : List JobNode) × (all_nodes (publish_batched accepts l1 (codes "v") jobs 2) ++ rest
        ≡ jobs))
    × All (IsBatch l1 (codes "v") 2) (publish_batched accepts l1 (codes "v") jobs 2)
publish_batched-prefix_example = publish_batched-prefix accepts l1 (codes "v") jobs 2 (omega arith)

publish_batched-all_example : all_nodes (publish_batched (λ b. true) l1 (codes "v") jobs 2) ≡ jobs
publish_batched-all_example =
    publish_batched-all (λ b. true) l1 (codes "v") jobs 2 (omega arith) (λ b. refl)

parse_many-body_of_example :
    parse_many toy_rt (body_of toy tables (row ∷ []))
    ≡ add_lines toy_rt [] (map (line_of toy tables) (row ∷ []))
parse_many-body_of_example =
    parse_many-body_of toy tables toy_rt row [] ((ground arith, ground arith, tt), tt)

-- a passed speed test, after the check of the table
abbrev speed : ResultItem toy
speed = record {
  node_id = 1;
  passed = true;
  latency_ms = none;
  speed_mbps = some 5;
  error_code = none;
  ts = some 8;
}

abbrev pub speeds : ResultsBatch toy
speeds = record { vantage = codes "cloud-eu-1"; stage = l2; results = speed ∷ [] }

speed-Precede : Precede toy (check_of toy 9 speeds speed) (keep (of_node toy 1) tables.checks)
unfolding check_of keep
speed-Precede = ((refl, omega arith), tt)

speed-other : same_stage l2 l1 ≡ false
unfolding same_stage
speed-other = refl

ingest_result-overtaken_example :
    (row' : NodeRow toy) × (get_node toy (ingest_result toy context speeds speed tables).0 1
      ≡ some row')
    × (row'.status ≡ dead)
ingest_result-overtaken_example =
    ingest_result-overtaken toy context speeds speed tables row (λ m. ∣ Permᴰ.refl m ∣₁)
      row-get_node speed-other speed-Precede

abbrev plan_config : PlanConfig
plan_config = record {
  batch_l0 = 1;
  batch_l1 = 1;
  batch_l2 = 1;
  top_l2 = 1;
  top_val = 1;
  val_l2_top = 1;
}

plan_l0-due_example :
    All
      (IsDueJob toy toy_rt 9 tables)
      (all_nodes (plan_l0 toy toy_rt (λ b. true) plan_config 9 tables))
    × (length (all_nodes (plan_l0 toy toy_rt (λ b. true) plan_config 9 tables))
        ≡ min 4 (length (due_rows toy toy_rt 9 tables)))
    × (length (due_rows toy toy_rt 9 tables) ≤ 4
        → Perm
            (map (λ j. j.node_id) (all_nodes (plan_l0 toy toy_rt (λ b. true) plan_config 9 tables)))
            (map (λ n. n.id) (due_rows toy toy_rt 9 tables)))
plan_l0-due_example =
    plan_l0-due toy toy_rt 9 tables (λ b. true) plan_config (omega arith) (λ b. refl)
