-- ===== src/Model/Store.antt =====
-- The queries on nodes and checks of proxies/internal/model/pg.go, as functions on the tables. A
-- query that fails is not modelled. Where SQL leaves the order of equal rows open, the row that was
-- inserted last comes first.
pub mod Rows
pub mod Invariant
use proxy_harv.Prelude.{
  ℕ, ◌+◌, ◌-◌, ◌≡◌, refl, Bool, true, false, not, ◌&&◌, ◌||◌, Option, none, some, List, [], ◌∷◌,
  ◌++◌, ltb, map, ◌==◌, take, length, if◌then◌else◌,
}
use proxy_harv.Text.{Bytes, str_eq, is_empty}
use proxy_harv.Floats.{Floats}
use proxy_harv.Text.Number.{pos}
use proxy_harv.Model.{
  Status, unknown, alive, dead, Class, no_class, Stage, l1, same_stage, is_alive, is_dead, keep,
  find, update_where, order_by, NodeRow, Check, NodeUpdate, Tables,
}

module _ (fl : Floats) where
  open fl use {F}

  abbrev pub by_hash : Bytes → NodeRow fl → Bool
  by_hash h n = str_eq n.uri_hash h

  abbrev pub by_id : ℕ → NodeRow fl → Bool
  by_id i n = n.id == i

  unfoldable pub get_node : Tables fl → ℕ → Option (NodeRow fl)
  unfolding find
  get_node db i = find (by_id i) db.nodes

  unfoldable pub get_node_by_hash : Tables fl → Bytes → Option (NodeRow fl)
  unfolding find
  get_node_by_hash db h = find (by_hash h) db.nodes

  -- What the fetcher knows of a node.
  pub record NewNode : Type 0 where
    pub uri_hash : Bytes
    pub uri : Bytes
    pub protocol : Bytes
    pub transport : Bytes
    pub host : Bytes

  abbrev fresh_row : ℕ → ℕ → NewNode → NodeRow fl
  fresh_row now i n = record {
    id = i;
    uri_hash = n.uri_hash;
    uri = n.uri;
    protocol = n.protocol;
    transport = n.transport;
    host = n.host;
    host_ip = none;
    cc = none;
    city = none;
    lat = none;
    lon = none;
    status = unknown;
    best_class = no_class;
    score = fl.of_int (pos 0);
    first_seen = now;
    last_seen = now;
    last_l1_ok_at = none;
  }

  -- `UpsertNode` at the time `now`: the tables, the id, and whether a row was inserted. A conflict
  -- also takes a value of the serial column.
  unfoldable pub upsert_node : ℕ → NewNode → Tables fl → Tables fl × ℕ × Bool
  unfolding get_node_by_hash update_where
  upsert_node now n db = elim (get_node_by_hash db n.uri_hash) [
    | none ↦ (
      record db { nodes = fresh_row now db.next_node n ∷ db.nodes; next_node = db.next_node + 1 },
      db.next_node,
      true,
    )
    | some old ↦ (
      record db {
        nodes = update_where (by_hash n.uri_hash) (λ r. record r { last_seen = now }) db.nodes;
        next_node = db.next_node + 1;
      },
      old.id,
      false,
    )
  ]

  abbrev nullable : Bytes → Option Bytes
  nullable [] = none
  nullable (c ∷ s) = some (c ∷ s)

  unfoldable pub update_node_geo :
      ℕ → Bytes → Option Bytes → Option Bytes → Option F → Option F → Tables fl → Tables fl
  unfolding update_where
  update_node_geo i host_ip cc city lat lon db = record db {
    nodes =
        update_where (by_id i)
          (λ r. record r { host_ip = nullable host_ip; cc = cc; city = city; lat = lat; lon = lon })
          db.nodes;
  }

  unfoldable pub update_node_aggregate : NodeUpdate fl → Tables fl → Tables fl
  unfolding update_where
  update_node_aggregate u db = record db {
    nodes =
        update_where (by_id u.node_id)
          (λ r. record r {
            status = u.status;
            best_class = u.best_class;
            score = u.score;
            last_l1_ok_at = u.last_l1_ok_at;
          })
          db.nodes;
  }

  -- the columns of the unique constraint on node_checks
  unfoldable pub same_check : Check fl → Check fl → Bool
  unfolding str_eq same_stage
  same_check a b =
      a.node_id == b.node_id
      && str_eq a.vantage b.vantage
      && same_stage a.stage b.stage
      && a.ts_bucket == b.ts_bucket
      && a.ts == b.ts

  unfoldable pub has_check : Check fl → List (Check fl) → Bool
  unfolding same_check
  has_check c [] = false
  has_check c (d ∷ ds) = same_check c d || has_check c ds

  -- `InsertCheck`: nothing is inserted on a conflict
  unfoldable pub insert_check : Check fl → Tables fl → Tables fl × Bool
  unfolding has_check
  insert_check c db =
      if has_check c db.checks then (db, false) else (record db { checks = c ∷ db.checks }, true)

  -- ORDER BY ts DESC
  abbrev pub later : Check fl → Check fl → Bool
  later a b = ltb b.ts a.ts

  unfoldable pub recent_l1 : Tables fl → ℕ → Bytes → ℕ → List Bool
  unfolding keep order_by same_stage str_eq
  recent_l1 db i vantage limit =
      map (λ c. c.passed)
        (take limit (
          order_by later (
            keep
              (λ c.
                c.node_id == i
                && same_stage c.stage l1
                && (is_empty vantage || str_eq c.vantage vantage))
              db.checks)))

  abbrev pub any_stage : List Stage → Stage → Bool
  any_stage [] s = false
  any_stage (t ∷ ts) s = same_stage s t || any_stage ts s

  abbrev pub first_of_list : List (Check fl) → Option (Check fl)
  first_of_list [] = none
  first_of_list (c ∷ cs) = some c

  unfoldable pub latest_check : Tables fl → ℕ → List Stage → Option (Check fl)
  unfolding keep order_by same_stage
  latest_check db i stages =
      first_of_list
        (order_by later (keep (λ c. c.node_id == i && any_stage stages c.stage) db.checks))

  -- the entry of the vantage is replaced by a check that is later, and kept otherwise
  unfoldable pub put_latest : Check fl → List (Bytes × Check fl) → List (Bytes × Check fl)
  unfolding str_eq
  put_latest c [] = (c.vantage, c) ∷ []
  put_latest c ((v, d) ∷ m) =
      let rest = put_latest c m in
      if str_eq c.vantage v then (v, if later d c then d else c) ∷ m else (v, d) ∷ rest

  unfoldable pub latest_of : List (Check fl) → List (Bytes × Check fl)
  unfolding put_latest
  latest_of [] = []
  latest_of (c ∷ cs) = put_latest c (latest_of cs)

  -- `LatestByVantage`: the latest check of the node, of any stage, for each vantage
  unfoldable pub latest_by_vantage : Tables fl → ℕ → List (Bytes × Check fl)
  unfolding latest_of keep
  latest_by_vantage db i = latest_of (keep (λ c. c.node_id == i) db.checks)

  unfoldable pub last_ok_or_first_seen : NodeRow fl → ℕ
  last_ok_or_first_seen n = elim n.last_l1_ok_at [ none ↦ n.first_seen | some t ↦ t ]

  unfoldable pub is_long_dead : ℕ → NodeRow fl → Bool
  unfolding is_dead last_ok_or_first_seen
  is_long_dead cutoff n = is_dead n.status && ltb (last_ok_or_first_seen n) cutoff

  -- is there a row with the id?
  abbrev has_node : ℕ → List (NodeRow fl) → Bool
  has_node i [] = false
  has_node i (n ∷ ns) = n.id == i || has_node i ns

  -- `DeleteLongDead`; the checks of a deleted node go with it (ON DELETE CASCADE)
  unfoldable pub delete_long_dead : ℕ → Tables fl → Tables fl
  unfolding is_long_dead keep
  delete_long_dead cutoff db =
      let kept = keep (λ n. not (is_long_dead cutoff n)) db.nodes in
      record db { nodes = kept; checks = keep (λ c. has_node c.node_id kept) db.checks }

  unfoldable pub alive_count : Tables fl → ℕ
  unfolding is_alive keep
  alive_count db = length (keep (λ n. is_alive n.status) db.nodes)

  -- `ListNodesForPublish`: the alive nodes, ORDER BY score DESC
  unfoldable pub list_nodes_for_publish : Tables fl → List (NodeRow fl)
  unfolding is_alive keep order_by
  list_nodes_for_publish db =
      order_by (λ a b. fl.lt b.score a.score) (keep (λ n. is_alive n.status) db.nodes)
