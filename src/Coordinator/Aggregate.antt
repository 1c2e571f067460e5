-- ===== src/Coordinator/Aggregate.antt =====
-- `recomputeNode` of proxies/cmd/coordinator/consume.go: status, class and score of a node from the
-- latest check of each vantage. Go visits a map in any order, so each of the two loops over the
-- checks has an order of its own, which is an argument.
pub mod Verdict
use proxy_harv.Prelude.{
  ℕ, Bool, true, false, ◌&&◌, ◌||◌, Option, none, some, List, [], ◌∷◌, ltb, if◌then◌else◌,
}
use proxy_harv.Text.{Bytes, codes, has_prefix, is_empty}
use proxy_harv.Text.Number.{ℤ, pos}
use proxy_harv.Floats.{Floats}
use proxy_harv.Model.{
  Status, alive, dead, Class, no_class, cloud, rf, Stage, l1, l2, same_stage, NodeRow, Check,
  NodeUpdate, Tables,
}
use proxy_harv.Model.Store.{get_node, latest_by_vantage, recent_l1, update_node_aggregate}
use proxy_harv.Score.{Weights, Input, compute}

-- vantage[:3] == "rf-"
unfoldable pub is_edge : Bytes → Bool
unfolding has_prefix
is_edge vantage = has_prefix (codes "rf-") vantage

module _ (fl : Floats) where
  open fl use {F}

  -- the variables of the loop
  pub record Agg : Type 0 where
    pub status : Status
    pub last_l1_ok : Option ℕ
    pub best_latency : ℤ
    pub best_speed : F
    pub rf_ok : Bool
    pub cloud_ok : Bool

  abbrev pub start : Agg
  start = record {
    status = dead;
    last_l1_ok = none;
    best_latency = pos 0;
    best_speed = fl.of_int (pos 0);
    rf_ok = false;
    cloud_ok = false;
  }

  abbrev pub is_later : ℕ → Option ℕ → Bool
  is_later ts none = true
  is_later ts (some last) = ltb last ts

  abbrev pub or_kept : ℤ → Option ℤ → ℤ
  or_kept old none = old
  or_kept old (some ms) = ms

  unfoldable pub add_l1 : Bytes → Check fl → Agg → Agg
  unfolding is_edge
  add_l1 vantage c a =
      let newer = is_later c.ts a.last_l1_ok in
      record {
        status = alive;
        last_l1_ok = if newer then some c.ts else a.last_l1_ok;
        best_latency = if newer then or_kept a.best_latency c.latency_ms else a.best_latency;
        best_speed = a.best_speed;
        rf_ok = is_edge vantage || a.rf_ok;
        cloud_ok = if is_edge vantage then a.cloud_ok else true;
      }

  abbrev pub faster : F → Option F → F
  faster best none = best
  faster best (some speed) = if fl.lt best speed then speed else best

  unfoldable pub add_l2 : Check fl → Agg → Agg
  add_l2 c a = record a { best_speed = faster a.best_speed c.speed_mbps }

  -- one round of the loop
  unfoldable pub add_check : Bytes → Check fl → Agg → Agg
  unfolding add_l1 add_l2 same_stage
  add_check vantage c a =
      if same_stage c.stage l1 && c.passed
      then add_l1 vantage c a
      else if same_stage c.stage l2 && c.passed
      then add_l2 c a
      else a

  unfoldable pub aggregate : List (Bytes × Check fl) → Agg → Agg
  unfolding add_check
  aggregate [] a = a
  aggregate ((v, c) ∷ m) a = aggregate m (add_check v c a)

  unfoldable pub best_class : Agg → Class
  best_class a = if a.rf_ok then rf else if a.cloud_ok then cloud else no_class

  -- the first vantage, in the order of the second loop, that has a history
  unfoldable pub first_history : Tables fl → ℕ → List (Bytes × Check fl) → Option (List Bool)
  unfolding recent_l1
  first_history db i [] = none
  first_history db i ((v, c) ∷ m) =
      let hist = recent_l1 fl db i v 10 in if is_empty hist then first_history db i m else some hist

  unfoldable pub recent_any : Tables fl → ℕ → List (Bytes × Check fl) → List Bool
  unfolding first_history recent_l1
  recent_any db i m = elim (first_history db i m) [
    | none ↦ recent_l1 fl db i [] 10
    | some hist ↦ hist
  ]

  unfoldable pub node_update :
      Weights fl
      → ℕ
      → Tables fl
      → ℕ
      → List (Bytes × Check fl)
      → List (Bytes × Check fl)
      → NodeUpdate fl
  unfolding aggregate best_class recent_any compute
  node_update w now db i m m' =
      let a = aggregate m start in
      let input : Input fl = record {
        now = now;
        last_l1_ok_at = a.last_l1_ok;
        recent_l1 = recent_any db i m';
        latency_ms = a.best_latency;
        speed_mbps = a.best_speed;
        rf_validated = a.rf_ok;
      } in
      record {
        node_id = i;
        status = a.status;
        best_class = best_class a;
        score = compute fl input w;
        last_l1_ok_at = a.last_l1_ok;
      }

  -- `recomputeNode`; the two loops visit the latest checks in the orders `visit` and `visit'`
  unfoldable pub recompute_node :
      Weights fl
      → ℕ
      → (List (Bytes × Check fl) → List (Bytes × Check fl))
      → (List (Bytes × Check fl) → List (Bytes × Check fl))
      → ℕ
      → Tables fl
      → Tables fl
  unfolding get_node latest_by_vantage node_update update_node_aggregate
  recompute_node w now visit visit' i db = elim (get_node fl db i) [
    | none ↦ db
    | some _ ↦
        let m = latest_by_vantage fl db i in
        update_node_aggregate fl (node_update w now db i (visit m) (visit' m)) db
  ]
