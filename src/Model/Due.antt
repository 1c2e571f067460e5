-- ===== src/Model/Due.antt =====
-- Which nodes are due for a check: `dueNodes`, `NodesDueL0`, `NodesDueL1`, `NodesForL2` and
-- `NodesForValidation` of proxies/internal/model/pg.go, at the time `now`.
use Prim.Native.Nat.{min}
use proxy_harv.Prelude.{
  ℕ, ◌+◌, ◌-◌, ◌*◌, ◌^◌, Bool, true, false, not, ◌&&◌, ◌||◌, Option, none, some, List, [], ◌∷◌, ltb,
  ◌==◌, take, if◌then◌else◌,
}
use proxy_harv.Text.{Bytes, codes, str_eq, one_of}
use proxy_harv.Floats.{Floats}
use proxy_harv.Model.{
  Status, unknown, alive, dead, Stage, l1, l2, same_stage, is_alive, hour, keep, order_by, NodeRow,
  Check, Tables,
}
use proxy_harv.Model.Store.{later, first_of_list, recent_l1}

-- transports worth a cheap L0 dial first
abbrev pub tcp_family : List Bytes
tcp_family =
    codes "tcp"
    ∷ codes "ws"
    ∷ codes "grpc"
    ∷ codes "http"
    ∷ codes "httpupgrade"
    ∷ codes "xhttp"
    ∷ codes "kcp"
    ∷ []

-- count(*) FILTER (WHERE NOT ok)
unfoldable pub fails : List Bool → ℕ
fails [] = 0
fails (true ∷ bs) = fails bs
fails (false ∷ bs) = fails bs + 1

-- least(48, 1 << least(greatest(f - 1, 0), 6)), in hours
unfoldable pub backoff_hours : ℕ → ℕ
backoff_hours f = min 48 (2 ^ min 6 (f - 1))

module _ (fl : Floats) (now : ℕ) where
  -- `n.last_l1_ok_at > now() - interval '24 hours'`; NULL is not
  unfoldable pub is_fresh : NodeRow fl → Bool
  is_fresh n = elim n.last_l1_ok_at [ none ↦ false | some t ↦ ltb now (t + 24 * hour) ]

  unfoldable pub retest_period : NodeRow fl → ℕ
  unfolding is_fresh
  retest_period n = if is_fresh n then 3 * hour else 6 * hour

  -- no check, or one that is older than the period
  unfoldable pub older_than : ℕ → Option (Check fl) → Bool
  older_than period none = true
  older_than period (some c) = ltb (c.ts + period) now

  unfoldable pub due_by_status : Status → NodeRow fl → Option (Check fl) → ℕ → Bool
  unfolding retest_period older_than backoff_hours
  due_by_status unknown n last f = true
  due_by_status alive n last f = older_than (retest_period n) last
  due_by_status dead n last f = older_than (backoff_hours f * hour) last

  -- the last check of a node, of any stage and vantage
  unfoldable pub last_check : Tables fl → ℕ → Option (Check fl)
  unfolding keep order_by
  last_check db i = first_of_list fl (order_by (later fl) (keep (λ c. c.node_id == i) db.checks))

  unfoldable pub is_due : Tables fl → NodeRow fl → Bool
  unfolding due_by_status last_check fails recent_l1
  is_due db n = due_by_status n.status n (last_check db n.id) (fails (recent_l1 fl db n.id [] 8))

  unfoldable pub due_nodes : (Bytes → Bool) → ℕ → Tables fl → List (NodeRow fl)
  unfolding is_due keep order_by
  due_nodes transport limit db = take limit (
      order_by (λ a b. ltb b.last_seen a.last_seen)
        (keep (λ n. transport n.transport && is_due db n) db.nodes))

  unfoldable pub nodes_due_l0 : ℕ → Tables fl → List (NodeRow fl)
  unfolding due_nodes one_of
  nodes_due_l0 = due_nodes (λ t. one_of t tcp_family)

  unfoldable pub nodes_due_l1 : ℕ → Tables fl → List (NodeRow fl)
  unfolding due_nodes one_of
  nodes_due_l1 = due_nodes (λ t. not (one_of t tcp_family))

  -- an ok check of the stage within the window, at the vantages of the test
  unfoldable pub has_recent_ok : Stage → (Bytes → Bool) → ℕ → ℕ → List (Check fl) → Bool
  unfolding same_stage
  has_recent_ok stage vantage window i [] = false
  has_recent_ok stage vantage window i (c ∷ cs) =
      (c.node_id == i
        && vantage c.vantage
        && same_stage c.stage stage
        && c.passed
        && ltb now (c.ts + window))
      || has_recent_ok stage vantage window i cs

  abbrev pub by_score : List (NodeRow fl) → List (NodeRow fl)
  by_score = order_by (λ a b. fl.lt b.score a.score)

  unfoldable pub nodes_for_l2 : ℕ → ℕ → ℕ → Tables fl → List (NodeRow fl)
  unfolding has_recent_ok is_alive keep order_by
  nodes_for_l2 top_k window limit db = take (min top_k limit) (
      by_score (
        keep (λ n. is_alive n.status && not (has_recent_ok l2 (λ _. true) window n.id db.checks))
          db.nodes))

  unfoldable pub nodes_for_validation : Bytes → ℕ → Tables fl → List (NodeRow fl)
  unfolding has_recent_ok is_alive keep order_by str_eq
  nodes_for_validation vantage top_n db = take top_n (
      by_score (
        keep
          (λ n.
            is_alive n.status
            && not (has_recent_ok l1 (λ v. str_eq v vantage) (3 * hour) n.id db.checks))
          db.nodes))
