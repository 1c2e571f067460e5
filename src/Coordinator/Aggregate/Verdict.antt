-- ===== src/Coordinator/Aggregate/Verdict.antt =====
-- The verdict on a node, stated of the checks as a whole.
use mathlib.Core.List.{Perm, Permᴰ}
use mathlib.Core.Logic.{∥∥₁_elim}
use mathlib.Core.Path.{ap₂}
use proxy_harv.Model.Store.{get_node, by_id, latest_by_vantage, update_node_aggregate}
use proxy_harv.Model.Store.Rows.{find-update_where}
use proxy_harv.Score.{Weights}
use proxy_harv.Prelude.{
  ℕ, Bool, true, false, ◌&&◌, ◌||◌, some, List, [], ◌∷◌, if◌then◌else◌, ◌≡◌, refl, ap, sym, ◌∙◌,
  arith,
}
use proxy_harv.Text.{Bytes}
use proxy_harv.Floats.{Floats}
use proxy_harv.Model.{
  Status, alive, dead, Class, no_class, cloud, rf, l1, same_stage, Check, NodeRow, Tables,
  NodeUpdate,
}
use proxy_harv.Coordinator.Aggregate.{
  is_edge, Agg, start, add_check, aggregate, best_class, node_update, recompute_node,
}

Bool-set : IsSet Bool
Bool-set = hlevel

module _ (fl : Floats) where
  -- a passed L1 check
  abbrev pub proves : Check fl → Bool
  proves c = same_stage c.stage l1 && c.passed

  abbrev pub any_l1 : (Bytes → Bool) → List (Bytes × Check fl) → Bool
  any_l1 p [] = false
  any_l1 p ((v, c) ∷ m) = (proves c && p v) || any_l1 p m

  abbrev pub anywhere : Bytes → Bool
  anywhere v = true

  abbrev pub not_edge : Bytes → Bool
  not_edge v = if is_edge v then false else true

  status_aggregate :
      (m : List (Bytes × Check fl)) (a : Agg fl)
      → (aggregate fl m a).status ≡ (if any_l1 anywhere m then alive else a.status)
  unfolding aggregate
  status_aggregate [] a = refl
  status_aggregate ((v, c) ∷ m) a = ground (arith, status_aggregate m (add_check fl v c a))

  rf_ok-aggregate :
      (m : List (Bytes × Check fl)) (a : Agg fl)
      → (aggregate fl m a).rf_ok ≡ (any_l1 is_edge m || a.rf_ok)
  unfolding aggregate
  rf_ok-aggregate [] a = refl
  rf_ok-aggregate ((v, c) ∷ m) a = ground (arith, rf_ok-aggregate m (add_check fl v c a))

  cloud_ok-aggregate :
      (m : List (Bytes × Check fl)) (a : Agg fl)
      → (aggregate fl m a).cloud_ok ≡ (any_l1 not_edge m || a.cloud_ok)
  unfolding aggregate
  cloud_ok-aggregate [] a = refl
  cloud_ok-aggregate ((v, c) ∷ m) a = ground (arith, cloud_ok-aggregate m (add_check fl v c a))

  swapped :
      (p : Bytes → Bool) {a a' b b' : Bytes × Check fl}
      → a ≡ a'
      → b ≡ b'
      → (l : List (Bytes × Check fl)) → any_l1 p (a' ∷ b' ∷ l) ≡ any_l1 p (b ∷ a ∷ l)
  swapped p {a} {a'} {b} {b'} e f l = rw (e, f) (ground arith)

  any_l1-Permᴰ :
      (p : Bytes → Bool) {m n : List (Bytes × Check fl)} → Permᴰ m n → any_l1 p m ≡ any_l1 p n
  any_l1-Permᴰ p Permᴰ.nil = refl
  any_l1-Permᴰ p (Permᴰ.cons {a} {b} e d) =
      ap₂ ◌||◌ (ap (λ q. proves q.1 && p q.0) e) (any_l1-Permᴰ p d)
  any_l1-Permᴰ p (Permᴰ.swap {a} {b} {l} e f) = swapped p (sym e) (sym f) l
  any_l1-Permᴰ p (Permᴰ.trans d e) = any_l1-Permᴰ p d ∙ any_l1-Permᴰ p e

  any_l1-Perm :
      (p : Bytes → Bool) {m n : List (Bytes × Check fl)} → Perm m n → any_l1 p m ≡ any_l1 p n
  any_l1-Perm p {m} {n} h = ∥∥₁_elim h (Bool-set (any_l1 p m) (any_l1 p n)) (any_l1-Permᴰ p)

  -- The status and class that the checks deserve.
  abbrev pub deserved_status : List (Bytes × Check fl) → Status
  deserved_status m = if any_l1 anywhere m then alive else dead

  abbrev pub deserved_class : List (Bytes × Check fl) → Class
  deserved_class m = if any_l1 is_edge m then rf else if any_l1 not_edge m then cloud else no_class

  node_update-verdict :
      (w : Weights fl) (now : ℕ) (db : Tables fl) (i : ℕ) (m m' : List (Bytes × Check fl))
      → ((node_update fl w now db i m m').status ≡ deserved_status m)
        × ((node_update fl w now db i m m').best_class ≡ deserved_class m)
  unfolding node_update best_class
  node_update-verdict w now db i m m' = (
    status_aggregate m (start fl),
    ground (arith, rf_ok-aggregate m (start fl), cloud_ok-aggregate m (start fl)),
  )

  recompute_node-some :
      (w : Weights fl) (now : ℕ) (visit visit' : List (Bytes × Check fl) → List (Bytes × Check fl))
      (i : ℕ) (db : Tables fl) (row : NodeRow fl)
      → get_node fl db i ≡ some row
      → recompute_node fl w now visit visit' i db
        ≡ update_node_aggregate fl
            (node_update fl w now db i
              (visit (latest_by_vantage fl db i))
              (visit' (latest_by_vantage fl db i)))
            db
  unfolding recompute_node
  recompute_node-some w now visit visit' i db row e = rw (e, recompute_node) refl

  -- the row of a node after an update
  unfoldable pub updated : NodeUpdate fl → NodeRow fl → NodeRow fl
  updated u r = record r {
    status = u.status;
    best_class = u.best_class;
    score = u.score;
    last_l1_ok_at = u.last_l1_ok_at;
  }

  get_node-update_node_aggregate :
      (u : NodeUpdate fl) (db : Tables fl) (row : NodeRow fl)
      → get_node fl db u.node_id ≡ some row
      → get_node fl (update_node_aggregate fl u db) u.node_id ≡ some (updated u row)
  unfolding get_node update_node_aggregate updated
  get_node-update_node_aggregate u db row e =
      find-update_where (by_id fl u.node_id) (updated u) (λ _. refl) db.nodes row e

  -- If the first loop of `recomputeNode` visits the latest checks in some order, then a node that
  -- is in the database is there afterwards as well, alive if the latest check of some vantage is a
  -- passed L1 check and dead otherwise, with class rf if that holds of an edge vantage, else cloud
  -- if it holds of another vantage, else none.
  pub recompute_node-verdict :
      (w : Weights fl) (now : ℕ) (visit visit' : List (Bytes × Check fl) → List (Bytes × Check fl))
      (i : ℕ) (db : Tables fl) (row : NodeRow fl)
      → ((m : List (Bytes × Check fl)) → Perm (visit m) m)
      → get_node fl db i ≡ some row
      → (row' : NodeRow fl) × (get_node fl (recompute_node fl w now visit visit' i db) i
          ≡ some row')
        × (row'.status ≡ deserved_status (latest_by_vantage fl db i))
        × (row'.best_class ≡ deserved_class (latest_by_vantage fl db i))
  unfolding updated node_update
  recompute_node-verdict w now visit visit' i db row h e =
      let m = latest_by_vantage fl db i in
      let u = node_update fl w now db i (visit m) (visit' m) in
      let v = node_update-verdict w now db i (visit m) (visit' m) in
      (
        updated u row,
        rw (recompute_node-some w now visit visit' i db row e)
            (get_node-update_node_aggregate u db row e),
        v.0 ∙ ap (λ b. if b then alive else dead) (any_l1-Perm anywhere (h m)),
        rw (← any_l1-Perm is_edge (h m)) (rw (← any_l1-Perm not_edge (h m)) v.1),
      )
