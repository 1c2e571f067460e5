-- ===== src/Coordinator/Plan/Coverage.antt =====
-- Which nodes the L0 jobs of a plan hold.
use Prim.Native.Nat.{min}
use mathlib.Core.List.{Mem, Perm}
use mathlib.Core.List.Permᴰ
use mathlib.Core.Path.{subst}
use proxy_harv.Prelude.{
  ℕ, ◌*◌, ◌<◌, ◌≤◌, Bool, true, ◌&&◌, List, [], ◌∷◌, map, take, length, length-take, length-map,
  All, ◌≡◌, ap, ◌∙◌, refl, sym, arith, ltb,
}
use proxy_harv.Text.{one_of}
use proxy_harv.Runtime.{Runtime}
use proxy_harv.Floats.{Floats}
use proxy_harv.Model.{l0, NodeRow, Tables, keep, order_by}
use proxy_harv.Model.Due.{tcp_family, is_due, due_nodes, nodes_due_l0}
use proxy_harv.Model.Ordering.{
  All-take, All-order_by, rows_kept, order_by-Permᴰ, length-order_by, take_short,
}
use proxy_harv.Wire.{JobNode, JobBatch}
use proxy_harv.Coordinator.Plan.{PlanConfig, cloud_vantage, l0_job, plan_l0}
use proxy_harv.Coordinator.Plan.Batches.{all_nodes, publish_batched-all}

module _ (fl : Floats) (rt : Runtime) (now : ℕ) (db : Tables fl) where
  abbrev pub is_due_l0 : NodeRow fl → Bool
  is_due_l0 n = one_of n.transport tcp_family && is_due fl now db n

  -- The rows of the table that are due and have a transport of the TCP family.
  abbrev pub due_rows : List (NodeRow fl)
  due_rows = keep is_due_l0 db.nodes

  -- The job of a row that is due.
  abbrev pub IsDueJob : JobNode → Type 0
  IsDueJob j = (n : NodeRow fl) × Mem n db.nodes × (is_due_l0 n ≡ true) × (j ≡ l0_job fl rt n)

  jobs-IsDueJob :
      (ns : List (NodeRow fl))
      → All (λ n. Mem n db.nodes × (is_due_l0 n ≡ true)) ns
      → All IsDueJob (map (l0_job fl rt) ns)
  jobs-IsDueJob [] h = tt
  jobs-IsDueJob (n ∷ ns) ((m, e), hs) = ((n, m, e, refl), jobs-IsDueJob ns hs)

  map-id :
      (ns : List (NodeRow fl)) → map (λ j. j.node_id) (map (l0_job fl rt) ns) ≡ map (λ n. n.id) ns
  unfolding l0_job
  map-id [] = refl
  map-id (n ∷ ns) = ap (λ l. n.id ∷ l) (map-id ns)

  -- Let the size of L0 batches not be 0, and the bus take every batch. Then the L0 jobs of a plan are
  -- those of nodes of the table that are due and have a transport of the TCP family; there are as many
  -- as such nodes, up to four batches; and if there are no more of them than four batches, then each of
  -- them is planned once.
  pub plan_l0-due :
      (accepts : JobBatch → Bool) (cfg : PlanConfig)
      → 0 < cfg.batch_l0
      → ((b : JobBatch) → accepts b ≡ true)
      → All IsDueJob (all_nodes (plan_l0 fl rt accepts cfg now db))
        × (length (all_nodes (plan_l0 fl rt accepts cfg now db))
            ≡ min (cfg.batch_l0 * 4) (length due_rows))
        × (length due_rows ≤ cfg.batch_l0 * 4
            → Perm
                (map (λ j. j.node_id) (all_nodes (plan_l0 fl rt accepts cfg now db)))
                (map (λ n. n.id) due_rows))
  unfolding plan_l0 nodes_due_l0 due_nodes
  plan_l0-due accepts cfg h free =
      let limit = cfg.batch_l0 * 4 in
      let before : NodeRow fl → NodeRow fl → Bool = λ a b. ltb b.last_seen a.last_seen in
      let rows = order_by before due_rows in
      let sent =
        publish_batched-all accepts l0 cloud_vantage (map (l0_job fl rt) (take limit rows))
          cfg.batch_l0 h free in
      let P : NodeRow fl → Type 0 = λ n. Mem n db.nodes × (is_due_l0 n ≡ true) in
      (
        subst (All IsDueJob) (sym sent) (
            jobs-IsDueJob (take limit rows) (
              All-take P limit rows (
                All-order_by P before due_rows
                  (rows_kept is_due_l0 db.nodes db.nodes (λ x m. m))))),
        ap length sent
            ∙ (length-map (l0_job fl rt) (take limit rows)
                ∙ (length-take limit rows ∙ ap (min limit) (length-order_by before due_rows))),
        λ few.
            let short : length rows ≤ limit = omega (arith, few, length-order_by before due_rows) in
            let ids =
              ap (map (λ j. j.node_id)) sent
              ∙ (map-id (take limit rows) ∙ ap (map (λ n. n.id)) (take_short limit rows short)) in
            subst (λ l. Perm l (map (λ n. n.id) due_rows)) (sym ids)
              ∣ Permᴰ.map (λ n. n.id) (order_by-Permᴰ before due_rows) ∣₁,
      )
