-- ===== src/Worker/Verdict.antt =====
-- What a worker reports of a job, and what the coordinator makes of it.
use proxy_harv.Prelude.{
  ℕ, Bool, true, false, none, List, [], ◌∷◌, map, ◌==◌, ◌≡◌, ◌≢◌, ◌⊎◌, inl, inr, ◌↔◌, refl, ap,
  arith, All, if◌then◌else◌, Bool-cases,
}
use proxy_harv.Text.{Bytes}
use proxy_harv.Floats.{Floats}
use proxy_harv.Model.{Stage, l1, same_stage, keep, Check, Tables}
use proxy_harv.Model.Store.{insert_check, has_check, put_latest, latest_of, latest_by_vantage}
use proxy_harv.Probe.{Outcome}
use proxy_harv.Metrics.{Registry}
use proxy_harv.Wire.{JobNode, JobBatch, ResultItem, ResultsBatch}
use proxy_harv.Coordinator.Aggregate.Verdict.{proves, any_l1}
use proxy_harv.Coordinator.Ingest.{
  Context, check_of, ingest_inserted, ingest_result, ingest_items, ingest_results,
}
use proxy_harv.Coordinator.Ingest.Redelivery.{ingest_inserted-checks}
use proxy_harv.Worker.{
  Prober, Clock, measure, item_of, probe_node, probe_nodes, ack, nak, process_job,
}

module _ (fl : Floats) where
  -- A success has no error code, and a failure has one.
  abbrev pub IsReported : ResultItem fl → Type 0
  IsReported r =
      ((r.passed ≡ true) × (r.error_code ≡ none)) ⊎ ((r.passed ≡ false) × (r.error_code ≢ none))

  item_of-IsReported : (now i : ℕ) (res : Outcome fl) → IsReported (item_of fl now i res)
  unfolding item_of
  item_of-IsReported now i res = elim (Bool-cases res.passed) [
    | inl e ↦ inl (e, rw e refl)
    | inr e ↦ inr (e, rw e (λ x. cc))
  ]

  probe_nodes_lem :
      (p : Prober fl) (vantage : Bytes) (clock : Clock fl) (stage : Stage) (ns : List JobNode)
      (reg : Registry fl)
      → (map (λ r. r.node_id) (probe_nodes fl p vantage clock stage ns reg).0
          ≡ map (λ n. n.node_id) ns)
        × All IsReported (probe_nodes fl p vantage clock stage ns reg).0
  unfolding probe_nodes probe_node item_of
  probe_nodes_lem p vantage clock stage [] reg = (refl, tt)
  probe_nodes_lem p vantage clock stage (n ∷ ns) reg =
      let reg' = (probe_node fl p vantage (clock.now n) (clock.took n) stage n reg).1 in
      let (ids, reported) = probe_nodes_lem p vantage clock stage ns reg' in
      (
        ap (n.node_id ∷◌) ids,
        (item_of-IsReported (clock.now n) n.node_id (measure fl p stage n), reported),
      )

  -- `processJob` of any job publishes, under the vantage of the worker and the stage of the job, one
  -- result for each node of the shuffled job, in its order, with an error code exactly for the
  -- failures; and it acknowledges the job exactly if the bus confirms this batch.
  pub process_job-reports :
      (p : Prober fl) (vantage : Bytes) (clock : Clock fl) (shuffle : List JobNode → List JobNode)
      (published : ResultsBatch fl → Bool) (job : JobBatch) (reg : Registry fl)
      → ((process_job fl p vantage clock shuffle published job reg).0.vantage ≡ vantage)
        × ((process_job fl p vantage clock shuffle published job reg).0.stage ≡ job.stage)
        × (map (λ r. r.node_id) (process_job fl p vantage clock shuffle published job reg).0.results
            ≡ map (λ n. n.node_id) (shuffle job.nodes))
        × All IsReported (process_job fl p vantage clock shuffle published job reg).0.results
        × (((process_job fl p vantage clock shuffle published job reg).1 ≡ ack)
            ↔ (published (process_job fl p vantage clock shuffle published job reg).0 ≡ true))
  unfolding process_job
  process_job-reports p vantage clock shuffle published job reg =
      let (ids, reported) = probe_nodes_lem p vantage clock job.stage (shuffle job.nodes) reg in
      (refl, refl, ids, reported, ack_iff _)
    where
      ack_iff : (b : Bool) → ((if b then ack else nak) ≡ ack) ↔ (b ≡ true)
      ack_iff b = ground arith

  -- A check that proves nothing cannot make a vantage prove something.
  any_l1-put_latest :
      (q : Bytes → Bool) (c : Check fl) (m : List (Bytes × Check fl))
      → proves fl c ≡ false
      → any_l1 fl q (put_latest fl c m) ≡ true
      → any_l1 fl q m ≡ true
  unfolding put_latest
  any_l1-put_latest q c [] h e = ground arith
  any_l1-put_latest q c ((v, d) ∷ m) h e = ground (arith, any_l1-put_latest q c m h)

  latest_by_vantage-insert_check :
      (q : Bytes → Bool) (c : Check fl) (db : Tables fl) (i : ℕ)
      → proves fl c ≡ false
      → any_l1 fl q (latest_by_vantage fl (insert_check fl c db).0 i) ≡ true
      → any_l1 fl q (latest_by_vantage fl db i) ≡ true
  unfolding latest_by_vantage insert_check keep latest_of
  latest_by_vantage-insert_check q c db i h e = elim (Bool-cases (has_check fl c db.checks)) [
    | inl f ↦ rw f at e
    | inr f ↦ (elim (Bool-cases (c.node_id == i)) [
      | inl g ↦ any_l1-put_latest q c _ h (rw (f, g) at e)
      | inr g ↦ rw (f, g) at e
    ])
  ]

  latest_by_vantage-checks :
      (q : Bytes → Bool) (i : ℕ) (d e : Tables fl)
      → d.checks ≡ e.checks
      → any_l1 fl q (latest_by_vantage fl d i) ≡ true
      → any_l1 fl q (latest_by_vantage fl e i) ≡ true
  unfolding latest_by_vantage
  latest_by_vantage-checks q i d e h p = rw h at p

  proves-check_of :
      (now : ℕ) (batch : ResultsBatch fl) (r : ResultItem fl)
      → same_stage batch.stage l1 ≡ false
      → proves fl (check_of fl now batch r) ≡ false
  unfolding check_of
  proves-check_of now batch r h = rw h refl

  ingest_items-any_l1 :
      (q : Bytes → Bool) (x : Context fl) (batch : ResultsBatch fl) (rs : List (ResultItem fl))
      (db : Tables fl) (i : ℕ)
      → same_stage batch.stage l1 ≡ false
      → any_l1 fl q (latest_by_vantage fl (ingest_items fl x batch rs db).0 i) ≡ true
      → any_l1 fl q (latest_by_vantage fl db i) ≡ true
  unfolding ingest_items ingest_result
  ingest_items-any_l1 q x batch [] db i h e = e
  ingest_items-any_l1 q x batch (r ∷ rs) db i h e =
      let c = check_of fl x.now batch r in
      let stored = insert_check fl c db in
      latest_by_vantage-insert_check q c db i (proves-check_of x.now batch r h) (
        latest_by_vantage-checks q i (ingest_inserted fl x batch.stage r stored).0 stored.0
          (ingest_inserted-checks fl x batch r stored)
          (ingest_items-any_l1 q x batch rs (ingest_inserted fl x batch.stage r stored).0 i h e))

  -- Take a job whose stage is not L1, such as the VAL jobs of validators. When the coordinator has
  -- ingested what `processJob` publishes for it, whatever the probes find, a vantage of the given
  -- kind (such as an edge) has a passed L1 check as its latest check of a node only if some vantage
  -- of that kind had one before.
  pub process_job-never_promotes :
      (q : Bytes → Bool) (p : Prober fl) (vantage : Bytes) (clock : Clock fl)
      (shuffle : List JobNode → List JobNode) (published : ResultsBatch fl → Bool) (job : JobBatch)
      (reg : Registry fl) (x : Context fl) (db : Tables fl) (i : ℕ)
      → same_stage job.stage l1 ≡ false
      → any_l1 fl q (
          latest_by_vantage fl
            (ingest_results fl x (process_job fl p vantage clock shuffle published job reg).0 db).0
            i)
        ≡ true
      → any_l1 fl q (latest_by_vantage fl db i) ≡ true
  unfolding process_job ingest_results
  process_job-never_promotes q p vantage clock shuffle published job reg x db i h e =
      let out = (process_job fl p vantage clock shuffle published job reg).0 in
      ingest_items-any_l1 q x out out.results db i h e
