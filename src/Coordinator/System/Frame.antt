-- ===== src/Coordinator/System/Frame.antt =====
-- What the goroutines of the coordinator leave of the table of publishes, publishing apart.
use proxy_harv.Prelude.{
  ℕ, ◌+◌, ◌==◌, Bool, true, false, Option, none, some, List, [], ◌∷◌, ◌≡◌, ◌∙◌, refl, Bool-cases,
  Option-cases, inl, inr, if◌then◌else◌,
}
use proxy_harv.Text.{Bytes, codes, str_eq, strip_prefix}
use proxy_harv.Floats.{Floats}
use proxy_harv.Model.{find, Publish, Check, Stage, Tables}
use proxy_harv.Model.Store.{
  NewNode, get_node, get_node_by_hash, upsert_node, update_node_geo, update_node_aggregate,
  has_check, insert_check, delete_long_dead,
}
use proxy_harv.Model.Catalog.{upsert_vantage}
use proxy_harv.Wire.{RawNode, RawBatch, ResultItem, ResultsBatch}
use proxy_harv.Coordinator.Aggregate.{recompute_node}
use proxy_harv.Coordinator.Ingest.{
  Located, locate_node, ingest_raw, ingest_batch, Context, check_of, ingest_inserted, ingest_result,
  ingest_items, ingest_results, Heartbeat, on_heartbeat,
}
use proxy_harv.Coordinator.Consuming.{ingest_each, ingest_raws}
use proxy_harv.Coordinator.System.{maintenance_tick}

module _ (fl : Floats) where
  -- What only a publication changes.
  abbrev pub versions : Tables fl → List Publish
  versions db = db.publishes

  upsert_node-versions :
      (now : ℕ) (n : NewNode fl) (db : Tables fl)
      → versions (upsert_node fl now n db).0 ≡ versions db
  unfolding upsert_node
  upsert_node-versions now n db = elim (Option-cases (get_node_by_hash fl db n.uri_hash)) [
    | inl e ↦ rw (e, upsert_node) refl
    | inr (old, e) ↦ rw (e, upsert_node) refl
  ]

  locate_node-versions :
      (locate : Bytes → Located fl) (i : ℕ) (host : Bytes) (db : Tables fl)
      → versions (locate_node fl locate i host db) ≡ versions db
  unfolding locate_node update_node_geo
  locate_node-versions locate i host db = elim (Option-cases (locate host).place) [
    | inl e ↦ rw (e, locate_node) refl
    | inr (p, e) ↦ rw (e, locate_node) refl
  ]

  if-versions :
      (b : Bool) (d e db : Tables fl)
      → versions d ≡ versions db
      → versions e ≡ versions db
      → versions (if b then d else e) ≡ versions db
  if-versions true d e db hd he = hd
  if-versions false d e db hd he = he

  ingest_raw-versions :
      (now : ℕ) (locate : Option (Bytes → Located fl)) (rn : RawNode) (db : Tables fl)
      → versions (ingest_raw fl now locate rn db) ≡ versions db
  unfolding ingest_raw
  ingest_raw-versions now none rn db = upsert_node-versions now _ db
  ingest_raw-versions now (some find) rn db =
      if-versions _ _ _ db (locate_node-versions find _ rn.host _ ∙ upsert_node-versions now _ db)
        (upsert_node-versions now _ db)

  ingest_batch-versions :
      (now : ℕ) (locate : Option (Bytes → Located fl)) (rns : List RawNode) (db : Tables fl)
      → versions (ingest_batch fl now locate rns db) ≡ versions db
  unfolding ingest_batch
  ingest_batch-versions now locate [] db = refl
  ingest_batch-versions now locate (rn ∷ rns) db =
      ingest_batch-versions now locate rns (ingest_raw fl now locate rn db)
      ∙ ingest_raw-versions now locate rn db

  pub ingest_raws-versions :
      (now : ℕ → ℕ) (locate : Option (Bytes → Located fl)) (k : ℕ) (bs : List RawBatch)
      (db : Tables fl)
      → versions (ingest_raws fl now locate k bs db) ≡ versions db
  unfolding ingest_raws
  ingest_raws-versions now locate k [] db = refl
  ingest_raws-versions now locate k (b ∷ bs) db =
      ingest_raws-versions now locate (k + 1) bs (ingest_batch fl (now k) locate b.nodes db)
      ∙ ingest_batch-versions (now k) locate b.nodes db

  recompute_node-versions :
      (x : Context fl) (i : ℕ) (db : Tables fl)
      → versions (recompute_node fl x.weights x.now x.visit x.visit' i db) ≡ versions db
  unfolding recompute_node update_node_aggregate
  recompute_node-versions x i db = elim (Option-cases (get_node fl db i)) [
    | inl e ↦ rw (e, recompute_node) refl
    | inr (row, e) ↦ rw (e, recompute_node) refl
  ]

  insert_check-versions :
      (c : Check fl) (db : Tables fl) → versions (insert_check fl c db).0 ≡ versions db
  unfolding insert_check
  insert_check-versions c db = elim (Bool-cases (has_check fl c db.checks)) [
    | inl e ↦ rw (e, insert_check) refl
    | inr e ↦ rw (e, insert_check) refl
  ]

  ingest_inserted-versions :
      (x : Context fl) (stage : Stage) (r : ResultItem fl) (p : Tables fl × Bool)
      → versions (ingest_inserted fl x stage r p).0 ≡ versions p.0
  unfolding ingest_inserted
  ingest_inserted-versions x stage r (db, false) = refl
  ingest_inserted-versions x stage r (db, true) = recompute_node-versions x r.node_id db

  ingest_items-versions :
      (x : Context fl) (b : ResultsBatch fl) (rs : List (ResultItem fl)) (db : Tables fl)
      → versions (ingest_items fl x b rs db).0 ≡ versions db
  unfolding ingest_items ingest_result
  ingest_items-versions x b [] db = refl
  ingest_items-versions x b (r ∷ rs) db =
      ingest_items-versions x b rs (ingest_result fl x b r db).0
      ∙ (ingest_inserted-versions x b.stage r (insert_check fl (check_of fl x.now b r) db)
          ∙ insert_check-versions (check_of fl x.now b r) db)

  pub ingest_each-versions :
      (x : ℕ → Context fl) (k : ℕ) (bs : List (ResultsBatch fl)) (db : Tables fl)
      → versions (ingest_each fl x k bs db).0 ≡ versions db
  unfolding ingest_each ingest_results
  ingest_each-versions x k [] db = refl
  ingest_each-versions x k (b ∷ bs) db =
      ingest_each-versions x (k + 1) bs (ingest_results fl (x k) b db).0
      ∙ ingest_items-versions (x k) b b.results db

  pub on_heartbeat-versions :
      (key : Bytes) (hb : Heartbeat fl) (db : Tables fl)
      → versions (on_heartbeat fl key hb db) ≡ versions db
  unfolding on_heartbeat upsert_vantage
  on_heartbeat-versions key hb db = elim (Option-cases (strip_prefix (codes "vantage.") key)) [
    | inl e ↦ rw (e, on_heartbeat) refl
    | inr (rest, e) ↦
        rw (e, on_heartbeat)
          (elim (Option-cases (find (λ w. str_eq w.id hb.vantage) db.vantages)) [
            | inl f ↦ rw (f, upsert_vantage) refl
            | inr (old, f) ↦ rw (f, upsert_vantage) refl
          ])
  ]

  pub maintenance_tick-versions :
      (stays : ℕ → Check fl → Bool) (hour_of_day now : ℕ) (db : Tables fl)
      → versions (maintenance_tick fl stays hour_of_day now db) ≡ versions db
  unfolding maintenance_tick delete_long_dead
  maintenance_tick-versions stays hour_of_day now db = elim (Bool-cases (hour_of_day == 3)) [
    | inl e ↦ rw (e, maintenance_tick) refl
    | inr e ↦ rw (e, maintenance_tick) refl
  ]
