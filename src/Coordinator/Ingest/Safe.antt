-- ===== src/Coordinator/Ingest/Safe.antt =====
-- The constraints of the tables under the coordinator's messages.
use proxy_harv.Prelude.{
  ℕ, Bool, true, false, Option, none, some, List, [], ◌∷◌, if◌then◌else◌, Option-cases, inl, inr,
}
use proxy_harv.Text.{Bytes}
use proxy_harv.Floats.{Floats}
use proxy_harv.Model.{Stage, Tables}
use proxy_harv.Model.Store.{get_node}
use proxy_harv.Model.Store.Invariant.{
  IsStore, update_node_aggregate-IsStore, update_node_geo-IsStore, insert_check-IsStore,
  upsert_node-IsStore,
}
use proxy_harv.Wire.{RawNode, ResultItem, ResultsBatch}
use proxy_harv.Coordinator.Aggregate.{recompute_node}
use proxy_harv.Coordinator.Ingest.{
  Located, locate_node, ingest_raw, ingest_batch, Context, check_of, ingest_inserted, ingest_result,
  ingest_items, ingest_results,
}

module _ (fl : Floats) where
  recompute_node-IsStore :
      (x : Context fl) (i : ℕ) (db : Tables fl)
      → IsStore fl db
      → IsStore fl (recompute_node fl x.weights x.now x.visit x.visit' i db)
  unfolding recompute_node
  recompute_node-IsStore x i db h = elim (Option-cases (get_node fl db i)) [
    | inl e ↦ rw (e, recompute_node) h
    | inr (row, e) ↦ rw (e, recompute_node) (update_node_aggregate-IsStore fl _ db h)
  ]

  locate_node-IsStore :
      (locate : Bytes → Located fl) (i : ℕ) (host : Bytes) (db : Tables fl)
      → IsStore fl db
      → IsStore fl (locate_node fl locate i host db)
  unfolding locate_node
  locate_node-IsStore locate i host db h = elim (Option-cases (locate host).place) [
    | inl e ↦
        rw (e, locate_node) (update_node_geo-IsStore fl i (locate host).ip none none none none db h)
    | inr ((cc, city, lat, lon), e) ↦
        rw (e, locate_node)
          (update_node_geo-IsStore fl i (locate host).ip (some cc) (some city) (some lat) (some lon)
            db h)
  ]

  if-IsStore :
      (b : Bool) (d e : Tables fl) → IsStore fl d → IsStore fl e → IsStore fl (if b then d else e)
  if-IsStore true d e hd he = hd
  if-IsStore false d e hd he = he

  ingest_raw-IsStore :
      (now : ℕ) (locate : Option (Bytes → Located fl)) (rn : RawNode) (db : Tables fl)
      → IsStore fl db
      → IsStore fl (ingest_raw fl now locate rn db)
  unfolding ingest_raw
  ingest_raw-IsStore now none rn db h = upsert_node-IsStore fl now _ db h
  ingest_raw-IsStore now (some find) rn db h =
      if-IsStore _ _ _ (locate_node-IsStore find _ rn.host _ (upsert_node-IsStore fl now _ db h))
        (upsert_node-IsStore fl now _ db h)

  -- `ingestBatch` of any batch keeps the hashes, ids and check rows unique, and the next id ahead of
  -- the ids in use.
  pub ingest_batch-IsStore :
      (now : ℕ) (locate : Option (Bytes → Located fl)) (rns : List RawNode) (db : Tables fl)
      → IsStore fl db
      → IsStore fl (ingest_batch fl now locate rns db)
  unfolding ingest_batch
  ingest_batch-IsStore now locate [] db h = h
  ingest_batch-IsStore now locate (rn ∷ rns) db h =
      ingest_batch-IsStore now locate rns _ (ingest_raw-IsStore now locate rn db h)

  ingest_inserted-IsStore :
      (x : Context fl) (stage : Stage) (r : ResultItem fl) (p : Tables fl × Bool)
      → IsStore fl p.0
      → IsStore fl (ingest_inserted fl x stage r p).0
  unfolding ingest_inserted
  ingest_inserted-IsStore x stage r (db, false) h = h
  ingest_inserted-IsStore x stage r (db, true) h = recompute_node-IsStore x r.node_id db h

  ingest_items-IsStore :
      (x : Context fl) (batch : ResultsBatch fl) (rs : List (ResultItem fl)) (db : Tables fl)
      → IsStore fl db
      → IsStore fl (ingest_items fl x batch rs db).0
  unfolding ingest_items ingest_result
  ingest_items-IsStore x batch [] db h = h
  ingest_items-IsStore x batch (r ∷ rs) db h = ingest_items-IsStore x batch rs _ (
      ingest_inserted-IsStore x batch.stage r _
        (insert_check-IsStore fl (check_of fl x.now batch r) db h))

  -- `ingestResults` of any batch, at any time and with any weights and map orders, keeps the hashes,
  -- ids and check rows unique, and the next id ahead of the ids in use.
  pub ingest_results-IsStore :
      (x : Context fl) (batch : ResultsBatch fl) (db : Tables fl)
      → IsStore fl db
      → IsStore fl (ingest_results fl x batch db).0
  unfolding ingest_results
  ingest_results-IsStore x batch db h = ingest_items-IsStore x batch batch.results db h
