-- ===== src/Coordinator/Ingest/Redelivery.antt =====
-- A batch of results that the bus delivers a second time.
use proxy_harv.Prelude.{
  ℕ, Bool, true, false, none, List, [], ◌∷◌, ◌≡◌, ◌≢◌, refl, arith, All, Option-cases, inl, inr,
}
use proxy_harv.Floats.{Floats}
use proxy_harv.Model.{Check, Tables}
use proxy_harv.Model.Store.{has_check, insert_check, update_node_aggregate}
use proxy_harv.Model.Store.Rows.{
  has_check-insert_check, has_check-insert_check_mono, insert_check_old,
}
use proxy_harv.Wire.{ResultItem, ResultsBatch}
use proxy_harv.Coordinator.Aggregate.{recompute_node}
use proxy_harv.Coordinator.Ingest.{
  Context, check_of, ingest_inserted, ingest_result, ingest_items, ingest_results,
}

module _ (fl : Floats) where
  recompute_node-checks :
      (x : Context fl) (i : ℕ) (db : Tables fl)
      → (recompute_node fl x.weights x.now x.visit x.visit' i db).checks ≡ db.checks
  unfolding recompute_node update_node_aggregate
  recompute_node-checks x i db = ground arith

  pub ingest_inserted-checks :
      (x : Context fl) (batch : ResultsBatch fl) (r : ResultItem fl) (p : Tables fl × Bool)
      → (ingest_inserted fl x batch.stage r p).0.checks ≡ p.0.checks
  unfolding ingest_inserted
  ingest_inserted-checks x batch r (db, false) = refl
  ingest_inserted-checks x batch r (db, true) = recompute_node-checks x r.node_id db

  -- The check of a result is in the table.
  abbrev pub IsStored : Context fl → ResultsBatch fl → Tables fl → ResultItem fl → Type 0
  IsStored x batch db r = has_check fl (check_of fl x.now batch r) db.checks ≡ true

  ingest_result-stores :
      (x : Context fl) (batch : ResultsBatch fl) (r : ResultItem fl) (db : Tables fl)
      → IsStored x batch (ingest_result fl x batch r db).0 r
  unfolding ingest_result
  ingest_result-stores x batch r db =
      rw (ingest_inserted-checks x batch r (insert_check fl (check_of fl x.now batch r) db))
        (has_check-insert_check fl (check_of fl x.now batch r) db)

  ingest_result-keeps :
      (x : Context fl) (batch : ResultsBatch fl) (r : ResultItem fl) (c : Check fl) (db : Tables fl)
      → has_check fl c db.checks ≡ true
      → has_check fl c (ingest_result fl x batch r db).0.checks ≡ true
  unfolding ingest_result
  ingest_result-keeps x batch r c db h =
      rw (ingest_inserted-checks x batch r (insert_check fl (check_of fl x.now batch r) db))
        (has_check-insert_check_mono fl (check_of fl x.now batch r) c db h)

  pub ingest_items-keeps :
      (x : Context fl) (batch : ResultsBatch fl) (rs : List (ResultItem fl)) (c : Check fl)
      (db : Tables fl)
      → has_check fl c db.checks ≡ true
      → has_check fl c (ingest_items fl x batch rs db).0.checks ≡ true
  unfolding ingest_items
  ingest_items-keeps x batch [] c db h = h
  ingest_items-keeps x batch (r ∷ rs) c db h =
      ingest_items-keeps x batch rs c (ingest_result fl x batch r db).0
        (ingest_result-keeps x batch r c db h)

  pub ingest_items-stores :
      (x : Context fl) (batch : ResultsBatch fl) (rs : List (ResultItem fl)) (db : Tables fl)
      → All (IsStored x batch (ingest_items fl x batch rs db).0) rs
  unfolding ingest_items
  ingest_items-stores x batch [] db = tt
  ingest_items-stores x batch (r ∷ rs) db =
      let db' = (ingest_result fl x batch r db).0 in
      (
        ingest_items-keeps x batch rs (check_of fl x.now batch r) db'
            (ingest_result-stores x batch r db),
        ingest_items-stores x batch rs db',
      )

  ingest_result_old :
      (x : Context fl) (batch : ResultsBatch fl) (r : ResultItem fl) (db : Tables fl)
      → IsStored x batch db r
      → ingest_result fl x batch r db ≡ (db, [])
  unfolding ingest_result ingest_inserted
  ingest_result_old x batch r db h = rw (insert_check_old fl (check_of fl x.now batch r) db h) refl

  pub ingest_items_old :
      (x : Context fl) (batch : ResultsBatch fl) (rs : List (ResultItem fl)) (db : Tables fl)
      → All (IsStored x batch db) rs
      → ingest_items fl x batch rs db ≡ (db, [])
  unfolding ingest_items
  ingest_items_old x batch [] db h = refl
  ingest_items_old x batch (r ∷ rs) db (h, hs) =
      rw (ingest_result_old x batch r db h) (rw (ingest_items_old x batch rs db hs) refl)

  -- The result has a time that parses.
  abbrev pub IsTimed : ResultItem fl → Type 0
  IsTimed r = r.ts ≢ none

  check_of-IsTimed :
      (now now' : ℕ) (batch : ResultsBatch fl) (r : ResultItem fl)
      → IsTimed r
      → check_of fl now batch r ≡ check_of fl now' batch r
  unfolding check_of
  check_of-IsTimed now now' batch r h = elim (Option-cases r.ts) [
    | inl e ↦ absurd (h e)
    | inr (t, e) ↦ rw e refl
  ]

  pub IsStored-later :
      (x y : Context fl) (batch : ResultsBatch fl) (db : Tables fl) (rs : List (ResultItem fl))
      → All IsTimed rs
      → All (IsStored x batch db) rs
      → All (IsStored y batch db) rs
  IsStored-later x y batch db [] h s = tt
  IsStored-later x y batch db (r ∷ rs) (h, hs) (s, ss) =
      (rw (check_of-IsTimed y.now x.now batch r h) s, IsStored-later x y batch db rs hs ss)

  -- If every result of a batch has a time that parses, then `ingestResults` of the same batch a
  -- second time, at whatever later time and with whatever weights and map orders, changes no table
  -- and publishes no job.
  pub ingest_results_redelivered :
      (x y : Context fl) (batch : ResultsBatch fl) (db : Tables fl)
      → All IsTimed batch.results
      → ingest_results fl y batch (ingest_results fl x batch db).0
        ≡ ((ingest_results fl x batch db).0, [])
  unfolding ingest_results
  ingest_results_redelivered x y batch db h =
      let db' = (ingest_items fl x batch batch.results db).0 in
      ingest_items_old y batch batch.results db' (
        IsStored-later x y batch db' batch.results h (ingest_items-stores x batch batch.results db))
