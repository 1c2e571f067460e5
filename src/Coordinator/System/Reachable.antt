-- ===== src/Coordinator/System/Reachable.antt =====
-- The constraints of the tables in every state that the coordinator reaches.
use proxy_harv.Prelude.{
  ℕ, ◌+◌, ◌==◌, ◌-◌, ◌*◌, Bool, not, ◌&&◌, Option, List, [], ◌∷◌, Bool-cases, Option-cases, inl,
  inr,
}
use proxy_harv.Text.{Bytes, codes, is_empty, str_eq, strip_prefix}
use proxy_harv.Runtime.{Runtime}
use proxy_harv.Floats.{Floats}
use proxy_harv.Model.{hour, find, keep, Vantage, Check, Tables}
use proxy_harv.Model.Store.{same_check, list_nodes_for_publish}
use proxy_harv.Model.Store.Invariant.{IsStore, Unique-keep, delete_long_dead-IsStore}
use proxy_harv.Model.Catalog.{upsert_vantage, insert_publish}
use proxy_harv.Wire.{RawBatch, ResultsBatch}
use proxy_harv.Bus.{fetch_msgs, handled}
use proxy_harv.Coordinator.Ingest.{Located, Context, Heartbeat, on_heartbeat}
use proxy_harv.Coordinator.Ingest.Safe.{ingest_batch-IsStore, ingest_results-IsStore}
use proxy_harv.Coordinator.Consuming.{ingest_each, ingest_raws, raw_round, results_round}
use proxy_harv.Coordinator.Publishing.{ids, should_publish, publish_version, publish_tick}
use proxy_harv.Coordinator.System.{
  maintenance_tick, Event, raws, results, heartbeat, publish, maintain, State, act, run_events,
  new_state,
}

module _ (fl : Floats) where
  ingest_each-IsStore :
      (x : ℕ → Context fl) (k : ℕ) (bs : List (ResultsBatch fl)) (db : Tables fl)
      → IsStore fl db
      → IsStore fl (ingest_each fl x k bs db).0
  unfolding ingest_each
  ingest_each-IsStore x k [] db h = h
  ingest_each-IsStore x k (b ∷ bs) db h =
      ingest_each-IsStore x (k + 1) bs _ (ingest_results-IsStore fl (x k) b db h)

  ingest_raws-IsStore :
      (now : ℕ → ℕ) (locate : Option (Bytes → Located fl)) (k : ℕ) (bs : List RawBatch)
      (db : Tables fl)
      → IsStore fl db
      → IsStore fl (ingest_raws fl now locate k bs db)
  unfolding ingest_raws
  ingest_raws-IsStore now locate k [] db h = h
  ingest_raws-IsStore now locate k (b ∷ bs) db h =
      ingest_raws-IsStore now locate (k + 1) bs _
        (ingest_batch-IsStore fl (now k) locate b.nodes db h)

  upsert_vantage-IsStore :
      (v : Vantage) (db : Tables fl) → IsStore fl db → IsStore fl (upsert_vantage fl v db)
  unfolding upsert_vantage
  upsert_vantage-IsStore v db h = elim (Option-cases (find (λ w. str_eq w.id v.id) db.vantages)) [
    | inl e ↦
        rw (e, upsert_vantage)
          record { hashes = h.hashes; ids = h.ids; serial = h.serial; checks = h.checks }
    | inr (old, e) ↦
        rw (e, upsert_vantage)
          record { hashes = h.hashes; ids = h.ids; serial = h.serial; checks = h.checks }
  ]

  on_heartbeat-IsStore :
      (key : Bytes) (hb : Heartbeat fl) (db : Tables fl)
      → IsStore fl db
      → IsStore fl (on_heartbeat fl key hb db)
  unfolding on_heartbeat
  on_heartbeat-IsStore key hb db h = elim (Option-cases (strip_prefix (codes "vantage.") key)) [
    | inl e ↦ rw (e, on_heartbeat) h
    | inr (rest, e) ↦ rw (e, on_heartbeat) (upsert_vantage-IsStore _ db h)
  ]

  maintenance_tick-IsStore :
      (stays : ℕ → Check fl → Bool) (hour_of_day now : ℕ) (db : Tables fl)
      → IsStore fl db
      → IsStore fl (maintenance_tick fl stays hour_of_day now db)
  unfolding maintenance_tick
  maintenance_tick-IsStore stays hour_of_day now db h = elim (Bool-cases (hour_of_day == 3)) [
    | inl e ↦
        rw (e, maintenance_tick)
          (delete_long_dead-IsStore fl (now - 14 * 24 * hour)
            (record db { checks = keep (stays now) db.checks })
            (record {
              hashes = h.hashes;
              ids = h.ids;
              serial = h.serial;
              checks = Unique-keep (same_check fl) (stays now) db.checks h.checks;
            }))
    | inr e ↦ rw (e, maintenance_tick) h
  ]

  module _ {ℓ} {Msg : Type ℓ} (rt : Runtime) (period : ℕ) (stays : ℕ → Check fl → Bool)
      (decode_raw : Msg → Option RawBatch) (decode_results : Msg → Option (ResultsBatch fl)) where
    act-IsStore :
        (e : Event fl Msg) (s : State fl)
        → IsStore fl s.tables
        → IsStore fl (act fl rt period stays decode_raw decode_results e s).tables
    unfolding act raw_round results_round publish_tick publish_version insert_publish
    act-IsStore (raws now locate msgs) s h =
        ingest_raws-IsStore now locate 0 (handled (fetch_msgs decode_raw msgs)) s.tables h
    act-IsStore (results context msgs) s h =
        ingest_each-IsStore context 0 (handled (fetch_msgs decode_results msgs)) s.tables h
    act-IsStore (heartbeat key hb) s h = on_heartbeat-IsStore key hb s.tables h
    act-IsStore (publish now) s h =
        let nodes = list_nodes_for_publish fl s.tables in
        elim (Bool-cases
          (not (is_empty nodes) && should_publish fl period now (ids fl nodes) s.loop)) [
            | inl e ↦
                rw (e, act, publish_tick)
                  record { hashes = h.hashes; ids = h.ids; serial = h.serial; checks = h.checks }
            | inr e ↦ rw (e, act, publish_tick) h
          ]
    act-IsStore (maintain hour_of_day now) s h =
        maintenance_tick-IsStore stays hour_of_day now s.tables h

    run_events-IsStore :
        (es : List (Event fl Msg)) (s : State fl)
        → IsStore fl s.tables
        → IsStore fl (run_events fl rt period stays decode_raw decode_results es s).tables
    unfolding run_events
    run_events-IsStore [] s h = h
    run_events-IsStore (e ∷ es) s h = run_events-IsStore es _ (act-IsStore e s h)

    -- From the tables of a new database, in any order of rounds of raw links and of results, whatever
    -- the messages hold and whether their fetch has an error or not, of heartbeats, of ticks of the publish loop and of the maintenance: the hashes
    -- and ids of the nodes and the rows of the checks stay unique, and the next id of a node stays
    -- ahead of the ids in use.
    pub run_events-reachable :
        (es : List (Event fl Msg))
        → IsStore fl
            (run_events fl rt period stays decode_raw decode_results es (new_state fl)).tables
    run_events-reachable es =
        run_events-IsStore es (new_state fl)
          (record { hashes = tt; ids = tt; serial = tt; checks = tt })
