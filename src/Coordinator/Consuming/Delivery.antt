-- ===== src/Coordinator/Consuming/Delivery.antt =====
-- Messages of results that the bus delivers again.
use mathlib.Core.Path.{subst}
use mathlib.Core.List.{Memᴰ}
use proxy_harv.Prelude.{
  ℕ, ◌+◌, Bool, true, false, Option, some, List, [], ◌∷◌, ◌≡◌, ap, refl, sym, All, Option-cases,
  inl, inr,
}
use proxy_harv.Floats.{Floats}
use proxy_harv.Model.{Tables}
use proxy_harv.Wire.{ResultItem, ResultsBatch}
use proxy_harv.Bus.{gives, decode_msgs, fetch_msgs, handled}
use proxy_harv.Coordinator.Ingest.{Context, check_of, ingest_items, ingest_results}
use proxy_harv.Coordinator.Ingest.Redelivery.{
  IsStored, IsTimed, ingest_items-keeps, ingest_items-stores, ingest_items_old, IsStored-later,
}
use proxy_harv.Coordinator.Consuming.{ingest_each, results_round}

module _ {ℓ κ} {Msg : Type ℓ} {T : Type κ} (decode : Msg → Option T) (Q : T → Type 0) where
  -- The value of the message, if it has one.
  abbrev pub OfMsg : Msg → Type κ
  OfMsg m = (v : T) → decode m ≡ some v → Q v

  out-All : (ms : List Msg) → All OfMsg ms → All Q (decode_msgs decode ms).out
  unfolding decode_msgs
  out-All [] h = tt
  out-All (m ∷ ms) (h, hs) = elim (Option-cases (decode m)) [
    | inl e ↦ rw (e, decode_msgs) (out-All ms hs)
    | inr (v, e) ↦ rw (e, decode_msgs) (h v e, out-All ms hs)
  ]

  -- the value of a message that has one
  value-Q : (m : Msg) (v w : T) → decode m ≡ some v → decode m ≡ some w → Q v → Q w
  value-Q m v w e f q = let same : v ≡ w = cc in subst Q same q

  msgs-All : (ms : List Msg) → All Q (decode_msgs decode ms).out → All OfMsg ms
  unfolding decode_msgs
  msgs-All [] h = tt
  msgs-All (m ∷ ms) h = elim (Option-cases (decode m)) [
    | inl e ↦
        (let hs : All Q (decode_msgs decode ms).out = rw (e, decode_msgs) at h in
          (λ v f. cc, msgs-All ms hs))
    | inr (v, e) ↦
        (let hs : Q v × All Q (decode_msgs decode ms).out = rw (e, decode_msgs) at h in
          (λ w f. value-Q m v w e f hs.0, msgs-All ms hs.1))
  ]

  pick : (m : Msg) (ms : List Msg) → Memᴰ m ms → All OfMsg ms → OfMsg m
  pick m [] d hs = elim d [ ]
  pick m (x ∷ ms) (Memᴰ.head e) (h, hs) = subst OfMsg (sym e) h
  pick m (x ∷ ms) (Memᴰ.tail d) (h, hs) = pick m ms d hs

  among-All : (ms ms' : List Msg) → All (λ m. Memᴰ m ms) ms' → All OfMsg ms → All OfMsg ms'
  among-All ms [] h hs = tt
  among-All ms (m ∷ ms') (d, ds) hs = (pick m ms d hs, among-All ms ms' ds hs)

module _ (fl : Floats) where
  -- Every result of the batch has a time that parses.
  abbrev pub IsTimedBatch : ResultsBatch fl → Type 0
  IsTimedBatch b = All (IsTimed fl) b.results

  -- Every check of the batch is in the table, at whatever time it is made.
  abbrev IsKept : Tables fl → ResultsBatch fl → Type 0
  IsKept db b = (y : Context fl) → All (IsStored fl y b db) b.results

  items-IsStored :
      (x y : Context fl) (b c : ResultsBatch fl) (rs : List (ResultItem fl)) (db : Tables fl)
      → All (IsStored fl y c db) rs
      → All (IsStored fl y c (ingest_items fl x b b.results db).0) rs
  items-IsStored x y b c [] db h = tt
  items-IsStored x y b c (r ∷ rs) db (h, hs) = (
    ingest_items-keeps fl x b b.results (check_of fl y.now c r) db h,
    items-IsStored x y b c rs db hs,
  )

  ingest_results-IsKept :
      (x : Context fl) (b c : ResultsBatch fl) (db : Tables fl)
      → IsKept db c
      → IsKept (ingest_results fl x b db).0 c
  unfolding ingest_results
  ingest_results-IsKept x b c db h y = items-IsStored x y b c c.results db (h y)

  ingest_results-stores :
      (x : Context fl) (b : ResultsBatch fl) (db : Tables fl)
      → IsTimedBatch b
      → IsKept (ingest_results fl x b db).0 b
  unfolding ingest_results
  ingest_results-stores x b db timed y =
      IsStored-later fl x y b (ingest_items fl x b b.results db).0 b.results timed
        (ingest_items-stores fl x b b.results db)

  ingest_each-IsKept :
      (x : ℕ → Context fl) (k : ℕ) (bs : List (ResultsBatch fl)) (c : ResultsBatch fl)
      (db : Tables fl)
      → IsKept db c
      → IsKept (ingest_each fl x k bs db).0 c
  unfolding ingest_each
  ingest_each-IsKept x k [] c db h = h
  ingest_each-IsKept x k (b ∷ bs) c db h =
      ingest_each-IsKept x (k + 1) bs c (ingest_results fl (x k) b db).0
        (ingest_results-IsKept (x k) b c db h)

  ingest_each-stores :
      (x : ℕ → Context fl) (k : ℕ) (bs : List (ResultsBatch fl)) (db : Tables fl)
      → All IsTimedBatch bs
      → All (IsKept (ingest_each fl x k bs db).0) bs
  unfolding ingest_each
  ingest_each-stores x k [] db h = tt
  ingest_each-stores x k (b ∷ bs) db (h, hs) =
      let db' = (ingest_results fl (x k) b db).0 in
      (
        ingest_each-IsKept x (k + 1) bs b db' (ingest_results-stores (x k) b db h),
        ingest_each-stores x (k + 1) bs db' hs,
      )

  ingest_results_old :
      (y : Context fl) (b : ResultsBatch fl) (db : Tables fl)
      → IsKept db b
      → ingest_results fl y b db ≡ (db, [])
  unfolding ingest_results
  ingest_results_old y b db h = ingest_items_old fl y b b.results db (h y)

  ingest_each_old :
      (y : ℕ → Context fl) (k : ℕ) (bs : List (ResultsBatch fl)) (db : Tables fl)
      → All (IsKept db) bs
      → ingest_each fl y k bs db ≡ (db, [])
  unfolding ingest_each
  ingest_each_old y k [] db h = refl
  ingest_each_old y k (b ∷ bs) db (h, hs) =
      rw (ingest_results_old (y k) b db h) (rw (ingest_each_old y (k + 1) bs db hs) refl)

  -- Let every result in the messages of a round have a time that parses, and let the fetch of that
  -- round have no error. Then a later round of any messages of that round, in any order and number, at
  -- whatever times and with whatever weights and map orders, whether its fetch has an error or not,
  -- changes no table and publishes no job.
  pub results_round-redelivered {ℓ} :
      {Msg : Type ℓ} (decode : Msg → Option (ResultsBatch fl)) (x y : ℕ → Context fl)
      (ms ms' : List Msg) (failed : Bool) (db : Tables fl)
      → All (OfMsg decode IsTimedBatch) ms
      → All (λ m. Memᴰ m ms) ms'
      → ((results_round fl decode y
            (gives ms' failed)
            (results_round fl decode x (gives ms false) db).tables).tables
          ≡ (results_round fl decode x (gives ms false) db).tables)
        × ((results_round fl decode y
              (gives ms' failed)
              (results_round fl decode x (gives ms false) db).tables).jobs
            ≡ [])
  unfolding results_round fetch_msgs handled ingest_each
  results_round-redelivered decode x y ms ms' true db timed again = (refl, refl)
  results_round-redelivered decode x y ms ms' false db timed again =
      let bs = (decode_msgs decode ms).out in
      let db' = (ingest_each fl x 0 bs db).0 in
      let kept = ingest_each-stores x 0 bs db (out-All decode IsTimedBatch ms timed) in
      let kept' =
        out-All decode (IsKept db') ms'
          (among-All decode (IsKept db') ms ms' again (msgs-All decode (IsKept db') ms kept)) in
      let same = ingest_each_old y 0 (decode_msgs decode ms').out db' kept' in
      (ap (λ p. p.0) same, ap (λ p. p.1) same)
