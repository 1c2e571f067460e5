-- ===== src/Coordinator/Ingest/Overtaken.antt =====
-- A check of another stage that is later than a passed L1 check.
use mathlib.Core.List.{Perm}
use proxy_harv.Prelude.{
  ℕ, ◌<◌, Bool, true, false, some, List, [], ◌∷◌, ◌==◌, ◌≡◌, refl, ap, ◌∙◌, arith, All,
  if◌then◌else◌, Bool-cases, inl, inr, ◌⊎◌,
}
use proxy_harv.Text.{Bytes, str_eq}
use proxy_harv.Floats.{Floats}
use proxy_harv.Model.{dead, l1, same_stage, Check, NodeRow, Tables, keep}
use proxy_harv.Model.Store.{
  get_node, same_check, has_check, insert_check, later, put_latest, latest_of, latest_by_vantage,
}
use proxy_harv.Model.Store.Rows.{str_eq_refl}
use proxy_harv.Wire.{ResultItem, ResultsBatch}
use proxy_harv.Coordinator.Aggregate.Verdict.{deserved_status, recompute_node-verdict}
use proxy_harv.Coordinator.Ingest.{Context, check_of, ingest_inserted, ingest_result}

module _ (fl : Floats) where
  -- All checks are from the vantage of `c`, and earlier.
  abbrev pub Precede : Check fl → List (Check fl) → Type 0
  Precede c = All (λ d. (d.vantage ≡ c.vantage) × (d.ts < c.ts))

  -- At most one entry, of the vantage of `c` and earlier than it.
  abbrev Single : Check fl → List (Bytes × Check fl) → Type 0
  Single c m = (m ≡ []) ⊎ ((d : Check fl) × (m ≡ (c.vantage, d) ∷ []) × (d.ts < c.ts))

  put_latest-same :
      (e d : Check fl) (v : Bytes)
      → str_eq e.vantage v ≡ true
      → put_latest fl e ((v, d) ∷ []) ≡ (v, if later fl d e then d else e) ∷ []
  unfolding put_latest
  put_latest-same e d v h = rw h refl

  put_latest-Single :
      (c e : Check fl) (m : List (Bytes × Check fl))
      → e.vantage ≡ c.vantage
      → e.ts < c.ts
      → Single c m
      → Single c (put_latest fl e m)
  unfolding put_latest
  put_latest-Single c e m hv ht (inl z) = inr (e, rw z (ap (λ v. (v, e) ∷ []) hv), ht)
  put_latest-Single c e m hv ht (inr (d, z, lt)) =
      let same : str_eq e.vantage c.vantage ≡ true = rw hv (str_eq_refl c.vantage) in
      elim (Bool-cases (later fl d e)) [
        | inl f ↦ inr (d, rw z (put_latest-same e d c.vantage same ∙ rw f refl), lt)
        | inr f ↦ inr (e, rw z (put_latest-same e d c.vantage same ∙ rw f refl), ht)
      ]

  latest_of-Single :
      (c : Check fl) (ds : List (Check fl)) → Precede c ds → Single c (latest_of fl ds)
  unfolding latest_of
  latest_of-Single c [] h = inl refl
  latest_of-Single c (d ∷ ds) (h, hs) =
      put_latest-Single c d (latest_of fl ds) h.0 h.1 (latest_of-Single c ds hs)

  put_latest-newest :
      (c : Check fl) (m : List (Bytes × Check fl))
      → Single c m
      → put_latest fl c m ≡ (c.vantage, c) ∷ []
  unfolding put_latest
  put_latest-newest c m (inl z) = rw z refl
  put_latest-newest c m (inr (d, z, lt)) =
      let old : later fl d c ≡ false = ground arith in
      rw z (put_latest-same c d c.vantage (str_eq_refl c.vantage) ∙ rw old refl)

  abbrev pub of_node : ℕ → Check fl → Bool
  of_node i d = d.node_id == i

  has_check-newest :
      (c : Check fl) (ds : List (Check fl))
      → Precede c (keep (of_node c.node_id) ds)
      → has_check fl c ds ≡ false
  unfolding has_check same_check keep
  has_check-newest c [] h = refl
  has_check-newest c (d ∷ ds) h = elim (Bool-cases (of_node c.node_id d)) [
    | inl e ↦
        let h' : Precede c (d ∷ keep (of_node c.node_id) ds) = rw e at h in
        let rest = has_check-newest c ds h'.1 in let lt = h'.0.1 in ground arith
    | inr e ↦
        let h' : Precede c (keep (of_node c.node_id) ds) = rw e at h in
        let rest = has_check-newest c ds h' in ground arith
  ]

  latest_by_vantage-newest :
      (c : Check fl) (db : Tables fl)
      → Precede c (keep (of_node c.node_id) db.checks)
      → latest_by_vantage fl (record db { checks = c ∷ db.checks }) c.node_id ≡ (c.vantage, c) ∷ []
  unfolding latest_by_vantage keep latest_of
  latest_by_vantage-newest c db h =
      let self : of_node c.node_id c ≡ true = ground arith in
      rw self (put_latest-newest c _ (latest_of-Single c (keep (of_node c.node_id) db.checks) h))

  insert_check-newest :
      (c : Check fl) (db : Tables fl)
      → Precede c (keep (of_node c.node_id) db.checks)
      → insert_check fl c db ≡ (record db { checks = c ∷ db.checks }, true)
  unfolding insert_check
  insert_check-newest c db h = rw (has_check-newest c db.checks h) refl

  deserved_status-dead :
      (v : Bytes) (c : Check fl)
      → same_stage c.stage l1 ≡ false
      → deserved_status fl ((v, c) ∷ []) ≡ dead
  deserved_status-dead v c h = rw h refl

  -- Take a batch whose stage is not L1 (but L0, L2 or VAL) and a result for a node of the database
  -- that is later than all checks of the node, which are all from the vantage of the batch. After
  -- this result, passed or not, the node is dead, even if a passed L1 check has made it alive.
  pub ingest_result-overtaken :
      (x : Context fl) (batch : ResultsBatch fl) (r : ResultItem fl) (db : Tables fl)
      (row : NodeRow fl)
      → ((m : List (Bytes × Check fl)) → Perm (x.visit m) m)
      → get_node fl db r.node_id ≡ some row
      → same_stage batch.stage l1 ≡ false
      → Precede (check_of fl x.now batch r) (keep (of_node r.node_id) db.checks)
      → (row' : NodeRow fl) × (get_node fl (ingest_result fl x batch r db).0 r.node_id ≡ some row')
        × (row'.status ≡ dead)
  unfolding ingest_result ingest_inserted check_of get_node
  ingest_result-overtaken x batch r db row visits e stage h =
      let c = check_of fl x.now batch r in
      let db' : Tables fl = record db { checks = c ∷ db.checks } in
      let (row', found, status, _) =
        recompute_node-verdict fl x.weights x.now x.visit x.visit' r.node_id db' row visits e in
      (
        row',
        rw (insert_check-newest c db h) found,
        status
            ∙ ap (deserved_status fl) (latest_by_vantage-newest c db h)
            ∙ deserved_status-dead batch.vantage c stage,
      )
