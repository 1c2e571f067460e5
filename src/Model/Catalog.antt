-- ===== src/Model/Catalog.antt =====
-- The queries on vantages, sources and publishes of proxies/internal/model/pg.go.
use proxy_harv.Prelude.{
  ℕ, ◌+◌, Bool, not, Option, none, some, List, [], ◌∷◌, ltb, ◌==◌, take, if◌then◌else◌,
}
use proxy_harv.Text.{Bytes, str_eq}
use proxy_harv.Floats.{Floats}
use proxy_harv.Model.{Vantage, Source, Publish, keep, find, update_where, order_by, Tables}

module _ (fl : Floats) where
  -- a conflict leaves `enabled` as it is
  unfoldable pub upsert_vantage : Vantage → Tables fl → Tables fl
  unfolding find update_where str_eq
  upsert_vantage v db = elim (find (λ w. str_eq w.id v.id) db.vantages) [
    | none ↦ record db { vantages = v ∷ db.vantages }
    | some _ ↦ record db {
      vantages =
          update_where (λ w. str_eq w.id v.id)
            (λ w. record w {
              is_edge_kind = v.is_edge_kind;
              region = v.region;
              last_heartbeat = v.last_heartbeat;
            })
            db.vantages;
    }
  ]

  unfoldable pub delete_vantage : Bytes → Tables fl → Tables fl
  unfolding keep str_eq
  delete_vantage id db = record db { vantages = keep (λ w. not (str_eq w.id id)) db.vantages }

  unfoldable pub list_vantages : Bool → Tables fl → List Vantage
  unfolding keep
  list_vantages enabled_only db =
      if enabled_only then keep (λ w. w.enabled) db.vantages else db.vantages

  unfoldable pub list_sources : Bool → Tables fl → List Source
  unfolding keep
  list_sources enabled_only db =
      if enabled_only then keep (λ s. s.enabled) db.sources else db.sources

  -- the tables, and the id of the row
  unfoldable pub upsert_source : Bytes → Bytes → Bool → Option Bytes → Tables fl → Tables fl × ℕ
  unfolding find update_where str_eq
  upsert_source url kind enabled note db = elim (find (λ s. str_eq s.url url) db.sources) [
    | none ↦ (
      record db {
        sources =
            record {
              id = db.next_source;
              url = url;
              kind = kind;
              enabled = enabled;
              last_fetch_at = none;
              last_status = none;
              note = note;
            }
            ∷ db.sources;
        next_source = db.next_source + 1;
      },
      db.next_source,
    )
    | some old ↦ (
      record db {
        sources =
            update_where (λ s. str_eq s.url url)
              (λ s. record s { kind = kind; enabled = enabled; note = note }) db.sources;
        next_source = db.next_source + 1;
      },
      old.id,
    )
  ]

  unfoldable pub delete_source : ℕ → Tables fl → Tables fl
  unfolding keep
  delete_source i db = record db { sources = keep (λ s. not (s.id == i)) db.sources }

  unfoldable pub update_source_status : ℕ → Bytes → ℕ → Tables fl → Tables fl
  unfolding update_where
  update_source_status i status at db = record db {
    sources =
        update_where (λ s. s.id == i)
          (λ s. record s { last_status = some status; last_fetch_at = some at }) db.sources;
  }

  -- `InsertPublish` at the time `now`: the row with its version and time
  unfoldable pub insert_publish : ℕ → Publish → Tables fl → Tables fl × Publish
  insert_publish now p db =
      let q = record p { version = db.next_version; created_at = now } in
      (record db { publishes = q ∷ db.publishes; next_version = db.next_version + 1 }, q)

  unfoldable pub list_publishes : ℕ → Tables fl → List Publish
  unfolding order_by
  list_publishes limit db = take limit (order_by (λ p q. ltb q.version p.version) db.publishes)

  unfoldable pub latest_publish : Tables fl → Option Publish
  unfolding list_publishes
  latest_publish db = elim (list_publishes 1 db) [ [] ↦ none | p ∷ ps ↦ some p ]
