-- ===== src/Api/Admin.antt =====
-- The handlers of proxies/cmd/api/main.go that change the tables, and the check of the token.
use proxy_harv.Prelude.{not, ◌||◌, Option, none, some, [], ◌∷◌, if◌then◌else◌}
use proxy_harv.Text.{Bytes, codes, str_eq, is_empty}
use proxy_harv.Text.Number.{ℤ, pos, negsuc}
use proxy_harv.Floats.{Floats}
use proxy_harv.Model.{Tables}
use proxy_harv.Model.Catalog.{upsert_vantage, delete_vantage, upsert_source, delete_source}
use proxy_harv.Api.{
  SourceBody, VantageBody, App, source_id, vantage_id, no_body, Reply, reply, fail, str_or,
  enabled_or_true, note_of,
}

module _ (fl : Floats) where
  -- `handleAdminPostSource`
  unfoldable pub post_source : Option SourceBody → Tables fl → Reply fl × Tables fl
  unfolding str_or enabled_or_true note_of upsert_source
  post_source none db = (fail 400 (codes "body must be {url, kind, enabled, note}"), db)
  post_source (some req) db =
      let (db', i) =
        upsert_source fl req.url (str_or req.kind (codes "sub")) (enabled_or_true req.enabled)
          (note_of req.note) db in
      if is_empty req.url
      then (fail 400 (codes "body must be {url, kind, enabled, note}"), db)
      else (reply 201 (source_id i), db')

  -- `handleAdminDeleteSource`; the ids of the rows are not negative
  unfoldable pub delete_source_of : Option ℤ → Tables fl → Reply fl × Tables fl
  unfolding delete_source
  delete_source_of none db = (fail 400 (codes "bad id"), db)
  delete_source_of (some (negsuc n)) db = (reply 204 no_body, db)
  delete_source_of (some (pos n)) db = (reply 204 no_body, delete_source fl n db)

  -- `handleAdminPostVantage`
  unfoldable pub post_vantage : Option VantageBody → Tables fl → Reply fl × Tables fl
  unfolding str_eq enabled_or_true upsert_vantage
  post_vantage none db =
      (fail 400 (codes "body must be {id, kind: cloud|edge, region, enabled}"), db)
  post_vantage (some req) db =
      let kinds = str_eq req.kind (codes "cloud") || str_eq req.kind (codes "edge") in
      if is_empty req.id || not kinds
      then (fail 400 (codes "body must be {id, kind: cloud|edge, region, enabled}"), db)
      else (
        reply 201 (vantage_id req.id),
        upsert_vantage fl
            (record {
              id = req.id;
              is_edge_kind = str_eq req.kind (codes "edge");
              region = req.region;
              enabled = enabled_or_true req.enabled;
              last_heartbeat = none;
            })
            db,
      )

  -- `handleAdminDeleteVantage`
  unfoldable pub delete_vantage_of : Bytes → Tables fl → Reply fl × Tables fl
  unfolding delete_vantage
  delete_vantage_of [] db = (fail 400 (codes "bad id"), db)
  delete_vantage_of (c ∷ s) db = (reply 204 no_body, delete_vantage fl (c ∷ s) db)

  -- `admin`: the handler behind the check of the token
  unfoldable pub admin : App → Bytes → Reply fl × Tables fl → Tables fl → Reply fl × Tables fl
  unfolding str_eq
  admin app token next db =
      if is_empty app.admin_token
      then (fail 503 (codes "admin disabled"), db)
      else if str_eq token app.admin_token
      then next
      else (fail 401 (codes "bad token"), db)
