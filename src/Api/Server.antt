-- ===== src/Api/Server.antt =====
-- The routes of proxies/cmd/api/main.go.
use proxy_harv.Prelude.{false, Option, List, if◌then◌else◌}
use proxy_harv.Text.{Bytes, codes}
use proxy_harv.Text.Number.{atoi}
use proxy_harv.Runtime.{Runtime}
use proxy_harv.Floats.{Floats}
use proxy_harv.Model.{Tables}
use proxy_harv.Model.Catalog.{list_vantages, list_sources}
use proxy_harv.Api.{
  Route, cities, nodes, node, sub, publishes, healthz, admin_list_sources, admin_post_source,
  admin_delete_source, admin_list_vantages, admin_post_vantage, admin_delete_vantage, Request, App,
  text, sources_body, vantages_body, Reply, reply, is_admin,
}
use proxy_harv.Api.Public.{handle_cities, handle_nodes, handle_node, handle_sub, handle_publishes}
use proxy_harv.Api.Admin.{post_source, delete_source_of, post_vantage, delete_vantage_of, admin}

module _ (fl : Floats) (rt : Runtime) (app : App) (average : List (Option fl.F) → Option fl.F)
    (distinct : List Bytes → List Bytes) where
  -- the handler of a route behind the check of the token, if it has one
  unfoldable pub handle_route : Route → (Bytes → Bytes) → Tables fl → Reply fl × Tables fl
  unfolding handle_cities handle_nodes handle_node handle_sub handle_publishes list_sources
      list_vantages post_source delete_source_of post_vantage delete_vantage_of atoi
  handle_route cities query db = (handle_cities fl average distinct query db, db)
  handle_route nodes query db = (handle_nodes fl query db, db)
  handle_route (node id) query db = (handle_node fl rt id db, db)
  handle_route sub query db = (handle_sub fl app query db, db)
  handle_route publishes query db = (handle_publishes fl db, db)
  handle_route healthz query db = (reply 200 (text (codes "ok")), db)
  handle_route admin_list_sources query db =
      (reply 200 (sources_body (list_sources fl false db)), db)
  handle_route (admin_post_source req) query db = post_source fl req db
  handle_route (admin_delete_source id) query db = delete_source_of fl (atoi id) db
  handle_route admin_list_vantages query db =
      (reply 200 (vantages_body (list_vantages fl false db)), db)
  handle_route (admin_post_vantage req) query db = post_vantage fl req db
  handle_route (admin_delete_vantage id) query db = delete_vantage_of fl id db

  unfoldable pub serve : Request → Tables fl → Reply fl × Tables fl
  unfolding handle_route is_admin admin
  serve r db =
      let next = handle_route r.route r.query db in
      if is_admin r.route then admin fl app r.token next db else next
