-- ===== src/Api/Public.antt =====
-- The handlers of proxies/cmd/api/main.go that anyone may call.
use proxy_harv.Prelude.{◌||◌, Option, none, some, List, [], ◌∷◌, ◌++◌, map, if◌then◌else◌}
use proxy_harv.Text.{Bytes, codes, is_empty, join}
use proxy_harv.Text.Number.{atoi}
use proxy_harv.Text.Url.{query_escape}
use proxy_harv.Base64.{encode}
use proxy_harv.Runtime.{Runtime}
use proxy_harv.Floats.{Floats}
use proxy_harv.Parse.Many.{share_name}
use proxy_harv.Model.{Tables}
use proxy_harv.Model.Catalog.{list_publishes}
use proxy_harv.Model.Cards.{NodeCard, node_cards, node_card}
use proxy_harv.Model.Cities.{CityAgg, city_aggregates}
use proxy_harv.Coordinator.Publishing.{base_of}
use proxy_harv.Api.{
  App, cities_body, nodes_body, node_body, sub_body, publishes_body, Reply, reply, fail, is_class,
  limit_of, str_or, positive_id, outbound_of, latency_or_zero,
}

module _ (fl : Floats) where
  -- `handleNodes`
  unfoldable pub strip_link : NodeCard fl → NodeCard fl
  strip_link c = record c { share_link = [] }

  unfoldable pub handle_nodes : (Bytes → Bytes) → Tables fl → Reply fl
  unfolding node_cards limit_of strip_link
  handle_nodes query db = reply 200 (
      nodes_body (
        map strip_link (
          node_cards fl (query (codes "city")) (query (codes "class")) (query (codes "proto"))
            (limit_of 100 (query (codes "limit"))) db)))

  unfoldable pub node_reply : Runtime → Option (NodeCard fl) → Reply fl
  unfolding outbound_of
  node_reply rt none = fail 404 (codes "node not found")
  node_reply rt (some card) = reply 200 (node_body card (outbound_of rt card.share_link))

  -- `handleNode`
  unfoldable pub handle_node : Runtime → Bytes → Tables fl → Reply fl
  unfolding atoi positive_id node_card node_reply
  handle_node rt id db = elim (positive_id (atoi id)) [
    | none ↦ fail 400 (codes "bad node id")
    | some i ↦ node_reply rt (node_card fl i db)
  ]

  -- a line of the subscription
  unfoldable pub sub_line : NodeCard fl → Bytes
  unfolding base_of query_escape share_name latency_or_zero str_or
  sub_line c =
      base_of c.share_link
      ++ (b'#'
          ∷ query_escape (
              share_name (str_or c.cc (codes "XX")) (str_or c.city (codes "Unknown"))
                (latency_or_zero c.latency_ms) c.class))

  unfoldable pub sub_text : List (NodeCard fl) → Bytes
  unfolding sub_line encode join
  sub_text cards = encode (join b'\n' (map sub_line cards))

  -- `handleSub`
  unfoldable pub handle_sub : App → (Bytes → Bytes) → Tables fl → Reply fl
  unfolding is_class node_cards limit_of sub_text str_or
  handle_sub app query db =
      let class = str_or (query (codes "class")) (codes "rf") in
      if is_class class
      then reply 200 (
          sub_body app.sub_interval (
            sub_text (
              node_cards fl [] class (query (codes "proto")) (limit_of 50 (query (codes "limit")))
                db)))
      else fail 400 (codes "class must be rf|cloud")

  abbrev cities_reply : Option (List (CityAgg fl)) → Reply fl
  cities_reply none = fail 500 (codes "db error")
  cities_reply (some cs) = reply 200 (cities_body cs)

  -- `handleCities`; the class may also be empty
  module _ (average : List (Option fl.F) → Option fl.F) (distinct : List Bytes → List Bytes) where
    unfoldable pub handle_cities : (Bytes → Bytes) → Tables fl → Reply fl
    unfolding is_class city_aggregates
    handle_cities query db =
        let class = query (codes "class") in
        if is_empty class || is_class class
        then cities_reply (city_aggregates fl average distinct class db)
        else fail 400 (codes "class must be rf|cloud")

  -- `handlePublishes`
  unfoldable pub handle_publishes : Tables fl → Reply fl
  unfolding list_publishes
  handle_publishes db = reply 200 (publishes_body (list_publishes fl 50 db))
