-- ===== src/Api.antt =====
-- proxies/cmd/api/main.go: the routes and the handlers, as functions of a request and of the tables.
-- The decoding of JSON bodies, the printing of replies as JSON, the stream of events and the files of
-- the frontend are not in the model: a reply holds the values that are printed.
pub mod Public
pub mod Admin
pub mod Server
pub mod Guard
pub mod Listing
pub mod Subscription
use proxy_harv.Prelude.{
  ℕ, ◌+◌, Bool, true, false, not, ◌&&◌, ◌||◌, Option, none, some, List, [], ◌∷◌, ◌++◌, map, ltb,
  leb, if◌then◌else◌,
}
use proxy_harv.Text.{Bytes, codes, str_eq, is_empty, join}
use proxy_harv.Text.Number.{ℤ, pos, negsuc, atoi}
use proxy_harv.Text.Url.{query_escape}
use proxy_harv.Base64.{encode}
use proxy_harv.Runtime.{Runtime}
use proxy_harv.Floats.{Floats}
use proxy_harv.Parse.Error.{Result, ok, err}
use proxy_harv.Parse.Line.{Node, parse_line}
use proxy_harv.Parse.Outbound.{Fields}
use proxy_harv.Parse.Many.{share_name}
use proxy_harv.Model.{Vantage, Source, Publish, Tables}
use proxy_harv.Model.Catalog.{
  upsert_vantage, delete_vantage, list_vantages, list_sources, upsert_source, delete_source,
  list_publishes,
}
use proxy_harv.Model.Cards.{NodeCard, node_cards, node_card}
use proxy_harv.Model.Cities.{CityAgg, city_aggregates}
use proxy_harv.Coordinator.Publishing.{base_of}

-- What the bodies of the two POST requests decode to.
pub record SourceBody : Type 0 where
  pub url : Bytes
  pub kind : Bytes
  pub enabled : Option Bool
  pub note : Bytes

pub record VantageBody : Type 0 where
  pub id : Bytes
  pub kind : Bytes
  pub region : Option Bytes
  pub enabled : Option Bool

-- The patterns of the mux with their path values; a body is `none` where it does not decode.
pub data Route : Type 0 where
  cities : Route
  nodes : Route
  node : Bytes → Route
  sub : Route
  publishes : Route
  healthz : Route
  admin_list_sources : Route
  admin_post_source : Option SourceBody → Route
  admin_delete_source : Bytes → Route
  admin_list_vantages : Route
  admin_post_vantage : Option VantageBody → Route
  admin_delete_vantage : Bytes → Route

-- A request: the route, the query's values ("" for a key that is absent), and X-Admin-Token.
pub record Request : Type 0 where
  pub route : Route
  pub query : Bytes → Bytes
  pub token : Bytes

-- `apiApp` without the store and the bus
pub record App : Type 0 where
  pub admin_token : Bytes
  pub sub_interval : ℤ

-- class != "" && class != "rf" && class != "cloud" is an error
unfoldable pub is_class : Bytes → Bool
unfolding str_eq
is_class class = str_eq class (codes "rf") || str_eq class (codes "cloud")

-- the parameter limit, if it is a number from 1 to 500
unfoldable pub limit_in : ℕ → Option ℤ → ℤ
limit_in def none = pos def
limit_in def (some (negsuc n)) = pos def
limit_in def (some (pos n)) = if ltb 0 n && leb n 500 then pos n else pos def

unfoldable pub limit_of : ℕ → Bytes → ℤ
unfolding atoi limit_in
limit_of def value = if is_empty value then pos def else limit_in def (atoi value)

-- `strOr`
unfoldable pub str_or : Bytes → Bytes → Bytes
str_or [] def = def
str_or (c ∷ s) def = c ∷ s

-- a node's id in a path, which is positive
unfoldable pub positive_id : Option ℤ → Option ℕ
positive_id none = none
positive_id (some (negsuc n)) = none
positive_id (some (pos n)) = if ltb 0 n then some n else none

unfoldable pub outbound_of : Runtime → Bytes → Option Fields
unfolding parse_line
outbound_of rt link = elim (parse_line rt link) [
  | ok none ↦ none
  | ok (some n) ↦ some n.outbound
  | err e ↦ none
]

unfoldable pub latency_or_zero : Option ℤ → ℤ
latency_or_zero none = pos 0
latency_or_zero (some ms) = ms

-- What an absent `enabled` means.
unfoldable pub enabled_or_true : Option Bool → Bool
enabled_or_true none = true
enabled_or_true (some b) = b

unfoldable pub note_of : Bytes → Option Bytes
note_of [] = none
note_of (c ∷ s) = some (c ∷ s)

-- `routes`: which handlers `admin` wraps
unfoldable pub is_admin : Route → Bool
is_admin cities = false
is_admin nodes = false
is_admin (node id) = false
is_admin sub = false
is_admin publishes = false
is_admin healthz = false
is_admin admin_list_sources = true
is_admin (admin_post_source req) = true
is_admin (admin_delete_source id) = true
is_admin admin_list_vantages = true
is_admin (admin_post_vantage req) = true
is_admin (admin_delete_vantage id) = true

pub data Body (fl : Floats) : Type 0 where
  failure : Bytes → Body fl
  text : Bytes → Body fl
  cities_body : List (CityAgg fl) → Body fl
  nodes_body : List (NodeCard fl) → Body fl
  node_body : NodeCard fl → Option Fields → Body fl
  sub_body : ℤ → Bytes → Body fl
  publishes_body : List Publish → Body fl
  sources_body : List Source → Body fl
  vantages_body : List Vantage → Body fl
  source_id : ℕ → Body fl
  vantage_id : Bytes → Body fl
  no_body : Body fl

pub record Reply (fl : Floats) : Type 0 where
  pub status : ℕ
  pub body : Body fl

abbrev pub reply : {fl : Floats} → ℕ → Body fl → Reply fl
reply status body = record { status = status; body = body }

-- `fail`
abbrev pub fail : {fl : Floats} → ℕ → Bytes → Reply fl
fail status message = reply status (failure message)
