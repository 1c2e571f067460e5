-- ===== src/Tests/Web.antt =====
-- Requests to the API.
use proxy_harv.Prelude.{
  ℕ, ◌+◌, true, Option, none, some, List, [], ◌∷◌, length, ◌≡◌, refl, arith, inl,
}
use proxy_harv.Text.{Bytes, codes}
use proxy_harv.Text.Number.{pos}
use proxy_harv.Model.{NodeRow, Tables, alive, dead, cloud, rf, keep}
use proxy_harv.Model.Cards.{node_cards}
use proxy_harv.Model.Cities.{CityAgg, city_aggregates}
use proxy_harv.Model.Cities.Counts.{cloud_or_rf, on_map, counted, city_aggregates-counted}
use proxy_harv.Api.{App, Request, admin_post_source, is_admin, is_class, limit_of, str_or}
use proxy_harv.Api.Public.{handle_sub}
use proxy_harv.Api.Server.{serve}
use proxy_harv.Api.Guard.{IsRefusal, serve-stranger}
use proxy_harv.Api.Subscription.{IsReadBack, text_in, handle_sub-IsReadBack}
use proxy_harv.Tests.{toy, toy_rt}
use proxy_harv.Tests.Rows.{row, tables}

abbrev shown_row : NodeRow toy
shown_row = record row { status = alive; best_class = rf; city = some (codes "Berlin") }

abbrev shown_tables : Tables toy
shown_tables = record tables { nodes = shown_row ∷ record shown_row { id = 2; city = none } ∷ [] }

-- The sum of the numbers, if there is one.
abbrev average : List (Option ℕ) → Option ℕ
average [] = none
average (none ∷ xs) = average xs
average (some x ∷ xs) = some (elim (average xs) [ none ↦ x | some y ↦ x + y ])

abbrev distinct : List Bytes → List Bytes
distinct xs = xs

-- Two rows in a city, one without a city, and one that is not alive.
abbrev berlin : NodeRow toy
berlin = record shown_row { lat = some 52; lon = some 13 }

abbrev berlin_tables : Tables toy
berlin_tables = record tables {
  nodes =
      berlin
      ∷ record berlin { id = 2; city = none }
      ∷ record berlin { id = 3; best_class = cloud }
      ∷ record berlin { id = 4; status = dead }
      ∷ [];
}

city_aggregates-counted_example :
    (cs : List (CityAgg toy)) × (city_aggregates toy average distinct (codes "cloud") berlin_tables
      ≡ some cs)
    × (counted toy cs ≡ length (keep (on_map toy cloud_or_rf) berlin_tables.nodes))
city_aggregates-counted_example =
    city_aggregates-counted toy average distinct cloud_or_rf berlin_tables (λ x xs. (_, refl))
      (
        (λ e. (_, _, _, refl, refl, refl)),
        ((λ e. cc), ((λ e. (_, _, _, refl, refl, refl)), ((λ e. (_, _, _, refl, refl, refl)), tt))),
      )

abbrev app : App
app = record { admin_token = codes "secret"; sub_interval = pos 6 }

abbrev no_query : Bytes → Bytes
no_query key = []

abbrev intruder : Request
intruder = record {
  route =
      admin_post_source (some (record { url = codes "u"; kind = []; enabled = none; note = [] }));
  query = no_query;
  token = codes "guess";
}

serve-stranger_example :
    ((serve toy toy_rt app average distinct intruder shown_tables).1 ≡ shown_tables)
    × (is_admin intruder.route ≡ true
        → IsRefusal toy toy_rt app average distinct shown_tables
            (serve toy toy_rt app average distinct intruder shown_tables))
serve-stranger_example =
    serve-stranger toy toy_rt app average distinct intruder shown_tables (inl (λ e. cc))

no_query-is_class : is_class (str_or [] (codes "rf")) ≡ true
unfolding is_class str_or
no_query-is_class = refl

handle_sub-IsReadBack_example :
    ((handle_sub toy app no_query shown_tables).status ≡ 200)
    × IsReadBack toy toy_rt
        (node_cards toy [] (str_or [] (codes "rf")) [] (limit_of 50 []) shown_tables)
        (text_in toy (handle_sub toy app no_query shown_tables).body)
handle_sub-IsReadBack_example =
    handle_sub-IsReadBack toy toy_rt app no_query shown_tables
      ((ground arith, ground arith, ground arith), ((ground arith, ground arith, tt), tt))
      no_query-is_class
