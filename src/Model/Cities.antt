-- ===== src/Model/Cities.antt =====
-- `CityAggregates` of proxies/internal/model/pg.go. How the database averages a column of floats, and
-- the distinct names of a column in its order, are arguments.
pub mod Counts
use proxy_harv.Prelude.{
  ℕ, ◌+◌, Bool, true, false, ◌&&◌, ◌==◌, Option, none, some, List, [], ◌∷◌, ◌++◌, ltb, length, map,
  if◌then◌else◌,
}
use proxy_harv.Text.{Bytes, codes, str_eq}
use proxy_harv.Text.Number.{ℤ, pos, negsuc}
use proxy_harv.Floats.{Floats}
use proxy_harv.Model.{
  Stage, l1, same_stage, is_alive, keep, insert_by, order_by, NodeRow, Check, Tables,
}
use proxy_harv.Model.Store.{later, first_of_list}
use proxy_harv.Model.Cards.{matches_class, latency_of}

-- GROUP BY treats nulls as equal.
unfoldable pub same_text : Option Bytes → Option Bytes → Bool
unfolding str_eq
same_text none none = true
same_text (some a) (some b) = str_eq a b
same_text _ _ = false

-- min(a, b), where a null does not count
unfoldable pub lower_int : ℤ → ℤ → ℤ
lower_int (pos a) (pos b) = if ltb b a then pos b else pos a
lower_int (pos a) (negsuc b) = negsuc b
lower_int (negsuc a) (pos b) = negsuc a
lower_int (negsuc a) (negsuc b) = if ltb a b then negsuc b else negsuc a

unfoldable pub lower : Option ℤ → Option ℤ → Option ℤ
unfolding lower_int
lower none b = b
lower (some a) none = some a
lower (some a) (some b) = some (lower_int a b)

module _ (fl : Floats) where
  open fl use {F}

  pub record Group : Type 0 where
    pub city : Bytes
    pub cc : Option Bytes
    pub rows : List (NodeRow fl)

  -- `CityAgg`
  pub record CityAgg : Type 0 where
    pub city : Bytes
    pub cc : Bytes
    pub lat : F
    pub lon : F
    pub count : ℕ
    pub best_latency_ms : Option ℤ
    pub protocols : List Bytes

  -- GROUP BY n.city, n.cc
  unfoldable pub add_row : Bytes → NodeRow fl → List Group → List Group
  unfolding same_text str_eq
  add_row city n [] = record { city = city; cc = n.cc; rows = n ∷ [] } ∷ []
  add_row city n (g ∷ gs) =
      let rest = add_row city n gs in
      if str_eq g.city city && same_text g.cc n.cc
      then record g { rows = n ∷ g.rows } ∷ gs
      else g ∷ rest

  -- n.city IS NOT NULL, and the group
  unfoldable pub group_row : NodeRow fl → List Group → List Group
  unfolding add_row
  group_row n gs = elim n.city [ none ↦ gs | some city ↦ add_row city n gs ]

  unfoldable pub groups_of : List (NodeRow fl) → List Group
  unfolding group_row
  groups_of [] = []
  groups_of (n ∷ ns) = group_row n (groups_of ns)

  unfoldable pub is_counted : Bytes → NodeRow fl → Bool
  unfolding matches_class is_alive
  is_counted class n = is_alive n.status && matches_class class n.best_class

  -- the latency of the newest L1 check that passed
  unfoldable pub passed_l1 : Tables fl → ℕ → Option ℤ
  unfolding keep order_by same_stage latency_of
  passed_l1 db i = latency_of fl (
      first_of_list fl (
        order_by (later fl)
          (keep (λ c. c.node_id == i && (same_stage c.stage l1 && c.passed)) db.checks)))

  unfoldable pub lowest : Tables fl → List (NodeRow fl) → Option ℤ
  unfolding passed_l1 lower
  lowest db [] = none
  lowest db (n ∷ ns) = lower (passed_l1 db n.id) (lowest db ns)

  module _ (average : List (Option F) → Option F) (distinct : List Bytes → List Bytes) where
    -- the row of a group, with the values of the columns that may be null
    abbrev pub city_row : Tables fl → Group → Bytes → F → F → CityAgg
    city_row db g cc lat lon = record {
      city = g.city;
      cc = cc;
      lat = lat;
      lon = lon;
      count = length g.rows;
      best_latency_ms = lowest db g.rows;
      protocols = distinct (map (λ n. n.protocol) g.rows);
    }

    -- rows.Scan: a null country or position does not fit into the fields of `CityAgg`
    unfoldable pub city_agg : Tables fl → Group → Option CityAgg
    unfolding lowest
    city_agg db g = elim g.cc [
      | none ↦ none
      | some cc ↦ (elim (average (map (λ n. n.lat) g.rows)) [
        | none ↦ none
        | some lat ↦ (elim (average (map (λ n. n.lon) g.rows)) [
          | none ↦ none
          | some lon ↦ some (city_row db g cc lat lon)
        ])
      ])
    ]

    -- the loop over the rows; the first one that cannot be scanned ends it with an error
    unfoldable pub scan_cities : Tables fl → List Group → Option (List CityAgg)
    unfolding city_agg
    scan_cities db [] = some []
    scan_cities db (g ∷ gs) =
        let rest = scan_cities db gs in
        elim (city_agg db g) [
          | none ↦ none
          | some a ↦ (elim rest [ none ↦ none | some cs ↦ some (a ∷ cs) ])
        ]

    abbrev pub more_nodes : Group → Group → Bool
    more_nodes a b = ltb (length b.rows) (length a.rows)

    -- `CityAggregates`; `none` is an error
    unfoldable pub city_aggregates : Bytes → Tables fl → Option (List CityAgg)
    unfolding scan_cities groups_of is_counted keep order_by
    city_aggregates class db =
        scan_cities db (order_by more_nodes (groups_of (keep (is_counted class) db.nodes)))
