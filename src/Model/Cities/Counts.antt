-- ===== src/Model/Cities/Counts.antt =====
-- What the cities of the map count.
use proxy_harv.Prelude.{
  ℕ, ◌+◌, Bool, true, false, ◌&&◌, Option, none, some, List, [], ◌∷◌, length, map, ◌≡◌, refl, ap,
  ◌∙◌, arith, Bool-cases, Option-cases, inl, inr, All,
}
use proxy_harv.Text.{Bytes, codes, str_eq}
use proxy_harv.Floats.{Floats}
use proxy_harv.Model.{
  Status, unknown, alive, dead, Class, no_class, cloud, rf, is_alive, keep, insert_by, order_by,
  NodeRow, Tables,
}
use proxy_harv.Model.Ordering.{All-order_by}
use proxy_harv.Model.Store.Invariant.{All-keep}
use proxy_harv.Model.Cards.{matches_class}
use proxy_harv.Model.Cities.{
  same_text, Group, CityAgg, add_row, group_row, groups_of, is_counted, city_row, city_agg,
  scan_cities, more_nodes, city_aggregates,
}

-- What the API is asked for.
pub data Wanted : Type 0 where
  everything only_rf cloud_or_rf : Wanted

abbrev pub text_of : Wanted → Bytes
text_of everything = []
text_of only_rf = codes "rf"
text_of cloud_or_rf = codes "cloud"

abbrev pub admits : Wanted → Class → Bool
admits everything class = true
admits only_rf rf = true
admits only_rf cloud = false
admits only_rf no_class = false
admits cloud_or_rf rf = true
admits cloud_or_rf cloud = true
admits cloud_or_rf no_class = false

abbrev pub lives : Status → Bool
lives alive = true
lives unknown = false
lives dead = false

lives-is_alive : (s : Status) → is_alive s ≡ lives s
unfolding is_alive
lives-is_alive unknown = refl
lives-is_alive alive = refl
lives-is_alive dead = refl

matches_class-admits : (w : Wanted) (c : Class) → matches_class (text_of w) c ≡ admits w c
unfolding matches_class
matches_class-admits everything c = refl
matches_class-admits only_rf no_class = refl
matches_class-admits only_rf cloud = refl
matches_class-admits only_rf rf = refl
matches_class-admits cloud_or_rf no_class = refl
matches_class-admits cloud_or_rf cloud = refl
matches_class-admits cloud_or_rf rf = refl

module _ (fl : Floats) where
  abbrev pub has_city : NodeRow fl → Bool
  has_city n = elim n.city [ none ↦ false | some city ↦ true ]

  -- The rows that the map shows.
  abbrev pub on_map : Wanted → NodeRow fl → Bool
  on_map w n = (lives n.status && admits w n.best_class) && has_city n

  -- A row with a city has a country and a position.
  abbrev pub IsLocated : NodeRow fl → Type 0
  IsLocated n =
      has_city n ≡ true
      → (country : Bytes) × (lat : fl.F) × (lon : fl.F) × (n.cc ≡ some country)
        × (n.lat ≡ some lat)
        × (n.lon ≡ some lon)

  keep-on_map :
      (w : Wanted) (ns : List (NodeRow fl))
      → length (keep has_city (keep (is_counted fl (text_of w)) ns)) ≡ length (keep (on_map w) ns)
  unfolding keep is_counted
  keep-on_map w [] = refl
  keep-on_map w (n ∷ ns) =
      let same : is_counted fl (text_of w) n ≡ (lives n.status && admits w n.best_class) =
        rw (lives-is_alive n.status, matches_class-admits w n.best_class) refl in
      ground (arith, keep-on_map w ns, same)

  unfoldable rows_in : List (Group fl) → ℕ
  rows_in [] = 0
  rows_in (g ∷ gs) = length g.rows + rows_in gs

  add_row-rows_in :
      (city : Bytes) (n : NodeRow fl) (gs : List (Group fl))
      → rows_in (add_row fl city n gs) ≡ rows_in gs + 1
  unfolding add_row rows_in
  add_row-rows_in city n [] = refl
  add_row-rows_in city n (g ∷ gs) = elim (Bool-cases (str_eq g.city city && same_text g.cc n.cc)) [
    | inl e ↦ rw (e, add_row) (omega arith)
    | inr e ↦ rw (e, add_row) (omega (arith, add_row-rows_in city n gs))
  ]

  groups_of-rows_in :
      (ns : List (NodeRow fl)) → rows_in (groups_of fl ns) ≡ length (keep has_city ns)
  unfolding groups_of group_row rows_in keep
  groups_of-rows_in [] = refl
  groups_of-rows_in (n ∷ ns) = elim (Option-cases n.city) [
    | inl e ↦ rw (e, groups_of, group_row) (groups_of-rows_in ns)
    | inr (city, e) ↦
        rw (e, groups_of, group_row)
          (add_row-rows_in city n (groups_of fl ns) ∙ omega (arith, groups_of-rows_in ns))
  ]

  insert_by-rows_in :
      (before : Group fl → Group fl → Bool) (a : Group fl) (gs : List (Group fl))
      → rows_in (insert_by before a gs) ≡ length a.rows + rows_in gs
  unfolding insert_by rows_in
  insert_by-rows_in before a [] = refl
  insert_by-rows_in before a (b ∷ bs) = elim (Bool-cases (before b a)) [
    | inl e ↦ rw (e, insert_by) (omega (arith, insert_by-rows_in before a bs))
    | inr e ↦ rw (e, insert_by) refl
  ]

  order_by-rows_in :
      (before : Group fl → Group fl → Bool) (gs : List (Group fl))
      → rows_in (order_by before gs) ≡ rows_in gs
  unfolding order_by rows_in
  order_by-rows_in before [] = refl
  order_by-rows_in before (a ∷ gs) =
      insert_by-rows_in before a (order_by before gs)
      ∙ ap (λ n. length a.rows + n) (order_by-rows_in before gs)

  -- The nodes that the cities count.
  abbrev pub counted : List (CityAgg fl) → ℕ
  counted [] = 0
  counted (a ∷ cs) = a.count + counted cs

  -- A group with a country, whose newest row has a position.
  abbrev IsPlaced : Group fl → Type 0
  IsPlaced g =
      (country : Bytes) × (n : NodeRow fl) × (ns : List (NodeRow fl)) × (lat : fl.F) × (lon : fl.F)
      × (g.cc ≡ some country)
      × (g.rows ≡ n ∷ ns)
      × (n.lat ≡ some lat)
      × (n.lon ≡ some lon)

  add_row-IsPlaced :
      (city : Bytes) (n : NodeRow fl) (gs : List (Group fl)) (country : Bytes) (lat lon : fl.F)
      → n.cc ≡ some country
      → n.lat ≡ some lat
      → n.lon ≡ some lon
      → All IsPlaced gs
      → All IsPlaced (add_row fl city n gs)
  unfolding add_row
  add_row-IsPlaced city n [] country lat lon e f g h =
      ((country, n, [], lat, lon, e, refl, f, g), tt)
  add_row-IsPlaced city n (b ∷ bs) country lat lon e f g
        ((country', n', ns', lat', lon', e', rows', f', g'), ps) =
      elim (Bool-cases (str_eq b.city city && same_text b.cc n.cc)) [
        | inl same ↦ rw (same, add_row) ((country', n, b.rows, lat, lon, e', refl, f, g), ps)
        | inr other ↦
            rw (other, add_row)
              (
                (country', n', ns', lat', lon', e', rows', f', g'),
                add_row-IsPlaced city n bs country lat lon e f g ps,
              )
      ]

  groups_of-IsPlaced : (ns : List (NodeRow fl)) → All IsLocated ns → All IsPlaced (groups_of fl ns)
  unfolding groups_of group_row
  groups_of-IsPlaced [] h = tt
  groups_of-IsPlaced (n ∷ ns) (h, hs) = elim (Option-cases n.city) [
    | inl e ↦ rw (e, groups_of, group_row) (groups_of-IsPlaced ns hs)
    | inr (city, e) ↦
        (let (country, lat, lon, hcc, hlat, hlon) = h (rw e refl) in
          rw (e, groups_of, group_row)
            (add_row-IsPlaced city n (groups_of fl ns) country lat lon hcc hlat hlon
              (groups_of-IsPlaced ns hs)))
  ]

  module _ (average : List (Option fl.F) → Option fl.F) (distinct : List Bytes → List Bytes) where
    -- What is documented of avg: it is null only where no value is not null.
    abbrev pub IsAverage : Type 0
    IsAverage = (x : fl.F) (xs : List (Option fl.F)) → (v : fl.F) × (average (some x ∷ xs) ≡ some v)

    city_agg-some :
        (db : Tables fl) (g : Group fl)
        → IsAverage
        → IsPlaced g
        → (a : CityAgg fl) × (city_agg fl average distinct db g ≡ some a)
          × (a.count ≡ length g.rows)
    unfolding city_agg
    city_agg-some db g avg (country, n, ns, lat, lon, ecc, erows, elat, elon) =
        let (v, ev) = avg lat (map (λ m. m.lat) ns) in
        let (u, eu) = avg lon (map (λ m. m.lon) ns) in
        let lats : average (map (λ m. m.lat) g.rows) ≡ some v =
          ap (λ l. average (map (λ m. m.lat) l)) erows
          ∙ (ap (λ o. average (o ∷ map (λ m. m.lat) ns)) elat ∙ ev) in
        let lons : average (map (λ m. m.lon) g.rows) ≡ some u =
          ap (λ l. average (map (λ m. m.lon) l)) erows
          ∙ (ap (λ o. average (o ∷ map (λ m. m.lon) ns)) elon ∙ eu) in
        (city_row fl average distinct db g country v u, rw (ecc, lats, lons, city_agg) refl, refl)

    scan_cities-some :
        (db : Tables fl) (gs : List (Group fl))
        → IsAverage
        → All IsPlaced gs
        → (cs : List (CityAgg fl)) × (scan_cities fl average distinct db gs ≡ some cs)
          × (counted cs ≡ rows_in gs)
    unfolding scan_cities rows_in
    scan_cities-some db [] avg h = ([], refl, refl)
    scan_cities-some db (g ∷ gs) avg (h, hs) =
        let (a, ea, na) = city_agg-some db g avg h in
        let (cs, es, ns) = scan_cities-some db gs avg hs in
        (a ∷ cs, rw (ea, es, scan_cities) refl, rw (na, ns) refl)

    -- Let avg be null only where no value is not null, and let every row with a city have a country and
    -- a position. Then the query of the cities for any of the three classes has a result, and the
    -- counts of its cities add up to the number of nodes that are alive, have a city, and have the
    -- class that is asked for: any for the empty text, rf for "rf", and cloud or rf for "cloud".
    pub city_aggregates-counted :
        (w : Wanted) (db : Tables fl)
        → IsAverage
        → All IsLocated db.nodes
        → (cs : List (CityAgg fl)) × (city_aggregates fl average distinct (text_of w) db ≡ some cs)
          × (counted cs ≡ length (keep (on_map w) db.nodes))
    unfolding city_aggregates
    city_aggregates-counted w db avg located =
        let ns = keep (is_counted fl (text_of w)) db.nodes in
        let gs = groups_of fl ns in
        let before = more_nodes fl average distinct in
        let placed = All-order_by IsPlaced before gs (
          groups_of-IsPlaced ns
            (All-keep IsLocated (is_counted fl (text_of w)) db.nodes located)) in
        let (cs, e, n) = scan_cities-some db (order_by before gs) avg placed in
        (cs, e, n ∙ (order_by-rows_in before gs ∙ (groups_of-rows_in ns ∙ keep-on_map w db.nodes)))
