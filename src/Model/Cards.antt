-- ===== src/Model/Cards.antt =====
-- The reads of the API in proxies/internal/model/pg.go: `NodeCards`, `NodeCard` and
-- `CountNodes`.
use proxy_harv.Prelude.{
  ℕ, Bool, ◌&&◌, ◌||◌, Option, none, some, List, [], ◌∷◌, ltb, leb, ◌==◌, length, map, take,
  if◌then◌else◌,
}
use proxy_harv.Text.{Bytes, codes, str_eq, is_empty}
use proxy_harv.Text.Number.{ℤ, pos, negsuc}
use proxy_harv.Floats.{Floats}
use proxy_harv.Model.{
  Class, no_class, cloud, rf, l1, l2, same_stage, is_alive, keep, order_by, NodeRow, Check, Tables,
}
use proxy_harv.Model.Store.{get_node, latest_check, later, first_of_list}

-- the text of a class
unfoldable pub class_text : Class → Bytes
class_text no_class = codes "none"
class_text cloud = codes "cloud"
class_text rf = codes "rf"

-- COALESCE(x, '')
unfoldable pub or_empty : Option Bytes → Bytes
or_empty none = []
or_empty (some s) = s

-- ($1 = '' OR x = $1)
unfoldable pub matches : Bytes → Bytes → Bool
unfolding str_eq
matches wanted s = is_empty wanted || str_eq s wanted

-- n.city = $1, which a null city never is
unfoldable pub matches_city : Bytes → Option Bytes → Bool
unfolding matches
matches_city wanted none = is_empty wanted
matches_city wanted (some city) = matches wanted city

-- ($2 = '' OR best_class = $2 OR ($2 = 'cloud' AND best_class = 'rf'))
unfoldable pub matches_class : Bytes → Class → Bool
unfolding matches class_text str_eq
matches_class wanted class =
    matches wanted (class_text class)
    || (str_eq wanted (codes "cloud") && str_eq (class_text class) (codes "rf"))

-- the limit that `NodeCards` uses
unfoldable pub cards_limit : ℤ → ℕ
cards_limit (negsuc n) = 100
cards_limit (pos n) = if ltb 0 n && leb n 500 then n else 100

module _ (fl : Floats) where
  open fl use {F}

  -- `NodeCard`
  pub record NodeCard : Type 0 where
    pub id : ℕ
    pub protocol : Bytes
    pub transport : Bytes
    pub cc : Bytes
    pub city : Bytes
    pub lat : F
    pub lon : F
    pub class : Bytes
    pub latency_ms : Option ℤ
    pub speed_mbps : Option F
    pub last_check : Option ℕ
    pub share_link : Bytes

  unfoldable pub or_zero : Option F → F
  or_zero none = fl.of_int (pos 0)
  or_zero (some x) = x

  -- the later checks first, of the L2 checks that passed
  unfoldable pub passed_l2 : Tables fl → ℕ → Option (Check fl)
  unfolding keep order_by same_stage
  passed_l2 db i = first_of_list fl (
      order_by (later fl)
        (keep (λ c. c.node_id == i && (same_stage c.stage l2 && c.passed)) db.checks))

  unfoldable pub latency_of : Option (Check fl) → Option ℤ
  latency_of none = none
  latency_of (some c) = c.latency_ms

  unfoldable pub time_of : Option (Check fl) → Option ℕ
  time_of none = none
  time_of (some c) = some c.ts

  unfoldable pub speed_of : Option (Check fl) → Option F
  speed_of none = none
  speed_of (some c) = c.speed_mbps

  -- the selected columns of a row
  unfoldable pub card_of : Tables fl → NodeRow fl → NodeCard
  unfolding class_text or_empty or_zero latest_check passed_l2 latency_of time_of speed_of
  card_of db n =
      let check = latest_check fl db n.id (l1 ∷ []) in
      record {
        id = n.id;
        protocol = n.protocol;
        transport = n.transport;
        cc = or_empty n.cc;
        city = or_empty n.city;
        lat = or_zero n.lat;
        lon = or_zero n.lon;
        class = class_text n.best_class;
        latency_ms = latency_of check;
        speed_mbps = speed_of (passed_l2 db n.id);
        last_check = time_of check;
        share_link = n.uri;
      }

  -- the WHERE clause of `NodeCards`
  unfoldable pub is_wanted : Bytes → Bytes → Bytes → NodeRow fl → Bool
  unfolding is_alive matches_city matches_class matches
  is_wanted city class proto n =
      is_alive n.status
      && (matches_city city n.city
          && (matches_class class n.best_class && matches proto n.protocol))

  abbrev pub better_score : NodeRow fl → NodeRow fl → Bool
  better_score a b = fl.lt b.score a.score

  -- `NodeCards`
  unfoldable pub node_cards : Bytes → Bytes → Bytes → ℤ → Tables fl → List NodeCard
  unfolding card_of is_wanted keep order_by cards_limit
  node_cards city class proto limit db = map (card_of db) (
      take (cards_limit limit) (order_by better_score (keep (is_wanted city class proto) db.nodes)))

  -- `NodeCard`
  unfoldable pub node_card : ℕ → Tables fl → Option NodeCard
  unfolding card_of get_node
  node_card i db = elim (get_node fl db i) [ none ↦ none | some n ↦ some (card_of db n) ]

  -- `CountNodes`
  unfoldable pub count_nodes : Tables fl → ℕ
  count_nodes db = length db.nodes
