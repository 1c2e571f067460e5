-- ===== src/Api/Subscription.antt =====
-- What a client reads in the reply to GET /api/sub.
use proxy_harv.Prelude.{
  zero, suc, true, Option, none, some, List, [], ◌∷◌, map, take, All, All-append, ◌≡◌, ◌≢◌, refl,
  arith,
}
use proxy_harv.Text.{Bytes, codes, join}
use proxy_harv.Text.Number.{ℤ, pos, negsuc, itoa, int_text}
use proxy_harv.Text.Url.{query_escape}
use proxy_harv.Runtime.{Runtime}
use proxy_harv.Floats.{Floats}
use proxy_harv.Base64.{encode}
use proxy_harv.Base64.RoundTrip.{IsByte}
use proxy_harv.Parse.Many.{share_name, add_lines, parse_many}
use proxy_harv.Parse.Many.Joined.{InLine, parse_many-joined}
use proxy_harv.Model.{Class, no_class, cloud, rf, NodeRow, Tables, keep, order_by}
use proxy_harv.Model.Store.Invariant.{All-keep}
use proxy_harv.Model.Cards.{
  class_text, or_empty, cards_limit, NodeCard, card_of, is_wanted, better_score, node_cards,
}
use proxy_harv.Coordinator.Publishing.{base_of}
use proxy_harv.Coordinator.Publishing.Body.{
  query_escape-All, itoa_onto-All, IsEscaped-InLine, base_of-All, append-ne-nil, IsText, IsRow,
}
use proxy_harv.Api.{App, Body, sub_body, is_class, limit_of, str_or, latency_or_zero}
use proxy_harv.Api.Public.{sub_line, sub_text, handle_sub}
use proxy_harv.Model.Ordering.{All-take, All-order_by}

int_text-All : (ms : ℤ) → All IsByte (int_text ms)
unfolding int_text itoa
int_text-All (pos zero) = ground arith
int_text-All (pos (suc n)) = itoa_onto-All (suc (suc n)) (suc n) [] tt
int_text-All (negsuc n) = (omega arith, itoa_onto-All (suc (suc n)) (suc n) [] tt)

share_name-All :
    (cc city : Bytes) (ms : ℤ) (class : Bytes)
    → All IsByte cc
    → All IsByte city
    → All IsByte class
    → All IsByte (share_name cc city ms class)
unfolding share_name
share_name-All cc city ms class hcc hcity hclass = All-append IsByte cc _ hcc (
  omega arith,
  All-append IsByte city _ hcity (
    omega arith,
    All-append IsByte (int_text ms) _ (int_text-All ms)
        (omega arith, (omega arith, (omega arith, hclass))),
  ),
)

class_text-All : (k : Class) → All IsByte (class_text k)
unfolding class_text
class_text-All no_class = ground arith
class_text-All cloud = ground arith
class_text-All rf = ground arith

str_or-All : (s def : Bytes) → All IsByte s → All IsByte def → All IsByte (str_or s def)
unfolding str_or
str_or-All [] def h hd = hd
str_or-All (c ∷ s) def h hd = h

or_empty-All : (o : Option Bytes) → IsText o → All IsByte (or_empty o)
unfolding or_empty
or_empty-All none h = tt
or_empty-All (some s) h = h

module _ (fl : Floats) where
  -- The text in the body of a reply.
  abbrev pub text_in : Body fl → Bytes
  text_in (sub_body hours text) = text
  text_in _ = []

  sub_line-All :
      (c : NodeCard fl)
      → All InLine c.share_link
      → All IsByte c.cc
      → All IsByte c.city
      → All IsByte c.class
      → All InLine (sub_line fl c)
  unfolding sub_line
  sub_line-All c hlink hcc hcity hclass =
      let name =
        share_name (str_or c.cc (codes "XX")) (str_or c.city (codes "Unknown"))
          (latency_or_zero c.latency_ms) c.class in
      let named =
        share_name-All (str_or c.cc (codes "XX")) (str_or c.city (codes "Unknown"))
          (latency_or_zero c.latency_ms) c.class (str_or-All c.cc (codes "XX") hcc (ground arith))
          (str_or-All c.city (codes "Unknown") hcity (ground arith)) hclass in
      All-append InLine (base_of c.share_link) (b'#' ∷ query_escape name)
        (base_of-All c.share_link hlink)
        (ground arith, IsEscaped-InLine (query_escape name) (query_escape-All name named))

  lines-All :
      (db : Tables fl) (ns : List (NodeRow fl))
      → All (IsRow fl db) ns
      → All (All InLine) (map (sub_line fl) (map (card_of fl db) ns))
  unfolding card_of
  lines-All db [] h = tt
  lines-All db (n ∷ ns) ((huri, hcc, hcity), hs) = (
    sub_line-All (card_of fl db n) huri (or_empty-All n.cc hcc) (or_empty-All n.city hcity)
        (class_text-All n.best_class),
    lines-All db ns hs,
  )

  sub_line-ne-nil : (c : NodeCard fl) → sub_line fl c ≢ []
  unfolding sub_line
  sub_line-ne-nil c = append-ne-nil (base_of c.share_link) _ b'#'

  -- The client finds the nodes of the renamed links, in their order; no cards give an empty text.
  unfoldable pub IsReadBack : Runtime → List (NodeCard fl) → Bytes → Type 0
  IsReadBack rt [] text = text ≡ []
  IsReadBack rt (c ∷ cs) text = parse_many rt text ≡ add_lines rt [] (map (sub_line fl) (c ∷ cs))

  sub_text-IsReadBack :
      (rt : Runtime) (cards : List (NodeCard fl))
      → All (All InLine) (map (sub_line fl) cards)
      → IsReadBack rt cards (sub_text fl cards)
  unfolding IsReadBack sub_text encode join
  sub_text-IsReadBack rt [] h = refl
  sub_text-IsReadBack rt (c ∷ cs) h =
      parse_many-joined rt (sub_line fl c) (map (sub_line fl) cs) (sub_line-ne-nil c) h

  -- If the links of the nodes are lines of bytes, the names of their places are bytes, and the class
  -- that is asked for is rf, cloud or absent, then the reply to GET /api/sub has status 200, and
  -- `ParseMany` of its body finds what is found in the renamed links of the cards, in their order;
  -- with no card the body is empty.
  pub handle_sub-IsReadBack :
      (rt : Runtime) (app : App) (query : Bytes → Bytes) (db : Tables fl)
      → All (IsRow fl db) db.nodes
      → is_class (str_or (query (codes "class")) (codes "rf")) ≡ true
      → ((handle_sub fl app query db).status ≡ 200)
        × IsReadBack rt
            (node_cards fl []
              (str_or (query (codes "class")) (codes "rf"))
              (query (codes "proto"))
              (limit_of 50 (query (codes "limit")))
              db)
            (text_in (handle_sub fl app query db).body)
  unfolding handle_sub node_cards
  handle_sub-IsReadBack rt app query db h e =
      let class = str_or (query (codes "class")) (codes "rf") in
      let proto = query (codes "proto") in
      let most = cards_limit (limit_of 50 (query (codes "limit"))) in
      let rows = order_by (better_score fl) (keep (is_wanted fl [] class proto) db.nodes) in
      rw (e, handle_sub)
        (
          refl,
          sub_text-IsReadBack rt (map (card_of fl db) (take most rows)) (
              lines-All db (take most rows) (
                All-take (IsRow fl db) most rows (
                  All-order_by (IsRow fl db) (better_score fl) _
                    (All-keep (IsRow fl db) (is_wanted fl [] class proto) db.nodes h)))),
        )
