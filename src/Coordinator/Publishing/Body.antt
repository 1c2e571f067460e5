-- ===== src/Coordinator/Publishing/Body.antt =====
-- The published subscription as a client reads it.
use proxy_harv.Prelude.{
  ℕ, zero, suc, ◌+◌, ◌/◌, ◌%◌, Option, none, some, List, [], ◌∷◌, ◌++◌, map, ◌≡◌, ◌≢◌, arith, All,
  All-append, inl, inr,
}
use proxy_harv.Text.{Bytes, codes}
use proxy_harv.Text.Space.{IsGraphic}
use proxy_harv.Text.Cut.{index_split-cases}
use proxy_harv.Text.Number.{ℤ, pos, negsuc, itoa, itoa_onto}
use proxy_harv.Text.Url.{query_escape}
use proxy_harv.Runtime.{Runtime}
use proxy_harv.Base64.RoundTrip.{IsByte}
use proxy_harv.Floats.{Floats}
use proxy_harv.Model.{Class, no_class, cloud, rf, NodeRow, Tables}
use proxy_harv.Parse.Many.{add_lines, parse_many}
use proxy_harv.Parse.Many.Joined.{InLine, parse_many-joined}
use proxy_harv.Coordinator.Publishing.{
  class_name, latency_text, deref_string, base_of, label_of, rename_fragment, node_latency, line_of,
  body_of,
}

-- A byte that a query may hold when it is escaped.
abbrev pub IsEscaped : ℕ → Type 0
IsEscaped c = IsGraphic c

pub query_escape-All : (s : Bytes) → All IsByte s → All IsEscaped (query_escape s)
unfolding query_escape
query_escape-All [] h = tt
query_escape-All (c ∷ s) (h, hs) = ground (arith, query_escape-All s hs)

pub itoa_onto-All : (f n : ℕ) (out : Bytes) → All IsByte out → All IsByte (itoa_onto f n out)
unfolding itoa_onto
itoa_onto-All zero n out h = h
itoa_onto-All (suc f) n out h =
    let tens = itoa_onto-All f (n / 10) ((b'0' + n % 10) ∷ out) (omega arith, h) in ground arith

latency_text-All : (ms : ℤ) → All IsByte (latency_text ms)
unfolding latency_text itoa
latency_text-All (pos zero) = ground arith
latency_text-All (pos (suc n)) = itoa_onto-All (suc (suc n)) (suc n) [] tt
latency_text-All (negsuc n) = ground arith

pub class_name-All : (k : Class) → All IsByte (class_name k)
unfolding class_name
class_name-All no_class = ground arith
class_name-All cloud = ground arith
class_name-All rf = ground arith

pub label_of-All :
    (cc city : Bytes) (ms : ℤ) (class : Bytes)
    → All IsByte cc
    → All IsByte city
    → All IsByte class
    → All IsByte (label_of cc city ms class)
unfolding label_of
label_of-All cc city ms class hcc hcity hclass = All-append IsByte cc _ hcc (
  omega arith,
  All-append IsByte city _ hcity (
    omega arith,
    All-append IsByte (latency_text ms) _ (latency_text-All ms)
        (omega arith, (omega arith, (omega arith, hclass))),
  ),
)

pub IsEscaped-InLine : (s : Bytes) → All IsEscaped s → All InLine s
IsEscaped-InLine [] h = tt
IsEscaped-InLine (c ∷ s) (h, hs) = (ground arith, IsEscaped-InLine s hs)

pub base_of-All : (uri : Bytes) → All InLine uri → All InLine (base_of uri)
unfolding base_of
base_of-All uri h = elim (index_split-cases b'#' uri) [
  | inl (_, e) ↦ rw (e, base_of) h
  | inr (a, b, e, eq, _) ↦ rw (e, base_of) (All-front a (b'#' ∷ b) (rw eq at h))
]
  where
    All-front : (a b : Bytes) → All InLine (a ++ b) → All InLine a
    All-front [] b h = tt
    All-front (c ∷ a) b (h, hs) = (h, All-front a b hs)

rename_fragment-All :
    (uri cc city : Bytes) (ms : ℤ) (class : Bytes)
    → All InLine uri
    → All IsByte cc
    → All IsByte city
    → All IsByte class
    → All InLine (rename_fragment uri cc city ms class)
unfolding rename_fragment
rename_fragment-All uri cc city ms class huri hcc hcity hclass =
    let label = label_of cc city ms class in
    let escaped = query_escape-All label (label_of-All cc city ms class hcc hcity hclass) in
    All-append InLine (base_of uri) (b'#' ∷ query_escape label) (base_of-All uri huri)
      (ground arith, IsEscaped-InLine (query_escape label) escaped)

-- What a nullable column holds is a text of bytes.
abbrev pub IsText : Option Bytes → Type 0
IsText none = Unit
IsText (some s) = All IsByte s

deref_string-All :
    (o : Option Bytes) (def : Bytes) → IsText o → All IsByte def → All IsByte (deref_string o def)
unfolding deref_string
deref_string-All none def h hd = hd
deref_string-All (some []) def h hd = hd
deref_string-All (some (c ∷ s)) def h hd = h

pub append-ne-nil : (a b : Bytes) (c : ℕ) → a ++ c ∷ b ≢ []
append-ne-nil [] b c e = cc
append-ne-nil (d ∷ a) b c e = cc

module _ (fl : Floats) (db : Tables fl) where
  -- The link of the row is one line, and the names of its place are texts of bytes.
  abbrev pub IsRow : NodeRow fl → Type 0
  IsRow n = All InLine n.uri × IsText n.cc × IsText n.city

  line_of-All : (n : NodeRow fl) → IsRow n → All InLine (line_of fl db n)
  unfolding line_of
  line_of-All n (huri, hcc, hcity) =
      rename_fragment-All n.uri (deref_string n.cc (codes "XX"))
        (deref_string n.city (codes "Unknown")) (node_latency fl db n.id) (class_name n.best_class)
        huri (deref_string-All n.cc (codes "XX") hcc (ground arith))
        (deref_string-All n.city (codes "Unknown") hcity (ground arith))
        (class_name-All n.best_class)

  lines_of-All :
      (nodes : List (NodeRow fl)) → All IsRow nodes → All (All InLine) (map (line_of fl db) nodes)
  lines_of-All [] h = tt
  lines_of-All (n ∷ nodes) (h, hs) = (line_of-All n h, lines_of-All nodes hs)

  line_of-ne-nil : (n : NodeRow fl) → line_of fl db n ≢ []
  unfolding line_of rename_fragment
  line_of-ne-nil n = append-ne-nil (base_of n.uri) _ b'#'

  -- If there is a node to publish, every link to publish is one line of bytes, and the names of
  -- countries and cities are bytes, then `ParseMany` of the published body finds what is found in
  -- the renamed links, one line for each node, in their order.
  pub parse_many-body_of :
      (rt : Runtime) (n : NodeRow fl) (nodes : List (NodeRow fl))
      → All IsRow (n ∷ nodes)
      → parse_many rt (body_of fl db (n ∷ nodes))
        ≡ add_lines rt [] (map (line_of fl db) (n ∷ nodes))
  unfolding body_of
  parse_many-body_of rt n nodes h =
      parse_many-joined rt (line_of fl db n) (map (line_of fl db) nodes) (line_of-ne-nil n)
        (lines_of-All (n ∷ nodes) h)
