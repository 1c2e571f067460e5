-- ===== src/Parse/Params.antt =====
-- `parsed`, `orderedPairs`, `parseCommon`, `applyPort` and the small helpers of the builders,
-- proxies/internal/parse/parse.go.
use proxy_harv.Prelude.{
  ℕ, Bool, not, ◌&&◌, ◌||◌, Option, none, some, List, [], ◌∷◌, ltb, if◌then◌else◌,
}
use proxy_harv.Text.{
  Bytes, codes, str_eq, is_empty, index_split, split, cut, trim_prefix, trim_suffix,
}
use proxy_harv.Text.Space.{trim_space}
use proxy_harv.Text.Number.{ℤ, pos, is_zero, atoi}
use proxy_harv.Text.Url.{query_unescape}
use proxy_harv.Parse.Error.{Result, ok, err, ◌>>=◌, bad_port}
use proxy_harv.Parse.Scheme.{lookup, fallback_ports}
use proxy_harv.Parse.Canonical.{split_authority, split_path_query, split_auth, drop_fragment}

-- `orderedPairs`: the first pair with a key counts.
abbrev pub Pairs : Type 0
Pairs = List (Bytes × Bytes)

pub record Parsed : Type 0 where
  pub userinfo : Bytes
  pub host : Bytes
  pub port : ℤ
  pub raw_query : Pairs
  pub fragment : Bytes

-- the value of the key, "" if it is missing
unfoldable pub or_empty : Option Bytes → Bytes
or_empty none = []
or_empty (some v) = v

abbrev pub get : Pairs → Bytes → Option Bytes
get pairs k = lookup k pairs

unfoldable pub unescape_or_raw : Bytes → Bytes
unescape_or_raw s = elim (query_unescape s) [ some u ↦ u | none ↦ s ]

unfoldable pub get_decoded : Pairs → Bytes → Bytes
unfolding lookup unescape_or_raw query_unescape
get_decoded pairs k = elim (get pairs k) [ none ↦ [] | some v ↦ unescape_or_raw v ]

-- strings.Cut(pair, "=") of each pair that is not empty
unfoldable pub read_pairs : List Bytes → Pairs
unfolding cut
read_pairs [] = []
read_pairs (p ∷ ps) =
    let rest = read_pairs ps in
    let (k, v, found) = cut b'=' p in if is_empty p then rest else (k, v) ∷ rest

unfoldable pub strip_brackets : Bytes → Bytes
unfolding trim_prefix trim_suffix
strip_brackets host = trim_prefix (codes "[") (trim_suffix (codes "]") host)

-- pt > 0 && pt < 65536
unfoldable pub port_in_range : Bytes → Option ℤ → Result ℤ
port_in_range s (some (pos n)) = if ltb 0 n && ltb n 65536 then ok (pos n) else err (bad_port s)
port_in_range s _ = err (bad_port s)

-- 0 stands for no port: the caller puts the fallback in
unfoldable pub read_port : Bytes → Result ℤ
unfolding port_in_range atoi
read_port [] = ok (pos 0)
read_port (c ∷ s) = port_in_range (c ∷ s) (atoi (c ∷ s))

unfoldable pub fragment_of : Bytes → Bytes
unfolding index_split
fragment_of s = elim (index_split b'#' s) [ none ↦ [] | some (_, after) ↦ after ]

unfoldable pub parse_common : Bytes → Result Parsed
unfolding fragment_of drop_fragment split_authority split_path_query split split_auth strip_brackets
    read_pairs read_port
parse_common rest =
    let (auth, path_query) = split_authority (drop_fragment rest) in
    let (path, query) = split_path_query path_query in
    do
      a ← split_auth auth
      port ← read_port a.port
      ok (record {
        userinfo = a.userinfo;
        host = strip_brackets a.host;
        port = port;
        raw_query = read_pairs (split b'&' query);
        fragment = fragment_of rest;
      })

-- the port of `applyPort`
unfoldable pub port_or_fallback : Bytes → ℤ → ℕ → ℤ
unfolding lookup is_zero
port_or_fallback scheme port fallback =
    if is_zero port
    then (elim (lookup scheme fallback_ports) [ some dp ↦ pos dp | none ↦ pos fallback ])
    else port

unfoldable pub atoi_or : Bytes → ℤ → ℤ
unfolding atoi trim_space
atoi_or s default = elim (atoi (trim_space s)) [ some v ↦ v | none ↦ default ]

unfoldable pub first_non_empty : List Bytes → Bytes
first_non_empty [] = []
first_non_empty ([] ∷ vs) = first_non_empty vs
first_non_empty ((c ∷ v) ∷ vs) = c ∷ v

abbrev is_yes : Bytes → Bool
is_yes v = str_eq v (codes "1") || str_eq v (codes "true")

unfoldable pub insecure : Pairs → Bool
unfolding lookup or_empty
insecure pairs =
    is_yes (or_empty (get pairs (codes "insecure")))
    || is_yes (or_empty (get pairs (codes "allowInsecure")))

unfoldable pub user_of : Bytes → Bytes
unfolding cut
user_of ui = let (u, p, found) = cut b':' ui in u

unfoldable pub pass_of : Bytes → Bytes
unfolding cut
pass_of ui = let (u, p, found) = cut b':' ui in if not found then [] else p
