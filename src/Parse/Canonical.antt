-- ===== src/Parse/Canonical.antt =====
-- `Canonical`, `Hash`, `CanonicalHash` and their helpers, proxies/internal/parse/parse.go.
pub mod Print
pub mod Host
pub mod Identity
use proxy_harv.Prelude.{
  Bool, true, not, ◌&&◌, ◌||◌, Option, none, some, List, [], ◌∷◌, ◌++◌, ◌==◌, ℕ, if◌then◌else◌,
}
use proxy_harv.Text.{
  Bytes, codes, str_eq, is_empty, index_split, last_split, strip_prefix, split, join, prepend,
}
use proxy_harv.Text.Space.{trim}
use proxy_harv.Text.Number.{itoa, is_digit}
use proxy_harv.Runtime.{Runtime, hex, to_lower}
use proxy_harv.Parse.Error.{
  Result, ok, err, ◌>>=◌, empty_uri, missing_delimiter, unterminated_ipv6, junk_after_ipv6,
  invalid_port,
}
use proxy_harv.Parse.Scheme.{lookup, strip_defaults}
use proxy_harv.Parse.Sort.{sort}
use proxy_harv.Parse.Vmess.{VmessJson, decode_vmess_b64}

-- strings.Index(s, "://"), and the slices before and behind it
unfoldable pub scheme_split : Bytes → Option (Bytes × Bytes)
unfolding prepend strip_prefix
scheme_split [] = none
scheme_split (c ∷ s) = elim (strip_prefix (codes "://") (c ∷ s)) [
  | some rest ↦ some ([], rest)
  | none ↦ prepend c (scheme_split s)
]

-- The text up to the first '#'.
unfoldable pub drop_fragment : Bytes → Bytes
unfolding index_split
drop_fragment s = elim (index_split b'#' s) [ none ↦ s | some (before, _) ↦ before ]

abbrev pub ends_authority : ℕ → Bool
ends_authority c = c == b'/' || c == b'?'

unfoldable pub split_authority : Bytes → Bytes × Bytes
split_authority [] = ([], [])
split_authority (c ∷ s) =
    let (auth, tail) = split_authority s in
    if ends_authority c then ([], c ∷ s) else (c ∷ auth, tail)

unfoldable pub split_path_query : Bytes → Bytes × Bytes
unfolding index_split
split_path_query tail = elim (index_split b'?' tail) [
  | none ↦ (tail, [])
  | some (path, query) ↦ (path, query)
]

unfoldable pub kept_pairs : List Bytes → List Bytes
kept_pairs [] = []
kept_pairs (p ∷ ps) = let rest = kept_pairs ps in if is_empty p then rest else p ∷ rest

-- An empty query splits into one empty part, which is dropped.
unfoldable pub sort_query : Bytes → Bytes
unfolding split sort join kept_pairs
sort_query [] = []
sort_query (c ∷ s) = join b'&' (sort (kept_pairs (split b'&' (c ∷ s))))

unfoldable pub all_digits : Bytes → Bool
all_digits [] = true
all_digits (c ∷ s) = is_digit c && all_digits s

unfoldable pub is_digits : Bytes → Bool
unfolding all_digits
is_digits s = not (is_empty s) && all_digits s

pub record Auth : Type 0 where
  pub userinfo : Bytes
  pub host : Bytes
  pub port : Bytes

-- behind the closing bracket of an IPv6 host
unfoldable pub bracket_port : Bytes → Result Bytes
bracket_port [] = ok []
bracket_port (c ∷ rest) = if c == b':' then ok rest else err (junk_after_ipv6 (c ∷ rest))

unfoldable pub split_bracket : Bytes → Bytes → Result Auth
unfolding bracket_port index_split
split_bracket userinfo rest = elim (index_split b']' rest) [
  | none ↦ err unterminated_ipv6
  | some (before, behind) ↦ (do
    port ← bracket_port behind
    ok (record { userinfo = userinfo; host = before ++ b']' ∷ []; port = port }))
]

unfoldable pub checked_port : Auth → Result Auth
unfolding is_digits
checked_port a =
    if not (is_empty a.port) && not (is_digits a.port) then err (invalid_port a.port) else ok a

unfoldable pub split_host_port : Bytes → Bytes → Result Auth
unfolding last_split checked_port
split_host_port userinfo rest = checked_port (elim (last_split b':' rest) [
  | none ↦ record { userinfo = userinfo; host = rest; port = [] }
  | some (host, port) ↦ record { userinfo = userinfo; host = host; port = port }
])

unfoldable pub split_host : Bytes → Bytes → Result Auth
unfolding split_bracket split_host_port
split_host userinfo [] = split_host_port userinfo []
split_host userinfo (c ∷ rest) =
    if c == b'[' then split_bracket userinfo (c ∷ rest) else split_host_port userinfo (c ∷ rest)

unfoldable pub split_auth : Bytes → Result Auth
unfolding split_host last_split
split_auth auth = elim (last_split b'@' auth) [
  | none ↦ split_host [] auth
  | some (userinfo, rest) ↦ split_host userinfo rest
]

-- the port, unless it is the scheme's default
unfoldable pub strip_port : Bytes → Bytes → Bytes
unfolding lookup itoa
strip_port scheme port = elim (lookup scheme strip_defaults) [
  | none ↦ port
  | some dp ↦ if not (is_empty port) && str_eq port (itoa dp) then [] else port
]

-- The pieces that the string builder writes.
abbrev pub opt_userinfo : Bytes → Bytes
opt_userinfo [] = []
opt_userinfo (c ∷ u) = (c ∷ u) ++ b'@' ∷ []

abbrev pub opt_port : Bytes → Bytes
opt_port [] = []
opt_port (c ∷ p) = b':' ∷ c ∷ p

abbrev pub opt_query : Bytes → Bytes
opt_query [] = []
opt_query (c ∷ q) = b'?' ∷ c ∷ q

unfoldable pub write_uri : Bytes → Auth → Bytes → Bytes → Bytes
write_uri scheme a path query =
    scheme
    ++ (codes "://"
        ++ (opt_userinfo a.userinfo ++ (a.host ++ (opt_port a.port ++ (path ++ opt_query query)))))

module _ (rt : Runtime) where
  unfoldable pub canonical_vmess : Bytes → Bytes → Bytes
  unfolding drop_fragment decode_vmess_b64 join
  canonical_vmess raw rest = elim (decode_vmess_b64 rt (drop_fragment rest)) [
    | none ↦ codes "opaque|" ++ raw
    | some x ↦ join b'|' (
        codes "vmess"
        ∷ x.v
        ∷ to_lower rt x.add
        ∷ x.port
        ∷ x.id
        ∷ x.net
        ∷ x.path
        ∷ x.host
        ∷ x.tls
        ∷ x.sni
        ∷ x.alpn
        ∷ x.scy
        ∷ [])
  ]

  -- behind the scheme of a link that is no vmess link
  unfoldable pub canonical_plain : Bytes → Bytes → Result Bytes
  unfolding drop_fragment split_authority split_path_query split_auth sort_query strip_port
      write_uri
  canonical_plain scheme rest =
      let (auth, tail) = split_authority (drop_fragment rest) in
      let (path, query) = split_path_query tail in
      do
        a ← split_auth auth
        let b = record a { host = to_lower rt a.host; port = strip_port scheme a.port }
        ok (write_uri scheme b path (sort_query query))

  unfoldable pub canonical_of : Bytes → Bytes → Bytes → Result Bytes
  unfolding canonical_vmess canonical_plain
  canonical_of s scheme rest =
      if str_eq scheme (codes "vmess")
      then ok (canonical_vmess s rest)
      else canonical_plain scheme rest

  unfoldable pub canonical_trimmed : Bytes → Result Bytes
  unfolding scheme_split canonical_of
  canonical_trimmed [] = err empty_uri
  canonical_trimmed (c ∷ s) = elim (scheme_split (c ∷ s)) [
    | none ↦ err missing_delimiter
    | some (scheme, rest) ↦ canonical_of (c ∷ s) (to_lower rt scheme) rest
  ]

  -- `Canonical`
  unfoldable pub canonical : Bytes → Result Bytes
  unfolding trim canonical_trimmed
  canonical raw = canonical_trimmed (trim raw)

  -- `Hash`
  unfoldable pub hash : Bytes → Bytes
  unfolding hex
  hash text = codes "sha256:" ++ hex (rt.sha256 text)

  -- `CanonicalHash`
  unfoldable pub canonical_hash : Bytes → Result (Bytes × Bytes)
  unfolding canonical hash
  canonical_hash raw = do text ← canonical raw; ok (text, hash text)
