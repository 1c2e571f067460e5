-- ===== src/Parse/Many.antt =====
-- `ParseMany`, `isProbablyBase64` and `ShareName`, proxies/internal/parse/parse.go.
pub mod Distinct
pub mod Encoded
pub mod Joined
use proxy_harv.Prelude.{
  ℕ, Bool, true, false, not, ◌&&◌, ◌||◌, Option, none, some, List, [], ◌∷◌, ◌++◌, leb, ◌==◌,
  if◌then◌else◌,
}
use proxy_harv.Text.{Bytes, codes, str_eq, is_empty, split, one_of}
use proxy_harv.Text.Space.{trim_space, trim_right}
use proxy_harv.Text.Number.{ℤ, int_text}
use proxy_harv.Runtime.{Runtime}
use proxy_harv.Base64.{b64_decode}
use proxy_harv.Parse.Error.{Result, ok, err}
use proxy_harv.Parse.Canonical.{scheme_split}
use proxy_harv.Parse.Line.{Node, parse_line}

abbrev pub is_base64_byte : ℕ → Bool
is_base64_byte r =
    (leb b'A' r && leb r b'Z')
    || (leb b'a' r && leb r b'z')
    || (leb b'0' r && leb r b'9')
    || r == b'+'
    || r == b'/'
    || r == b'-'
    || r == b'_'
    || r == b'='
    || r == b'\n'
    || r == b'\r'

unfoldable pub all_base64 : Bytes → Bool
all_base64 [] = true
all_base64 (c ∷ s) = is_base64_byte c && all_base64 s

-- strings.Contains(s, "://")
unfoldable pub has_delimiter : Bytes → Bool
has_delimiter s = elim (scheme_split s) [ none ↦ false | some _ ↦ true ]

unfoldable pub is_probably_base64 : Bytes → Bool
unfolding trim_space has_delimiter scheme_split all_base64
is_probably_base64 body =
    let s = trim_space body in not (is_empty s) && not (has_delimiter s) && all_base64 s

unfoldable pub decoded_body : Bytes → Bytes
unfolding is_probably_base64 b64_decode
decoded_body body =
    if is_probably_base64 body
    then (elim (b64_decode body) [ none ↦ body | some dec ↦ dec ])
    else body

module _ (rt : Runtime) where
  -- the link of a line, if there is one
  unfoldable pub node_of : Bytes → Option Node
  unfolding parse_line
  node_of line = elim (parse_line rt line) [ ok n ↦ n | err e ↦ none ]

  -- the loop, over the hashes seen so far
  unfoldable pub add_lines : List Bytes → List Bytes → List Node
  unfolding node_of one_of
  add_lines seen [] = []
  add_lines seen (line ∷ lines) = elim (node_of (trim_right b'\r' line)) [
    | none ↦ add_lines seen lines
    | some n ↦
        (let fresh = n ∷ add_lines (n.uri_hash ∷ seen) lines in
          let again = add_lines seen lines in if one_of n.uri_hash seen then again else fresh)
  ]

  unfoldable pub parse_many : Bytes → List Node
  unfolding add_lines decoded_body split
  parse_many body = add_lines [] (split b'\n' (decoded_body body))

-- `ShareName`
unfoldable pub share_name : Bytes → Bytes → ℤ → Bytes → Bytes
unfolding int_text
share_name cc city latency class =
    cc ++ (b'-' ∷ (city ++ (b'-' ∷ (int_text latency ++ (codes "ms-" ++ class)))))
