-- ===== src/Tests/Links.antt =====
-- Links and subscriptions.
use mathlib.Core.List.{Perm, Permᴰ}
use proxy_harv.Prelude.{false, some, [], ◌≡◌, refl, arith}
use proxy_harv.Text.{Bytes, codes, str_eq, split, is_ascii, lower_byte}
use proxy_harv.Text.Space.{trim, trim_right}
use proxy_harv.Text.Number.{pos}
use proxy_harv.Runtime.{to_lower}
use proxy_harv.Base64.{encode, b64_decode}
use proxy_harv.Base64.RoundTrip.{b64_decode-encode}
use proxy_harv.Parse.Error.{socks, ok}
use proxy_harv.Parse.Canonical.{canonical, canonical_hash, all_digits, kept_pairs}
use proxy_harv.Parse.Canonical.Print.{Link, IsLink, plain, absent, named, link_text}
use proxy_harv.Parse.Canonical.Identity.{
  normal, canonical-link_text, pairs_of, canonical_hash-reordered,
}
use proxy_harv.Parse.Built.{Built}
use proxy_harv.Parse.Build.{build_socks}
use proxy_harv.Parse.Line.{build}
use proxy_harv.Parse.Outbound.{string, int, end, field}
use proxy_harv.Parse.Build.Consistent.{IsConsistent, build-IsConsistent}
use proxy_harv.Parse.Many.{add_lines, parse_many, decoded_body}
use proxy_harv.Parse.Many.Distinct.{Distinct, has_hash, link_hash, parse_many_hashes}
use proxy_harv.Parse.Many.Encoded.{parse_many-encode}
use proxy_harv.Model.{rf}
use proxy_harv.Coordinator.Publishing.{class_name, rename_fragment}
use proxy_harv.Coordinator.Publishing.Rename.{canonical_hash-rename_fragment}
use proxy_harv.Tests.{toy_rt}

b64_decode-encode_example :
    (b64_decode (encode (codes "ss")) ≡ some (codes "ss"))
    × (b64_decode (trim_right b'=' (encode (codes "ss"))) ≡ some (codes "ss"))
b64_decode-encode_example =
    b64_decode-encode (codes "ss") (λ e. cc) (omega arith, (omega arith, tt))

-- vless://u@H:443?b=1&a=2
abbrev link : Link
link = record {
  scheme = codes "Vless";
  auth = record { userinfo = codes "u"; host = codes "H"; port = codes "443" };
  path = [];
  query = codes "b=1&a=2";
}

abbrev fragment : Bytes
fragment = codes "#home"

link-IsLink : IsLink link
unfolding all_digits
link-IsLink = record {
  scheme_ok = ground arith;
  userinfo_ok = ground arith;
  host_bytes = ground arith;
  host_ok = plain (ground arith);
  port_ok = refl;
  path_ok = tt;
  query_ok = ground arith;
}

link-other : str_eq (to_lower toy_rt link.scheme) (codes "vmess") ≡ false
unfolding str_eq to_lower is_ascii lower_byte
link-other = refl

link-trim : trim (link_text link fragment) ≡ link_text link fragment
unfolding trim
link-trim = refl

canonical-link_text_example :
    canonical toy_rt (link_text link fragment) ≡ ok (link_text (normal toy_rt link) [])
canonical-link_text_example =
    canonical-link_text toy_rt link fragment link-IsLink (named (codes "home")) link-other link-trim

-- the same pairs in another order, and an empty one
abbrev query : Bytes
query = codes "a=2&b=1&"

query-Perm : Perm (pairs_of link.query) (pairs_of query)
unfolding kept_pairs split
query-Perm = ∣ Permᴰ.swap refl refl ∣₁

other-IsLink : IsLink (record link { query = query })
unfolding all_digits
other-IsLink = record {
  scheme_ok = ground arith;
  userinfo_ok = ground arith;
  host_bytes = ground arith;
  host_ok = plain (ground arith);
  port_ok = refl;
  path_ok = tt;
  query_ok = ground arith;
}

other-trim :
    trim (link_text (record link { query = query }) [])
    ≡ link_text (record link { query = query }) []
unfolding trim
other-trim = refl

canonical_hash-reordered_example :
    canonical_hash toy_rt (link_text link fragment)
    ≡ canonical_hash toy_rt (link_text (record link { query = query }) [])
canonical_hash-reordered_example =
    canonical_hash-reordered toy_rt link query fragment [] link-IsLink other-IsLink query-Perm
      (named (codes "home")) absent link-other link-trim other-trim

canonical_hash-rename_fragment_example :
    canonical_hash toy_rt (
      rename_fragment
        (link_text link fragment)
        (codes "DE")
        (codes "Bonn")
        (pos 42)
        (class_name rf))
    ≡ canonical_hash toy_rt (link_text link fragment)
canonical_hash-rename_fragment_example =
    canonical_hash-rename_fragment toy_rt link fragment (codes "DE") (codes "Bonn") (pos 42) rf b'V'
      (codes "less") link-IsLink (named (codes "home")) link-other (ground arith) refl
      (omega arith, omega arith) link-trim (ground arith) (ground arith)

-- two links, the first of them twice
abbrev body : Bytes
body = codes "socks://a:1\ntrojan://p@b:2\nsocks://a:1#x"

parse_many_hashes_example :
    Distinct (parse_many toy_rt body)
    × (has_hash (codes "x") (parse_many toy_rt body)
        ≡ link_hash toy_rt (codes "x") (split b'\n' (decoded_body body)))
parse_many_hashes_example = parse_many_hashes toy_rt body (codes "x")

parse_many-encode_example :
    parse_many toy_rt (encode (codes "socks://a:1\ntrojan://p@b:2"))
    ≡ add_lines toy_rt [] (split b'\n' (codes "socks://a:1\ntrojan://p@b:2"))
parse_many-encode_example =
    parse_many-encode toy_rt (codes "socks://a:1\ntrojan://p@b:2") (λ e. cc) (ground arith)

abbrev socks_a : Built
socks_a = record {
  host = codes "a";
  port = pos 1;
  transport = codes "tcp";
  out = field (codes "type") (string (codes "socks")) (
      field (codes "server") (string (codes "a")) (
        field (codes "server_port") (int (pos 1))
          (field (codes "version") (string (codes "5")) end)));
}

socks_a-build : build toy_rt socks (codes "socks") (codes "a:1") ≡ ok socks_a
unfolding build build_socks
socks_a-build = refl

build-IsConsistent_example : IsConsistent socks_a
build-IsConsistent_example =
    build-IsConsistent toy_rt (codes "socks") socks (codes "a:1") socks_a socks_a-build
