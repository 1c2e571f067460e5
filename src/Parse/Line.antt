-- ===== src/Parse/Line.antt =====
-- `ParseLine` and `parseByProto`, proxies/internal/parse/parse.go.
use proxy_harv.Prelude.{Option, none, some, [], ◌∷◌}
use proxy_harv.Text.{Bytes, codes}
use proxy_harv.Text.Space.{trim}
use proxy_harv.Text.Number.{ℤ}
use proxy_harv.Text.Url.{query_unescape}
use proxy_harv.Runtime.{Runtime, to_lower}
use proxy_harv.Parse.Error.{
  Protocol, vless, vmess, ss, trojan, hysteria2, socks, anytls, tuic, hysteria, Result, ok, err,
  ◌>>=◌, not_share_link, in_protocol,
}
use proxy_harv.Parse.Scheme.{lookup, schemes}
use proxy_harv.Parse.Canonical.{scheme_split, canonical, hash}
use proxy_harv.Parse.Params.{fragment_of}
use proxy_harv.Parse.Outbound.{string, Fields, put}
use proxy_harv.Parse.Built.{Built}
use proxy_harv.Parse.Build.{
  build_vless, build_trojan, build_hysteria2, build_socks, build_anytls, build_tuic, build_hysteria,
}
use proxy_harv.Parse.Build.Vmess.{build_vmess}
use proxy_harv.Parse.Build.Shadowsocks.{build_ss}

pub record Node : Type 0 where
  pub uri : Bytes
  pub uri_hash : Bytes
  pub protocol : Protocol
  pub transport : Bytes
  pub host : Bytes
  pub port : ℤ
  pub name : Bytes
  pub outbound : Fields

-- the display name: the decoded fragment, "" if it does not decode
unfoldable pub name_of : Bytes → Bytes
unfolding fragment_of query_unescape
name_of rest = elim (query_unescape (fragment_of rest)) [ none ↦ [] | some name ↦ name ]

-- fmt.Errorf("%s: %w", proto, err)
abbrev wrap {ℓ} : {A : Type ℓ} → Protocol → Result A → Result A
wrap proto (ok a) = ok a
wrap proto (err e) = err (in_protocol proto e)

module _ (rt : Runtime) where
  -- the switch of `parseByProto`
  unfoldable pub build : Protocol → Bytes → Bytes → Result Built
  build vless scheme rest = build_vless rt scheme rest
  build vmess scheme rest = build_vmess rt rest
  build ss scheme rest = build_ss scheme rest
  build trojan scheme rest = build_trojan rt scheme rest
  build hysteria2 scheme rest = build_hysteria2 scheme rest
  build socks scheme rest = build_socks scheme rest
  build anytls scheme rest = build_anytls scheme rest
  build tuic scheme rest = build_tuic scheme rest
  build hysteria scheme rest = build_hysteria scheme rest

  -- the node without its uri and hash, which `ParseLine` fills in
  unfoldable pub parse_by_proto : Bytes → Protocol → Bytes → Result Node
  unfolding build put name_of
  parse_by_proto scheme proto rest = do
    b ← build proto scheme rest
    ok (record {
      uri = [];
      uri_hash = [];
      protocol = proto;
      transport = b.transport;
      host = b.host;
      port = b.port;
      name = name_of rest;
      outbound = put (codes "tag") (string (codes "probe")) b.out;
    })

  unfoldable pub parse_link : Bytes → Bytes → Bytes → Result (Option Node)
  unfolding lookup parse_by_proto canonical hash
  parse_link s scheme rest = elim (lookup scheme schemes) [
    | none ↦ err not_share_link
    | some proto ↦ (do
      n ← wrap proto (parse_by_proto scheme proto rest)
      text ← canonical rt s
      ok (some (record n { uri = s; uri_hash = hash rt text })))
  ]

  unfoldable pub parse_trimmed : Bytes → Result (Option Node)
  unfolding scheme_split parse_link to_lower
  parse_trimmed [] = ok none
  parse_trimmed (c ∷ s) = elim (scheme_split (c ∷ s)) [
    | none ↦ err not_share_link
    | some (scheme, rest) ↦ parse_link (c ∷ s) (to_lower rt scheme) rest
  ]

  -- `ParseLine`: `ok none` is a blank line.
  unfoldable pub parse_line : Bytes → Result (Option Node)
  unfolding trim parse_trimmed
  parse_line line = parse_trimmed (trim line)
