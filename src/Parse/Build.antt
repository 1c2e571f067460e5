-- ===== src/Parse/Build.antt =====
-- The builders of vless, trojan, hysteria2, socks, anytls, tuic and hysteria outbounds,
-- proxies/internal/parse/parse.go. A builder that fills a `*Node` returns the fields that it fills.
pub mod Vmess
pub mod Shadowsocks
pub mod Target
pub mod Consistent
use proxy_harv.Prelude.{
  ℕ, Bool, true, false, not, ◌&&◌, ◌||◌, Option, none, some, List, [], ◌∷◌, if◌then◌else◌,
}
use proxy_harv.Text.{Bytes, codes, str_eq, is_empty, split, cut}
use proxy_harv.Text.Number.{ℤ, pos, is_positive}
use proxy_harv.Runtime.{Runtime}
use proxy_harv.Parse.Error.{Result, ok, err, ◌>>=◌, tuic_missing_uuid}
use proxy_harv.Parse.Scheme.{lookup}
use proxy_harv.Parse.Params.{
  Pairs, Parsed, get, get_decoded, unescape_or_raw, parse_common, port_or_fallback, atoi_or,
  first_non_empty, insecure, user_of, pass_of,
}
use proxy_harv.Parse.Outbound.{
  Json, string, int, bool, strings, object, Fields, end, field, put, put_if, put_text,
  build_transport, map_transport, put_transport,
}
use proxy_harv.Parse.Built.{Built}

-- The first three fields of every outbound.
abbrev pub head : Bytes → Parsed → ℤ → Fields → Fields
head type p port more =
    field (codes "type") (string type)
      (field (codes "server") (string p.host) (field (codes "server_port") (int port) more))

abbrev pub enabled : Fields → Fields
enabled more = field (codes "enabled") (bool true) more

abbrev pub server_name : List Bytes → Fields → Fields
server_name names more = field (codes "server_name") (string (first_non_empty names)) more

unfoldable pub put_insecure : Pairs → Fields → Fields
unfolding insecure put
put_insecure q tls = put_if (insecure q) (codes "insecure") (bool true) tls

unfoldable pub put_alpn : Bytes → Fields → Fields
unfolding put split
put_alpn [] tls = tls
put_alpn (c ∷ s) tls = put (codes "alpn") (strings (split b',' (c ∷ s))) tls

unfoldable pub put_utls : Bytes → Fields → Fields
unfolding put
put_utls [] tls = tls
put_utls (c ∷ s) tls =
    put (codes "utls") (object (enabled (field (codes "fingerprint") (string (c ∷ s)) end))) tls

abbrev put_found : Bytes → Option Bytes → Fields → Fields
put_found k none out = out
put_found k (some v) out = put k (string v) out

-- The block that vless and trojan share: sni, insecure, alpn, fp.
unfoldable pub common_tls : Pairs → Bytes → Fields
unfolding get_decoded first_non_empty put_insecure put_alpn put_utls
common_tls q host = put_utls (get_decoded q (codes "fp")) (
    put_alpn (get_decoded q (codes "alpn")) (
      put_insecure q (
        enabled (
          server_name (get_decoded q (codes "sni") ∷ get_decoded q (codes "host") ∷ host ∷ [])
            end))))

unfoldable pub reality_block : Pairs → Fields
unfolding put lookup
reality_block q =
    put_found (codes "short_id") (get q (codes "sid"))
      (put_found (codes "public_key") (get q (codes "pbk")) (enabled end))

unfoldable pub vless_tls : Bytes → Pairs → Bytes → Fields → Fields
unfolding common_tls reality_block str_eq put
vless_tls security q host out =
    let tls = common_tls q host in
    if str_eq security (codes "reality")
    then put (codes "tls") (object (put (codes "reality") (object (reality_block q)) tls)) out
    else if str_eq security (codes "tls")
    then put (codes "tls") (object tls) out
    else out

abbrev put_flow : Option Bytes → Fields → Fields
put_flow none out = out
put_flow (some flow) out = put_text (codes "flow") flow out

module _ (rt : Runtime) where
  unfoldable pub build_vless : Bytes → Bytes → Result Built
  unfolding parse_common port_or_fallback vless_tls build_transport map_transport put_transport
      get_decoded
  build_vless scheme rest = do
    p ← parse_common rest
    let q = p.raw_query
    let port = port_or_fallback scheme p.port 443
    let transport = map_transport rt (get_decoded q (codes "type"))
    let base = head (codes "vless") p port (field (codes "uuid") (string p.userinfo) end)
    let flowed = put_flow (get q (codes "flow")) base
    let encoded =
        put_if (str_eq (get_decoded q (codes "packetEncoding")) (codes "xudp"))
          (codes "packet_encoding") (string (codes "xudp")) flowed
    let secured = vless_tls (get_decoded q (codes "security")) q p.host encoded
    ok (record {
      host = p.host;
      port = port;
      transport = transport;
      out = put_transport (build_transport transport q) secured;
    })

  unfoldable pub build_trojan : Bytes → Bytes → Result Built
  unfolding parse_common port_or_fallback common_tls build_transport map_transport put_transport
      get_decoded unescape_or_raw
  build_trojan scheme rest = do
    p ← parse_common rest
    let q = p.raw_query
    let port = port_or_fallback scheme p.port 443
    let transport = map_transport rt (get_decoded q (codes "type"))
    let password = string (unescape_or_raw p.userinfo)
    let base = head (codes "trojan") p port (field (codes "password") password end)
    let secured =
        put_if (not (str_eq (get_decoded q (codes "security")) (codes "none"))) (codes "tls")
          (object (common_tls q p.host)) base
    ok (record {
      host = p.host;
      port = port;
      transport = transport;
      out = put_transport (build_transport transport q) secured;
    })

-- the tls block of the protocols that look at sni only
abbrev pub sni_tls : Pairs → Bytes → Fields → Fields
sni_tls q host more = enabled (server_name (get_decoded q (codes "sni") ∷ host ∷ []) more)

abbrev put_obfs : Bytes → Fields → Fields
put_obfs [] out = out
put_obfs (c ∷ s) out =
    put (codes "obfs")
      (object (
        field (codes "type") (string (codes "salamander"))
          (field (codes "password") (string (c ∷ s)) end)))
      out

unfoldable pub put_positive : Bytes → ℤ → Fields → Fields
unfolding put is_positive
put_positive k v out = put_if (is_positive v) k (int v) out

unfoldable pub build_hysteria2 : Bytes → Bytes → Result Built
unfolding parse_common port_or_fallback get_decoded unescape_or_raw put_insecure put atoi_or
    put_positive
build_hysteria2 scheme rest = do
  p ← parse_common rest
  let q = p.raw_query
  let port = port_or_fallback scheme p.port 443
  let password = string (unescape_or_raw p.userinfo)
  let base = head (codes "hysteria2") p port (field (codes "password") password end)
  let secured = put (codes "tls") (object (put_insecure q (sni_tls q p.host end))) base
  let hidden = put_obfs (get_decoded q (codes "obfs-password")) secured
  let up = atoi_or (get_decoded q (codes "upmbps")) (pos 0)
  let down = atoi_or (get_decoded q (codes "downmbps")) (pos 0)
  ok (record {
    host = p.host;
    port = port;
    transport = codes "quic";
    out = put_positive (codes "down_mbps") down (put_positive (codes "up_mbps") up hidden);
  })

unfoldable pub socks_version : Bytes → Bytes
unfolding str_eq
socks_version scheme = if str_eq scheme (codes "socks4") then codes "4" else codes "5"

unfoldable pub put_credentials : Bytes → Fields → Fields
unfolding unescape_or_raw cut put
put_credentials [] out = out
put_credentials (c ∷ userinfo) out =
    let ui = unescape_or_raw (c ∷ userinfo) in
    let (user, password, found) = cut b':' ui in
    if found
    then put (codes "password") (string password) (put (codes "username") (string user) out)
    else put (codes "username") (string ui) out

unfoldable pub build_socks : Bytes → Bytes → Result Built
unfolding parse_common port_or_fallback socks_version put_credentials
build_socks scheme rest = do
  p ← parse_common rest
  let port = port_or_fallback scheme p.port 1080
  let base =
      head (codes "socks") p port (field (codes "version") (string (socks_version scheme)) end)
  ok (record {
    host = p.host;
    port = port;
    transport = codes "tcp";
    out = put_credentials p.userinfo base;
  })

unfoldable pub build_anytls : Bytes → Bytes → Result Built
unfolding parse_common port_or_fallback get_decoded unescape_or_raw put_insecure put str_eq
build_anytls scheme rest = do
  p ← parse_common rest
  let q = p.raw_query
  let port = port_or_fallback scheme p.port 443
  let password = string (unescape_or_raw p.userinfo)
  let base = head (codes "anytls") p port (field (codes "password") password end)
  ok (record {
    host = p.host;
    port = port;
    transport = codes "tcp";
    out =
        put_if (not (str_eq (get_decoded q (codes "security")) (codes "none"))) (codes "tls")
          (object (put_insecure q (sni_tls q p.host end))) base;
  })

abbrev h3_tls : List Bytes → Fields
h3_tls names = enabled (field (codes "alpn") (strings (codes "h3" ∷ [])) (server_name names end))

unfoldable pub finish_tuic : Bytes → Parsed → Bytes → Result Built
unfolding port_or_fallback get_decoded pass_of put_insecure first_non_empty
finish_tuic scheme p [] = err tuic_missing_uuid
finish_tuic scheme p (c ∷ uuid) =
    let q = p.raw_query in
    let port = port_or_fallback scheme p.port 443 in
    let password = first_non_empty (get_decoded q (codes "password") ∷ pass_of p.userinfo ∷ []) in
    let cc = first_non_empty (get_decoded q (codes "congestion_control") ∷ codes "bbr" ∷ []) in
    let tls = put_insecure q (h3_tls (get_decoded q (codes "sni") ∷ p.host ∷ [])) in
    ok (record {
      host = p.host;
      port = port;
      transport = codes "quic";
      out = head (codes "tuic") p port (
          field (codes "uuid") (string (c ∷ uuid)) (
            field (codes "password") (string password) (
              field (codes "congestion_control") (string cc)
                (field (codes "tls") (object tls) end))));
    })

unfoldable pub build_tuic : Bytes → Bytes → Result Built
unfolding parse_common get_decoded user_of finish_tuic
build_tuic scheme rest = do
  p ← parse_common rest
  let named = get_decoded p.raw_query (codes "uuid")
  finish_tuic scheme p (first_non_empty (named ∷ user_of p.userinfo ∷ []))

unfoldable pub build_hysteria : Bytes → Bytes → Result Built
unfolding parse_common port_or_fallback get_decoded unescape_or_raw put_insecure atoi_or
build_hysteria scheme rest = do
  p ← parse_common rest
  let q = p.raw_query
  let port = port_or_fallback scheme p.port 443
  let auth = first_non_empty (get_decoded q (codes "auth") ∷ unescape_or_raw p.userinfo ∷ [])
  let up = atoi_or (get_decoded q (codes "upmbps")) (pos 100)
  let down = atoi_or (get_decoded q (codes "downmbps")) (pos 100)
  let names = get_decoded q (codes "peer") ∷ get_decoded q (codes "sni") ∷ p.host ∷ []
  ok (record {
    host = p.host;
    port = port;
    transport = codes "quic";
    out = head (codes "hysteria") p port (
        field (codes "auth") (string auth) (
          field (codes "up_mbps") (int up) (
            field (codes "down_mbps") (int down)
              (field (codes "tls") (object (put_insecure q (h3_tls names))) end))));
  })
