-- ===== src/Parse/Build/Shadowsocks.antt =====
-- `buildSS` and `splitUserInfoSecret`, proxies/internal/parse/parse.go.
use proxy_harv.Prelude.{not, ◌&&◌, ◌||◌, Option, none, some, [], if◌then◌else◌}
use proxy_harv.Text.{Bytes, codes, is_empty, last_split, cut}
use proxy_harv.Text.Number.{ℤ, pos}
use proxy_harv.Base64.{b64_decode}
use proxy_harv.Parse.Error.{
  Result, ok, err, ◌>>=◌, ss_not_base64, ss_missing_host, ss_missing_secret,
}
use proxy_harv.Parse.Canonical.{drop_fragment, split_auth}
use proxy_harv.Parse.Params.{parse_common, port_or_fallback, atoi_or, strip_brackets}
use proxy_harv.Parse.Outbound.{string, int, end, field}
use proxy_harv.Parse.Built.{Built}

-- the plain form `method:password`, or a password alone
unfoldable pub plain_secret : Bytes → Bytes × Bytes
unfolding cut
plain_secret ui = let (m, p, found) = cut b':' ui in if found then (m, p) else ([], ui)

unfoldable pub secret_of : Bytes → Option Bytes → Bytes × Bytes
unfolding cut plain_secret
secret_of ui none = plain_secret ui
secret_of ui (some decoded) =
    let (m, p, found) = cut b':' decoded in
    if found && not (is_empty m) then (m, p) else plain_secret ui

-- `splitUserInfoSecret`
unfoldable pub split_secret : Bytes → Bytes × Bytes
unfolding secret_of b64_decode
split_secret ui = secret_of ui (b64_decode ui)

unfoldable pub finish_ss : Bytes → ℤ → Bytes × Bytes → Result Built
finish_ss host port (method, password) =
    if is_empty method || is_empty password
    then err ss_missing_secret
    else ok (record {
      host = host;
      port = port;
      transport = codes "tcp";
      out = field (codes "type") (string (codes "shadowsocks")) (
          field (codes "server") (string host) (
            field (codes "server_port") (int port) (
              field (codes "method") (string method)
                (field (codes "password") (string password) end))));
    })

-- the host part of the legacy form
unfoldable pub legacy_ss : Bytes → Bytes → Bytes → Result Built
unfolding split_auth port_or_fallback atoi_or strip_brackets finish_ss split_secret
legacy_ss scheme userinfo address = do
  a ← split_auth address
  let port = port_or_fallback scheme (atoi_or a.port (pos 0)) 8388
  finish_ss (strip_brackets a.host) port (split_secret userinfo)

-- legacy: the whole opaque part is base64(method:password@host:port)
unfoldable pub build_legacy_ss : Bytes → Bytes → Result Built
unfolding drop_fragment b64_decode last_split legacy_ss
build_legacy_ss scheme rest = elim (b64_decode (drop_fragment rest)) [
  | none ↦ err ss_not_base64
  | some s ↦ (elim (last_split b'@' s) [
    | none ↦ err ss_missing_host
    | some (userinfo, address) ↦ legacy_ss scheme userinfo address
  ])
]

unfoldable pub build_ss : Bytes → Bytes → Result Built
unfolding parse_common port_or_fallback build_legacy_ss finish_ss split_secret
build_ss scheme rest = do
  p ← parse_common rest
  let port = port_or_fallback scheme p.port 8388
  let secret = split_secret p.userinfo
  let legacy = build_legacy_ss scheme rest
  (if is_empty p.userinfo then legacy else finish_ss p.host port secret)
