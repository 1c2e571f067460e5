-- ===== src/Parse/Scheme.antt =====
-- The tables of schemes and default ports of proxies/internal/parse/parse.go.
use proxy_harv.Prelude.{ℕ, Option, none, some, List, [], ◌∷◌, if◌then◌else◌}
use proxy_harv.Text.{Bytes, codes, str_eq}
use proxy_harv.Parse.Error.{
  Protocol, vless, vmess, ss, trojan, hysteria2, socks, anytls, tuic, hysteria,
}

-- A lookup in a map with string keys.
unfoldable pub lookup {ℓ} : {V : Type ℓ} → Bytes → List (Bytes × V) → Option V
unfolding str_eq
lookup k [] = none
lookup k ((j, v) ∷ m) = if str_eq k j then some v else lookup k m

abbrev pub schemes : List (Bytes × Protocol)
schemes =
    (codes "vless", vless)
    ∷ (codes "vmess", vmess)
    ∷ (codes "ss", ss)
    ∷ (codes "shadowsocks", ss)
    ∷ (codes "trojan", trojan)
    ∷ (codes "hysteria2", hysteria2)
    ∷ (codes "hy2", hysteria2)
    ∷ (codes "socks", socks)
    ∷ (codes "socks5", socks)
    ∷ (codes "socks4", socks)
    ∷ (codes "anytls", anytls)
    ∷ (codes "tuic", tuic)
    ∷ (codes "hysteria", hysteria)
    ∷ []

abbrev pub strip_defaults : List (Bytes × ℕ)
strip_defaults = (codes "http", 80) ∷ (codes "https", 443) ∷ (codes "socks", 1080) ∷ []

abbrev pub fallback_ports : List (Bytes × ℕ)
fallback_ports =
    (codes "ss", 8388)
    ∷ (codes "vmess", 443)
    ∷ (codes "vless", 443)
    ∷ (codes "trojan", 443)
    ∷ (codes "hysteria2", 443)
    ∷ (codes "tuic", 443)
    ∷ (codes "hysteria", 443)
    ∷ (codes "anytls", 443)
    ∷ (codes "socks", 1080)
    ∷ (codes "socks5", 1080)
    ∷ (codes "socks4", 1080)
    ∷ []
