-- ===== src/Parse/Build/Consistent.antt =====
-- The node of a link against its outbound.
use proxy_harv.Prelude.{
  Bool, true, not, ◌||◌, [], ◌∷◌, ◌≡◌, refl, arith, Option-cases, Bool-cases, inl, inr,
}
use proxy_harv.Text.{Bytes, codes, str_eq, is_empty, one_of, last_split}
use proxy_harv.Text.Number.{ℤ, pos, is_zero, atoi_value}
use proxy_harv.Runtime.{Runtime, to_lower}
use proxy_harv.Base64.{b64_decode}
use proxy_harv.Parse.Error.{
  Protocol, vless, vmess, ss, trojan, hysteria2, socks, anytls, tuic, hysteria, ok, err,
  vmess_missing,
}
use proxy_harv.Parse.Canonical.{drop_fragment, split_auth}
use proxy_harv.Parse.Vmess.{VmessJson, decode_vmess_any}
use proxy_harv.Parse.Params.{
  Parsed, get, get_decoded, port_or_fallback, unescape_or_raw, atoi_or, parse_common,
  first_non_empty,
}
use proxy_harv.Parse.Outbound.{
  string, int, bool, object, Fields, end, field, build_transport, build_transport_plain,
  lowered_transport, map_transport, field_of,
}
use proxy_harv.Parse.Built.{Built}
use proxy_harv.Parse.Build.{
  head, common_tls, put_insecure, sni_tls, build_vless, build_trojan, build_hysteria2, build_socks,
  build_anytls, finish_tuic, build_tuic, build_hysteria,
}
use proxy_harv.Parse.Build.Vmess.{put_vmess_alpn, vmess_wants_tls, finish_vmess, build_vmess}
use proxy_harv.Parse.Build.Shadowsocks.{
  finish_ss, legacy_ss, build_legacy_ss, build_ss, split_secret,
}
use proxy_harv.Parse.Build.Target.{
  AllOk, AllOk-bind, AllOk-if, AllOk-ok, Dials, Dials-put, Dials-put_if, Dials-put_transport,
  Dials-vless_tls, Dials-put_flow, Dials-put_positive, Dials-put_obfs, Dials-put_credentials,
}
use proxy_harv.Model.Due.{tcp_family}
use proxy_harv.Parse.Line.{build}

-- quic, or one of the transports that are dialled first
abbrev pub is_known : Bytes → Bool
is_known t = str_eq t (codes "quic") || one_of t tcp_family

-- The outbound dials the host and port of the node, and the transport is known.
abbrev pub IsConsistent : Built → Type 0
IsConsistent b = Dials b.host b.port b.out × (is_known b.transport ≡ true)

lowered_transport-is_known : (t : Bytes) → is_known (lowered_transport t) ≡ true
unfolding lowered_transport str_eq one_of
lowered_transport-is_known t = ground arith

map_transport-is_known : (rt : Runtime) (t : Bytes) → is_known (map_transport rt t) ≡ true
unfolding map_transport
map_transport-is_known rt t = lowered_transport-is_known (to_lower rt t)

head-Dials :
    (type : Bytes) (p : Parsed) (port : ℤ) (more : Fields)
    → Dials p.host port (head type p port more)
unfolding field_of str_eq
head-Dials type p port more = (refl, refl)

module _ (rt : Runtime) (scheme : Bytes) where
  build_vless-IsConsistent : (rest : Bytes) → AllOk IsConsistent (build_vless rt scheme rest)
  unfolding build_vless str_eq
  build_vless-IsConsistent rest = AllOk-bind IsConsistent (parse_common rest) _ (λ p. (
    Dials-put_transport p.host (port_or_fallback scheme p.port 443)
        (build_transport (map_transport rt (get_decoded p.raw_query (codes "type"))) p.raw_query) _
        (Dials-vless_tls p.host (port_or_fallback scheme p.port 443)
          (get_decoded p.raw_query (codes "security")) p.raw_query p.host _
          (Dials-put_if p.host (port_or_fallback scheme p.port 443)
            (str_eq (get_decoded p.raw_query (codes "packetEncoding")) (codes "xudp"))
            (codes "packet_encoding") (string (codes "xudp")) _ (refl, refl)
            (Dials-put_flow p.host (port_or_fallback scheme p.port 443)
              (get p.raw_query (codes "flow")) _
              (head-Dials (codes "vless") p (port_or_fallback scheme p.port 443)
                (field (codes "uuid") (string p.userinfo) end))))),
    map_transport-is_known rt (get_decoded p.raw_query (codes "type")),
  ))

  build_trojan-IsConsistent : (rest : Bytes) → AllOk IsConsistent (build_trojan rt scheme rest)
  unfolding build_trojan str_eq
  build_trojan-IsConsistent rest = AllOk-bind IsConsistent (parse_common rest) _ (λ p. (
    Dials-put_transport p.host (port_or_fallback scheme p.port 443)
        (build_transport (map_transport rt (get_decoded p.raw_query (codes "type"))) p.raw_query) _
        (Dials-put_if p.host (port_or_fallback scheme p.port 443)
          (not (str_eq (get_decoded p.raw_query (codes "security")) (codes "none"))) (codes "tls")
          (object (common_tls p.raw_query p.host)) _ (refl, refl)
          (head-Dials (codes "trojan") p (port_or_fallback scheme p.port 443)
            (field (codes "password") (string (unescape_or_raw p.userinfo)) end))),
    map_transport-is_known rt (get_decoded p.raw_query (codes "type")),
  ))

  build_hysteria2-IsConsistent : (rest : Bytes) → AllOk IsConsistent (build_hysteria2 scheme rest)
  unfolding build_hysteria2 str_eq
  build_hysteria2-IsConsistent rest = AllOk-bind IsConsistent (parse_common rest) _ (λ p. (
    Dials-put_positive p.host (port_or_fallback scheme p.port 443) (codes "down_mbps") _ _
        (refl, refl)
        (Dials-put_positive p.host (port_or_fallback scheme p.port 443) (codes "up_mbps") _ _
          (refl, refl)
          (Dials-put_obfs p.host (port_or_fallback scheme p.port 443)
            (get_decoded p.raw_query (codes "obfs-password")) _
            (Dials-put p.host (port_or_fallback scheme p.port 443) (codes "tls")
              (object (put_insecure p.raw_query (sni_tls p.raw_query p.host end))) _ (refl, refl)
              (head-Dials (codes "hysteria2") p (port_or_fallback scheme p.port 443)
                (field (codes "password") (string (unescape_or_raw p.userinfo)) end))))),
    refl,
  ))

  build_socks-IsConsistent : (rest : Bytes) → AllOk IsConsistent (build_socks scheme rest)
  unfolding build_socks str_eq one_of
  build_socks-IsConsistent rest =
      AllOk-bind IsConsistent (parse_common rest) _ (λ p.
        (Dials-put_credentials p.host _ p.userinfo _ (head-Dials (codes "socks") p _ _), refl))

  build_anytls-IsConsistent : (rest : Bytes) → AllOk IsConsistent (build_anytls scheme rest)
  unfolding build_anytls str_eq one_of
  build_anytls-IsConsistent rest = AllOk-bind IsConsistent (parse_common rest) _ (λ p. (
    Dials-put_if p.host (port_or_fallback scheme p.port 443)
        (not (str_eq (get_decoded p.raw_query (codes "security")) (codes "none"))) (codes "tls")
        (object (put_insecure p.raw_query (sni_tls p.raw_query p.host end))) _ (refl, refl)
        (head-Dials (codes "anytls") p (port_or_fallback scheme p.port 443)
          (field (codes "password") (string (unescape_or_raw p.userinfo)) end)),
    refl,
  ))

  finish_tuic-IsConsistent :
      (p : Parsed) (uuid : Bytes) → AllOk IsConsistent (finish_tuic scheme p uuid)
  unfolding finish_tuic str_eq
  finish_tuic-IsConsistent p [] = tt
  finish_tuic-IsConsistent p (c ∷ uuid) = (head-Dials (codes "tuic") p _ _, refl)

  build_tuic-IsConsistent : (rest : Bytes) → AllOk IsConsistent (build_tuic scheme rest)
  unfolding build_tuic
  build_tuic-IsConsistent rest =
      AllOk-bind IsConsistent (parse_common rest) _ (λ p. finish_tuic-IsConsistent p _)

  build_hysteria-IsConsistent : (rest : Bytes) → AllOk IsConsistent (build_hysteria scheme rest)
  unfolding build_hysteria str_eq
  build_hysteria-IsConsistent rest =
      AllOk-bind IsConsistent (parse_common rest) _
        (λ p. (head-Dials (codes "hysteria") p _ _, refl))

  finish_vmess-IsConsistent : (v : VmessJson) (port : ℤ) → IsConsistent (finish_vmess rt v port)
  unfolding finish_vmess str_eq field_of
  finish_vmess-IsConsistent v port =
      let base : Fields = field (codes "type") (string (codes "vmess")) (
        field (codes "server") (string v.add) (
          field (codes "server_port") (int port) (
            field (codes "uuid") (string v.id) (
              field (codes "security") (string (first_non_empty (v.scy ∷ codes "auto" ∷ [])))
                (field (codes "alter_id") (int (atoi_or v.aid (pos 0))) end))))) in
      let tls : Fields = put_vmess_alpn v.alpn (
        field (codes "enabled") (bool true) (
          field (codes "server_name") (string (first_non_empty (v.sni ∷ v.host ∷ v.add ∷ [])))
            end)) in
      (
        Dials-put_transport v.add port
            (build_transport_plain (map_transport rt v.net) v.path v.host v.path) _
            (Dials-put_if v.add port (vmess_wants_tls rt v) (codes "tls") (object tls) base
              (refl, refl) (refl, refl)),
        map_transport-is_known rt v.net,
      )

  build_vmess-IsConsistent : (rest : Bytes) → AllOk IsConsistent (build_vmess rt rest)
  unfolding build_vmess
  build_vmess-IsConsistent rest = elim (Option-cases (decode_vmess_any rt (drop_fragment rest))) [
    | inl e ↦ rw (e, build_vmess) tt
    | inr (v, e) ↦
        rw (e, build_vmess)
          (AllOk-if IsConsistent (is_empty v.add || is_empty v.id || is_zero (atoi_value v.port))
            (err vmess_missing) (ok (finish_vmess rt v (atoi_value v.port))) tt
            (finish_vmess-IsConsistent v (atoi_value v.port)))
  ]

  finish_ss-IsConsistent :
      (host : Bytes) (port : ℤ) (secret : Bytes × Bytes)
      → AllOk IsConsistent (finish_ss host port secret)
  unfolding finish_ss str_eq one_of field_of
  finish_ss-IsConsistent host port (method, password) =
      elim (Bool-cases (is_empty method || is_empty password)) [
        | inl e ↦ rw (e, finish_ss) tt
        | inr e ↦ rw (e, finish_ss) ((refl, refl), refl)
      ]

  legacy_ss-IsConsistent :
      (userinfo address : Bytes) → AllOk IsConsistent (legacy_ss scheme userinfo address)
  unfolding legacy_ss
  legacy_ss-IsConsistent userinfo address =
      AllOk-bind IsConsistent (split_auth address) _
        (λ a. finish_ss-IsConsistent _ _ (split_secret userinfo))

  build_legacy_ss-IsConsistent : (rest : Bytes) → AllOk IsConsistent (build_legacy_ss scheme rest)
  unfolding build_legacy_ss
  build_legacy_ss-IsConsistent rest = elim (Option-cases (b64_decode (drop_fragment rest))) [
    | inl e ↦ rw (e, build_legacy_ss) tt
    | inr (s, e) ↦ (elim (Option-cases (last_split b'@' s)) [
      | inl f ↦ rw (e, f, build_legacy_ss) tt
      | inr ((u, a), f) ↦ rw (e, f, build_legacy_ss) (legacy_ss-IsConsistent u a)
    ])
  ]

  build_ss-IsConsistent : (rest : Bytes) → AllOk IsConsistent (build_ss scheme rest)
  unfolding build_ss
  build_ss-IsConsistent rest = AllOk-bind IsConsistent (parse_common rest) _ (λ p.
      AllOk-if IsConsistent (is_empty p.userinfo) (build_legacy_ss scheme rest)
        (finish_ss p.host (port_or_fallback scheme p.port 8388) (split_secret p.userinfo))
        (build_legacy_ss-IsConsistent rest)
        (finish_ss-IsConsistent p.host (port_or_fallback scheme p.port 8388)
          (split_secret p.userinfo)))

  build-AllOk : (proto : Protocol) (rest : Bytes) → AllOk IsConsistent (build rt proto scheme rest)
  unfolding build
  build-AllOk vless rest = build_vless-IsConsistent rest
  build-AllOk vmess rest = build_vmess-IsConsistent rest
  build-AllOk ss rest = build_ss-IsConsistent rest
  build-AllOk trojan rest = build_trojan-IsConsistent rest
  build-AllOk hysteria2 rest = build_hysteria2-IsConsistent rest
  build-AllOk socks rest = build_socks-IsConsistent rest
  build-AllOk anytls rest = build_anytls-IsConsistent rest
  build-AllOk tuic rest = build_tuic-IsConsistent rest
  build-AllOk hysteria rest = build_hysteria-IsConsistent rest

  -- Whatever the protocol, a link that a builder accepts gives an outbound whose "server" and
  -- "server_port" are the host and port of the node, and a transport that is quic or one of those
  -- that `NodesDueL0` asks for.
  pub build-IsConsistent :
      (proto : Protocol) (rest : Bytes) (b : Built)
      → build rt proto scheme rest ≡ ok b
      → IsConsistent b
  build-IsConsistent proto rest b e =
      AllOk-ok IsConsistent (build rt proto scheme rest) (build-AllOk proto rest) e
