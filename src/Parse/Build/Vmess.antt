-- ===== src/Parse/Build/Vmess.antt =====
-- `buildVmess`, proxies/internal/parse/parse.go.
use proxy_harv.Prelude.{Bool, true, ◌||◌, none, some, [], ◌∷◌, if◌then◌else◌}
use proxy_harv.Text.{Bytes, codes, str_eq, is_empty, has_prefix, split}
use proxy_harv.Text.Number.{ℤ, pos, is_zero, atoi_value}
use proxy_harv.Runtime.{Runtime, to_lower}
use proxy_harv.Parse.Error.{Result, ok, err, vmess_payload, vmess_missing}
use proxy_harv.Parse.Canonical.{drop_fragment}
use proxy_harv.Parse.Params.{atoi_or, first_non_empty}
use proxy_harv.Parse.Vmess.{VmessJson, decode_vmess_any}
use proxy_harv.Parse.Outbound.{
  string, int, bool, strings, object, Fields, end, field, put, put_if, build_transport_plain,
  map_transport, put_transport,
}
use proxy_harv.Parse.Built.{Built}

unfoldable pub put_vmess_alpn : Bytes → Fields → Fields
unfolding put split
put_vmess_alpn [] tls = tls
put_vmess_alpn (c ∷ s) tls = put (codes "alpn") (strings (split b',' (c ∷ s))) tls

module _ (rt : Runtime) where
  unfoldable pub vmess_wants_tls : VmessJson → Bool
  unfolding str_eq has_prefix to_lower
  vmess_wants_tls v = str_eq v.tls (codes "tls") || has_prefix (codes "tls") (to_lower rt v.tls)

  unfoldable pub finish_vmess : VmessJson → ℤ → Built
  unfolding vmess_wants_tls map_transport build_transport_plain put_transport put put_vmess_alpn
      atoi_or first_non_empty
  finish_vmess v port =
      let security = first_non_empty (v.scy ∷ codes "auto" ∷ []) in
      let transport = map_transport rt v.net in
      let base : Fields = field (codes "type") (string (codes "vmess")) (
        field (codes "server") (string v.add) (
          field (codes "server_port") (int port) (
            field (codes "uuid") (string v.id) (
              field (codes "security") (string security)
                (field (codes "alter_id") (int (atoi_or v.aid (pos 0))) end))))) in
      let tls : Fields = put_vmess_alpn v.alpn (
        field (codes "enabled") (bool true) (
          field (codes "server_name") (string (first_non_empty (v.sni ∷ v.host ∷ v.add ∷ [])))
            end)) in
      record {
        host = v.add;
        port = port;
        transport = transport;
        out =
            put_transport (build_transport_plain transport v.path v.host v.path)
              (put_if (vmess_wants_tls v) (codes "tls") (object tls) base);
      }

  unfoldable pub build_vmess : Bytes → Result Built
  unfolding drop_fragment decode_vmess_any atoi_value is_zero finish_vmess
  build_vmess rest = elim (decode_vmess_any rt (drop_fragment rest)) [
    | none ↦ err vmess_payload
    | some v ↦
        let port = atoi_value v.port in
        if is_empty v.add || is_empty v.id || is_zero port
        then err vmess_missing
        else ok (finish_vmess v port)
  ]
