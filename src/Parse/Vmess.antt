-- ===== src/Parse/Vmess.antt =====
-- The payload of a vmess link: `vmessJSON`, `decodeVmessB64`, `decodeVmessAny` and
-- `vmessFromBytes`, proxies/internal/parse/parse.go.
use proxy_harv.Prelude.{Option, none, some, List, if◌then◌else◌}
use proxy_harv.Text.{Bytes, codes}
use proxy_harv.Runtime.{Runtime, JsonValue, text, number, boolean}
use proxy_harv.Base64.{b64_decode}
use proxy_harv.Parse.Scheme.{lookup}

pub record VmessJson : Type 0 where
  pub v : Bytes
  pub add : Bytes
  pub port : Bytes
  pub id : Bytes
  pub aid : Bytes
  pub net : Bytes
  pub path : Bytes
  pub host : Bytes
  pub tls : Bytes
  pub sni : Bytes
  pub alpn : Bytes
  pub scy : Bytes

-- the type switch of `get`
unfoldable pub json_text : Option JsonValue → Bytes
json_text (some (text x)) = x
json_text (some (number x)) = x
json_text (some (boolean b)) = if b then codes "true" else codes "false"
json_text _ = codes ""

unfoldable pub vmess_of_object : List (Bytes × JsonValue) → Option VmessJson
unfolding lookup json_text
vmess_of_object raw =
    let get = λ (k : Bytes). json_text (lookup k raw) in
    elim (lookup (codes "id") raw) [
      | none ↦ none
      | some _ ↦ some (record {
        v = get (codes "v");
        add = get (codes "add");
        port = get (codes "port");
        id = get (codes "id");
        aid = get (codes "aid");
        net = get (codes "net");
        path = get (codes "path");
        host = get (codes "host");
        tls = get (codes "tls");
        sni = get (codes "sni");
        alpn = get (codes "alpn");
        scy = get (codes "scy");
      })
    ]

module _ (rt : Runtime) where
  unfoldable pub vmess_from_bytes : Bytes → Option VmessJson
  unfolding vmess_of_object
  vmess_from_bytes decoded = elim (rt.json_object decoded) [
    | none ↦ none
    | some raw ↦ vmess_of_object raw
  ]

  unfoldable pub decode_vmess_b64 : Bytes → Option VmessJson
  unfolding vmess_from_bytes b64_decode
  decode_vmess_b64 payload = elim (b64_decode payload) [
    | none ↦ none
    | some decoded ↦ vmess_from_bytes decoded
  ]

  unfoldable pub decode_vmess_any : Bytes → Option VmessJson
  unfolding vmess_from_bytes decode_vmess_b64
  decode_vmess_any payload = elim (decode_vmess_b64 payload) [
    | some v ↦ some v
    | none ↦ vmess_from_bytes payload
  ]
