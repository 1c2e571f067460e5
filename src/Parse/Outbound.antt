-- ===== src/Parse/Outbound.antt =====
-- The sing-box outbound as a JSON value, and the transport block: `buildTransport`,
-- `buildTransportPlain` and `mapTransport`, proxies/internal/parse/parse.go. A Go map is a list of
-- fields with one field for each key; json.Marshal of it is not modelled.
use proxy_harv.Prelude.{Bool, Option, none, some, List, [], ◌∷◌, if◌then◌else◌}
use proxy_harv.Text.{Bytes, codes, str_eq, one_of}
use proxy_harv.Text.Number.{ℤ}
use proxy_harv.Runtime.{Runtime, to_lower}
use proxy_harv.Parse.Scheme.{lookup}
use proxy_harv.Parse.Params.{Pairs, get, or_empty}

mutual
  pub data Json : Type 0 where
    string : Bytes → Json
    int : ℤ → Json
    bool : Bool → Json
    strings : List Bytes → Json
    object : Fields → Json
    -- a list that holds one object
    list_of : Fields → Json

  pub data Fields : Type 0 where
    end : Fields
    field : Bytes → Json → Fields → Fields

-- out[k] = v
unfoldable pub put : Bytes → Json → Fields → Fields
unfolding str_eq
put k v end = field k v end
put k v (field j w rest) = if str_eq k j then field k v rest else field j w (put k v rest)

-- out[k]
unfoldable pub field_of : Bytes → Fields → Option Json
unfolding str_eq
field_of k end = none
field_of k (field j w rest) = if str_eq k j then some w else field_of k rest

-- out[k] = v under a test
abbrev pub put_if : Bool → Bytes → Json → Fields → Fields
put_if test k v out = if test then put k v out else out

-- out[k] = s if s != ""
abbrev pub put_text : Bytes → Bytes → Fields → Fields
put_text k [] out = out
put_text k (c ∷ s) out = put k (string (c ∷ s)) out

abbrev typed : Bytes → Fields
typed t = field (codes "type") (string t) end

abbrev put_headers : Bytes → Fields → Fields
put_headers [] out = out
put_headers (c ∷ s) out =
    put (codes "headers") (object (field (codes "Host") (string (c ∷ s)) end)) out

abbrev put_hosts : Bytes → Fields → Fields
put_hosts [] out = out
put_hosts (c ∷ s) out = put (codes "host") (strings ((c ∷ s) ∷ [])) out

-- The arguments: transport, path, host header, service name. No block for tcp, raw, none.
unfoldable pub build_transport_plain : Bytes → Bytes → Bytes → Bytes → Option Fields
unfolding put one_of str_eq
build_transport_plain transport path host service =
    if str_eq transport (codes "ws")
    then some (put_headers host (put_text (codes "path") path (typed (codes "ws"))))
    else if str_eq transport (codes "grpc")
    then some (put_text (codes "service_name") service (typed (codes "grpc")))
    else if str_eq transport (codes "httpupgrade")
    then some
        (put_text (codes "host") host (put_text (codes "path") path (typed (codes "httpupgrade"))))
    else if one_of transport (codes "xhttp" ∷ codes "splithttp" ∷ [])
    then some (put_text (codes "host") host (put_text (codes "path") path (typed (codes "xhttp"))))
    else if one_of transport (codes "http" ∷ codes "h2" ∷ [])
    then some (put_hosts host (put_text (codes "path") path (typed (codes "http"))))
    else none

unfoldable pub build_transport : Bytes → Pairs → Option Fields
unfolding build_transport_plain lookup or_empty
build_transport transport pairs =
    build_transport_plain transport (or_empty (get pairs (codes "path")))
      (or_empty (get pairs (codes "host"))) (or_empty (get pairs (codes "serviceName")))

unfoldable pub lowered_transport : Bytes → Bytes
unfolding one_of str_eq
lowered_transport t =
    if one_of t (codes "ws" ∷ codes "websocket" ∷ [])
    then codes "ws"
    else if str_eq t (codes "grpc")
    then codes "grpc"
    else if str_eq t (codes "quic")
    then codes "quic"
    else if str_eq t (codes "httpupgrade")
    then codes "httpupgrade"
    else if one_of t (codes "xhttp" ∷ codes "splithttp" ∷ [])
    then codes "xhttp"
    else if one_of t (codes "http" ∷ codes "h2" ∷ codes "http2" ∷ [])
    then codes "http"
    else if str_eq t (codes "kcp")
    then codes "kcp"
    else codes "tcp"

unfoldable pub map_transport : Runtime → Bytes → Bytes
unfolding lowered_transport to_lower
map_transport rt t = lowered_transport (to_lower rt t)

-- out["transport"] = tr if tr != nil
unfoldable pub put_transport : Option Fields → Fields → Fields
unfolding put
put_transport none out = out
put_transport (some tr) out = put (codes "transport") (object tr) out
