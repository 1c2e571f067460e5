-- ===== src/Fetcher.antt =====
-- proxies/cmd/fetcher/main.go: a pass over the sources, and the batches of links that it publishes.
-- The download, the printing of times and the answer of the bus are arguments.
pub mod Batches
pub mod Passes
use proxy_harv.Prelude.{
  ℕ, ◌+◌, ◌*◌, ◌/◌, ◌-◌, ◌^◌, Bool, true, false, Option, none, some, List, [], ◌∷◌, ◌++◌, length,
  take, ltb, leb, ◌==◌, if◌then◌else◌,
}
use proxy_harv.Text.{Bytes, codes}
use proxy_harv.Text.Number.{ℤ, pos, negsuc, itoa}
use proxy_harv.Runtime.{Runtime, hex}
use proxy_harv.Floats.{Floats}
use proxy_harv.Parse.Error.{
  Protocol, vless, vmess, ss, trojan, hysteria2, socks, anytls, tuic, hysteria,
}
use proxy_harv.Parse.Line.{Node}
use proxy_harv.Parse.Many.{parse_many}
use proxy_harv.Model.{Source, Tables}
use proxy_harv.Model.Catalog.{list_sources, update_source_status}
use proxy_harv.Wire.{RawNode, RawBatch}

-- What the HTTP client finds at a URL: the body is `none` where reading it fails.
pub data Download : Type 0 where
  bad_url : Download
  no_answer : Download
  answered : ℕ → Option Bytes → Download

-- the text of a protocol
unfoldable pub protocol_name : Protocol → Bytes
protocol_name vless = codes "vless"
protocol_name vmess = codes "vmess"
protocol_name ss = codes "ss"
protocol_name trojan = codes "trojan"
protocol_name hysteria2 = codes "hysteria2"
protocol_name socks = codes "socks"
protocol_name anytls = codes "anytls"
protocol_name tuic = codes "tuic"
protocol_name hysteria = codes "hysteria"

unfoldable pub raw_node : Node → RawNode
unfolding protocol_name
raw_node n = record {
  uri = n.uri;
  uri_hash = n.uri_hash;
  protocol = protocol_name n.protocol;
  transport = n.transport;
  host = n.host;
  port = n.port;
}

-- len(batchNodes) >= f.batch
unfoldable pub is_full : ℕ → List RawNode → Bool
is_full n pending = leb n (length pending)

-- `maxBodyBytes`
abbrev pub max_body_bytes : ℕ
max_body_bytes = 32 * 2 ^ 20

-- The loop's variables: the links that wait, the messages published, oldest first, and their links'
-- number.
pub record Progress : Type 0 where
  pub pending : List RawNode
  pub sent : List (Bytes × RawBatch)
  pub published : ℕ

-- What the fetcher takes from outside: how a time is printed, the time of the n-th message, and
-- whether the bus takes it.
pub record Outside : Type 0 where
  pub print_time : ℕ → Bytes
  pub time_of : ℕ → ℕ
  pub accepts : ℕ → Bool
  -- whether memory holds a batch of that capacity
  pub fits : ℕ → Bool

-- make([]natsb.RawNode, 0, batch), which panics on a negative capacity and on one that does not fit
unfoldable pub make_batch : Outside → ℤ → Option ℕ
make_batch out (negsuc n) = none
make_batch out (pos n) = if out.fits n then some n else none

module _ (rt : Runtime) (out : Outside) (batch : ℕ) where
  unfoldable pub msg_id : ℕ → ℕ → ℕ → Bytes
  unfolding hex itoa
  msg_id source size at =
      codes "raw:"
      ++ hex
          (take 8 (rt.sha256 (itoa source ++ (b':' ∷ (itoa size ++ (b':' ∷ out.print_time at))))))

  -- `flush`: the loop's variables, and whether it did not fail
  unfoldable pub flush : ℕ → ℕ → Progress → Progress × Bool
  unfolding msg_id
  flush source size p = elim p.pending [
    | [] ↦ (p, true)
    | n ∷ ns ↦
        let at = out.time_of (length p.sent) in
        if out.accepts (length p.sent)
        then (
          record {
            pending = [];
            sent =
                p.sent
                ++ ((
                  msg_id source size at,
                  record { source_id = source; fetched_at = at; nodes = n ∷ ns },
                )
                    ∷ []);
            published = p.published + length (n ∷ ns);
          },
          true,
        )
        else (p, false)
  ]

  unfoldable pub add_node : Node → Progress → Progress
  unfolding raw_node
  add_node n p = record p { pending = p.pending ++ (raw_node n ∷ []) }

  -- the loop over the parsed nodes, and the `flush` behind it
  unfoldable pub send_nodes : ℕ → ℕ → List Node → Progress → Progress × Bool
  unfolding flush add_node is_full
  send_nodes source size [] p = flush source size p
  send_nodes source size (n ∷ ns) p =
      let p' = add_node n p in
      let (flushed, fine) = flush source size p' in
      let rest = send_nodes source size ns flushed in
      let rest' = send_nodes source size ns p' in
      if is_full batch p'.pending then (if fine then rest else (flushed, false)) else rest'

  abbrev pub nothing : Progress
  nothing = record { pending = []; sent = []; published = 0 }

  unfoldable pub status_of : Progress × Bool → Bytes × Progress × Bool
  status_of (p, true) = (codes "ok", p, true)
  status_of (p, false) = (codes "err:publish", p, false)

  -- the body is parsed and its links are sent
  unfoldable pub send_body : ℕ → Bytes → Bytes × Progress × Bool
  unfolding parse_many send_nodes status_of
  send_body source body = status_of (send_nodes source (length body) (parse_many rt body) nothing)

module _ (rt : Runtime) (out : Outside) (batch : ℤ) where
  abbrev failed_with : Bytes → Bytes × Progress × Bool
  failed_with status = (status, nothing rt out 0, false)

  -- `fetchSource` from io.ReadAll on, which reads `max_body_bytes` at most; `none` is a panic
  unfoldable pub read_source : ℕ → Option Bytes → Option (Bytes × Progress × Bool)
  unfolding send_body make_batch
  read_source source none = some (failed_with (codes "err:read"))
  read_source source (some all) = elim (make_batch out batch) [
    | none ↦ none
    | some n ↦ some (send_body rt out n source (take max_body_bytes all))
  ]

  -- `fetchSource`: the status, the messages published, the number of their links, and whether it
  -- returned no error; `none` is a panic
  unfoldable pub fetch_source : ℕ → Download → Option (Bytes × Progress × Bool)
  unfolding read_source itoa
  fetch_source source bad_url = some (failed_with (codes "err:badurl"))
  fetch_source source no_answer = some (failed_with (codes "err:network"))
  fetch_source source (answered status body) =
      if status == 200
      then read_source source body
      else some (failed_with (codes "http_" ++ itoa status))

-- What a pass takes from outside: the answer of each URL, and for the id of a source the time its
-- status is stored at, whether the context has ended before it, and what its messages meet.
pub record World : Type 0 where
  pub download : Bytes → Download
  pub now : ℕ → ℕ
  pub cancelled : ℕ → Bool
  pub outside : ℕ → Outside

-- How a pass ends: behind the last source, with the context, or in a panic.
pub data Ending : Type 0 where
  finished cancelled crashed : Ending

-- A pass: the tables, the messages, the number of sources that failed, and its end.
pub record Pass (fl : Floats) : Type 0 where
  pub tables : Tables fl
  pub messages : List (Bytes × RawBatch)
  pub dead : ℕ
  pub ending : Ending

module _ (fl : Floats) (rt : Runtime) (world : World) (batch : ℤ) where
  -- one source of the loop of `pass`
  unfoldable pub pass_source : Source → Tables fl → Option (Tables fl × List (Bytes × RawBatch) × ℕ)
  unfolding fetch_source update_source_status
  pass_source src db =
      elim (fetch_source rt (world.outside src.id) batch src.id (world.download src.url)) [
        | none ↦ none
        | some (status, p, fine) ↦ some (
          update_source_status fl src.id status (world.now src.id) db,
          p.sent,
          if fine then 0 else 1,
        )
      ]

  abbrev ended : Ending → Tables fl → Pass fl
  ended e db = record { tables = db; messages = []; dead = 0; ending = e }

  unfoldable pub pass_sources : List Source → Tables fl → Pass fl
  unfolding pass_source
  pass_sources [] db = ended finished db
  pass_sources (src ∷ srcs) db =
      if world.cancelled src.id then ended cancelled db else (elim (pass_source src db) [
        | none ↦ ended crashed db
        | some (db', sent, failed) ↦
            (let rest = pass_sources srcs db' in
              record rest { messages = sent ++ rest.messages; dead = failed + rest.dead })
      ])

  -- `pass`
  unfoldable pub pass_all : Tables fl → Pass fl
  unfolding pass_sources list_sources
  pass_all db = pass_sources (list_sources fl true db) db

-- The warning behind the loop.
unfoldable pub too_many_dead : ℕ → ℕ → Bool
too_many_dead dead total = if ltb 0 total then ltb 30 (dead * 100 / total) else false
