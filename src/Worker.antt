-- ===== src/Worker.antt =====
-- proxies/cmd/worker/main.go: one job of a worker, and the numbers that it counts. The goroutines of
-- a job fill different places of one slice, so their order does not show in it; the shuffle and
-- what the probes find are arguments. Parsing of flags, the streams and the clock are not modelled.
pub mod Lines
pub mod DryRun
pub mod Verdict
pub mod Loop
use proxy_harv.Prelude.{
  ℕ, ◌*◌, ◌/◌, Bool, true, false, not, Option, none, some, List, [], ◌∷◌, map, if◌then◌else◌,
}
use proxy_harv.Text.{Bytes, codes, is_empty, str_eq}
use proxy_harv.Text.Number.{ℤ, pos, is_positive}
use proxy_harv.Floats.{Floats}
use proxy_harv.Parse.Outbound.{Fields}
use proxy_harv.Model.{Stage, l0, l1, l2, val, other_stage, second}
use proxy_harv.Probe.{
  Code, no_code, dial_timeout, dial_refused, tls, proto_handshake, http_status, content_mismatch,
  slow, process_timeout, internal, Outcome,
}
use proxy_harv.Metrics.{Registry, probe_request, probe_duration, job_batch}
use proxy_harv.Wire.{stage_name, JobNode, JobBatch, ResultItem, ResultsBatch}

-- the values of probe.Code
unfoldable pub code_name : Code → Bytes
code_name no_code = []
code_name dial_timeout = codes "E_DIAL_TIMEOUT"
code_name dial_refused = codes "E_DIAL_REFUSED"
code_name tls = codes "E_TLS"
code_name proto_handshake = codes "E_PROTO_HANDSHAKE"
code_name http_status = codes "E_HTTP_STATUS"
code_name content_mismatch = codes "E_CONTENT_MISMATCH"
code_name slow = codes "E_SLOW"
code_name process_timeout = codes "E_PROCESS_TIMEOUT"
code_name internal = codes "E_INTERNAL"

-- `streamForStage`
unfoldable pub stream_for_stage : Stage → Bytes
stream_for_stage l0 = codes "jobs.l0"
stream_for_stage l1 = codes "jobs.l1"
stream_for_stage l2 = codes "jobs.l2"
stream_for_stage val = codes "jobs.val"
stream_for_stage (other_stage s) = codes "jobs.val"

pub data Role : Type 0 where
  tester validator : Role

-- the role of the flag; `none` ends the program
unfoldable pub role_of : Bytes → Option Role
unfolding str_eq
role_of s =
    if str_eq s (codes "tester")
    then some tester
    else if str_eq s (codes "validator")
    then some validator
    else none

-- the vantage that is used; `none` ends the program
unfoldable pub vantage_for : Role → Bytes → Option Bytes
vantage_for role (c ∷ s) = some (c ∷ s)
vantage_for tester [] = some (codes "cloud-eu-1")
vantage_for validator [] = none

-- What the worker answers to the bus for a message.
pub data Answer : Type 0 where
  ack nak : Answer

module _ (fl : Floats) where
  open fl use {F}

  -- What `probe.L0`, `ProbeL1` and `ProbeL2` find.
  pub record Prober : Type 0 where
    pub dial : Bytes → ℤ → Outcome fl
    pub probe_l1 : Option Fields → Outcome fl
    pub probe_l2 : Option Fields → Outcome fl

  -- the switch of `probeNode`
  unfoldable pub measure : Prober → Stage → JobNode → Outcome fl
  measure p l0 n = p.dial n.host n.port
  measure p l1 n = p.probe_l1 n.outbound
  measure p l2 n = p.probe_l2 n.outbound
  measure p val n = p.probe_l1 n.outbound
  measure p (other_stage s) n = p.probe_l1 n.outbound

  -- the code that is counted
  unfoldable pub counted_code : Code → Bytes
  unfolding code_name
  counted_code c = let name = code_name c in if is_empty name then codes "ok" else name

  -- the code that is sent for a failure
  unfoldable pub sent_code : Code → Bytes
  unfolding code_name
  sent_code c = let name = code_name c in if is_empty name then code_name internal else name

  -- the item of `probeNode` at the time `now`, which RFC 3339 gives in whole seconds
  unfoldable pub item_of : ℕ → ℕ → Outcome fl → ResultItem fl
  unfolding is_positive sent_code
  item_of now node_id res = record {
    node_id = node_id;
    passed = res.passed;
    latency_ms = if is_positive res.latency_ms then some res.latency_ms else none;
    speed_mbps = if fl.lt (fl.of_int (pos 0)) res.speed_mbps then some res.speed_mbps else none;
    error_code = if not res.passed then some (sent_code res.code) else none;
    ts = some (now / second * second);
  }

  -- `probeNode`: the item, and the registry afterwards; `took` is the time in seconds
  unfoldable pub probe_node :
      Prober → Bytes → ℕ → F → Stage → JobNode → Registry fl → ResultItem fl × Registry fl
  unfolding measure item_of probe_duration probe_request counted_code stage_name
  probe_node p vantage now took stage n reg =
      let res = measure p stage n in
      (
        item_of now n.node_id res,
        probe_request fl
            (record { stage = stage_name stage; vantage = vantage; code = counted_code res.code })
            (probe_duration fl (stage_name stage) took reg),
      )

  -- What a job meets: the time and the duration of each probe.
  pub record Clock : Type 0 where
    pub now : JobNode → ℕ
    pub took : JobNode → F

  unfoldable pub probe_nodes :
      Prober
      → Bytes
      → Clock
      → Stage
      → List JobNode
      → Registry fl
      → List (ResultItem fl) × Registry fl
  unfolding probe_node
  probe_nodes p vantage clock stage [] reg = ([], reg)
  probe_nodes p vantage clock stage (n ∷ ns) reg =
      let (item, reg') = probe_node p vantage (clock.now n) (clock.took n) stage n reg in
      let (items, reg'') = probe_nodes p vantage clock stage ns reg' in (item ∷ items, reg'')

  -- `processJob` of a worker at the vantage: the batch that it publishes, the answer to the bus, and
  -- the registry. `published` says whether the bus confirms the batch.
  unfoldable pub process_job :
      Prober
      → Bytes
      → Clock
      → (List JobNode → List JobNode)
      → (ResultsBatch fl → Bool)
      → JobBatch
      → Registry fl
      → ResultsBatch fl × Answer × Registry fl
  unfolding probe_nodes job_batch stream_for_stage
  process_job p vantage clock shuffle published job reg =
      let (items, reg') = probe_nodes p vantage clock job.stage (shuffle job.nodes) reg in
      let out : ResultsBatch fl = record {
        vantage = vantage;
        stage = job.stage;
        results = items;
      } in
      let confirmed = published out in
      (
        out,
        (if confirmed then ack else nak),
        job_batch fl (stream_for_stage job.stage) (codes (if confirmed then "ok" else "nak")) reg',
      )
