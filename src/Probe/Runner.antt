-- ===== src/Probe/Runner.antt =====
-- The runner of proxies/internal/probe/l1.go: its settings, the port allocator, one attempt with an
-- external sing-box process, and the retry.
pub mod Channel
use proxy_harv.Prelude.{
  ℕ, zero, suc, ◌+◌, Bool, true, false, not, ◌&&◌, ◌||◌, Option, none, some, List, [], ◌∷◌, ◌++◌,
  ltb, if◌then◌else◌,
}
use proxy_harv.Text.{Bytes, codes, is_empty, str_eq}
use proxy_harv.Text.Number.{ℤ, pos, is_positive}
use proxy_harv.Floats.{Floats}
use proxy_harv.Parse.Outbound.{
  Json, string, int, object, list_of, Fields, end, field, put, field_of,
}
use proxy_harv.Probe.{Code, no_code, internal, process_timeout, is_internal, Outcome, failed}

-- `PortAllocator`: the channel's contents, the next port first.
abbrev pub Ports : Type 0
Ports = List ℕ

-- the ports from `p` on, `n` of them
unfoldable pub ports_from : ℕ → ℕ → Ports
ports_from p zero = []
ports_from p (suc n) = p ∷ ports_from (p + 1) n

-- `NewPortAllocator`: 20000 to 20999
unfoldable pub new_ports : Ports
unfolding ports_from
new_ports = ports_from 20000 1000

-- `Release`; the channel is as long as the range, so it never blocks
abbrev pub release : ℕ → Ports → Ports
release p ports = ports ++ p ∷ []

pub record Settings : Type 0 where
  pub concurrency : ℕ
  pub l2_bytes : ℕ
  pub probe_urls : List Bytes
  pub l2_url : Bytes

unfoldable pub default_probe_urls : Bytes → List Bytes
default_probe_urls domain =
    let fixed =
      codes "http://cp.cloudflare.com/generate_204"
      ∷ codes "http://www.gstatic.com/generate_204"
      ∷ [] in
    if is_empty domain
    then fixed
    else (codes "http://" ++ (domain ++ codes "/generate_204")) ∷ fixed

abbrev int_or : Bool → ℤ → ℕ → ℕ
int_or true (pos n) d = n
int_or _ _ d = d

abbrev small : ℤ → Bool
small (pos n) = ltb n 1001
small _ = true

-- `NewRunner`, the settings that it checks
unfoldable pub new_runner : ℤ → List Bytes → Bytes → ℤ → Settings
unfolding is_positive default_probe_urls
new_runner concurrency urls l2_url l2_bytes = record {
  concurrency = int_or (is_positive concurrency && small concurrency) concurrency 32;
  l2_bytes = int_or (is_positive l2_bytes) l2_bytes 25000000;
  probe_urls = if is_empty urls then default_probe_urls [] else urls;
  l2_url = if is_empty l2_url then codes "https://speed.cloudflare.com/__down?bytes=%d" else l2_url;
}

-- `buildSingboxConfig` of a decoded outbound; `none` is an error.
unfoldable pub build_singbox_config : Fields → ℕ → Option Fields
unfolding field_of put
build_singbox_config out port = elim (field_of (codes "type") out) [
  | none ↦ none
  | some _ ↦ some (
      field (codes "log") (object (field (codes "level") (string (codes "error")) end)) (
        field (codes "inbounds")
          (list_of (
            field (codes "type") (string (codes "socks")) (
              field (codes "listen") (string (codes "127.0.0.1"))
                (field (codes "listen_port") (int (pos port)) end))))
          (field (codes "outbounds") (list_of (put (codes "tag") (string (codes "probe")) out)) (
            field (codes "route") (object (field (codes "final") (string (codes "probe")) end))
              end))))
]

module _ (fl : Floats) where
  -- What the system answers in one attempt: whether each call succeeds, whether the socks inbound
  -- accepts in time, whether the context has ended by then, and what curl measures.
  pub record Answers : Type 0 where
    pub temp_dir : Bool
    pub write : Bool
    pub start : Bool
    pub ready : Bool
    pub expired : Bool
    pub measured : Outcome fl

  -- `attempt`: the code that decides on a retry, and the result
  unfoldable pub attempt : Fields → ℕ → Answers → Code × Outcome fl
  unfolding build_singbox_config
  attempt outbound port a =
      if not a.temp_dir
      then (internal, failed fl internal)
      else (elim (build_singbox_config outbound port) [
        | none ↦ (no_code, failed fl internal)
        | some _ ↦
            (if not a.write
              then (internal, failed fl internal)
              else if not a.start
              then (internal, failed fl internal)
              else if not a.ready
              then (if a.expired
                  then (process_timeout, failed fl process_timeout)
                  else (internal, failed fl internal))
              else (no_code, a.measured))
      ])

  -- `runOnce`: at most two attempts, each with the port at the front of the channel. It waits
  -- (`none`) while the channel is empty. The second component is the channel afterwards.
  unfoldable pub run_once :
      Fields → (ℕ → Answers) → (ℕ → Answers) → Ports → Option (Outcome fl × Ports)
  unfolding attempt is_internal
  run_once outbound first second [] = none
  run_once outbound first second (p ∷ ports) =
      let (code, res) = attempt outbound p (first p) in
      if not (is_internal code) then some (res, release p ports) else (elim (release p ports) [
        | [] ↦ none
        | q ∷ rest ↦ some ((attempt outbound q (second q)).1, release q rest)
      ])
