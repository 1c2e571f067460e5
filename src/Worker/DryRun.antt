-- ===== src/Worker/DryRun.antt =====
-- `runDry` of proxies/cmd/worker/main.go: which links it probes, and the numbers of its summary.
use proxy_harv.Prelude.{
  ℕ, suc, ◌+◌, ◌<◌, ◌≤◌, Bool, true, false, Option, none, some, List, [], ◌∷◌, ltb, if◌then◌else◌,
  ◌≡◌, arith, take, length, length-take, inl, inr, Option-cases,
}
use proxy_harv.Text.{Bytes, codes, one_of}
use proxy_harv.Runtime.{Runtime}
use proxy_harv.Floats.{Floats}
use proxy_harv.Text.Number.{ℤ}
use proxy_harv.Parse.Line.{Node}
use proxy_harv.Parse.Many.{node_of}
use proxy_harv.Probe.{Code, Outcome}
use proxy_harv.Worker.{Prober}

-- `isTCPTransport`
unfoldable pub is_tcp_transport : Bytes → Bool
unfolding one_of
is_tcp_transport t = one_of t (
    codes "tcp"
    ∷ codes "ws"
    ∷ codes "grpc"
    ∷ codes "http"
    ∷ codes "httpupgrade"
    ∷ codes "xhttp"
    ∷ codes "kcp"
    ∷ [])

-- What is printed for a node behind "l1": a latency, a code, or "skipped".
pub data L1Entry : Type 0 where
  latency : ℤ → L1Entry
  failure : Code → L1Entry
  skipped : L1Entry

-- An entry of the output; "l0" is missing where the transport is not dialled.
pub record Entry : Type 0 where
  pub node : Node
  pub l0 : Option Code
  pub l1 : L1Entry

-- `out`, `alive` and `dead`
pub record Summary : Type 0 where
  pub out : List Entry
  pub alive : ℕ
  pub dead : ℕ

-- if cfg.limit > 0 && len(uris) > cfg.limit
unfoldable pub limited : ℕ → List Bytes → List Bytes
limited limit uris =
    if ltb 0 limit then (if ltb limit (length uris) then take limit uris else uris) else uris

unfoldable pub add_entry : Entry → Bool → Summary → Summary
add_entry e true s = record { out = e ∷ s.out; alive = s.alive + 1; dead = s.dead }
add_entry e false s = record { out = e ∷ s.out; alive = s.alive; dead = s.dead + 1 }

module _ (fl : Floats) (rt : Runtime) (p : Prober fl) where
  abbrev l1_entry : Outcome fl → L1Entry
  l1_entry r = if r.passed then latency r.latency_ms else failure r.code

  unfoldable pub dial_node : Node → Outcome fl
  dial_node n = p.dial n.host n.port

  -- the body of the loop: the entry, and whether the node counts as alive
  unfoldable pub check_node : Node → Entry × Bool
  unfolding is_tcp_transport dial_node
  check_node n =
      let r = p.probe_l1 (some n.outbound) in
      let d = dial_node n in
      if is_tcp_transport n.transport
      then (if d.passed
          then (record { node = n; l0 = some d.code; l1 = l1_entry r }, r.passed)
          else (record { node = n; l0 = some d.code; l1 = skipped }, false))
      else (record { node = n; l0 = none; l1 = l1_entry r }, r.passed)

  -- the loop, whose entries are collected from the front
  unfoldable pub check_links : List Bytes → Summary
  unfolding node_of check_node add_entry
  check_links [] = record { out = []; alive = 0; dead = 0 }
  check_links (u ∷ us) =
      let rest = check_links us in
      elim (node_of rt u) [
        | none ↦ rest
        | some n ↦ (let (e, alive) = check_node n in add_entry e alive rest)
      ]

  -- `runDry` over the links of the file
  unfoldable pub run_dry : ℕ → List Bytes → Summary
  unfolding limited check_links
  run_dry limit uris = check_links (limited limit uris)

  -- The counts of a summary agree with its entries, which are not more than the links.
  abbrev Counted : ℕ → Summary → Type 0
  Counted n s = (length s.out ≡ s.alive + s.dead) × (length s.out ≤ n)

  add_entry-Counted :
      (e : Entry) (b : Bool) (n : ℕ) (s : Summary) → Counted n s → Counted (suc n) (add_entry e b s)
  unfolding add_entry
  add_entry-Counted e true n s h = ground arith
  add_entry-Counted e false n s h = ground arith

  check_links-Counted : (us : List Bytes) → Counted (length us) (check_links us)
  unfolding check_links
  check_links-Counted [] = (omega arith, omega arith)
  check_links-Counted (u ∷ us) = elim (Option-cases (node_of rt u)) [
    | inl e ↦ rw (e, check_links) (ground (arith, check_links-Counted us))
    | inr (n, e) ↦
        rw (e, check_links)
          (add_entry-Counted (check_node n).0 (check_node n).1 (length us) (check_links us)
            (check_links-Counted us))
  ]

  limited_lem : (limit : ℕ) (us : List Bytes) → 0 < limit → length (limited limit us) ≤ limit
  unfolding limited
  limited_lem limit us h = ground (arith, length-take limit us)

  -- The number of entries that `runDry` prints is the sum of those that it calls alive and dead, and
  -- at most the limit, if the limit is not 0.
  pub run_dry-counts :
      (limit : ℕ) (uris : List Bytes)
      → 0 < limit
      → (length (run_dry limit uris).out ≡ (run_dry limit uris).alive + (run_dry limit uris).dead)
        × (length (run_dry limit uris).out ≤ limit)
  unfolding run_dry
  run_dry-counts limit uris h =
      let counted = check_links-Counted (limited limit uris) in
      (counted.0, omega (arith, counted.1, limited_lem limit uris h))
