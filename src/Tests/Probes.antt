-- ===== src/Tests/Probes.antt =====
-- Probes and scores.
use mathlib.Core.List.{Perm}
use proxy_harv.Prelude.{ℕ, Bool, true, false, some, [], ◌∷◌, ◌≡◌, ◌↔◌, refl}
use proxy_harv.Text.{Bytes, codes}
use proxy_harv.Text.Number.{ℤ, pos}
use proxy_harv.Parse.Outbound.{Fields, string, end, field}
use proxy_harv.Probe.{Outcome, failed, internal, curl_l1}
use proxy_harv.Probe.Laws.{Coded, curl_l1-Coded, curl_l1_passes, SomePasses}
use proxy_harv.Probe.Runner.{Ports, Answers, run_once}
use proxy_harv.Probe.Runner.Channel.{run_once-ports}
use proxy_harv.Score.{Input}
use proxy_harv.Tests.{toy}

-- The first target answers 503, the second 204.
abbrev curl : Bytes → Bytes × ℤ
curl [] = (codes "503 0.1", pos 0)
curl (c ∷ s) = (codes "204 0.2", pos 0)

abbrev last : Outcome toy
last = failed toy internal

curl_l1-Coded_example : Coded toy (curl_l1 toy curl last ([] ∷ codes "b" ∷ []))
curl_l1-Coded_example = curl_l1-Coded toy curl last [] (codes "b" ∷ [])

curl_l1_passes_example :
    ((curl_l1 toy curl last ([] ∷ codes "b" ∷ [])).passed ≡ true)
    ↔ SomePasses toy curl ([] ∷ codes "b" ∷ [])
curl_l1_passes_example = curl_l1_passes toy curl last ([] ∷ codes "b" ∷ []) refl

abbrev outbound : Fields
outbound = field (codes "type") (string (codes "socks")) end

-- sing-box is not ready in time at the first port, and answers at the others
abbrev answers : Bool → ℕ → Answers toy
answers ready p = record {
  temp_dir = true;
  write = true;
  start = true;
  ready = ready;
  expired = false;
  measured = failed toy internal;
}

run_once-ports_example :
    (out : Outcome toy) × (ports' : Ports) × (run_once toy outbound
        (answers false)
        (answers true)
        (20000 ∷ 20001 ∷ [])
      ≡ some (out, ports'))
    × Perm ports' (20000 ∷ 20001 ∷ [])
run_once-ports_example =
    run_once-ports toy outbound (answers false) (answers true) 20000 (20001 ∷ [])

abbrev input : Input toy
input = record {
  now = 5;
  last_l1_ok_at = some 3;
  recent_l1 = true ∷ false ∷ [];
  latency_ms = pos 200;
  speed_mbps = 200;
  rf_validated = true;
}
