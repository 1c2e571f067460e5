-- ===== src/Tests/Workers.antt =====
-- Metrics and the work of a worker.
use proxy_harv.Prelude.{
  arith, ℕ, ◌++◌, ◌%◌, ◌^◌, Bool, true, false, none, List, [], ◌∷◌, map, length, ◌≡◌, ◌↔◌, refl,
  All,
}
use proxy_harv.Text.{Bytes, codes, split, str_eq}
use proxy_harv.Text.Number.{pos, itoa}
use proxy_harv.Model.{l1, val, same_stage}
use proxy_harv.Model.Store.{latest_by_vantage}
use proxy_harv.Probe.{Outcome, failed, dial_refused, no_code, slow}
use proxy_harv.Metrics.{Call, on_request, on_duration, new_registry, apply_calls}
use proxy_harv.Metrics.Render.{Format, render}
use proxy_harv.Metrics.Histogram.{samples_of}
use proxy_harv.Metrics.Printed.{IsInside, histogram_text, render-apply_calls}
use proxy_harv.Wire.{JobNode, JobBatch}
use proxy_harv.Worker.{Prober, Clock, ack, process_job}
use proxy_harv.Worker.Lines.{split_lines}
use proxy_harv.Worker.Lines.Split.{lines_of, split_lines-split}
use proxy_harv.Worker.Verdict.{IsReported, process_job-reports, process_job-never_promotes}
use proxy_harv.Coordinator.Aggregate.Verdict.{any_l1}
use proxy_harv.Coordinator.Ingest.{ingest_results}
use proxy_harv.Tests.{toy}
use proxy_harv.Tests.Rows.{tables, context}

-- two samples of a stage, one of them above the last bucket, and a request
abbrev calls : List (Call toy)
calls =
    on_duration (codes "L1") 3
    ∷ on_request (record { stage = codes "L1"; vantage = codes "v"; code = codes "ok" })
    ∷ on_duration (codes "L1") 100
    ∷ []

abbrev format : Format toy
format = record { quote = λ s. b'"' ∷ (s ++ b'"' ∷ []); show_float = itoa }

render-apply_calls_example :
    (ns : List ℕ) × (sum : ℕ) × (length ns ≡ 10)
    × IsInside
        (histogram_text toy format (codes "L1") ns sum (samples_of toy (codes "L1") calls % 2 ^ 64))
        (render toy format (λ es. es) (λ es. es) (apply_calls toy calls (new_registry toy)))
unfolding str_eq
render-apply_calls_example =
    render-apply_calls toy format (λ es. es) (λ es. es) (codes "L1") calls (omega arith)

split_lines-split_example :
    split_lines (codes "a\r\n\n b") ≡ lines_of (split b'\n' (codes "a\r\n\n b"))
split_lines-split_example = split_lines-split (codes "a\r\n\n b")

-- The dial is refused and every probe passes.
abbrev pub passing : Outcome toy
passing = record { passed = true; latency_ms = pos 5; speed_mbps = 0; code = no_code }

abbrev pub prober : Prober toy
prober = record {
  dial = λ host port. failed toy dial_refused;
  probe_l1 = λ o. passing;
  probe_l2 = λ o. failed toy slow;
}

abbrev pub job_node : JobNode
job_node = record {
  node_id = 1;
  host = codes "a";
  port = pos 1;
  transport = codes "tcp";
  outbound = none;
}

abbrev pub val_job : JobBatch
val_job = record { stage = val; vantage = codes "rf-1"; nodes = job_node ∷ [] }

abbrev pub clock : Clock toy
clock = record { now = λ n. 20; took = λ n. 1 }

process_job-reports_example :
    ((process_job toy prober
        (codes "rf-1")
        clock
        (λ ns. ns)
        (λ b. true)
        val_job
        (new_registry toy)).0.vantage
      ≡ codes "rf-1")
    × ((process_job toy prober
          (codes "rf-1")
          clock
          (λ ns. ns)
          (λ b. true)
          val_job
          (new_registry toy)).0.stage
        ≡ val)
    × (map
          (λ r. r.node_id)
          (process_job toy prober
            (codes "rf-1")
            clock
            (λ ns. ns)
            (λ b. true)
            val_job
            (new_registry toy)).0.results
        ≡ map (λ n. n.node_id) (job_node ∷ []))
    × All
        (IsReported toy)
        (process_job toy prober
          (codes "rf-1")
          clock
          (λ ns. ns)
          (λ b. true)
          val_job
          (new_registry toy)).0.results
    × (((process_job toy prober
            (codes "rf-1")
            clock
            (λ ns. ns)
            (λ b. true)
            val_job
            (new_registry toy)).1
          ≡ ack)
        ↔ (true ≡ true))
process_job-reports_example =
    process_job-reports toy prober (codes "rf-1") clock (λ ns. ns) (λ b. true) val_job
      (new_registry toy)

val-other : same_stage val l1 ≡ false
unfolding same_stage
val-other = refl

abbrev anywhere : Bytes → Bool
anywhere v = true

val-ingested :
    any_l1 toy anywhere (
      latest_by_vantage toy
        (ingest_results toy context
          (process_job toy prober
            (codes "rf-1")
            clock
            (λ ns. ns)
            (λ b. true)
            val_job
            (new_registry toy)).0
          tables).0
        1)
    ≡ true
unfolding process_job ingest_results latest_by_vantage
val-ingested = refl

process_job-never_promotes_example : any_l1 toy anywhere (latest_by_vantage toy tables 1) ≡ true
process_job-never_promotes_example =
    process_job-never_promotes toy anywhere prober (codes "rf-1") clock (λ ns. ns) (λ b. true)
      val_job (new_registry toy) context tables 1 val-other val-ingested
