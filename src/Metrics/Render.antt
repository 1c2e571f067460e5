-- ===== src/Metrics/Render.antt =====
-- `esc` and `Render` of proxies/internal/metrics/metrics.go. fmt's %q of a string and %v of a
-- float64 are parameters. Keys of one stage or stream come in any order, which is an argument.
use proxy_harv.Prelude.{ℕ, ◌+◌, ◌%◌, ◌^◌, List, [], ◌∷◌, ◌++◌, map, if◌then◌else◌, ◌==◌}
use proxy_harv.Text.{Bytes, codes, str_eq}
use proxy_harv.Text.Number.{pos, itoa}
use proxy_harv.Floats.{Floats}
use proxy_harv.Parse.Sort.{sort}
use proxy_harv.Keyed.{value_at}
use proxy_harv.Metrics.{CounterKey, no_samples, buckets, Registry}

-- strings.ReplaceAll(v, string(c), "\\" + string(c))
unfoldable pub escape_byte : ℕ → Bytes → Bytes
escape_byte c [] = []
escape_byte c (x ∷ s) = let rest = escape_byte c s in if x == c then 92 ∷ x ∷ rest else x ∷ rest

unfoldable pub esc : Bytes → Bytes
unfolding escape_byte
esc v = escape_byte 34 (escape_byte 92 v)

-- cum += h[i], at each bucket
unfoldable pub cumulative : ℕ → List ℕ → List ℕ
cumulative cum [] = []
cumulative cum (h ∷ hs) = (cum + h) % 2 ^ 64 ∷ cumulative ((cum + h) % 2 ^ 64) hs

module _ (fl : Floats) where
  open fl use {F}

  pub record Format : Type 0 where
    -- %q
    pub quote : Bytes → Bytes
    -- %v
    pub show_float : F → Bytes

  module _ (format : Format) where
    open format use {quote, show_float}

    abbrev pub join_all : List Bytes → Bytes
    join_all [] = []
    join_all (s ∷ ss) = s ++ join_all ss

    abbrev line_end : ℕ → Bytes
    line_end n = itoa n ++ b'\n' ∷ []

    unfoldable pub request_line : CounterKey × ℕ → Bytes
    unfolding esc itoa
    request_line (k, n) =
        codes "proxyfarm_probe_requests_total{stage="
        ++ (quote (esc k.stage)
            ++ (codes ",vantage="
                ++ (quote (esc k.vantage)
                    ++ (codes ",code=" ++ (quote (esc k.code) ++ (codes "} " ++ line_end n))))))

    unfoldable pub bucket_line : Bytes → Bytes → ℕ → Bytes
    unfolding esc itoa
    bucket_line stage bound n =
        codes "proxyfarm_probe_duration_seconds_bucket{stage="
        ++ (quote (esc stage) ++ (codes ",le=\"" ++ (bound ++ (codes "\"} " ++ line_end n))))

    -- one line for each bound, and the line of +Inf
    unfoldable pub bucket_lines : Bytes → List F → List ℕ → Bytes
    unfolding bucket_line
    bucket_lines stage bs [] = []
    bucket_lines stage [] (n ∷ ns) = bucket_line stage (codes "+Inf") n
    bucket_lines stage (b ∷ bs) (n ∷ ns) =
        bucket_line stage (show_float b) n ++ bucket_lines stage bs ns

    unfoldable pub stage_lines : Registry fl → Bytes → Bytes
    unfolding bucket_lines cumulative value_at str_eq esc itoa
    stage_lines r stage =
        bucket_lines stage (buckets fl)
          (cumulative 0 (value_at str_eq no_samples stage r.probe_hist))
        ++ (codes "proxyfarm_probe_duration_seconds_sum{stage="
            ++ (quote (esc stage)
                ++ (codes "} "
                    ++ (show_float (value_at str_eq (fl.of_int (pos 0)) stage r.probe_sum)
                        ++ (b'\n'
                            ∷ (codes "proxyfarm_probe_duration_seconds_count{stage="
                                ++ (quote (esc stage)
                                    ++ (codes "} "
                                        ++ line_end (value_at str_eq 0 stage r.probe_count)))))))))

    unfoldable pub batch_line : (Bytes × Bytes) × ℕ → Bytes
    unfolding esc itoa
    batch_line (k, n) =
        codes "proxyfarm_job_batches_total{stream="
        ++ (quote (esc k.0)
            ++ (codes ",result=" ++ (quote (esc k.1) ++ (codes "} " ++ line_end n))))

    -- the text up to the heading of the durations
    unfoldable pub requests_text :
        (List (CounterKey × ℕ) → List (CounterKey × ℕ)) → Registry fl → Bytes
    unfolding request_line
    requests_text by_stage r =
        codes "# HELP proxyfarm_probe_requests_total Total probes finished.\n"
        ++ (codes "# TYPE proxyfarm_probe_requests_total counter\n"
            ++ (join_all (map request_line (by_stage r.probe_requests))
                ++ (codes "# HELP proxyfarm_probe_duration_seconds Probe wall time.\n"
                    ++ codes "# TYPE proxyfarm_probe_duration_seconds histogram\n")))

    -- the histograms of the stages
    unfoldable pub stages_text : Registry fl → Bytes
    unfolding stage_lines sort
    stages_text r = join_all (map (stage_lines r) (sort (map (λ e. e.0) r.probe_count)))

    -- the text from the heading of the batches on
    unfoldable pub batches_text :
        (List ((Bytes × Bytes) × ℕ) → List ((Bytes × Bytes) × ℕ)) → Registry fl → Bytes
    unfolding batch_line
    batches_text by_stream r =
        codes "# HELP proxyfarm_job_batches_total Job batches consumed.\n"
        ++ (codes "# TYPE proxyfarm_job_batches_total counter\n"
            ++ (join_all (map batch_line (by_stream r.job_batches))
                ++ (codes "# HELP proxyfarm_publish_timestamp Unix time of the latest publish.\n"
                    ++ (codes "# TYPE proxyfarm_publish_timestamp gauge\n"
                        ++ (codes "proxyfarm_publish_timestamp "
                            ++ (show_float r.publish_timestamp ++ b'\n' ∷ []))))))

    -- `Render`; the two functions put the entries in the order of sort.Slice
    unfoldable pub render :
        (List (CounterKey × ℕ) → List (CounterKey × ℕ))
        → (List ((Bytes × Bytes) × ℕ) → List ((Bytes × Bytes) × ℕ))
        → Registry fl
        → Bytes
    unfolding requests_text stages_text batches_text
    render by_stage by_stream r =
        requests_text by_stage r ++ (stages_text r ++ batches_text by_stream r)
