-- ===== src/Metrics.antt =====
-- proxies/internal/metrics/metrics.go: the registry of counters and its text. Maps are lists with
-- one entry for each key; a uint64 wraps at 2^64. The HTTP handler only writes the text.
pub mod Render
pub mod Histogram
pub mod Entries
pub mod Printed
use proxy_harv.Prelude.{
  ℕ, ◌+◌, ◌%◌, ◌^◌, Bool, true, false, ◌&&◌, Option, none, some, List, [], ◌∷◌, if◌then◌else◌,
  length,
}
use proxy_harv.Text.{Bytes, str_eq}
use proxy_harv.Text.Number.{pos}
use proxy_harv.Floats.{Floats}
use proxy_harv.Keyed.{update_at}

-- counterKey
pub record CounterKey : Type 0 where
  pub stage : Bytes
  pub vantage : Bytes
  pub code : Bytes

unfoldable pub same_key : CounterKey → CounterKey → Bool
unfolding str_eq
same_key a b = str_eq a.stage b.stage && str_eq a.vantage b.vantage && str_eq a.code b.code

unfoldable pub same_pair : Bytes × Bytes → Bytes × Bytes → Bool
unfolding str_eq
same_pair a b = str_eq a.0 b.0 && str_eq a.1 b.1

-- n++ of a uint64
unfoldable pub next64 : ℕ → ℕ
next64 n = (n + 1) % 2 ^ 64

-- make([]uint64, len(buckets)+1)
abbrev pub no_samples : List ℕ
no_samples = 0 ∷ 0 ∷ 0 ∷ 0 ∷ 0 ∷ 0 ∷ 0 ∷ 0 ∷ 0 ∷ 0 ∷ 0 ∷ []

module _ (fl : Floats) where
  open fl use {F}

  abbrev part : ℕ → ℕ → F
  part n m = fl.div (fl.of_int (pos n)) (fl.of_int (pos m))

  abbrev whole : ℕ → F
  whole n = fl.of_int (pos n)

  -- 0.05, 0.1, 0.25, 0.5, 1, 2.5, 5, 10, 20, 45
  abbrev pub buckets : List F
  buckets =
      part 5 100
      ∷ part 1 10
      ∷ part 25 100
      ∷ part 5 10
      ∷ whole 1
      ∷ part 25 10
      ∷ whole 5
      ∷ whole 10
      ∷ whole 20
      ∷ whole 45
      ∷ []

  pub record Registry : Type 0 where
    pub probe_requests : List (CounterKey × ℕ)
    pub job_batches : List ((Bytes × Bytes) × ℕ)
    pub probe_count : List (Bytes × ℕ)
    pub probe_sum : List (Bytes × F)
    pub probe_hist : List (Bytes × List ℕ)
    pub publish_timestamp : F

  -- `NewRegistry`
  unfoldable pub new_registry : Registry
  new_registry = record {
    probe_requests = [];
    job_batches = [];
    probe_count = [];
    probe_sum = [];
    probe_hist = [];
    publish_timestamp = whole 0;
  }

  unfoldable pub probe_request : CounterKey → Registry → Registry
  unfolding update_at same_key next64
  probe_request k r = record r { probe_requests = update_at same_key 0 next64 k r.probe_requests }

  -- the loop over the buckets: the first bucket that is not too small, or the one behind the last
  unfoldable pub observe : F → List F → List ℕ → List ℕ
  unfolding next64
  observe seconds bs [] = []
  observe seconds [] (h ∷ hs) = next64 h ∷ hs
  observe seconds (b ∷ bs) (h ∷ hs) =
      let rest = observe seconds bs hs in if fl.le seconds b then next64 h ∷ hs else h ∷ rest

  unfoldable pub probe_duration : Bytes → F → Registry → Registry
  unfolding update_at next64 observe str_eq
  probe_duration stage seconds r = record r {
    probe_count = update_at str_eq 0 next64 stage r.probe_count;
    probe_sum = update_at str_eq (whole 0) (λ s. fl.add s seconds) stage r.probe_sum;
    probe_hist = update_at str_eq no_samples (observe seconds buckets) stage r.probe_hist;
  }

  unfoldable pub job_batch : Bytes → Bytes → Registry → Registry
  unfolding update_at same_pair next64
  job_batch stream result r = record r {
    job_batches = update_at same_pair 0 next64 (stream, result) r.job_batches;
  }

  unfoldable pub publish_at : F → Registry → Registry
  publish_at ts r = record r { publish_timestamp = ts }

  -- A call of one of the methods that change the registry.
  pub data Call : Type 0 where
    on_request : CounterKey → Call
    on_duration : Bytes → F → Call
    on_batch : Bytes → Bytes → Call
    on_publish : F → Call

  unfoldable pub apply_call : Call → Registry → Registry
  unfolding probe_request probe_duration job_batch publish_at
  apply_call (on_request k) r = probe_request k r
  apply_call (on_duration stage seconds) r = probe_duration stage seconds r
  apply_call (on_batch stream result) r = job_batch stream result r
  apply_call (on_publish ts) r = publish_at ts r

  -- the calls in the order in which they get the lock
  unfoldable pub apply_calls : List Call → Registry → Registry
  unfolding apply_call
  apply_calls [] r = r
  apply_calls (c ∷ cs) r = apply_calls cs (apply_call c r)
