-- ===== src/Wire.antt =====
-- proxies/internal/natsb/natsb.go: subjects, message ids and the wire messages.
use proxy_harv.Prelude.{ℕ, Bool, Option, List, [], ◌∷◌, ◌++◌}
use proxy_harv.Text.{Bytes, codes}
use proxy_harv.Text.Number.{ℤ, itoa}
use proxy_harv.Parse.Outbound.{Fields}
use proxy_harv.Floats.{Floats}
use proxy_harv.Model.{Stage, l0, l1, l2, val, other_stage}

-- `JobsSubjectFor`; "" for a stage that is not known
unfoldable pub jobs_subject : Stage → Bytes → Bytes
jobs_subject l0 vantage = codes "jobs.l0.cloud"
jobs_subject l1 vantage = codes "jobs.l1.cloud"
jobs_subject l2 vantage = codes "jobs.l2.cloud"
jobs_subject val vantage = codes "jobs.validator." ++ vantage
jobs_subject (other_stage s) vantage = []

unfoldable pub results_subject : Bytes → Bytes
results_subject vantage = codes "results." ++ vantage

unfoldable pub durable_for_validator : Bytes → Bytes
durable_for_validator vantage = codes "validator-" ++ vantage

unfoldable pub stage_name : Stage → Bytes
stage_name l0 = codes "L0"
stage_name l1 = codes "L1"
stage_name l2 = codes "L2"
stage_name val = codes "VAL"
stage_name (other_stage s) = s

-- `MsgIDForResults`
unfoldable pub msg_id_for_results : Bytes → Bytes → Stage → Bytes
unfolding stage_name
msg_id_for_results job_id vantage stage = job_id ++ (b':' ∷ (vantage ++ (b':' ∷ stage_name stage)))

unfoldable pub publish_key : ℕ → Bytes
unfolding itoa
publish_key version = codes "publishes/v" ++ itoa version

pub record RawNode : Type 0 where
  pub uri : Bytes
  pub uri_hash : Bytes
  pub protocol : Bytes
  pub transport : Bytes
  pub host : Bytes
  pub port : ℤ

pub record RawBatch : Type 0 where
  pub source_id : ℕ
  pub fetched_at : ℕ
  pub nodes : List RawNode

-- A dial target for L0, or a ready outbound.
pub record JobNode : Type 0 where
  pub node_id : ℕ
  pub host : Bytes
  pub port : ℤ
  pub transport : Bytes
  pub outbound : Option Fields

pub record JobBatch : Type 0 where
  pub stage : Stage
  pub vantage : Bytes
  pub nodes : List JobNode

-- The time of a result is `none` where it does not parse as RFC 3339.
pub record ResultItem (fl : Floats) : Type 0 where
  pub node_id : ℕ
  pub passed : Bool
  pub latency_ms : Option ℤ
  pub speed_mbps : Option fl.F
  pub error_code : Option Bytes
  pub ts : Option ℕ

pub record ResultsBatch (fl : Floats) : Type 0 where
  pub vantage : Bytes
  pub stage : Stage
  pub results : List (ResultItem fl)
