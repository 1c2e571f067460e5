-- ===== src/Bus.antt =====
-- proxies/internal/natsb/bus.go: publishing, fetching, the newest version and heartbeats. Streams,
-- buckets and consumers are JetStream's: what they answer is an argument, as are the decoders of
-- JSON and fmt.Sscanf.
pub mod Lease
pub mod Fetching
pub mod Versions
pub mod Registering
use proxy_harv.Prelude.{
  ℕ, ◌+◌, ◌*◌, ◌/◌, Bool, true, false, not, Option, none, some, List, [], ◌∷◌, ◌++◌, ltb,
  if◌then◌else◌,
}
use proxy_harv.Text.{Bytes, codes, is_empty}
use proxy_harv.Text.Number.{ℤ, pos, negsuc}
use proxy_harv.Model.{Stage, second}
use proxy_harv.Wire.{jobs_subject, JobBatch}
use proxy_harv.Floats.{Floats}
use proxy_harv.Coordinator.Ingest.{Heartbeat}

-- `PublishJobs`: the subject to publish on; `none` is the error for an unknown stage
unfoldable pub publish_subject : Stage → Bytes → Option Bytes
unfolding jobs_subject
publish_subject stage vantage =
    let subject = jobs_subject stage vantage in if is_empty subject then none else some subject

-- What the consumer gives when it is asked: an error, or messages, and behind the last one an error or
-- none.
pub data Given {ℓ} (Msg : Type ℓ) : Type ℓ where
  no_fetch : Given Msg
  gives : List Msg → Bool → Given Msg

-- The result of a fetch: the messages that are handed on, with their values, whether there is an
-- error, and the messages that are refused.
pub record Fetched {ℓ κ} (Msg : Type ℓ) (T : Type κ) : Type (ℓ ⊔ κ) where
  pub raw : List Msg
  pub out : List T
  pub failed : Bool
  pub refused : List Msg

-- the loop of `FetchMsgs` over the messages that the consumer gives
unfoldable pub decode_msgs {ℓ κ} :
    {Msg : Type ℓ} {T : Type κ} → (Msg → Option T) → List Msg → Fetched Msg T
decode_msgs decode [] = record { raw = []; out = []; failed = false; refused = [] }
decode_msgs decode (m ∷ ms) =
    let rest = decode_msgs decode ms in
    elim (decode m) [
      | none ↦ record rest { refused = m ∷ rest.refused }
      | some v ↦ record rest { raw = m ∷ rest.raw; out = v ∷ rest.out }
    ]

-- `FetchMsgs`
unfoldable pub fetch_msgs {ℓ κ} :
    {Msg : Type ℓ} {T : Type κ} → (Msg → Option T) → Given Msg → Fetched Msg T
unfolding decode_msgs
fetch_msgs decode no_fetch = record { raw = []; out = []; failed = true; refused = [] }
fetch_msgs decode (gives ms failed) = record (decode_msgs decode ms) { failed = failed }

-- Its callers go on with the next round when it returns an error: what they handle, the messages they
-- answer, and the messages they leave.
unfoldable pub handled {ℓ κ} : {Msg : Type ℓ} {T : Type κ} → Fetched Msg T → List T
handled f = if f.failed then [] else f.out

unfoldable pub to_answer {ℓ κ} : {Msg : Type ℓ} {T : Type κ} → Fetched Msg T → List Msg
to_answer f = if f.failed then [] else f.raw

unfoldable pub left_over {ℓ κ} : {Msg : Type ℓ} {T : Type κ} → Fetched Msg T → List Msg
left_over f = if f.failed then f.raw else []

-- how many messages `FetchMsgs` asks for, and how long it waits, in nanoseconds
unfoldable pub fetch_size : ℤ → ℕ
fetch_size (negsuc n) = 20
fetch_size (pos n) = if ltb 0 n then n else 20

unfoldable pub fetch_wait : ℤ → ℕ
fetch_wait (negsuc n) = 2 * second
fetch_wait (pos n) = if ltb 0 n then n else 2 * second

-- What a watcher of the bucket PUBLISHES receives: a value that was put, another operation, or the
-- nil entry behind the values that were there at the start.
pub data Update : Type 0 where
  put_value : Bytes → Bytes → Update
  other_operation : Update
  caught_up : Update

-- v > bestVer
unfoldable pub beats : ℤ → ℕ → Option ℕ
beats (negsuc n) best = none
beats (pos n) best = if ltb best n then some n else none

module _ (scan_version : Bytes → Option ℤ) where
  -- the version of a key that begins like publishes/v7 and beats the best one
  unfoldable pub better : Bytes → ℕ → Option ℕ
  unfolding beats
  better key best = elim (scan_version key) [ none ↦ none | some v ↦ beats v best ]

  -- The loop of `LatestPublish`. When no update is left, the wait of two seconds ends or the context
  -- does. `none` is an error.
  unfoldable pub latest_version : ℕ → Bytes → List Update → Option (ℕ × Bytes)
  unfolding better
  latest_version best value [] = if ltb 0 best then some (best, value) else none
  latest_version best value (caught_up ∷ us) =
      let rest = latest_version best value us in if ltb 0 best then some (best, value) else rest
  latest_version best value (other_operation ∷ us) = latest_version best value us
  latest_version best value (put_value key new ∷ us) = elim (better key best) [
    | none ↦ latest_version best value us
    | some v ↦ latest_version v new us
  ]

  -- `LatestPublish`
  unfoldable pub latest_publish_of : List Update → Option (ℕ × Bytes)
  unfolding latest_version
  latest_publish_of us = latest_version 0 [] us

  -- `WatchPublishes`: the calls of its function
  unfoldable pub watch_publishes : List Update → List (ℤ × Bytes)
  watch_publishes [] = []
  watch_publishes (caught_up ∷ us) = watch_publishes us
  watch_publishes (other_operation ∷ us) = watch_publishes us
  watch_publishes (put_value key value ∷ us) =
      let rest = watch_publishes us in
      elim (scan_version key) [ none ↦ rest | some v ↦ (v, value) ∷ rest ]

-- `Heartbeat`: the key and the entry that are put
unfoldable pub heartbeat : (fl : Floats) → ℕ → Bytes → Bytes → Bytes × Heartbeat fl
heartbeat fl now vantage role = (
  codes "vantage." ++ vantage,
  record { vantage = vantage; role = role; ts = now / second * second },
)
