-- ===== src/Worker/Loop/Answers.antt =====
-- How a round of a worker answers its messages.
use mathlib.Core.List.{Perm}
use proxy_harv.Prelude.{
  ℕ, Bool, true, false, Option, none, All, List, [], ◌++◌, map, ◌≡◌, if◌then◌else◌,
}
use proxy_harv.Text.{Bytes}
use proxy_harv.Floats.{Floats}
use proxy_harv.Wire.{JobNode, JobBatch, ResultsBatch}
use proxy_harv.Bus.{decode_msgs}
use proxy_harv.Worker.{Prober, Clock, Answer, ack, nak}
use proxy_harv.Worker.Loop.{JobRound}

module _ (fl : Floats) (p : Prober fl) (vantage : Bytes) (shuffle : List JobNode → List JobNode)
    (clock : ℕ → Clock fl) (published : ResultsBatch fl → Bool) where
  -- The answer that a batch deserves.
  abbrev pub deserved : ResultsBatch fl → Answer
  deserved b = if published b then ack else nak

  -- Without an error of the fetch, every message has one answer or is refused, and none is left; the
  -- answers are those that the batches of results deserve, and the batches have the stages of the jobs.
  -- With an error behind the last message, nothing is answered or sent, and every message is refused
  -- or left. Refused messages hold no job.
  abbrev pub IsRound {ℓ} :
      {Msg : Type ℓ} (decode : Msg → Option JobBatch) → List Msg → Bool → JobRound fl Msg → Type ℓ
  IsRound decode ms false r =
      Perm (map (λ a. a.0) r.answers ++ r.refused) ms
      × (r.unanswered ≡ [])
      × (map (λ a. a.1) r.answers ≡ map deserved r.sent)
      × (map (λ b. b.stage) r.sent ≡ map (λ j. j.stage) (decode_msgs decode ms).out)
      × All (λ m. decode m ≡ none) r.refused
  IsRound decode ms true r =
      Perm (r.unanswered ++ r.refused) ms
      × (r.answers ≡ [])
      × (r.sent ≡ [])
      × All (λ m. decode m ≡ none) r.refused
