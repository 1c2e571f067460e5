-- ===== src/Tests/Deliveries.antt =====
-- Messages of the bus that come again.
use mathlib.Core.List.Memᴰ
use mathlib.Core.Path.{subst}
use proxy_harv.Prelude.{ℕ, zero, suc, Option, none, some, [], ◌∷◌, Bool, false, ◌≡◌, refl}
use proxy_harv.Wire.{JobBatch, ResultsBatch}
use proxy_harv.Coordinator.Ingest.{Context}
use proxy_harv.Coordinator.Consuming.{results_round}
use proxy_harv.Coordinator.Consuming.Delivery.{OfMsg, IsTimedBatch, results_round-redelivered}
use proxy_harv.Bus.{gives}
use proxy_harv.Tests.Workers.{val_job}
use proxy_harv.Tests.{toy}
use proxy_harv.Tests.Rows.{context, results, speeds, tables}

-- A number is a message: 0 does not decode.
abbrev pub decode : ℕ → Option (ResultsBatch toy)
decode zero = none
decode (suc zero) = some results
decode (suc (suc n)) = some speeds

abbrev pub contexts : ℕ → Context toy
contexts k = context

first_timed : OfMsg decode (IsTimedBatch toy) 1
first_timed v e = let same : results ≡ v = cc in subst (IsTimedBatch toy) same ((λ never. cc), tt)

second_timed : OfMsg decode (IsTimedBatch toy) 2
second_timed v e = let same : speeds ≡ v = cc in subst (IsTimedBatch toy) same ((λ never. cc), tt)

zero_timed : OfMsg decode (IsTimedBatch toy) 0
zero_timed v e = cc

results_round-redelivered_example :
    ((results_round toy decode contexts
        (gives (2 ∷ 0 ∷ 1 ∷ 2 ∷ []) false)
        (results_round toy decode contexts (gives (1 ∷ 0 ∷ 2 ∷ []) false) tables).tables).tables
      ≡ (results_round toy decode contexts (gives (1 ∷ 0 ∷ 2 ∷ []) false) tables).tables)
    × ((results_round toy decode contexts
          (gives (2 ∷ 0 ∷ 1 ∷ 2 ∷ []) false)
          (results_round toy decode contexts (gives (1 ∷ 0 ∷ 2 ∷ []) false) tables).tables).jobs
        ≡ [])
results_round-redelivered_example =
    results_round-redelivered toy decode contexts contexts (1 ∷ 0 ∷ 2 ∷ []) (2 ∷ 0 ∷ 1 ∷ 2 ∷ [])
      false tables (first_timed, (zero_timed, (second_timed, tt)))
      (
        Memᴰ.tail (Memᴰ.tail (Memᴰ.head refl)),
        (
          Memᴰ.tail (Memᴰ.head refl),
          (Memᴰ.head refl, (Memᴰ.tail (Memᴰ.tail (Memᴰ.head refl)), tt)),
        ),
      )

-- A number is a job, unless it is 0; the bus confirms no batch.
abbrev job_of : ℕ → Option JobBatch
job_of zero = none
job_of (suc n) = some val_job

abbrev unconfirmed : ResultsBatch toy → Bool
unconfirmed b = false
