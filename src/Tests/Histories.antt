-- ===== src/Tests/Histories.antt =====
-- What the goroutines of the coordinator may do.
use proxy_harv.Prelude.{
  ℕ, zero, suc, ◌+◌, Bool, true, false, Option, none, ◌+◌, some, List, [], ◌∷◌, ltb,
}
use proxy_harv.Text.{codes}
use proxy_harv.Model.{Check}
use proxy_harv.Model.Store.Invariant.{IsStore}
use proxy_harv.Wire.{RawBatch}
use proxy_harv.Bus.{no_fetch, gives}
use proxy_harv.Coordinator.System.{
  State, Event, raws, results, heartbeat, publish, maintain, run_events, new_state,
}
use proxy_harv.Coordinator.System.Reachable.{run_events-reachable}
use proxy_harv.Tests.{toy, toy_rt}
use proxy_harv.Tests.Rows.{raw_nodes}
use proxy_harv.Tests.Deliveries.{decode, contexts}

-- A batch of links for every message but 0.
abbrev links_of : ℕ → Option RawBatch
links_of zero = none
links_of (suc n) = some (record { source_id = 1; fetched_at = n; nodes = raw_nodes })

abbrev stays : ℕ → Check toy → Bool
stays now c = ltb now (c.ts + 30)

abbrev history : List (Event toy ℕ)
history =
    raws (λ k. k) none (gives (1 ∷ 0 ∷ 2 ∷ []) false)
    ∷ results contexts (gives (1 ∷ 2 ∷ 1 ∷ []) false)
    ∷ results contexts (gives (2 ∷ []) true)
    ∷ results contexts no_fetch
    ∷ heartbeat (codes "vantage.rf-1")
        (record { vantage = codes "rf-1"; role = codes "validator"; ts = 5 })
    ∷ publish 9
    ∷ maintain 3 90
    ∷ []

run_events-reachable_example :
    IsStore toy (run_events toy toy_rt 6 stays links_of decode history (new_state toy)).tables
run_events-reachable_example = run_events-reachable toy toy_rt 6 stays links_of decode history

-- A history that leaves a node to publish, and a version that is not yet old.
abbrev passed_history : List (Event toy ℕ)
passed_history =
    raws (λ k. k) none (gives (1 ∷ []) false)
    ∷ results contexts (gives (1 ∷ []) false)
    ∷ publish 9
    ∷ []

abbrev passed_state : State toy
passed_state = run_events toy toy_rt 6 stays links_of decode passed_history (new_state toy)
