-- ===== src/Coordinator/System.antt =====
-- proxies/cmd/coordinator as a whole: its goroutines share the tables, and their rounds, ticks and
-- entries come in any order. Which checks stand in a partition that is
-- kept is the database's answer, and an argument.
pub mod Reachable
pub mod Frame
pub mod Versions
use proxy_harv.Prelude.{
  ℕ, ◌-◌, ◌*◌, ◌==◌, Bool, true, Option, none, some, List, [], ◌∷◌, if◌then◌else◌,
}
use proxy_harv.Text.{Bytes}
use proxy_harv.Runtime.{Runtime}
use proxy_harv.Floats.{Floats}
use proxy_harv.Model.{hour, Check, Tables, keep}
use proxy_harv.Model.Store.{delete_long_dead}
use proxy_harv.Wire.{RawBatch, ResultsBatch}
use proxy_harv.Bus.{Given}
use proxy_harv.Coordinator.Ingest.{Located, Context, Heartbeat, on_heartbeat}
use proxy_harv.Coordinator.Consuming.{raw_round, results_round}
use proxy_harv.Coordinator.Publishing.{Meta, LoopState, publish_tick}

module _ (fl : Floats) where
  -- one tick of `maintenanceLoop`, at an hour of the day and a time
  unfoldable pub maintenance_tick : (ℕ → Check fl → Bool) → ℕ → ℕ → Tables fl → Tables fl
  unfolding delete_long_dead keep
  maintenance_tick stays hour_of_day now db =
      if hour_of_day == 3
      then delete_long_dead fl (now - 14 * 24 * hour)
          (record db { checks = keep (stays now) db.checks })
      else db

  -- What one goroutine does next.
  pub data Event {ℓ} (Msg : Type ℓ) : Type ℓ where
    raws : (ℕ → ℕ) → Option (Bytes → Located fl) → Given Msg → Event Msg
    results : (ℕ → Context fl) → Given Msg → Event Msg
    heartbeat : Bytes → Heartbeat fl → Event Msg
    publish : ℕ → Event Msg
    maintain : ℕ → ℕ → Event Msg

  -- The tables, and the variables of `publishLoop`.
  pub record State : Type 0 where
    pub tables : Tables fl
    pub loop : LoopState

  -- the state after a tick of `publishLoop`
  abbrev pub published_state : State → Option (LoopState × Tables fl × Bytes × Meta) → State
  published_state s none = s
  published_state s (some (loop, db, key, meta)) = record { tables = db; loop = loop }

  module _ {ℓ} {Msg : Type ℓ} (rt : Runtime) (period : ℕ) (stays : ℕ → Check fl → Bool)
      (decode_raw : Msg → Option RawBatch) (decode_results : Msg → Option (ResultsBatch fl)) where
    unfoldable pub act : Event Msg → State → State
    unfolding raw_round results_round on_heartbeat publish_tick maintenance_tick
    act (raws now locate msgs) s = record s {
      tables = (raw_round fl decode_raw now locate msgs s.tables).tables;
    }
    act (results context msgs) s = record s {
      tables = (results_round fl decode_results context msgs s.tables).tables;
    }
    act (heartbeat key hb) s = record s { tables = on_heartbeat fl key hb s.tables }
    act (publish now) s = published_state s (publish_tick fl rt period now s.tables s.loop)
    act (maintain hour_of_day now) s = record s {
      tables = maintenance_tick stays hour_of_day now s.tables;
    }

    unfoldable pub run_events : List (Event Msg) → State → State
    unfolding act
    run_events [] s = s
    run_events (e ∷ es) s = run_events es (act e s)

-- the tables of a new database, and the loop when it starts
abbrev pub new_state : (fl : Floats) → State fl
new_state fl = record {
  tables = record {
    nodes = [];
    checks = [];
    vantages = [];
    sources = [];
    publishes = [];
    next_node = 1;
    next_source = 1;
    next_version = 1;
  };
  loop = record { last_publish = none; last_set = none };
}
