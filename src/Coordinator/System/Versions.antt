-- ===== src/Coordinator/System/Versions.antt =====
-- The versions that the coordinator publishes, and how old the last one is.
use mathlib.Core.List.{Memᴰ}
use proxy_harv.Prelude.{ℕ, some, List, ◌≡◌}
use proxy_harv.Runtime.{Runtime}
use proxy_harv.Floats.{Floats}
use proxy_harv.Model.{Publish}
use proxy_harv.Coordinator.Publishing.{LoopState}

module _ (fl : Floats) where
  -- The last publication of the loop is a row of the table.
  abbrev pub IsRecorded : List Publish → LoopState → Type 0
  IsRecorded ps loop =
      (t : ℕ) → loop.last_publish ≡ some t → (p : Publish) × Memᴰ p ps × (p.created_at ≡ t)
