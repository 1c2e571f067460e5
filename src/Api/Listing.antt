-- ===== src/Api/Listing.antt =====
-- What GET /api/nodes shows.
use mathlib.Core.List.{Mem}
use proxy_harv.Prelude.{◌≤◌, true, List, [], length, All, ◌≡◌}
use proxy_harv.Text.{Bytes}
use proxy_harv.Floats.{Floats}
use proxy_harv.Model.{NodeRow, Tables}
use proxy_harv.Model.Cards.{NodeCard, card_of, is_wanted}
use proxy_harv.Api.{Body, nodes_body}
use proxy_harv.Api.Public.{strip_link}

module _ (fl : Floats) where
  -- The card of a row that matches, without its link.
  abbrev pub IsShown : Bytes → Bytes → Bytes → Tables fl → NodeCard fl → Type 0
  IsShown city class proto db c =
      (n : NodeRow fl) × Mem n db.nodes
      × (is_wanted fl city class proto n ≡ true)
      × (c ≡ strip_link fl (card_of fl db n))

  -- Status 200, at most 500 cards, each of a row that matches, and no link.
  unfoldable pub IsListing : Bytes → Bytes → Bytes → Tables fl → Body fl → Type 0
  IsListing city class proto db (nodes_body cards) =
      (length cards ≤ 500)
      × All (IsShown city class proto db) cards
      × All (λ c. c.share_link ≡ []) cards
  IsListing city class proto db _ = ⊥
