-- ===== src/Bus/Registering.antt =====
-- A heartbeat of a vantage and the table of vantages.
use proxy_harv.Prelude.{
  ℕ, ◌*◌, ◌/◌, true, false, Option, none, some, List, [], ◌∷◌, ◌≡◌, refl, sym, arith, if◌then◌else◌,
  Bool-cases, Option-cases, inl, inr,
}
use proxy_harv.Text.{Bytes, codes, str_eq, str_eq_iff, strip_prefix}
use proxy_harv.Floats.{Floats}
use proxy_harv.Model.{Vantage, Tables, second, find, update_where}
use proxy_harv.Model.Store.Rows.{find-update_where}
use proxy_harv.Model.Catalog.{upsert_vantage}
use proxy_harv.Coordinator.Ingest.{on_heartbeat}
use proxy_harv.Bus.{heartbeat}

module _ (fl : Floats) where
  -- The row of a vantage.
  abbrev pub vantage_row : Bytes → Tables fl → Option Vantage
  vantage_row id db = find (λ w. str_eq w.id id) db.vantages

  -- The row after a heartbeat, from the row before it.
  unfoldable pub heard : ℕ → Bytes → Bytes → Option Vantage → Vantage
  heard now vantage role none = record {
    id = vantage;
    is_edge_kind = str_eq role (codes "validator");
    region = none;
    enabled = true;
    last_heartbeat = some (now / second * second);
  }
  heard now vantage role (some old) = record {
    id = old.id;
    is_edge_kind = str_eq role (codes "validator");
    region = none;
    enabled = old.enabled;
    last_heartbeat = some (now / second * second);
  }

  unfoldable pub heartbeat_entry : ℕ → Bytes → Bytes → Tables fl → Tables fl
  unfolding heartbeat
  heartbeat_entry now vantage role db =
      let (key, hb) = heartbeat fl now vantage role in on_heartbeat fl key hb db

  -- An update of the rows of one vantage leaves the row of another one.
  other_row :
      (v k : Bytes) (f : Vantage → Vantage) (vs : List Vantage)
      → ((w : Vantage) → (f w).id ≡ w.id)
      → str_eq v k ≡ false
      → find (λ w. str_eq w.id k) (update_where (λ w. str_eq w.id v) f vs)
        ≡ find (λ w. str_eq w.id k) vs
  unfolding find update_where
  other_row v k f [] h e = refl
  other_row v k f (w ∷ ws) h e = elim (Bool-cases (str_eq w.id v)) [
    | inl same ↦
        let miss : str_eq w.id k ≡ false = rw ((str_eq_iff w.id v).0 same) e in
        let miss' : str_eq (f w).id k ≡ false = rw (h w) miss in
        rw (same, miss, miss') (other_row v k f ws h e)
    | inr other ↦ rw other (ground (arith, other_row v k f ws h e))
  ]

  -- The row of a vantage after the heartbeat of one, from the rows before it.
  unfoldable pub row_after : ℕ → Bytes → Bytes → Bytes → Tables fl → Option Vantage
  unfolding heard
  row_after now vantage role k db =
      if str_eq vantage k
      then some (heard now vantage role (vantage_row vantage db))
      else vantage_row k db

  -- When the coordinator handles the entry that a heartbeat puts, the vantage has a row that says
  -- whether its role is validator and when it was heard, to the second; a new row is enabled, an old
  -- one keeps that; and the row of every other vantage is as before.
  pub vantage_row-heartbeat_entry :
      (now : ℕ) (vantage role : Bytes) (db : Tables fl) (k : Bytes)
      → vantage_row k (heartbeat_entry now vantage role db) ≡ row_after now vantage role k db
  unfolding heartbeat_entry on_heartbeat upsert_vantage row_after heard heartbeat strip_prefix find
  vantage_row-heartbeat_entry now vantage role db k = elim (Option-cases (vantage_row vantage db)) [
    | inl e ↦
        rw (e, upsert_vantage)
          (elim (Bool-cases (str_eq vantage k)) [
            | inl same ↦ rw (same, row_after) refl
            | inr other ↦ rw (other, row_after) refl
          ])
    | inr (old, e) ↦
        rw (e, upsert_vantage)
          (elim (Bool-cases (str_eq vantage k)) [
            | inl same ↦
                rw (same, row_after)
                  (rw (sym ((str_eq_iff vantage k).0 same))
                    (find-update_where (λ w. str_eq w.id vantage) _ (λ w. refl) db.vantages old e))
            | inr other ↦
                rw (other, row_after) (other_row vantage k _ db.vantages (λ w. refl) other)
          ])
  ]
