-- ===== src/Model/Store/Rows.antt =====
-- What an update, an upsert and an insertion leave in the tables.
use proxy_harv.Prelude.{ℕ, Bool, true, false, some, List, [], ◌∷◌, ◌≡◌, refl, arith}
use proxy_harv.Text.{str_eq, str_eq_iff}
use proxy_harv.Floats.{Floats}
use proxy_harv.Model.{
  find, update_where, same_stage, l0, l1, l2, val, other_stage, Stage, Check, Tables,
}
use proxy_harv.Model.Store.{same_check, has_check, insert_check}

-- An update that keeps the condition changes the row that the condition finds.
pub find-update_where {ℓ} :
    {A : Type ℓ} (p : A → Bool) (f : A → A)
    → ((x : A) → p (f x) ≡ p x)
    → (xs : List A) (x : A) → find p xs ≡ some x
    → find p (update_where p f xs) ≡ some (f x)
unfolding find update_where
find-update_where p f h [] x e = cc
find-update_where p f h (y ∷ ys) x e = ground (arith, find-update_where p f h ys x, h y)

pub str_eq_refl : (s : List ℕ) → str_eq s s ≡ true
str_eq_refl s = (str_eq_iff s s).1 refl

pub same_stage_refl : (s : Stage) → same_stage s s ≡ true
unfolding same_stage
same_stage_refl l0 = refl
same_stage_refl l1 = refl
same_stage_refl l2 = refl
same_stage_refl val = refl
same_stage_refl (other_stage s) = str_eq_refl s

module _ (fl : Floats) where
  pub same_check_refl : (c : Check fl) → same_check fl c c ≡ true
  unfolding same_check
  same_check_refl c = ground (arith, str_eq_refl c.vantage, same_stage_refl c.stage)

  -- The inserted check is there afterwards, and the checks that were there stay.
  pub has_check-insert_check :
      (c : Check fl) (db : Tables fl) → has_check fl c (insert_check fl c db).0.checks ≡ true
  unfolding has_check insert_check
  has_check-insert_check c db = ground (arith, same_check_refl c)

  pub has_check-insert_check_mono :
      (c d : Check fl) (db : Tables fl)
      → has_check fl d db.checks ≡ true
      → has_check fl d (insert_check fl c db).0.checks ≡ true
  unfolding has_check insert_check
  has_check-insert_check_mono c d db h = ground arith

  pub insert_check_old :
      (c : Check fl) (db : Tables fl)
      → has_check fl c db.checks ≡ true
      → insert_check fl c db ≡ (db, false)
  unfolding insert_check
  insert_check_old c db h = rw h
