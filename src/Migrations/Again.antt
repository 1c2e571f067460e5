-- ===== src/Migrations/Again.antt =====
-- `Migrate` twice.
use mathlib.Core.Path.{subst}
use proxy_harv.Prelude.{
  Bool, true, false, Option, none, some, List, [], ◌∷◌, ◌≡◌, refl, sym, arith, All, Bool-cases,
  Option-cases, inl, inr,
}
use proxy_harv.Text.{Bytes, one_of, str_eq_iff}
use proxy_harv.Migrations.{names, Schema, Scripts, transact, migrate_one, migrate_all, migrate}

one_of-head : (n : Bytes) (ns : List Bytes) → one_of n (n ∷ ns) ≡ true
unfolding one_of
one_of-head n ns = ground (arith, (str_eq_iff n n).1 refl)

one_of-tail : (n m : Bytes) (ns : List Bytes) → one_of n ns ≡ true → one_of n (m ∷ ns) ≡ true
unfolding one_of
one_of-tail n m ns h = ground arith

module _ {ℓ} {S : Type ℓ} (scripts : Scripts S) where
  abbrev Applied : Bytes → Schema S → Type 0
  Applied n db = one_of n db.applied ≡ true

  -- No round forgets a version, and a round without an error has the version of its file.
  abbrev IsRound : Bytes → Schema S → Schema S × Bool → Type 0
  IsRound n db r = ((k : Bytes) → Applied k db → Applied k r.0) × (r.1 ≡ true → Applied n r.0)

  transact-IsRound :
      (n : Bytes) (body : Option Bytes) (db : Schema S) → IsRound n db (transact scripts n body db)
  unfolding transact
  transact-IsRound n none db = (λ k h. h, λ never. cc)
  transact-IsRound n (some body) db = elim (Option-cases (scripts.exec body db.state)) [
    | inl e ↦ rw (e, transact) (λ k h. h, λ never. cc)
    | inr (s, e) ↦
        rw (e, transact) (λ k h. one_of-tail k n db.applied h, λ fine. one_of-head n db.applied)
  ]

  migrate_one-IsRound : (n : Bytes) (db : Schema S) → IsRound n db (migrate_one scripts n db)
  unfolding migrate_one
  migrate_one-IsRound n db = elim (Bool-cases (one_of n db.applied)) [
    | inl e ↦ rw (e, migrate_one) (λ k h. h, λ fine. e)
    | inr e ↦ rw (e, migrate_one) (transact-IsRound n (scripts.read n) db)
  ]

  abbrev IsRun : List Bytes → Schema S → Schema S × Bool → Type 0
  IsRun ns db r =
      ((k : Bytes) → Applied k db → Applied k r.0) × (r.1 ≡ true → All (λ n. Applied n r.0) ns)

  migrate_all-IsRun : (ns : List Bytes) (db : Schema S) → IsRun ns db (migrate_all scripts ns db)
  unfolding migrate_all
  migrate_all-IsRun [] db = (λ k h. h, λ fine. tt)
  migrate_all-IsRun (n ∷ ns) db =
      let db' = (migrate_one scripts n db).0 in
      let (kept, own) = migrate_one-IsRound n db in
      let (kept', others) = migrate_all-IsRun ns db' in
      elim (Bool-cases (migrate_one scripts n db).1) [
        | inl e ↦
            (let goes_on : migrate_all scripts (n ∷ ns) db ≡ migrate_all scripts ns db' =
                rw (e, migrate_all) refl in
              subst (IsRun (n ∷ ns) db) (sym goes_on)
                (λ k h. kept' k (kept k h), λ fine. (kept' n (own e), others fine)))
        | inr e ↦
            (let stops : migrate_all scripts (n ∷ ns) db ≡ (db', false) =
                rw (e, migrate_all) refl in
              subst (IsRun (n ∷ ns) db) (sym stops) (kept, λ never. cc))
      ]

  migrate_all-Applied :
      (ns : List Bytes) (db : Schema S)
      → All (λ n. Applied n db) ns
      → migrate_all scripts ns db ≡ (db, true)
  unfolding migrate_all migrate_one
  migrate_all-Applied [] db h = refl
  migrate_all-Applied (n ∷ ns) db (h, hs) = rw (h, migrate_all) (migrate_all-Applied ns db hs)

  -- When `Migrate` has ended without an error, every SQL file has its version in the database, and
  -- `Migrate` again ends without an error and changes nothing.
  pub migrate_again :
      (files : List Bytes) (db : Schema S)
      → (migrate scripts files db).1 ≡ true
      → All (λ n. Applied n (migrate scripts files db).0) (names files)
        × (migrate scripts files (migrate scripts files db).0
            ≡ ((migrate scripts files db).0, true))
  unfolding migrate
  migrate_again files db fine =
      let applied = (migrate_all-IsRun (names files) db).1 fine in
      (applied, migrate_all-Applied (names files) (migrate scripts files db).0 applied)
