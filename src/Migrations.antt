-- ===== src/Migrations.antt =====
-- proxies/migrations/migrations.go and `Migrate` of proxies/internal/model/pg.go. The embedded files
-- and the database that runs their SQL are arguments; every script runs in a transaction of its own.
pub mod Again
use proxy_harv.Prelude.{
  ℕ, Bool, true, false, not, ◌&&◌, Option, none, some, List, [], ◌∷◌, drop, ◌-◌, ltb, length,
  if◌then◌else◌,
}
use proxy_harv.Text.{Bytes, codes, one_of, str_eq}
use proxy_harv.Parse.Sort.{sort}
use proxy_harv.Model.{keep}

-- a name that is longer than ".sql" and ends in it
unfoldable pub is_sql : Bytes → Bool
unfolding str_eq
is_sql name = let n = length name in ltb 4 n && str_eq (drop (n - 4) name) (codes ".sql")

-- `Names`, from the names of the files that are no directories
unfoldable pub names : List Bytes → List Bytes
unfolding sort is_sql keep
names files = sort (keep is_sql files)

-- The database: the versions in schema_migrations, and everything else.
pub record Schema {ℓ} (S : Type ℓ) : Type ℓ where
  pub applied : List Bytes
  pub state : S

-- What the program calls: the contents of an embedded file, and the effect of a script; `none` is an
-- error.
pub record Scripts {ℓ} (S : Type ℓ) : Type ℓ where
  pub read : Bytes → Option Bytes
  pub exec : Bytes → S → Option S

module _ {ℓ} {S : Type ℓ} (scripts : Scripts S) where
  -- the transaction of a script: the database, and whether it was committed
  unfoldable pub transact : Bytes → Option Bytes → Schema S → Schema S × Bool
  transact name none db = (db, false)
  transact name (some body) db = elim (scripts.exec body db.state) [
    | none ↦ (db, false)
    | some s ↦ (record { applied = name ∷ db.applied; state = s }, true)
  ]

  -- one round of the loop
  unfoldable pub migrate_one : Bytes → Schema S → Schema S × Bool
  unfolding transact one_of
  migrate_one name db =
      if one_of name db.applied then (db, true) else transact name (scripts.read name) db

  -- the loop of `Migrate`: the database, and whether it ended without an error
  unfoldable pub migrate_all : List Bytes → Schema S → Schema S × Bool
  unfolding migrate_one
  migrate_all [] db = (db, true)
  migrate_all (n ∷ ns) db =
      let (db', fine) = migrate_one n db in
      let rest = migrate_all ns db' in if fine then rest else (db', false)

  -- `Migrate`
  unfoldable pub migrate : List Bytes → Schema S → Schema S × Bool
  unfolding migrate_all names
  migrate files db = migrate_all (names files) db
