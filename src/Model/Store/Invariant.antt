-- ===== src/Model/Store/Invariant.antt =====
-- The constraints of the tables under the queries.
use proxy_harv.Prelude.{
  ℕ, ◌+◌, ◌<◌, Bool, false, Option, none, List, [], ◌∷◌, ◌≡◌, refl, ◌∙◌, arith, All, Bool-cases,
  Option-cases, inl, inr,
}
use proxy_harv.Text.{Bytes}
use proxy_harv.Floats.{Floats}
use proxy_harv.Model.{keep, find, update_where, NodeRow, Check, NodeUpdate, Tables}
use proxy_harv.Model.Store.{
  NewNode, get_node_by_hash, upsert_node, update_node_geo, update_node_aggregate, same_check,
  has_check, insert_check, delete_long_dead, by_hash, by_id,
}

pub All-keep {ℓ} :
    {A : Type ℓ} (P : A → Type 0) (p : A → Bool) (xs : List A) → All P xs → All P (keep p xs)
unfolding keep
All-keep P p [] h = tt
All-keep P p (x ∷ xs) (h, hs) = elim (Bool-cases (p x)) [
  | inl e ↦ rw e (h, All-keep P p xs hs)
  | inr e ↦ rw e (All-keep P p xs hs)
]

module _ {ℓ} {A : Type ℓ} (eq : A → A → Bool) where
  -- No row is equal to a later one.
  abbrev pub Unique : List A → Type 0
  Unique [] = Unit
  Unique (x ∷ xs) = All (λ y. eq x y ≡ false) xs × Unique xs

  pub Unique-keep : (p : A → Bool) (xs : List A) → Unique xs → Unique (keep p xs)
  unfolding keep
  Unique-keep p [] h = tt
  Unique-keep p (x ∷ xs) (h, hs) = elim (Bool-cases (p x)) [
    | inl e ↦ rw e (All-keep (λ y. eq x y ≡ false) p xs h, Unique-keep p xs hs)
    | inr e ↦ rw e (Unique-keep p xs hs)
  ]

-- A property that an update leaves alone.
pub All-update_where {ℓ} :
    {A : Type ℓ} {P : A → Type 0} (p : A → Bool) (f : A → A)
    → ((x : A) → P x → P (f x))
    → (xs : List A) → All P xs
    → All P (update_where p f xs)
unfolding update_where
All-update_where p f keeps [] h = tt
All-update_where p f keeps (x ∷ xs) (h, hs) = elim (Bool-cases (p x)) [
  | inl e ↦ rw e (keeps x h, All-update_where p f keeps xs hs)
  | inr e ↦ rw e (h, All-update_where p f keeps xs hs)
]

module _ {ℓ} {A : Type ℓ} (eq : A → A → Bool) where
  -- An update of columns that the test does not read.
  pub Unique-update_where :
      (p : A → Bool) (f : A → A)
      → ((x y : A) → eq (f x) y ≡ eq x y)
      → ((x y : A) → eq x (f y) ≡ eq x y)
      → (xs : List A) → Unique eq xs
      → Unique eq (update_where p f xs)
  unfolding update_where
  Unique-update_where p f left right [] h = tt
  Unique-update_where p f left right (x ∷ xs) (h, hs) =
      let later : All (λ y. eq x y ≡ false) (update_where p f xs) =
        All-update_where {P = λ y. eq x y ≡ false} p f (λ y e. right x y ∙ e) xs h in
      let rest = Unique-update_where p f left right xs hs in
      elim (Bool-cases (p x)) [
        | inl e ↦ rw e (moved x (update_where p f xs) later, rest)
        | inr e ↦ rw e (later, rest)
      ]
    where
      moved :
          (x : A) (ys : List A) → All (λ y. eq x y ≡ false) ys → All (λ y. eq (f x) y ≡ false) ys
      moved x [] h = tt
      moved x (y ∷ ys) (h, hs) = (left x y ∙ h, moved x ys hs)

module _ (fl : Floats) where
  abbrev same_hash : NodeRow fl → NodeRow fl → Bool
  same_hash a b = by_hash fl a.uri_hash b

  abbrev same_id : NodeRow fl → NodeRow fl → Bool
  same_id a b = by_id fl a.id b

  -- The unique columns are unique, and the serial column of the nodes is ahead of their ids.
  pub record IsStore (db : Tables fl) : Type 0 where
    pub hashes : Unique same_hash db.nodes
    pub ids : Unique same_id db.nodes
    pub serial : All (λ n. n.id < db.next_node) db.nodes
    pub checks : Unique (same_check fl) db.checks

  -- an update that keeps hash and id
  updated-IsStore :
      (db : Tables fl) (p : NodeRow fl → Bool) (f : NodeRow fl → NodeRow fl)
      → ((n : NodeRow fl) → ((f n).uri_hash ≡ n.uri_hash) × ((f n).id ≡ n.id))
      → IsStore db
      → IsStore (record db { nodes = update_where p f db.nodes })
  updated-IsStore db p f same h = record {
    hashes =
        Unique-update_where same_hash p f (λ x y. rw (same x).0 refl) (λ x y. rw (same y).0 refl)
          db.nodes h.hashes;
    ids =
        Unique-update_where same_id p f (λ x y. rw (same x).1 refl) (λ x y. rw (same y).1 refl)
          db.nodes h.ids;
    serial =
        All-update_where {P = λ n. n.id < db.next_node} p f (λ x lt. rw (same x).1 lt) db.nodes
          h.serial;
    checks = h.checks;
  }

  pub update_node_aggregate-IsStore :
      (u : NodeUpdate fl) (db : Tables fl) → IsStore db → IsStore (update_node_aggregate fl u db)
  unfolding update_node_aggregate
  update_node_aggregate-IsStore u db h =
      updated-IsStore db (by_id fl u.node_id) _ (λ n. (refl, refl)) h

  absent :
      (c : Check fl) (ds : List (Check fl))
      → has_check fl c ds ≡ false
      → All (λ d. same_check fl c d ≡ false) ds
  unfolding has_check
  absent c [] e = tt
  absent c (d ∷ ds) e = ground (arith, absent c ds)

  pub insert_check-IsStore :
      (c : Check fl) (db : Tables fl) → IsStore db → IsStore (insert_check fl c db).0
  unfolding insert_check
  insert_check-IsStore c db h = elim (Bool-cases (has_check fl c db.checks)) [
    | inl e ↦ rw e h
    | inr e ↦ rw e (record {
      hashes = h.hashes;
      ids = h.ids;
      serial = h.serial;
      checks = (absent c db.checks e, h.checks);
    })
  ]

  pub update_node_geo-IsStore :
      (i : ℕ) (host_ip : Bytes) (cc city : Option Bytes) (lat lon : Option fl.F) (db : Tables fl)
      → IsStore db
      → IsStore (update_node_geo fl i host_ip cc city lat lon db)
  unfolding update_node_geo
  update_node_geo-IsStore i host_ip cc city lat lon db h =
      updated-IsStore db (by_id fl i) _ (λ n. (refl, refl)) h

  find-none :
      (h : Bytes) (ns : List (NodeRow fl))
      → find (by_hash fl h) ns ≡ none
      → All (λ n. by_hash fl h n ≡ false) ns
  unfolding find
  find-none h [] e = tt
  find-none h (n ∷ ns) e = ground (arith, find-none h ns)

  ids_below :
      (next : ℕ) (ns : List (NodeRow fl))
      → All (λ n. n.id < next) ns
      → All (λ n. by_id fl next n ≡ false) ns
  ids_below next [] h = tt
  ids_below next (n ∷ ns) (h, hs) = (ground arith, ids_below next ns hs)

  below_suc :
      (next : ℕ) (ns : List (NodeRow fl))
      → All (λ n. n.id < next) ns
      → All (λ n. n.id < next + 1) ns
  below_suc next [] h = tt
  below_suc next (n ∷ ns) (h, hs) = (omega (arith, h), below_suc next ns hs)

  pub upsert_node-IsStore :
      (now : ℕ) (n : NewNode fl) (db : Tables fl) → IsStore db → IsStore (upsert_node fl now n db).0
  unfolding upsert_node get_node_by_hash
  upsert_node-IsStore now n db h = elim (Option-cases (find (by_hash fl n.uri_hash) db.nodes)) [
    | inl e ↦
        rw (e, upsert_node)
          (record {
            hashes = (find-none n.uri_hash db.nodes e, h.hashes);
            ids = (ids_below db.next_node db.nodes h.serial, h.ids);
            serial = (omega arith, below_suc db.next_node db.nodes h.serial);
            checks = h.checks;
          })
    | inr (old, e) ↦
        let touched =
          updated-IsStore db (by_hash fl n.uri_hash) (λ r. record r { last_seen = now })
            (λ _. (refl, refl)) h in
        rw (e, upsert_node)
          (record {
            hashes = touched.hashes;
            ids = touched.ids;
            serial = below_suc db.next_node _ touched.serial;
            checks = h.checks;
          })
  ]

  -- `DeleteLongDead` with any cutoff keeps the hashes, ids and check rows unique, and the next id
  -- ahead of the ids in use.
  pub delete_long_dead-IsStore :
      (cutoff : ℕ) (db : Tables fl) → IsStore db → IsStore (delete_long_dead fl cutoff db)
  unfolding delete_long_dead
  delete_long_dead-IsStore cutoff db h = record {
    hashes = Unique-keep same_hash _ db.nodes h.hashes;
    ids = Unique-keep same_id _ db.nodes h.ids;
    serial = All-keep (λ n. n.id < db.next_node) _ db.nodes h.serial;
    checks = Unique-keep (same_check fl) _ db.checks h.checks;
  }
