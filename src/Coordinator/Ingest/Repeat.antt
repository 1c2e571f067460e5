-- ===== src/Coordinator/Ingest/Repeat.antt =====
-- A batch of links that the bus delivers a second time.
use proxy_harv.Prelude.{
  ℕ, Bool, true, false, ◌||◌, Option, none, some, List, [], ◌∷◌, map, ◌≡◌, ◌⊎◌, refl, ◌∙◌, arith,
  All, if◌then◌else◌, Option-cases, Bool-cases, inl, inr,
}
use proxy_harv.Text.{Bytes, str_eq}
use proxy_harv.Floats.{Floats}
use proxy_harv.Model.{find, update_where, NodeRow, Tables}
use proxy_harv.Model.Store.{NewNode, by_hash, by_id, get_node_by_hash, upsert_node, update_node_geo}
use proxy_harv.Model.Store.Rows.{str_eq_refl}
use proxy_harv.Wire.{RawNode}
use proxy_harv.Coordinator.Ingest.{Located, locate_node, ingest_raw, ingest_batch}

map-update_where {ℓ κ} :
    {A : Type ℓ} {B : Type κ} (g : A → B) (p : A → Bool) (f : A → A)
    → ((x : A) → g (f x) ≡ g x)
    → (xs : List A) → map g (update_where p f xs) ≡ map g xs
unfolding update_where
map-update_where g p f h [] = refl
map-update_where g p f h (x ∷ xs) = elim (Bool-cases (p x)) [
  | inl e ↦ rw e (rw (h x) (rw (map-update_where g p f h xs)))
  | inr e ↦ rw e (rw (map-update_where g p f h xs))
]

module _ (fl : Floats) where
  -- What identifies a row and never changes.
  abbrev pub identity : NodeRow fl → ℕ × Bytes × Bytes × ℕ
  identity n = (n.id, n.uri_hash, n.uri, n.first_seen)

  abbrev pub identities : Tables fl → List (ℕ × Bytes × Bytes × ℕ)
  identities db = map identity db.nodes

  -- Is there a row of this hash among them?
  abbrev pub holds : Bytes → List (ℕ × Bytes × Bytes × ℕ) → Bool
  holds h [] = false
  holds h (x ∷ xs) = str_eq x.1 h || holds h xs

  find-holds :
      (h : Bytes) (ns : List (NodeRow fl))
      → find (by_hash fl h) ns ≡ none
      → holds h (map identity ns) ≡ false
  unfolding find
  find-holds h [] e = refl
  find-holds h (n ∷ ns) e = ground (arith, find-holds h ns)

  locate_node-identities :
      (locate : Bytes → Located fl) (i : ℕ) (host : Bytes) (db : Tables fl)
      → identities (locate_node fl locate i host db) ≡ identities db
  unfolding locate_node update_node_geo
  locate_node-identities locate i host db = elim (Option-cases (locate host).place) [
    | inl e ↦ rw (e, locate_node) (map-update_where identity (by_id fl i) _ (λ _. refl) db.nodes)
    | inr ((cc, city, lat, lon), e) ↦
        rw (e, locate_node) (map-update_where identity (by_id fl i) _ (λ _. refl) db.nodes)
  ]

  if-identities :
      (b : Bool) (d e : Tables fl)
      → identities d ≡ identities e
      → identities (if b then d else e) ≡ identities e
  if-identities true d e h = h
  if-identities false d e h = refl

  -- the node that `ingestBatch` makes of a link
  abbrev new_node : RawNode → NewNode fl
  new_node rn = record {
    uri_hash = rn.uri_hash;
    uri = rn.uri;
    protocol = rn.protocol;
    transport = rn.transport;
    host = rn.host;
  }

  ingest_raw-identities :
      (now : ℕ) (locate : Option (Bytes → Located fl)) (rn : RawNode) (db : Tables fl)
      → identities (ingest_raw fl now locate rn db)
        ≡ identities (upsert_node fl now (new_node rn) db).0
  unfolding ingest_raw
  ingest_raw-identities now none rn db = refl
  ingest_raw-identities now (some find) rn db =
      if-identities (upsert_node fl now (new_node rn) db).2 _ _
        (locate_node-identities find _ rn.host _)

  find-holds-some :
      (h : Bytes) (ns : List (NodeRow fl)) (row : NodeRow fl)
      → find (by_hash fl h) ns ≡ some row
      → holds h (map identity ns) ≡ true
  unfolding find
  find-holds-some h [] row e = cc
  find-holds-some h (n ∷ ns) row e = ground (arith, find-holds-some h ns row)

  -- An upsert puts a row in front of the others, or leaves the identities as they are.
  upsert_node-cases :
      (now : ℕ) (n : NewNode fl) (db : Tables fl)
      → (identities (upsert_node fl now n db).0
          ≡ (db.next_node, n.uri_hash, n.uri, now) ∷ identities db)
        ⊎ ((identities (upsert_node fl now n db).0 ≡ identities db)
            × (holds n.uri_hash (identities db) ≡ true))
  unfolding upsert_node get_node_by_hash
  upsert_node-cases now n db = elim (Option-cases (find (by_hash fl n.uri_hash) db.nodes)) [
    | inl e ↦ inl (rw (e, upsert_node) refl)
    | inr (old, e) ↦ inr (
      rw (e, upsert_node)
          (map-update_where identity (by_hash fl n.uri_hash) _ (λ _. refl) db.nodes),
      find-holds-some n.uri_hash db.nodes old e,
    )
  ]

  holds-upsert_node :
      (now : ℕ) (n : NewNode fl) (db : Tables fl)
      → holds n.uri_hash (identities (upsert_node fl now n db).0) ≡ true
  holds-upsert_node now n db = elim (upsert_node-cases now n db) [
    | inl e ↦ rw e (ground (arith, str_eq_refl n.uri_hash))
    | inr (e, h) ↦ rw e h
  ]

  holds-upsert_node_mono :
      (h : Bytes) (now : ℕ) (n : NewNode fl) (db : Tables fl)
      → holds h (identities db) ≡ true
      → holds h (identities (upsert_node fl now n db).0) ≡ true
  holds-upsert_node_mono h now n db p = elim (upsert_node-cases now n db) [
    | inl e ↦ rw e (ground arith)
    | inr (e, _) ↦ rw e p
  ]

  upsert_node-old :
      (now : ℕ) (n : NewNode fl) (db : Tables fl)
      → holds n.uri_hash (identities db) ≡ true
      → identities (upsert_node fl now n db).0 ≡ identities db
  unfolding upsert_node get_node_by_hash
  upsert_node-old now n db h = elim (Option-cases (find (by_hash fl n.uri_hash) db.nodes)) [
    | inl e ↦ absurd (ground (arith, find-holds n.uri_hash db.nodes e))
    | inr (old, e) ↦
        rw (e, upsert_node)
          (map-update_where identity (by_hash fl n.uri_hash) _ (λ _. refl) db.nodes)
  ]

  holds-ingest_batch :
      (h : Bytes) (now : ℕ) (locate : Option (Bytes → Located fl)) (rns : List RawNode)
      (db : Tables fl)
      → holds h (identities db) ≡ true
      → holds h (identities (ingest_batch fl now locate rns db)) ≡ true
  unfolding ingest_batch
  holds-ingest_batch h now locate [] db p = p
  holds-ingest_batch h now locate (rn ∷ rns) db p = holds-ingest_batch h now locate rns _ (
      rw (ingest_raw-identities now locate rn db) (holds-upsert_node_mono h now (new_node rn) db p))

  -- Every hash of a batch is that of a row afterwards.
  ingest_batch-stores :
      (now : ℕ) (locate : Option (Bytes → Located fl)) (rns : List RawNode) (db : Tables fl)
      → All (λ rn. holds rn.uri_hash (identities (ingest_batch fl now locate rns db)) ≡ true) rns
  unfolding ingest_batch
  ingest_batch-stores now locate [] db = tt
  ingest_batch-stores now locate (rn ∷ rns) db = (
    holds-ingest_batch rn.uri_hash now locate rns _
        (rw (ingest_raw-identities now locate rn db) (holds-upsert_node now (new_node rn) db)),
    ingest_batch-stores now locate rns _,
  )

  held_later :
      (xs ys : List (ℕ × Bytes × Bytes × ℕ)) (rns : List RawNode)
      → xs ≡ ys
      → All (λ rn. holds rn.uri_hash ys ≡ true) rns
      → All (λ rn. holds rn.uri_hash xs ≡ true) rns
  held_later xs ys rns e h = rw e h

  ingest_batch-old :
      (now : ℕ) (locate : Option (Bytes → Located fl)) (rns : List RawNode) (db : Tables fl)
      → All (λ rn. holds rn.uri_hash (identities db) ≡ true) rns
      → identities (ingest_batch fl now locate rns db) ≡ identities db
  unfolding ingest_batch
  ingest_batch-old now locate [] db h = refl
  ingest_batch-old now locate (rn ∷ rns) db (h, hs) =
      let same : identities (ingest_raw fl now locate rn db) ≡ identities db =
        ingest_raw-identities now locate rn db ∙ upsert_node-old now (new_node rn) db h in
      ingest_batch-old now locate rns _
        (held_later (identities (ingest_raw fl now locate rn db)) (identities db) rns same hs)
      ∙ same

  -- After `ingestBatch` of a batch there is a row for every hash of the batch, and the same batch a
  -- second time, at any time and with any geo database or none, adds no row and changes no row's id,
  -- hash, link or time of first sight.
  pub ingest_batch_redelivered :
      (now now' : ℕ) (locate locate' : Option (Bytes → Located fl)) (rns : List RawNode)
      (db : Tables fl)
      → All (λ rn. holds rn.uri_hash (identities (ingest_batch fl now locate rns db)) ≡ true) rns
        × (identities (ingest_batch fl now' locate' rns (ingest_batch fl now locate rns db))
            ≡ identities (ingest_batch fl now locate rns db))
  ingest_batch_redelivered now now' locate locate' rns db =
      let stored = ingest_batch-stores now locate rns db in
      (stored, ingest_batch-old now' locate' rns _ stored)
