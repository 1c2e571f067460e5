-- ===== src/Coordinator/Publishing.antt =====
-- `publishLoop`, `publishVersion` and `renameFragment` of proxies/cmd/coordinator/publish.go. The
-- body of a version is only measured and hashed by the source; the bus is given the metadata. A
-- failure of the database or of the bus is not modelled.
pub mod Body
pub mod Rename
pub mod Fresh
use proxy_harv.Prelude.{
  ℕ, zero, suc, ◌+◌, ◌-◌, ◌*◌, ◌/◌, Bool, true, false, not, ◌&&◌, ◌||◌, Option, none, some, List,
  [], ◌∷◌, ◌++◌, map, ltb, leb, ◌==◌, if◌then◌else◌, length,
}
use proxy_harv.Text.{Bytes, codes, is_empty, index_split, join}
use proxy_harv.Text.Number.{ℤ, pos, negsuc, itoa}
use proxy_harv.Text.Url.{query_escape}
use proxy_harv.Runtime.{Runtime, hex}
use proxy_harv.Base64.{encode}
use proxy_harv.Floats.{Floats}
use proxy_harv.Model.{Class, no_class, cloud, rf, l1, NodeRow, Publish, Tables}
use proxy_harv.Model.Store.{latest_check, list_nodes_for_publish}
use proxy_harv.Model.Catalog.{insert_publish}
use proxy_harv.Wire.{publish_key}

-- the column best_class
unfoldable pub class_name : Class → Bytes
class_name no_class = codes "none"
class_name cloud = codes "cloud"
class_name rf = codes "rf"

-- `itoa` of the coordinator
unfoldable pub latency_text : ℤ → Bytes
unfolding itoa
latency_text (pos zero) = codes "?"
latency_text (pos (suc n)) = itoa (suc n)
latency_text (negsuc n) = codes "?"

-- `derefString`
unfoldable pub deref_string : Option Bytes → Bytes → Bytes
deref_string none def = def
deref_string (some []) def = def
deref_string (some (c ∷ s)) def = c ∷ s

-- the text before the first '#'
unfoldable pub base_of : Bytes → Bytes
unfolding index_split
base_of uri = elim (index_split b'#' uri) [ none ↦ uri | some (before, _) ↦ before ]

unfoldable pub label_of : Bytes → Bytes → ℤ → Bytes → Bytes
unfolding latency_text
label_of cc city latency class =
    cc ++ (b'-' ∷ (city ++ (b'-' ∷ (latency_text latency ++ (codes "ms-" ++ class)))))

-- `renameFragment`
unfoldable pub rename_fragment : Bytes → Bytes → Bytes → ℤ → Bytes → Bytes
unfolding base_of label_of query_escape
rename_fragment uri cc city latency class =
    base_of uri ++ (b'#' ∷ query_escape (label_of cc city latency class))

unfoldable pub has_id : ℕ → List ℕ → Bool
has_id i [] = false
has_id i (j ∷ js) = i == j || has_id i js

-- how many of the ids are not in the other set
unfoldable pub missing_from : List ℕ → List ℕ → ℕ
unfolding has_id
missing_from other [] = 0
missing_from other (i ∷ is) =
    let rest = missing_from other is in if has_id i other then rest else rest + 1

-- `changed`: more than a fifth of the last set; `none` is the nil map
unfoldable pub is_changed : Option (List ℕ) → List ℕ → Bool
unfolding missing_from
is_changed none set = false
is_changed (some []) set = false
is_changed (some (i ∷ is)) set =
    let last = i ∷ is in
    ltb 20 ((missing_from last set + missing_from set last) * 100 / length last)

-- `periodDue`; `none` is the zero time
unfoldable pub period_due : ℕ → Option ℕ → ℕ → Bool
period_due now none period = true
period_due now (some last) period = leb (last + period) now

-- There is no entry for a class "none" that no node has.
pub record Meta : Type 0 where
  pub version : ℕ
  pub created_at : ℕ
  pub node_count : ℕ
  pub rf_count : ℕ
  pub cloud_count : ℕ
  pub none_count : ℕ
  pub checksum : Bytes
  pub size : ℕ

unfoldable pub same_class : Class → Class → Bool
same_class no_class no_class = true
same_class cloud cloud = true
same_class rf rf = true
same_class _ _ = false

-- The variables of the loop: `lastPublish` and `lastSet`.
pub record LoopState : Type 0 where
  pub last_publish : Option ℕ
  pub last_set : Option (List ℕ)

module _ (fl : Floats) where
  unfoldable pub class_count : Class → List (NodeRow fl) → ℕ
  unfolding same_class
  class_count k [] = 0
  class_count k (n ∷ ns) =
      let rest = class_count k ns in if same_class n.best_class k then rest + 1 else rest

  -- the latency of the latest L1 check, 0 if there is none
  unfoldable pub node_latency : Tables fl → ℕ → ℤ
  unfolding latest_check
  node_latency db i = elim (latest_check fl db i (l1 ∷ [])) [
    | none ↦ pos 0
    | some c ↦ (elim c.latency_ms [ none ↦ pos 0 | some ms ↦ ms ])
  ]

  -- the link of a node with its readable name
  unfoldable pub line_of : Tables fl → NodeRow fl → Bytes
  unfolding deref_string node_latency rename_fragment class_name
  line_of db n =
      rename_fragment n.uri (deref_string n.cc (codes "XX")) (deref_string n.city (codes "Unknown"))
        (node_latency db n.id) (class_name n.best_class)

  unfoldable pub body_of : Tables fl → List (NodeRow fl) → Bytes
  unfolding line_of encode join
  body_of db nodes = encode (join b'\n' (map (line_of db) nodes))

  -- `publishVersion` at the time `now`: the tables, and the key and metadata put on the bus
  unfoldable pub publish_version :
      Runtime → ℕ → List (NodeRow fl) → Tables fl → Tables fl × Bytes × Meta
  unfolding class_count body_of insert_publish publish_key hex
  publish_version rt now nodes db =
      let body = body_of db nodes in
      let checksum = codes "sha256:" ++ hex (rt.sha256 body) in
      let row : Publish = record {
        version = 0;
        created_at = 0;
        class_filter = codes "all";
        node_count = length nodes;
        checksum = checksum;
        kv_key = [];
      } in
      let (db', p) = insert_publish fl now row db in
      (
        db',
        publish_key p.version,
        record {
          version = p.version;
          created_at = p.created_at;
          node_count = length nodes;
          rf_count = class_count rf nodes;
          cloud_count = class_count cloud nodes;
          none_count = class_count no_class nodes;
          checksum = checksum;
          size = length body;
        },
      )

  unfoldable pub should_publish : ℕ → ℕ → List ℕ → LoopState → Bool
  unfolding period_due is_changed
  should_publish period now set st =
      period_due now st.last_publish period || is_changed st.last_set set

  abbrev pub ids : List (NodeRow fl) → List ℕ
  ids nodes = map (λ n. n.id) nodes

  -- one tick of `publishLoop`: nothing, or a version of the alive nodes
  unfoldable pub publish_tick :
      Runtime → ℕ → ℕ → Tables fl → LoopState → Option (LoopState × Tables fl × Bytes × Meta)
  unfolding list_nodes_for_publish should_publish publish_version
  publish_tick rt period now db st =
      let nodes = list_nodes_for_publish fl db in
      let (db', key, meta) = publish_version rt now nodes db in
      if not (is_empty nodes) && should_publish period now (ids nodes) st
      then some (record { last_publish = some now; last_set = some (ids nodes) }, db', key, meta)
      else none
