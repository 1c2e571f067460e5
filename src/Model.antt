-- ===== src/Model.antt =====
-- proxies/internal/model/model.go: the rows of the database, and the wire's stages. Times are
-- nanoseconds since 1970.
pub mod Store
pub mod Due
pub mod Catalog
pub mod Cards
pub mod Ordering
pub mod Cities
use proxy_harv.Prelude.{
  ℕ, ◌+◌, ◌*◌, ◌^◌, ◌/◌, ◌≡◌, refl, Bool, true, false, ◌&&◌, Option, none, some, List, [], ◌∷◌, ltb,
  arith, ◌==◌, if◌then◌else◌,
}
use proxy_harv.Text.{Bytes, codes, str_eq}
use proxy_harv.Text.Number.{ℤ}
use proxy_harv.Floats.{Floats}

pub data Status : Type 0 where
  unknown alive dead : Status

pub data Class : Type 0 where
  no_class cloud rf : Class

-- a stage name of a job, a batch of results or a check
pub data Stage : Type 0 where
  l0 l1 l2 val : Stage
  other_stage : Bytes → Stage

unfoldable pub same_stage : Stage → Stage → Bool
unfolding str_eq
same_stage l0 l0 = true
same_stage l1 l1 = true
same_stage l2 l2 = true
same_stage val val = true
same_stage (other_stage a) (other_stage b) = str_eq a b
same_stage _ _ = false

unfoldable pub is_alive : Status → Bool
is_alive alive = true
is_alive _ = false

unfoldable pub is_dead : Status → Bool
is_dead dead = true
is_dead _ = false

abbrev pub second : ℕ
second = 10 ^ 9

abbrev pub hour : ℕ
hour = 3600 * second

pub record Vantage : Type 0 where
  pub id : Bytes
  pub is_edge_kind : Bool
  pub region : Option Bytes
  pub enabled : Bool
  pub last_heartbeat : Option ℕ

pub record Source : Type 0 where
  pub id : ℕ
  pub url : Bytes
  pub kind : Bytes
  pub enabled : Bool
  pub last_fetch_at : Option ℕ
  pub last_status : Option Bytes
  pub note : Option Bytes

pub record Publish : Type 0 where
  pub version : ℕ
  pub created_at : ℕ
  pub class_filter : Bytes
  pub node_count : ℕ
  pub checksum : Bytes
  pub kv_key : Bytes

-- WHERE p
unfoldable pub keep {ℓ} : {A : Type ℓ} → (A → Bool) → List A → List A
keep p [] = []
keep p (x ∷ xs) = let rest = keep p xs in if p x then x ∷ rest else rest

unfoldable pub find {ℓ} : {A : Type ℓ} → (A → Bool) → List A → Option A
find p [] = none
find p (x ∷ xs) = if p x then some x else find p xs

-- UPDATE ... SET ... WHERE p
unfoldable pub update_where {ℓ} : {A : Type ℓ} → (A → Bool) → (A → A) → List A → List A
update_where p f [] = []
update_where p f (x ∷ xs) = (if p x then f x else x) ∷ update_where p f xs

-- ORDER BY: `before x y` says that `x` comes first; rows that neither precedes keep their order.
unfoldable pub insert_by {ℓ} : {A : Type ℓ} → (A → A → Bool) → A → List A → List A
insert_by before x [] = x ∷ []
insert_by before x (y ∷ ys) =
    let rest = insert_by before x ys in if before y x then y ∷ rest else x ∷ y ∷ ys

unfoldable pub order_by {ℓ} : {A : Type ℓ} → (A → A → Bool) → List A → List A
unfolding insert_by
order_by before [] = []
order_by before (x ∷ xs) = insert_by before x (order_by before xs)

module _ (fl : Floats) where
  open fl use {F}

  pub record NodeRow : Type 0 where
    pub id : ℕ
    pub uri_hash : Bytes
    pub uri : Bytes
    pub protocol : Bytes
    pub transport : Bytes
    pub host : Bytes
    pub host_ip : Option Bytes
    pub cc : Option Bytes
    pub city : Option Bytes
    pub lat : Option F
    pub lon : Option F
    pub status : Status
    pub best_class : Class
    pub score : F
    pub first_seen : ℕ
    pub last_seen : ℕ
    pub last_l1_ok_at : Option ℕ

  pub record Check : Type 0 where
    pub node_id : ℕ
    pub vantage : Bytes
    pub stage : Stage
    pub passed : Bool
    pub latency_ms : Option ℤ
    pub speed_mbps : Option F
    pub error_code : Option Bytes
    pub ts : ℕ
    pub ts_bucket : ℕ

  pub record NodeUpdate : Type 0 where
    pub node_id : ℕ
    pub status : Status
    pub best_class : Class
    pub score : F
    pub last_l1_ok_at : Option ℕ

  -- The tables that the store keeps, and the next value of each serial column.
  pub record Tables : Type 0 where
    pub nodes : List NodeRow
    pub checks : List Check
    pub vantages : List Vantage
    pub sources : List Source
    pub publishes : List Publish
    pub next_node : ℕ
    pub next_source : ℕ
    pub next_version : ℕ
