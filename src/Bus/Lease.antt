-- ===== src/Bus/Lease.antt =====
-- `TryAcquireLease` of proxies/internal/natsb/bus.go: instances that share the key lease.coordinator.
-- A claim reads the key and then puts its entry, in two calls; the calls of several instances
-- interleave in any order, under one clock in nanoseconds. A put that fails stores nothing.
pub mod Alone
pub mod Split
use proxy_harv.Prelude.{
  ℕ, ◌+◌, ◌-◌, ◌*◌, ◌/◌, Bool, true, false, not, ◌||◌, Option, none, some, List, [], ◌∷◌, ltb,
  if◌then◌else◌,
}
use proxy_harv.Text.{Bytes, str_eq}
use proxy_harv.Model.{second}

-- `leaseEntry`
pub record Entry : Type 0 where
  pub id : Bytes
  pub ts : ℕ

-- `nowEntry`; the stamp is written in whole seconds
unfoldable pub now_entry : Bytes → ℕ → Entry
now_entry instance_id now = record { id = instance_id; ts = now / second * second }

-- The condition of `claim` to go on, at what it read: nothing, or an entry whose stamp parses.
unfoldable pub may_claim : ℕ → ℕ → Bytes → Option Entry → Bool
unfolding str_eq
may_claim ttl now instance_id none = true
may_claim ttl now instance_id (some prev) =
    str_eq prev.id instance_id || not (ltb (now - prev.ts) ttl)

-- Where an instance is: before a claim, in a claim behind the read, or a leader.
pub data Role : Type 0 where
  standby : Role
  claiming : Role
  leader : Role

pub record Cluster : Type 0 where
  pub clock : ℕ
  pub entry : Option Entry
  pub role_of : Bytes → Role

unfoldable pub set_role : Bytes → Role → (Bytes → Role) → Bytes → Role
unfolding str_eq
set_role i role role_of k = if str_eq k i then role else role_of k

-- What happens next: time passes, or one instance makes a call, which is answered or fails.
pub data Event : Type 0 where
  pass : ℕ → Event
  get : Bytes → Bool → Event
  put : Bytes → Bool → Event

-- the read of a claim
unfoldable pub get_lease : ℕ → Bytes → Option Entry → Role → Cluster → Cluster
unfolding may_claim set_role
get_lease ttl i entry standby s =
    if may_claim ttl s.clock i entry
    then record s { role_of = set_role i claiming s.role_of }
    else s
get_lease ttl i entry claiming s = s
get_lease ttl i entry leader s = s

-- the write of a claim, or the renewal of a leader
unfoldable pub put_lease : Bytes → Bool → Role → Cluster → Cluster
unfolding now_entry set_role
put_lease i answered standby s = s
put_lease i false claiming s = record s { role_of = set_role i standby s.role_of }
put_lease i true claiming s = record s {
  entry = some (now_entry i s.clock);
  role_of = set_role i leader s.role_of;
}
put_lease i false leader s = s
put_lease i true leader s = record s { entry = some (now_entry i s.clock) }

unfoldable pub step : ℕ → Event → Cluster → Cluster
unfolding get_lease put_lease
step ttl (pass d) s = record s { clock = s.clock + d }
step ttl (get i true) s = get_lease ttl i s.entry (s.role_of i) s
step ttl (get i false) s = get_lease ttl i none (s.role_of i) s
step ttl (put i answered) s = put_lease i answered (s.role_of i) s

unfoldable pub run : ℕ → List Event → Cluster → Cluster
unfolding step
run ttl [] s = s
run ttl (e ∷ es) s = run ttl es (step ttl e s)

-- before the first instance starts
abbrev pub start : ℕ → Cluster
start now = record { clock = now; entry = none; role_of = λ i. Role.standby }
