-- ===== src/Bus/Lease/Alone.antt =====
-- Leaders while claims are not torn and the lease is renewed in time.
use proxy_harv.Prelude.{
  ℕ, ◌+◌, ◌-◌, ◌<◌, ◌≤◌, Bool, true, false, Option, none, some, List, [], ◌∷◌, ltb, lt→ltb, ◌≡◌,
  ◌∙◌, inl, inr, refl, sym, arith, Bool-cases,
}
use proxy_harv.Text.{Bytes, str_eq, str_eq_iff}
use proxy_harv.Model.{second}
use proxy_harv.Bus.Lease.{
  Entry, now_entry, may_claim, Role, standby, claiming, leader, Cluster, set_role, Event, pass, get,
  put, get_lease, put_lease, step, run, start,
}
use proxy_harv.Bus.Lease.Split.{set_role-same}

-- An instance makes the two calls of a claim, or of a renewal, with no other call between them. The
-- read is answered; whether the put is, the turn says.
pub data Turn : Type 0 where
  pause : ℕ → Turn
  attempt : Bytes → Bool → Turn

abbrev pub events : List Turn → List Event
events [] = []
events (pause d ∷ ts) = pass d ∷ events ts
events (attempt i answered ∷ ts) = get i true ∷ put i answered ∷ events ts

-- The lease, if there is one, is younger than its time to live.
abbrev pub IsFresh : ℕ → ℕ → Option Entry → Type 0
IsFresh ttl now none = Unit
IsFresh ttl now (some e) = now - e.ts < ttl

-- No pause is so long that the lease runs out.
unfoldable pub IsRenewed : ℕ → List Turn → Cluster → Type 0
unfolding step
IsRenewed ttl [] s = Unit
IsRenewed ttl (pause d ∷ ts) s =
    IsFresh ttl (s.clock + d) s.entry × IsRenewed ttl ts (step ttl (pass d) s)
IsRenewed ttl (attempt i answered ∷ ts) s =
    IsRenewed ttl ts (step ttl (put i answered) (step ttl (get i true) s))

-- A leader is the one that the lease names, and no claim is under way.
abbrev IsHolder : Option Entry → Bytes → Role → Type 0
IsHolder entry k standby = Unit
IsHolder entry k claiming = ⊥
IsHolder none k leader = ⊥
IsHolder (some e) k leader = k ≡ e.id

abbrev IsAlone : ℕ → Cluster → Type 0
IsAlone ttl s = IsFresh ttl s.clock s.entry × ((k : Bytes) → IsHolder s.entry k (s.role_of k))

now_entry-IsFresh :
    (ttl now : ℕ) (i : Bytes) → second ≤ ttl → IsFresh ttl now (some (now_entry i now))
unfolding now_entry
now_entry-IsFresh ttl now i h = omega (arith, h)

-- A fresh lease is claimed by nobody but its holder.
may_claim-holder :
    (ttl now : ℕ) (i : Bytes) (e : Entry)
    → IsFresh ttl now (some e)
    → may_claim ttl now i (some e) ≡ true
    → e.id ≡ i
unfolding may_claim
may_claim-holder ttl now i e fresh may = elim (Bool-cases (str_eq e.id i)) [
  | inl same ↦ (str_eq_iff e.id i).0 same
  | inr other ↦
      let young : ltb (now - e.ts) ttl ≡ true = lt→ltb (now - e.ts) ttl fresh in
      let never : false ≡ true = rw (other, may_claim, young) at may in cc
]

abbrev Names : Option Entry → Bytes → Type 0
Names none i = Unit
Names (some e) i = e.id ≡ i

may_claim-Names :
    (ttl now : ℕ) (i : Bytes) (entry : Option Entry)
    → IsFresh ttl now entry
    → may_claim ttl now i entry ≡ true
    → Names entry i
may_claim-Names ttl now i none fresh may = tt
may_claim-Names ttl now i (some e) fresh may = may_claim-holder ttl now i e fresh may

-- An instance may put its entry over one that names it, or over none.
IsHolder-moved :
    (now : ℕ) (i k : Bytes) (role : Role) (entry : Option Entry)
    → Names entry i
    → IsHolder entry k role
    → IsHolder (some (now_entry i now)) k role
unfolding now_entry
IsHolder-moved now i k standby entry names h = tt
IsHolder-moved now i k claiming entry names h = h
IsHolder-moved now i k leader none names h = absurd h
IsHolder-moved now i k leader (some e) names h = h ∙ names

-- After the read and the write of an instance, only its own role has changed.
twice_set :
    (entry : Option Entry) (i k : Bytes) (role : Role) (roles : Bytes → Role)
    → IsHolder entry i role
    → IsHolder entry k (roles k)
    → IsHolder entry k (set_role i role (set_role i claiming roles) k)
unfolding set_role
twice_set entry i k role roles mine h = elim (Bool-cases (str_eq k i)) [
  | inl same ↦ rw (same, set_role) (rw ((str_eq_iff k i).0 same) mine)
  | inr other ↦ rw (other, set_role) h
]

-- The write of an instance whose claim goes on.
claimed-IsAlone :
    (ttl : ℕ) (i : Bytes) (answered : Bool) (s : Cluster)
    → second ≤ ttl
    → Names s.entry i
    → IsAlone ttl s
    → IsAlone ttl
        (put_lease i answered claiming (record s { role_of = set_role i claiming s.role_of }))
unfolding put_lease now_entry
claimed-IsAlone ttl i false s h names (fresh, alone) =
    (fresh, λ k. twice_set s.entry i k standby s.role_of tt (alone k))
claimed-IsAlone ttl i true s h names (fresh, alone) = (
  now_entry-IsFresh ttl s.clock i h,
  λ k.
      twice_set (some (now_entry i s.clock)) i k leader s.role_of refl
        (IsHolder-moved s.clock i k (s.role_of k) s.entry names (alone k)),
)

holder-Names : (i : Bytes) (entry : Option Entry) → IsHolder entry i leader → Names entry i
holder-Names i none h = tt
holder-Names i (some e) h = sym h

renewed-IsAlone :
    (ttl : ℕ) (i : Bytes) (answered : Bool) (s : Cluster)
    → second ≤ ttl
    → Names s.entry i
    → IsAlone ttl s
    → IsAlone ttl (put_lease i answered leader s)
unfolding put_lease
renewed-IsAlone ttl i false s h names alone = alone
renewed-IsAlone ttl i true s h names (fresh, alone) = (
  now_entry-IsFresh ttl s.clock i h,
  λ k. IsHolder-moved s.clock i k (s.role_of k) s.entry names (alone k),
)

attempted-IsAlone :
    (ttl : ℕ) (i : Bytes) (answered : Bool) (role : Role) (s : Cluster)
    → s.role_of i ≡ role
    → second ≤ ttl
    → IsAlone ttl s
    → IsAlone ttl (
        put_lease i answered
          ((get_lease ttl i s.entry role s).role_of i)
          (get_lease ttl i s.entry role s))
unfolding get_lease put_lease
attempted-IsAlone ttl i answered standby s mine h alone =
    elim (Bool-cases (may_claim ttl s.clock i s.entry)) [
      | inl f ↦
          rw (f, get_lease)
            (rw (set_role-same i claiming s.role_of) (
              claimed-IsAlone ttl i answered s h (may_claim-Names ttl s.clock i s.entry alone.0 f)
                alone))
      | inr f ↦ rw (f, get_lease) (rw (mine, put_lease) alone)
    ]
attempted-IsAlone ttl i answered claiming s mine h alone =
    let never : IsHolder s.entry i claiming = rw mine at (alone.1 i) in absurd never
attempted-IsAlone ttl i answered leader s mine h alone =
    let holds : IsHolder s.entry i leader = rw mine at (alone.1 i) in
    rw mine (renewed-IsAlone ttl i answered s h (holder-Names i s.entry holds) alone)

run-IsAlone :
    (ttl : ℕ) (ts : List Turn) (s : Cluster)
    → second ≤ ttl
    → IsRenewed ttl ts s
    → IsAlone ttl s
    → IsAlone ttl (run ttl (events ts) s)
unfolding IsRenewed run step
run-IsAlone ttl [] s h renewed alone = alone
run-IsAlone ttl (pause d ∷ ts) s h (fresh, renewed) alone =
    run-IsAlone ttl ts (step ttl (pass d) s) h renewed (fresh, alone.1)
run-IsAlone ttl (attempt i answered ∷ ts) s h renewed alone =
    run-IsAlone ttl ts (step ttl (put i answered) (step ttl (get i true) s)) h renewed
      (attempted-IsAlone ttl i answered (s.role_of i) s refl h alone)

same_holder :
    (i j : Bytes) (entry : Option Entry) → IsHolder entry i leader → IsHolder entry j leader → i ≡ j
same_holder i j none hi hj = absurd hi
same_holder i j (some e) hi hj = hi ∙ sym hj

-- From the start, if every read of the lease is answered, no other call stands between the two calls
-- of a claim, the time to live is at least a second, and no pause lets the lease run out, then at most
-- one instance leads.
pub run-one_leader :
    (ttl now : ℕ) (ts : List Turn) (i j : Bytes)
    → second ≤ ttl
    → IsRenewed ttl ts (start now)
    → (run ttl (events ts) (start now)).role_of i ≡ leader
    → (run ttl (events ts) (start now)).role_of j ≡ leader
    → i ≡ j
run-one_leader ttl now ts i j h renewed led led' =
    let s = run ttl (events ts) (start now) in
    let (fresh, alone) = run-IsAlone ttl ts (start now) h renewed (tt, λ k. tt) in
    let hi : IsHolder s.entry i leader = rw led at (alone i) in
    let hj : IsHolder s.entry j leader = rw led' at (alone j) in same_holder i j s.entry hi hj
