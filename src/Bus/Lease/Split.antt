-- ===== src/Bus/Lease/Split.antt =====
-- Leaders, and claims of a lease while one leads.
use proxy_harv.Prelude.{
  ℕ, Bool, true, false, Option, none, List, [], ◌∷◌, ◌≡◌, ap, ◌∙◌, ◌≢◌, ◌⊎◌, inl, inr, refl, sym,
  Bool-cases,
}
use proxy_harv.Text.{Bytes, str_eq, str_eq_iff}
use proxy_harv.Bus.Lease.{
  Entry, may_claim, Role, standby, claiming, leader, Cluster, set_role, Event, pass, get, put,
  get_lease, put_lease, step, run,
}

pub set_role-same :
    (i : Bytes) (role : Role) (roles : Bytes → Role) → set_role i role roles i ≡ role
unfolding set_role
set_role-same i role roles =
    let same : str_eq i i ≡ true = (str_eq_iff i i).1 refl in rw (same, set_role) refl

-- Setting one instance's role to leader, or another's to anything, keeps a leader.
set_role-leader :
    (i k : Bytes) (role : Role) (roles : Bytes → Role)
    → (k ≢ i) ⊎ (role ≡ leader)
    → roles k ≡ leader
    → set_role i role roles k ≡ leader
unfolding set_role
set_role-leader i k role roles h e = elim (Bool-cases (str_eq k i)) [
  | inl same ↦ elim h [
    | inl other ↦ absurd (other ((str_eq_iff k i).0 same))
    | inr led ↦ rw (same, set_role) led
  ]
  | inr other ↦ rw (other, set_role) e
]

other_instance :
    (k i : Bytes) (roles : Bytes → Role) (role : Role)
    → roles k ≡ leader
    → roles i ≡ role
    → role ≢ leader
    → k ≢ i
other_instance k i roles role led mine not_leader same =
    not_leader (sym mine ∙ (sym (ap roles same) ∙ led))

get_lease-leader :
    (ttl : ℕ) (i k : Bytes) (entry : Option Entry) (role : Role) (s : Cluster)
    → s.role_of i ≡ role
    → s.role_of k ≡ leader
    → (get_lease ttl i entry role s).role_of k ≡ leader
unfolding get_lease
get_lease-leader ttl i k entry standby s mine led =
    let other = other_instance k i s.role_of standby led mine (λ e. cc) in
    elim (Bool-cases (may_claim ttl s.clock i entry)) [
      | inl f ↦ rw (f, get_lease) (set_role-leader i k claiming s.role_of (inl other) led)
      | inr f ↦ rw (f, get_lease) led
    ]
get_lease-leader ttl i k entry claiming s mine led = led
get_lease-leader ttl i k entry leader s mine led = led

put_lease-leader :
    (i k : Bytes) (answered : Bool) (role : Role) (s : Cluster)
    → s.role_of i ≡ role
    → s.role_of k ≡ leader
    → (put_lease i answered role s).role_of k ≡ leader
unfolding put_lease
put_lease-leader i k answered standby s mine led = led
put_lease-leader i k false claiming s mine led =
    let other = other_instance k i s.role_of claiming led mine (λ e. cc) in
    set_role-leader i k standby s.role_of (inl other) led
put_lease-leader i k true claiming s mine led = set_role-leader i k leader s.role_of (inr refl) led
put_lease-leader i k false leader s mine led = led
put_lease-leader i k true leader s mine led = led

step-leader :
    (ttl : ℕ) (e : Event) (k : Bytes) (s : Cluster)
    → s.role_of k ≡ leader
    → (step ttl e s).role_of k ≡ leader
unfolding step
step-leader ttl (pass d) k s led = led
step-leader ttl (get i true) k s led = get_lease-leader ttl i k s.entry (s.role_of i) s refl led
step-leader ttl (get i false) k s led = get_lease-leader ttl i k none (s.role_of i) s refl led
step-leader ttl (put i answered) k s led = put_lease-leader i k answered (s.role_of i) s refl led

run-leader :
    (ttl : ℕ) (es : List Event) (k : Bytes) (s : Cluster)
    → s.role_of k ≡ leader
    → (run ttl es s).role_of k ≡ leader
unfolding run
run-leader ttl [] k s led = led
run-leader ttl (e ∷ es) k s led = run-leader ttl es k (step ttl e s) (step-leader ttl e k s led)

-- A standby instance that may claim is a leader after its two calls.
claimed-leader :
    (ttl : ℕ) (j : Bytes) (s : Cluster)
    → s.role_of j ≡ standby
    → may_claim ttl s.clock j s.entry ≡ true
    → (step ttl (put j true) (step ttl (get j true) s)).role_of j ≡ leader
unfolding step get_lease put_lease
claimed-leader ttl j s waits may =
    rw (waits, get_lease, may)
      (rw (set_role-same j claiming s.role_of, put_lease)
        (set_role-same j leader (set_role j claiming s.role_of)))

-- If an instance leads and another one, on standby, may claim the lease, then after the calls of that
-- claim and any further events both of them lead.
pub run-two_leaders :
    (ttl : ℕ) (i j : Bytes) (es : List Event) (s : Cluster)
    → s.role_of i ≡ leader
    → s.role_of j ≡ standby
    → may_claim ttl s.clock j s.entry ≡ true
    → ((run ttl (get j true ∷ put j true ∷ es) s).role_of i ≡ leader)
      × ((run ttl (get j true ∷ put j true ∷ es) s).role_of j ≡ leader)
unfolding run
run-two_leaders ttl i j es s led waits may = (
  run-leader ttl (get j true ∷ put j true ∷ es) i s led,
  run-leader ttl es j _ (claimed-leader ttl j s waits may),
)
