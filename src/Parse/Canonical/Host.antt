-- ===== src/Parse/Canonical/Host.antt =====
-- How `splitAuth` takes the text of an authority apart.
use proxy_harv.Prelude.{
  true, none, some, [], ◌∷◌, ◌++◌, ◌≡◌, ◌⊎◌, inl, inr, refl, ◌∙◌, arith, All, All-append, Lacks,
  append_assoc, append-nil,
}
use proxy_harv.Text.{Bytes, index_split, last_split}
use proxy_harv.Text.Cut.{index_split-append, last_split-append, last_split-none}
use proxy_harv.Parse.Error.{ok}
use proxy_harv.Parse.Canonical.{
  all_digits, is_digits, Auth, bracket_port, split_bracket, checked_port, split_host_port,
  split_host, split_auth, opt_port,
}
use proxy_harv.Parse.Canonical.Print.{InAuthority, InPlainHost, IsHost, plain, bracketed, auth_text}

-- The port's digits hold none of the delimiters of an authority.
pub digits-lack :
    (p : Bytes) → all_digits p ≡ true → All InAuthority p × Lacks b'@' p × Lacks b':' p
unfolding all_digits
digits-lack [] h = (tt, tt, tt)
digits-lack (c ∷ p) h = ground (arith, digits-lack p)

digits-no_bracket : (p : Bytes) → all_digits p ≡ true → Lacks b'[' p
unfolding all_digits
digits-no_bracket [] h = tt
digits-no_bracket (c ∷ p) h = ground (arith, digits-no_bracket p)

pub opt_port-Lacks :
    (p : Bytes) → all_digits p ≡ true → All InAuthority (opt_port p) × Lacks b'@' (opt_port p)
opt_port-Lacks [] h = (tt, tt)
opt_port-Lacks (c ∷ p) h =
    let (a, b, d) = digits-lack (c ∷ p) h in ((omega arith, a), (omega arith, b))

plain-Lacks :
    (host : Bytes) → All InPlainHost host → Lacks b'@' host × Lacks b':' host × Lacks b'[' host
plain-Lacks [] h = (tt, tt, tt)
plain-Lacks (c ∷ host) ((a, b, d), h) =
    let (x, y, z) = plain-Lacks host h in ((a, x), (b, y), (d, z))

checked_port_digits : (a : Auth) → all_digits a.port ≡ true → checked_port a ≡ ok a
unfolding checked_port is_digits
checked_port_digits a h = ground arith

split_host_plain : (u rest : Bytes) → Lacks b'[' rest → split_host u rest ≡ split_host_port u rest
unfolding split_host
split_host_plain u [] h = refl
split_host_plain u (c ∷ rest) h = ground arith

-- The host and the port behind it, when the port is digits.
split_host_port_at :
    (u rest host port : Bytes)
    → (last_split b':' rest ≡ some (host, port))
      ⊎ ((last_split b':' rest ≡ none) × (rest ≡ host) × (port ≡ []))
    → all_digits port ≡ true
    → split_host_port u rest ≡ ok (record { userinfo = u; host = host; port = port })
unfolding split_host_port
split_host_port_at u rest host port h d =
    ground (arith, checked_port_digits (record { userinfo = u; host = host; port = port }) d)

split_host_port-append :
    (u host port : Bytes)
    → Lacks b':' host
    → all_digits port ≡ true
    → split_host_port u (host ++ opt_port port)
      ≡ ok (record { userinfo = u; host = host; port = port })
split_host_port-append u host [] h d =
    split_host_port_at u (host ++ []) host []
      (inr (rw append-nil (last_split-none b':' host h), append-nil host, refl)) d
split_host_port-append u host (c ∷ p) h d =
    split_host_port_at u (host ++ b':' ∷ c ∷ p) host (c ∷ p)
      (inl (last_split-append b':' host (c ∷ p) (digits-lack (c ∷ p) d).2)) d

bracket_port_lem : (port : Bytes) → bracket_port (opt_port port) ≡ ok port
unfolding bracket_port
bracket_port_lem [] = refl
bracket_port_lem (c ∷ p) = refl

split_host_bracket : (u rest : Bytes) → split_host u (b'[' ∷ rest) ≡ split_bracket u (b'[' ∷ rest)
unfolding split_host
split_host_bracket u rest = refl

opt_port-no_bracket : (p : Bytes) → all_digits p ≡ true → Lacks b'[' (opt_port p)
opt_port-no_bracket [] h = tt
opt_port-no_bracket (c ∷ p) h = (omega arith, digits-no_bracket (c ∷ p) h)

split_bracket-append :
    (u inner port : Bytes)
    → Lacks b']' inner
    → split_bracket u (b'[' ∷ (inner ++ b']' ∷ opt_port port))
      ≡ ok (record { userinfo = u; host = b'[' ∷ (inner ++ b']' ∷ []); port = port })
unfolding split_bracket
split_bracket-append u inner port h =
    let found : index_split b']' (b'[' ∷ (inner ++ b']' ∷ opt_port port))
        ≡ some (b'[' ∷ inner, opt_port port) =
      index_split-append b']' (b'[' ∷ inner) (opt_port port) ((λ e. absurd (omega arith)), h) in
    ground (arith, found, bracket_port_lem port)

split_host-append :
    (u host port : Bytes)
    → IsHost host
    → all_digits port ≡ true
    → split_host u (host ++ opt_port port) ≡ ok (record { userinfo = u; host = host; port = port })
split_host-append u host port (plain h) d =
    let (at, colon, bracket) = plain-Lacks host h in
    split_host_plain u (host ++ opt_port port)
      (All-append _ host (opt_port port) bracket (opt_port-no_bracket port d))
    ∙ split_host_port-append u host port colon d
split_host-append u host port (bracketed inner e at close) d = rw e (
    rw append_assoc (
      split_host_bracket u (inner ++ b']' ∷ opt_port port)
      ∙ split_bracket-append u inner port close))

pub host-Lacks_at : (host : Bytes) → IsHost host → Lacks b'@' host
host-Lacks_at host (plain h) = (plain-Lacks host h).0
host-Lacks_at host (bracketed inner e at close) = rw e (
  (λ x. absurd (omega arith)),
  All-append _ inner (b']' ∷ []) at ((λ x. absurd (omega arith)), tt),
)

split_auth_at :
    (u host port : Bytes)
    → IsHost host
    → all_digits port ≡ true
    → split_auth (auth_text (record { userinfo = u; host = host; port = port }))
      ≡ ok (record { userinfo = u; host = host; port = port })
unfolding split_auth
split_auth_at [] host port h d =
    rw
      (
        last_split-none b'@' (host ++ opt_port port)
            (All-append _ host (opt_port port) (host-Lacks_at host h) (opt_port-Lacks port d).1),
        split_auth,
      )
      (split_host-append [] host port h d)
split_auth_at (c ∷ u) host port h d =
    let lacks =
      All-append _ host (opt_port port) (host-Lacks_at host h) (opt_port-Lacks port d).1 in
    rw (append_assoc) (
      rw (last_split-append b'@' (c ∷ u) (host ++ opt_port port) lacks, split_auth)
        (split_host-append (c ∷ u) host port h d))

pub split_auth_lem :
    (a : Auth) → IsHost a.host → all_digits a.port ≡ true → split_auth (auth_text a) ≡ ok a
split_auth_lem a h d = split_auth_at a.userinfo a.host a.port h d
