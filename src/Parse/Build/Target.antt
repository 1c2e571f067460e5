-- ===== src/Parse/Build/Target.antt =====
-- What an outbound dials, and which transports the builders name.
use proxy_harv.Prelude.{
  Bool, true, false, Option, none, some, [], ◌∷◌, ◌≡◌, refl, ◌∙◌, arith, if◌then◌else◌, Bool-cases,
  inl, inr,
}
use proxy_harv.Text.{Bytes, codes, str_eq, str_eq_iff, cut}
use proxy_harv.Text.Number.{ℤ, is_positive}
use proxy_harv.Parse.Error.{Result, ok, err, ◌>>=◌}
use proxy_harv.Parse.Params.{Pairs, unescape_or_raw}
use proxy_harv.Parse.Outbound.{
  Json, string, int, object, Fields, end, field, put, put_if, put_text, field_of, put_transport,
}
use proxy_harv.Parse.Build.{vless_tls, put_flow, put_obfs, put_positive, put_credentials}

-- The property holds of what is returned, if anything is.
abbrev pub AllOk {ℓ} : {A : Type ℓ} → (A → Type 0) → Result A → Type 0
AllOk P (ok a) = P a
AllOk P (err e) = Unit

pub AllOk-bind {ℓ κ} :
    {A : Type ℓ} {B : Type κ} (P : B → Type 0) (m : Result A) (f : A → Result B)
    → ((a : A) → AllOk P (f a))
    → AllOk P (m >>= f)
AllOk-bind P (ok a) f h = h a
AllOk-bind P (err e) f h = tt

pub AllOk-if {ℓ} :
    {A : Type ℓ} (P : A → Type 0) (b : Bool) (m n : Result A)
    → AllOk P m
    → AllOk P n
    → AllOk P (if b then m else n)
AllOk-if P true m n h k = h
AllOk-if P false m n h k = k

pub AllOk-ok {ℓ} : {A : Type ℓ} (P : A → Type 0) (m : Result A) {a : A} → AllOk P m → m ≡ ok a → P a
AllOk-ok P m h e = rw e at h

-- The outbound has this server and port.
abbrev pub Dials : Bytes → ℤ → Fields → Type 0
Dials host port out =
    (field_of (codes "server") out ≡ some (string host))
    × (field_of (codes "server_port") out ≡ some (int port))

field_of-put :
    (k j : Bytes) (v : Json) (out : Fields)
    → str_eq k j ≡ false
    → field_of k (put j v out) ≡ field_of k out
unfolding field_of put
field_of-put k j v end h = rw h refl
field_of-put k j v (field i w out) h =
    ground (arith, field_of-put k j v out h, str_eq_iff j i, str_eq_iff k i, str_eq_iff k j)

-- Neither of the two keys that say where to dial.
abbrev IsOtherKey : Bytes → Type 0
IsOtherKey k = (str_eq (codes "server") k ≡ false) × (str_eq (codes "server_port") k ≡ false)

module _ (host : Bytes) (port : ℤ) where
  pub Dials-put :
      (k : Bytes) (v : Json) (out : Fields)
      → IsOtherKey k
      → Dials host port out
      → Dials host port (put k v out)
  Dials-put k v out (h, h') (d, d') = (
    field_of-put (codes "server") k v out h ∙ d,
    field_of-put (codes "server_port") k v out h' ∙ d',
  )

  pub Dials-put_if :
      (b : Bool) (k : Bytes) (v : Json) (out : Fields)
      → IsOtherKey k
      → Dials host port out
      → Dials host port (put_if b k v out)
  Dials-put_if true k v out h d = Dials-put k v out h d
  Dials-put_if false k v out h d = d

  pub Dials-put_text :
      (k s : Bytes) (out : Fields)
      → IsOtherKey k
      → Dials host port out
      → Dials host port (put_text k s out)
  Dials-put_text k [] out h d = d
  Dials-put_text k (c ∷ s) out h d = Dials-put k (string (c ∷ s)) out h d

  pub Dials-put_transport :
      (t : Option Fields) (out : Fields)
      → Dials host port out
      → Dials host port (put_transport t out)
  unfolding put_transport str_eq
  Dials-put_transport none out d = d
  Dials-put_transport (some t) out d = Dials-put (codes "transport") (object t) out (refl, refl) d

  pub Dials-vless_tls :
      (security : Bytes) (q : Pairs) (name : Bytes) (out : Fields)
      → Dials host port out
      → Dials host port (vless_tls security q name out)
  unfolding vless_tls str_eq
  Dials-vless_tls security q name out d = elim (Bool-cases (str_eq security (codes "reality"))) [
    | inl e ↦ rw (e, vless_tls) (Dials-put (codes "tls") _ out (refl, refl) d)
    | inr e ↦ (elim (Bool-cases (str_eq security (codes "tls"))) [
      | inl f ↦ rw (e, f, vless_tls) (Dials-put (codes "tls") _ out (refl, refl) d)
      | inr f ↦ rw (e, f, vless_tls) d
    ])
  ]

  pub Dials-put_flow :
      (o : Option Bytes) (out : Fields) → Dials host port out → Dials host port (put_flow o out)
  unfolding str_eq
  Dials-put_flow none out d = d
  Dials-put_flow (some s) out d = Dials-put_text (codes "flow") s out (refl, refl) d

  pub Dials-put_obfs :
      (s : Bytes) (out : Fields) → Dials host port out → Dials host port (put_obfs s out)
  unfolding str_eq
  Dials-put_obfs [] out d = d
  Dials-put_obfs (c ∷ s) out d = Dials-put (codes "obfs") _ out (refl, refl) d

  pub Dials-put_positive :
      (k : Bytes) (v : ℤ) (out : Fields)
      → IsOtherKey k
      → Dials host port out
      → Dials host port (put_positive k v out)
  unfolding put_positive
  Dials-put_positive k v out h d = Dials-put_if (is_positive v) k (int v) out h d

  pub Dials-put_credentials :
      (s : Bytes) (out : Fields) → Dials host port out → Dials host port (put_credentials s out)
  unfolding put_credentials str_eq
  Dials-put_credentials [] out d = d
  Dials-put_credentials (c ∷ s) out d =
      let ui = unescape_or_raw (c ∷ s) in
      elim (Bool-cases (cut b':' ui).2) [
        | inl e ↦
            rw (e, put_credentials)
              (Dials-put (codes "password") _ _ (refl, refl)
                (Dials-put (codes "username") _ out (refl, refl) d))
        | inr e ↦ rw (e, put_credentials) (Dials-put (codes "username") _ out (refl, refl) d)
      ]
