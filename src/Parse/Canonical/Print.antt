-- ===== src/Parse/Canonical/Print.antt =====
-- Well-formed links, and how the helpers of `Canonical` take their text apart.
use proxy_harv.Prelude.{
  ℕ, true, some, [], ◌∷◌, ◌++◌, ◌≡◌, ◌≢◌, ◌⊎◌, inl, inr, refl, arith, All, Lacks, append_assoc,
  append-nil,
}
use proxy_harv.Text.{Bytes, codes, strip_prefix, prepend}
use proxy_harv.Text.Cut.{index_split-append, index_split-none}
use proxy_harv.Parse.Canonical.{
  scheme_split, drop_fragment, split_authority, split_path_query, all_digits, Auth, opt_userinfo,
  opt_port, opt_query, write_uri,
}

pub record Link : Type 0 where
  pub scheme : Bytes
  pub auth : Auth
  pub path : Bytes
  pub query : Bytes

-- What may stand in front of a path.
abbrev pub InAuthority : ℕ → Type 0
InAuthority c = (c ≢ b'/') × (c ≢ b'?') × (c ≢ b'#')

abbrev pub InPlainHost : ℕ → Type 0
InPlainHost c = (c ≢ b'@') × (c ≢ b':') × (c ≢ b'[')

-- A name or an IPv4 address, or an IPv6 address in brackets.
pub data IsHost : Bytes → Type 0 where
  plain : {host : Bytes} → All InPlainHost host → IsHost host
  bracketed :
      {host : Bytes} (inner : Bytes)
      → host ≡ b'[' ∷ (inner ++ b']' ∷ [])
      → Lacks b'@' inner
      → Lacks b']' inner
      → IsHost host

abbrev pub IsPath : Bytes → Type 0
IsPath [] = Unit
IsPath (c ∷ p) = (c ≡ b'/') × Lacks b'?' p × Lacks b'#' p

-- The parts of a link can be told apart in its text.
pub record IsLink (l : Link) : Type 0 where
  pub scheme_ok : Lacks b':' l.scheme
  pub userinfo_ok : All InAuthority l.auth.userinfo
  pub host_bytes : All InAuthority l.auth.host
  pub host_ok : IsHost l.auth.host
  pub port_ok : all_digits l.auth.port ≡ true
  pub path_ok : IsPath l.path
  pub query_ok : Lacks b'#' l.query

abbrev pub auth_text : Auth → Bytes
auth_text a = opt_userinfo a.userinfo ++ (a.host ++ opt_port a.port)

abbrev pub tail_text : Bytes → Bytes → Bytes
tail_text path query = path ++ opt_query query

-- The text of a link, in front of a fragment.
abbrev pub link_text : Link → Bytes → Bytes
link_text l fragment =
    l.scheme ++ (codes "://" ++ ((auth_text l.auth ++ tail_text l.path l.query) ++ fragment))

-- No fragment, or '#' and a name.
pub data IsFragment : Bytes → Type 0 where
  absent : IsFragment []
  named : (name : Bytes) → IsFragment (b'#' ∷ name)

pub write_uri-link_text : (l : Link) → write_uri l.scheme l.auth l.path l.query ≡ link_text l []
unfolding write_uri
write_uri-link_text l = simp (append_assoc, append-nil)

pub scheme_split-append :
    (scheme rest : Bytes)
    → Lacks b':' scheme
    → scheme_split (scheme ++ (codes "://" ++ rest)) ≡ some (scheme, rest)
unfolding scheme_split strip_prefix prepend
scheme_split-append [] rest h = refl
scheme_split-append (c ∷ s) rest h = ground (arith, scheme_split-append s rest h.1)

pub drop_fragment-append :
    (body fragment : Bytes)
    → Lacks b'#' body
    → IsFragment fragment
    → drop_fragment (body ++ fragment) ≡ body
unfolding drop_fragment
drop_fragment-append body _ h absent =
    rw append-nil (rw (index_split-none b'#' body h, drop_fragment) refl)
drop_fragment-append body _ h (named name) =
    rw (index_split-append b'#' body name h, drop_fragment) refl

abbrev pub IsTail : Bytes → Type 0
IsTail [] = Unit
IsTail (c ∷ t) = (c ≡ b'/') ⊎ (c ≡ b'?')

pub split_authority-append :
    (auth tail : Bytes)
    → All InAuthority auth
    → IsTail tail
    → split_authority (auth ++ tail) ≡ (auth, tail)
unfolding split_authority
split_authority-append [] [] h t = refl
split_authority-append [] (c ∷ tail) h t = ground arith
split_authority-append (c ∷ auth) tail h t =
    rw (split_authority-append auth tail h.1 t) (ground arith)

pub tail_text-IsTail : (path query : Bytes) → IsPath path → IsTail (tail_text path query)
tail_text-IsTail [] [] h = tt
tail_text-IsTail [] (c ∷ q) h = inr refl
tail_text-IsTail (c ∷ p) q h = inl h.0

slash_ne : (c : ℕ) → c ≡ b'/' → (c ≢ b'?') × (c ≢ b'#')
slash_ne c e = omega arith

pub path-Lacks : (path : Bytes) → IsPath path → Lacks b'?' path × Lacks b'#' path
path-Lacks [] h = (tt, tt)
path-Lacks (c ∷ p) (e, q, f) = (((slash_ne c e).0, q), ((slash_ne c e).1, f))

pub split_path_query_lem :
    (path query : Bytes) → IsPath path → split_path_query (tail_text path query) ≡ (path, query)
unfolding split_path_query
split_path_query_lem path [] h =
    rw append-nil (rw (index_split-none b'?' path (path-Lacks path h).0, split_path_query) refl)
split_path_query_lem path (c ∷ q) h =
    rw (index_split-append b'?' path (c ∷ q) (path-Lacks path h).0, split_path_query) refl
