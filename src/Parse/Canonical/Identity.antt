-- ===== src/Parse/Canonical/Identity.antt =====
-- What `Canonical` keeps of a link: its identity, by which links are told apart.
use mathlib.Core.List.{Perm}
use proxy_harv.Prelude.{
  false, some, List, [], ◌∷◌, ◌++◌, ◌≡◌, refl, sym, ap, ◌∙◌, arith, All, All-append, Lacks,
}
use proxy_harv.Text.{Bytes, codes, str_eq, split, join}
use proxy_harv.Text.Space.{trim}
use proxy_harv.Runtime.{Runtime, to_lower}
use proxy_harv.Parse.Error.{ok, ◌>>=◌}
use proxy_harv.Parse.Sort.{sort, sort-Perm}
use proxy_harv.Parse.Canonical.{
  scheme_split, drop_fragment, split_authority, split_path_query, split_auth, Auth, kept_pairs,
  sort_query, strip_port, write_uri, canonical_plain, canonical_of, canonical_trimmed, canonical,
  hash, canonical_hash, opt_query, opt_port, opt_userinfo,
}
use proxy_harv.Parse.Canonical.Print.{
  Link, IsLink, IsFragment, InAuthority, link_text, auth_text, tail_text, write_uri-link_text,
  scheme_split-append, drop_fragment-append, split_authority-append, tail_text-IsTail, path-Lacks,
  split_path_query_lem,
}
use proxy_harv.Parse.Canonical.Host.{split_auth_lem, opt_port-Lacks}

-- What of a query counts: its pairs that are not empty.
abbrev pub pairs_of : Bytes → List Bytes
pairs_of query = kept_pairs (split b'&' query)

sort_query_lem : (q : Bytes) → sort_query q ≡ join b'&' (sort (pairs_of q))
unfolding sort_query
sort_query_lem [] = refl
sort_query_lem (c ∷ q) = refl

sort_query-Perm : (q r : Bytes) → Perm (pairs_of q) (pairs_of r) → sort_query q ≡ sort_query r
sort_query-Perm q r p = rw (sort_query_lem q) (rw (sort_query_lem r) (ap (join b'&') (sort-Perm p)))

-- Scheme and host in lower case, no default port, the pairs of the query in order.
unfoldable pub normal : Runtime → Link → Link
normal rt l = record {
  scheme = to_lower rt l.scheme;
  auth = record l.auth {
    host = to_lower rt l.auth.host;
    port = strip_port (to_lower rt l.scheme) l.auth.port;
  };
  path = l.path;
  query = sort_query l.query;
}

All-InAuthority-Lacks : (s : Bytes) → All InAuthority s → Lacks b'#' s
All-InAuthority-Lacks [] h = tt
All-InAuthority-Lacks (c ∷ s) (h, hs) = (h.2, All-InAuthority-Lacks s hs)

opt_userinfo-InAuthority : (u : Bytes) → All InAuthority u → All InAuthority (opt_userinfo u)
opt_userinfo-InAuthority [] h = tt
opt_userinfo-InAuthority (c ∷ u) h = All-append _ (c ∷ u) (b'@' ∷ []) h (omega arith)

auth_text-InAuthority : (l : Link) → IsLink l → All InAuthority (auth_text l.auth)
auth_text-InAuthority l h =
    All-append _ (opt_userinfo l.auth.userinfo) (l.auth.host ++ opt_port l.auth.port)
      (opt_userinfo-InAuthority l.auth.userinfo h.userinfo_ok)
      (All-append _ l.auth.host (opt_port l.auth.port) h.host_bytes
        (opt_port-Lacks l.auth.port h.port_ok).0)

opt_query-Lacks : (q : Bytes) → Lacks b'#' q → Lacks b'#' (opt_query q)
opt_query-Lacks [] h = tt
opt_query-Lacks (c ∷ q) h = ((λ e. absurd (omega arith)), h)

pub body-Lacks : (l : Link) → IsLink l → Lacks b'#' (auth_text l.auth ++ tail_text l.path l.query)
body-Lacks l h =
    All-append _ (auth_text l.auth) (tail_text l.path l.query)
      (All-InAuthority-Lacks (auth_text l.auth) (auth_text-InAuthority l h))
      (All-append _ l.path (opt_query l.query) (path-Lacks l.path h.path_ok).1
        (opt_query-Lacks l.query h.query_ok))

module _ (rt : Runtime) where
  normal-reordered :
      (l : Link) (query : Bytes)
      → Perm (pairs_of l.query) (pairs_of query)
      → normal rt l ≡ normal rt (record l { query = query })
  unfolding normal
  normal-reordered l query p =
      ap
        (λ q. record {
          scheme = to_lower rt l.scheme;
          auth = record l.auth {
            host = to_lower rt l.auth.host;
            port = strip_port (to_lower rt l.scheme) l.auth.port;
          };
          path = l.path;
          query = q;
        })
        (sort_query-Perm l.query query p)

  canonical_plain_parts :
      (scheme rest body auth tail path query : Bytes) (a : Auth)
      → drop_fragment rest ≡ body
      → split_authority body ≡ (auth, tail)
      → split_path_query tail ≡ (path, query)
      → split_auth auth ≡ ok a
      → canonical_plain rt scheme rest
        ≡ ok (
            write_uri scheme
              (record a { host = to_lower rt a.host; port = strip_port scheme a.port })
              path
              (sort_query query))
  unfolding canonical_plain
  canonical_plain_parts scheme rest body auth tail path query a e f g h = ground arith

  canonical_of_plain :
      (s scheme rest : Bytes)
      → str_eq scheme (codes "vmess") ≡ false
      → canonical_of rt s scheme rest ≡ canonical_plain rt scheme rest
  unfolding canonical_of
  canonical_of_plain s scheme rest h = rw h

  pub canonical_trimmed_split :
      (s scheme rest : Bytes)
      → scheme_split s ≡ some (scheme, rest)
      → canonical_trimmed rt s ≡ canonical_of rt s (to_lower rt scheme) rest
  unfolding canonical_trimmed
  canonical_trimmed_split [] scheme rest h = unfold scheme_split in cc
  canonical_trimmed_split (c ∷ s) scheme rest h = ground arith

  canonical-link_at :
      (l : Link) (fragment : Bytes)
      → IsLink l
      → IsFragment fragment
      → canonical_plain rt
          (to_lower rt l.scheme)
          ((auth_text l.auth ++ tail_text l.path l.query) ++ fragment)
        ≡ ok (link_text (normal rt l) [])
  unfolding normal
  canonical-link_at l fragment h f =
      canonical_plain_parts (to_lower rt l.scheme) _ (auth_text l.auth ++ tail_text l.path l.query)
        (auth_text l.auth) (tail_text l.path l.query) l.path l.query l.auth
        (drop_fragment-append _ fragment (body-Lacks l h) f)
        (split_authority-append (auth_text l.auth) (tail_text l.path l.query)
          (auth_text-InAuthority l h) (tail_text-IsTail l.path l.query h.path_ok))
        (split_path_query_lem l.path l.query h.path_ok) (split_auth_lem l.auth h.host_ok h.port_ok)
      ∙ ap ok (write_uri-link_text (normal rt l))

  -- For every well-formed link whose scheme is not vmess, whose text is not changed by trimming,
  -- `Canonical` of the text, with any fragment or none, is the text of the link with scheme and
  -- host in lower case, without a default port, with its query pairs sorted and no fragment.
  pub canonical-link_text :
      (l : Link) (fragment : Bytes)
      → IsLink l
      → IsFragment fragment
      → str_eq (to_lower rt l.scheme) (codes "vmess") ≡ false
      → trim (link_text l fragment) ≡ link_text l fragment
      → canonical rt (link_text l fragment) ≡ ok (link_text (normal rt l) [])
  unfolding canonical
  canonical-link_text l fragment h f plain trimmed = rw trimmed (
      canonical_trimmed_split (link_text l fragment) l.scheme _
        (scheme_split-append l.scheme _ h.scheme_ok)
      ∙ canonical_of_plain (link_text l fragment) (to_lower rt l.scheme)
          ((auth_text l.auth ++ tail_text l.path l.query) ++ fragment) plain
      ∙ canonical-link_at l fragment h f)

  pub canonical_hash_of :
      (s t : Bytes) → canonical rt s ≡ canonical rt t → canonical_hash rt s ≡ canonical_hash rt t
  unfolding canonical_hash
  canonical_hash_of s t h = ap (λ r. r >>= λ x. ok (x, hash rt x)) h

  -- Two texts of a well-formed link that is no vmess link, of which the second has its query pairs
  -- in another order, with other empty pairs, and another fragment or none, have the same
  -- canonical form and the same hash, when trimming changes neither text.
  pub canonical_hash-reordered :
      (l : Link) (query fragment fragment' : Bytes)
      → IsLink l
      → IsLink (record l { query = query })
      → Perm (pairs_of l.query) (pairs_of query)
      → IsFragment fragment
      → IsFragment fragment'
      → str_eq (to_lower rt l.scheme) (codes "vmess") ≡ false
      → trim (link_text l fragment) ≡ link_text l fragment
      → trim (link_text (record l { query = query }) fragment')
        ≡ link_text (record l { query = query }) fragment'
      → canonical_hash rt (link_text l fragment)
        ≡ canonical_hash rt (link_text (record l { query = query }) fragment')
  canonical_hash-reordered l query fragment fragment' h h' p f f' plain t t' =
      canonical_hash_of (link_text l fragment) (link_text (record l { query = query }) fragment') (
        canonical-link_text l fragment h f plain t
        ∙ ap (λ x. ok (link_text x [])) (normal-reordered l query p)
        ∙ sym (canonical-link_text (record l { query = query }) fragment' h' f' plain t'))
