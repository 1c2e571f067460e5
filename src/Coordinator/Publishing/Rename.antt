-- ===== src/Coordinator/Publishing/Rename.antt =====
-- The identity of a link and its readable name.
use proxy_harv.Prelude.{
  ℕ, false, [], ◌∷◌, ◌++◌, ◌≡◌, ◌≢◌, refl, sym, ap, ◌∙◌, arith, All, All-append, Lacks,
  append_assoc, append-nil,
}
use proxy_harv.Text.{Bytes, codes, str_eq}
use proxy_harv.Text.Space.{IsGraphic, trim, trim_solid}
use proxy_harv.Text.Cut.{index_split-append, index_split-none}
use proxy_harv.Text.Number.{ℤ}
use proxy_harv.Text.Url.{query_escape}
use proxy_harv.Runtime.{Runtime, to_lower}
use proxy_harv.Base64.RoundTrip.{IsByte}
use proxy_harv.Model.{Class}
use proxy_harv.Parse.Canonical.{canonical_hash}
use proxy_harv.Parse.Canonical.Print.{
  Link, IsLink, IsFragment, absent, named, link_text, auth_text, tail_text,
}
use proxy_harv.Parse.Canonical.Identity.{body-Lacks, canonical-link_text, canonical_hash_of}
use proxy_harv.Parse.Many.Encoded.{last_byte}
use proxy_harv.Coordinator.Publishing.{base_of, label_of, class_name, rename_fragment}
use proxy_harv.Coordinator.Publishing.Body.{query_escape-All, label_of-All, class_name-All}

-- The text of a link in front of the fragment.
abbrev front : Link → Bytes
front l = l.scheme ++ (codes "://" ++ (auth_text l.auth ++ tail_text l.path l.query))

front-append : (l : Link) (fragment : Bytes) → front l ++ fragment ≡ link_text l fragment
front-append l fragment = simp append_assoc

base_of-append :
    (s fragment : Bytes) → Lacks b'#' s → IsFragment fragment → base_of (s ++ fragment) ≡ s
unfolding base_of
base_of-append s fragment h absent =
    rw (append-nil s) (rw (index_split-none b'#' s h, base_of) refl)
base_of-append s fragment h (named name) = rw (index_split-append b'#' s name h, base_of) refl

front-Lacks : (l : Link) → IsLink l → Lacks b'#' l.scheme → Lacks b'#' (front l)
front-Lacks l h hs =
    All-append (λ c. c ≢ b'#') l.scheme _ hs
      (
        λ e. absurd (omega (arith, e)),
        (λ e. absurd (omega (arith, e)), (λ e. absurd (omega (arith, e)), body-Lacks l h)),
      )

last_behind :
    (a s : Bytes) (c : ℕ)
    → All IsGraphic (c ∷ s)
    → (m : Bytes) × (d : ℕ) × (a ++ c ∷ s ≡ m ++ d ∷ []) × IsGraphic d
last_behind a s c h =
    let (m, d, e, p) = last_byte {P = IsGraphic} c s h in
    (a ++ m, d, ap (a ++◌) e ∙ sym (append_assoc a m (d ∷ [])), p)

trim-graphic :
    (a s fragment : Bytes) (b c : ℕ)
    → a ≡ b ∷ s
    → IsGraphic b
    → All IsGraphic (c ∷ fragment)
    → trim (a ++ c ∷ fragment) ≡ a ++ c ∷ fragment
trim-graphic a s fragment b c e hb h =
    let (m, d, eq, hd) = last_behind (b ∷ s) fragment c h in
    rw e (trim_solid b d (s ++ c ∷ fragment) m eq hb hd)

module _ (rt : Runtime) where
  -- Take a well-formed link that is no vmess link, whose scheme has no '#' and begins with a graphic
  -- ASCII byte, with any fragment or none, in a text that trimming does not change. Then
  -- `renameFragment` of the text, for any names of country and city that are bytes, any latency
  -- and any class, has the same canonical form and the same hash.
  pub canonical_hash-rename_fragment :
      (l : Link) (fragment cc city : Bytes) (ms : ℤ) (class : Class) (first : ℕ) (rest : Bytes)
      → IsLink l
      → IsFragment fragment
      → str_eq (to_lower rt l.scheme) (codes "vmess") ≡ false
      → Lacks b'#' l.scheme
      → l.scheme ≡ first ∷ rest
      → IsGraphic first
      → trim (link_text l fragment) ≡ link_text l fragment
      → All IsByte cc
      → All IsByte city
      → canonical_hash rt (rename_fragment (link_text l fragment) cc city ms (class_name class))
        ≡ canonical_hash rt (link_text l fragment)
  unfolding rename_fragment
  canonical_hash-rename_fragment l fragment cc city ms class first rest h f plain hs e hb t hcc
        hcity =
      let name = query_escape (label_of cc city ms (class_name class)) in
      let graphic =
        query_escape-All (label_of cc city ms (class_name class))
          (label_of-All cc city ms (class_name class) hcc hcity (class_name-All class)) in
      let renamed : base_of (link_text l fragment) ++ b'#' ∷ name ≡ link_text l (b'#' ∷ name) =
        ap (◌++ (b'#' ∷ name)) (
          ap base_of (sym (front-append l fragment))
          ∙ base_of-append (front l) fragment (front-Lacks l h hs) f)
        ∙ front-append l (b'#' ∷ name) in
      let trimmed : trim (link_text l (b'#' ∷ name)) ≡ link_text l (b'#' ∷ name) =
        rw (← front-append l (b'#' ∷ name)) (
          trim-graphic (front l) _ name first b'#'
            (ap (λ s. s ++ (codes "://" ++ (auth_text l.auth ++ tail_text l.path l.query))) e) hb
            (ground arith, graphic)) in
      rw renamed (
        canonical_hash_of rt (link_text l (b'#' ∷ name)) (link_text l fragment) (
          canonical-link_text rt l (b'#' ∷ name) h (named name) plain trimmed
          ∙ sym (canonical-link_text rt l fragment h f plain t)))
