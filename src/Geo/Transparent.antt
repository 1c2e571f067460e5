-- ===== src/Geo/Transparent.antt =====
-- The resolver against one without a cache, while names keep their addresses.
use mathlib.Core.Path.{ap₂}
use proxy_harv.Prelude.{
  ℕ, ◌+◌, Option, none, some, List, [], ◌∷◌, ltb, map, ◌≡◌, refl, ◌∙◌, Bool-cases, Option-cases,
  inl, inr,
}
use proxy_harv.Text.{Bytes, str_eq, str_eq_iff}
use proxy_harv.Keyed.{value_at, value_at-update_at}
use proxy_harv.Geo.{
  normalize_host, Network, CacheEntry, Cache, cached, store_entry, from_cache, look_up,
  resolve_name, resolve,
}
use proxy_harv.Geo.Cache.{Query, resolve_all}

module _ (net : Network) (ttl : ℕ) where
  -- A resolver without a cache: the literal address, or what a lookup finds at the time of the call.
  abbrev pub found : Option (List net.Ip) → List net.Ip
  found none = []
  found (some ips) = ips

  unfoldable pub fresh_of : Option net.Ip → ℕ → Bytes → List net.Ip
  fresh_of (some ip) now host = ip ∷ []
  fresh_of none now host = found (net.lookup_ip now host)

  abbrev pub fresh : Query → List net.Ip
  fresh q = fresh_of (net.parse_ip (normalize_host q.host)) q.now (normalize_host q.host)

  abbrev TrueEntry : ℕ → Bytes → Option (CacheEntry net) → Type 0
  TrueEntry t host none = Unit
  TrueEntry t host (some e) = net.lookup_ip t host ≡ some e.ips

  -- Every entry is what a lookup of its host finds at any time.
  abbrev IsTrue : Cache net → Type 0
  IsTrue c = (host : Bytes) (t : ℕ) → TrueEntry t host (cached net host c)

  store_entry-IsTrue :
      (host : Bytes) (e : CacheEntry net) (c : Cache net)
      → ((t : ℕ) → net.lookup_ip t host ≡ some e.ips)
      → IsTrue c
      → IsTrue (store_entry net host e c)
  unfolding store_entry cached
  store_entry-IsTrue host e c a h k t =
      rw (value_at-update_at none (λ _. some e) k host c) (elim (Bool-cases (str_eq k host)) [
        | inl same ↦ rw same (rw ((str_eq_iff k host).0 same) (a t))
        | inr other ↦ rw other (h k t)
      ])

  -- What a call returns is what a lookup finds, and the cache stays true.
  abbrev IsTransparent : ℕ → Bytes → List net.Ip × Cache net → Type 0
  IsTransparent now host r = (r.0 ≡ found (net.lookup_ip now host)) × IsTrue r.1

  look_up-IsTransparent :
      (now took : ℕ) (host : Bytes) (c : Cache net)
      → ((t u : ℕ) → net.lookup_ip t host ≡ net.lookup_ip u host)
      → IsTrue c
      → IsTransparent now host (look_up net ttl now took host c)
  unfolding look_up
  look_up-IsTransparent now took host c steady hc = elim (Option-cases (net.lookup_ip now host)) [
    | inl e ↦ rw (e, look_up) (refl, hc)
    | inr ([], e) ↦ rw (e, look_up) (refl, hc)
    | inr (ip ∷ ips, e) ↦
        rw (e, look_up)
          (
            refl,
            store_entry-IsTrue host (record { ips = ip ∷ ips; expires = now + took + ttl }) c
                (λ t. steady t now ∙ e) hc,
          )
  ]

  resolve_name-IsTransparent :
      (now took : ℕ) (host : Bytes) (c : Cache net)
      → ((t u : ℕ) → net.lookup_ip t host ≡ net.lookup_ip u host)
      → IsTrue c
      → IsTransparent now host (resolve_name net ttl now took host c)
  unfolding resolve_name from_cache
  resolve_name-IsTransparent now took host c steady hc = elim (Option-cases (cached net host c)) [
    | inl e ↦ rw (e, resolve_name) (look_up-IsTransparent now took host c steady hc)
    | inr (entry, e) ↦ (elim (Bool-cases (ltb now entry.expires)) [
      | inl f ↦
          let a : TrueEntry now host (some entry) = rw e at (hc host now) in
          rw (e, f, resolve_name) (rw a refl, hc)
      | inr f ↦ rw (e, f, resolve_name) (look_up-IsTransparent now took host c steady hc)
    ])
  ]

  resolve_transparent :
      (q : Query) (c : Cache net)
      → ((t u : ℕ) (host : Bytes) → net.lookup_ip t host ≡ net.lookup_ip u host)
      → IsTrue c
      → ((resolve net ttl q.now q.took q.host c).0 ≡ fresh q)
        × IsTrue (resolve net ttl q.now q.took q.host c).1
  unfolding resolve fresh_of
  resolve_transparent q c steady hc =
      let host = normalize_host q.host in
      elim (Option-cases (net.parse_ip host)) [
        | inl e ↦
            rw (e, resolve)
              (resolve_name-IsTransparent q.now q.took host c (λ t u. steady t u host) hc)
        | inr (ip, e) ↦ rw (e, resolve) (refl, hc)
      ]

  resolve_all_true :
      (qs : List Query) (c : Cache net)
      → ((t u : ℕ) (host : Bytes) → net.lookup_ip t host ≡ net.lookup_ip u host)
      → IsTrue c
      → resolve_all net ttl qs c ≡ map (λ q. (q, fresh q)) qs
  unfolding resolve_all
  resolve_all_true [] c steady hc = refl
  resolve_all_true (q ∷ qs) c steady hc =
      let (same, hc') = resolve_transparent q c steady hc in
      ap₂ (λ ips rest. (q, ips) ∷ rest) same (resolve_all_true qs _ steady hc')

  -- If the addresses of a name do not change with time, then a new resolver gives, in any sequence of
  -- calls, at any times and with any time to live, the answers of a resolver without a cache.
  pub resolve_all-fresh :
      (qs : List Query)
      → ((t u : ℕ) (host : Bytes) → net.lookup_ip t host ≡ net.lookup_ip u host)
      → resolve_all net ttl qs [] ≡ map (λ q. (q, fresh q)) qs
  unfolding cached value_at
  resolve_all-fresh qs steady = resolve_all_true qs [] steady (λ host t. tt)
