-- ===== src/Geo/Cache.antt =====
-- How old the answers of the resolver are.
use proxy_harv.Prelude.{
  ℕ, ◌+◌, ◌≤◌, ◌<◌, true, Option, none, some, List, [], ◌∷◌, ltb, ltb→lt, ◌≡◌, ◌⊎◌, inl, inr, refl,
  arith, All, Bool-cases, Option-cases,
}
use proxy_harv.Text.{Bytes, str_eq, str_eq_iff}
use proxy_harv.Keyed.{value_at, value_at-update_at}
use proxy_harv.Geo.{
  normalize_host, Network, CacheEntry, Cache, cached, store_entry, from_cache, look_up,
  resolve_name, resolve,
}

-- A call: its time, the time that a lookup takes, and the host.
pub record Query : Type 0 where
  pub now : ℕ
  pub took : ℕ
  pub host : Bytes

module _ (net : Network) (ttl : ℕ) where
  -- If there is an entry, it holds what a lookup of the host found, and ends at most `limit` and the
  -- time to live after the lookup began.
  abbrev pub IsAnswer : ℕ → Bytes → Option (CacheEntry net) → Type 0
  IsAnswer limit host none = Unit
  IsAnswer limit host (some e) =
      (t : ℕ) × (net.lookup_ip t host ≡ some e.ips) × (e.expires ≤ t + limit + ttl)

  abbrev pub IsCache : ℕ → Cache net → Type 0
  IsCache limit c = (host : Bytes) → IsAnswer limit host (cached net host c)

  empty-IsCache : (limit : ℕ) → IsCache limit []
  unfolding cached value_at
  empty-IsCache limit host = tt

  store_entry-IsCache :
      (limit : ℕ) (host : Bytes) (e : CacheEntry net) (c : Cache net)
      → IsAnswer limit host (some e)
      → IsCache limit c
      → IsCache limit (store_entry net host e c)
  unfolding store_entry cached
  store_entry-IsCache limit host e c a h k =
      rw (value_at-update_at none (λ _. some e) k host c) (elim (Bool-cases (str_eq k host)) [
        | inl same ↦ rw same (rw ((str_eq_iff k host).0 same) a)
        | inr other ↦ rw other (h k)
      ])

  -- Nothing, or what a lookup found that began less than `limit` and the time to live ago.
  abbrev pub IsRecent : ℕ → ℕ → Bytes → List net.Ip → Type 0
  IsRecent limit now host ips =
      (ips ≡ []) ⊎ ((t : ℕ) × (net.lookup_ip t host ≡ some ips) × (now < t + limit + ttl))

  -- What a call returns, and the cache that it leaves.
  abbrev pub IsGood : ℕ → ℕ → Bytes → List net.Ip × Cache net → Type 0
  IsGood limit now host r = IsRecent limit now host r.0 × IsCache limit r.1

  look_up-IsGood :
      (limit now took : ℕ) (host : Bytes) (c : Cache net)
      → 0 < ttl
      → took ≤ limit
      → IsCache limit c
      → IsGood limit now host (look_up net ttl now took host c)
  unfolding look_up
  look_up-IsGood limit now took host c pt h hc = elim (Option-cases (net.lookup_ip now host)) [
    | inl e ↦ rw (e, look_up) (inl refl, hc)
    | inr ([], e) ↦ rw (e, look_up) (inl refl, hc)
    | inr (ip ∷ ips, e) ↦
        rw (e, look_up)
          (
            inr (now, e, omega (arith, pt)),
            store_entry-IsCache limit host (record { ips = ip ∷ ips; expires = now + took + ttl }) c
                (now, e, omega (arith, h)) hc,
          )
  ]

  hit-IsRecent :
      (limit now : ℕ) (host : Bytes) (e : CacheEntry net)
      → IsAnswer limit host (some e)
      → ltb now e.expires ≡ true
      → IsRecent limit now host e.ips
  hit-IsRecent limit now host e (t, found, old) lt =
      let lt' = ltb→lt now e.expires lt in inr (t, found, omega (arith, old, lt'))

  resolve_name-IsGood :
      (limit now took : ℕ) (host : Bytes) (c : Cache net)
      → 0 < ttl
      → took ≤ limit
      → IsCache limit c
      → IsGood limit now host (resolve_name net ttl now took host c)
  unfolding resolve_name from_cache
  resolve_name-IsGood limit now took host c pt h hc = elim (Option-cases (cached net host c)) [
    | inl e ↦ rw (e, resolve_name) (look_up-IsGood limit now took host c pt h hc)
    | inr (entry, e) ↦ (elim (Bool-cases (ltb now entry.expires)) [
      | inl f ↦
          let a : IsAnswer limit host (some entry) = rw e at (hc host) in
          rw (e, f, resolve_name) (hit-IsRecent limit now host entry a f, hc)
      | inr f ↦ rw (e, f, resolve_name) (look_up-IsGood limit now took host c pt h hc)
    ])
  ]

  -- The answer to a literal address is the address, and to a name a recent answer.
  unfoldable pub IsAnswerOf : Option net.Ip → ℕ → ℕ → Bytes → List net.Ip → Type 0
  IsAnswerOf (some ip) limit now host ips = ips ≡ ip ∷ []
  IsAnswerOf none limit now host ips = IsRecent limit now host ips

  abbrev pub IsAnswered : ℕ → ℕ → Bytes → List net.Ip → Type 0
  IsAnswered limit now host ips =
      IsAnswerOf (net.parse_ip (normalize_host host)) limit now (normalize_host host) ips

  resolve-IsAnswered :
      (limit now took : ℕ) (host : Bytes) (c : Cache net)
      → 0 < ttl
      → took ≤ limit
      → IsCache limit c
      → IsAnswered limit now host (resolve net ttl now took host c).0
        × IsCache limit (resolve net ttl now took host c).1
  unfolding resolve IsAnswerOf
  resolve-IsAnswered limit now took host c pt h hc =
      elim (Option-cases (net.parse_ip (normalize_host host))) [
        | inl e ↦
            rw (e, resolve) (resolve_name-IsGood limit now took (normalize_host host) c pt h hc)
        | inr (ip, e) ↦ rw (e, resolve) (refl, hc)
      ]

  -- the calls in the order in which they get the lock, with their answers
  unfoldable pub resolve_all : List Query → Cache net → List (Query × List net.Ip)
  unfolding resolve
  resolve_all [] c = []
  resolve_all (q ∷ qs) c =
      let (ips, c') = resolve net ttl q.now q.took q.host c in (q, ips) ∷ resolve_all qs c'

  resolve_all_from :
      (limit : ℕ) (qs : List Query) (c : Cache net)
      → 0 < ttl
      → All (λ q. q.took ≤ limit) qs
      → IsCache limit c
      → All (λ a. IsAnswered limit a.0.now a.0.host a.1) (resolve_all qs c)
  unfolding resolve_all
  resolve_all_from limit [] c pt h hc = tt
  resolve_all_from limit (q ∷ qs) c pt (h, hs) hc =
      let (answered, hc') = resolve-IsAnswered limit q.now q.took q.host c pt h hc in
      (answered, resolve_all_from limit qs _ pt hs hc')

  -- If the time to live is not 0 and no lookup takes longer than `limit`, then every answer of a new
  -- resolver, in any sequence of calls, is the literal address that the host is, or nothing, or what
  -- a lookup of the host found that began less than `limit` and the time to live ago.
  pub resolve_all-IsAnswered :
      (limit : ℕ) (qs : List Query)
      → 0 < ttl
      → All (λ q. q.took ≤ limit) qs
      → All (λ a. IsAnswered limit a.0.now a.0.host a.1) (resolve_all qs [])
  resolve_all-IsAnswered limit qs pt h = resolve_all_from limit qs [] pt h (empty-IsCache limit)
