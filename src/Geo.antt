-- ===== src/Geo.antt =====
-- proxies/internal/geo/geo.go: the resolver with its cache, and the lookup of a place. Addresses,
-- the parser of literal addresses, the resolver of the system and the MaxMind database are
-- parameters. Opening and closing the database is not modelled.
pub mod Cache
pub mod Transparent
use proxy_harv.Prelude.{
  ℕ, ◌+◌, Bool, true, false, Option, none, some, List, [], ◌∷◌, ◌==◌, ltb, length, if◌then◌else◌,
  ◌&&◌,
}
use proxy_harv.Text.{Bytes, codes, str_eq, is_empty}
use proxy_harv.Probe.{without_last, last_byte}
use proxy_harv.Keyed.{value_at, update_at}

-- host[1 : len(host)-1] for a host that is longer than one byte and stands in brackets
unfoldable pub normalize_host : Bytes → Bytes
unfolding last_byte without_last
normalize_host [] = []
normalize_host (c ∷ []) = c ∷ []
normalize_host (c ∷ d ∷ s) =
    if c == b'[' && last_byte d s == b']' then without_last (d ∷ s) else c ∷ d ∷ s

-- What the package calls: addresses, their parser and printer, the resolver at a time, and the
-- names and position that the database holds of an address.
pub record Network : Type 1 where
  pub Ip : Type 0
  pub F : Type 0
  pub zero_float : F
  pub parse_ip : Bytes → Option Ip
  pub print_ip : Ip → Bytes
  -- the addresses; `none` is an error
  pub lookup_ip : ℕ → Bytes → Option (List Ip)
  -- country code, name of the city in English if it has names, latitude and longitude
  pub city : Ip → Option (Bytes × Option Bytes × F × F)

module _ (net : Network) where
  open net use {Ip, F}

  pub record CacheEntry : Type 0 where
    pub ips : List Ip
    pub expires : ℕ

  abbrev pub Cache : Type 0
  Cache = List (Bytes × Option CacheEntry)

  -- l.cache[host]; `none` stands for a missing key
  unfoldable pub cached : Bytes → Cache → Option CacheEntry
  unfolding value_at str_eq
  cached host c = value_at str_eq none host c

  -- l.cache[host] = e
  unfoldable pub store_entry : Bytes → CacheEntry → Cache → Cache
  unfolding update_at str_eq
  store_entry host e c = update_at str_eq none (λ _. some e) host c

  -- the answer of the cache at the time `now`
  unfoldable pub from_cache : ℕ → Bytes → Cache → Option (List Ip)
  unfolding cached
  from_cache now host c = elim (cached host c) [
    | none ↦ none
    | some e ↦ if ltb now e.expires then some e.ips else none
  ]

  -- the lookup, which begins at `now` and takes `took`, and the cache afterwards
  unfoldable pub look_up : ℕ → ℕ → ℕ → Bytes → Cache → List Ip × Cache
  unfolding store_entry
  look_up ttl now took host c = elim (net.lookup_ip now host) [
    | none ↦ ([], c)
    | some [] ↦ ([], c)
    | some (ip ∷ ips) ↦
        (ip ∷ ips, store_entry host (record { ips = ip ∷ ips; expires = now + took + ttl }) c)
  ]

  -- `Resolve` of a host whose brackets are gone and that is no literal address
  unfoldable pub resolve_name : ℕ → ℕ → ℕ → Bytes → Cache → List Ip × Cache
  unfolding from_cache look_up
  resolve_name ttl now took host c = elim (from_cache now host c) [
    | some ips ↦ (ips, c)
    | none ↦ look_up ttl now took host c
  ]

  -- `Resolve`
  unfoldable pub resolve : ℕ → ℕ → ℕ → Bytes → Cache → List Ip × Cache
  unfolding normalize_host resolve_name
  resolve ttl now took host c =
      let host' = normalize_host host in
      elim (net.parse_ip host') [
        | some ip ↦ (ip ∷ [], c)
        | none ↦ resolve_name ttl now took host' c
      ]

  pub record Geo : Type 0 where
    pub cc : Bytes
    pub city : Bytes
    pub lat : F
    pub lon : F
    pub found : Bool

  abbrev pub no_geo : Geo
  no_geo = record { cc = []; city = []; lat = net.zero_float; lon = net.zero_float; found = false }

  abbrev name_or_empty : Option Bytes → Bytes
  name_or_empty none = []
  name_or_empty (some name) = name

  abbrev is_named : Bytes → Bool
  is_named [] = false
  is_named (c ∷ s) = true

  -- `Geo`; the test says whether a database is open
  unfoldable pub geo_of : Bool → Ip → Geo
  geo_of false ip = no_geo
  geo_of true ip = elim (net.city ip) [
    | none ↦ no_geo
    | some (cc, city, lat, lon) ↦ record {
      cc = cc;
      city = name_or_empty city;
      lat = lat;
      lon = lon;
      found = is_named cc;
    }
  ]

  -- `Locate`: the first address and its place
  unfoldable pub locate : Bool → ℕ → ℕ → ℕ → Bytes → Cache → (Bytes × Geo) × Cache
  unfolding resolve geo_of
  locate has_db ttl now took host c =
      let (ips, c') = resolve ttl now took host c in
      elim ips [ [] ↦ (([], no_geo), c') | ip ∷ rest ↦ ((net.print_ip ip, geo_of has_db ip), c') ]

  -- `CacheLen`
  unfoldable pub cache_len : Cache → ℕ
  cache_len c = length c
