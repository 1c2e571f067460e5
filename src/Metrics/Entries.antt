-- ===== src/Metrics/Entries.antt =====
-- The stages that have an entry in the registry of `Metrics`, and their order in `Render`.
use mathlib.Core.List.{Memᴰ}
use proxy_harv.Prelude.{ℕ, ◌<◌, List, [], ◌∷◌, map, ◌≡◌, refl, sym, arith, Bool-cases, inl, inr}
use proxy_harv.Text.{Bytes, str_eq, str_eq_iff}
use proxy_harv.Floats.{Floats}
use proxy_harv.Keyed.{update_at}
use proxy_harv.Parse.Sort.{insert, sort, str_le}
use proxy_harv.Metrics.{
  next64, Registry, probe_request, probe_duration, job_batch, publish_at, Call, on_request,
  on_duration, on_batch, on_publish, apply_call, apply_calls,
}
use proxy_harv.Metrics.Histogram.{samples_of}

mem_behind :
    (s x y : Bytes) (ys zs : List Bytes)
    → (Memᴰ s (x ∷ ys) → Memᴰ s zs)
    → Memᴰ s (x ∷ y ∷ ys)
    → Memᴰ s (y ∷ zs)
mem_behind s x y ys zs h (Memᴰ.head f) = Memᴰ.tail (h (Memᴰ.head f))
mem_behind s x y ys zs h (Memᴰ.tail (Memᴰ.head f)) = Memᴰ.head f
mem_behind s x y ys zs h (Memᴰ.tail (Memᴰ.tail d)) = Memᴰ.tail (h (Memᴰ.tail d))

mem-insert : (s x : Bytes) (ys : List Bytes) → Memᴰ s (x ∷ ys) → Memᴰ s (insert x ys)
unfolding insert
mem-insert s x [] d = d
mem-insert s x (y ∷ ys) d = elim (Bool-cases (str_le x y)) [
  | inl e ↦ rw (e, insert) d
  | inr e ↦ rw (e, insert) (mem_behind s x y ys (insert x ys) (mem-insert s x ys) d)
]

pub mem-sort : (s : Bytes) (xs : List Bytes) → Memᴰ s xs → Memᴰ s (sort xs)
unfolding sort
mem-sort s [] d = d
mem-sort s (x ∷ xs) (Memᴰ.head e) = mem-insert s x (sort xs) (Memᴰ.head e)
mem-sort s (x ∷ xs) (Memᴰ.tail d) = mem-insert s x (sort xs) (Memᴰ.tail (mem-sort s xs d))

-- A key of the map.
abbrev pub IsKey : Bytes → List (Bytes × ℕ) → Type 0
IsKey k m = Memᴰ k (map (λ e. e.0) m)

update_at-new : (k : Bytes) (m : List (Bytes × ℕ)) → IsKey k (update_at str_eq 0 next64 k m)
unfolding update_at
update_at-new k [] = Memᴰ.head refl
update_at-new k ((j, v) ∷ m) = elim (Bool-cases (str_eq k j)) [
  | inl e ↦ rw (e, update_at) (Memᴰ.head ((str_eq_iff k j).0 e))
  | inr e ↦ rw (e, update_at) (Memᴰ.tail (update_at-new k m))
]

IsKey-behind :
    (k : Bytes) (e : Bytes × ℕ) (m m' : List (Bytes × ℕ))
    → (IsKey k m → IsKey k m')
    → IsKey k (e ∷ m)
    → IsKey k (e ∷ m')
IsKey-behind k e m m' h (Memᴰ.head f) = Memᴰ.head f
IsKey-behind k e m m' h (Memᴰ.tail d) = Memᴰ.tail (h d)

update_at-old :
    (k j : Bytes) (m : List (Bytes × ℕ)) → IsKey k m → IsKey k (update_at str_eq 0 next64 j m)
unfolding update_at
update_at-old k j [] d = elim d [ ]
update_at-old k j ((i, v) ∷ m) d = elim (Bool-cases (str_eq j i)) [
  | inl e ↦ rw (e, update_at) d
  | inr e ↦ rw (e, update_at) (IsKey-behind k (i, v) m _ (update_at-old k j m) d)
]

module _ (fl : Floats) where
  -- A stage that has a count keeps it.
  listed_later :
      (stage : Bytes) (cs : List (Call fl)) (r : Registry fl)
      → IsKey stage r.probe_count
      → IsKey stage (apply_calls fl cs r).probe_count
  unfolding apply_calls apply_call probe_request job_batch publish_at probe_duration
  listed_later stage [] r d = d
  listed_later stage (on_request k ∷ cs) r d = listed_later stage cs (probe_request fl k r) d
  listed_later stage (on_batch s t ∷ cs) r d = listed_later stage cs (job_batch fl s t r) d
  listed_later stage (on_publish ts ∷ cs) r d = listed_later stage cs (publish_at fl ts r) d
  listed_later stage (on_duration s seconds ∷ cs) r d =
      listed_later stage cs (probe_duration fl s seconds r) (update_at-old stage s r.probe_count d)

  pub listed_after :
      (stage : Bytes) (cs : List (Call fl)) (r : Registry fl)
      → 0 < samples_of fl stage cs
      → IsKey stage (apply_calls fl cs r).probe_count
  unfolding apply_calls apply_call probe_request job_batch publish_at probe_duration
  listed_after stage [] r h = absurd (omega (arith, h))
  listed_after stage (on_request k ∷ cs) r h = listed_after stage cs (probe_request fl k r) h
  listed_after stage (on_batch s t ∷ cs) r h = listed_after stage cs (job_batch fl s t r) h
  listed_after stage (on_publish ts ∷ cs) r h = listed_after stage cs (publish_at fl ts r) h
  listed_after stage (on_duration s seconds ∷ cs) r h =
      let next = probe_duration fl s seconds r in
      elim (Bool-cases (str_eq stage s)) [
        | inl e ↦
            (let same : s ≡ stage = sym ((str_eq_iff stage s).0 e) in
              let new : IsKey stage next.probe_count =
                ap_key stage s same r.probe_count (update_at-new s r.probe_count) in
              listed_later stage cs next new)
        | inr e ↦ listed_after stage cs next (rw e at h)
      ]
    where
      ap_key :
          (k j : Bytes)
          → j ≡ k
          → (m : List (Bytes × ℕ)) → IsKey j (update_at str_eq 0 next64 j m)
          → IsKey k (update_at str_eq 0 next64 j m)
      ap_key k j e m d = rw (sym e) d
