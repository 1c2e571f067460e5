-- ===== src/Metrics/Histogram.antt =====
-- The histogram of a stage and its count.
use proxy_harv.Prelude.{
  ℕ, suc, ◌+◌, ◌%◌, ◌^◌, ◌≤◌, ◌<◌, Bool, true, false, List, [], ◌∷◌, ◌≡◌, refl, ap, ◌∙◌, arith,
  if◌then◌else◌, length, Bool-cases, inl, inr,
}
use proxy_harv.Text.{Bytes, str_eq}
use proxy_harv.Floats.{Floats}
use proxy_harv.Keyed.{value_at, value_at-update_at}
use proxy_harv.Metrics.{
  next64, no_samples, buckets, Registry, new_registry, probe_request, observe, probe_duration,
  job_batch, publish_at, Call, on_request, on_duration, on_batch, on_publish, apply_call,
  apply_calls,
}
use proxy_harv.Metrics.Render.{cumulative}

abbrev pub total : List ℕ → ℕ
total [] = 0
total (h ∷ hs) = h + total hs

-- the number of the last line
abbrev pub last_of : ℕ → List ℕ → ℕ
last_of n [] = n
last_of n (m ∷ ms) = last_of m ms

last_of-cumulative :
    (hs : List ℕ) (cum : ℕ)
    → cum < 2 ^ 64
    → last_of cum (cumulative cum hs) ≡ (cum + total hs) % 2 ^ 64
unfolding cumulative
last_of-cumulative [] cum h = omega (arith, h)
last_of-cumulative (n ∷ hs) cum h =
    omega (arith, last_of-cumulative hs ((cum + n) % 2 ^ 64) (omega arith))

module _ (fl : Floats) where
  total-observe :
      (seconds : fl.F) (bs : List fl.F) (h : ℕ) (hs : List ℕ)
      → length bs ≤ length hs
      → total (observe fl seconds bs (h ∷ hs)) % 2 ^ 64 ≡ (total (h ∷ hs) + 1) % 2 ^ 64
  unfolding observe next64
  total-observe seconds [] h hs enough = omega arith
  total-observe seconds (b ∷ bs) h [] enough = absurd (omega (arith, enough))
  total-observe seconds (b ∷ bs) h (h' ∷ hs) enough = elim (Bool-cases (fl.le seconds b)) [
    | inl e ↦ rw e (omega arith)
    | inr e ↦ rw e (omega (arith, total-observe seconds bs h' hs (omega (arith, enough))))
  ]

  length-observe :
      (seconds : fl.F) (bs : List fl.F) (hs : List ℕ)
      → length (observe fl seconds bs hs) ≡ length hs
  unfolding observe
  length-observe seconds bs [] = ground arith
  length-observe seconds [] (h ∷ hs) = refl
  length-observe seconds (b ∷ bs) (h ∷ hs) = elim (Bool-cases (fl.le seconds b)) [
    | inl e ↦ rw e refl
    | inr e ↦ rw e (ap suc (length-observe seconds bs hs))
  ]

  abbrev pub hist_of : Bytes → Registry fl → List ℕ
  hist_of stage r = value_at str_eq no_samples stage r.probe_hist

  abbrev pub count_of : Bytes → Registry fl → ℕ
  count_of stage r = value_at str_eq 0 stage r.probe_count

  -- The samples of the stage are as many as its count, and there is one number for each line.
  abbrev pub IsCounted : Bytes → Registry fl → Type 0
  IsCounted stage r =
      (total (hist_of stage r) % 2 ^ 64 ≡ count_of stage r) × (length (hist_of stage r) ≡ 11)

  counted_sample :
      (seconds : fl.F) (hs : List ℕ) (n : ℕ)
      → length hs ≡ 11
      → total hs % 2 ^ 64 ≡ n
      → (total (observe fl seconds (buckets fl) hs) % 2 ^ 64 ≡ next64 n)
        × (length (observe fl seconds (buckets fl) hs) ≡ 11)
  unfolding next64
  counted_sample seconds [] n len e = absurd (omega (arith, len))
  counted_sample seconds (h ∷ hs) n len e = (
    omega (arith, total-observe seconds (buckets fl) h hs (omega (arith, len)), e),
    length-observe seconds (buckets fl) (h ∷ hs) ∙ len,
  )

  counted_if :
      (b : Bool) (hs hs' : List ℕ) (n n' : ℕ)
      → (total hs % 2 ^ 64 ≡ n) × (length hs ≡ 11)
      → (total hs' % 2 ^ 64 ≡ n') × (length hs' ≡ 11)
      → (total (if b then hs else hs') % 2 ^ 64 ≡ (if b then n else n'))
        × (length (if b then hs else hs') ≡ 11)
  counted_if true hs hs' n n' h h' = h
  counted_if false hs hs' n n' h h' = h'

  apply_call-IsCounted :
      (stage : Bytes) (c : Call fl) (r : Registry fl)
      → IsCounted stage r
      → IsCounted stage (apply_call fl c r)
  unfolding apply_call probe_request job_batch publish_at probe_duration
  apply_call-IsCounted stage (on_request k) r h = h
  apply_call-IsCounted stage (on_batch s t) r h = h
  apply_call-IsCounted stage (on_publish ts) r h = h
  apply_call-IsCounted stage (on_duration s seconds) r h =
      rw (value_at-update_at no_samples (observe fl seconds (buckets fl)) stage s r.probe_hist) (
        rw (value_at-update_at 0 next64 stage s r.probe_count) (
          counted_if (str_eq stage s) _ (hist_of stage r) _ (count_of stage r)
            (counted_sample seconds (hist_of stage r) (count_of stage r) h.1 h.0) h))

  apply_calls-IsCounted :
      (stage : Bytes) (cs : List (Call fl)) (r : Registry fl)
      → IsCounted stage r
      → IsCounted stage (apply_calls fl cs r)
  unfolding apply_calls
  apply_calls-IsCounted stage [] r h = h
  apply_calls-IsCounted stage (c ∷ cs) r h =
      apply_calls-IsCounted stage cs (apply_call fl c r) (apply_call-IsCounted stage c r h)

  -- The samples that the calls give to a stage.
  abbrev pub samples_of : Bytes → List (Call fl) → ℕ
  samples_of stage [] = 0
  samples_of stage (on_duration s seconds ∷ cs) =
      let rest = samples_of stage cs in if str_eq stage s then suc rest else rest
  samples_of stage (on_request k ∷ cs) = samples_of stage cs
  samples_of stage (on_batch s t ∷ cs) = samples_of stage cs
  samples_of stage (on_publish ts ∷ cs) = samples_of stage cs

  count_from :
      (stage : Bytes) (cs : List (Call fl)) (r : Registry fl)
      → count_of stage r < 2 ^ 64
      → count_of stage (apply_calls fl cs r) ≡ (count_of stage r + samples_of stage cs) % 2 ^ 64
  unfolding apply_calls apply_call probe_request job_batch publish_at probe_duration next64
  count_from stage [] r h = omega (arith, h)
  count_from stage (on_request k ∷ cs) r h = count_from stage cs (probe_request fl k r) h
  count_from stage (on_batch s t ∷ cs) r h = count_from stage cs (job_batch fl s t r) h
  count_from stage (on_publish ts ∷ cs) r h = count_from stage cs (publish_at fl ts r) h
  count_from stage (on_duration s seconds ∷ cs) r h =
      let next = probe_duration fl s seconds r in
      let new = value_at-update_at 0 next64 stage s r.probe_count in
      elim (Bool-cases (str_eq stage s)) [
        | inl e ↦
            (let moved : count_of stage next ≡ (count_of stage r + 1) % 2 ^ 64 = new ∙ rw e refl in
              rw e (omega (arith, moved, count_from stage cs next (omega (arith, moved)))))
        | inr e ↦
            (let same : count_of stage next ≡ count_of stage r = new ∙ rw e refl in
              rw e (omega (arith, same, h, count_from stage cs next (omega (arith, same, h)))))
      ]

  -- After any calls on a new registry: the count of a stage, the last number of its histogram, and
  -- how many numbers that has.
  pub apply_calls-counts :
      (stage : Bytes) (cs : List (Call fl))
      → (count_of stage (apply_calls fl cs (new_registry fl)) ≡ samples_of stage cs % 2 ^ 64)
        × (last_of 0 (cumulative 0 (hist_of stage (apply_calls fl cs (new_registry fl))))
            ≡ samples_of stage cs % 2 ^ 64)
        × (length (hist_of stage (apply_calls fl cs (new_registry fl))) ≡ 11)
  unfolding new_registry value_at
  apply_calls-counts stage cs =
      let h = apply_calls-IsCounted stage cs (new_registry fl) (refl, refl) in
      let last =
        last_of-cumulative (hist_of stage (apply_calls fl cs (new_registry fl))) 0 (omega arith) in
      let count = count_from stage cs (new_registry fl) (omega arith) in
      (omega (arith, count), omega (arith, last, h.0, count), h.1)
