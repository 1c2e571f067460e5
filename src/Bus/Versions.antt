-- ===== src/Bus/Versions.antt =====
-- Which version `LatestPublish` returns.
use proxy_harv.Prelude.{
  ℕ, ◌≤◌, ◌<◌, Option, none, some, List, [], ◌∷◌, ltb, ltb→lt, ◌≡◌, ◌⊎◌, refl, arith, All,
  Bool-cases, Option-cases, inl, inr,
}
use proxy_harv.Text.{Bytes}
use proxy_harv.Text.Number.{ℤ, pos, negsuc}
use proxy_harv.Bus.{
  Update, put_value, other_operation, caught_up, beats, better, latest_version, latest_publish_of,
}

module _ (scan_version : Bytes → Option ℤ) where
  -- The number of the version that an update puts, 0 if it puts none.
  abbrev pub version_of : Option ℤ → ℕ
  version_of none = 0
  version_of (some (negsuc n)) = 0
  version_of (some (pos n)) = n

  abbrev pub number_put : Update → ℕ
  number_put caught_up = 0
  number_put other_operation = 0
  number_put (put_value key value) = version_of (scan_version key)

  -- The updates that arrive before the mark that the starting values have all been seen.
  abbrev pub before_mark : List Update → List Update
  before_mark [] = []
  before_mark (caught_up ∷ us) = []
  before_mark (other_operation ∷ us) = other_operation ∷ before_mark us
  before_mark (put_value key value ∷ us) = put_value key value ∷ before_mark us

  -- One of the updates puts the value under a key with the number.
  pub data Puts (n : ℕ) (v : Bytes) : List Update → Type 0 where
    here :
        {key : Bytes} {us : List Update}
        → scan_version key ≡ some (pos n)
        → Puts n v (put_value key v ∷ us)
    there : {u : Update} {us : List Update} → Puts n v us → Puts n v (u ∷ us)

  -- No version was put, or the answer is a version that was put, with its value, and no version
  -- put before the mark has a greater number.
  unfoldable pub IsLatest : List Update → Option (ℕ × Bytes) → Type 0
  IsLatest us none = All (λ u. number_put u ≡ 0) us
  IsLatest us (some (n, v)) = (0 < n) × Puts n v us × All (λ u. number_put u ≤ n) (before_mark us)

  -- The same for a loop that starts from a best version.
  abbrev IsLatestFrom : ℕ → Bytes → List Update → Option (ℕ × Bytes) → Type 0
  IsLatestFrom best value us none = (best ≡ 0) × All (λ u. number_put u ≡ 0) us
  IsLatestFrom best value us (some (n, v)) =
      (best ≤ n)
      × (0 < n)
      × (((n ≡ best) × (v ≡ value)) ⊎ Puts n v us)
      × All (λ u. number_put u ≤ n) (before_mark us)

  -- What `better` says of a key.
  abbrev IsBetter : Bytes → ℕ → Option ℕ → Type 0
  IsBetter key best none = version_of (scan_version key) ≤ best
  IsBetter key best (some v) = (best < v) × (scan_version key ≡ some (pos v))

  better-IsBetter : (key : Bytes) (best : ℕ) → IsBetter key best (better scan_version key best)
  unfolding better beats
  better-IsBetter key best = elim (Option-cases (scan_version key)) [
    | inl e ↦
        let zero : version_of (scan_version key) ≡ 0 = rw e refl in
        rw (e, better) (omega (arith, zero))
    | inr (negsuc n, e) ↦
        let zero : version_of (scan_version key) ≡ 0 = rw e refl in
        rw (e, better, beats) (omega (arith, zero))
    | inr (pos n, e) ↦ (elim (Bool-cases (ltb best n)) [
      | inl f ↦ rw (e, better, beats, f) (ltb→lt best n f, e)
      | inr f ↦
          let same : version_of (scan_version key) ≡ n = rw e refl in
          rw (e, better, beats, f) (ground (arith, f, same))
    ])
  ]

  later :
      (best : ℕ) (value : Bytes) (u : Update) (us : List Update) (r : Option (ℕ × Bytes))
      → number_put u ≤ best
      → ((n : ℕ)
          → number_put u ≤ n
          → All (λ w. number_put w ≤ n) (before_mark us)
          → All (λ w. number_put w ≤ n) (before_mark (u ∷ us)))
      → IsLatestFrom best value us r
      → IsLatestFrom best value (u ∷ us) r
  later best value u us none small mark (zero, rest) = (zero, (omega (arith, small, zero), rest))
  later best value u us (some (n, v)) small mark (more, positive, inl same, rest) =
      (more, positive, inl same, mark n (omega (arith, small, more)) rest)
  later best value u us (some (n, v)) small mark (more, positive, inr puts, rest) =
      (more, positive, inr (Puts.there puts), mark n (omega (arith, small, more)) rest)

  taken :
      (best : ℕ) (value : Bytes) (key : Bytes) (number : ℕ) (new : Bytes) (us : List Update)
      (r : Option (ℕ × Bytes))
      → best < number
      → scan_version key ≡ some (pos number)
      → IsLatestFrom number new us r
      → IsLatestFrom best value (put_value key new ∷ us) r
  taken best value key number new us none less e (zero, rest) = absurd (omega (arith, less, zero))
  taken best value key number new us (some (n, v)) less e
        (more, positive, inl (same, same'), rest) =
      let number_of : version_of (scan_version key) ≡ number = rw e refl in
      (
        omega (arith, less, more),
        positive,
        inr (rw same (rw same' (Puts.here e))),
        (omega (arith, number_of, more), rest),
      )
  taken best value key number new us (some (n, v)) less e (more, positive, inr puts, rest) =
      let number_of : version_of (scan_version key) ≡ number = rw e refl in
      (
        omega (arith, less, more),
        positive,
        inr (Puts.there puts),
        (omega (arith, number_of, more), rest),
      )

  latest_version-IsLatestFrom :
      (best : ℕ) (value : Bytes) (us : List Update)
      → IsLatestFrom best value us (latest_version scan_version best value us)
  unfolding latest_version
  latest_version-IsLatestFrom best value [] = elim (Bool-cases (ltb 0 best)) [
    | inl f ↦
        let less = ltb→lt 0 best f in
        rw (f, latest_version) (omega arith, omega (arith, less), inl (refl, refl), tt)
    | inr f ↦ rw (f, latest_version) (ground (arith, f), tt)
  ]
  latest_version-IsLatestFrom best value (caught_up ∷ us) = elim (Bool-cases (ltb 0 best)) [
    | inl f ↦
        let less = ltb→lt 0 best f in
        rw (f, latest_version) (omega arith, omega (arith, less), inl (refl, refl), tt)
    | inr f ↦
        rw (f, latest_version)
          (later best value caught_up us _ (omega arith) (λ n small rest. tt)
            (latest_version-IsLatestFrom best value us))
  ]
  latest_version-IsLatestFrom best value (other_operation ∷ us) =
      later best value other_operation us _ (omega arith) (λ n small rest. (omega arith, rest))
        (latest_version-IsLatestFrom best value us)
  latest_version-IsLatestFrom best value (put_value key new ∷ us) =
      let h = better-IsBetter key best in
      elim (Option-cases (better scan_version key best)) [
        | inl e ↦
            let small : IsBetter key best none = rw e at h in
            rw (e, latest_version)
              (later best value (put_value key new) us _ small (λ n less rest. (less, rest))
                (latest_version-IsLatestFrom best value us))
        | inr (number, e) ↦
            let (less, scanned) : IsBetter key best (some number) = rw e at h in
            rw (e, latest_version)
              (taken best value key number new us _ less scanned
                (latest_version-IsLatestFrom number new us))
      ]

  from_start : (us : List Update) (r : Option (ℕ × Bytes)) → IsLatestFrom 0 [] us r → IsLatest us r
  unfolding IsLatest
  from_start us none (zero, rest) = rest
  from_start us (some (n, v)) (more, positive, inl (same, same'), rest) =
      absurd (omega (arith, positive, same))
  from_start us (some (n, v)) (more, positive, inr puts, rest) = (positive, puts, rest)

  -- Of the updates that arrive in time, `LatestPublish` returns a version that one of them puts, with
  -- its value, and none that was put before the mark has a greater number; if it returns none, no
  -- update puts a version with a positive number.
  pub latest_publish_of-IsLatest :
      (us : List Update) → IsLatest us (latest_publish_of scan_version us)
  unfolding latest_publish_of
  latest_publish_of-IsLatest us = from_start us _ (latest_version-IsLatestFrom 0 [] us)
