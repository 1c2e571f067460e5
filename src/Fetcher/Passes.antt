-- ===== src/Fetcher/Passes.antt =====
-- What a pass leaves in the table of sources.
use mathlib.Core.Path.{ap₂, subst}
use proxy_harv.Prelude.{
  ℕ, ◌==◌, Bool, true, false, Option, none, some, List, [], ◌∷◌, map, All, ◌≡◌, ap, ◌∙◌, refl, sym,
  arith, Bool-cases, inl, inr, if◌then◌else◌,
}
use proxy_harv.Text.{Bytes}
use proxy_harv.Text.Number.{pos}
use proxy_harv.Runtime.{Runtime}
use proxy_harv.Floats.{Floats}
use proxy_harv.Model.{Source, Tables, keep, update_where}
use proxy_harv.Model.Catalog.{list_sources, update_source_status}
use proxy_harv.Model.Store.Invariant.{Unique, All-keep}
use proxy_harv.Fetcher.{
  Download, bad_url, no_answer, answered, Progress, Outside, make_batch, read_source, fetch_source,
  World, pass_source, pass_sources, pass_all,
}

abbrev pub same_source : Source → Source → Bool
same_source a b = a.id == b.id

if_true {ℓ} : {A : Type ℓ} {b : Bool} (x y : A) → b ≡ true → (if b then x else y) ≡ x
if_true x y e = rw e refl

if_false {ℓ} : {A : Type ℓ} {b : Bool} (x y : A) → b ≡ false → (if b then x else y) ≡ y
if_false x y e = rw e refl

module _ (fl : Floats) (rt : Runtime) (world : World) (batch : ℕ) where
  -- The result of a source.
  abbrev pub result_of : Source → Option (Bytes × Progress × Bool)
  result_of src = fetch_source rt (world.outside src.id) (pos batch) src.id (world.download src.url)

  -- Its status, if there is no panic.
  abbrev pub fetched : Source → Bytes
  fetched src = elim (result_of src) [ none ↦ [] | some r ↦ r.0 ]

  fetched-result_of :
      (src : Source) (r : Bytes × Progress × Bool) → result_of src ≡ some r → r.0 ≡ fetched src
  fetched-result_of src r e = sym (ap (elim [ none ↦ [] | some x ↦ x.0 ]) e)

  -- A batch that fits is made.
  read_source-some :
      (out : Outside) (source : ℕ) (body : Option Bytes)
      → out.fits batch ≡ true
      → (r : Bytes × Progress × Bool) × (read_source rt out (pos batch) source body ≡ some r)
  unfolding read_source make_batch
  read_source-some out source none e = (_, refl)
  read_source-some out source (some all) e = rw (e, read_source, make_batch) (_, refl)

  fetch_source-some :
      (out : Outside) (source : ℕ) (found : Download)
      → out.fits batch ≡ true
      → (r : Bytes × Progress × Bool) × (fetch_source rt out (pos batch) source found ≡ some r)
  unfolding fetch_source
  fetch_source-some out source bad_url e = (_, refl)
  fetch_source-some out source no_answer e = (_, refl)
  fetch_source-some out source (answered status body) e = elim (Bool-cases (status == 200)) [
    | inl f ↦ rw (f, fetch_source) (read_source-some out source body e)
    | inr f ↦ rw (f, fetch_source) (_, refl)
  ]

  -- The row of a source that was fetched.
  unfoldable pub stamped : Source → Source → Source
  stamped src x = record x {
    last_status = some (fetched src);
    last_fetch_at = some (world.now src.id);
  }

  -- The row of any source after a pass.
  abbrev pub after_pass : Source → Source
  after_pass src = if src.enabled then stamped src src else src

  unfoldable marked : Source → Source → Source
  unfolding stamped
  marked src x = if x.id == src.id then stamped src x else x

  unfoldable marks : List Source → Source → Source
  unfolding marked
  marks [] x = x
  marks (s ∷ ss) x = marks ss (marked s x)

  -- The updates of other sources leave a row.
  marks_others :
      (ss : List Source) (x : Source) → All (λ s. same_source x s ≡ false) ss → marks ss x ≡ x
  unfolding marks marked
  marks_others [] x h = refl
  marks_others (s ∷ ss) x (other, others) = rw (other, marks) (marks_others ss x others)

  marks_tail :
      (s : Source) (ss xs : List Source)
      → All (λ x. same_source s x ≡ false) xs
      → All (λ x. marks ss x ≡ after_pass x) xs
      → All (λ x. marks (s ∷ ss) x ≡ after_pass x) xs
  unfolding marks marked
  marks_tail s ss [] apart h = tt
  marks_tail s ss (x ∷ xs) (other, others) (e, es) =
      let turned : (x.id == s.id) ≡ false = ground (arith, other) in
      (rw (turned, marks) e, marks_tail s ss xs others es)

  after_marks :
      (srcs : List Source)
      → Unique same_source srcs
      → All (λ x. marks (keep (λ s. s.enabled) srcs) x ≡ after_pass x) srcs
  unfolding keep marks marked stamped
  after_marks [] h = tt
  after_marks (s ∷ ss) (apart, h) =
      let rest = after_marks ss h in
      let later = keep (λ s. s.enabled) ss in
      let kept = All-keep (λ y. same_source s y ≡ false) (λ s. s.enabled) ss apart in
      elim (Bool-cases s.enabled) [
        | inl e ↦
            let shift : keep (λ s. s.enabled) (s ∷ ss) ≡ s ∷ later = if_true _ _ e in
            let own : (s.id == s.id) ≡ true = ground arith in
            (
              ap (λ l. marks l s) shift
                  ∙ (ap (marks later) (if_true _ _ own)
                      ∙ (marks_others later (stamped s s) kept ∙ sym (if_true _ _ e))),
              subst (λ l. All (λ x. marks l x ≡ after_pass x) ss) (sym shift)
                  (marks_tail s later ss apart rest),
            )
        | inr e ↦
            let shift : keep (λ s. s.enabled) (s ∷ ss) ≡ later = if_false _ _ e in
            (
              ap (λ l. marks l s) shift ∙ (marks_others later s kept ∙ sym (if_false _ _ e)),
              subst (λ l. All (λ x. marks l x ≡ after_pass x) ss) (sym shift) rest,
            )
      ]

  map-All :
      (f g : Source → Source) (xs : List Source) → All (λ x. f x ≡ g x) xs → map f xs ≡ map g xs
  map-All f g [] h = refl
  map-All f g (x ∷ xs) (e, es) = ap₂ (λ y ys. y ∷ ys) e (map-All f g xs es)

  update_where-marked :
      (s : Source) (xs : List Source)
      → update_where (λ x. x.id == s.id) (stamped s) xs ≡ map (marked s) xs
  unfolding update_where marked
  update_where-marked s [] = refl
  update_where-marked s (x ∷ xs) = ap (λ ys. marked s x ∷ ys) (update_where-marked s xs)

  map-marks :
      (s : Source) (ss xs : List Source)
      → map (marks ss) (map (marked s) xs) ≡ map (marks (s ∷ ss)) xs
  unfolding marks
  map-marks s ss [] = refl
  map-marks s ss (x ∷ xs) = ap (λ ys. marks ss (marked s x) ∷ ys) (map-marks s ss xs)

  pass_sources-marks :
      (srcs : List Source) (db : Tables fl)
      → ((i : ℕ) → world.cancelled i ≡ false)
      → ((i : ℕ) → (world.outside i).fits batch ≡ true)
      → (pass_sources fl rt world (pos batch) srcs db).tables.sources ≡ map (marks srcs) db.sources
  unfolding pass_sources pass_source update_source_status marks stamped
  pass_sources-marks [] db live fits = map-same db.sources
    where
      map-same : (xs : List Source) → xs ≡ map (marks []) xs
      map-same [] = refl
      map-same (x ∷ xs) = ap (λ ys. x ∷ ys) (map-same xs)
  pass_sources-marks (s ∷ ss) db live fits =
      let (r, e) = fetch_source-some (world.outside s.id) s.id (world.download s.url) (fits s.id) in
      let db' = update_source_status fl s.id r.0 (world.now s.id) db in
      let own = fetched-result_of s r e in
      rw (live s.id, e, pass_sources, pass_source)
        (pass_sources-marks ss db' live fits
          ∙ (ap (map (marks ss)) (
                ap
                  (λ status.
                    update_where (λ x. x.id == s.id)
                      (λ x. record x {
                        last_status = some status;
                        last_fetch_at = some (world.now s.id);
                      })
                      db.sources)
                  own
                ∙ update_where-marked s db.sources)
              ∙ map-marks s ss db.sources))

  -- If the ids of the sources differ, the context does not end, and the batch size is not negative and
  -- a batch of it fits into memory, then a pass leaves every enabled
  -- source with the status that its own download and publishing ended in and the time it was stored
  -- at, and every other source as it was.
  pub pass_all-after_pass :
      (db : Tables fl)
      → Unique same_source db.sources
      → ((i : ℕ) → world.cancelled i ≡ false)
      → ((i : ℕ) → (world.outside i).fits batch ≡ true)
      → (pass_all fl rt world (pos batch) db).tables.sources ≡ map after_pass db.sources
  unfolding pass_all list_sources
  pass_all-after_pass db unique live fits =
      pass_sources-marks (keep (λ s. s.enabled) db.sources) db live fits
      ∙ map-All (marks (keep (λ s. s.enabled) db.sources)) after_pass db.sources
          (after_marks db.sources unique)
