-- ===== src/Metrics/Printed.antt =====
-- The lines of a stage in the text of `Render`.
use mathlib.Core.List.{Memᴰ}
use mathlib.Core.Path.{ap₂, subst}
use proxy_harv.Prelude.{
  ℕ, suc, ◌+◌, ◌%◌, ◌^◌, ◌<◌, List, [], ◌∷◌, ◌++◌, map, length, append-nil, append_assoc, ◌≡◌, refl,
  ap, ◌∙◌, sym, arith,
}
use proxy_harv.Text.{Bytes, codes, str_eq}
use proxy_harv.Text.Number.{pos, itoa}
use proxy_harv.Floats.{Floats}
use proxy_harv.Keyed.{value_at}
use proxy_harv.Parse.Sort.{sort}
use proxy_harv.Metrics.{CounterKey, buckets, Registry, new_registry, Call, apply_calls}
use proxy_harv.Metrics.Render.{
  esc, cumulative, Format, join_all, bucket_line, bucket_lines, stage_lines, requests_text,
  stages_text, batches_text, render,
}
use proxy_harv.Metrics.Entries.{mem-sort, IsKey, listed_after}
use proxy_harv.Metrics.Histogram.{last_of, hist_of, count_of, samples_of, apply_calls-counts}

-- The text stands somewhere in the other one.
abbrev pub IsInside : Bytes → Bytes → Type 0
IsInside x y = (before : Bytes) × (behind : Bytes) × (y ≡ before ++ (x ++ behind))

IsInside-right : (x y z : Bytes) → IsInside x y → IsInside x (z ++ y)
IsInside-right x y z (before, behind, e) =
    (z ++ before, behind, ap (λ l. z ++ l) e ∙ sym (append_assoc z before (x ++ behind)))

IsInside-left : (x y z : Bytes) → IsInside x y → IsInside x (y ++ z)
IsInside-left x y z (before, behind, e) = (
  before,
  behind ++ z,
  ap (λ l. l ++ z) e
      ∙ (append_assoc before (x ++ behind) z ∙ ap (λ l. before ++ l) (append_assoc x behind z)),
)

length-cumulative : (cum : ℕ) (hs : List ℕ) → length (cumulative cum hs) ≡ length hs
unfolding cumulative
length-cumulative cum [] = refl
length-cumulative cum (h ∷ hs) = ap suc (length-cumulative ((cum + h) % 2 ^ 64) hs)

module _ (fl : Floats) where
  module _ (format : Format fl) where
    -- The lines of the bounds.
    abbrev pub bound_lines : Bytes → List fl.F → List ℕ → Bytes
    bound_lines stage (b ∷ bs) (n ∷ ns) =
        bucket_line fl format stage (format.show_float b) n ++ bound_lines stage bs ns
    bound_lines stage _ _ = []

    -- The sum and the count.
    abbrev pub behind_bounds : Bytes → fl.F → ℕ → Bytes
    behind_bounds stage sum n =
        codes "proxyfarm_probe_duration_seconds_sum{stage="
        ++ (format.quote (esc stage)
            ++ (codes "} "
                ++ (format.show_float sum
                    ++ (b'\n'
                        ∷ (codes "proxyfarm_probe_duration_seconds_count{stage="
                            ++ (format.quote (esc stage)
                                ++ (codes "} " ++ (itoa n ++ b'\n' ∷ []))))))))

    abbrev sum_of : Registry fl → Bytes → fl.F
    sum_of r stage = value_at str_eq (fl.of_int (pos 0)) stage r.probe_sum

    -- The lines of a stage: a number for each bound, the sum, and `n` both on the line of +Inf and on
    -- that of the count.
    abbrev pub histogram_text : Bytes → List ℕ → fl.F → ℕ → Bytes
    histogram_text stage ns sum n =
        bound_lines stage (buckets fl) ns
        ++ (bucket_line fl format stage (codes "+Inf") n ++ behind_bounds stage sum n)

    bucket_lines-split :
        (stage : Bytes) (bs : List fl.F) (d : ℕ) (ns : List ℕ)
        → length ns ≡ suc (length bs)
        → (front : List ℕ) × (length front ≡ length bs)
          × (bucket_lines fl format stage bs ns
              ≡ bound_lines stage bs front
                ++ bucket_line fl format stage (codes "+Inf") (last_of d ns))
    unfolding bucket_lines
    bucket_lines-split stage bs d [] e = absurd (omega (arith, e))
    bucket_lines-split stage [] d (n ∷ []) e = ([], refl, refl)
    bucket_lines-split stage [] d (n ∷ m ∷ ns) e = absurd (omega (arith, e))
    bucket_lines-split stage (b ∷ bs) d (n ∷ ns) e =
        let (front, len, lines) = bucket_lines-split stage bs n ns (omega (arith, e)) in
        let first = bucket_line fl format stage (format.show_float b) n in
        (
          n ∷ front,
          ap suc len,
          ap (λ l. first ++ l) lines ∙ sym (append_assoc first (bound_lines stage bs front) _),
        )

    join_all-IsInside :
        (f : Bytes → Bytes) (stage : Bytes) (ss : List Bytes)
        → Memᴰ stage ss
        → IsInside (f stage) (join_all fl format (map f ss))
    join_all-IsInside f stage [] d = elim d [ ]
    join_all-IsInside f stage (s ∷ ss) (Memᴰ.head e) =
        IsInside-left (f stage) (f s) (join_all fl format (map f ss))
          ([], [], sym (append-nil (f s)) ∙ ap (λ x. f x ++ []) (sym e))
    join_all-IsInside f stage (s ∷ ss) (Memᴰ.tail d) =
        IsInside-right (f stage) (join_all fl format (map f ss)) (f s)
          (join_all-IsInside f stage ss d)

    stage_lines-histogram_text :
        (r : Registry fl) (stage : Bytes) (n : ℕ)
        → count_of fl stage r ≡ n
        → last_of 0 (cumulative 0 (hist_of fl stage r)) ≡ n
        → length (hist_of fl stage r) ≡ 11
        → (ns : List ℕ) × (sum : fl.F) × (length ns ≡ 10)
          × (stage_lines fl format r stage ≡ histogram_text stage ns sum n)
    unfolding stage_lines
    stage_lines-histogram_text r stage n count last len =
        let numbers = cumulative 0 (hist_of fl stage r) in
        let (front, short, lines) =
          bucket_lines-split stage (buckets fl) 0 numbers
            (length-cumulative 0 (hist_of fl stage r) ∙ len) in
        (
          front,
          sum_of r stage,
          short,
          ap (λ l. l ++ behind_bounds stage (sum_of r stage) (count_of fl stage r)) lines
              ∙ (append_assoc (bound_lines stage (buckets fl) front) _ _
                  ∙ ap₂
                      (λ m k.
                        bound_lines stage (buckets fl) front
                        ++ (bucket_line fl format stage (codes "+Inf") m
                            ++ behind_bounds stage (sum_of r stage) k))
                      last count),
        )

    stage_lines-IsInside :
        (by_stage : List (CounterKey × ℕ) → List (CounterKey × ℕ))
        (by_stream : List ((Bytes × Bytes) × ℕ) → List ((Bytes × Bytes) × ℕ)) (r : Registry fl)
        (stage : Bytes)
        → IsKey stage r.probe_count
        → IsInside (stage_lines fl format r stage) (render fl format by_stage by_stream r)
    unfolding render stages_text
    stage_lines-IsInside by_stage by_stream r stage d =
        let x = stage_lines fl format r stage in
        let here =
          join_all-IsInside (stage_lines fl format r) stage (sort (map (λ e. e.0) r.probe_count))
            (mem-sort stage (map (λ e. e.0) r.probe_count) d) in
        IsInside-right x (stages_text fl format r ++ batches_text fl format by_stream r)
          (requests_text fl format by_stage r)
          (IsInside-left x (stages_text fl format r) (batches_text fl format by_stream r) here)

    -- If there are samples for a stage among the calls on a new registry, then the text that `Render`
    -- prints behind these calls, whatever the order of the entries of one stage or stream, holds the
    -- lines of that stage: one with a number for each of the ten bounds, one for +Inf, and then the sum
    -- and the count; and both the number of +Inf and the count are the number of the samples that the
    -- calls give to the stage, modulo 2^64.
    pub render-apply_calls :
        (by_stage : List (CounterKey × ℕ) → List (CounterKey × ℕ))
        (by_stream : List ((Bytes × Bytes) × ℕ) → List ((Bytes × Bytes) × ℕ)) (stage : Bytes)
        (cs : List (Call fl))
        → 0 < samples_of fl stage cs
        → (ns : List ℕ) × (sum : fl.F) × (length ns ≡ 10)
          × IsInside
              (histogram_text stage ns sum (samples_of fl stage cs % 2 ^ 64))
              (render fl format by_stage by_stream (apply_calls fl cs (new_registry fl)))
    render-apply_calls by_stage by_stream stage cs h =
        let r = apply_calls fl cs (new_registry fl) in
        let (count, last, len) = apply_calls-counts fl stage cs in
        let (ns, sum, ten, shape) = stage_lines-histogram_text r stage _ count last len in
        let inside =
          stage_lines-IsInside by_stage by_stream r stage
            (listed_after fl stage cs (new_registry fl) h) in
        (ns, sum, ten, subst (λ t. IsInside t (render fl format by_stage by_stream r)) shape inside)
