-- ===== src/Parse/Many/Distinct.antt =====
-- Which links `ParseMany` keeps.
use proxy_harv.Prelude.{
  Bool, true, false, not, ◌&&◌, ◌||◌, Option, none, some, List, [], ◌∷◌, ◌≡◌, inl, inr, refl, ◌∙◌,
  arith, Bool-cases, Option-cases, if◌then◌else◌,
}
use proxy_harv.Text.{Bytes, one_of, str_eq, str_eq_iff, split}
use proxy_harv.Text.Space.{trim_right}
use proxy_harv.Runtime.{Runtime}
use proxy_harv.Parse.Line.{Node}
use proxy_harv.Parse.Many.{node_of, add_lines, parse_many, decoded_body}

abbrev pub has_hash : Bytes → List Node → Bool
has_hash h [] = false
has_hash h (n ∷ ns) = str_eq h n.uri_hash || has_hash h ns

-- No two nodes have the same hash.
abbrev pub Distinct : List Node → Type 0
Distinct [] = Unit
Distinct (n ∷ ns) = (has_hash n.uri_hash ns ≡ false) × Distinct ns

seen_hash : (b c d : Bool) → b ≡ true → (not (b || c) && d) ≡ false
seen_hash b c d e = ground arith

module _ (rt : Runtime) where
  -- Is there a line with a link of this hash?
  unfoldable pub link_hash : Bytes → List Bytes → Bool
  link_hash h [] = false
  link_hash h (line ∷ lines) =
      (elim (node_of rt (trim_right b'\r' line)) [ none ↦ false | some n ↦ str_eq h n.uri_hash ])
      || link_hash h lines

  -- a step of the loop, with the node of the line as a value
  unfoldable step : List Bytes → List Bytes → Option Node → List Node
  unfolding one_of
  step seen lines none = add_lines rt seen lines
  step seen lines (some n) =
      if one_of n.uri_hash seen
      then add_lines rt seen lines
      else n ∷ add_lines rt (n.uri_hash ∷ seen) lines

  step_lem :
      (seen lines : List Bytes) (line : Bytes)
      → add_lines rt seen (line ∷ lines) ≡ step seen lines (node_of rt (trim_right b'\r' line))
  unfolding add_lines step
  step_lem seen lines line = elim (Option-cases (node_of rt (trim_right b'\r' line))) [
    | inl e ↦ rw (e, add_lines) refl
    | inr (n, e) ↦ rw (e, add_lines) refl
  ]

  has_hash-step :
      (h : Bytes) (seen lines : List Bytes)
      → ((seen : List Bytes)
          → has_hash h (add_lines rt seen lines) ≡ (not (one_of h seen) && link_hash h lines))
      → (o : Option Node)
      → has_hash h (step seen lines o) ≡ (
          not (one_of h seen)
          && ((elim o [ none ↦ false | some n ↦ str_eq h n.uri_hash ]) || link_hash h lines))
  unfolding step one_of
  has_hash-step h seen lines ih none = ih seen
  has_hash-step h seen lines ih (some n) =
      ground (arith, str_eq_iff h n.uri_hash, ih seen, ih (n.uri_hash ∷ seen))

  -- The hashes of the result are those of the links that were not seen before.
  has_hash-add_lines :
      (h : Bytes) (lines seen : List Bytes)
      → has_hash h (add_lines rt seen lines) ≡ (not (one_of h seen) && link_hash h lines)
  unfolding add_lines link_hash
  has_hash-add_lines h [] seen = ground arith
  has_hash-add_lines h (line ∷ lines) seen =
      rw (step_lem seen lines line) (
        has_hash-step h seen lines (has_hash-add_lines h lines)
          (node_of rt (trim_right b'\r' line)))

  Distinct-step :
      (seen lines : List Bytes)
      → ((seen : List Bytes) → Distinct (add_lines rt seen lines))
      → (o : Option Node) → Distinct (step seen lines o)
  unfolding step one_of
  Distinct-step seen lines ih none = ih seen
  Distinct-step seen lines ih (some n) = elim (Bool-cases (one_of n.uri_hash seen)) [
    | inl e ↦ rw e (ih seen)
    | inr e ↦ rw e (
      has_hash-add_lines n.uri_hash lines (n.uri_hash ∷ seen)
          ∙ seen_hash (str_eq n.uri_hash n.uri_hash) _ _
              ((str_eq_iff n.uri_hash n.uri_hash).1 refl),
      ih (n.uri_hash ∷ seen),
    )
  ]

  Distinct-add_lines : (lines seen : List Bytes) → Distinct (add_lines rt seen lines)
  unfolding add_lines
  Distinct-add_lines [] seen = tt
  Distinct-add_lines (line ∷ lines) seen =
      rw (step_lem seen lines line)
        (Distinct-step seen lines (Distinct-add_lines lines) (node_of rt (trim_right b'\r' line)))

  -- No two of the nodes that `ParseMany` returns have the same hash, and a hash is among theirs
  -- exactly if some line of the (decoded) body, without the carriage returns at its end, is a link
  -- of that hash.
  pub parse_many_hashes :
      (body h : Bytes)
      → Distinct (parse_many rt body)
        × (has_hash h (parse_many rt body) ≡ link_hash h (split b'\n' (decoded_body body)))
  unfolding parse_many one_of
  parse_many_hashes body h = (
    Distinct-add_lines (split b'\n' (decoded_body body)) [],
    has_hash-add_lines h (split b'\n' (decoded_body body)) [],
  )
