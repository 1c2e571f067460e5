-- ===== src/Text/Cut.antt =====
-- Searching for a byte: what `index_split`, `last_split`, `strip_prefix` and `split` find.
use proxy_harv.Prelude.{
  ℕ, true, false, Option, none, some, List, [], ◌∷◌, ◌++◌, ◌≡◌, refl, ap, arith, ◌==◌, Lacks, All,
  Bool-cases, inl, inr, if◌then◌else◌, ◌⊎◌, Option-cases, ◌∙◌,
}
use proxy_harv.Text.{Bytes, index_split, last_split, prepend, has_prefix, split, join}

-- The first separator is found behind a part that lacks it.
pub index_split-append :
    (c : ℕ) (p r : Bytes) → Lacks c p → index_split c (p ++ c ∷ r) ≡ some (p, r)
unfolding index_split
index_split-append c [] r h = ground arith
index_split-append c (x ∷ p) r h = ground (arith, index_split-append c p r h.1)

pub index_split-none : (c : ℕ) (p : Bytes) → Lacks c p → index_split c p ≡ none
unfolding index_split
index_split-none c [] h = refl
index_split-none c (x ∷ p) h = ground (arith, index_split-none c p h.1)

pub last_split-none : (c : ℕ) (p : Bytes) → Lacks c p → last_split c p ≡ none
unfolding last_split
last_split-none c [] h = refl
last_split-none c (x ∷ p) h = rw (last_split-none c p h.1) (ground arith)

-- The last separator is found in front of a part that lacks it.
pub last_split-append : (c : ℕ) (p r : Bytes) → Lacks c r → last_split c (p ++ c ∷ r) ≡ some (p, r)
unfolding last_split
last_split-append c [] r h = rw (last_split-none c r h) (ground arith)
last_split-append c (x ∷ p) r h = rw (last_split-append c p r h) refl

index_split-none_sound : (c : ℕ) (s : Bytes) → index_split c s ≡ none → Lacks c s
unfolding index_split
index_split-none_sound c [] h = tt
index_split-none_sound c (x ∷ s) h =
    none_below c x s (index_split c s) (index_split-none_sound c s) h
  where
    none_below :
        (c x : ℕ) (s : Bytes) (o : Option (Bytes × Bytes))
        → (o ≡ none → Lacks c s)
        → (if x == c then some ([], s) else prepend x o) ≡ none
        → Lacks c (x ∷ s)
    none_below c x s none ih h = ground arith
    none_below c x s (some (a, b)) ih h = ground arith

first_byte :
    (c x : ℕ) (s a b : Bytes)
    → (x == c) ≡ true
    → ◌≡◌ {A = Option (Bytes × Bytes)} (some ([], s)) (some (a, b))
    → (x ∷ s ≡ a ++ c ∷ b) × Lacks c a
first_byte c x s a b same h = ground arith

later_byte :
    (c x : ℕ) (s a b : Bytes)
    → (x == c) ≡ false
    → (o : Option (Bytes × Bytes))
    → ((p q : Bytes) → o ≡ some (p, q) → (s ≡ p ++ c ∷ q) × Lacks c p)
    → prepend x o ≡ some (a, b)
    → (x ∷ s ≡ a ++ c ∷ b) × Lacks c a
unfolding prepend
later_byte c x s a b other none ih h = cc
later_byte c x s a b other (some (p, q)) ih h = ground (arith, ih p q refl)

-- What `index_split` returns is a splitting of the text at the first place.
pub index_split_sound :
    (c : ℕ) (s a b : Bytes) → index_split c s ≡ some (a, b) → (s ≡ a ++ c ∷ b) × Lacks c a
unfolding index_split
index_split_sound c [] a b h = cc
index_split_sound c (x ∷ s) a b h = elim (Bool-cases (x == c)) [
  | inl same ↦ first_byte c x s a b same (rw same at h)
  | inr other ↦ later_byte c x s a b other (index_split c s) (index_split_sound c s) (rw other at h)
]

-- Every text either lacks the byte or splits at its first place.
pub index_split-cases :
    (c : ℕ) (s : Bytes)
    → (Lacks c s × (index_split c s ≡ none))
      ⊎ ((a : Bytes) × (b : Bytes) × (index_split c s ≡ some (a, b)) × (s ≡ a ++ c ∷ b) × Lacks c a)
index_split-cases c s = elim (Option-cases (index_split c s)) [
  | inl e ↦ inl (index_split-none_sound c s e, e)
  | inr (p, e) ↦
      inr (p.0, p.1, e, (index_split_sound c s p.0 p.1 e).0, (index_split_sound c s p.0 p.1 e).1)
]

pub has_prefix-append : (p s : Bytes) → has_prefix p (p ++ s) ≡ true
unfolding has_prefix
has_prefix-append [] s = refl
has_prefix-append (c ∷ p) s = ground (arith, has_prefix-append p s)

-- Splitting what lacks the separator gives one part.
pub split_one : (sep : ℕ) (p : Bytes) → Lacks sep p → split sep p ≡ p ∷ []
unfolding split
split_one sep [] h = refl
split_one sep (c ∷ p) h = rw (split_one sep p h.1) (ground arith)

pub split-append :
    (sep : ℕ) (p r : Bytes) → Lacks sep p → split sep (p ++ sep ∷ r) ≡ p ∷ split sep r
unfolding split
split-append sep [] r h = ground arith
split-append sep (c ∷ p) r h = rw (split-append sep p r h.1) (ground arith)

-- Splitting a join gives the parts back, if there is a part and none holds the separator.
pub split-join :
    (sep : ℕ) (p : Bytes) (ps : List Bytes)
    → All (Lacks sep) (p ∷ ps)
    → split sep (join sep (p ∷ ps)) ≡ p ∷ ps
unfolding join
split-join sep p [] h = split_one sep p h.0
split-join sep p (q ∷ ps) h =
    split-append sep p (join sep (q ∷ ps)) h.0 ∙ ap (◌∷◌ p) (split-join sep q ps h.1)
