-- ===== src/Text.antt =====
-- Go's strings as lists of bytes, with what the sources use of the package `strings`.
-- A slice at an index that a search returned is one function here: `index_split c s` gives
-- `(s[:j], s[j+1:])` for `j = strings.IndexByte(s, c)`.
pub mod Space
pub mod Cut
pub mod Number
pub mod Url
use Prim.Native.Char.{code}
use Prim.Native.String.{String}
use proxy_harv.Prelude.{
  ℕ, ◌+◌, ◌≤◌, ◌<◌, Bool, true, false, not, ◌&&◌, ◌||◌, Option, none, some, List, [], ◌∷◌, ◌++◌,
  map, ◌≡◌, ◌↔◌, refl, arith, ltb, leb, ◌==◌, if◌then◌else◌,
}

abbrev pub Bytes : Type 0
Bytes = List ℕ

-- The bytes of an ASCII literal.
abbrev pub codes : String → Bytes
codes String.[] = []
codes (String.◌∷◌ c s) = code c ∷ codes s

unfoldable pub str_eq : Bytes → Bytes → Bool
str_eq [] [] = true
str_eq (x ∷ xs) (y ∷ ys) = x == y && str_eq xs ys
str_eq _ _ = false

pub str_eq_iff : (a b : Bytes) → (str_eq a b ≡ true) ↔ (a ≡ b)
unfolding str_eq
str_eq_iff (x ∷ a) (y ∷ b) = ground (arith, str_eq_iff a b)
str_eq_iff _ _ = ground arith

abbrev pub is_empty {ℓ} : {A : Type ℓ} → List A → Bool
is_empty [] = true
is_empty (x ∷ xs) = false

-- `switch s { case ... }` with one body for several strings.
unfoldable pub one_of : Bytes → List Bytes → Bool
one_of s [] = false
one_of s (k ∷ ks) = str_eq s k || one_of s ks

unfoldable pub prepend : ℕ → Option (Bytes × Bytes) → Option (Bytes × Bytes)
prepend c none = none
prepend c (some (a, b)) = some (c ∷ a, b)

-- strings.IndexByte, and the two slices beside the byte
unfoldable pub index_split : ℕ → Bytes → Option (Bytes × Bytes)
unfolding prepend
index_split c [] = none
index_split c (x ∷ s) =
    let rest = index_split c s in if x == c then some ([], s) else prepend x rest

-- strings.LastIndexByte, and the two slices beside the byte
unfoldable pub last_choice : ℕ → ℕ → Bytes → Option (Bytes × Bytes) → Option (Bytes × Bytes)
last_choice c x s (some (a, b)) = some (x ∷ a, b)
last_choice c x s none = if x == c then some ([], s) else none

unfoldable pub last_split : ℕ → Bytes → Option (Bytes × Bytes)
unfolding last_choice
last_split c [] = none
last_split c (x ∷ s) = last_choice c x s (last_split c s)

-- strings.Cut with a separator of one byte: `(before, after, found)`
unfoldable pub cut_of : Bytes → Option (Bytes × Bytes) → Bytes × Bytes × Bool
cut_of s none = (s, [], false)
cut_of s (some (a, b)) = (a, b, true)

unfoldable pub cut : ℕ → Bytes → Bytes × Bytes × Bool
unfolding cut_of index_split
cut c s = cut_of s (index_split c s)

-- strings.HasPrefix and strings.TrimPrefix
unfoldable pub strip_prefix : Bytes → Bytes → Option Bytes
strip_prefix [] s = some s
strip_prefix (p ∷ ps) [] = none
strip_prefix (p ∷ ps) (c ∷ s) = let rest = strip_prefix ps s in if p == c then rest else none

unfoldable pub has_prefix : Bytes → Bytes → Bool
unfolding strip_prefix
has_prefix p s = elim (strip_prefix p s) [ none ↦ false | some _ ↦ true ]

unfoldable pub trim_prefix : Bytes → Bytes → Bytes
unfolding strip_prefix
trim_prefix p s = elim (strip_prefix p s) [ none ↦ s | some r ↦ r ]

-- strings.TrimSuffix: the longest part after which the suffix alone stands
unfoldable pub trim_suffix : Bytes → Bytes → Bytes
unfolding str_eq
trim_suffix p [] = []
trim_suffix p (c ∷ s) = let rest = trim_suffix p s in if str_eq (c ∷ s) p then [] else c ∷ rest

-- strings.Split with a separator of one byte; at least one part
unfoldable pub onto_head : ℕ → List Bytes → List Bytes
onto_head c [] = (c ∷ []) ∷ []
onto_head c (p ∷ ps) = (c ∷ p) ∷ ps

unfoldable pub split : ℕ → Bytes → List Bytes
unfolding onto_head
split sep [] = [] ∷ []
split sep (c ∷ s) = let rest = split sep s in if c == sep then [] ∷ rest else onto_head c rest

-- strings.Join
unfoldable pub join : ℕ → List Bytes → Bytes
join sep [] = []
join sep (p ∷ []) = p
join sep (p ∷ q ∷ ps) = p ++ (sep ∷ join sep (q ∷ ps))

-- strings.ToLower of an ASCII text
unfoldable pub lower_byte : ℕ → ℕ
lower_byte c = if leb b'A' c && leb c b'Z' then c + 32 else c

unfoldable pub is_ascii : Bytes → Bool
is_ascii [] = true
is_ascii (c ∷ s) = ltb c 128 && is_ascii s
