-- ===== src/Text/Space.antt =====
-- strings.TrimSpace over UTF-8 bytes, strings.TrimRight of one byte, and `trim` of
-- proxies/internal/parse/parse.go.
use mathlib.Core.List.{reverse, reverse-reverse, reverse-append}
use proxy_harv.Prelude.{
  ℕ, zero, suc, ◌-◌, ◌≤◌, Bool, ◌&&◌, ◌||◌, [], ◌∷◌, ◌++◌, ◌≡◌, ap, ◌∙◌, arith, leb, ◌==◌,
  if◌then◌else◌,
}
use proxy_harv.Text.{Bytes, trim_prefix, strip_prefix}

abbrev is_ascii_space : ℕ → Bool
is_ascii_space c = c == 32 || leb 9 c && leb c 13

-- The third byte of a white space character that begins with these two.
abbrev wide_space : ℕ → ℕ → ℕ → Bool
wide_space a b c =
    a == 0xe1 && b == 0x9a && c == 0x80
    || a == 0xe2 && b == 0x80 && (leb 0x80 c && leb c 0x8a || c == 0xa8 || c == 0xa9 || c == 0xaf)
    || a == 0xe2 && b == 0x81 && c == 0x9f
    || a == 0xe3 && b == 0x80 && c == 0x80

abbrev latin_space : ℕ → ℕ → Bool
latin_space a b = a == 0xc2 && (b == 0x85 || b == 0xa0)

-- How many bytes the white space character at the front takes; 0 if there is none.
unfoldable pub space_width : Bytes → ℕ
space_width [] = 0
space_width (a ∷ []) = if is_ascii_space a then 1 else 0
space_width (a ∷ b ∷ []) = if is_ascii_space a then 1 else if latin_space a b then 2 else 0
space_width (a ∷ b ∷ c ∷ _) =
    if is_ascii_space a then 1 else if latin_space a b then 2 else if wide_space a b c then 3 else 0

-- The same at the end of a text that is given from its last byte on.
unfoldable pub last_space_width : Bytes → ℕ
last_space_width [] = 0
last_space_width (a ∷ []) = if is_ascii_space a then 1 else 0
last_space_width (b ∷ a ∷ []) = if is_ascii_space b then 1 else if latin_space a b then 2 else 0
last_space_width (c ∷ b ∷ a ∷ _) =
    if is_ascii_space c then 1 else if latin_space b c then 2 else if wide_space a b c then 3 else 0

-- Drops characters while they are white space; the number counts the bytes of the current
-- character that are still to be dropped.
unfoldable pub drop_spaces : (Bytes → ℕ) → ℕ → Bytes → Bytes
drop_spaces width k [] = []
drop_spaces width (suc k) (c ∷ s) = drop_spaces width k s
drop_spaces width zero (c ∷ s) =
    let w = width (c ∷ s) in
    let rest = drop_spaces width (w - 1) s in if w == 0 then c ∷ s else rest

unfoldable pub trim_space : Bytes → Bytes
unfolding drop_spaces space_width last_space_width
trim_space s = reverse (drop_spaces last_space_width 0 (reverse (drop_spaces space_width 0 s)))

-- strings.TrimRight(s, string(c))
unfoldable pub trim_right : ℕ → Bytes → Bytes
trim_right c [] = []
trim_right c (x ∷ s) =
    let rest = trim_right c s in
    elim rest [ [] ↦ if x == c then [] else x ∷ [] | y ∷ r ↦ x ∷ y ∷ r ]

abbrev bom : Bytes
bom = 0xef ∷ 0xbb ∷ 0xbf ∷ []

-- `trim` of the package `parse`
unfoldable pub trim : Bytes → Bytes
unfolding trim_prefix trim_space
trim s =
    let s' = trim_prefix bom s in
    let s'' = trim_prefix (bom ++ 0xc2 ∷ 0xa0 ∷ []) s' in trim_space s''

-- A byte that is neither white space nor a part of a character beyond ASCII.
abbrev pub IsGraphic : ℕ → Type 0
IsGraphic c = (33 ≤ c) × (c ≤ 126)

space_width-IsGraphic : (c : ℕ) (s : Bytes) → IsGraphic c → space_width (c ∷ s) ≡ 0
unfolding space_width
space_width-IsGraphic c [] h = ground arith
space_width-IsGraphic c (b ∷ []) h = ground arith
space_width-IsGraphic c (b ∷ d ∷ s) h = ground arith

last_space_width-IsGraphic : (c : ℕ) (s : Bytes) → IsGraphic c → last_space_width (c ∷ s) ≡ 0
unfolding last_space_width
last_space_width-IsGraphic c [] h = ground arith
last_space_width-IsGraphic c (b ∷ []) h = ground arith
last_space_width-IsGraphic c (b ∷ d ∷ s) h = ground arith

drop_spaces_stop :
    (width : Bytes → ℕ) (c : ℕ) (s : Bytes)
    → width (c ∷ s) ≡ 0
    → drop_spaces width 0 (c ∷ s) ≡ c ∷ s
unfolding drop_spaces
drop_spaces_stop width c s h = ground arith

trim_prefix-bom : (c : ℕ) (p s : Bytes) → c ≤ 126 → trim_prefix (0xef ∷ p) (c ∷ s) ≡ c ∷ s
unfolding trim_prefix strip_prefix
trim_prefix-bom c p s h = ground arith

pub trim_space_solid :
    (c d : ℕ) (s m : Bytes)
    → c ∷ s ≡ m ++ d ∷ []
    → IsGraphic c
    → IsGraphic d
    → trim_space (c ∷ s) ≡ c ∷ s
unfolding trim_space
trim_space_solid c d s m e hc hd =
    let front = drop_spaces_stop space_width c s (space_width-IsGraphic c s hc) in
    let turned : reverse (c ∷ s) ≡ d ∷ reverse m = ap reverse e ∙ reverse-append m (d ∷ []) in
    let back =
      drop_spaces_stop last_space_width d (reverse m)
        (last_space_width-IsGraphic d (reverse m) hd) in
    rw front (rw turned (rw back (rw (← turned) (reverse-reverse (c ∷ s)))))

-- A text that begins and ends with graphic ASCII bytes is left as it is.
pub trim_solid :
    (c d : ℕ) (s m : Bytes) → c ∷ s ≡ m ++ d ∷ [] → IsGraphic c → IsGraphic d → trim (c ∷ s) ≡ c ∷ s
unfolding trim
trim_solid c d s m e hc hd =
    rw (trim_prefix-bom c _ s hc.1)
      (rw (trim_prefix-bom c _ s hc.1) (trim_space_solid c d s m e hc hd))
