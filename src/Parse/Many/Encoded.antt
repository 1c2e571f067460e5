-- ===== src/Parse/Many/Encoded.antt =====
-- A subscription whose whole body is encoded, as `ParseMany` reads it.
use proxy_harv.Prelude.{
  ℕ, ◌+◌, ◌*◌, ◌/◌, ◌%◌, ◌<◌, true, false, none, [], ◌∷◌, ◌++◌, ◌≡◌, ◌≢◌, refl, ap, arith, All,
}
use proxy_harv.Text.{Bytes, strip_prefix, prepend, split}
use proxy_harv.Text.Space.{IsGraphic, trim_space, trim_space_solid}
use proxy_harv.Runtime.{Runtime}
use proxy_harv.Base64.{digit, encode}
use proxy_harv.Base64.RoundTrip.{IsByte, encode-ne-nil, b64_decode-encode_padded}
use proxy_harv.Parse.Canonical.{scheme_split}
use proxy_harv.Parse.Many.{
  is_base64_byte, all_base64, has_delimiter, is_probably_base64, decoded_body, add_lines,
  parse_many,
}

-- A byte of the alphabet or the padding.
abbrev IsLetter : ℕ → Type 0
IsLetter c = (is_base64_byte c ≡ true) × (IsGraphic c) × (c ≢ b':')

digit-IsLetter : (n : ℕ) → n < 64 → IsLetter (digit n)
unfolding digit
digit-IsLetter n h = ground arith

pad-IsLetter : IsLetter b'='
pad-IsLetter = ground arith

encode-All : (s : Bytes) → All IsByte s → All IsLetter (encode s)
unfolding encode
encode-All [] h = tt
encode-All (a ∷ []) (ha, _) = (
  digit-IsLetter (a / 4) (omega (arith, ha)),
  (digit-IsLetter (a % 4 * 16) (omega (arith, ha)), (pad-IsLetter, (pad-IsLetter, tt))),
)
encode-All (a ∷ b ∷ []) (ha, (hb, _)) = (
  digit-IsLetter (a / 4) (omega (arith, ha)),
  (
    digit-IsLetter (a % 4 * 16 + b / 16) (omega (arith, ha, hb)),
    (digit-IsLetter (b % 16 * 4) (omega (arith, hb)), (pad-IsLetter, tt)),
  ),
)
encode-All (a ∷ b ∷ c ∷ s) (ha, (hb, (hc, hs))) = (
  digit-IsLetter (a / 4) (omega (arith, ha)),
  (
    digit-IsLetter (a % 4 * 16 + b / 16) (omega (arith, ha, hb)),
    (
      digit-IsLetter (b % 16 * 4 + c / 64) (omega (arith, hb, hc)),
      (digit-IsLetter (c % 64) (omega (arith, hc)), encode-All s hs),
    ),
  ),
)

-- The last byte of a text, with a property of all of its bytes.
pub last_byte :
    {P : ℕ → Type 0} (c : ℕ) (s : Bytes)
    → All P (c ∷ s)
    → (m : Bytes) × (d : ℕ) × (c ∷ s ≡ m ++ d ∷ []) × P d
last_byte c [] h = ([], c, refl, h.0)
last_byte c (b ∷ s) h = let (m, d, e, p) = last_byte b s h.1 in (c ∷ m, d, ap (c ∷◌) e, p)

trim_space-letters : (s : Bytes) → All IsLetter s → trim_space s ≡ s
unfolding trim_space
trim_space-letters [] h = refl
trim_space-letters (c ∷ s) h =
    let (m, d, e, p) = last_byte c s h in trim_space_solid c d s m e h.0.1 p.1

all_base64-letters : (s : Bytes) → All IsLetter s → all_base64 s ≡ true
unfolding all_base64
all_base64-letters [] h = refl
all_base64-letters (c ∷ s) h = ground (arith, all_base64-letters s h.1)

scheme_split-letters : (s : Bytes) → All IsLetter s → scheme_split s ≡ none
unfolding scheme_split strip_prefix prepend
scheme_split-letters [] h = refl
scheme_split-letters (c ∷ s) h = ground (arith, scheme_split-letters s h.1)

has_delimiter-letters : (s : Bytes) → All IsLetter s → has_delimiter s ≡ false
unfolding has_delimiter
has_delimiter-letters s h = rw (scheme_split-letters s h, has_delimiter) refl

letters-is_probably_base64 : (s : Bytes) → s ≢ [] → All IsLetter s → is_probably_base64 s ≡ true
unfolding is_probably_base64
letters-is_probably_base64 [] ne h = absurd (ne refl)
letters-is_probably_base64 (c ∷ s) ne h =
    rw (trim_space-letters (c ∷ s) h)
      (rw (has_delimiter-letters (c ∷ s) h) (all_base64-letters (c ∷ s) h))

module _ (rt : Runtime) where
  -- `ParseMany` of the StdEncoding of a text of bytes that is not empty reads the lines of the
  -- text, and so finds the nodes whose links they are.
  pub parse_many-encode :
      (s : Bytes)
      → s ≢ []
      → All IsByte s
      → parse_many rt (encode s) ≡ add_lines rt [] (split b'\n' s)
  unfolding parse_many decoded_body
  parse_many-encode s ne h =
      rw (letters-is_probably_base64 (encode s) (encode-ne-nil s ne) (encode-All s h))
        (rw (b64_decode-encode_padded s ne h) refl)
