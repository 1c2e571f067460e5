-- ===== src/Base64.antt =====
-- encoding/base64 as the sources use it (EncodeToString of StdEncoding, DecodeString of
-- StdEncoding and URLEncoding), and `b64Decode` of proxies/internal/parse/parse.go.
pub mod RoundTrip
use proxy_harv.Prelude.{
  ℕ, zero, suc, ◌+◌, ◌-◌, ◌*◌, ◌/◌, ◌%◌, Bool, ◌&&◌, ◌||◌, Option, none, some, [], ◌∷◌, ◌++◌, ltb,
  leb, ◌==◌, if◌then◌else◌, length,
}
use proxy_harv.Text.{Bytes, is_empty}

unfoldable pub digit : ℕ → ℕ
digit n =
    if ltb n 26
    then b'A' + n
    else if ltb n 52
    then 71 + n
    else if ltb n 62
    then n - 4
    else if n == 62
    then b'+'
    else b'/'

-- StdEncoding.EncodeToString
unfoldable pub encode : Bytes → Bytes
encode [] = []
encode (a ∷ []) = digit (a / 4) ∷ digit (a % 4 * 16) ∷ b'=' ∷ b'=' ∷ []
encode (a ∷ b ∷ []) = digit (a / 4) ∷ digit (a % 4 * 16 + b / 16) ∷ digit (b % 16 * 4) ∷ b'=' ∷ []
encode (a ∷ b ∷ c ∷ s) =
    digit (a / 4)
    ∷ digit (a % 4 * 16 + b / 16)
    ∷ digit (b % 16 * 4 + c / 64)
    ∷ digit (c % 64)
    ∷ encode s

-- The two alphabets differ in the digits 62 and 63.
unfoldable pub digit_value : ℕ → ℕ → ℕ → Option ℕ
digit_value c62 c63 c =
    if leb b'A' c && leb c b'Z'
    then some (c - b'A')
    else if leb b'a' c && leb c b'z'
    then some (c - 71)
    else if leb b'0' c && leb c b'9'
    then some (c + 4)
    else if c == c62
    then some 62
    else if c == c63
    then some 63
    else none

unfoldable pub three_bytes : Option ℕ → Option ℕ → Option ℕ → Option ℕ → Option Bytes → Option Bytes
three_bytes (some a) (some b) (some c) (some d) (some s) =
    some ((a * 4 + b / 16) ∷ (b % 16 * 16 + c / 4) ∷ (c % 4 * 64 + d) ∷ s)
three_bytes _ _ _ _ _ = none

unfoldable pub two_bytes : Option ℕ → Option ℕ → Option ℕ → Option Bytes
two_bytes (some a) (some b) (some c) = some ((a * 4 + b / 16) ∷ (b % 16 * 16 + c / 4) ∷ [])
two_bytes _ _ _ = none

unfoldable pub one_byte : Option ℕ → Option ℕ → Option Bytes
one_byte (some a) (some b) = some ((a * 4 + b / 16) ∷ [])
one_byte _ _ = none

-- Four digits at a time. Padding stands only at the end, and an unfinished quantum is an error.
unfoldable pub decode_quanta : (ℕ → Option ℕ) → Bytes → Option Bytes
decode_quanta value [] = some []
decode_quanta value (a ∷ b ∷ c ∷ d ∷ s) =
    let rest = decode_quanta value s in
    if c == b'='
    then (if d == b'=' && is_empty s then one_byte (value a) (value b) else none)
    else if d == b'='
    then (if is_empty s then two_bytes (value a) (value b) (value c) else none)
    else three_bytes (value a) (value b) (value c) (value d) rest
decode_quanta value _ = none

-- The decoder skips line breaks wherever they stand.
unfoldable pub without_breaks : Bytes → Bytes
without_breaks [] = []
without_breaks (c ∷ s) =
    let rest = without_breaks s in if c == b'\n' || c == b'\r' then rest else c ∷ rest

-- StdEncoding.DecodeString
unfoldable pub decode_std : Bytes → Option Bytes
decode_std s = decode_quanta (digit_value b'+' b'/') (without_breaks s)

-- URLEncoding.DecodeString
unfoldable pub decode_url : Bytes → Option Bytes
decode_url s = decode_quanta (digit_value b'-' b'_') (without_breaks s)

-- strings.Repeat("=", n)
unfoldable pub pads : ℕ → Bytes
pads zero = []
pads (suc n) = b'=' ∷ pads n

unfoldable pub padded : Bytes → Bytes
padded s = if length s % 4 == 0 then s else s ++ pads (4 - length s % 4)

-- `b64Decode`
unfoldable pub b64_decode : Bytes → Option Bytes
b64_decode [] = none
b64_decode (c ∷ s) =
    let p = padded (c ∷ s) in elim (decode_std p) [ some b ↦ some b | none ↦ decode_url p ]
