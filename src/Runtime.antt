-- ===== src/Runtime.antt =====
-- What the sources call and this repository does not hold: Unicode's case tables, SHA-256 and
-- the parser of JSON texts. They are parameters of every definition that uses them.
use proxy_harv.Prelude.{ℕ, ◌+◌, ◌/◌, ◌%◌, Bool, Option, List, [], ◌∷◌, map, ltb, if◌then◌else◌}
use proxy_harv.Text.{Bytes, is_ascii, lower_byte}

-- A value of `map[string]any` after json.Unmarshal. A number is given by the text that
-- strconv.FormatFloat(x, 'f', -1, 64) prints for it; `other` is null, an array or an object.
pub data JsonValue : Type 0 where
  text : Bytes → JsonValue
  number : Bytes → JsonValue
  boolean : Bool → JsonValue
  other : JsonValue

pub record Runtime : Type 0 where
  -- strings.ToLower of a text that is not all ASCII
  pub lower_wide : Bytes → Bytes
  -- sha256.Sum256
  pub sha256 : Bytes → Bytes
  -- json.Unmarshal into a map, one entry for each key; `none` is an error
  pub json_object : Bytes → Option (List (Bytes × JsonValue))

hex_digit : ℕ → ℕ
hex_digit n = if ltb n 10 then b'0' + n else 87 + n

-- hex.EncodeToString
unfoldable pub hex : Bytes → Bytes
unfolding hex_digit
hex [] = []
hex (c ∷ s) = hex_digit (c / 16) ∷ hex_digit (c % 16) ∷ hex s

-- strings.ToLower
unfoldable pub to_lower : Runtime → Bytes → Bytes
unfolding is_ascii lower_byte
to_lower rt s = if is_ascii s then map lower_byte s else rt.lower_wide s
