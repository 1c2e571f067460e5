-- ===== src/Text/Url.antt =====
-- url.QueryUnescape and url.QueryEscape.
use proxy_harv.Prelude.{
  ℕ, ◌+◌, ◌-◌, ◌*◌, ◌/◌, ◌%◌, Bool, ◌&&◌, ◌||◌, Option, none, some, [], ◌∷◌, ltb, leb, ◌==◌,
  if◌then◌else◌,
}
use proxy_harv.Text.{Bytes}

unfoldable pub unhex : ℕ → Option ℕ
unhex c =
    if leb b'0' c && leb c b'9'
    then some (c - b'0')
    else if leb b'a' c && leb c b'f'
    then some (c - 87)
    else if leb b'A' c && leb c b'F'
    then some (c - 55)
    else none

unfoldable pub put_byte : Option ℕ → Option ℕ → Option Bytes → Option Bytes
put_byte (some h) (some l) (some s) = some ((h * 16 + l) ∷ s)
put_byte _ _ _ = none

unfoldable pub put_plain : ℕ → Option Bytes → Option Bytes
put_plain c (some s) = some ((if c == b'+' then b' ' else c) ∷ s)
put_plain c none = none

-- url.QueryUnescape; `none` is an error
unfoldable pub query_unescape : Bytes → Option Bytes
unfolding unhex put_byte put_plain
query_unescape [] = some []
query_unescape (c ∷ []) = if c == b'%' then none else put_plain c (some [])
query_unescape (c ∷ d ∷ []) =
    let rest = query_unescape (d ∷ []) in if c == b'%' then none else put_plain c rest
query_unescape (c ∷ d ∷ e ∷ s) =
    let rest = query_unescape (d ∷ e ∷ s) in
    let behind = query_unescape s in
    if c == b'%' then put_byte (unhex d) (unhex e) behind else put_plain c rest

abbrev hex_upper : ℕ → ℕ
hex_upper n = if ltb n 10 then b'0' + n else 55 + n

abbrev pub is_unreserved : ℕ → Bool
is_unreserved c =
    (leb b'a' c && leb c b'z')
    || (leb b'A' c && leb c b'Z')
    || (leb b'0' c && leb c b'9')
    || c == b'-'
    || c == b'_'
    || c == b'.'
    || c == b'~'

-- url.QueryEscape
unfoldable pub query_escape : Bytes → Bytes
query_escape [] = []
query_escape (c ∷ s) =
    let rest = query_escape s in
    if is_unreserved c
    then c ∷ rest
    else if c == b' '
    then b'+' ∷ rest
    else b'%' ∷ hex_upper (c / 16) ∷ hex_upper (c % 16) ∷ rest
