-- ===== src/Text/Number.antt =====
-- strconv.Itoa of a count and strconv.Atoi into Go's 64-bit int.
use proxy_harv.Prelude.{
  ℕ, zero, suc, ◌+◌, ◌-◌, ◌*◌, ◌/◌, ◌%◌, ◌^◌, Bool, true, false, ◌&&◌, Option, none, some, [], ◌∷◌,
  ◌≡◌, refl, ltb, leb, ◌==◌, if◌then◌else◌,
}
use proxy_harv.Text.{Bytes, codes}

-- A Go int. `negsuc n` is -(n + 1).
pub data ℤ : Type 0 where
  pos : ℕ → ℤ
  negsuc : ℕ → ℤ

-- v > 0
unfoldable pub is_positive : ℤ → Bool
is_positive (pos zero) = false
is_positive (pos (suc n)) = true
is_positive (negsuc n) = false

-- v == 0
unfoldable pub is_zero : ℤ → Bool
is_zero (pos zero) = true
is_zero (pos (suc n)) = false
is_zero (negsuc n) = false

-- The digits of a number, in front of a text. The fuel is more than the number, so it suffices.
unfoldable pub itoa_onto : ℕ → ℕ → Bytes → Bytes
itoa_onto zero n out = out
itoa_onto (suc f) n out =
    let rest = itoa_onto f (n / 10) ((b'0' + n % 10) ∷ out) in
    if ltb n 10 then (b'0' + n) ∷ out else rest

-- strconv.Itoa of a number that is not negative
unfoldable pub itoa : ℕ → Bytes
unfolding itoa_onto
itoa n = itoa_onto (suc n) n []

-- the text of an int
unfoldable pub int_text : ℤ → Bytes
unfolding itoa
int_text (pos n) = itoa n
int_text (negsuc n) = b'-' ∷ itoa (suc n)

abbrev pub is_digit : ℕ → Bool
is_digit c = leb b'0' c && leb c b'9'

-- The number that the digits spell behind `n`.
unfoldable pub digits_from : ℕ → Bytes → Option ℕ
digits_from n [] = some n
digits_from n (c ∷ s) = if is_digit c then digits_from (n * 10 + (c - b'0')) s else none

unfoldable pub digits : Bytes → Option ℕ
unfolding digits_from
digits [] = none
digits (c ∷ s) = digits_from 0 (c ∷ s)

unfoldable pub in_int : Option ℕ → Option ℤ
in_int none = none
in_int (some n) = if ltb n (2 ^ 63) then some (pos n) else none

unfoldable pub negated : Option ℕ → Option ℤ
negated none = none
negated (some zero) = some (pos 0)
negated (some (suc n)) = if ltb n (2 ^ 63) then some (negsuc n) else none

-- strconv.Atoi; `none` is an error
unfoldable pub atoi : Bytes → Option ℤ
unfolding digits in_int negated
atoi [] = none
atoi (c ∷ s) =
    if c == b'-'
    then negated (digits s)
    else if c == b'+'
    then in_int (digits s)
    else in_int (digits (c ∷ s))

-- The value of the digits as a uint64: 2^64 - 1 from the digit on at which it gets too large, whatever
-- stands behind that digit.
unfoldable pub capped_from : ℕ → Bytes → Option ℕ
capped_from n [] = some n
capped_from n (c ∷ s) =
    let m = n * 10 + (c - b'0') in
    let rest = capped_from m s in
    if is_digit c then (if ltb m (2 ^ 64) then rest else some (2 ^ 64 - 1)) else none

unfoldable pub capped : Bytes → Option ℕ
unfolding capped_from
capped [] = none
capped (c ∷ s) = capped_from 0 (c ∷ s)

-- the ints next to a number, and next to its negation
unfoldable pub nearest : Option ℕ → ℤ
nearest none = pos 0
nearest (some n) = if ltb n (2 ^ 63) then pos n else pos (2 ^ 63 - 1)

unfoldable pub nearest_negated : Option ℕ → ℤ
nearest_negated none = pos 0
nearest_negated (some zero) = pos 0
nearest_negated (some (suc n)) = if ltb n (2 ^ 63) then negsuc n else negsuc (2 ^ 63 - 1)

-- The value of strconv.Atoi beside its error: 0 on a syntax error, the nearest int on a range error.
unfoldable pub atoi_value : Bytes → ℤ
unfolding capped nearest nearest_negated
atoi_value [] = pos 0
atoi_value (c ∷ s) =
    if c == b'-'
    then nearest_negated (capped s)
    else if c == b'+'
    then nearest (capped s)
    else nearest (capped (c ∷ s))

abbrev AtoiTests : Type 0
AtoiTests =
    (atoi (codes "443") ≡ some (pos 443))
    × (atoi (codes "-7") ≡ some (negsuc 6))
    × (atoi (codes "+08") ≡ some (pos 8))
    × (atoi (codes "9223372036854775808") ≡ none)
    × (atoi_value (codes "-12") ≡ negsuc 11)
    × (atoi_value (codes "9223372036854775808") ≡ pos (2 ^ 63 - 1))
    × (atoi_value (codes "-99999999999999999999x") ≡ negsuc (2 ^ 63 - 1))
    × (atoi_value (codes "9223372036854775808x") ≡ pos 0)
    × (itoa 1080 ≡ codes "1080")

atoi_runs : AtoiTests
unfolding atoi atoi_value itoa
atoi_runs = (refl, refl, refl, refl, refl, refl, refl, refl, refl)
