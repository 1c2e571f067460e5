-- ===== src/Base64/RoundTrip.antt =====
-- `b64Decode` of what StdEncoding prints, with its padding or without.
use proxy_harv.Prelude.{
  ℕ, ◌+◌, ◌*◌, ◌/◌, ◌%◌, ◌<◌, Option, some, [], ◌∷◌, ◌≡◌, ◌≢◌, refl, ◌∙◌, arith, length, All,
}
use proxy_harv.Text.{Bytes}
use proxy_harv.Text.Space.{trim_right}
use proxy_harv.Base64.{
  digit, encode, digit_value, three_bytes, two_bytes, one_byte, decode_quanta, without_breaks,
  decode_std, pads, padded, b64_decode,
}

abbrev pub IsByte : ℕ → Type 0
IsByte c = c < 256

digit_value-digit : (n : ℕ) → n < 64 → digit_value b'+' b'/' (digit n) ≡ some n
unfolding digit_value digit
digit_value-digit n h = ground arith

-- A digit is a printable byte that is no padding.
pub digit_range : (n : ℕ) → n < 64 → (digit n ≢ b'=') × (digit n ≢ b'\n') × (digit n ≢ b'\r')
unfolding digit
digit_range n h = ground arith

without_breaks-digit :
    (n : ℕ) (s : Bytes) → n < 64 → without_breaks (digit n ∷ s) ≡ digit n ∷ without_breaks s
unfolding without_breaks
without_breaks-digit n s h = ground (arith, digit_range n h)

without_breaks-encode : (s : Bytes) → All IsByte s → without_breaks (encode s) ≡ encode s
unfolding encode
without_breaks-encode [] h = unfold without_breaks in refl
without_breaks-encode (a ∷ []) (ha, _) =
    rw (without_breaks-digit (a / 4) _ (omega arith))
      (rw (without_breaks-digit (a % 4 * 16) _ (omega arith)) (unfold without_breaks in refl))
without_breaks-encode (a ∷ b ∷ []) (ha, (hb, _)) =
    rw (without_breaks-digit (a / 4) _ (omega arith)) (
      rw (without_breaks-digit (a % 4 * 16 + b / 16) _ (omega arith))
        (rw (without_breaks-digit (b % 16 * 4) _ (omega arith)) (unfold without_breaks in refl)))
without_breaks-encode (a ∷ b ∷ c ∷ s) (ha, (hb, (hc, hs))) =
    rw (without_breaks-digit (a / 4) _ (omega arith)) (
      rw (without_breaks-digit (a % 4 * 16 + b / 16) _ (omega arith)) (
        rw (without_breaks-digit (b % 16 * 4 + c / 64) _ (omega arith))
          (rw (without_breaks-digit (c % 64) _ (omega arith)) (rw (without_breaks-encode s hs)))))

abbrev std : ℕ → Option ℕ
std = digit_value b'+' b'/'

module _ (a b : ℕ) (ha : a < 64) (hb : b < 64) where
  quantum_one :
      decode_quanta std (digit a ∷ digit b ∷ b'=' ∷ b'=' ∷ []) ≡ some ((a * 4 + b / 16) ∷ [])
  unfolding decode_quanta one_byte
  quantum_one = rw (digit_value-digit a ha) (rw (digit_value-digit b hb) refl)

  quantum_two :
      (c : ℕ)
      → c < 64
      → decode_quanta std (digit a ∷ digit b ∷ digit c ∷ b'=' ∷ [])
        ≡ some ((a * 4 + b / 16) ∷ (b % 16 * 16 + c / 4) ∷ [])
  unfolding decode_quanta two_bytes
  quantum_two c hc = ground (
    arith,
    digit_range c hc,
    digit_value-digit a ha,
    digit_value-digit b hb,
    digit_value-digit c hc,
  )

  quantum_three :
      (c d : ℕ) (s r : Bytes)
      → c < 64
      → d < 64
      → decode_quanta std s ≡ some r
      → decode_quanta std (digit a ∷ digit b ∷ digit c ∷ digit d ∷ s)
        ≡ some ((a * 4 + b / 16) ∷ (b % 16 * 16 + c / 4) ∷ (c % 4 * 64 + d) ∷ r)
  unfolding decode_quanta three_bytes
  quantum_three c d s r hc hd e = ground (
    arith,
    digit_range c hc,
    digit_range d hd,
    digit_value-digit a ha,
    digit_value-digit b hb,
    digit_value-digit c hc,
    digit_value-digit d hd,
  )

decode_quanta-encode : (s : Bytes) → All IsByte s → decode_quanta std (encode s) ≡ some s
unfolding encode
decode_quanta-encode [] h = unfold decode_quanta in refl
decode_quanta-encode (a ∷ []) (ha, _) =
    quantum_one (a / 4) (a % 4 * 16) (omega arith) (omega arith) ∙ ground arith
decode_quanta-encode (a ∷ b ∷ []) (ha, (hb, _)) =
    quantum_two (a / 4) (a % 4 * 16 + b / 16) (omega arith) (omega arith) (b % 16 * 4) (omega arith)
    ∙ ground arith
decode_quanta-encode (a ∷ b ∷ c ∷ s) (ha, (hb, (hc, hs))) =
    quantum_three (a / 4) (a % 4 * 16 + b / 16) (omega arith) (omega arith) (b % 16 * 4 + c / 64)
      (c % 64) (encode s) s (omega arith) (omega arith) (decode_quanta-encode s hs)
    ∙ ground arith

decode_std-encode : (s : Bytes) → All IsByte s → decode_std (encode s) ≡ some s
unfolding decode_std
decode_std-encode s h = rw (without_breaks-encode s h) (decode_quanta-encode s h)

-- Without its padding, a code is padded to itself again.
padded_cons_four : (a b c d : ℕ) (s : Bytes) → padded (a ∷ b ∷ c ∷ d ∷ s) ≡ a ∷ b ∷ c ∷ d ∷ padded s
unfolding padded
padded_cons_four a b c d s =
    let e : length (a ∷ b ∷ c ∷ d ∷ s) % 4 ≡ length s % 4 = omega arith in rw e (ground arith)

padded-encode : (s : Bytes) → padded (encode s) ≡ encode s
unfolding encode
padded-encode [] = unfold padded pads in refl
padded-encode (a ∷ []) = unfold padded pads in refl
padded-encode (a ∷ b ∷ []) = unfold padded pads in refl
padded-encode (a ∷ b ∷ c ∷ s) = rw padded_cons_four (rw (padded-encode s))

-- A digit in front keeps the trimming of padding inside the rest.
trim_right-digit :
    (n : ℕ) (s : Bytes) → n < 64 → trim_right b'=' (digit n ∷ s) ≡ digit n ∷ trim_right b'=' s
unfolding trim_right
trim_right-digit n s h = ground (arith, digit_range n h)

padded-trim_right-encode :
    (s : Bytes) → All IsByte s → padded (trim_right b'=' (encode s)) ≡ encode s
unfolding encode
padded-trim_right-encode [] h = unfold padded pads trim_right in refl
padded-trim_right-encode (a ∷ []) (ha, _) =
    rw (trim_right-digit (a / 4) _ (omega arith))
      (rw (trim_right-digit (a % 4 * 16) _ (omega arith)) (unfold padded pads trim_right in refl))
padded-trim_right-encode (a ∷ b ∷ []) (ha, (hb, _)) =
    rw (trim_right-digit (a / 4) _ (omega arith)) (
      rw (trim_right-digit (a % 4 * 16 + b / 16) _ (omega arith)) (
        rw (trim_right-digit (b % 16 * 4) _ (omega arith)) (unfold padded pads trim_right in refl)))
padded-trim_right-encode (a ∷ b ∷ c ∷ s) (ha, (hb, (hc, hs))) =
    rw (trim_right-digit (a / 4) _ (omega arith)) (
      rw (trim_right-digit (a % 4 * 16 + b / 16) _ (omega arith)) (
        rw (trim_right-digit (b % 16 * 4 + c / 64) _ (omega arith)) (
          rw (trim_right-digit (c % 64) _ (omega arith))
            (rw padded_cons_four (rw (padded-trim_right-encode s hs))))))

pub encode-ne-nil : (s : Bytes) → s ≢ [] → encode s ≢ []
unfolding encode
encode-ne-nil [] h e = absurd (h refl)
encode-ne-nil (a ∷ []) h e = cc
encode-ne-nil (a ∷ b ∷ []) h e = cc
encode-ne-nil (a ∷ b ∷ c ∷ s) h e = cc

b64_decode-padded : (t s : Bytes) → t ≢ [] → decode_std (padded t) ≡ some s → b64_decode t ≡ some s
unfolding b64_decode
b64_decode-padded [] s h e = absurd (h refl)
b64_decode-padded (c ∷ t) s h e = rw (e, b64_decode) refl

pub b64_decode-encode_padded : (s : Bytes) → s ≢ [] → All IsByte s → b64_decode (encode s) ≡ some s
b64_decode-encode_padded s ne h =
    b64_decode-padded (encode s) s (encode-ne-nil s ne) (rw padded-encode (decode_std-encode s h))

trim_right-encode-ne-nil : (s : Bytes) → s ≢ [] → All IsByte s → trim_right b'=' (encode s) ≢ []
unfolding encode
trim_right-encode-ne-nil [] h _ = absurd (h refl)
trim_right-encode-ne-nil (a ∷ []) h (ha, _) =
    rw (trim_right-digit (a / 4) _ (omega arith)) (λ e. cc)
trim_right-encode-ne-nil (a ∷ b ∷ []) h (ha, _) =
    rw (trim_right-digit (a / 4) _ (omega arith)) (λ e. cc)
trim_right-encode-ne-nil (a ∷ b ∷ c ∷ s) h (ha, _) =
    rw (trim_right-digit (a / 4) _ (omega arith)) (λ e. cc)

-- For every text of at least one byte, `b64Decode` returns the text from its standard base64
-- code, and also from that code with the padding cut off.
pub b64_decode-encode :
    (s : Bytes)
    → s ≢ []
    → All IsByte s
    → (b64_decode (encode s) ≡ some s) × (b64_decode (trim_right b'=' (encode s)) ≡ some s)
b64_decode-encode s ne h = (
  b64_decode-encode_padded s ne h,
  b64_decode-padded (trim_right b'=' (encode s)) s (trim_right-encode-ne-nil s ne h)
      (rw (padded-trim_right-encode s h) (decode_std-encode s h)),
)
