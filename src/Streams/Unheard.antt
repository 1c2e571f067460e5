-- ===== src/Streams/Unheard.antt =====
-- The consumer of a validator and the jobs of that validator.
use proxy_harv.Prelude.{
  ℕ, ◌+◌, ◌==◌, ◌||◌, Bool, true, false, Option, none, some, ◌∷◌, ◌++◌, length, length-append,
  append_assoc, All, All-append, ◌≡◌, refl, ap, ◌∙◌, arith, Bool-cases, inl, inr,
}
use proxy_harv.Text.{Bytes, codes, str_eq}
use proxy_harv.Model.{val}
use proxy_harv.Wire.{jobs_subject}
use proxy_harv.Streams.{ConsumerConfig, validator_filter, validator_consumer, consumer}

-- The text has no wildcard.
abbrev pub is_wildcard : ℕ → Bool
is_wildcard c = (c == b'*') || (c == b'>')

abbrev pub IsPlain : Bytes → Type 0
IsPlain s = All (λ c. is_wildcard c ≡ false) s

IsPlain-prefix : (vantage : Bytes) → IsPlain vantage → IsPlain (codes "jobs.validator." ++ vantage)
IsPlain-prefix vantage h =
    All-append (λ c. is_wildcard c ≡ false) (codes "jobs.validator.") vantage plain_start h
  where
    plain_start : IsPlain (codes "jobs.validator.")
    plain_start = (
      refl,
      (
        refl,
        (
          refl,
          (
            refl,
            (
              refl,
              (refl, (refl, (refl, (refl, (refl, (refl, (refl, (refl, (refl, (refl, tt)))))))))),
            ),
          ),
        ),
      ),
    )

module _ (matches : Bytes → Bytes → Bool) where
  -- What is documented of a filter that ends in ".>" and has no other wildcard: it matches only
  -- subjects that go on behind the dot.
  abbrev pub IsStrict : Type 0
  IsStrict =
      (p s : Bytes)
      → IsPlain p
      → matches (p ++ codes ".>") s ≡ true
      → (rest : Bytes) × (s ≡ p ++ (b'.' ∷ rest))

  -- A consumer, if there is one, whose filter matches the subject.
  abbrev pub gets : Option ConsumerConfig → Bytes → Bool
  gets none subject = false
  gets (some c) subject = matches c.filter subject

  longer : (s rest : Bytes) → s ≡ s ++ (b'.' ∷ rest) → ⊥
  longer s rest e =
      let long : length s ≡ length s + length (b'.' ∷ rest) =
        ap length e ∙ length-append s (b'.' ∷ rest) in
      omega (arith, long)

  unmatched :
      (vantage : Bytes)
      → IsPlain vantage
      → IsStrict
      → matches (validator_filter vantage) (jobs_subject val vantage) ≡ false
  unfolding validator_filter jobs_subject
  unmatched vantage plain strict =
      let subject = codes "jobs.validator." ++ vantage in
      let same = append_assoc (codes "jobs.validator.") vantage (codes ".>") in
      elim (Bool-cases (matches (validator_filter vantage) subject)) [
        | inr e ↦ e
        | inl e ↦
            (let (rest, longer_subject) =
                strict subject subject (IsPlain-prefix vantage plain)
                  (ap (λ f. matches f subject) same ∙ e) in
              absurd (longer subject rest longer_subject))
      ]

  -- If a filter that ends in ".>" and has no other wildcard matches only subjects that go on behind the
  -- dot, and the name of a vantage has no wildcard, then the consumer that the coordinator asks for when a vantage has sent a heartbeat in any role, if it asks for one,
  -- does not get the jobs that it publishes for the vantage to validate.
  pub validator_consumer-unheard :
      (vantage role : Bytes)
      → IsPlain vantage
      → IsStrict
      → gets (validator_consumer vantage role) (jobs_subject val vantage) ≡ false
  unfolding validator_consumer consumer
  validator_consumer-unheard vantage role plain strict =
      elim (Bool-cases (str_eq role (codes "validator"))) [
        | inl e ↦ rw (e, validator_consumer) (unmatched vantage plain strict)
        | inr e ↦ rw (e, validator_consumer) refl
      ]
