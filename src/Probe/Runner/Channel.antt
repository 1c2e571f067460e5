-- ===== src/Probe/Runner/Channel.antt =====
-- The ports that a run of the prober takes from the channel and puts back.
use mathlib.Core.List.{Perm, Permᴰ}
use mathlib.Core.List.Permᴰ
use proxy_harv.Prelude.{ℕ, some, [], ◌∷◌, ◌≡◌, refl, Bool-cases, inl, inr}
use proxy_harv.Floats.{Floats}
use proxy_harv.Parse.Outbound.{Fields}
use proxy_harv.Probe.{is_internal, Outcome}
use proxy_harv.Probe.Runner.{Ports, release, Answers, attempt, run_once}

release-Permᴰ : (p : ℕ) (ports : Ports) → Permᴰ (release p ports) (p ∷ ports)
release-Permᴰ p [] = Permᴰ.refl (p ∷ [])
release-Permᴰ p (q ∷ ports) =
    Permᴰ.trans (Permᴰ.cons refl (release-Permᴰ p ports)) (Permᴰ.swap refl refl)

module _ (fl : Floats) where
  -- If the channel is not empty, `runOnce` of any outbound returns, whatever the system answers in
  -- its one or two attempts, and the channel then holds the ports that it held before, perhaps in
  -- another order.
  pub run_once-ports :
      (outbound : Fields) (first second : ℕ → Answers fl) (p : ℕ) (ports : Ports)
      → (out : Outcome fl) × (ports' : Ports) × (run_once fl outbound first second (p ∷ ports)
          ≡ some (out, ports'))
        × Perm ports' (p ∷ ports)
  unfolding run_once
  run_once-ports outbound first second p [] =
      elim (Bool-cases (is_internal (attempt fl outbound p (first p)).0)) [
        | inl e ↦ (
          (attempt fl outbound p (second p)).1,
          p ∷ [],
          rw (e, run_once) refl,
          ∣ Permᴰ.refl (p ∷ []) ∣₁,
        )
        | inr e ↦ (
          (attempt fl outbound p (first p)).1,
          p ∷ [],
          rw (e, run_once) refl,
          ∣ Permᴰ.refl (p ∷ []) ∣₁,
        )
      ]
  run_once-ports outbound first second p (q ∷ ports) =
      elim (Bool-cases (is_internal (attempt fl outbound p (first p)).0)) [
        | inl e ↦ (
          (attempt fl outbound q (second q)).1,
          release q (release p ports),
          rw (e, run_once) refl,
          ∣ Permᴰ.trans (release-Permᴰ q (release p ports))
              (Permᴰ.trans (Permᴰ.cons refl (release-Permᴰ p ports)) (Permᴰ.swap refl refl)) ∣₁,
        )
        | inr e ↦ (
          (attempt fl outbound p (first p)).1,
          release p (q ∷ ports),
          rw (e, run_once) refl,
          ∣ release-Permᴰ p (q ∷ ports) ∣₁,
        )
      ]
