-- ===== src/Probe/Laws.antt =====
-- The codes of outcomes, and the verdict of curl on several targets.
use proxy_harv.Prelude.{
  zero, suc, Bool, true, false, Option, none, some, List, [], ◌∷◌, ◌≡◌, ◌≢◌, ◌↔◌, ◌⊎◌, inl, inr,
  refl, arith, Bool-cases, ◌==◌, if◌then◌else◌, not,
}
use proxy_harv.Text.{Bytes}
use proxy_harv.Text.Number.{ℤ, pos, negsuc, atoi}
use proxy_harv.Text.Space.{trim_space}
use proxy_harv.Floats.{Floats}
use proxy_harv.Probe.{
  Code, no_code, curl_exit_to_code, DialError, Outcome, failed, l0_result, l1_of, l1_of_fields,
  parse_l1, l2_of, l2_of_fields, parse_l2, curl_l1, fields, is_target_side,
}

-- `Code` is empty exactly for a success.
abbrev pub Coded : (fl : Floats) → Outcome fl → Type 0
Coded fl r = ((r.passed ≡ true) × (r.code ≡ no_code)) ⊎ ((r.passed ≡ false) × (r.code ≢ no_code))

curl_exit_to_code-ne : (e : ℤ) (l2 : Bool) → curl_exit_to_code e l2 ≢ no_code
unfolding curl_exit_to_code
curl_exit_to_code-ne (negsuc n) l2 = ground arith
curl_exit_to_code-ne (pos n) l2 = ground arith

bool_step :
    (b t q : Bool) (P : Type 0)
    → (b ≡ false → (q ≡ true) ↔ P)
    → ((if b then b else if not t then b else q) ≡ true)
      ↔ ((b ≡ true) ⊎ ((b ≡ false) × (t ≡ true) × P))
bool_step true t q P ih = (λ _. inl refl, λ _. refl)
bool_step false true q P ih = (λ p. inr (refl, refl, (ih refl).0 p), λ s. last_case s)
  where
    last_case :
        ((◌≡◌ {A = Bool} false true)
          ⊎ ((◌≡◌ {A = Bool} false false) × (◌≡◌ {A = Bool} true true) × P))
        → q ≡ true
    last_case (inl e) = cc
    last_case (inr (e, f, p)) = (ih refl).1 p
bool_step false false q P ih = (λ p. cc, λ s. no_case s)
  where
    no_case :
        ((◌≡◌ {A = Bool} false true)
          ⊎ ((◌≡◌ {A = Bool} false false) × (◌≡◌ {A = Bool} false true) × P))
        → ◌≡◌ {A = Bool} false true
    no_case (inl e) = e
    no_case (inr (e, f, p)) = f

module _ (fl : Floats) where
  failed-Coded : (c : Code) → c ≢ no_code → Coded fl (failed fl c)
  failed-Coded c h = inr (refl, h)

  l0_result-Coded : (e : Option DialError) (ms : ℤ) → Coded fl (l0_result fl e ms)
  unfolding l0_result
  l0_result-Coded none ms = inl (refl, refl)
  l0_result-Coded (some e) ms = inr (refl, ground arith)

  l1_of-Coded : (code : Option ℤ) (sec : Option fl.F) → Coded fl (l1_of fl code sec)
  unfolding l1_of
  l1_of-Coded none sec = inr (refl, ground arith)
  l1_of-Coded (some c) none = inr (refl, ground arith)
  l1_of-Coded (some (negsuc n)) (some sec) = inr (refl, ground arith)
  l1_of-Coded (some (pos n)) (some sec) = elim (Bool-cases (n == 204)) [
    | inl e ↦ inl (rw e refl, rw e refl)
    | inr e ↦ inr (rw e refl, rw e (λ x. cc))
  ]

  l1_of_fields-Coded : (ws : List Bytes) → Coded fl (l1_of_fields fl ws)
  unfolding l1_of_fields
  l1_of_fields-Coded [] = inr (refl, ground arith)
  l1_of_fields-Coded (w ∷ []) = inr (refl, ground arith)
  l1_of_fields-Coded (w ∷ v ∷ []) = l1_of-Coded (atoi w) (fl.parse v)
  l1_of_fields-Coded (w ∷ v ∷ u ∷ ws) = inr (refl, ground arith)

  parse_l1-Coded : (out : Bytes) (exit : ℤ) → Coded fl (parse_l1 fl out exit)
  unfolding parse_l1
  parse_l1-Coded out (pos zero) = l1_of_fields-Coded (fields (trim_space out))
  parse_l1-Coded out (pos (suc e)) =
      failed-Coded (curl_exit_to_code (pos (suc e)) false)
        (curl_exit_to_code-ne (pos (suc e)) false)
  parse_l1-Coded out (negsuc e) =
      failed-Coded (curl_exit_to_code (negsuc e) false) (curl_exit_to_code-ne (negsuc e) false)

  -- the test for no speed and the test for a slow one
  l2_of-Coded : (bps : Option fl.F) → Coded fl (l2_of fl bps)
  unfolding l2_of
  l2_of-Coded none = inr (refl, ground arith)
  l2_of-Coded (some bps) = elim (Bool-cases (fl.le bps (fl.of_int (pos 0)))) [
    | inl e ↦ inr (rw e refl, rw e (λ x. cc))
    | inr e ↦
        (elim (Bool-cases (
          fl.lt (fl.div (fl.mul bps (fl.of_int (pos 8))) (fl.of_int (pos 1000000)))
            (fl.div (fl.of_int (pos 1)) (fl.of_int (pos 100))))) [
              | inl f ↦ inr (rw (e, f) refl, rw (e, f) (λ x. cc))
              | inr f ↦ inl (rw (e, f) refl, rw (e, f) refl)
            ])
  ]

  l2_of_fields-Coded : (ws : List Bytes) → Coded fl (l2_of_fields fl ws)
  unfolding l2_of_fields
  l2_of_fields-Coded [] = inr (refl, ground arith)
  l2_of_fields-Coded (w ∷ ws) = l2_of-Coded (fl.parse w)

  parse_l2-Coded : (out : Bytes) (exit : ℤ) → Coded fl (parse_l2 fl out exit)
  unfolding parse_l2
  parse_l2-Coded out (pos zero) = l2_of_fields-Coded (fields (trim_space out))
  parse_l2-Coded out (pos (suc e)) =
      failed-Coded (curl_exit_to_code (pos (suc e)) true) (curl_exit_to_code-ne (pos (suc e)) true)
  parse_l2-Coded out (negsuc e) =
      failed-Coded (curl_exit_to_code (negsuc e) true) (curl_exit_to_code-ne (negsuc e) true)

  if-Coded : (b : Bool) (x y : Outcome fl) → Coded fl x → Coded fl y → Coded fl (if b then x else y)
  if-Coded true x y hx hy = hx
  if-Coded false x y hx hy = hy

  curl_l1-Coded_from :
      (run : Bytes → Bytes × ℤ) (last : Outcome fl) (targets : List Bytes)
      → Coded fl last
      → Coded fl (curl_l1 fl run last targets)
  unfolding curl_l1
  curl_l1-Coded_from run last [] h = h
  curl_l1-Coded_from run last (t ∷ ts) h =
      let r = parse_l1 fl (run t).0 (run t).1 in
      let coded : Coded fl r = parse_l1-Coded (run t).0 (run t).1 in
      let rest = curl_l1-Coded_from run r ts coded in
      if-Coded r.passed r _ coded (if-Coded (not (is_target_side r.code)) r _ coded rest)

  -- Whatever curl prints and returns for each target, the result of `curlL1` over at least one
  -- target has the empty error code exactly if the probe passed.
  pub curl_l1-Coded :
      (run : Bytes → Bytes × ℤ) (last : Outcome fl) (target : Bytes) (targets : List Bytes)
      → Coded fl (curl_l1 fl run last (target ∷ targets))
  unfolding curl_l1
  curl_l1-Coded run last t ts =
      let r = parse_l1 fl (run t).0 (run t).1 in
      let coded : Coded fl r = parse_l1-Coded (run t).0 (run t).1 in
      if-Coded r.passed r _ coded
        (if-Coded (not (is_target_side r.code)) r _ coded (curl_l1-Coded_from run r ts coded))

  abbrev pub outcome_at : (Bytes → Bytes × ℤ) → Bytes → Outcome fl
  outcome_at run t = parse_l1 fl (run t).0 (run t).1

  -- A target passes, and each one before it failed with a problem on the target's side.
  abbrev pub SomePasses : (Bytes → Bytes × ℤ) → List Bytes → Type 0
  SomePasses run [] = ⊥
  SomePasses run (t ∷ ts) =
      ((outcome_at run t).passed ≡ true)
      ⊎ (((outcome_at run t).passed ≡ false)
          × (is_target_side (outcome_at run t).code ≡ true)
          × SomePasses run ts)

  passed_if :
      (b : Bool) (x y : Outcome fl)
      → (if b then x else y).passed ≡ (if b then x.passed else y.passed)
  passed_if true x y = refl
  passed_if false x y = refl

  passes_step :
      (r rest : Outcome fl) (P : Type 0)
      → (r.passed ≡ false → (rest.passed ≡ true) ↔ P)
      → ((if r.passed then r else if not (is_target_side r.code) then r else rest).passed ≡ true)
        ↔ ((r.passed ≡ true) ⊎ ((r.passed ≡ false) × (is_target_side r.code ≡ true) × P))
  passes_step r rest P ih = rw (passed_if r.passed r _) (
      rw (passed_if (not (is_target_side r.code)) r rest)
        (bool_step r.passed (is_target_side r.code) rest.passed P ih))

  -- From a result that did not pass, `curlL1` passes exactly if one of the targets passes and each
  -- target before it failed with E_HTTP_STATUS or E_CONTENT_MISMATCH.
  pub curl_l1_passes :
      (run : Bytes → Bytes × ℤ) (last : Outcome fl) (targets : List Bytes)
      → last.passed ≡ false
      → ((curl_l1 fl run last targets).passed ≡ true) ↔ SomePasses run targets
  unfolding curl_l1
  curl_l1_passes run last [] h = ground arith
  curl_l1_passes run last (t ∷ ts) h =
      passes_step (outcome_at run t) (curl_l1 fl run (outcome_at run t) ts) (SomePasses run ts)
        (curl_l1_passes run (outcome_at run t) ts)
