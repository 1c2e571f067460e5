-- ===== src/Model/Ordering.antt =====
-- What ORDER BY, LIMIT and WHERE leave of a list of rows.
use mathlib.Core.List.{Mem, mem-cons_self, mem-cons_of_mem, Permᴰ}
use mathlib.Core.List.Permᴰ
use proxy_harv.Prelude.{
  ℕ, zero, suc, ◌≤◌, Bool, true, List, [], ◌∷◌, take, length, All, ◌≡◌, refl, ap, arith, Bool-cases,
  inl, inr,
}
use proxy_harv.Model.{keep, insert_by, order_by}

pub All-take {ℓ} :
    {A : Type ℓ} (P : A → Type ℓ) (n : ℕ) (xs : List A) → All P xs → All P (take n xs)
All-take P zero xs h = tt
All-take P (suc n) [] h = tt
All-take P (suc n) (x ∷ xs) (h, hs) = (h, All-take P n xs hs)

module _ {ℓ} {A : Type ℓ} (P : A → Type ℓ) (before : A → A → Bool) where
  All-insert_by : (x : A) (xs : List A) → P x → All P xs → All P (insert_by before x xs)
  unfolding insert_by
  All-insert_by x [] h hs = (h, tt)
  All-insert_by x (y ∷ ys) h (k, ks) = elim (Bool-cases (before y x)) [
    | inl e ↦ rw (e, insert_by) (k, All-insert_by x ys h ks)
    | inr e ↦ rw (e, insert_by) (h, (k, ks))
  ]

  pub All-order_by : (xs : List A) → All P xs → All P (order_by before xs)
  unfolding order_by
  All-order_by [] h = tt
  All-order_by (x ∷ xs) (h, hs) = All-insert_by x (order_by before xs) h (All-order_by xs hs)

-- The kept rows are rows that match.
pub rows_kept {ℓ} :
    {A : Type ℓ} (p : A → Bool) (all xs : List A)
    → ((x : A) → Mem x xs → Mem x all)
    → All (λ x. Mem x all × (p x ≡ true)) (keep p xs)
unfolding keep
rows_kept p all [] into = tt
rows_kept p all (x ∷ xs) into =
    let rest = rows_kept p all xs (λ y m. into y (mem-cons_of_mem x m)) in
    elim (Bool-cases (p x)) [
      | inl e ↦ rw (e, keep) ((into x (mem-cons_self), e), rest)
      | inr e ↦ rw (e, keep) rest
    ]

module _ {ℓ} {A : Type ℓ} (before : A → A → Bool) where
  insert_by-Permᴰ : (x : A) (xs : List A) → Permᴰ (insert_by before x xs) (x ∷ xs)
  unfolding insert_by
  insert_by-Permᴰ x [] = Permᴰ.refl (x ∷ [])
  insert_by-Permᴰ x (y ∷ ys) = elim (Bool-cases (before y x)) [
    | inl e ↦
        rw (e, insert_by)
          (Permᴰ.trans (Permᴰ.cons refl (insert_by-Permᴰ x ys)) (Permᴰ.swap refl refl))
    | inr e ↦ rw (e, insert_by) (Permᴰ.refl (x ∷ y ∷ ys))
  ]

  -- ORDER BY permutes the rows.
  pub order_by-Permᴰ : (xs : List A) → Permᴰ (order_by before xs) xs
  unfolding order_by
  order_by-Permᴰ [] = Permᴰ.refl []
  order_by-Permᴰ (x ∷ xs) =
      Permᴰ.trans (insert_by-Permᴰ x (order_by before xs)) (Permᴰ.cons refl (order_by-Permᴰ xs))

  length-insert_by : (x : A) (xs : List A) → length (insert_by before x xs) ≡ suc (length xs)
  unfolding insert_by
  length-insert_by x [] = refl
  length-insert_by x (y ∷ ys) = elim (Bool-cases (before y x)) [
    | inl e ↦ rw (e, insert_by) (ap suc (length-insert_by x ys))
    | inr e ↦ rw (e, insert_by) refl
  ]

  pub length-order_by : (xs : List A) → length (order_by before xs) ≡ length xs
  unfolding order_by
  length-order_by [] = refl
  length-order_by (x ∷ xs) =
      omega (arith, length-insert_by x (order_by before xs), length-order_by xs)

-- LIMIT leaves a list that is not longer.
pub take_short {ℓ} : {A : Type ℓ} (n : ℕ) (xs : List A) → length xs ≤ n → take n xs ≡ xs
take_short zero [] h = refl
take_short zero (x ∷ xs) h = absurd (omega (arith, h))
take_short (suc n) [] h = refl
take_short (suc n) (x ∷ xs) h = ap (λ l. x ∷ l) (take_short n xs (omega (arith, h)))
