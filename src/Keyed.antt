-- ===== src/Keyed.antt =====
-- Go's maps, as lists with one entry for each key.
use proxy_harv.Prelude.{Bool, List, [], ◌∷◌, if◌then◌else◌, ◌≡◌, refl, arith}
use proxy_harv.Text.{Bytes, str_eq, str_eq_iff}

-- m[k], with the value of a missing key
unfoldable pub value_at {ℓ κ} :
    {K : Type ℓ} {V : Type κ} → (K → K → Bool) → V → K → List (K × V) → V
value_at eq zero_value k [] = zero_value
value_at eq zero_value k ((j, v) ∷ m) =
    let rest = value_at eq zero_value k m in if eq k j then v else rest

-- m[k] = f(m[k])
unfoldable pub update_at {ℓ κ} :
    {K : Type ℓ} {V : Type κ} → (K → K → Bool) → V → (V → V) → K → List (K × V) → List (K × V)
update_at eq zero_value f k [] = (k, f zero_value) ∷ []
update_at eq zero_value f k ((j, v) ∷ m) =
    let rest = update_at eq zero_value f k m in if eq k j then (j, f v) ∷ m else (j, v) ∷ rest

-- A change at one key leaves the other keys alone.
pub value_at-update_at {κ} :
    {V : Type κ} (d : V) (f : V → V) (k j : Bytes) (m : List (Bytes × V))
    → value_at str_eq d k (update_at str_eq d f j m)
      ≡ (if str_eq k j then f (value_at str_eq d k m) else value_at str_eq d k m)
unfolding value_at update_at
value_at-update_at d f k j [] = refl
value_at-update_at d f k j ((i, v) ∷ m) =
    ground (arith, value_at-update_at d f k j m, str_eq_iff j i, str_eq_iff k i, str_eq_iff k j)
