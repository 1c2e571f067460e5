-- ===== src/Parse/Sort.antt =====
-- sort.Strings: strings in the order of their bytes. Equal strings cannot be told apart, so every
-- sorting procedure gives the list that this one gives.
use mathlib.Core.List.{Perm, Permᴰ}
use mathlib.Core.Logic.{∥∥₁_elim}
use mathlib.Core.Path.{ap₂}
use proxy_harv.Prelude.{
  Bool, true, false, List, [], ◌∷◌, ◌≡◌, refl, ◌∙◌, sym, arith, ltb, ◌==◌, if◌then◌else◌,
}
use proxy_harv.Text.{Bytes}

-- s <= t
unfoldable pub str_le : Bytes → Bytes → Bool
str_le [] t = true
str_le (x ∷ s) [] = false
str_le (x ∷ s) (y ∷ t) =
    let rest = str_le s t in if ltb x y then true else if x == y then rest else false

unfoldable pub insert : Bytes → List Bytes → List Bytes
insert p [] = p ∷ []
insert p (q ∷ ps) = let rest = insert p ps in if str_le p q then p ∷ q ∷ ps else q ∷ rest

unfoldable pub sort : List Bytes → List Bytes
unfolding insert
sort [] = []
sort (p ∷ ps) = insert p (sort ps)

str_le_antisymm : (s t : Bytes) → str_le s t ≡ true → str_le t s ≡ true → s ≡ t
unfolding str_le
str_le_antisymm [] [] p q = refl
str_le_antisymm [] (y ∷ t) p q = cc
str_le_antisymm (x ∷ s) [] p q = cc
str_le_antisymm (x ∷ s) (y ∷ t) p q = ground (arith, str_le_antisymm s t)

str_le_total : (s t : Bytes) → str_le s t ≡ false → str_le t s ≡ true
unfolding str_le
str_le_total [] t p = cc
str_le_total (x ∷ s) [] p = refl
str_le_total (x ∷ s) (y ∷ t) p = ground (arith, str_le_total s t)

str_le_trans : (s t u : Bytes) → str_le s t ≡ true → str_le t u ≡ true → str_le s u ≡ true
unfolding str_le
str_le_trans [] t u p q = refl
str_le_trans (x ∷ s) [] u p q = cc
str_le_trans (x ∷ s) (y ∷ t) [] p q = cc
str_le_trans (x ∷ s) (y ∷ t) (z ∷ u) p q = ground (arith, str_le_trans s t u)

insert_comm : (p q : Bytes) (l : List Bytes) → insert p (insert q l) ≡ insert q (insert p l)
unfolding insert
insert_comm p q [] = ground (arith, str_le_antisymm p q, str_le_total p q, str_le_total q p)
insert_comm p q (r ∷ l) = ground (
  arith,
  insert_comm p q l,
  str_le_antisymm p q,
  str_le_total p q,
  str_le_total q p,
  str_le_trans p q r,
  str_le_trans q p r,
  str_le_total p r,
  str_le_total q r,
)

Texts-set : IsSet (List Bytes)
Texts-set = hlevel

swapped :
    {p p' q q' : Bytes} → p ≡ p' → q ≡ q' → (l : List Bytes) → sort (p' ∷ q' ∷ l) ≡ sort (q ∷ p ∷ l)
unfolding sort
swapped {p} {p'} {q} {q'} e f l = rw (e, f) (insert_comm p' q' (sort l))

sort-Permᴰ : {l m : List Bytes} → Permᴰ l m → sort l ≡ sort m
unfolding sort
sort-Permᴰ Permᴰ.nil = refl
sort-Permᴰ (Permᴰ.cons e d) = ap₂ insert e (sort-Permᴰ d)
sort-Permᴰ (Permᴰ.swap {a} {b} {l} e f) = swapped (sym e) (sym f) l
sort-Permᴰ (Permᴰ.trans d e) = sort-Permᴰ d ∙ sort-Permᴰ e

-- The sorted list depends only on which strings there are, and how often.
pub sort-Perm : {l m : List Bytes} → Perm l m → sort l ≡ sort m
sort-Perm {l} {m} p = ∥∥₁_elim p (Texts-set (sort l) (sort m)) sort-Permᴰ
