-- ===== src/Coordinator/Publishing/Fresh.antt =====
-- What a tick of the publish loop leaves behind.
use mathlib.Core.List.{Memᴰ}
use proxy_harv.Prelude.{
  ℕ, ◌+◌, ◌*◌, ◌/◌, ◌<◌, true, false, Option, none, some, List, [], ◌∷◌, length, ltb, ◌≡◌, refl,
  arith, Bool-cases, inl, inr, All,
}
use proxy_harv.Text.{is_empty}
use proxy_harv.Runtime.{Runtime}
use proxy_harv.Floats.{Floats}
use proxy_harv.Model.{Tables}
use proxy_harv.Model.Store.{list_nodes_for_publish}
use proxy_harv.Coordinator.Publishing.{
  has_id, missing_from, is_changed, period_due, ids, LoopState, should_publish, publish_tick,
}
use proxy_harv.Coordinator.System.{published_state}

has_id-IsId : (i : ℕ) (is : List ℕ) → Memᴰ i is → has_id i is ≡ true
unfolding has_id
has_id-IsId i [] d = elim d [ ]
has_id-IsId i (j ∷ js) (Memᴰ.head e) = ground (arith, e)
has_id-IsId i (j ∷ js) (Memᴰ.tail d) = ground (arith, has_id-IsId i js d)

-- No id of a part is missing from the whole.
missing_from_part :
    (whole part : List ℕ) → All (λ i. has_id i whole ≡ true) part → missing_from whole part ≡ 0
unfolding missing_from
missing_from_part whole [] h = refl
missing_from_part whole (i ∷ is) (h, hs) = rw (h, missing_from) (missing_from_part whole is hs)

has_id-All :
    (whole part : List ℕ)
    → ((i : ℕ) → Memᴰ i part → Memᴰ i whole)
    → All (λ i. has_id i whole ≡ true) part
has_id-All whole [] h = tt
has_id-All whole (i ∷ is) h =
    (has_id-IsId i whole (h i (Memᴰ.head refl)), has_id-All whole is (λ j d. h j (Memᴰ.tail d)))

nothing_missing : (n : ℕ) → ltb 20 ((0 + 0) * 100 / n) ≡ false
nothing_missing n = ground arith

-- A set is not changed against itself.
is_changed_same : (set : List ℕ) → is_changed (some set) set ≡ false
unfolding is_changed
is_changed_same [] = refl
is_changed_same (i ∷ is) =
    let same = missing_from_part (i ∷ is) (i ∷ is) (has_id-All (i ∷ is) (i ∷ is) (λ j d. d)) in
    rw same (nothing_missing (length (i ∷ is)))

-- The last version is younger than the period, and the set has not changed since then.
abbrev pub IsCurrent : ℕ → ℕ → List ℕ → LoopState → Type 0
IsCurrent period now set st =
    (t : ℕ) × (st.last_publish ≡ some t) × (now < t + period) × (is_changed st.last_set set ≡ false)

period_due-some :
    (now period : ℕ) (last : Option ℕ)
    → period_due now last period ≡ false
    → (t : ℕ) × (last ≡ some t) × (now < t + period)
unfolding period_due
period_due-some now period none e = cc
period_due-some now period (some t) e = (t, refl, ground (arith, e))

should_publish-IsCurrent :
    (fl : Floats) (period now : ℕ) (set : List ℕ) (st : LoopState)
    → should_publish fl period now set st ≡ false
    → IsCurrent period now set st
unfolding should_publish
should_publish-IsCurrent fl period now set st e =
    elim (Bool-cases (period_due now st.last_publish period)) [
      | inl f ↦ absurd (ground (arith, e, f))
      | inr f ↦
          (let (t, last, young) = period_due-some now period st.last_publish f in
            (t, last, young, ground (arith, e, f)))
    ]

module _ (fl : Floats) (rt : Runtime) where
  -- A tick with a node to publish, in whatever state of the loop.
  pub publish_tick-IsCurrent :
      (period now : ℕ) (db : Tables fl) (st : LoopState)
      → 0 < period
      → is_empty (list_nodes_for_publish fl db) ≡ false
      → IsCurrent period now
          (ids fl (list_nodes_for_publish fl db))
          (published_state fl
            (record { tables = db; loop = st })
            (publish_tick fl rt period now db st)).loop
  unfolding publish_tick
  publish_tick-IsCurrent period now db st h some_node =
      let set = ids fl (list_nodes_for_publish fl db) in
      elim (Bool-cases (should_publish fl period now set st)) [
        | inl e ↦ rw (some_node, e, publish_tick) (now, refl, omega (arith, h), is_changed_same set)
        | inr e ↦ rw (some_node, e, publish_tick) (should_publish-IsCurrent fl period now set st e)
      ]
