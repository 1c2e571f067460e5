-- ===== src/Bus/Fetching.antt =====
-- What `FetchMsgs` does with each message.
use mathlib.Core.List.{perm_middle, Perm}
use mathlib.Core.List.Perm
use proxy_harv.Prelude.{
  Option, none, some, List, [], ◌∷◌, ◌++◌, map, ◌≡◌, refl, ap, ◌∙◌, All, Option-cases, inl, inr,
}
use proxy_harv.Bus.{Fetched, decode_msgs}

module _ {ℓ κ} {Msg : Type ℓ} {T : Type κ} (decode : Msg → Option T) where
  -- The values are those of the messages handed on, in their order; no refused message has one.
  pub record IsFetched (ms : List Msg) (f : Fetched Msg T) : Type (ℓ ⊔ κ) where
    pub same_order : map decode f.raw ≡ map some f.out
    pub without_value : All (λ m. decode m ≡ none) f.refused
    pub nothing_lost : Perm (f.raw ++ f.refused) ms

  -- Of the messages that the consumer gives, `FetchMsgs` hands on some, with the value of each at the
  -- same position, and refuses the others, which do not decode; no message is lost or doubled.
  pub decode_msgs-IsFetched : (ms : List Msg) → IsFetched ms (decode_msgs decode ms)
  unfolding decode_msgs
  decode_msgs-IsFetched [] = record {
    same_order = refl;
    without_value = tt;
    nothing_lost = Perm.refl [];
  }
  decode_msgs-IsFetched (m ∷ ms) =
      let f = decode_msgs decode ms in
      let h = decode_msgs-IsFetched ms in
      elim (Option-cases (decode m)) [
        | inl e ↦
            rw (e, decode_msgs)
              (record {
                same_order = h.same_order;
                without_value = (e, h.without_value);
                nothing_lost =
                    Perm.trans (perm_middle f.raw f.refused) (Perm.cons m h.nothing_lost);
              })
        | inr (v, e) ↦
            rw (e, decode_msgs)
              (record {
                same_order = ap (λ o. o ∷ map decode f.raw) e ∙ ap (λ l. some v ∷ l) h.same_order;
                without_value = h.without_value;
                nothing_lost = Perm.cons m h.nothing_lost;
              })
      ]
