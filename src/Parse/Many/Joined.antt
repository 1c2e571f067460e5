-- ===== src/Parse/Many/Joined.antt =====
-- A subscription of encoded lines, as `ParseMany` reads it.
use proxy_harv.Prelude.{
  ℕ, ◌<◌, List, [], ◌∷◌, ◌++◌, ◌≡◌, ◌≢◌, refl, ap, ◌∙◌, arith, All, All-append, Lacks,
}
use proxy_harv.Text.{Bytes, join}
use proxy_harv.Text.Cut.{split-join}
use proxy_harv.Runtime.{Runtime}
use proxy_harv.Base64.{encode}
use proxy_harv.Base64.RoundTrip.{IsByte}
use proxy_harv.Parse.Many.{add_lines, parse_many}
use proxy_harv.Parse.Many.Encoded.{parse_many-encode}

-- A byte that may stand in a line.
abbrev pub InLine : ℕ → Type 0
InLine c = (c ≢ b'\n') × (c < 256)

All-Lacks : (s : Bytes) → All InLine s → Lacks b'\n' s
All-Lacks [] h = tt
All-Lacks (c ∷ s) (h, hs) = (h.0, All-Lacks s hs)

All-bytes : (s : Bytes) → All InLine s → All IsByte s
All-bytes [] h = tt
All-bytes (c ∷ s) (h, hs) = (h.1, All-bytes s hs)

lines-lack : (lines : List Bytes) → All (All InLine) lines → All (Lacks b'\n') lines
lines-lack [] h = tt
lines-lack (l ∷ ls) (h, hs) = (All-Lacks l h, lines-lack ls hs)

join-All :
    (l : Bytes) (ls : List Bytes) → All (All InLine) (l ∷ ls) → All IsByte (join b'\n' (l ∷ ls))
unfolding join
join-All l [] (h, _) = All-bytes l h
join-All l (k ∷ ls) (h, hs) = All-append IsByte l _ (All-bytes l h) (omega arith, join-All k ls hs)

append-ne-nil : (s t : Bytes) → s ≢ [] → s ++ t ≢ []
append-ne-nil [] t ne e = ne refl
append-ne-nil (c ∷ s) t ne e = cc

join-ne-nil : (l : Bytes) (ls : List Bytes) → l ≢ [] → join b'\n' (l ∷ ls) ≢ []
unfolding join
join-ne-nil l [] ne e = ne e
join-ne-nil l (k ∷ ls) ne e = append-ne-nil l _ ne e

-- `ParseMany` of encoded lines of bytes, of which the first is not empty, reads those lines.
pub parse_many-joined :
    (rt : Runtime) (l : Bytes) (ls : List Bytes)
    → l ≢ []
    → All (All InLine) (l ∷ ls)
    → parse_many rt (encode (join b'\n' (l ∷ ls))) ≡ add_lines rt [] (l ∷ ls)
parse_many-joined rt l ls ne h =
    parse_many-encode rt (join b'\n' (l ∷ ls)) (join-ne-nil l ls ne) (join-All l ls h)
    ∙ ap (add_lines rt []) (split-join b'\n' l ls (lines-lack (l ∷ ls) h))
