-- ===== src/Worker/Lines/Split.antt =====
-- `splitLines` against strings.Split.
use mathlib.Core.List.{reverse, reverse_aux-eq}
use proxy_harv.Prelude.{
  ℕ, List, [], ◌∷◌, ◌++◌, ◌==◌, ◌≡◌, refl, sym, ap, ◌∙◌, append_assoc, append-nil, Bool-cases, inl,
  inr,
}
use proxy_harv.Text.{Bytes, split, onto_head}
use proxy_harv.Worker.Lines.{trim_cr, add_line, split_from, split_lines}

-- The part behind the last newline: nothing if there is none, and otherwise a line.
abbrev pub last_line : Bytes → List Bytes
last_line [] = []
last_line (c ∷ s) = trim_cr (c ∷ s) ∷ []

-- The lines of the parts between newlines.
abbrev pub lines_of : List Bytes → List Bytes
lines_of [] = []
lines_of (p ∷ []) = last_line p
lines_of (p ∷ q ∷ ps) = add_line (trim_cr p) (lines_of (q ∷ ps))

-- a text in front of the first part
abbrev onto : Bytes → List Bytes → List Bytes
onto s [] = s ∷ []
onto s (p ∷ ps) = (s ++ p) ∷ ps

onto-onto_head :
    (s : Bytes) (c : ℕ) (ps : List Bytes) → onto s (onto_head c ps) ≡ onto (s ++ c ∷ []) ps
unfolding onto_head
onto-onto_head s c [] = refl
onto-onto_head s c (p ∷ ps) = ap (◌∷ ps) (sym (append_assoc s (c ∷ []) p))

split-cons : (sep : ℕ) (s : Bytes) → (p : Bytes) × (ps : List Bytes) × (split sep s ≡ p ∷ ps)
unfolding split onto_head
split-cons sep [] = ([], [], refl)
split-cons sep (c ∷ s) = elim (Bool-cases (c == sep)) [
  | inl e ↦ ([], split sep s, rw e refl)
  | inr e ↦ (let (p, ps, f) = split-cons sep s in (c ∷ p, ps, rw e (rw f refl)))
]

reverse_cons : (c : ℕ) (s : Bytes) → reverse (c ∷ s) ≡ reverse s ++ c ∷ []
reverse_cons c s = reverse_aux-eq s (c ∷ [])

last_line-append : (s : Bytes) (c : ℕ) → last_line (s ++ c ∷ []) ≡ trim_cr (s ++ c ∷ []) ∷ []
last_line-append [] c = refl
last_line-append (d ∷ s) c = refl

split_from_newline :
    (line s : Bytes)
    → split_from [] s ≡ lines_of (onto [] (split b'\n' s))
    → add_line (trim_cr (reverse line)) (split_from [] s)
      ≡ lines_of (onto (reverse line) ([] ∷ split b'\n' s))
split_from_newline line s ih =
    let (p, ps, e) = split-cons b'\n' s in
    rw ih
      (rw e (ap (λ w. add_line (trim_cr w) (lines_of (p ∷ ps))) (sym (append-nil (reverse line)))))

split_from_lem :
    (s line : Bytes) → split_from line s ≡ lines_of (onto (reverse line) (split b'\n' s))
unfolding split_from split
split_from_lem [] [] = refl
split_from_lem [] (c ∷ line) =
    rw (append-nil (reverse (c ∷ line)))
      (rw (reverse_cons c line) (sym (last_line-append (reverse line) c)))
split_from_lem (c ∷ s) line = elim (Bool-cases (c == b'\n')) [
  | inl e ↦ rw (e, split_from) (split_from_newline line s (split_from_lem s []))
  | inr e ↦
      rw (e, split_from)
        (split_from_lem s (c ∷ line)
          ∙ ap (λ w. lines_of (onto w (split b'\n' s))) (reverse_cons c line)
          ∙ ap lines_of (sym (onto-onto_head (reverse line) c (split b'\n' s))))
]

-- `splitLines` of any text gives the parts between its newlines, without the blanks and carriage
-- returns around them, in order: of the part behind the last newline a line is made unless it is
-- empty, and of another part unless nothing but blanks and carriage returns stands in it.
pub split_lines-split : (s : Bytes) → split_lines s ≡ lines_of (split b'\n' s)
unfolding split_lines
split_lines-split s = let (p, ps, e) = split-cons b'\n' s in split_from_lem s [] ∙ rw e refl
