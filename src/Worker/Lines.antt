-- ===== src/Worker/Lines.antt =====
-- `splitLines`, `trimCR` and `readNodesFile` of proxies/cmd/worker/main.go.
pub mod Split
use proxy_harv.Prelude.{
  ℕ, Bool, true, false, ◌||◌, ◌&&◌, not, Option, none, some, List, [], ◌∷◌, ◌++◌, ◌==◌,
  if◌then◌else◌, ◌≡◌, refl, arith, Bool-cases, inl, inr, ◌∙◌, ap, sym,
}
use mathlib.Core.List.{reverse}
use proxy_harv.Text.{Bytes, one_of, is_empty, split, onto_head}
use proxy_harv.Runtime.{Runtime}
use proxy_harv.Parse.Line.{Node}
use proxy_harv.Parse.Many.{node_of}

abbrev is_blank : ℕ → Bool
is_blank c = c == b'\r' || c == b' '

unfoldable pub drop_blank : Bytes → Bytes
drop_blank [] = []
drop_blank (c ∷ s) = let rest = drop_blank s in if is_blank c then rest else c ∷ s

-- `trimCR`: first the end, then the front
unfoldable pub trim_cr : Bytes → Bytes
unfolding drop_blank
trim_cr s = drop_blank (reverse (drop_blank (reverse s)))

-- if line != "" { out = append(out, line) }
abbrev add_line : Bytes → List Bytes → List Bytes
add_line [] out = out
add_line (c ∷ s) out = (c ∷ s) ∷ out

-- The loop of `splitLines`; `line` is s[start:i], its last byte first. What stands behind the last
-- newline is appended even if nothing is left of it.
unfoldable pub split_from : Bytes → Bytes → List Bytes
unfolding trim_cr
split_from [] [] = []
split_from (c ∷ line) [] = trim_cr (reverse (c ∷ line)) ∷ []
split_from line (c ∷ s) =
    let cut = split_from [] s in
    let more = split_from (c ∷ line) s in
    if c == b'\n' then add_line (trim_cr (reverse line)) cut else more

-- `splitLines`
unfoldable pub split_lines : Bytes → List Bytes
unfolding split_from
split_lines s = split_from [] s

-- What json.Unmarshal makes of a .json file: an array of links, or the two fields of an object.
pub data NodesFile : Type 0 where
  array : List Bytes → NodesFile
  object : List Bytes → List Bytes → NodesFile
  neither : NodesFile

unfoldable pub listed : NodesFile → List Bytes
listed (array uris) = uris
listed (object uris nodes) = uris ++ nodes
listed neither = []

module _ (rt : Runtime) where
  -- the filter of `readNodesFile`, over the hashes seen so far
  unfoldable pub keep_links : List Bytes → List Bytes → List Bytes
  unfolding node_of one_of
  keep_links seen [] = []
  keep_links seen (u ∷ us) = elim (node_of rt u) [
    | none ↦ keep_links seen us
    | some n ↦
        (let fresh = n.uri ∷ keep_links (n.uri_hash ∷ seen) us in
          let again = keep_links seen us in if one_of n.uri_hash seen then again else fresh)
  ]

  -- `readNodesFile` of a file that can be read: its text, and what a .json file decodes to
  unfoldable pub read_nodes_file : Option NodesFile → Bytes → List Bytes
  unfolding keep_links listed split_lines
  read_nodes_file json data_text =
      let uris : List Bytes = elim json [ none ↦ [] | some file ↦ listed file ] in
      keep_links [] (if is_empty uris then split_lines data_text else uris)
