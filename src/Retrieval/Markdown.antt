-- ===== src/Retrieval/Markdown.antt =====
-- `chunkMarkdown` and `headingTitle` of internal/retrieval/vault.go. `Lossless` proves.
use Prim.Native.Char.{code}
use yaad_grove.Base.{
  ℕ, suc, Bool, false, not, ◌||◌, String, Option, none, some, List, [], ◌∷◌, if◌then◌else◌,
  same_text, ltb, ◌==◌,
}
use yaad_grove.Base.Text.{trim_space, ◌<>◌}

-- `mdChunk`
pub record MdChunk : Type 0 where
  pub heading : String
  pub text : String

abbrev pub grow_first : String → List String → List String
grow_first s [] = s ∷ []
grow_first s (l ∷ ls) = (s <> l) ∷ ls

-- strings.Split(s, "\n")
unfoldable pub split_lines : String → List String
split_lines String.[] = "" ∷ []
split_lines (String.◌∷◌ c s) =
    let rest = split_lines s in
    if code c == 10 then "" ∷ rest else grow_first (String.◌∷◌ c "") rest

-- How many '#' lead the text, and what follows them.
unfoldable pub hashes : String → ℕ × String
hashes String.[] = (0, "")
hashes (String.◌∷◌ c s) =
    let rest = hashes s in if code c == 35 then (suc rest.0, rest.1) else (0, String.◌∷◌ c s)

abbrev starts_blank : String → Bool
starts_blank String.[] = false
starts_blank (String.◌∷◌ c s) = code c == 32 || code c == 9

-- `headingTitle`
unfoldable pub heading_title : String → Option String
unfolding hashes
heading_title line =
    let t = hashes (trim_space line) in
    let title = trim_space t.1 in
    if t.0 == 0 || ltb 6 t.0 || not (starts_blank t.1)
    then none
    else if same_text title ""
    then none
    else some title

-- `flush`, before the chunks that follow.
abbrev pub flush : MdChunk → List MdChunk → List MdChunk
flush c rest = if same_text (trim_space c.text) "" then rest else c ∷ rest

-- The loop of `chunkMarkdown`, given the chunk that is being built.
unfoldable pub chunk_loop : List String → MdChunk → List MdChunk
unfolding heading_title
chunk_loop [] cur = flush cur []
chunk_loop (line ∷ lines) cur = elim (heading_title line) [
  | none ↦ chunk_loop lines (record { heading = cur.heading; text = cur.text <> line <> "\n" })
  | some title ↦ flush cur (chunk_loop lines (record { heading = title; text = line <> "\n" }))
]

-- `chunkMarkdown`
unfoldable pub chunk_markdown : String → List MdChunk
unfolding split_lines chunk_loop
chunk_markdown body = chunk_loop (split_lines body) (record { heading = ""; text = "" })
