-- ===== src/Retrieval/Lossless.antt =====
-- `chunkMarkdown` of internal/retrieval/vault.go keeps the whole text of a note.
use Prim.Native.Char.{code}
use text.Mathlib.TextEquality.{Char-path}
use yaad_grove.Base.{
  Bool, not, String, none, some, List, [], ◌∷◌, keep, if◌then◌else◌, same_text, Bool-cases,
  Option-cases, inl, inr, ◌≡◌, refl, sym, ap, ◌∙◌, arith, ◌==◌,
}
use yaad_grove.Base.Text.{text_assoc, trim_space, ◌<>◌}
use yaad_grove.Retrieval.Markdown.{
  MdChunk, split_lines, heading_title, flush, chunk_loop, chunk_markdown, grow_first,
}

-- The texts of chunks, one after another.
unfoldable pub texts : List MdChunk → String
texts [] = ""
texts (c ∷ cs) = c.text <> texts cs

-- strings.TrimSpace(cur.text) != ""
abbrev pub has_text : MdChunk → Bool
has_text c = not (same_text (trim_space c.text) "")

-- Every line with its end.
unfoldable pub unlines : List String → String
unlines [] = ""
unlines (l ∷ ls) = l <> "\n" <> unlines ls

split_lines-cons : (s : String) → (l : String) × (ls : List String) × (split_lines s ≡ l ∷ ls)
unfolding split_lines
split_lines-cons String.[] = ("", [], refl)
split_lines-cons (String.◌∷◌ c s) =
    let (l, ls, e) = split_lines-cons s in
    elim (Bool-cases (code c == 10)) [
      | inl end ↦ ("", split_lines s, rw end refl)
      | inr inside ↦ (String.◌∷◌ c "" <> l, ls, rw inside (ap (grow_first (String.◌∷◌ c "")) e))
    ]

unlines-split_lines : (s : String) → unlines (split_lines s) ≡ s <> "\n"
unfolding split_lines unlines ◌<>◌
unlines-split_lines String.[] = refl
unlines-split_lines (String.◌∷◌ c s) =
    let (l, ls, e) = split_lines-cons s in
    let ih = unlines-split_lines s in
    elim (Bool-cases (code c == 10)) [
      | inl end ↦ rw end (
          ap (λ t. String.◌∷◌ "\n" t) ih
          ∙ ap (λ d. String.◌∷◌ d (s <> "\n")) (sym (Char-path c "\n" (ground (arith, end)))))
      | inr inside ↦ rw inside (
          ap (λ x. unlines (grow_first (String.◌∷◌ c "") x)) e
          ∙ ap (String.◌∷◌ c) (sym (ap unlines e) ∙ ih))
    ]

-- Every chunk that the loop ends, the blank ones too.
unfoldable pub all_chunks : List String → MdChunk → List MdChunk
all_chunks [] cur = cur ∷ []
all_chunks (line ∷ lines) cur = elim (heading_title line) [
  | none ↦ all_chunks lines (record { heading = cur.heading; text = cur.text <> line <> "\n" })
  | some title ↦ cur ∷ all_chunks lines (record { heading = title; text = line <> "\n" })
]

flush_lem :
    (c : MdChunk) (rest : List MdChunk) → flush c rest ≡ (if has_text c then c ∷ rest else rest)
flush_lem c rest = ground arith

chunk_loop-keep :
    (lines : List String) (cur : MdChunk)
    → chunk_loop lines cur ≡ keep has_text (all_chunks lines cur)
unfolding chunk_loop all_chunks
chunk_loop-keep [] cur = ground arith
chunk_loop-keep (line ∷ lines) cur = elim (Option-cases (heading_title line)) [
  | inl body ↦
      rw (body, chunk_loop, all_chunks)
        (chunk_loop-keep lines (record { heading = cur.heading; text = cur.text <> line <> "\n" }))
  | inr (title, at) ↦
      rw (at, chunk_loop, all_chunks)
        (ap (flush cur) (chunk_loop-keep lines (record { heading = title; text = line <> "\n" }))
          ∙ flush_lem cur
              (keep has_text (all_chunks lines (record { heading = title; text = line <> "\n" }))))
]

texts-all_chunks :
    (lines : List String) (cur : MdChunk) → texts (all_chunks lines cur) ≡ cur.text <> unlines lines
unfolding all_chunks texts unlines
texts-all_chunks [] cur = refl
texts-all_chunks (line ∷ lines) cur = elim (Option-cases (heading_title line)) [
  | inl body ↦
      rw (body, all_chunks)
        (texts-all_chunks lines (record { heading = cur.heading; text = cur.text <> line <> "\n" })
          ∙ text_assoc (cur.text <> line) "\n" (unlines lines)
          ∙ text_assoc cur.text line ("\n" <> unlines lines)
          ∙ ap (λ t. cur.text <> t) (sym (text_assoc line "\n" (unlines lines))))
  | inr (title, at) ↦
      rw (at, all_chunks)
        (ap (λ t. cur.text <> t)
          (texts-all_chunks lines (record { heading = title; text = line <> "\n" })))
]

-- Chunking loses nothing but blank chunks: the chunks of a note are those with text of a list of chunks
-- whose texts, one after another, are the whole body and a line end.
pub chunk_markdown-texts :
    (body : String)
    → (all : List MdChunk) × (chunk_markdown body ≡ keep has_text all) × (texts all ≡ body <> "\n")
unfolding chunk_markdown ◌<>◌
chunk_markdown-texts body =
    let start : MdChunk = record { heading = ""; text = "" } in
    (
      all_chunks (split_lines body) start,
      chunk_loop-keep (split_lines body) start,
      texts-all_chunks (split_lines body) start ∙ unlines-split_lines body,
    )
