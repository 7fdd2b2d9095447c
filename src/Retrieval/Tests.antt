-- ===== src/Retrieval/Tests.antt =====
-- Two legs that share a chunk, and scores that are counts.
use yaad_grove.Base.Text.{◌<>◌, trim_space}
use yaad_grove.Base.{
  keep, none, some, map, Map, same_text, if◌then◌else◌, lookup, insert, ℕ, ◌+◌, ◌-◌, ◌≤◌, ltb,
  String, List, [], ◌∷◌, All, length, Result, ok, err, ◌≡◌, refl, subst,
}
use yaad_grove.Base.Float.{Float64}
use yaad_grove.Base.Text.{◌<>◌}
use yaad_grove.Retrieval.Markdown.{MdChunk, chunk_markdown}
use yaad_grove.Retrieval.Lossless.{texts, has_text, chunk_markdown-texts}
use yaad_grove.Retrieval.Orderable.{same_kind, OrderKind, Value, Parsers, parse_ordered_value, scan}
use yaad_grove.Retrieval.ReadKinds.{IsRead, scan-IsRead}
use yaad_grove.Base.Int.{pos, pos_part}
use yaad_grove.Base.Sort.{sort_by, Pairs}
use yaad_grove.Core.{Chunk}
use yaad_grove.Retrieval.{
  rrf_fuse, Scores, Planner, RetrieveError, new_planner, hybrid, semantic_leg,
}
use yaad_grove.Retrieval.Fusion.{apart}
use yaad_grove.Retrieval.Hybrid.{hybrid-IsFused}

abbrev counts : Scores ℕ
counts = record { none_yet = 0; plus = λ a b. a + b; share = λ n. 100 - n; less = ltb }

abbrev chunk : String → Chunk
chunk s = record { source = s; text = s }

abbrev planner : Planner ℕ ℕ
planner = record {
  keyword = λ q k. ok (chunk "a" ∷ chunk "b" ∷ []);
  semantic = λ v k. ok (chunk "b" ∷ chunk "c" ∷ []);
  embed = λ q. ok (7 ∷ []);
  mode = "";
  max_chunks = pos 0;
  fusion_depth = pos 0;
}

abbrev hybrid_planner : Planner ℕ ℕ
hybrid_planner = new_planner planner "hybrid" (pos 2) []

-- The chunk of both legs is first.
two_legs : hybrid hybrid_planner counts "q" ≡ ok (chunk "b" ∷ chunk "a" ∷ [])
unfolding hybrid new_planner trim_space rrf_fuse sort_by insert ◌<>◌ lookup
two_legs = refl

ok_same : {l m : List Chunk} → ◌≡◌ {A = Result ℕ (List Chunk)} (ok l) (ok m) → l ≡ m
ok_same h = cc h

leg_same :
    {l m : List Chunk} → ◌≡◌ {A = Result (RetrieveError ℕ) (List Chunk)} (ok l) (ok m) → l ≡ m
leg_same h = cc h

abbrev Short : Chunk → Type 0
Short c = c.source ≡ c.text

hybrid-IsFused_example :
    All Short (chunk "b" ∷ chunk "a" ∷ [])
    × Pairs apart (chunk "b" ∷ chunk "a" ∷ [])
    × (length (chunk "b" ∷ chunk "a" ∷ []) ≤ pos_part hybrid_planner.max_chunks)
unfolding new_planner semantic_leg trim_space
hybrid-IsFused_example =
    hybrid-IsFused counts Short planner "hybrid" (pos 2) [] "q" (chunk "b" ∷ chunk "a" ∷ [])
      (λ l e. subst (All Short) (ok_same e) (refl, (refl, tt)))
      (λ l e. subst (All Short) (leg_same e) (refl, (refl, tt))) two_legs

abbrev dead : Planner ℕ ℕ
dead = record planner { keyword = λ q k. err 1; embed = λ q. err 2 }

-- Numbers are themselves, no text is a number, and a text is a day when the layout is a day's.
abbrev days : Parsers
days = record {
  of_int = λ z. Float64.finite z;
  parse_float = λ s. none;
  parse_time = λ layout s. if same_text layout "2006-01-02" then some (pos 86400) else none;
}

abbrev two_notes : List (Map Value)
two_notes =
    (("date", Value.text "1970-01-02") ∷ [])
    ∷ (("date", Value.whole (pos 47)) ∷ ("number", Value.whole (pos 3)) ∷ [])
    ∷ []

-- The second note's date is a number, and is skipped.
second_skipped :
    map (λ n. n.skipped) (scan days ("date" ∷ "number" ∷ []) two_notes []).0
    ≡ [] ∷ ("date" ∷ []) ∷ []
unfolding scan lookup trim_space insert same_kind
second_skipped = refl

-- A typed NaN is usable, a written one is not.
nan_usable :
    parse_ordered_value days (Value.float Float64.nan) ≡ some (Float64.nan, OrderKind.order_number)
unfolding parse_ordered_value
nan_usable = refl

scan-IsRead_example :
    All
      (λ n. All (IsRead days n.front (scan days ("date" ∷ "number" ∷ []) two_notes []).1) n.values)
      (scan days ("date" ∷ "number" ∷ []) two_notes []).0
scan-IsRead_example = scan-IsRead days ("date" ∷ "number" ∷ []) two_notes []

-- A preamble that is blank is dropped, and a tag is no heading.
two_chunks :
    chunk_markdown "\n# One\ntext\n#tag\n## Two"
    ≡ record { heading = "One"; text = "# One\ntext\n#tag\n" }
      ∷ record { heading = "Two"; text = "## Two\n" }
      ∷ []
unfolding chunk_markdown trim_space ◌<>◌
two_chunks = refl

chunk_markdown-texts_example :
    (all : List MdChunk) × (chunk_markdown "a\n# One" ≡ keep has_text all)
    × (texts all ≡ "a\n# One" <> "\n")
chunk_markdown-texts_example = chunk_markdown-texts "a\n# One"
