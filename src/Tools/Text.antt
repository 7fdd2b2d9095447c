-- ===== src/Tools/Text.antt =====
-- The text of the answers of internal/tools/enumerate.go and dimensions.go.
use yaad_grove.Base.{
  ℕ, Bool, not, ◌&&◌, String, Option, none, some, List, [], ◌∷◌, map, Map, lookup, length, take,
  if◌then◌else◌, same_text, ltb, Result, ok, err,
}
use yaad_grove.Base.Int.{pos, pos_part, ltb_ℤ}
use yaad_grove.Base.Text.{◌<>◌}
use yaad_grove.Store.{DocRef}
use yaad_grove.Store.Structured.{or_nil}
use yaad_grove.Store.Ordered.{Direction}
use yaad_grove.Tools.{Fields, Go, Predicate, Order, ToolError, EnumerateTool, and_then}
use yaad_grove.Tools.Arguments.{scalar_arg, contains}
use yaad_grove.Tools.Enumerate.{Matches, call, from_store}

-- strings.Join
unfoldable pub join_with : String → List String → String
join_with sep [] = ""
join_with sep (s ∷ []) = s
join_with sep (s ∷ t ∷ rest) = s <> sep <> join_with sep (t ∷ rest)

ref_line : DocRef → String
ref_line r =
    if not (same_text r.title "") then "- " <> r.title <> " (" <> r.path <> ")" else "- " <> r.path

-- maxVocabPerDimension
abbrev pub max_vocab_per_dimension : ℕ
max_vocab_per_dimension = 50

module _ (go : Go) where
  -- `describePredicates`
  unfoldable pub describe_predicates : List Predicate → String
  unfolding join_with
  describe_predicates preds =
      join_with " AND " (map (λ p. p.dimension <> " = " <> go.quote p.value) preds)

  -- `formatRefs`
  unfoldable pub format_refs : List Predicate → List DocRef → String
  unfolding describe_predicates ref_line
  format_refs preds [] =
      "No documents found with "
      <> describe_predicates preds
      <> ": each filter matches documents on its own, but none matches them all."
  format_refs preds (r ∷ rs) = join_with "\n" (
      (go.decimal (length (r ∷ rs)) <> " document(s) with " <> describe_predicates preds <> ":")
      ∷ map ref_line (r ∷ rs))

  abbrev sense_of : Direction → String
  sense_of Direction.ascending = "lowest first"
  sense_of Direction.descending = "highest first"

  abbrev scope_of : List Predicate → String
  scope_of [] = "documents"
  scope_of (p ∷ ps) = "documents with " <> describe_predicates (p ∷ ps)

  -- `formatOrdered`
  unfoldable pub format_ordered : List Predicate → Order → List DocRef → String
  unfolding describe_predicates ref_line
  format_ordered preds ord [] =
      "No "
      <> scope_of preds
      <> " carry a usable "
      <> ord.field
      <> " value, so they cannot be ordered by it."
  format_ordered preds ord (r ∷ rs) =
      let head =
        go.decimal (length (r ∷ rs))
        <> " "
        <> scope_of preds
        <> ", by "
        <> ord.field
        <> " ("
        <> sense_of ord.dir
        <> ")" in
      let shown =
        if ltb_ℤ (pos 0) ord.limit
        then ", showing the first " <> go.decimal (pos_part ord.limit)
        else "" in
      join_with "\n" ((head <> shown <> ":") ∷ map ref_line (r ∷ rs))

  -- `formatUnmatched`
  unfoldable pub format_unmatched : List String → Predicate → String
  unfolding join_with
  format_unmatched dimensions p =
      "No document has "
      <> p.dimension
      <> " = "
      <> go.quote p.value
      <> ". That value matches nothing in "
      <> p.dimension
      <> ", which does not mean no such documents exist: call kb_dimensions to see the values "
      <> p.dimension
      <> " holds, or use another declared dimension ("
      <> join_with ", " dimensions
      <> ")."

  abbrev render_found : List String → List Predicate → Option Order → Matches → String
  render_found dimensions preds ord (Matches.unmatched p) = format_unmatched dimensions p
  render_found dimensions preds none (Matches.matching refs) = format_refs preds refs
  render_found dimensions preds (some ord) (Matches.matching refs) = format_ordered preds ord refs

  -- The text of `call`.
  unfoldable pub call_text : {E : Type 0} → EnumerateTool E → Fields → Result (ToolError E) String
  unfolding format_unmatched format_refs format_ordered
  call_text tool args =
      and_then (call go tool args) (λ a. ok (render_found tool.dimensions a.preds a.order a.found))

  -- The line of one dimension in `formatVocab`.
  abbrev vocab_line : String → List String → String
  vocab_line dim [] = "- " <> dim <> ": (no values indexed yet)"
  vocab_line dim (v ∷ vs) =
      let vals = v ∷ vs in
      if ltb max_vocab_per_dimension (length vals)
      then "- "
        <> dim
        <> ": "
        <> join_with ", " (take max_vocab_per_dimension vals)
        <> " … ("
        <> go.decimal (length vals)
        <> " total, showing "
        <> go.decimal max_vocab_per_dimension
        <> ")"
      else "- " <> dim <> ": " <> join_with ", " vals

  unfoldable pub vocab_lines : List String → Map (List String) → String → List String
  unfolding join_with
  vocab_lines [] vocab only = []
  vocab_lines (dim ∷ declared) vocab only =
      let rest = vocab_lines declared vocab only in
      if not (same_text only "") && not (same_text dim only)
      then rest
      else vocab_line dim (or_nil (lookup dim vocab)) ∷ rest

  abbrev vocab_text : List String → String
  vocab_text [] = "No declared dimensions."
  vocab_text (l ∷ ls) =
      "Declared dimensions and their values (use a listed value with kb_enumerate):\n"
      <> join_with "\n" (l ∷ ls)

  -- `formatVocab`
  unfoldable pub format_vocab : List String → Map (List String) → String → String
  unfolding vocab_lines
  format_vocab declared vocab only = vocab_text (vocab_lines declared vocab only)

  -- `dimensionsTool.call`
  unfoldable pub dimensions_call :
      {E : Type 0}
      → List String
      → Result E (Map (List String))
      → Fields
      → Result (ToolError E) String
  unfolding format_vocab
  dimensions_call declared vocab args =
      let only = scalar_arg args "dimension" in
      if not (same_text only "") && not (contains declared only)
      then err (ToolError.unknown_dimension only)
      else and_then (from_store vocab) (λ v. ok (format_vocab declared v only))

-- `composite`, with its base, if it has one, as a call of it.
pub record Composite (E : Type 0) : Type 0 where
  pub base : Option (String → Fields → Result (ToolError E) String)
  pub enum : EnumerateTool E
  pub vocabulary : Result E (Map (List String))
  pub has_dims : Bool

abbrev base_call :
    {E : Type 0}
    → Option (String → Fields → Result (ToolError E) String)
    → String
    → Fields
    → Result (ToolError E) String
base_call none name args = err (ToolError.unknown_tool name)
base_call (some f) name args = f name args

-- `composite.Call`
unfoldable pub composite_call :
    {E : Type 0} → Go → Composite E → String → Fields → Result (ToolError E) String
unfolding call_text dimensions_call
composite_call go c name args =
    if same_text name "kb_enumerate"
    then call_text go c.enum args
    else if same_text name "kb_dimensions" && c.has_dims
    then dimensions_call go c.enum.dimensions c.vocabulary args
    else base_call c.base name args
