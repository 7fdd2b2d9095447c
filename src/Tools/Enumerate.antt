-- ===== src/Tools/Enumerate.antt =====
-- `intersect`, `ordered` and `call` of internal/tools/enumerate.go, up to the rendering of the answer.
use yaad_grove.Base.{
  Bool, true, false, String, Option, none, some, List, [], ◌∷◌, map, keep, if◌then◌else◌, Result,
  ok, err,
}
use yaad_grove.Base.Int.{pos}
use yaad_grove.Store.{DocRef}
use yaad_grove.Store.Structured.{is_in}
use yaad_grove.Store.Ordered.{capped}
use yaad_grove.Tools.{Fields, Go, Predicate, Order, ToolError, Backend, EnumerateTool, and_then}
use yaad_grove.Tools.Arguments.{contains, parse_order, parse_predicates}

-- The documents, or the first filter that no document matches.
pub data Matches : Type 0 where
  matching : List DocRef → Matches
  unmatched : Predicate → Matches

abbrev pub from_store {ℓ} : {E : Type 0} {A : Type ℓ} → Result E A → Result (ToolError E) A
from_store (ok a) = ok a
from_store (err e) = err (ToolError.store e)

-- The keys of the map `keep`.
abbrev pub paths : List DocRef → List String
paths = map (λ r. r.path)

unfoldable pub kept_in : List DocRef → List DocRef → List DocRef
kept_in refs result = keep (λ r. is_in r.path (paths refs)) result

module _ {E : Type 0} (backend : Backend E) where
  abbrev pub if_any :
      Predicate → List DocRef → Result (ToolError E) Matches → Result (ToolError E) Matches
  if_any p [] next = ok (Matches.unmatched p)
  if_any p (r ∷ rs) next = next

  unfoldable pub intersect_rest : List DocRef → List Predicate → Result (ToolError E) Matches
  unfolding kept_in
  intersect_rest result [] = ok (Matches.matching result)
  intersect_rest result (p ∷ ps) =
      and_then (from_store (backend.enumerate p.dimension p.value))
        (λ refs. if_any p refs (intersect_rest (kept_in refs result) ps))

  -- `intersect`
  unfoldable pub intersect : List Predicate → Result (ToolError E) Matches
  unfolding intersect_rest
  intersect [] = err ToolError.index_out_of_range
  intersect (p ∷ ps) =
      and_then (from_store (backend.enumerate p.dimension p.value))
        (λ result. if_any p result (intersect_rest result ps))

  abbrev pub within : Order → Matches → Result (ToolError E) Matches
  within ord (Matches.unmatched p) = ok (Matches.unmatched p)
  within ord (Matches.matching []) = ok (Matches.matching [])
  within ord (Matches.matching (r ∷ rs)) =
      and_then (from_store (backend.ordered ord.field ord.dir (pos 0)))
        (λ all. ok (Matches.matching (capped ord.limit (kept_in (r ∷ rs) all))))

  -- `ordered`
  unfoldable pub ordered_refs : List Predicate → Order → Result (ToolError E) Matches
  unfolding intersect kept_in
  ordered_refs [] ord =
      and_then (from_store (backend.ordered ord.field ord.dir ord.limit))
        (λ refs. ok (Matches.matching refs))
  ordered_refs (p ∷ ps) ord = and_then (intersect (p ∷ ps)) (within ord)

-- The loop of `call` over the filters.
unfoldable pub undeclared : List String → List Predicate → Option String
unfolding contains
undeclared dimensions [] = none
undeclared dimensions (p ∷ ps) =
    if contains dimensions p.dimension then undeclared dimensions ps else some p.dimension

-- What `call` renders: the filters, the order and the documents.
pub record Answer : Type 0 where
  pub preds : List Predicate
  pub order : Option Order
  pub found : Matches

abbrev pub is_some {ℓ} : {A : Type ℓ} → Option A → Bool
is_some none = false
is_some (some a) = true

module _ {E : Type 0} (go : Go) (tool : EnumerateTool E) where
  abbrev pub matches_of : Option Order → List Predicate → Result (ToolError E) Matches
  matches_of none preds = intersect tool.backend preds
  matches_of (some ord) preds = ordered_refs tool.backend preds ord

  abbrev pub checked : Option Order → List Predicate → Option String → Result (ToolError E) Answer
  checked ord preds (some dim) = err (ToolError.unknown_dimension dim)
  checked ord preds none =
      and_then (matches_of ord preds)
        (λ found. ok (record { preds = preds; order = ord; found = found }))

  -- `call`
  unfoldable pub call : Fields → Result (ToolError E) Answer
  unfolding parse_order parse_predicates undeclared
  call args = and_then (parse_order go tool.orderable args) (λ ord.
      and_then (parse_predicates args (is_some ord))
        (λ preds. checked ord preds (undeclared tool.dimensions preds)))
