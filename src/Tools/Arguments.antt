-- ===== src/Tools/Arguments.antt =====
-- `scalarArg`, `intArg`, `parseOrder` and `parsePredicates` of internal/tools/enumerate.go.
use yaad_grove.Base.{
  Bool, true, false, not, ◌&&◌, ◌||◌, String, Option, none, some, List, [], ◌∷◌, ◌++◌,
  if◌then◌else◌, same_text, ltb, ◌==◌, ◌%◌, ◌^◌, ℕ,
}
use yaad_grove.Base.Int.{ℤ, pos, pos_part, neg_part}
use yaad_grove.Base.{Result, ok, err}
use yaad_grove.Base.Text.{trim_space}
use yaad_grove.Store.Ordered.{Direction}
use yaad_grove.Tools.{Float64, Json, Items, Fields, Go, Predicate, Order, ToolError, and_then}

-- args[key]
unfoldable pub get : String → Fields → Option Json
get key Fields.no_fields = none
get key (Fields.field k v rest) = if same_text k key then some v else get key rest

abbrev text_or_empty : Option Json → String
text_or_empty (some (Json.text s)) = trim_space s
text_or_empty v = ""

-- `scalarArg`
unfoldable pub scalar_arg : Fields → String → String
unfolding get
scalar_arg args key = text_or_empty (get key args)

-- `contains`
unfoldable pub contains : List String → String → Bool
contains [] s = false
contains (x ∷ ss) s = same_text x s || contains ss s

-- 1, in the units of a float64.
abbrev pub unit : ℕ
unit = 2 ^ 1074

-- n != math.Trunc(n) || n < 1
unfoldable pub not_positive_whole : Float64 → Bool
not_positive_whole (Float64.finite z) =
    not ((pos_part z % unit) == 0) || ltb (pos_part z) unit || ltb 0 (neg_part z)
not_positive_whole (Float64.infinity positive) = not positive
not_positive_whole Float64.nan = true

module _ {E : Type 0} (go : Go) where
  abbrev pub whole_number : String → Float64 → Result (ToolError E) ℤ
  whole_number key n =
      if not_positive_whole n then err (ToolError.bad_number key) else ok (go.to_int n)

  abbrev pub parsed_number : String → Option Float64 → Result (ToolError E) ℤ
  parsed_number key none = err (ToolError.bad_number key)
  parsed_number key (some n) = whole_number key n

  abbrev pub number_of : String → Option Json → Result (ToolError E) ℤ
  number_of key none = ok (pos 0)
  number_of key (some Json.null) = ok (pos 0)
  number_of key (some (Json.number n)) = whole_number key n
  number_of key (some (Json.text t)) =
      let s = trim_space t in
      if same_text s "" then ok (pos 0) else parsed_number key (go.parse_float s)
  number_of key (some (Json.boolean b)) = err (ToolError.bad_number key)
  number_of key (some (Json.array l)) = err (ToolError.bad_number key)
  number_of key (some (Json.object o)) = err (ToolError.bad_number key)

  -- `intArg`
  unfoldable pub int_arg : Fields → String → Result (ToolError E) ℤ
  unfolding get not_positive_whole
  int_arg args key = number_of key (get key args)

  -- strings.ToLower(scalarArg(args, "direction"))
  abbrev pub direction_of : String → Result (ToolError E) Direction
  direction_of s =
      if same_text s "" || same_text s "desc"
      then ok Direction.descending
      else if same_text s "asc"
      then ok Direction.ascending
      else err ToolError.bad_direction

  abbrev pub sort_error : List String → String → ToolError E
  sort_error [] field = ToolError.no_orderable
  sort_error (o ∷ os) field = ToolError.unknown_sort field

  -- `parseOrder`; an order without a field is none.
  unfoldable pub parse_order : List String → Fields → Result (ToolError E) (Option Order)
  unfolding scalar_arg contains int_arg
  parse_order orderable args =
      let field = scalar_arg args "sort" in
      if same_text field ""
      then ok none
      else if not (contains orderable field)
      then err (sort_error orderable field)
      else and_then (direction_of (go.to_lower (scalar_arg args "direction"))) (λ dir.
        and_then (int_arg args "limit")
          (λ limit. ok (some (record { field = field; dir = dir; limit = limit }))))

abbrev pub is_given : Option Json → Bool
is_given none = false
is_given (some v) = true

module _ {E : Type 0} where
  abbrev pub and_filter : Json → Result (ToolError E) Predicate
  and_filter (Json.object o) =
      let d = scalar_arg o "dimension" in
      let v = scalar_arg o "value" in
      if same_text d "" || same_text v ""
      then err ToolError.and_incomplete
      else ok (record { dimension = d; value = v })
  and_filter other = err ToolError.and_not_object

  -- The loop over the filters of 'and'.
  unfoldable pub and_filters : Items → List Predicate → Result (ToolError E) (List Predicate)
  unfolding scalar_arg
  and_filters Items.no_items preds = ok preds
  and_filters (Items.item j rest) preds =
      and_then (and_filter j) (λ p. and_filters rest (preds ++ p ∷ []))

  abbrev pub more_filters : Option Json → List Predicate → Result (ToolError E) (List Predicate)
  more_filters none preds = ok preds
  more_filters (some Json.null) preds = ok preds
  more_filters (some (Json.array items)) preds = and_filters items preds
  more_filters (some other) preds = err ToolError.and_not_list

  -- `parsePredicates`
  unfoldable pub parse_predicates : Fields → Bool → Result (ToolError E) (List Predicate)
  unfolding scalar_arg get and_filters
  parse_predicates args sorting =
      let dim = scalar_arg args "dimension" in
      let val = scalar_arg args "value" in
      if same_text dim "" && same_text val ""
      then (if sorting then ok [] else err (ToolError.both_required (is_given (get "and" args))))
      else if same_text val ""
      then err (ToolError.value_missing dim)
      else if same_text dim ""
      then err (ToolError.dimension_missing val)
      else more_filters (get "and" args) (record { dimension = dim; value = val } ∷ [])
