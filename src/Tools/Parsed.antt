-- ===== src/Tools/Parsed.antt =====
-- The arguments of `call` of internal/tools/enumerate.go: an unsorted call has a filter.
use yaad_grove.Base.{
  Bool, true, false, not, ◌&&◌, ◌||◌, String, Option, none, some, List, [], ◌∷◌, ◌++◌,
  if◌then◌else◌, Result, ok, err, same_text, ◌≡◌, refl,
}
use yaad_grove.Base.Int.{ℤ, pos}
use yaad_grove.Base.Text.{trim_space}
use yaad_grove.Store.Ordered.{Direction}
use yaad_grove.Tools.{Float64, Json, Items, Fields, Go, Predicate, Order, ToolError, and_then}
use yaad_grove.Tools.Arguments.{
  get, scalar_arg, contains, int_arg, number_of, whole_number, parsed_number, direction_of,
  sort_error, and_filter, more_filters, not_positive_whole, is_given, parse_order, parse_predicates,
  and_filters,
}
use yaad_grove.Tools.Enumerate.{from_store}

abbrev pub IsError : {E : Type 0} → ToolError E → Type 0
IsError ToolError.index_out_of_range = ⊥
IsError e = Unit

abbrev pub InRange {ℓ} : {E : Type 0} {A : Type ℓ} → Result (ToolError E) A → Type 0
InRange (ok a) = Unit
InRange (err e) = IsError e

module _ (E : Type 0) where
  pub then-InRange {ℓ κ} :
      {A : Type ℓ} {B : Type κ} (x : Result (ToolError E) A) (f : A → Result (ToolError E) B)
      → InRange x
      → ((a : A) → x ≡ ok a → InRange (f a))
      → InRange (and_then x f)
  then-InRange (ok a) f h k = k a refl
  then-InRange (err e) f h k = h

  pub from_store-InRange {ℓ} : {A : Type ℓ} (r : Result E A) → InRange (from_store r)
  from_store-InRange (ok a) = tt
  from_store-InRange (err e) = tt

  if-InRange {ℓ} :
      {A : Type ℓ} (b : Bool) (x y : Result (ToolError E) A)
      → InRange x
      → InRange y
      → InRange (if b then x else y)
  if-InRange true x y h k = h
  if-InRange false x y h k = k

  module _ (go : Go) where
    whole_number-InRange : (key : String) (f : Float64) → InRange (whole_number {E = E} go key f)
    whole_number-InRange key f =
        if-InRange (not_positive_whole f) (err (ToolError.bad_number key)) (ok (go.to_int f)) tt tt

    parsed_number-InRange :
        (key : String) (o : Option Float64) → InRange (parsed_number {E = E} go key o)
    parsed_number-InRange key none = tt
    parsed_number-InRange key (some f) = whole_number-InRange key f

    number_of-InRange : (key : String) (v : Option Json) → InRange (number_of {E = E} go key v)
    number_of-InRange key none = tt
    number_of-InRange key (some Json.null) = tt
    number_of-InRange key (some (Json.number n)) = whole_number-InRange key n
    number_of-InRange key (some (Json.text t)) =
        if-InRange (same_text (trim_space t) "") (ok (pos 0))
          (parsed_number go key (go.parse_float (trim_space t))) tt
          (parsed_number-InRange key (go.parse_float (trim_space t)))
    number_of-InRange key (some (Json.boolean b)) = tt
    number_of-InRange key (some (Json.array l)) = tt
    number_of-InRange key (some (Json.object o)) = tt

    direction_of-InRange : (s : String) → InRange (direction_of {E = E} go s)
    direction_of-InRange s =
        if-InRange (same_text s "" || same_text s "desc") (ok Direction.descending)
          (if same_text s "asc" then ok Direction.ascending else err ToolError.bad_direction) tt
          (if-InRange (same_text s "asc") (ok Direction.ascending) (err ToolError.bad_direction) tt
            tt)

    sort_error-IsError : (l : List String) (s : String) → IsError (sort_error {E = E} go l s)
    sort_error-IsError [] s = tt
    sort_error-IsError (o ∷ os) s = tt

    pub parse_order-InRange :
        (l : List String) (args : Fields) → InRange (parse_order {E = E} go l args)
    unfolding parse_order int_arg
    parse_order-InRange l args =
        let field = scalar_arg args "sort" in
        let dir = direction_of {E = E} go (go.to_lower (scalar_arg args "direction")) in
        let limit = int_arg {E = E} go args "limit" in
        let order : Direction → ℤ → Option Order =
          λ d n. some (record { field = field; dir = d; limit = n }) in
        let read : Direction → Result (ToolError E) (Option Order) =
          λ d. and_then limit (λ n. ok (order d n)) in
        if-InRange (same_text field "") (ok none)
          (if not (contains l field)
            then err (sort_error {E = E} go l field)
            else and_then dir read)
          tt
          (if-InRange (not (contains l field)) (err (sort_error {E = E} go l field))
            (and_then dir read) (sort_error-IsError l field)
            (then-InRange dir read
              (direction_of-InRange (go.to_lower (scalar_arg args "direction")))
              (λ d e.
                then-InRange limit (λ n. ok (order d n))
                  (number_of-InRange "limit" (get "limit" args)) (λ n f. tt))))

  -- Filters that were read, one at least.
  abbrev pub IsFilled : Result (ToolError E) (List Predicate) → Type 0
  IsFilled (ok []) = ⊥
  IsFilled (ok (p ∷ ps)) = Unit
  IsFilled (err e) = IsError e

  and_filter-InRange : (j : Json) → InRange (and_filter {E = E} j)
  and_filter-InRange (Json.object o) =
      let d = scalar_arg o "dimension" in
      let v = scalar_arg o "value" in
      if-InRange (same_text d "" || same_text v "") (err ToolError.and_incomplete)
        (ok (record { dimension = d; value = v })) tt tt
  and_filter-InRange Json.null = tt
  and_filter-InRange (Json.boolean b) = tt
  and_filter-InRange (Json.number n) = tt
  and_filter-InRange (Json.text t) = tt
  and_filter-InRange (Json.array l) = tt

  IsFilled-then :
      (x : Result (ToolError E) Predicate) (f : Predicate → Result (ToolError E) (List Predicate))
      → InRange x
      → ((p : Predicate) → IsFilled (f p))
      → IsFilled (and_then x f)
  IsFilled-then (ok p) f h k = k p
  IsFilled-then (err e) f h k = h

  and_filters-IsFilled :
      (items : Items) (p : Predicate) (ps : List Predicate)
      → IsFilled (and_filters {E = E} items (p ∷ ps))
  unfolding and_filters
  and_filters-IsFilled Items.no_items p ps = tt
  and_filters-IsFilled (Items.item j rest) p ps =
      IsFilled-then (and_filter j) (λ q. and_filters rest (p ∷ (ps ++ q ∷ [])))
        (and_filter-InRange j) (λ q. and_filters-IsFilled rest p (ps ++ q ∷ []))

  more_filters-IsFilled :
      (v : Option Json) (p : Predicate) → IsFilled (more_filters {E = E} v (p ∷ []))
  more_filters-IsFilled none p = tt
  more_filters-IsFilled (some Json.null) p = tt
  more_filters-IsFilled (some (Json.array items)) p = and_filters-IsFilled items p []
  more_filters-IsFilled (some (Json.object o)) p = tt
  more_filters-IsFilled (some (Json.boolean b)) p = tt
  more_filters-IsFilled (some (Json.number n)) p = tt
  more_filters-IsFilled (some (Json.text t)) p = tt

  -- Filters that were read: none only for a sorted call.
  abbrev pub IsParsed : Bool → Result (ToolError E) (List Predicate) → Type 0
  IsParsed true r = InRange r
  IsParsed false r = IsFilled r

  filled-IsParsed :
      (sorting : Bool) (r : Result (ToolError E) (List Predicate)) → IsFilled r → IsParsed sorting r
  filled-IsParsed false r h = h
  filled-IsParsed true (ok []) h = tt
  filled-IsParsed true (ok (p ∷ ps)) h = tt
  filled-IsParsed true (err e) h = h

  if-IsParsed :
      (sorting b : Bool) (x y : Result (ToolError E) (List Predicate))
      → IsParsed sorting x
      → IsParsed sorting y
      → IsParsed sorting (if b then x else y)
  if-IsParsed sorting true x y h k = h
  if-IsParsed sorting false x y h k = k

  absent-IsParsed :
      (sorting given : Bool)
      → IsParsed sorting (if sorting then ok [] else err (ToolError.both_required given))
  absent-IsParsed true given = tt
  absent-IsParsed false given = tt

  pub parse_predicates-IsParsed :
      (args : Fields) (sorting : Bool) → IsParsed sorting (parse_predicates {E = E} args sorting)
  unfolding parse_predicates
  parse_predicates-IsParsed args sorting =
      let dim = scalar_arg args "dimension" in
      let val = scalar_arg args "value" in
      let more : Result (ToolError E) (List Predicate) =
        more_filters (get "and" args) (record { dimension = dim; value = val } ∷ []) in
      let no_dim : Result (ToolError E) (List Predicate) =
        if same_text dim "" then err (ToolError.dimension_missing val) else more in
      let no_val : Result (ToolError E) (List Predicate) =
        if same_text val "" then err (ToolError.value_missing dim) else no_dim in
      let given = is_given (get "and" args) in
      if-IsParsed sorting (same_text dim "" && same_text val "")
        (if sorting then ok [] else err (ToolError.both_required given)) no_val
        (absent-IsParsed sorting given)
        (if-IsParsed sorting (same_text val "") (err (ToolError.value_missing dim)) no_dim
          (filled-IsParsed sorting (err (ToolError.value_missing dim)) tt)
          (if-IsParsed sorting (same_text dim "") (err (ToolError.dimension_missing val)) more
            (filled-IsParsed sorting (err (ToolError.dimension_missing val)) tt)
            (filled-IsParsed sorting more
              (more_filters-IsFilled (get "and" args) (record { dimension = dim; value = val })))))
