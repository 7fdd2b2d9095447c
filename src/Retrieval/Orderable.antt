-- ===== src/Retrieval/Orderable.antt =====
-- `ParseOrderedValue` of internal/store/store.go, and `frontOrdered` and its part of the scan of
-- internal/retrieval/vault.go. `ReadKinds` proves.
use yaad_grove.Base.{
  Bool, true, false, String, Option, none, some, List, [], ◌∷◌, ◌++◌, Map, lookup, insert,
  if◌then◌else◌, same_text,
}
use yaad_grove.Base.Float.{Float64}
use yaad_grove.Base.Int.{ℤ}
use yaad_grove.Base.Text.{trim_space}

-- `OrderKind`
pub data OrderKind : Type 0 where
  order_none order_number order_date : OrderKind

-- A value as package yaml decodes it; a time is its Unix second, and a bool, a list or a map is `other`.
pub data Value : Type 0 where
  null : Value
  time : ℤ → Value
  whole : ℤ → Value
  float : Float64 → Value
  text : String → Value
  other : Value

-- The conversion of an int to float64, strconv.ParseFloat, and time.Parse, by layout and to the Unix
-- second.
pub record Parsers : Type 0 where
  pub of_int : ℤ → Float64
  pub parse_float : String → Option Float64
  pub parse_time : String → String → Option ℤ

-- orderedDateLayouts
abbrev pub ordered_date_layouts : List String
ordered_date_layouts =
    "2006-01-02T15:04:05Z07:00" ∷ "2006-01-02T15:04:05" ∷ "2006-01-02 15:04:05" ∷ "2006-01-02"
    ∷ "2006/01/02" ∷ []

abbrev pub is_finite : Float64 → Bool
is_finite (Float64.finite z) = true
is_finite (Float64.infinity positive) = false
is_finite Float64.nan = false

unfoldable pub same_kind : OrderKind → OrderKind → Bool
same_kind OrderKind.order_none OrderKind.order_none = true
same_kind OrderKind.order_number OrderKind.order_number = true
same_kind OrderKind.order_date OrderKind.order_date = true
same_kind a b = false

-- A usable value: its key and its kind.
abbrev pub Usable : Type 0
Usable = Option (Float64 × OrderKind)

module _ (parsers : Parsers) where
  abbrev pub or_layouts : Option ℤ → Usable → Usable
  or_layouts none next = next
  or_layouts (some t) next = some (parsers.of_int t, OrderKind.order_date)

  unfoldable pub first_layout : List String → String → Usable
  first_layout [] s = none
  first_layout (l ∷ ls) s = or_layouts (parsers.parse_time l s) (first_layout ls s)

  abbrev pub number_or_date : Option Float64 → String → Usable
  unfolding first_layout
  number_or_date none s = first_layout ordered_date_layouts s
  number_or_date (some n) s = if is_finite n then some (n, OrderKind.order_number) else none

  -- `ParseOrderedValue`; none is a value that is not usable.
  unfoldable pub parse_ordered_value : Value → Usable
  unfolding first_layout
  parse_ordered_value Value.null = none
  parse_ordered_value (Value.time t) = some (parsers.of_int t, OrderKind.order_date)
  parse_ordered_value (Value.whole n) = some (parsers.of_int n, OrderKind.order_number)
  parse_ordered_value (Value.float f) = some (f, OrderKind.order_number)
  parse_ordered_value (Value.text t) =
      let s = trim_space t in
      if same_text s "" then none else number_or_date (parsers.parse_float s) s
  parse_ordered_value Value.other = none

  -- What the loop of `frontOrdered` builds.
  pub record Front : Type 0 where
    pub values : Map Float64
    pub skipped : List String
    pub kinds : Map OrderKind

  abbrev pub skip_field : String → Front → Front
  skip_field f st = record st { skipped = st.skipped ++ f ∷ [] }

  abbrev pub kind_checked : String → Float64 → OrderKind → Option OrderKind → Front → Front
  kind_checked f key kind none st = record st {
    values = insert f key st.values;
    kinds = insert f kind st.kinds;
  }
  kind_checked f key kind (some fixed) st =
      if same_kind fixed kind
      then record st { values = insert f key st.values }
      else skip_field f st

  abbrev pub field_read : String → Usable → Front → Front
  field_read f none st = skip_field f st
  field_read f (some (key, kind)) st = kind_checked f key kind (lookup f st.kinds) st

  abbrev pub field_of : String → Option Value → Front → Front
  field_of f none st = st
  field_of f (some Value.null) st = st
  field_of f (some v) st = field_read f (parse_ordered_value v) st

  unfoldable pub front_fields : Map Value → List String → Front → Front
  unfolding parse_ordered_value
  front_fields front [] st = st
  front_fields front (f ∷ fs) st = front_fields front fs (field_of f (lookup f front) st)

  -- `frontOrdered`
  unfoldable pub front_ordered : Map Value → List String → Map OrderKind → Front
  unfolding front_fields
  front_ordered front fields kinds =
      front_fields front fields (record { values = []; skipped = []; kinds = kinds })

  -- One note of a scan.
  pub record Scanned : Type 0 where
    pub front : Map Value
    pub values : Map Float64
    pub skipped : List String

  -- The scan of the vault, as far as orderable fields go: the notes, and the kinds at its end.
  unfoldable pub scan :
      List String → List (Map Value) → Map OrderKind → List Scanned × Map OrderKind
  unfolding front_ordered
  scan fields [] kinds = ([], kinds)
  scan fields (front ∷ fronts) kinds =
      let st = front_ordered front fields kinds in
      let rest = scan fields fronts st.kinds in
      (record { front = front; values = st.values; skipped = st.skipped } ∷ rest.0, rest.1)
