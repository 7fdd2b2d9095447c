-- ===== src/Tools.antt =====
-- internal/tools/enumerate.go and dimensions.go: kb_enumerate and kb_dimensions, the built-in tools of
-- the model. `Arguments` reads a call's arguments, `Enumerate` answers it and `Text` renders the answer;
-- `Registry` is the host of the tool servers and `Agent` what an agent run sees. The others prove.
pub mod Arguments
pub mod Enumerate
pub mod Text
pub mod Whole
pub mod Registry
pub mod Agent
pub mod Scoped
pub mod Sessions
pub mod Vault
pub mod Safety
pub mod Parsed
pub mod Total
mod Tests
use yaad_grove.Base.{Bool, String, Option, List, ℕ}
pub use yaad_grove.Base.Float.{Float64}
use yaad_grove.Base.Int.{ℤ}
use yaad_grove.Base.{Result, ok, err}
use yaad_grove.Store.{DocRef}
use yaad_grove.Store.Ordered.{Direction}

-- What encoding/json makes of a call's arguments.
mutual
  pub data Json : Type 0 where
    null : Json
    boolean : Bool → Json
    number : Float64 → Json
    text : String → Json
    array : Items → Json
    object : Fields → Json

  pub data Items : Type 0 where
    no_items : Items
    item : Json → Items → Items

  pub data Fields : Type 0 where
    no_fields : Fields
    field : String → Json → Fields → Fields

-- strconv.ParseFloat, the conversion of a float64 to int, whose result outside the range of int
-- depends on the machine, strings.ToLower, and %q and %d of package fmt.
pub record Go : Type 0 where
  pub parse_float : String → Option Float64
  pub to_int : Float64 → ℤ
  pub to_lower : String → String
  pub quote : String → String
  pub decimal : ℕ → String

pub record Predicate : Type 0 where
  pub dimension : String
  pub value : String

-- `order`, with a field.
pub record Order : Type 0 where
  pub field : String
  pub dir : Direction
  pub limit : ℤ

-- The errors of a call; `index_out_of_range` is the panic of an index, `store` an error of the store.
pub data ToolError (E : Type 0) : Type 0 where
  no_orderable : ToolError E
  unknown_sort : String → ToolError E
  bad_direction : ToolError E
  bad_number : String → ToolError E
  both_required : Bool → ToolError E
  value_missing : String → ToolError E
  dimension_missing : String → ToolError E
  and_not_list : ToolError E
  and_not_object : ToolError E
  and_incomplete : ToolError E
  unknown_dimension : String → ToolError E
  unknown_tool : String → ToolError E
  store : E → ToolError E
  index_out_of_range : ToolError E

-- `Structured`, without the vocabulary.
pub record Backend (E : Type 0) : Type 0 where
  pub enumerate : String → String → Result E (List DocRef)
  pub ordered : String → Direction → ℤ → Result E (List DocRef)

-- `enumerateTool`
pub record EnumerateTool (E : Type 0) : Type 0 where
  pub backend : Backend E
  pub dimensions : List String
  pub orderable : List String

abbrev pub and_then {ℓ κ} :
    {E : Type 0} {A : Type ℓ} {B : Type κ} → Result E A → (A → Result E B) → Result E B
and_then (ok a) f = f a
and_then (err e) f = err e
