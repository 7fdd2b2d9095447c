-- ===== src/Store.antt =====
-- internal/store/store.go, normalize.go and memory.go: the in-process index of the vault. `Normalize`
-- makes lookup keys, `Structured` the dimension index and Enumerate, `Ordered` ordered recall;
-- `Complete`, `Directed`, `Order` and `Keys` prove. Embeddings and the keyword leg are not modelled.
pub mod Normalize
pub mod Structured
pub mod Ordered
pub mod Keys
pub mod Complete
pub mod Directed
pub mod Order
mod Tests
use yaad_grove.Base.{String, List, Map}
use yaad_grove.Base.Int.{ℤ}
use yaad_grove.Core.{Chunk}

pub record DocRef : Type 0 where
  pub path : String
  pub title : String

-- A key of an orderable field is a finite float64, a whole number of units of 2 to the power -1074: it
-- is that number. The infinities and NaN, which a number typed in YAML can be, are left out.
pub record Doc : Type 0 where
  pub ref : DocRef
  pub chunks : List Chunk
  pub dimensions : Map (List String)
  pub aliases : List String
  pub ordered : Map ℤ
