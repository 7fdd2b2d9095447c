-- ===== src/Store/Structured.antt =====
-- `buildStructured`, Enumerate and Dimensions of internal/store/memory.go.
use yaad_grove.Base.{
  Bool, false, ◌||◌, String, Option, none, some, List, [], ◌∷◌, ◌++◌, Map, lookup, insert,
  if◌then◌else◌, same_text,
}
use yaad_grove.Base.Text.{trim_space}
use yaad_grove.Base.Sort.{sort_by, text_le}
use yaad_grove.Store.{Doc, DocRef}
use yaad_grove.Store.Normalize.{Script, normalize_key}

abbrev pub or_nil {ℓ} : {A : Type ℓ} → Option (List A) → List A
or_nil none = []
or_nil (some l) = l

-- The dimension index, the display forms and the aliases.
pub record Structured : Type 0 where
  pub dims : Map (Map (List DocRef))
  pub display : Map (Map String)
  pub aliases : Map String

abbrev pub no_structure : Structured
no_structure = record { dims = []; display = []; aliases = [] }

unfoldable pub is_in : String → List String → Bool
is_in k [] = false
is_in k (j ∷ js) = same_text j k || is_in k js

-- One dimension of one document: `seen` holds the keys met.
pub record Values : Type 0 where
  pub by_key : Map (List DocRef)
  pub shown : Map String
  pub seen : List String

abbrev kept_first : String → String → Option String → Map String → Map String
kept_first k v none m = insert k v m
kept_first k v (some s) m = m

module _ (script : Script) where
  unfoldable pub add_value : DocRef → String → Values → Values
  unfolding is_in
  add_value ref v st =
      let k = normalize_key script v in
      if same_text k "" || is_in k st.seen then st else record {
        by_key = insert k (or_nil (lookup k st.by_key) ++ ref ∷ []) st.by_key;
        shown = kept_first k (trim_space v) (lookup k st.shown) st.shown;
        seen = k ∷ st.seen;
      }

  unfoldable pub add_values : DocRef → List String → Values → Values
  unfolding add_value
  add_values ref [] st = st
  add_values ref (v ∷ vs) st = add_values ref vs (add_value ref v st)

  -- One entry of `d.Dimensions`.
  unfoldable pub add_dimension : DocRef → String → List String → Structured → Structured
  unfolding add_values
  add_dimension ref dim values s =
      let st = add_values ref values (record {
        by_key = or_nil (lookup dim s.dims);
        shown = or_nil (lookup dim s.display);
        seen = [];
      }) in
      record s { dims = insert dim st.by_key s.dims; display = insert dim st.shown s.display }

  unfoldable pub add_dimensions : DocRef → Map (List String) → Structured → Structured
  unfolding add_dimension
  add_dimensions ref [] s = s
  add_dimensions ref ((dim, values) ∷ rest) s =
      add_dimensions ref rest (add_dimension ref dim values s)

  unfoldable pub add_aliases : String → List String → Map String → Map String
  add_aliases canon [] m = m
  add_aliases canon (a ∷ rest) m =
      let k = normalize_key script a in
      add_aliases canon rest (if same_text k "" then m else insert k canon m)

  unfoldable pub register : Doc → Structured → Structured
  unfolding add_aliases
  register d s =
      let canon = normalize_key script d.ref.title in
      if same_text canon "" then s else record s { aliases = add_aliases canon d.aliases s.aliases }

  unfoldable pub add_doc : Doc → Structured → Structured
  unfolding register add_dimensions
  add_doc d s = add_dimensions d.ref d.dimensions (register d s)

  unfoldable pub add_docs : List Doc → Structured → Structured
  unfolding add_doc
  add_docs [] s = s
  add_docs (d ∷ ds) s = add_docs ds (add_doc d s)

  -- `buildStructured`
  unfoldable pub build_structured : List Doc → Structured
  unfolding add_docs
  build_structured docs = add_docs docs no_structure

  abbrev pub alias_or : Option String → String → String
  alias_or none k = k
  alias_or (some canon) k = canon

  -- The key that a query value stands for.
  unfoldable pub resolve_value : Structured → String → String
  resolve_value s value = let k = normalize_key script value in alias_or (lookup k s.aliases) k

  -- `Enumerate`
  unfoldable pub enumerate : Structured → String → String → List DocRef
  unfolding resolve_value
  enumerate s dim value = or_nil (lookup (resolve_value s value) (or_nil (lookup dim s.dims)))

-- The values of a map.
values_of : Map String → List String
values_of [] = []
values_of ((k, v) ∷ m) = v ∷ values_of m

-- `Dimensions`
unfoldable pub dimensions : Map (Map String) → Map (List String)
unfolding values_of
dimensions [] = []
dimensions ((dim, shown) ∷ rest) = (dim, sort_by text_le (values_of shown)) ∷ dimensions rest
