-- ===== src/Store/Complete.antt =====
-- Enumerate of internal/store/memory.go, over the whole of `buildStructured`.
use yaad_grove.Base.{
  Bool, true, false, not, ◌&&◌, ◌||◌, String, List, [], ◌∷◌, ◌++◌, map, Map, lookup, append_nil,
  append_assoc, same_text, same_text_iff, lookup-insert, IsDistinct, All, keep, ◌≡◌, sym, ap, ◌∙◌,
  arith, insert, some, if◌then◌else◌, refl, Bool-cases, inl, inr,
}
use yaad_grove.Store.{Doc, DocRef}
use yaad_grove.Store.Normalize.{Script, normalize_key}
use yaad_grove.Store.Structured.{
  Structured, Values, or_nil, is_in, add_value, add_values, add_dimension, add_dimensions, register,
  add_doc, add_docs, build_structured, no_structure, resolve_value, enumerate, add_aliases,
  alias_or,
}

module _ (script : Script) where
  -- A value that stands for the key is among the values.
  unfoldable pub names_key : String → List String → Bool
  names_key k [] = false
  names_key k (v ∷ vs) = same_text (normalize_key script v) k || names_key k vs

  -- The document carries the key under the dimension.
  unfoldable pub carries : String → String → Doc → Bool
  unfolding names_key
  carries dim k d = not (same_text k "") && names_key k (or_nil (lookup dim d.dimensions))

  abbrev once : Bool → DocRef → List DocRef
  once true ref = ref ∷ []
  once false ref = []

  -- What one value adds under a key.
  lookup-add_value :
      (k : String) (ref : DocRef) (v : String) (st : Values)
      → or_nil (lookup k (add_value script ref v st).by_key)
        ≡ or_nil (lookup k st.by_key)
          ++ once
              (not (same_text k "")
                && (not (is_in k st.seen) && same_text (normalize_key script v) k))
              ref
  unfolding add_value
  lookup-add_value k ref v st =
      let kv = normalize_key script v in
      ground (
        arith,
        same_text_iff kv k,
        same_text_iff kv "",
        same_text_iff k "",
        lookup-insert kv k (or_nil (lookup kv st.by_key) ++ ref ∷ []) st.by_key,
        append_nil (or_nil (lookup k st.by_key)),
      )

  seen-add_value :
      (k : String) (ref : DocRef) (v : String) (st : Values)
      → not (same_text k "") ≡ true
      → is_in k (add_value script ref v st).seen
        ≡ (same_text (normalize_key script v) k || is_in k st.seen)
  unfolding add_value is_in
  seen-add_value k ref v st h =
      let kv = normalize_key script v in
      ground (arith, same_text_iff kv k, same_text_iff kv "", same_text_iff k "", h)

  lookup-add_values :
      (k : String) (ref : DocRef) (vs : List String) (st : Values)
      → or_nil (lookup k (add_values script ref vs st).by_key)
        ≡ or_nil (lookup k st.by_key)
          ++ once (not (same_text k "") && (not (is_in k st.seen) && names_key k vs)) ref
  unfolding add_values names_key
  lookup-add_values k ref [] st = ground (arith, append_nil (or_nil (lookup k st.by_key)))
  lookup-add_values k ref (v ∷ vs) st =
      let next = add_value script ref v st in
      ground (
        arith,
        lookup-add_values k ref vs next,
        lookup-add_value k ref v st,
        seen-add_value k ref v st,
        append_nil (or_nil (lookup k st.by_key)),
        append_nil (or_nil (lookup k next.by_key)),
      )

  -- The documents under a key of a dimension.
  abbrev found : Structured → String → String → List DocRef
  found s dim k = or_nil (lookup k (or_nil (lookup dim s.dims)))

  found-add_dimension :
      (dim k : String) (ref : DocRef) (name : String) (vs : List String) (s : Structured)
      → found (add_dimension script ref name vs s) dim k
        ≡ found s dim k ++ once (same_text name dim && (not (same_text k "") && names_key k vs)) ref
  unfolding add_dimension is_in
  found-add_dimension dim k ref name vs s =
      let start : Values = record {
        by_key = or_nil (lookup name s.dims);
        shown = or_nil (lookup name s.display);
        seen = [];
      } in
      let done = add_values script ref vs start in
      ground (
        arith,
        same_text_iff name dim,
        lookup-insert name dim done.by_key s.dims,
        lookup-add_values k ref vs start,
        append_nil (found s dim k),
      )

  found-add_dimensions :
      (dim k : String) (ref : DocRef) (entries : Map (List String)) (s : Structured)
      → IsDistinct entries
      → found (add_dimensions script ref entries s) dim k
        ≡ found s dim k
          ++ once (not (same_text k "") && names_key k (or_nil (lookup dim entries))) ref
  unfolding add_dimensions lookup names_key
  found-add_dimensions dim k ref [] s d = ground (arith, append_nil (found s dim k))
  found-add_dimensions dim k ref ((name, vs) ∷ rest) s d =
      let next = add_dimension script ref name vs s in
      ground (
        arith,
        found-add_dimensions dim k ref rest next d.1,
        found-add_dimension dim k ref name vs s,
        same_text_iff name dim,
        d.0,
        append_nil (found s dim k),
        append_nil (found next dim k),
      )

  dims-register : (d : Doc) (s : Structured) → (register script d s).dims ≡ s.dims
  unfolding register
  dims-register d s = ground arith

  found-add_doc :
      (dim k : String) (d : Doc) (s : Structured)
      → IsDistinct d.dimensions
      → found (add_doc script d s) dim k ≡ found s dim k ++ once (carries dim k d) d.ref
  unfolding add_doc carries
  found-add_doc dim k d s h =
      found-add_dimensions dim k d.ref d.dimensions (register script d s) h
      ∙ ap (λ m. or_nil (lookup k (or_nil (lookup dim m))) ++ once (carries dim k d) d.ref)
          (dims-register d s)

  found-add_docs :
      (dim k : String) (docs : List Doc) (s : Structured)
      → All (λ d. IsDistinct d.dimensions) docs
      → found (add_docs script docs s) dim k
        ≡ found s dim k ++ map (λ d. d.ref) (keep (carries dim k) docs)
  unfolding add_docs
  found-add_docs dim k [] s h = sym (append_nil (found s dim k))
  found-add_docs dim k (d ∷ ds) s h =
      let here = once (carries dim k d) d.ref in
      let later = map (λ e. e.ref) (keep (carries dim k) ds) in
      ground (
        arith,
        found-add_docs dim k ds (add_doc script d s) h.1,
        found-add_doc dim k d s h.0,
        append_assoc (found s dim k) here later,
      )

  -- What enumerating gives, with the key that the code resolves the value to.
  pub enumerate-resolved :
      (docs : List Doc) (dim value : String)
      → All (λ d. IsDistinct d.dimensions) docs
      → let s = build_structured script docs in
        enumerate script s dim value
        ≡ map (λ d. d.ref) (keep (carries dim (resolve_value script s value)) docs)
  unfolding build_structured enumerate lookup
  enumerate-resolved docs dim value h =
      found-add_docs dim (resolve_value script (build_structured script docs) value) docs
        no_structure h

  -- The document has a title, and an alias that is a spelling of the key.
  unfoldable pub has_alias : String → Doc → Bool
  unfolding names_key
  has_alias k d =
      not (same_text (normalize_key script d.ref.title) "")
      && (not (same_text k "") && names_key k d.aliases)

  -- The key of the last document's title, or the given one.
  abbrev pub last_title : String → List Doc → String
  last_title k [] = k
  last_title k (d ∷ ds) = last_title (normalize_key script d.ref.title) ds

  -- The key that a value stands for: that of the title of the last document with the alias, or its own.
  unfoldable pub stands_for : List Doc → String → String
  unfolding has_alias
  stands_for docs value =
      let k = normalize_key script value in last_title k (keep (has_alias k) docs)

  lookup-add_aliases :
      (k canon : String) (names : List String) (m : Map String)
      → lookup k (add_aliases script canon names m)
        ≡ (if not (same_text k "") && names_key k names then some canon else lookup k m)
  unfolding add_aliases names_key
  lookup-add_aliases k canon [] m = ground arith
  lookup-add_aliases k canon (a ∷ names) m =
      let ka = normalize_key script a in
      ground (
        arith,
        lookup-add_aliases k canon names m,
        lookup-add_aliases k canon names (insert ka canon m),
        lookup-insert ka k canon m,
        same_text_iff ka k,
        same_text_iff ka "",
        same_text_iff k "",
      )

  aliases-add_dimensions :
      (ref : DocRef) (entries : Map (List String)) (s : Structured)
      → (add_dimensions script ref entries s).aliases ≡ s.aliases
  unfolding add_dimensions add_dimension
  aliases-add_dimensions ref [] s = refl
  aliases-add_dimensions ref ((dim, vs) ∷ rest) s =
      aliases-add_dimensions ref rest (add_dimension script ref dim vs s)

  alias-add_doc :
      (k : String) (d : Doc) (s : Structured)
      → lookup k (add_doc script d s).aliases
        ≡ (if has_alias k d then some (normalize_key script d.ref.title) else lookup k s.aliases)
  unfolding add_doc register has_alias
  alias-add_doc k d s =
      let canon = normalize_key script d.ref.title in
      ap (lookup k) (aliases-add_dimensions d.ref d.dimensions (register script d s))
      ∙ ground (arith, lookup-add_aliases k canon d.aliases s.aliases)

  alias-add_docs :
      (k : String) (docs : List Doc) (s : Structured)
      → alias_or script (lookup k (add_docs script docs s).aliases) k
        ≡ last_title (alias_or script (lookup k s.aliases) k) (keep (has_alias k) docs)
  unfolding add_docs
  alias-add_docs k [] s = refl
  alias-add_docs k (d ∷ ds) s =
      let later = alias-add_docs k ds (add_doc script d s) in
      let here = alias-add_doc k d s in
      elim (Bool-cases (has_alias k d)) [
        | inl has ↦ rw has (rw (here, has) at later)
        | inr lacks ↦ rw lacks (rw (here, lacks) at later)
      ]

  resolve_value-stands_for :
      (docs : List Doc) (value : String)
      → resolve_value script (build_structured script docs) value ≡ stands_for docs value
  unfolding resolve_value build_structured stands_for lookup
  resolve_value-stands_for docs value =
      alias-add_docs (normalize_key script value) docs no_structure

  -- Enumerate returns every document with a value, under the dimension, whose normalized key is the one
  -- the asked value stands for, and no other document, each once and in the order of the documents. The asked
  -- value stands for the normalized title of the last document that declares an alias with its key, and
  -- for its own key where none does; the values of the documents are not taken for aliases. A document's
  -- map of dimensions holds a dimension once.
  pub enumerate-build_structured :
      (docs : List Doc) (dim value : String)
      → All (λ d. IsDistinct d.dimensions) docs
      → enumerate script (build_structured script docs) dim value
        ≡ map (λ d. d.ref) (keep (carries dim (stands_for docs value)) docs)
  enumerate-build_structured docs dim value h =
      enumerate-resolved docs dim value h
      ∙ ap (λ k. map (λ d. d.ref) (keep (carries dim k) docs)) (resolve_value-stands_for docs value)
