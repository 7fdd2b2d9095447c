-- ===== src/Retrieval/ReadKinds.antt =====
-- `frontOrdered` of internal/retrieval/vault.go over a scan: no field mixes kinds.
use yaad_grove.Base.{
  true, String, Option, none, some, List, [], ◌∷◌, Map, lookup, insert, lookup-insert, All, All-imp,
  same_text, same_text_iff, Bool-cases, inl, inr, ◌≡◌, refl, ap, ◌∙◌, arith,
}
use yaad_grove.Base.Float.{Float64}
use yaad_grove.Retrieval.Orderable.{
  OrderKind, Value, Parsers, Usable, same_kind, parse_ordered_value, Front, kind_checked,
  field_read, field_of, front_fields, front_ordered, scan,
}

same_kind_lem : (a b : OrderKind) → same_kind a b ≡ true → a ≡ b
unfolding same_kind
same_kind_lem OrderKind.order_none OrderKind.order_none h = refl
same_kind_lem OrderKind.order_number OrderKind.order_number h = refl
same_kind_lem OrderKind.order_date OrderKind.order_date h = refl
same_kind_lem OrderKind.order_none OrderKind.order_number h = cc h
same_kind_lem OrderKind.order_none OrderKind.order_date h = cc h
same_kind_lem OrderKind.order_number OrderKind.order_none h = cc h
same_kind_lem OrderKind.order_number OrderKind.order_date h = cc h
same_kind_lem OrderKind.order_date OrderKind.order_none h = cc h
same_kind_lem OrderKind.order_date OrderKind.order_number h = cc h

All-insert :
    {V : Type 0} (P : String × V → Type 0) (k : String) (v : V) (m : Map V)
    → P (k, v)
    → All P m
    → All P (insert k v m)
unfolding insert
All-insert P k v [] h a = (h, tt)
All-insert P k v ((j, w) ∷ m) h a = elim (Bool-cases (same_text j k)) [
  | inl same ↦ rw same (h, a.1)
  | inr other ↦ rw other (a.0, All-insert P k v m h a.1)
]

module _ (parsers : Parsers) where
  -- A key is that of a value of the note, read as the kind that the field has.
  abbrev pub IsRead : Map Value → Map OrderKind → String × Float64 → Type 0
  IsRead front kinds e =
      (v : Value) × (kind : OrderKind) × (lookup e.0 front ≡ some v)
      × (parse_ordered_value parsers v ≡ some (e.1, kind))
      × (lookup e.0 kinds ≡ some kind)

  -- The kinds that are known stay.
  abbrev Grows : Map OrderKind → Map OrderKind → Type 0
  Grows ks ls = (f : String) (k : OrderKind) → lookup f ks ≡ some k → lookup f ls ≡ some k

  grown :
      (front : Map Value) (ks ls : Map OrderKind) (m : Map Float64)
      → Grows ks ls
      → All (IsRead front ks) m
      → All (IsRead front ls) m
  grown front ks ls m g h =
      All-imp (IsRead front ks) (IsRead front ls)
        (λ e (v, k, at, parsed, has). (v, k, at, parsed, g e.0 k has)) m h

  insert-Grows :
      (f : String) (kind : OrderKind) (ks : Map OrderKind)
      → lookup f ks ≡ none
      → Grows ks (insert f kind ks)
  insert-Grows f kind ks new g k h =
      ground (arith, lookup-insert f g kind ks, same_text_iff f g, new, h)

  abbrev Kept : Map Value → Front parsers → Front parsers → Type 0
  Kept front st st' = All (IsRead front st'.kinds) st'.values × Grows st.kinds st'.kinds

  kind_checked-Kept :
      (front : Map Value) (f : String) (v : Value) (key : Float64) (kind : OrderKind)
      (st : Front parsers) (o : Option OrderKind)
      → lookup f front ≡ some v
      → parse_ordered_value parsers v ≡ some (key, kind)
      → lookup f st.kinds ≡ o
      → All (IsRead front st.kinds) st.values
      → Kept front st (kind_checked parsers f key kind o st)
  kind_checked-Kept front f v key kind st none at parsed e h =
      let ls = insert f kind st.kinds in
      let grows = insert-Grows f kind st.kinds e in
      let here : lookup f ls ≡ some kind =
        ground (arith, lookup-insert f f kind st.kinds, same_text_iff f f) in
      (
        All-insert (IsRead front ls) f key st.values (v, kind, at, parsed, here)
            (grown front st.kinds ls st.values grows h),
        grows,
      )
  kind_checked-Kept front f v key kind st (some fixed) at parsed e h =
      elim (Bool-cases (same_kind fixed kind)) [
        | inl same ↦ rw same (
          All-insert (IsRead front st.kinds) f key st.values
              (v, kind, at, parsed, e ∙ ap some (same_kind_lem fixed kind same)) h,
          λ g k has. has,
        )
        | inr differs ↦ rw differs (h, λ g k has. has)
      ]

  field_read-Kept :
      (front : Map Value) (f : String) (v : Value) (st : Front parsers) (u : Usable)
      → lookup f front ≡ some v
      → parse_ordered_value parsers v ≡ u
      → All (IsRead front st.kinds) st.values
      → Kept front st (field_read parsers f u st)
  field_read-Kept front f v st none at parsed h = (h, λ g k has. has)
  field_read-Kept front f v st (some (key, kind)) at parsed h =
      kind_checked-Kept front f v key kind st (lookup f st.kinds) at parsed refl h

  field_of-Kept :
      (front : Map Value) (f : String) (st : Front parsers) (o : Option Value)
      → lookup f front ≡ o
      → All (IsRead front st.kinds) st.values
      → Kept front st (field_of parsers f o st)
  field_of-Kept front f st none at h = (h, λ g k has. has)
  field_of-Kept front f st (some Value.null) at h = (h, λ g k has. has)
  field_of-Kept front f st (some (Value.time t)) at h =
      field_read-Kept front f (Value.time t) st (parse_ordered_value parsers (Value.time t)) at refl
        h
  field_of-Kept front f st (some (Value.whole t)) at h =
      field_read-Kept front f (Value.whole t) st (parse_ordered_value parsers (Value.whole t)) at
        refl h
  field_of-Kept front f st (some (Value.float t)) at h =
      field_read-Kept front f (Value.float t) st (parse_ordered_value parsers (Value.float t)) at
        refl h
  field_of-Kept front f st (some (Value.text t)) at h =
      field_read-Kept front f (Value.text t) st (parse_ordered_value parsers (Value.text t)) at refl
        h
  field_of-Kept front f st (some Value.other) at h =
      field_read-Kept front f Value.other st (parse_ordered_value parsers Value.other) at refl h

  front_fields-Kept :
      (front : Map Value) (fields : List String) (st : Front parsers)
      → All (IsRead front st.kinds) st.values
      → Kept front st (front_fields parsers front fields st)
  unfolding front_fields
  front_fields-Kept front [] st h = (h, λ g k has. has)
  front_fields-Kept front (f ∷ fs) st h =
      let first = field_of-Kept front f st (lookup f front) refl h in
      let rest = front_fields-Kept front fs (field_of parsers f (lookup f front) st) first.0 in
      (rest.0, λ g k has. rest.1 g k (first.1 g k has))

  scan-Grows :
      (fields : List String) (fronts : List (Map Value)) (kinds : Map OrderKind)
      → Grows kinds (scan parsers fields fronts kinds).1
  unfolding scan front_ordered
  scan-Grows fields [] kinds g k has = has
  scan-Grows fields (front ∷ fronts) kinds g k has =
      let start : Front parsers = record { values = []; skipped = []; kinds = kinds } in
      scan-Grows fields fronts (front_fields parsers front fields start).kinds g k
        ((front_fields-Kept front fields start tt).1 g k has)

  -- After a scan of a vault every key of every note is that of the note's value for the field, read as
  -- the one kind that the field has in the whole vault.
  pub scan-IsRead :
      (fields : List String) (fronts : List (Map Value)) (kinds : Map OrderKind)
      → All
          (λ n. All (IsRead n.front (scan parsers fields fronts kinds).1) n.values)
          (scan parsers fields fronts kinds).0
  unfolding scan front_ordered
  scan-IsRead fields [] kinds = tt
  scan-IsRead fields (front ∷ fronts) kinds =
      let start : Front parsers = record { values = []; skipped = []; kinds = kinds } in
      let st = front_fields parsers front fields start in
      (
        grown front st.kinds (scan parsers fields fronts st.kinds).1 st.values
            (scan-Grows fields fronts st.kinds) (front_fields-Kept front fields start tt).0,
        scan-IsRead fields fronts st.kinds,
      )
