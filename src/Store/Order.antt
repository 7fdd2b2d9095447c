-- ===== src/Store/Order.antt =====
-- Ordered of internal/store/memory.go, over the whole of `buildOrdered`.
use mathlib.Core.List.{Perm}
use mathlib.Core.List.Perm
use yaad_grove.Base.{
  String, Option, none, some, List, [], ◌∷◌, ◌++◌, Map, lookup, insert, append_nil, append_assoc,
  same_text, same_text_iff, lookup-insert, IsDistinct, All, Bool-cases, inl, inr, ◌≡◌, refl, sym,
  ap, ◌∙◌, arith, ℕ, zero, suc, ◌≤◌, ltb, length, take,
}
use yaad_grove.Base.Int.{ℤ, pos, negsuc}
use yaad_grove.Base.Sort.{IsSorted, sort_by, sort_by-perm, sort_by-IsSorted}
use yaad_grove.Store.{Doc, DocRef}
use yaad_grove.Store.Structured.{or_nil}
use yaad_grove.Store.Ordered.{
  Direction, OrderedEntry, add_entries, index_entries, entry_le, sort_entries, build_ordered,
  directed, capped, refs_of, ordered,
}
use yaad_grove.Store.Directed.{stands_before, entry_le-IsOrder, directed-perm, directed-IsSorted}

abbrev entry_if : DocRef → Option ℤ → List OrderedEntry
entry_if ref none = []
entry_if ref (some key) = record { ref = ref; key = key } ∷ []

-- The entries of the documents that carry the field.
unfoldable pub carrying : String → List Doc → List OrderedEntry
carrying field [] = []
carrying field (d ∷ ds) = entry_if d.ref (lookup field d.ordered) ++ carrying field ds

abbrev held : String → Map (List OrderedEntry) → List OrderedEntry
held field m = or_nil (lookup field m)

held-add_entries :
    (field : String) (ref : DocRef) (o : Map ℤ) (m : Map (List OrderedEntry))
    → IsDistinct o
    → held field (add_entries ref o m) ≡ held field m ++ entry_if ref (lookup field o)
unfolding add_entries lookup
held-add_entries field ref [] m d = sym (append_nil (held field m))
held-add_entries field ref ((name, key) ∷ o) m d =
    let new = held name m ++ record { ref = ref; key = key } ∷ [] in
    ground (
      arith,
      held-add_entries field ref o (insert name new m) d.1,
      lookup-insert name field new m,
      same_text_iff name field,
      d.0,
      append_nil (held field m),
      append_nil new,
    )

held-index_entries :
    (field : String) (docs : List Doc) (m : Map (List OrderedEntry))
    → All (λ d. IsDistinct d.ordered) docs
    → held field (index_entries docs m) ≡ held field m ++ carrying field docs
unfolding index_entries carrying
held-index_entries field [] m h = sym (append_nil (held field m))
held-index_entries field (d ∷ ds) m h =
    held-index_entries field ds (add_entries d.ref d.ordered m) h.1
    ∙ ap (λ l. l ++ carrying field ds) (held-add_entries field d.ref d.ordered m h.0)
    ∙ append_assoc (held field m) (entry_if d.ref (lookup field d.ordered)) (carrying field ds)

held-sort_entries :
    (field : String) (m : Map (List OrderedEntry))
    → held field (sort_entries m) ≡ sort_by entry_le (held field m)
unfolding sort_entries lookup sort_by
held-sort_entries field [] = refl
held-sort_entries field ((name, entries) ∷ m) = elim (Bool-cases (same_text name field)) [
  | inl this ↦ rw this refl
  | inr other ↦ rw other (held-sort_entries field m)
]

held-build_ordered :
    (field : String) (docs : List Doc)
    → All (λ d. IsDistinct d.ordered) docs
    → held field (build_ordered docs) ≡ sort_by entry_le (carrying field docs)
unfolding build_ordered lookup
held-build_ordered field docs h =
    held-sort_entries field (index_entries docs [])
    ∙ ap (sort_by entry_le) (held-index_entries field docs [] h)

-- The first documents, as many as a limit above 0 says, or all of them.
abbrev pub cut_to : {A : Type 0} → ℤ → List A → List A
cut_to (pos zero) l = l
cut_to (pos (suc n)) l = take (suc n) l
cut_to (negsuc n) l = l

take_all : {A : Type 0} (n : ℕ) (l : List A) → length l ≤ n → take n l ≡ l
take_all zero [] h = refl
take_all zero (x ∷ l) h = absurd (omega (arith, h))
take_all (suc n) [] h = refl
take_all (suc n) (x ∷ l) h = ap (λ t. x ∷ t) (take_all n l (omega (arith, h)))

capped-cut_to : {A : Type 0} (limit : ℤ) (l : List A) → capped limit l ≡ cut_to limit l
capped-cut_to (pos zero) l = refl
capped-cut_to (pos (suc n)) l = elim (Bool-cases (ltb (suc n) (length l))) [
  | inl long ↦ ground (arith, long)
  | inr short ↦
      let within : length l ≤ suc n = ground (arith, short) in
      let all = take_all (suc n) l within in ground (arith, short, all)
]
capped-cut_to (negsuc n) l = ground arith

-- Ordered returns the documents that carry the field, all of them and no other, by its value in the
-- asked direction and by path, ascending, where values are equal, cut to the limit when it is above 0;
-- a document's map of orderable fields holds a field once.
pub ordered-IsSorted :
    (docs : List Doc) (field : String) (dir : Direction) (limit : ℤ)
    → All (λ d. IsDistinct d.ordered) docs
    → (es : List OrderedEntry) × Perm es (carrying field docs)
      × IsSorted (stands_before dir) es
      × (ordered (build_ordered docs) field dir limit ≡ cut_to limit (refs_of es))
unfolding ordered
ordered-IsSorted docs field dir limit h =
    let sorted = sort_by entry_le (carrying field docs) in
    (
      directed dir sorted,
      Perm.trans (directed-perm dir sorted) (sort_by-perm entry_le (carrying field docs)),
      directed-IsSorted dir sorted
          (sort_by-IsSorted entry_le entry_le-IsOrder (carrying field docs)),
      ap (λ es. capped limit (refs_of (directed dir es))) (held-build_ordered field docs h)
          ∙ capped-cut_to limit (refs_of (directed dir sorted)),
    )
