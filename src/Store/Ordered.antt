-- ===== src/Store/Ordered.antt =====
-- `buildOrdered` and `Ordered` of internal/store/memory.go. sort.Slice is a stable sort here, which
-- differs only between documents of one path.
use yaad_grove.Base.{
  Bool, true, false, not, ◌&&◌, String, List, [], ◌∷◌, ◌++◌, map, Map, lookup, insert,
  if◌then◌else◌, ltb, length, take,
}
use yaad_grove.Base.Int.{ℤ, pos, pos_part, ltb_ℤ}
use yaad_grove.Base.Sort.{sort_by, text_le}
use yaad_grove.Store.{Doc, DocRef}
use yaad_grove.Store.Structured.{or_nil}

pub data Direction : Type 0 where
  ascending : Direction
  descending : Direction

pub record OrderedEntry : Type 0 where
  pub ref : DocRef
  pub key : ℤ

-- out[field] = append(out[field], orderedEntry{...}) for each entry of `d.Ordered`.
unfoldable pub add_entries : DocRef → Map ℤ → Map (List OrderedEntry) → Map (List OrderedEntry)
add_entries ref [] m = m
add_entries ref ((field, key) ∷ rest) m =
    add_entries ref rest
      (insert field (or_nil (lookup field m) ++ record { ref = ref; key = key } ∷ []) m)

unfoldable pub index_entries : List Doc → Map (List OrderedEntry) → Map (List OrderedEntry)
unfolding add_entries
index_entries [] m = m
index_entries (d ∷ ds) m = index_entries ds (add_entries d.ref d.ordered m)

-- The test of sort.Slice.
unfoldable pub entry_less : OrderedEntry → OrderedEntry → Bool
entry_less a b =
    if ltb_ℤ a.key b.key
    then true
    else if ltb_ℤ b.key a.key
    then false
    else not (text_le b.ref.path a.ref.path)

unfoldable pub entry_le : OrderedEntry → OrderedEntry → Bool
unfolding entry_less
entry_le a b = not (entry_less b a)

unfoldable pub sort_entries : Map (List OrderedEntry) → Map (List OrderedEntry)
sort_entries [] = []
sort_entries ((field, entries) ∷ m) = (field, sort_by entry_le entries) ∷ sort_entries m

-- `buildOrdered`
unfoldable pub build_ordered : List Doc → Map (List OrderedEntry)
unfolding index_entries sort_entries
build_ordered docs = sort_entries (index_entries docs [])

unfoldable pub same_key : ℤ → ℤ → Bool
same_key a b = not (ltb_ℤ a b) && not (ltb_ℤ b a)

-- The loop over `i`, on the entries that are left from the last backwards; `group` are those of the
-- current key, forwards.
unfoldable pub walk_groups : ℤ → List OrderedEntry → List OrderedEntry → List OrderedEntry
unfolding same_key
walk_groups key group [] = group
walk_groups key group (e ∷ rest) = elim (same_key e.key key) [
  | true ↦ walk_groups key (e ∷ group) rest
  | false ↦ group ++ walk_groups e.key (e ∷ []) rest
]

-- The entries, the last first.
unfoldable pub backwards : List OrderedEntry → List OrderedEntry → List OrderedEntry
backwards [] done = done
backwards (e ∷ es) done = backwards es (e ∷ done)

abbrev pub walk_back : List OrderedEntry → List OrderedEntry
walk_back [] = []
walk_back (e ∷ rest) = walk_groups e.key (e ∷ []) rest

unfoldable pub directed : Direction → List OrderedEntry → List OrderedEntry
unfolding walk_groups backwards
directed Direction.ascending entries = entries
directed Direction.descending entries = walk_back (backwards entries [])

-- if limit > 0 && len(out) > limit { out = out[:limit] }
abbrev pub capped {ℓ} : {A : Type ℓ} → ℤ → List A → List A
capped limit out =
    if ltb_ℤ (pos 0) limit && ltb (pos_part limit) (length out)
    then take (pos_part limit) out
    else out

abbrev pub refs_of : List OrderedEntry → List DocRef
refs_of = map (λ e. e.ref)

-- `Ordered`
unfoldable pub ordered : Map (List OrderedEntry) → String → Direction → ℤ → List DocRef
unfolding directed
ordered index field dir limit = capped limit (refs_of (directed dir (or_nil (lookup field index))))
