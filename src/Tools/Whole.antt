-- ===== src/Tools/Whole.antt =====
-- `intersect`, `ordered` and `call` of internal/tools/enumerate.go: their answers are whole.
use yaad_grove.Base.{
  Bool, true, ◌&&◌, String, Option, none, some, List, [], ◌∷◌, keep, Result, ok, same_text_iff, ◌≡◌,
  refl, sym, ap, ◌∙◌, arith,
}
use yaad_grove.Base.Int.{ℤ, pos}
use yaad_grove.Store.{DocRef}
use yaad_grove.Store.Structured.{is_in}
use yaad_grove.Store.Ordered.{Direction, capped}
use yaad_grove.Tools.{Predicate, Order, ToolError, Backend, and_then}
use yaad_grove.Tools.Enumerate.{
  Matches, paths, kept_in, intersect_rest, intersect, within, ordered_refs,
}

-- A backend that does not fail: the documents of a dimension's value, and those of an orderable field
-- in a direction, of which a limit takes the first.
pub record Serves {E : Type 0} (backend : Backend E) (sets : String → String → List DocRef)
    (all : String → Direction → List DocRef) : Type 0 where
  pub enumerates : (dim value : String) → backend.enumerate dim value ≡ ok (sets dim value)
  pub orders :
      (field : String) (dir : Direction) (limit : ℤ)
      → backend.ordered field dir limit ≡ ok (capped limit (all field dir))

module _ (sets : String → String → List DocRef) where
  -- The path is that of a document of every filter.
  unfoldable pub in_all : List Predicate → String → Bool
  in_all [] path = true
  in_all (p ∷ ps) path = is_in path (paths (sets p.dimension p.value)) && in_all ps path

  abbrev pub if_empty : Predicate → List DocRef → Option Predicate → Option Predicate
  if_empty p [] next = some p
  if_empty p (r ∷ rs) next = next

  -- The first filter that no document matches.
  unfoldable pub first_empty : List Predicate → Option Predicate
  first_empty [] = none
  first_empty (p ∷ ps) = if_empty p (sets p.dimension p.value) (first_empty ps)

abbrev pub answer_of : {E : Type 0} → Option Predicate → List DocRef → Result (ToolError E) Matches
answer_of none refs = ok (Matches.matching refs)
answer_of (some p) refs = ok (Matches.unmatched p)

keep-keep : (f g : DocRef → Bool) (l : List DocRef) → keep f (keep g l) ≡ keep (λ r. g r && f r) l
keep-keep f g [] = refl
keep-keep f g (r ∷ l) = ground (arith, keep-keep f g l)

is_in-keep :
    (f : String → Bool) (k : String) (l : List DocRef)
    → is_in k (paths (keep (λ r. f r.path) l)) ≡ (is_in k (paths l) && f k)
unfolding is_in
is_in-keep f k [] = refl
is_in-keep f k (r ∷ l) = ground (arith, same_text_iff r.path k, is_in-keep f k l)

keep-cong :
    (f g : DocRef → Bool) (l : List DocRef) → ((r : DocRef) → f r ≡ g r) → keep f l ≡ keep g l
keep-cong f g [] h = refl
keep-cong f g (r ∷ l) h = ground (arith, h r, keep-cong f g l h)

keep-true : (l : List DocRef) → keep (λ r. true) l ≡ l
keep-true [] = refl
keep-true (r ∷ l) = ap (λ t. r ∷ t) (keep-true l)

module _ {E : Type 0} (backend : Backend E) (sets : String → String → List DocRef)
    (all : String → Direction → List DocRef) (serves : Serves backend sets all) where
  keep-kept_in :
      (p : Predicate) (ps : List Predicate) (result : List DocRef)
      → keep (λ r. in_all sets ps r.path) (kept_in (sets p.dimension p.value) result)
        ≡ keep (λ r. in_all sets (p ∷ ps) r.path) result
  unfolding kept_in in_all
  keep-kept_in p ps result =
      keep-keep (λ r. in_all sets ps r.path) (λ r. is_in r.path (paths (sets p.dimension p.value)))
        result

  intersect_rest-all :
      (ps : List Predicate) (result : List DocRef)
      → intersect_rest backend result ps
        ≡ answer_of (first_empty sets ps) (keep (λ r. in_all sets ps r.path) result)
  unfolding intersect_rest first_empty in_all
  intersect_rest-all [] result = ap (λ l. ok (Matches.matching l)) (sym (keep-true result))
  intersect_rest-all (p ∷ ps) result =
      let refs = sets p.dimension p.value in
      ground (
        arith,
        serves.enumerates p.dimension p.value,
        intersect_rest-all ps (kept_in refs result),
        keep-kept_in p ps result,
      )

  -- The intersection is exact: the first filter that no document matches is reported, and when there
  -- is none the answer is the documents of the first filter, in their order, whose paths the other
  -- filters all match; the store does not fail.
  pub intersect-all :
      (p : Predicate) (ps : List Predicate)
      → intersect backend (p ∷ ps)
        ≡ answer_of
            (first_empty sets (p ∷ ps))
            (keep (λ r. in_all sets ps r.path) (sets p.dimension p.value))
  unfolding intersect first_empty
  intersect-all p ps =
      let refs = sets p.dimension p.value in
      ground (arith, serves.enumerates p.dimension p.value, intersect_rest-all ps refs)

  kept_in-none : (l : List DocRef) → kept_in [] l ≡ []
  unfolding kept_in is_in
  kept_in-none [] = refl
  kept_in-none (r ∷ l) = kept_in-none l

  within-matching :
      (ord : Order) (m : List DocRef)
      → within backend ord (Matches.matching m)
        ≡ ok (Matches.matching (capped ord.limit (kept_in m (all ord.field ord.dir))))
  within-matching ord [] = ground (arith, kept_in-none (all ord.field ord.dir))
  within-matching ord (r ∷ rs) = ground (arith, serves.orders ord.field ord.dir (pos 0))

  -- The documents of the intersection, in any order of all the documents.
  kept_in-all :
      (p : Predicate) (ps : List Predicate) (l : List DocRef)
      → kept_in (keep (λ r. in_all sets ps r.path) (sets p.dimension p.value)) l
        ≡ keep (λ r. in_all sets (p ∷ ps) r.path) l
  unfolding kept_in in_all
  kept_in-all p ps l =
      keep-cong
        (λ r. is_in r.path (paths (keep (λ q. in_all sets ps q.path) (sets p.dimension p.value))))
        (λ r. in_all sets (p ∷ ps) r.path) l
        (λ r. is_in-keep (in_all sets ps) r.path (sets p.dimension p.value))

  within-answer_of :
      (p : Predicate) (ps : List Predicate) (ord : Order) (o : Option Predicate)
      → and_then
          (answer_of o (keep (λ r. in_all sets ps r.path) (sets p.dimension p.value)))
          (within backend ord)
        ≡ answer_of o
            (capped ord.limit (keep (λ r. in_all sets (p ∷ ps) r.path) (all ord.field ord.dir)))
  within-answer_of p ps ord none =
      within-matching ord (keep (λ r. in_all sets ps r.path) (sets p.dimension p.value))
      ∙ ap (λ l. ok (Matches.matching (capped ord.limit l)))
          (kept_in-all p ps (all ord.field ord.dir))
  within-answer_of p ps ord (some q) = refl

  -- The cap comes last: a sorted answer is the first documents, as many as the limit says, of all those
  -- that match every filter, in the asked order, unless a filter matches no document; the store does
  -- not fail.
  pub ordered_refs-all :
      (preds : List Predicate) (ord : Order)
      → ordered_refs backend preds ord
        ≡ answer_of
            (first_empty sets preds)
            (capped ord.limit (keep (λ r. in_all sets preds r.path) (all ord.field ord.dir)))
  unfolding ordered_refs first_empty in_all
  ordered_refs-all [] ord =
      ground (arith, serves.orders ord.field ord.dir ord.limit, keep-true (all ord.field ord.dir))
  ordered_refs-all (p ∷ ps) ord =
      ap (λ x. and_then x (within backend ord)) (intersect-all p ps)
      ∙ within-answer_of p ps ord (first_empty sets (p ∷ ps))
