-- ===== src/Tools/Total.antt =====
-- `call` of internal/tools/enumerate.go indexes no empty list.
use yaad_grove.Base.{
  Bool, true, false, String, Option, none, some, List, [], ◌∷◌, Result, ok, err, ◌≢◌, subst,
}
use yaad_grove.Base.Int.{pos}
use yaad_grove.Store.{DocRef}
use yaad_grove.Store.Ordered.{capped}
use yaad_grove.Tools.{Fields, Go, Predicate, Order, ToolError, Backend, EnumerateTool, and_then}
use yaad_grove.Tools.Arguments.{parse_order, parse_predicates}
use yaad_grove.Tools.Enumerate.{
  Matches, from_store, intersect, intersect_rest, kept_in, ordered_refs, call, undeclared, within,
  if_any, matches_of, checked, is_some,
}
use yaad_grove.Tools.Parsed.{
  InRange, IsParsed, then-InRange, from_store-InRange, parse_order-InRange,
  parse_predicates-IsParsed,
}

module _ (E : Type 0) where
  module _ (backend : Backend E) where
    if_any-InRange :
        (p : Predicate) (l : List DocRef) (next : Result (ToolError E) Matches)
        → InRange next
        → InRange (if_any backend p l next)
    if_any-InRange p [] next h = tt
    if_any-InRange p (r ∷ rs) next h = h

    intersect_rest-InRange :
        (ps : List Predicate) (l : List DocRef) → InRange (intersect_rest backend l ps)
    unfolding intersect_rest
    intersect_rest-InRange [] l = tt
    intersect_rest-InRange (p ∷ ps) l =
        then-InRange E (from_store (backend.enumerate p.dimension p.value))
          (λ refs. if_any backend p refs (intersect_rest backend (kept_in refs l) ps))
          (from_store-InRange E (backend.enumerate p.dimension p.value))
          (λ refs e.
            if_any-InRange p refs (intersect_rest backend (kept_in refs l) ps)
              (intersect_rest-InRange ps (kept_in refs l)))

    intersect-InRange : (p : Predicate) (ps : List Predicate) → InRange (intersect backend (p ∷ ps))
    unfolding intersect
    intersect-InRange p ps =
        then-InRange E (from_store (backend.enumerate p.dimension p.value))
          (λ l. if_any backend p l (intersect_rest backend l ps))
          (from_store-InRange E (backend.enumerate p.dimension p.value))
          (λ l e. if_any-InRange p l (intersect_rest backend l ps) (intersect_rest-InRange ps l))

    within-InRange : (ord : Order) (m : Matches) → InRange (within backend ord m)
    within-InRange ord (Matches.unmatched p) = tt
    within-InRange ord (Matches.matching []) = tt
    within-InRange ord (Matches.matching (r ∷ rs)) =
        then-InRange E (from_store (backend.ordered ord.field ord.dir (pos 0)))
          (λ all. ok (Matches.matching (capped ord.limit (kept_in (r ∷ rs) all))))
          (from_store-InRange E (backend.ordered ord.field ord.dir (pos 0))) (λ all e. tt)

    ordered_refs-InRange :
        (ps : List Predicate) (ord : Order) → InRange (ordered_refs backend ps ord)
    unfolding ordered_refs
    ordered_refs-InRange [] ord =
        then-InRange E (from_store (backend.ordered ord.field ord.dir ord.limit))
          (λ refs. ok (Matches.matching refs))
          (from_store-InRange E (backend.ordered ord.field ord.dir ord.limit)) (λ refs e. tt)
    ordered_refs-InRange (p ∷ ps) ord =
        then-InRange E (intersect backend (p ∷ ps)) (within backend ord) (intersect-InRange p ps)
          (λ m e. within-InRange ord m)

  module _ (go : Go) (tool : EnumerateTool E) where
    checked-InRange :
        (ord : Option Order) (r : List Predicate)
        → IsParsed E (is_some ord) (ok r)
        → (dim : Option String) → InRange (checked go tool ord r dim)
    checked-InRange ord r h (some dim) = tt
    checked-InRange none [] h none = absurd h
    checked-InRange none (p ∷ ps) h none =
        then-InRange E (matches_of go tool none (p ∷ ps))
          (λ found. ok (record { preds = p ∷ ps; order = none; found = found }))
          (intersect-InRange tool.backend p ps) (λ found e. tt)
    checked-InRange (some ord) ps h none =
        then-InRange E (matches_of go tool (some ord) ps)
          (λ found. ok (record { preds = ps; order = some ord; found = found }))
          (ordered_refs-InRange tool.backend ps ord) (λ found e. tt)

    IsParsed-InRange :
        (sorting : Bool) (r : Result (ToolError E) (List Predicate))
        → IsParsed E sorting r
        → InRange r
    IsParsed-InRange true r h = h
    IsParsed-InRange false (ok []) h = absurd h
    IsParsed-InRange false (ok (p ∷ ps)) h = tt
    IsParsed-InRange false (err e) h = h

    call-InRange : (args : Fields) → InRange (call go tool args)
    unfolding call
    call-InRange args =
        then-InRange E (parse_order go tool.orderable args)
          (λ ord.
            and_then (parse_predicates args (is_some ord))
              (λ preds. checked go tool ord preds (undeclared tool.dimensions preds)))
          (parse_order-InRange E go tool.orderable args)
          (λ ord e.
            then-InRange E (parse_predicates args (is_some ord))
              (λ preds. checked go tool ord preds (undeclared tool.dimensions preds))
              (IsParsed-InRange (is_some ord) (parse_predicates args (is_some ord))
                (parse_predicates-IsParsed E args (is_some ord)))
              (λ preds f.
                checked-InRange ord preds
                  (subst (λ r. IsParsed E (is_some ord) r) f
                    (parse_predicates-IsParsed E args (is_some ord)))
                  (undeclared tool.dimensions preds)))

-- Whatever the model asks, and whatever the store answers, a call of kb_enumerate ends in an answer or
-- in one of its errors, and never reads the first filter of an empty list.
pub call-total :
    {E : Type 0} (go : Go) (tool : EnumerateTool E) (args : Fields)
    → call go tool args ≢ err ToolError.index_out_of_range
call-total {E} go tool args h = subst (λ r. InRange r) h (call-InRange E go tool args)
