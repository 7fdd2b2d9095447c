-- ===== src/Tools/Vault.antt =====
-- kb_enumerate of internal/tools/enumerate.go over the memory backend of internal/store/memory.go.
use mathlib.Core.List.{Perm}
use yaad_grove.Base.{String, none, List, map, keep, All, ok, IsDistinct, ◌≡◌, refl, ap, ◌∙◌}
use yaad_grove.Base.Int.{pos}
use yaad_grove.Base.Sort.{IsSorted}
use yaad_grove.Store.{Doc, DocRef}
use yaad_grove.Store.Normalize.{Script}
use yaad_grove.Store.Structured.{enumerate, build_structured, resolve_value}
use yaad_grove.Store.Complete.{carries, enumerate-resolved}
use yaad_grove.Store.Ordered.{Direction, OrderedEntry, capped, refs_of, ordered, build_ordered}
use yaad_grove.Store.Directed.{stands_before}
use yaad_grove.Store.Order.{carrying, ordered-IsSorted}
use yaad_grove.Tools.{Predicate, Order, Backend}
use yaad_grove.Tools.Enumerate.{Matches, ordered_refs}
use yaad_grove.Tools.Whole.{Serves, in_all, first_empty, ordered_refs-all, answer_of}

module _ (script : Script) (docs : List Doc) where
  -- The methods of `Memory` after Index(docs).
  unfoldable pub memory_backend : Backend Unit
  memory_backend = record {
    enumerate = λ dim value. ok (enumerate script (build_structured script docs) dim value);
    ordered = λ field dir limit. ok (ordered (build_ordered docs) field dir limit);
  }

  -- The documents that carry a value under a dimension.
  abbrev pub valued : String → String → List DocRef
  valued dim value =
      map (λ d. d.ref)
        (keep (carries script dim (resolve_value script (build_structured script docs) value)) docs)

  abbrev in_order : String → Direction → List DocRef
  in_order field dir = ordered (build_ordered docs) field dir (pos 0)

  memory_backend-Serves :
      All (λ d. IsDistinct d.dimensions) docs → Serves memory_backend valued in_order
  unfolding memory_backend ordered
  memory_backend-Serves h = record {
    enumerates = λ dim value. ap ok (enumerate-resolved script docs dim value h);
    orders = λ field dir limit. refl;
  }

  -- Over an indexed vault, a sorted call answers from the whole of it: of all the documents that carry
  -- the field, by its value in the asked direction, those that carry every filter's value, as many of
  -- the first as the limit says. Each filter matches a document, and a document's maps hold a key once.
  pub ordered_refs-memory_backend :
      (preds : List Predicate) (ord : Order)
      → All (λ d. IsDistinct d.dimensions) docs
      → All (λ d. IsDistinct d.ordered) docs
      → first_empty valued preds ≡ none
      → (es : List OrderedEntry) × Perm es (carrying ord.field docs)
        × IsSorted (stands_before ord.dir) es
        × (ordered_refs memory_backend preds ord
            ≡ ok (
                Matches.matching
                  (capped ord.limit (keep (λ r. in_all valued preds r.path) (refs_of es)))))
  ordered_refs-memory_backend preds ord dims keys found =
      let whole = ordered-IsSorted docs ord.field ord.dir (pos 0) keys in
      (
        whole.0,
        whole.1,
        whole.2,
        ordered_refs-all memory_backend valued in_order (memory_backend-Serves dims) preds ord
            ∙ ap
                (λ o. answer_of o (
                  capped ord.limit
                    (keep (λ r. in_all valued preds r.path) (in_order ord.field ord.dir))))
                found
            ∙ ap
                (λ l.
                  ok (
                    Matches.matching (capped ord.limit (keep (λ r. in_all valued preds r.path) l))))
                whole.3,
      )
