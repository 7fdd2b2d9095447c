-- ===== src/Store/Tests.antt =====
-- A vault of three notes.
use yaad_grove.Base.Text.{trim_space}
use Prim.Native.Char.{code}
use mathlib.Core.List.{Perm}
use yaad_grove.Base.{insert, lookup, List, [], ◌∷◌, map, keep, if◌then◌else◌, ◌==◌, ◌≡◌, refl}
use yaad_grove.Base.Int.{pos, negsuc}
use yaad_grove.Base.Sort.{text_le, sort_by, IsSorted}
use yaad_grove.Store.{Doc, DocRef}
use yaad_grove.Store.Normalize.{separator, Script, normalize_key}
use yaad_grove.Store.Structured.{build_structured, enumerate}
use yaad_grove.Store.Complete.{carries, stands_for, enumerate-build_structured}
use yaad_grove.Store.Ordered.{entry_le, Direction, OrderedEntry, ordered, build_ordered, refs_of}
use yaad_grove.Store.Directed.{stands_before}
use yaad_grove.Store.Order.{carrying, cut_to, ordered-IsSorted}

-- Latin text alone: NFKC leaves it, a capital has its small letter 32 places on.
abbrev latin : Script
latin = record {
  nfkc = λ s. s;
  to_lower = λ c. if code c == 82 then "r" else c;
  is_punct = λ c. code c == 47;
  is_symbol = λ c. code c == 43;
}

abbrev ref_a : DocRef
ref_a = record { path = "a.md"; title = "Rail" }

abbrev ref_b : DocRef
ref_b = record { path = "b.md"; title = "Bus" }

abbrev ref_c : DocRef
ref_c = record { path = "c.md"; title = "Tram" }

abbrev vault : List Doc
vault =
    record {
      ref = ref_b;
      chunks = [];
      dimensions = ("kind", "Road/rail" ∷ "road  Rail" ∷ []) ∷ [];
      aliases = "omnibus" ∷ [];
      ordered = ("year", pos 3) ∷ [];
    }
    ∷ record {
      ref = ref_a;
      chunks = [];
      dimensions = ("size", "big" ∷ []) ∷ ("kind", "road-Rail" ∷ []) ∷ [];
      aliases = "r" ∷ [];
      ordered = ("year", pos 3) ∷ [];
    }
    ∷ record {
      ref = ref_c;
      chunks = [];
      dimensions = ("kind", "Bus" ∷ "r" ∷ []) ∷ [];
      aliases = [];
      ordered = ("size", pos 9) ∷ ("year", negsuc 4) ∷ [];
    }
    ∷ []

key_of : normalize_key latin "-Road / Rail " ≡ "road rail"
unfolding normalize_key trim_space separator
key_of = refl

-- "omnibus" is an alias of the title of the first note.
enumerate-build_structured_example :
    enumerate latin (build_structured latin vault) "kind" "omnibus"
    ≡ map (λ d. d.ref) (keep (carries latin "kind" (stands_for latin vault "omnibus")) vault)
unfolding lookup
enumerate-build_structured_example =
    enumerate-build_structured latin vault "kind" "omnibus"
      ((refl, tt), ((refl, (refl, tt)), ((refl, tt), tt)))

by_alias : enumerate latin (build_structured latin vault) "kind" "omnibus" ≡ ref_c ∷ []
unfolding enumerate build_structured lookup normalize_key trim_space separator insert
by_alias = refl

-- A value that is itself an alias is found under neither.
alias_lost :
    (enumerate latin (build_structured latin vault) "kind" "r" ≡ [])
    × (enumerate latin (build_structured latin vault) "kind" "Rail" ≡ [])
unfolding enumerate build_structured lookup normalize_key trim_space separator insert
alias_lost = (refl, refl)

both_found : enumerate latin (build_structured latin vault) "kind" "Road+Rail" ≡ ref_b ∷ ref_a ∷ []
unfolding enumerate build_structured lookup normalize_key trim_space separator insert
both_found = refl

newest : ordered (build_ordered vault) "year" Direction.descending (pos 2) ≡ ref_a ∷ ref_b ∷ []
unfolding ordered build_ordered lookup insert sort_by entry_le text_le
newest = refl

ordered-IsSorted_example :
    (es : List OrderedEntry) × Perm es (carrying "year" vault)
    × IsSorted (stands_before Direction.descending) es
    × (ordered (build_ordered vault) "year" Direction.descending (pos 2)
        ≡ cut_to (pos 2) (refs_of es))
unfolding lookup
ordered-IsSorted_example =
    ordered-IsSorted vault "year" Direction.descending (pos 2)
      ((refl, tt), ((refl, tt), ((refl, (refl, tt)), tt)))
