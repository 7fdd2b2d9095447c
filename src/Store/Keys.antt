-- ===== src/Store/Keys.antt =====
-- `collapseSeparators` of internal/store/normalize.go against cutting the text at its separators.
use yaad_grove.Base.{
  Bool, true, false, String, List, [], ◌∷◌, if◌then◌else◌, Bool-cases, inl, inr, ◌≡◌, refl, sym, ap,
  ◌∙◌, arith,
}
use yaad_grove.Base.Text.{text_nil, text_assoc, ◌<>◌}
use yaad_grove.Store.Normalize.{Script, separator, collapse_from, collapse_separators}

abbrev unless_empty : String → List String → List String
unless_empty String.[] ps = ps
unless_empty (String.◌∷◌ c w) ps = String.◌∷◌ c w ∷ ps

-- strings.Join(ps, " ")
unfoldable pub join_spaced : List String → String
join_spaced [] = ""
join_spaced (p ∷ []) = p
join_spaced (p ∷ q ∷ ps) = p <> " " <> join_spaced (q ∷ ps)

spaced : List String → String
spaced [] = ""
spaced (p ∷ ps) = " " <> p <> spaced ps

module _ (script : Script) where
  -- What stands before the first separator, and the pieces without separators after it, none empty.
  unfoldable pub parts : String → String × List String
  parts String.[] = ("", [])
  parts (String.◌∷◌ c s) =
      let rest = parts s in
      if separator script c then ("", unless_empty rest.0 rest.1) else (String.◌∷◌ c rest.0, rest.1)

  -- The pieces without separators of a text, none empty.
  unfoldable pub pieces : String → List String
  unfolding parts
  pieces s = let p = parts s in unless_empty p.0 p.1

  join-spaced : (w : String) (ps : List String) → join_spaced (w ∷ ps) ≡ w <> spaced ps
  unfolding join_spaced spaced ◌<>◌
  join-spaced w [] = sym (text_nil w)
  join-spaced w (p ∷ ps) =
      text_assoc w " " (join_spaced (p ∷ ps)) ∙ ap (λ t. w <> (" " <> t)) (join-spaced p ps)

  -- The loop after a written character, and after a separator that follows one.
  collapse_from-parts :
      (s : String)
      → (collapse_from script true false s ≡ (parts s).0 <> spaced (parts s).1)
        × (collapse_from script true true s ≡ spaced (pieces s))
  unfolding collapse_from parts pieces spaced ◌<>◌
  collapse_from-parts String.[] = (refl, refl)
  collapse_from-parts (String.◌∷◌ c s) =
      let ih = collapse_from-parts s in
      elim (Bool-cases (separator script c)) [
        | inl sep ↦ rw sep (ih.1, ih.1)
        | inr letter ↦
            rw letter
              (ap (λ t. String.◌∷◌ c t) ih.0, ap (λ t. String.◌∷◌ " " (String.◌∷◌ c t)) ih.0)
      ]

  collapse_from-pieces :
      (b : Bool) (s : String) → collapse_from script false b s ≡ join_spaced (pieces s)
  unfolding collapse_from pieces parts join_spaced ◌<>◌
  collapse_from-pieces b String.[] = refl
  collapse_from-pieces b (String.◌∷◌ c s) = elim (Bool-cases (separator script c)) [
    | inl sep ↦ rw sep (collapse_from-pieces true s)
    | inr letter ↦
        let whole : String.◌∷◌ c (collapse_from script true false s)
            ≡ join_spaced (String.◌∷◌ c (parts s).0 ∷ (parts s).1) =
          ap (λ t. String.◌∷◌ c t) (collapse_from-parts s).0
          ∙ sym (join-spaced (String.◌∷◌ c (parts s).0) (parts s).1) in
        ground (arith, letter, whole)
  ]

  -- A key is the pieces of the text between its separators, none empty, joined with single spaces.
  pub collapse_separators-pieces :
      (s : String) → collapse_separators script s ≡ join_spaced (pieces s)
  unfolding collapse_separators
  collapse_separators-pieces s = collapse_from-pieces false s
