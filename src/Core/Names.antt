-- ===== src/Core/Names.antt =====
-- `DisplayName` of internal/core/engine.go. The tables of Go's packages unicode and strings are
-- parameters.
use Prim.Native.Char.{Char, code}
use yaad_grove.Base.{
  Bool, ◌||◌, String, Option, none, some, List, [], ◌∷◌, if◌then◌else◌, ◌==◌, same_text,
}
use yaad_grove.Base.Text.{is_space, ◌<>◌}

pub record NameTables : Type 0 where
  pub is_control : Char → Bool
  pub is_bidi_control : Char → Bool
  pub equal_fold : String → String → Bool

abbrev one : Char → String
one c = String.◌∷◌ c String.[]

-- `nameRune`; `none` drops the rune.
name_rune : NameTables → Char → Option String
name_rune n c =
    let k = code c in
    if is_space c || k == 91 || k == 93 || k == 40 || k == 41 || k == 58
    then some " "
    else if n.is_control c || n.is_bidi_control c
    then none
    else some (one c)

abbrev dropped : Option String → String
dropped none = ""
dropped (some s) = s

-- strings.Map
map_runes : NameTables → String → String
unfolding name_rune
map_runes n String.[] = ""
map_runes n (String.◌∷◌ c s) = dropped (name_rune n c) <> map_runes n s

abbrev flush : String → List String → List String
flush word rest = if same_text word "" then rest else word ∷ rest

-- strings.Fields, with the word begun so far.
unfoldable pub words : String → String → List String
words word String.[] = flush word []
words word (String.◌∷◌ c s) =
    let broken = flush word (words "" s) in
    let longer = words (word <> one c) s in if is_space c then broken else longer

-- strings.Join with a space.
unfoldable pub joined : List String → String
joined [] = ""
joined (w ∷ []) = w
joined (w ∷ v ∷ ws) = w <> " " <> joined (v ∷ ws)

unfoldable pub display_name : NameTables → String → String
unfolding joined words map_runes
display_name n s =
    let name = joined (words "" (map_runes n s)) in
    if n.equal_fold name "assistant" then "a participant named " <> name else name
