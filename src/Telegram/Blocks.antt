-- ===== src/Telegram/Blocks.antt =====
-- `writeHTMLBlockText` of internal/transport/telegram/format.go: the text of an HTML block, from the
-- tokens that x/net/html's tokenizer finds in it, up to the final escape and write.
use Prim.Native.Char.{Char, code}
use yaad_grove.Base.{
  one_of, ℕ, suc, ◌-◌, Bool, false, ◌&&◌, ◌||◌, String, List, [], ◌∷◌, ◌==◌, ltb, if◌then◌else◌,
  same_text,
}
use yaad_grove.Base.Text.{◌<>◌, trim_space}

-- A tag token's name, with its attributes for a start tag. Comments and doctypes are `other_token`.
pub data Token : Type 0 where
  text_token : String → Token
  start_tag : String → List (String × String) → Token
  end_tag : String → Token
  self_closing_tag : String → Token
  other_token : Token

abbrev pub starts_with_code : ℕ → String → Bool
starts_with_code n String.[] = false
starts_with_code n (String.◌∷◌ c s) = code c == n

abbrev html_space : Char → Bool
html_space c = let n = code c in (n == 32) || (n == 9) || (n == 13) || (n == 10) || (n == 12)

-- `htmlSpaceRun.ReplaceAllString(s, " ")`: each run of white space becomes one space.
unfoldable pub html_space_run : String → String
html_space_run String.[] = ""
html_space_run (String.◌∷◌ c s) =
    let rest = html_space_run s in
    if html_space c
    then (if starts_with_code 32 rest then rest else " " <> rest)
    else String.◌∷◌ c rest

-- `htmlSpaces.ReplaceAllString(s, " ")`: each run of spaces becomes one.
unfoldable pub html_spaces : String → String
html_spaces String.[] = ""
html_spaces (String.◌∷◌ c s) =
    let rest = html_spaces s in
    if (code c == 32) && starts_with_code 32 rest then rest else String.◌∷◌ c rest

abbrev skip_spaces : String → String
skip_spaces String.[] = ""
skip_spaces (String.◌∷◌ c s) =
    let rest = skip_spaces s in if code c == 32 then rest else String.◌∷◌ c s

-- `htmlLineEdge.ReplaceAllString(s, "\n")`: no spaces on either side of a line break.
unfoldable pub html_line_edge : String → String
html_line_edge String.[] = ""
html_line_edge (String.◌∷◌ c s) =
    let rest = html_line_edge s in
    if (code c == 32) && starts_with_code 10 rest
    then rest
    else if code c == 10
    then String.◌∷◌ c (skip_spaces rest)
    else String.◌∷◌ c rest

abbrev two_breaks : String → Bool
two_breaks String.[] = false
two_breaks (String.◌∷◌ c s) = (code c == 10) && starts_with_code 10 s

-- `htmlBlankRun.ReplaceAllString(s, "\n\n")`: three line breaks or more become two.
unfoldable pub html_blank_run : String → String
html_blank_run String.[] = ""
html_blank_run (String.◌∷◌ c s) =
    let rest = html_blank_run s in
    if (code c == 10) && two_breaks rest then rest else String.◌∷◌ c rest

-- `htmlBreaks`, which has no entry for an inline tag.
unfoldable pub html_breaks : String → String
html_breaks tag =
    let blocks =
      "p" ∷ "div" ∷ "blockquote" ∷ "pre" ∷ "ul" ∷ "ol" ∷ "table" ∷ "hr" ∷ "h1" ∷ "h2" ∷ "h3" ∷ "h4"
      ∷ "h5" ∷ "h6" ∷ [] in
    if one_of blocks tag then "\n\n" else if one_of ("br" ∷ "tr" ∷ []) tag then "\n" else ""

-- The loop's variables: how deep the tokens are in script or style, and in pre, and the text so far.
pub record Flattened : Type 0 where
  pub hidden : ℕ
  pub pre : ℕ
  pub out : String

abbrev pub is_hidden_tag : String → Bool
is_hidden_tag tag = same_text tag "script" || same_text tag "style"

abbrev deeper : Bool → ℕ → ℕ
deeper b n = if b then suc n else n

-- `n--` where n > 0.
abbrev pub shallower : Bool → ℕ → ℕ
shallower b n = if b then n - 1 else n

abbrev breaks_at : String → Flattened → Flattened
breaks_at tag f = if same_text tag "li" then f else record f { out = f.out <> html_breaks tag }

-- One token of the loop.
unfoldable pub flatten_step : Token → Flattened → Flattened
flatten_step (text_token s) f =
    if ltb 0 f.hidden
    then f
    else if ltb 0 f.pre
    then record f { out = f.out <> s }
    else record f { out = f.out <> html_space_run s }
flatten_step (start_tag tag attrs) f =
    if is_hidden_tag tag
    then record f { hidden = suc f.hidden }
    else let g = record f { pre = deeper (same_text tag "pre") f.pre } in
      if same_text tag "li" then record g { out = g.out <> "\n• " } else breaks_at tag g
flatten_step (end_tag tag) f =
    if is_hidden_tag tag
    then record f { hidden = f.hidden - 1 }
    else breaks_at tag (record f { pre = shallower (same_text tag "pre") f.pre })
flatten_step (self_closing_tag tag) f = if is_hidden_tag tag then f else breaks_at tag f
flatten_step other_token f = f

unfoldable pub flatten_tokens : List Token → Flattened → Flattened
flatten_tokens [] f = f
flatten_tokens (t ∷ ts) f = flatten_tokens ts (flatten_step t f)

-- The text after the loop, its white space collapsed.
unfoldable pub html_block_text : List Token → String
html_block_text ts =
    let f = flatten_tokens ts (record { hidden = 0; pre = 0; out = "" }) in
    trim_space (html_blank_run (html_line_edge (html_spaces f.out)))
