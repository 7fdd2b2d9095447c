-- ===== src/Telegram/Render.antt =====
-- `toTelegramHTML` of internal/transport/telegram/format.go, and the visitor `render`.
use Prim.Native.Char.{Char, code}
use yaad_grove.Base.{
  ℕ, suc, Bool, true, false, ◌||◌, String, Option, none, some, List, [], ◌∷◌, ltb, ◌==◌,
  if◌then◌else◌, same_text,
}
use yaad_grove.Base.Text.{◌<>◌, trim_space}
use yaad_grove.Telegram.Markdown.{
  Kind, Node, node, Nodes, no_nodes, next, Visitor, Walk, WalkStatus, walk_continue,
  walk_skip_children, bind,
}
use yaad_grove.Telegram.Blocks.{Token, html_block_text}

abbrev pub entity : Char → String
entity c =
    let n = code c in
    if n == 38
    then "&amp;"
    else if n == 39
    then "&#39;"
    else if n == 60
    then "&lt;"
    else if n == 62
    then "&gt;"
    else if n == 34
    then "&#34;"
    else String.◌∷◌ c ""

-- `html.EscapeString`
unfoldable pub escape_string : String → String
escape_string String.[] = ""
escape_string (String.◌∷◌ c s) = entity c <> escape_string s

-- `listState`
pub record ListState : Type 0 where
  pub ordered : Bool
  pub item : ℕ

-- `htmlRenderer`: what is written, and the lists that enclose the node, the innermost first.
pub record Renderer : Type 0 where
  pub out : String
  pub lists : List ListState

abbrev pub write_string : String → Renderer → Renderer
write_string s r = record r { out = r.out <> s }

abbrev pub in_list : Renderer → Bool
in_list r = elim r.lists [ [] ↦ false | l ∷ ls ↦ true ]

-- What follows a block: one line break in a list, a blank line outside.
abbrev pub block_end : Renderer → String
block_end r = if in_list r then "\n" else "\n\n"

abbrev starts_with : String → String → Bool
starts_with String.[] s = true
starts_with (String.◌∷◌ c p) String.[] = false
starts_with (String.◌∷◌ c p) (String.◌∷◌ d s) =
    let rest = starts_with p s in if code c == code d then rest else false

unfoldable pub tag_of : ℕ → String
tag_of level = if ltb 1 level then "b" else "i"

abbrev pub link_start : String → String
link_start url = "<a href=\"" <> escape_string url <> "\">"

-- `writeChildText`: what it writes.
unfoldable pub child_text : Nodes → String
child_text no_nodes = ""
child_text (next (node (Kind.text s soft hard) ns) rest) = escape_string s <> child_text rest
child_text (next n rest) = child_text rest

-- `writeLines`: what it writes.
unfoldable pub lines_text : List String → String
lines_text [] = ""
lines_text (l ∷ ls) = escape_string l <> lines_text ls

abbrev pub continue_ : Renderer → Option (Renderer × WalkStatus)
continue_ r = some (r, walk_continue)

abbrev pub skip : Renderer → Option (Renderer × WalkStatus)
skip r = some (r, walk_skip_children)

abbrev pub break_if : Bool → String
break_if b = if b then "\n" else ""

-- A list item's marker. Go's index -1 panics, where an item stands in no list.
abbrev pub marker : (ℕ → String) → List ListState → Renderer → Option (Renderer × WalkStatus)
marker decimal [] r = none
marker decimal (l ∷ ls) r =
    if l.ordered
    then continue_ (record {
      out = r.out <> (decimal l.item <> ". ");
      lists = record l { item = suc l.item } ∷ ls;
    })
    else continue_ (write_string "• " r)

-- A list's end. Go's slice to length -1 panics.
abbrev pub list_end : Renderer → List ListState → Option (Renderer × WalkStatus)
list_end r [] = none
list_end r (l ∷ []) = continue_ (record { out = r.out <> "\n"; lists = [] })
list_end r (l ∷ k ∷ ls) = continue_ (record r { lists = k ∷ ls })

-- strings.ToLower, strconv.Itoa, goldmark's parser and x/net/html's tokenizer.
pub record Libraries : Type 0 where
  pub to_lower : String → String
  pub decimal : ℕ → String
  pub parse : String → Node
  pub tokenize : String → List Token

module _ (lib : Libraries) where
  unfoldable pub is_web_url : String → Bool
  is_web_url dest =
      let d = lib.to_lower (trim_space dest) in starts_with "http://" d || starts_with "https://" d

  -- The cases `*ast.Link` and `*ast.Image`.
  abbrev pub link_tag : String → Bool → Renderer → Option (Renderer × WalkStatus)
  link_tag dest entering r =
      if is_web_url dest
      then continue_ (write_string (if entering then link_start dest else "</a>") r)
      else continue_ r

  -- The end of `writeHTMLBlockText`.
  abbrev pub write_block : String → Renderer → Renderer
  write_block t r = if same_text t "" then r else write_string (escape_string t <> block_end r) r

  -- `render`, by the type of the node.
  unfoldable pub render : Visitor Renderer
  unfolding is_web_url
  render (node (Kind.text s soft hard) ns) true r =
      continue_ (write_string (escape_string s <> break_if (hard || soft)) r)
  render (node (Kind.string_ s) ns) true r = continue_ (write_string (escape_string s) r)
  render (node (Kind.auto_link url) ns) true r =
      skip (write_string (link_start url <> escape_string url <> "</a>") r)
  render (node (Kind.auto_link url) ns) false r = skip r
  render (node Kind.code_span ns) true r =
      skip (write_string ("<code>" <> child_text ns <> "</code>") r)
  render (node Kind.code_span ns) false r = skip r
  render (node (Kind.emphasis level) ns) true r =
      continue_ (write_string ("<" <> tag_of level <> ">") r)
  render (node (Kind.emphasis level) ns) false r =
      continue_ (write_string ("</" <> tag_of level <> ">") r)
  render (node (Kind.link dest) ns) entering r = link_tag dest entering r
  render (node (Kind.image dest) ns) entering r = link_tag dest entering r
  render (node Kind.heading ns) true r = continue_ (write_string "<b>" r)
  render (node Kind.heading ns) false r = continue_ (write_string "</b>\n\n" r)
  render (node Kind.paragraph ns) false r = continue_ (write_string (block_end r) r)
  render (node Kind.text_block ns) false r = continue_ (write_string "\n" r)
  render (node (Kind.fenced_code_block ls) ns) true r =
      skip (write_string ("<pre>" <> lines_text ls <> "</pre>\n\n") r)
  render (node (Kind.fenced_code_block ls) ns) false r = skip r
  render (node (Kind.code_block ls) ns) true r =
      skip (write_string ("<pre>" <> lines_text ls <> "</pre>\n\n") r)
  render (node (Kind.code_block ls) ns) false r = skip r
  render (node Kind.blockquote ns) true r = continue_ (write_string "<blockquote>" r)
  render (node Kind.blockquote ns) false r = continue_ (write_string "</blockquote>\n" r)
  render (node (Kind.list ordered start) ns) true r =
      let first = if start == 0 then 1 else start in
      continue_ (record r { lists = record { ordered = ordered; item = first } ∷ r.lists })
  render (node (Kind.list ordered start) ns) false r = list_end r r.lists
  render (node Kind.list_item ns) true r = marker lib.decimal r.lists r
  render (node Kind.list_item ns) false r = continue_ (write_string "\n" r)
  render (node Kind.thematic_break ns) true r = continue_ (write_string "—\n" r)
  render (node Kind.raw_html ns) entering r = skip r
  render (node (Kind.html_block raw) ns) true r =
      skip (write_block (html_block_text (lib.tokenize raw)) r)
  render (node (Kind.html_block raw) ns) false r = skip r
  render (node k ns) entering r = continue_ r

  -- `none` where the walk panics.
  unfoldable pub to_telegram_html : Walk Renderer → String → Option String
  unfolding render
  to_telegram_html w md =
      bind (w.walk render (lib.parse md) (record { out = ""; lists = [] }))
        (λ r. some (trim_space r.out))
