-- ===== src/Telegram/Plain.antt =====
-- `plainFromHTML` of internal/transport/telegram/format.go: the message as text with entities, for a
-- send without a parse mode. It reads the tokens of the message.
use Prim.Native.Char.{Char, code}
use yaad_grove.Base.{
  ℕ, zero, suc, ◌+◌, ◌-◌, Bool, not, ◌&&◌, ◌||◌, String, Option, none, some, List, [], ◌∷◌, ◌++◌,
  ltb, if◌then◌else◌, same_text,
}
use yaad_grove.Base.Text.{◌<>◌}
use yaad_grove.Telegram.Blocks.{
  Token, text_token, start_tag, end_tag, self_closing_tag, other_token,
}

pub data EntityKind : Type 0 where
  code_entity pre_entity : EntityKind

-- An entity covers `length` UTF-16 units from `offset`.
pub record Entity : Type 0 where
  pub kind : EntityKind
  pub offset : ℕ
  pub length : ℕ

-- `openLink`. Where a link's text began is counted in characters.
pub record OpenLink : Type 0 where
  pub href : String
  pub from : ℕ

-- utf16.RuneLen
abbrev pub rune_len : Char → ℕ
rune_len c = if ltb (code c) 0x10000 then 1 else 2

unfoldable pub utf16_len : String → ℕ
utf16_len String.[] = 0
utf16_len (String.◌∷◌ c s) = rune_len c + utf16_len s

unfoldable pub chars : String → ℕ
chars String.[] = 0
chars (String.◌∷◌ c s) = suc (chars s)

-- s[n:]
unfoldable pub text_from : ℕ → String → String
text_from zero s = s
text_from (suc n) String.[] = ""
text_from (suc n) (String.◌∷◌ c s) = text_from n s

-- The function's variables. `start` is none for -1.
pub record Plain : Type 0 where
  pub b : String
  pub n : ℕ
  pub entities : List Entity
  pub start : Option ℕ
  pub kind : EntityKind
  pub links : List OpenLink

-- `write`
abbrev pub write : String → Plain → Plain
write t p = record p { b = p.b <> t; n = p.n + utf16_len t }

-- The last attribute `href`, or "".
unfoldable pub href_of : List (String × String) → String → String
href_of [] href = href
href_of ((k, v) ∷ more) href = href_of more (if same_text k "href" then v else href)

abbrev pub is_code : String → Bool
is_code name = same_text name "code" || same_text name "pre"

abbrev kind_of : String → EntityKind
kind_of name = if same_text name "pre" then pre_entity else code_entity

abbrev pub open_code : String → Option ℕ → Plain → Plain
open_code name none p = record p { start = some p.n; kind = kind_of name }
open_code name (some from) p = p

abbrev pub close_code : Option ℕ → Plain → Plain
close_code none p = p
close_code (some from) p =
    if ltb from p.n
    then record p {
      entities = p.entities ++ (record { kind = p.kind; offset = from; length = p.n - from } ∷ []);
      start = none;
    }
    else record p { start = none }

abbrev pub close_link : List OpenLink → Plain → Plain
close_link [] p = p
close_link (l ∷ ls) p =
    let q = record p { links = ls } in
    if not (same_text l.href "") && not (same_text (text_from l.from p.b) l.href)
    then write (" (" <> l.href <> ")") q
    else q

-- One token of the loop.
unfoldable pub plain_step : Token → Plain → Plain
plain_step (text_token t) p = write t p
plain_step (start_tag name attrs) p =
    if is_code name
    then open_code name p.start p
    else if same_text name "a"
    then record p { links = record { href = href_of attrs ""; from = chars p.b } ∷ p.links }
    else p
plain_step (end_tag name) p =
    if is_code name
    then close_code p.start p
    else if same_text name "a"
    then close_link p.links p
    else p
plain_step (self_closing_tag name) p = p
plain_step other_token p = p

unfoldable pub plain_tokens : List Token → Plain → Plain
plain_tokens [] p = p
plain_tokens (t ∷ ts) p = plain_tokens ts (plain_step t p)

abbrev pub no_plain : Plain
no_plain = record { b = ""; n = 0; entities = []; start = none; kind = code_entity; links = [] }

unfoldable pub plain_from_html : List Token → String × List Entity
plain_from_html ts = let p = plain_tokens ts no_plain in (p.b, p.entities)
