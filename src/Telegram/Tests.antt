-- ===== src/Telegram/Tests.antt =====
-- The theorems about internal/transport/telegram at concrete inputs.
use yaad_grove.Telegram.Inbound.{topic_allowed, group_allowed, surface_for, to_inbound}
use yaad_grove.Base.Utf16.{decode, encode}
use yaad_grove.Base.{
  ℕ, true, false, String, Option, none, some, List, [], ◌∷◌, ◌≡◌, refl, ap, Result, ok, same_text,
  ◌==◌, if◌then◌else◌,
}
use yaad_grove.Base.Int.{◌+ℤ◌, ℤ, pos, negsuc}
use yaad_grove.Base.Text.{◌<>◌, ◌<>◌, trim_space}
use Prim.Native.Char.{code}
use yaad_grove.Core.{Inbound, Reply, empty_reply}
use yaad_grove.Telegram.Markdown.{
  Kind, Node, node, Nodes, no_nodes, next, Visitor, Walk, IsWalk, WalkStatus, walk_continue,
  walk_skip_children, bind, entered,
}
use yaad_grove.Telegram.Render.{
  escape_string, Renderer, Libraries, is_web_url, render, escape_string, tag_of, to_telegram_html,
}
use yaad_grove.Telegram.Html.{IsHtml}
use yaad_grove.Telegram.Nesting.{to_telegram_html-IsHtml}
use yaad_grove.Telegram.Placed.{IsPlaced}
use yaad_grove.Telegram.Blocks.{
  html_breaks, flatten_step, flatten_tokens, html_spaces, html_line_edge, html_blank_run,
  html_block_text, text_token, start_tag, end_tag,
}
use yaad_grove.Telegram.Plain.{plain_from_html, utf16_len, chars}
use yaad_grove.Telegram.Entities.{Fits, plain_from_html-Fits}
use yaad_grove.Telegram.Send.{Outcome, bad_request, failed, attempts}
use yaad_grove.Telegram.Cascade.{Resends, attempts-Resends}
use yaad_grove.Telegram.Updates.{
  ChatType, BotUser, Message, MentionKind, MessageEntity, CallbackMessage, CallbackQuery, Adapter,
  Go,
}
use yaad_grove.Telegram.Mentions.{entity_text, is_own, strip_bot_mentions}
use yaad_grove.Telegram.Stripped.{strip_bot_mentions-rest}
use yaad_grove.Telegram.Dispatch.{posted, dispatch}
use yaad_grove.Telegram.Scope.{Calls, dispatch-Calls}

abbrev under : (Renderer → Option Renderer) → Renderer × WalkStatus → Option Renderer
under children (s, walk_continue) = children s
under children (s, walk_skip_children) = some s

mutual
  walk_node : Visitor Renderer → Node → Renderer → Option Renderer
  walk_node visit (node k ns) s =
      bind (bind (visit (node k ns) true s) (under (walk_nodes visit ns)))
        (λ t. bind (visit (node k ns) false t) (λ r. some r.0))

  walk_nodes : Visitor Renderer → Nodes → Renderer → Option Renderer
  walk_nodes visit no_nodes s = some s
  walk_nodes visit (next n ns) s = bind (walk_node visit n s) (walk_nodes visit ns)

abbrev a_walk : Walk Renderer
a_walk = record { walk = walk_node; walk_children = walk_nodes }

abbrev leaf : Kind → Node
leaf k = node k no_nodes

abbrev one : Node → Nodes
one n = next n no_nodes

abbrev a_document : Node
a_document = node Kind.other (
    next (node Kind.heading (one (leaf (Kind.text "a < b" false false)))) (
      next
        (node (Kind.list true 0) (
          one (
            node Kind.list_item
              (one (node (Kind.link "vault.md") (one (leaf (Kind.text "note" false false))))))))
        (one (node Kind.paragraph (one (leaf (Kind.auto_link "http://x")))))))

abbrev libraries : Libraries
libraries = record {
  to_lower = λ s. s;
  decimal = λ n. "1";
  parse = λ md. a_document;
  tokenize = λ html. [];
}

rendered :
    to_telegram_html libraries a_walk ""
    ≡ some "<b>a &lt; b</b>\n\n1. note\n\n<a href=\"http://x\">http://x</a>"
unfolding to_telegram_html walk_node trim_space ◌<>◌ render escape_string tag_of is_web_url
rendered = refl

under-entered :
    (visit : Visitor Renderer) (k : Kind) (ns : Nodes) (o : Option (Renderer × WalkStatus))
    → bind o (under (walk_nodes visit ns)) ≡ bind o (entered a_walk visit (node k ns))
under-entered visit k ns none = refl
under-entered visit k ns (some (s, walk_continue)) = refl
under-entered visit k ns (some (s, walk_skip_children)) = refl

at_node :
    (visit : Visitor Renderer) (n : Node) (s : Renderer)
    → walk_node visit n s
      ≡ bind
          (bind (visit n true s) (entered a_walk visit n))
          (λ t. bind (visit n false t) (λ r. some r.0))
unfolding walk_node
at_node visit (node k ns) s =
    ap (λ o. bind o (λ t. bind (visit (node k ns) false t) (λ r. some r.0)))
      (under-entered visit k ns (visit (node k ns) true s))

a_walk-IsWalk : IsWalk Renderer a_walk
unfolding walk_nodes
a_walk-IsWalk = record {
  at_node = at_node;
  at_end = λ visit s. refl;
  at_next = λ visit n ns s. refl;
}

abbrev IsWeb : String → Type 0
IsWeb u = is_web_url libraries u ≡ true

to_telegram_html-IsHtml_example :
    (message : String) × (to_telegram_html libraries a_walk "" ≡ some message)
    × IsHtml IsWeb message
unfolding escape_string ◌<>◌ IsPlaced is_web_url trim_space
to_telegram_html-IsHtml_example =
    to_telegram_html-IsHtml libraries a_walk a_walk-IsWalk IsWeb (λ u e. e) (λ n. refl) ""
      (
        tt,
        (
          (tt, ((tt, tt), tt)),
          ((tt, ((refl, ((tt, ((tt, tt), tt)), tt)), tt)), ((tt, ((refl, tt), tt)), tt)),
        ),
      )

-- Blank lines inside pre collapse, like those between blocks.
blank_lines :
    html_block_text (start_tag "pre" [] ∷ text_token "a\n\n\n\nb" ∷ end_tag "pre" ∷ []) ≡ "a\n\nb"
unfolding html_block_text trim_space html_blank_run html_line_edge html_spaces flatten_tokens
    flatten_step ◌<>◌ html_breaks
blank_lines = refl

abbrev tokens : List yaad_grove.Telegram.Blocks.Token
tokens = text_token "😀 " ∷ start_tag "code" [] ∷ text_token "go run" ∷ end_tag "code" ∷ []

plain_from_html-Fits_example :
    Fits 0 (utf16_len (plain_from_html tokens).0) (plain_from_html tokens).1
plain_from_html-Fits_example = plain_from_html-Fits tokens

abbrev api : ℕ → Outcome
api n = elim n [ ℕ.zero ↦ failed | _ ↦ bad_request ]

attempts-Resends_example :
    Resends libraries a_walk api
      (pos 7)
      (pos 0)
      none
      (attempts libraries a_walk api (pos 7) (pos 0) "<b>hi</b>" "**hi**" none)
attempts-Resends_example =
    attempts-Resends libraries a_walk api (pos 7) (pos 0) "<b>hi</b>" "**hi**" none

abbrev go : Go
go = record { equal_fold = same_text; format_int = λ n. "7"; parse_int = λ s. some (pos 7) }

abbrev bot : Adapter
bot = record {
  cfg = record { allowed_groups = "7" ∷ []; allowed_topics = λ chat. some (pos 3 ∷ []) };
  bot_id = pos 1;
  bot_username = "grove";
}

abbrev mentioned : MessageEntity
mentioned = record { kind = MentionKind.mention; offset = pos 3; length = pos 6; user = none }

strip_bot_mentions-rest_example :
    strip_bot_mentions go bot "😀 @grove hello" (mentioned ∷ []) ≡ some "😀  hello"
unfolding is_own entity_text encode ◌<>◌ ◌+ℤ◌ decode trim_space
strip_bot_mentions-rest_example =
    strip_bot_mentions-rest go bot "😀 " "@grove" " hello" [] mentioned [] refl tt tt refl refl

abbrev member : BotUser
member = record { id = pos 5; username = ""; first_name = "Ann" }

abbrev question : Message
question = record {
  id = pos 9;
  sender = some member;
  chat = record { id = pos 7; type_ = ChatType.group };
  thread = pos 3;
  text = "@grove hello";
  entities = [];
  reply_to_message = none;
}

abbrev handler : Inbound → Result String Reply
handler in_ = ok (record empty_reply { text = in_.text })

dispatch-Calls_example : Calls go bot handler question (dispatch go bot handler (posted question))
dispatch-Calls_example = dispatch-Calls go bot handler question

-- A message in another topic of the group draws nothing.
other_topic : dispatch go bot handler (posted (record question { thread = pos 4 })) ≡ some []
unfolding dispatch to_inbound trim_space surface_for group_allowed topic_allowed
other_topic = refl

-- Ids are written as a sign and a tally, and read back.
abbrev tally : ℕ → String
tally ℕ.zero = ""
tally (ℕ.suc n) = String.◌∷◌ "1" (tally n)

abbrev written : ℤ → String
written (pos n) = tally n
written (negsuc n) = String.◌∷◌ "-" (tally n)

abbrev read : String → Option ℤ
read String.[] = some (pos 0)
read (String.◌∷◌ c s) =
    if code c == 45 then some (negsuc (chars s)) else some (pos (ℕ.suc (chars s)))

abbrev unary : Go
unary = record { equal_fold = same_text; format_int = written; parse_int = read }

abbrev a_click : CallbackQuery
a_click = record {
  id = "q";
  data_ = "token";
  sender = member;
  message = CallbackMessage.accessible (record { id = pos 4; type_ = ChatType.private_ }) (pos 9);
}
