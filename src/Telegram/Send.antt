-- ===== src/Telegram/Send.antt =====
-- `sendTo` and `renderActions` of internal/transport/telegram/telegram.go, and `ActionsAsText` of
-- internal/transport/transport.go. Redacting and logging an error are left out.
use yaad_grove.Base.{
  ℕ, suc, ◌+◌, Bool, true, false, ◌&&◌, String, Option, none, some, List, [], ◌∷◌, if◌then◌else◌,
  same_text, Result, ok, err,
}
use yaad_grove.Base.Int.{ℤ, pos}
use yaad_grove.Base.Text.{◌<>◌, trim_space}
use yaad_grove.Core.{Action, Reply}
use yaad_grove.Telegram.Updates.{Go}
use yaad_grove.Telegram.Markdown.{Walk}
use yaad_grove.Telegram.Render.{Renderer, Libraries, to_telegram_html}
use yaad_grove.Telegram.Plain.{Entity, plain_from_html}

-- The rows of an inline keyboard: a label and a token each.
abbrev pub Markup : Type 0
Markup = Option (List (String × String))

-- `bot.SendMessageParams`. `html` is the parse mode.
pub record Request : Type 0 where
  pub chat : ℤ
  pub thread : ℤ
  pub text : String
  pub html : Bool
  pub entities : List Entity
  pub markup : Markup

-- How a request ends: it may have delivered the message, too, where it failed in another way than
-- `bot.ErrorBadRequest`.
pub data Outcome : Type 0 where
  sent bad_request failed : Outcome

pub data SendError : Type 0 where
  not_running invalid_chat : SendError
  request_failed : Outcome → SendError

-- The requests of a call in order, and what it returns.
pub record Delivery : Type 0 where
  pub requests : List Request
  pub result : Result SendError Bool

abbrev pub Nothing : Result SendError Bool → Delivery
Nothing r = record { requests = []; result = r }

abbrev pub after_request : Request → Delivery → Delivery
after_request r d = record d { requests = r ∷ d.requests }

abbrev pub result_of : Outcome → Result SendError Bool
result_of sent = ok true
result_of o = err (request_failed o)

abbrev pub last_request : Request → Outcome → Delivery
last_request r o = record { requests = r ∷ []; result = result_of o }

abbrev pub empty_markup : List Action → Bool
empty_markup [] = true
empty_markup (x ∷ xs) = false

-- `ActionsAsText`, from the index of the first action.
unfoldable pub actions_from : Go → ℕ → List Action → String
actions_from go i [] = ""
actions_from go i (x ∷ xs) =
    "\n" <> go.format_int (pos (i + 1)) <> ". " <> x.label <> actions_from go (suc i) xs

unfoldable pub actions_as_text : Go → List Action → String
actions_as_text go = actions_from go 0

-- `pending.Store.Put`, for a store with the state S.
abbrev pub Put : Type 0 → Type 0
Put S = Action → S → Result String String × S

module _ {S : Type 0} where
  -- The loop of `renderActions`: the rows, and the store with the tokens that it minted.
  unfoldable pub render_loop : Put S → List Action → S → Result String (List (String × String)) × S
  render_loop put [] s = (ok [], s)
  render_loop put (x ∷ xs) s =
      let (drawn, t) = put x s in
      elim drawn [
        | err e ↦ (err e, t)
        | ok token ↦
            let (rows, u) = render_loop put xs t in
            elim rows [ err e ↦ (err e, u) | ok rs ↦ (ok ((x.label, token) ∷ rs), u) ]
      ]

  -- `renderActions`
  unfoldable pub render_actions :
      Option (Put S) → List Action → S → Result String (List (String × String)) × S
  render_actions none actions s = (err "telegram: no callback store", s)
  render_actions (some put) actions s = render_loop put actions s

  -- The text to send and its keyboard.
  abbrev pub with_actions : Go → Option (Put S) → Reply → S → String × Markup × S
  with_actions go callbacks reply s =
      if empty_markup reply.actions
      then (reply.text, none, s)
      else (let (rows, t) = render_actions callbacks reply.actions s in
          elim rows [
            | ok rs ↦ (reply.text, some rs, t)
            | err e ↦ (reply.text <> actions_as_text go reply.actions, none, t)
          ])

module _ (lib : Libraries) (w : Walk Renderer) (api : ℕ → Outcome) (chat thread : ℤ) where
  abbrev pub raw_request : String → Markup → Request
  raw_request text markup = record {
    chat = chat;
    thread = thread;
    text = text;
    html = false;
    entities = [];
    markup = markup;
  }

  abbrev pub html_request : String → Markup → Request
  html_request text markup = record (raw_request text markup) { html = true }

  abbrev pub plain_request : String → Markup → Request
  plain_request html markup =
      let p = plain_from_html (lib.tokenize html) in
      record (raw_request p.0 markup) { entities = p.1 }

  -- The raw text, which goes only after a rejected request.
  abbrev pub third : Request → Outcome → Request → Delivery
  third second sent raw = last_request second sent
  third second failed raw = last_request second failed
  third second bad_request raw = after_request second (last_request raw (api 2))

  abbrev pub second : Outcome → Request → Request → Delivery
  second sent plain raw = Nothing (ok true)
  second o plain raw = third plain (api 1) raw

  -- The requests for a rendered message. `api n` is how the request n ends.
  unfoldable pub attempts : String → String → Markup → Delivery
  attempts html text markup =
      if same_text html ""
      then last_request (raw_request text markup) (api 0)
      else after_request (html_request html markup)
          (second (api 0) (plain_request html markup) (raw_request text markup))

  abbrev pub delivered : {S : Type 0} → Option String → String → Markup → S → Option (Delivery × S)
  delivered none text markup s = none
  delivered (some html) text markup s = some (attempts html text markup, s)

  -- `sendTo`, of an adapter that is running or not. None where rendering panics.
  unfoldable pub send_to :
      {S : Type 0} → Go → Option (Put S) → Bool → Reply → S → Option (Delivery × S)
  send_to go callbacks running reply s =
      if reply.silent
      then some (Nothing (ok true), s)
      else if same_text (trim_space reply.text) "" && empty_markup reply.actions
      then some (Nothing (ok true), s)
      else if running
      then (let (text, markup, t) = with_actions go callbacks reply s in
          delivered (to_telegram_html lib w text) text markup t)
      else some (Nothing (err not_running), s)

-- `Send`: to the General topic of the chat with the id.
unfoldable pub send :
    {S : Type 0}
    → Libraries
    → Walk Renderer
    → (ℕ → Outcome)
    → Go
    → Option (Put S)
    → Bool
    → String
    → Reply
    → S
    → Option (Delivery × S)
unfolding send_to
send lib w api go callbacks running reply_to reply s = elim (go.parse_int reply_to) [
  | none ↦ some (Nothing (err invalid_chat), s)
  | some chat ↦ send_to lib w api chat (pos 0) go callbacks running reply s
]

-- `transport.Capability`
pub data Capability : Type 0 where
  cap_reactions cap_edit_message cap_buttons : Capability

-- `Supports`
unfoldable pub supports : {S : Type 0} → Option (Put S) → Capability → Bool
supports callbacks cap_reactions = true
supports callbacks cap_edit_message = true
supports none cap_buttons = false
supports (some put) cap_buttons = true
