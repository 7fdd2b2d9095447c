-- ===== src/Telegram/Inbound.antt =====
-- What the adapter of internal/transport/telegram/telegram.go lets in: `toInbound`,
-- `toCallbackInbound` and their tests of a chat.
use yaad_grove.Base.{
  one_of, Bool, true, false, not, ◌&&◌, ◌||◌, String, Option, none, some, List, [], ◌∷◌,
  if◌then◌else◌, same_text,
}
use mathlib.Core.Option
use yaad_grove.Base.Int.{ℤ}
use yaad_grove.Base.Text.{trim_space}
use yaad_grove.Core.{User, Surface, Inbound}
use yaad_grove.Telegram.Updates.{
  Chat, ChatType, BotUser, Parent, Message, CallbackMessage, CallbackQuery, Adapter, Go, same_int,
}
use yaad_grove.Telegram.Mentions.{reply_to_bot, is_directed, strip_bot_mentions}

abbrev pub among : List ℤ → ℤ → Bool
among [] x = false
among (t ∷ ts) x = same_int t x || among ts x

-- `topicAllowed`, given the entry of the map.
abbrev pub topic_in : Option (List ℤ) → ℤ → Bool
topic_in none thread = true
topic_in (some topics) thread = among topics thread

abbrev parent_id : Go → Option Parent → String
parent_id go none = ""
parent_id go (some p) = go.format_int p.id

abbrev parent_text : Option Parent → String
parent_text none = ""
parent_text (some p) = trim_space p.text

-- What `toInbound` gives: the message, a refusal, or a panic.
pub data Received : Type 0 where
  dropped panics : Received
  received : Inbound → Received

module _ (go : Go) (a : Adapter) where
  -- `userOf`
  unfoldable pub user_of : BotUser → User
  user_of u = record {
    id = go.format_int u.id;
    display = if same_text u.username "" then u.first_name else u.username;
  }

  -- `groupAllowed`
  unfoldable pub group_allowed : ℤ → Bool
  group_allowed chat = one_of a.cfg.allowed_groups (go.format_int chat)

  -- `topicAllowed`
  unfoldable pub topic_allowed : ℤ → ℤ → Bool
  topic_allowed chat thread = topic_in (a.cfg.allowed_topics chat) thread

  abbrev pub if_allowed : Chat → Option Surface
  if_allowed c = if not (group_allowed c.id) then none else some Surface.group

  abbrev pub surface_of : Chat → ChatType → Option Surface
  surface_of c ChatType.private_ = some Surface.dm
  surface_of c ChatType.group = if_allowed c
  surface_of c ChatType.supergroup = if_allowed c
  surface_of c ChatType.channel = none

  -- `surfaceFor`
  unfoldable pub surface_for : Chat → Option Surface
  surface_for c = surface_of c c.type_

  abbrev parent_sender : Option Parent → String
  parent_sender none = ""
  parent_sender (some p) = elim p.sender [ none ↦ "" | some u ↦ (user_of u).display ]

  abbrev pub is_dm : Surface → Bool
  is_dm Surface.dm = true
  is_dm Surface.group = false

  abbrev pub inbound_of : Message → BotUser → Surface → String → Inbound
  inbound_of m sender surface text = record {
    user = user_of sender;
    surface = surface;
    text = text;
    reply_to = go.format_int m.chat.id;
    directed = is_dm surface || is_directed go a m;
    message_id = go.format_int m.id;
    reply_to_message_id = parent_id go m.reply_to_message;
    reply_to_bot = reply_to_bot go a m;
    reply_to_text = parent_text m.reply_to_message;
    reply_to_sender = parent_sender m.reply_to_message;
    callback = none;
  }

  abbrev pub with_text : Message → BotUser → Surface → Option String → Received
  with_text m sender surface none = panics
  with_text m sender surface (some text) = received (inbound_of m sender surface text)

  abbrev pub on_surface : Message → BotUser → Option Surface → Received
  on_surface m sender none = dropped
  on_surface m sender (some surface) =
      if not (is_dm surface) && not (topic_allowed m.chat.id m.thread)
      then dropped
      else with_text m sender surface (strip_bot_mentions go a m.text m.entities)

  abbrev pub from_sender : Message → Option BotUser → Received
  from_sender m none = dropped
  from_sender m (some sender) =
      if same_text (trim_space m.text) "" then dropped else on_surface m sender (surface_for m.chat)

  -- `toInbound`
  unfoldable pub to_inbound : Message → Received
  to_inbound m = from_sender m m.sender

  -- `callbackMessage`
  unfoldable pub callback_message : CallbackMessage → Option (Chat × ℤ)
  callback_message (CallbackMessage.accessible chat id) = some (chat, id)
  callback_message (CallbackMessage.inaccessible chat id) = some (chat, id)
  callback_message CallbackMessage.no_message = none

  abbrev pub click_on : CallbackQuery → Chat × ℤ → Surface → Inbound
  click_on cq (chat, message) surface = record {
    user = user_of cq.sender;
    surface = surface;
    text = "";
    reply_to = go.format_int chat.id;
    directed = false;
    message_id = "";
    reply_to_message_id = "";
    reply_to_bot = false;
    reply_to_text = "";
    reply_to_sender = "";
    callback =
        some (record { token = cq.data_; query_id = cq.id; message_id = go.format_int message });
  }

  abbrev pub click_at : CallbackQuery → Option (Chat × ℤ) → Option Inbound
  click_at cq none = none
  click_at cq (some at) = Option.map (click_on cq at) (surface_for at.0)

  -- `toCallbackInbound`
  unfoldable pub to_callback_inbound : CallbackQuery → Option Inbound
  to_callback_inbound cq =
      if same_text cq.data_ "" then none else click_at cq (callback_message cq.message)
