-- ===== src/Telegram/Dispatch.antt =====
-- The dispatch of an update in `Run` of internal/transport/telegram/telegram.go, with `handleCallback`
-- and `editToStatus`. The runtime's handler is an argument; the calls of the Bot API are effects.
use yaad_grove.Base.{
  String, Option, none, some, List, [], ◌∷◌, ◌++◌, if◌then◌else◌, same_text, Result, ok, err,
}
use yaad_grove.Base.Int.{ℤ}
use yaad_grove.Base.Text.{trim_space}
use yaad_grove.Core.{Inbound, Reply, Callback}
use yaad_grove.Telegram.Updates.{Message, CallbackQuery, Adapter, Go}
use yaad_grove.Telegram.Inbound.{Received, to_inbound, to_callback_inbound}

pub data Update : Type 0 where
  click : CallbackQuery → Update
  posted : Message → Update
  other_update : Update

-- The calls that an update leads to: AnswerCallbackQuery, EditMessageText, SetMessageReaction, and
-- `sendTo` with a chat and a topic.
pub data Effect : Type 0 where
  answered : String → String → Effect
  edited : ℤ → ℤ → String → Effect
  reacted : ℤ → ℤ → String → Effect
  replied : ℤ → ℤ → Reply → Effect

abbrev edit_at : Option ℤ → Option ℤ → String → List Effect
edit_at (some chat) (some message) text = edited chat message text ∷ []
edit_at chat message text = []

-- `editToStatus`. An id that is no number is an error, and nothing is called.
unfoldable pub edit_to_status : Go → String → String → String → List Effect
edit_to_status go chat message text = edit_at (go.parse_int chat) (go.parse_int message) text

module _ {E : Type 0} (go : Go) (a : Adapter) (handler : Inbound → Result E Reply) where
  abbrev status_edit : Inbound → Callback → Reply → List Effect
  status_edit in_ c reply =
      if same_text (trim_space reply.text) ""
      then []
      else edit_to_status go in_.reply_to c.message_id reply.text

  abbrev pub answer_click : Inbound → Callback → Result E Reply → List Effect
  answer_click in_ c (err e) = answered c.query_id "" ∷ []
  answer_click in_ c (ok reply) = answered c.query_id reply.notice ∷ status_edit in_ c reply

  -- The inbound of a click always has its callback.
  abbrev pub on_click : CallbackQuery → Option Inbound → List Effect
  on_click cq none = answered cq.id "" ∷ []
  on_click cq (some in_) = elim in_.callback [
    | none ↦ []
    | some c ↦ answer_click in_ c (handler in_)
  ]

  -- `handleCallback`
  unfoldable pub handle_callback : CallbackQuery → List Effect
  handle_callback cq = on_click cq (to_callback_inbound go a cq)

  abbrev reaction : Message → String → List Effect
  reaction m emoji = if same_text emoji "" then [] else reacted m.chat.id m.id emoji ∷ []

  abbrev pub reply_with : Message → Result E Reply → List Effect
  reply_with m (err e) = []
  reply_with m (ok reply) = reaction m reply.reaction ++ (replied m.chat.id m.thread reply ∷ [])

  abbrev pub on_message : Message → Received → Option (List Effect)
  on_message m Received.dropped = some []
  on_message m Received.panics = none
  on_message m (Received.received in_) = some (reply_with m (handler in_))

  -- The dispatch. None where it panics.
  unfoldable pub dispatch : Update → Option (List Effect)
  unfolding handle_callback
  dispatch (click cq) = some (handle_callback cq)
  dispatch (posted m) = on_message m (to_inbound go a m)
  dispatch other_update = some []
