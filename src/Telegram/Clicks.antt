-- ===== src/Telegram/Clicks.antt =====
-- About the calls of `handleCallback` of internal/transport/telegram/telegram.go.
use yaad_grove.Base.{Option, some, List, [], ◌∷◌, ◌⊎◌, ◌≢◌, ◌≡◌, Result, ok}
use mathlib.Core.Option
use yaad_grove.Base.Int.{ℤ}
use yaad_grove.Base.Text.{trim_space}
use yaad_grove.Core.{Surface, Inbound, Reply}
use yaad_grove.Telegram.Updates.{Chat, CallbackQuery, Adapter, Go}
use yaad_grove.Telegram.Inbound.{callback_message, click_on}
use yaad_grove.Telegram.Dispatch.{Effect, answered, edited}
use yaad_grove.Telegram.Scope.{InScope}

-- What handling a click does.
module _ (go : Go) (a : Adapter) where
  module _ {E : Type 0} (handler : Inbound → Result E Reply) where
    -- A click on a message where the bot serves, that the handler answers with the reply.
    abbrev pub Handled : CallbackQuery → Chat → ℤ → Reply → Type 0
    Handled cq c m reply =
        (s : Surface) × (callback_message go a cq.message ≡ some (c, m))
        × InScope go a c s
        × (handler (click_on go a cq (c, m) s) ≡ ok reply)

    -- The calls of a reply to a click: its notice, and one edit where its text is not blank.
    abbrev pub ReplyCalls : CallbackQuery → Chat → ℤ → Reply → List Effect → Type 0
    ReplyCalls cq c m reply es =
        ((trim_space reply.text ≡ "") × (es ≡ answered cq.id reply.notice ∷ []))
        ⊎ ((trim_space reply.text ≢ "")
            × (es ≡ answered cq.id reply.notice ∷ edited c.id m reply.text ∷ []))

    -- The calls for a click: those of a reply, or nothing but an empty answer.
    abbrev pub OnClick : CallbackQuery → List Effect → Type 0
    OnClick cq es =
        (es ≡ answered cq.id "" ∷ [])
        ⊎ ((c : Chat) × (m : ℤ) × (reply : Reply) × Handled cq c m reply
            × ReplyCalls cq c m reply es)
