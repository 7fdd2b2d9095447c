-- ===== src/Telegram/Scope.antt =====
-- About the messages that the bot of internal/transport/telegram/telegram.go serves.
use yaad_grove.Base.{
  one_of, true, String, Option, none, some, List, [], All, same_text, ◌≡◌, refl, sym, ◌∙◌, ap, ◌||◌,
  ◌⊎◌, inl, inr, Bool-cases, Result, ok, err,
}
use yaad_grove.Base.Text.{trim_space}
use yaad_grove.Core.{Surface, Inbound, Reply}
use yaad_grove.Telegram.Updates.{Chat, ChatType, BotUser, Message, Adapter, Go}
use yaad_grove.Telegram.Mentions.{is_directed, strip_bot_mentions}
use yaad_grove.Telegram.Inbound.{
  topic_in, group_allowed, topic_allowed, if_allowed, dropped, surface_for, surface_of, is_dm,
  from_sender, to_inbound, on_surface, with_text, inbound_of, Received, received,
}
use yaad_grove.Telegram.Dispatch.{
  Effect, posted, answered, edited, reacted, replied, dispatch, reply_with, on_message,
}

module _ (go : Go) (a : Adapter) where
  -- A group or a supergroup.
  abbrev pub IsGroup : Chat → Type 0
  IsGroup c = (c.type_ ≡ ChatType.group) ⊎ (c.type_ ≡ ChatType.supergroup)

  -- The chat is a direct one, or a listed group.
  abbrev pub InScope : Chat → Surface → Type 0
  InScope c s =
      ((c.type_ ≡ ChatType.private_) × (s ≡ Surface.dm))
      ⊎ (IsGroup c
          × (one_of a.cfg.allowed_groups (go.format_int c.id) ≡ true)
          × (s ≡ Surface.group))

  listed-InScope : (c : Chat) (s : Surface) → IsGroup c → if_allowed go a c ≡ some s → InScope c s
  unfolding group_allowed
  listed-InScope c s g h = elim (Bool-cases (one_of a.cfg.allowed_groups (go.format_int c.id))) [
    | inl listed ↦ inr (g, listed, cc (rw listed at h))
    | inr unlisted ↦ absurd (cc (rw unlisted at h))
  ]

  surface_of-InScope :
      (c : Chat) (t : ChatType) (s : Surface)
      → c.type_ ≡ t
      → surface_of go a c t ≡ some s
      → InScope c s
  unfolding group_allowed
  surface_of-InScope c ChatType.private_ s e h = inl (e, cc h)
  surface_of-InScope c ChatType.group s e h = listed-InScope c s (inl e) h
  surface_of-InScope c ChatType.supergroup s e h = listed-InScope c s (inr e) h
  surface_of-InScope c ChatType.channel s e h = absurd (cc h)

  pub surface_for-InScope : (c : Chat) (s : Surface) → surface_for go a c ≡ some s → InScope c s
  unfolding surface_for
  surface_for-InScope c s h = surface_of-InScope c c.type_ s refl h

  -- A message from where the bot serves: a direct chat, or a listed group and one of its topics.
  abbrev pub IsServed : Message → Type 0
  IsServed m =
      (m.chat.type_ ≡ ChatType.private_)
      ⊎ (IsGroup m.chat
          × (one_of a.cfg.allowed_groups (go.format_int m.chat.id) ≡ true)
          × (topic_in (a.cfg.allowed_topics m.chat.id) m.thread ≡ true))

  with_text-received :
      (m : Message) (sender : BotUser) (s : Surface) (t : Option String) (in_ : Inbound)
      → with_text go a m sender s t ≡ received in_
      → (in_.reply_to ≡ go.format_int m.chat.id)
        × (in_.surface ≡ s)
        × (s ≡ Surface.dm → in_.directed ≡ true)
  with_text-received m sender s none in_ h = absurd (cc h)
  with_text-received m sender s (some t) in_ h =
      let e : inbound_of go a m sender s t ≡ in_ = cc h in
      (
        ap (λ i. i.reply_to) (sym e),
        ap (λ i. i.surface) (sym e),
        λ d. ap (λ i. i.directed) (sym e) ∙ ap (λ x. is_dm go a x || is_directed go a m) d,
      )

  on_surface-IsServed :
      (m : Message) (sender : BotUser) (o : Option Surface) (in_ : Inbound)
      → surface_for go a m.chat ≡ o
      → on_surface go a m sender o ≡ received in_
      → IsServed m
        × (in_.reply_to ≡ go.format_int m.chat.id)
        × (in_.surface ≡ Surface.dm → in_.directed ≡ true)
  unfolding topic_allowed
  on_surface-IsServed m sender none in_ e h = absurd (cc h)
  on_surface-IsServed m sender (some Surface.dm) in_ e h =
      let r =
        with_text-received m sender Surface.dm (strip_bot_mentions go a m.text m.entities) in_ h in
      elim (surface_for-InScope m.chat Surface.dm e) [
        | inl direct ↦ (inl direct.0, r.0, λ d. r.2 refl)
        | inr listed ↦ absurd (cc listed.2)
      ]
  on_surface-IsServed m sender (some Surface.group) in_ e h =
      elim (Bool-cases (topic_allowed go a m.chat.id m.thread)) [
        | inl topic ↦
            let r =
              with_text-received m sender Surface.group (strip_bot_mentions go a m.text m.entities)
                in_ (rw topic at h) in
            elim (surface_for-InScope m.chat Surface.group e) [
              | inl direct ↦ absurd (cc direct.1)
              | inr listed ↦ (inr (listed.0, listed.1, topic), r.0, λ d. r.2 (sym r.1 ∙ d))
            ]
        | inr outside ↦ absurd (cc (rw outside at h))
      ]

  from_sender-IsServed :
      (m : Message) (o : Option BotUser) (in_ : Inbound)
      → from_sender go a m o ≡ received in_
      → IsServed m
        × (in_.reply_to ≡ go.format_int m.chat.id)
        × (in_.surface ≡ Surface.dm → in_.directed ≡ true)
  from_sender-IsServed m none in_ h = absurd (cc h)
  from_sender-IsServed m (some sender) in_ h =
      elim (Bool-cases (same_text (trim_space m.text) "")) [
        | inl blank ↦ absurd (cc (rw blank at h))
        | inr text ↦ on_surface-IsServed m sender (surface_for go a m.chat) in_ refl (rw text at h)
      ]

  -- A message that is let in comes from where the bot serves, and its answer goes there. A direct message
  -- is meant for the bot.
  pub to_inbound-IsServed :
      (m : Message) (in_ : Inbound)
      → to_inbound go a m ≡ received in_
      → IsServed m
        × (in_.reply_to ≡ go.format_int m.chat.id)
        × (in_.surface ≡ Surface.dm → in_.directed ≡ true)
  unfolding to_inbound
  to_inbound-IsServed m in_ h = from_sender-IsServed m m.sender in_ h

  group-outside :
      (m : Message) (sender : BotUser)
      → IsGroup m.chat
      → ¬ IsServed m
      → on_surface go a m sender (if_allowed go a m.chat) ≡ dropped
  unfolding group_allowed topic_allowed
  group-outside m sender g out =
      elim (Bool-cases (one_of a.cfg.allowed_groups (go.format_int m.chat.id))) [
        | inl listed ↦ elim (Bool-cases (topic_in (a.cfg.allowed_topics m.chat.id) m.thread)) [
          | inl topic ↦ absurd (out (inr (g, listed, topic)))
          | inr other ↦ rw (listed, other) refl
        ]
        | inr unlisted ↦ rw unlisted refl
      ]

  surface_of-outside :
      (m : Message) (sender : BotUser) (t : ChatType)
      → m.chat.type_ ≡ t
      → ¬ IsServed m
      → on_surface go a m sender (surface_of go a m.chat t) ≡ dropped
  unfolding group_allowed topic_allowed
  surface_of-outside m sender ChatType.private_ e out = absurd (out (inl e))
  surface_of-outside m sender ChatType.group e out = group-outside m sender (inl e) out
  surface_of-outside m sender ChatType.supergroup e out = group-outside m sender (inr e) out
  surface_of-outside m sender ChatType.channel e out = refl

  from_sender-outside :
      (m : Message) (o : Option BotUser) → ¬ IsServed m → from_sender go a m o ≡ dropped
  unfolding surface_for
  from_sender-outside m none out = refl
  from_sender-outside m (some sender) out = elim (Bool-cases (same_text (trim_space m.text) "")) [
    | inl blank ↦ rw blank refl
    | inr text ↦ rw text (surface_of-outside m sender m.chat.type_ refl out)
  ]

  to_inbound-outside : (m : Message) → ¬ IsServed m → to_inbound go a m ≡ dropped
  unfolding to_inbound
  to_inbound-outside m out = from_sender-outside m m.sender out

  group-cases :
      (m : Message)
      → IsGroup m.chat
      → ¬ (m.chat.type_ ≡ ChatType.private_)
      → IsServed m ⊎ (¬ IsServed m)
  group-cases m g indirect =
      elim (Bool-cases (one_of a.cfg.allowed_groups (go.format_int m.chat.id))) [
        | inl listed ↦ elim (Bool-cases (topic_in (a.cfg.allowed_topics m.chat.id) m.thread)) [
          | inl topic ↦ inl (inr (g, listed, topic))
          | inr other ↦ inr (elim [ inl direct ↦ indirect direct | inr all ↦ cc (other, all.2) ])
        ]
        | inr unlisted ↦
            inr (elim [ inl direct ↦ indirect direct | inr all ↦ cc (unlisted, all.1) ])
      ]

  IsServed-cases : (m : Message) (t : ChatType) → m.chat.type_ ≡ t → IsServed m ⊎ (¬ IsServed m)
  IsServed-cases m ChatType.private_ e = inl (inl e)
  IsServed-cases m ChatType.group e = group-cases m (inl e) (λ d. cc (e, d))
  IsServed-cases m ChatType.supergroup e = group-cases m (inr e) (λ d. cc (e, d))
  IsServed-cases m ChatType.channel e = inr (elim [
    | inl direct ↦ cc (e, direct)
    | inr all ↦ elim all.0 [ inl one ↦ cc (e, one) | inr big ↦ cc (e, big) ]
  ])

  -- A call that answers a message goes to its chat and topic, and only where the bot serves.
  abbrev pub Answers : Message → Effect → Type 0
  Answers m (answered query text) = ⊥
  Answers m (edited chat message text) = ⊥
  Answers m (reacted chat message emoji) = (chat ≡ m.chat.id) × (message ≡ m.id) × IsServed m
  Answers m (replied chat thread reply) = (chat ≡ m.chat.id) × (thread ≡ m.thread) × IsServed m

  module _ {E : Type 0} (handler : Inbound → Result E Reply) where
    reply_with-Answers :
        (m : Message) (r : Result E Reply)
        → IsServed m
        → All (Answers m) (reply_with go a handler m r)
    reply_with-Answers m (err e) h = tt
    reply_with-Answers m (ok reply) h = elim (Bool-cases (same_text reply.reaction "")) [
      | inl plain ↦ rw plain ((refl, refl, h), tt)
      | inr some_ ↦ rw some_ ((refl, refl, h), ((refl, refl, h), tt))
    ]

    -- No call at all; or the message is from where the bot serves, and the dispatch panics or its calls go to
    -- the message's chat and topic.
    abbrev pub Calls : Message → Option (List Effect) → Type 0
    Calls m o =
        (o ≡ some [])
        ⊎ (IsServed m × ((o ≡ none) ⊎ ((es : List Effect) × (o ≡ some es) × All (Answers m) es)))

    on_message-Answers :
        (m : Message) (r : Received)
        → IsServed m
        → (on_message go a handler m r ≡ none)
          ⊎ ((es : List Effect) × (on_message go a handler m r ≡ some es) × All (Answers m) es)
    on_message-Answers m Received.dropped s = inr ([], refl, tt)
    on_message-Answers m Received.panics s = inl refl
    on_message-Answers m (received in_) s =
        inr (reply_with go a handler m (handler in_), refl, reply_with-Answers m (handler in_) s)

    -- Whatever the handler replies, a message from outside the direct chats and the served topics of the
    -- listed groups and supergroups draws no call at all, and the calls for any other message go to its own
    -- chat and topic.
    pub dispatch-Calls : (m : Message) → Calls m (dispatch go a handler (posted m))
    unfolding dispatch
    dispatch-Calls m = elim (IsServed-cases m m.chat.type_ refl) [
      | inl served ↦ inr (served, on_message-Answers m (to_inbound go a m) served)
      | inr outside ↦ inl (ap (on_message go a handler m) (to_inbound-outside m outside))
    ]
