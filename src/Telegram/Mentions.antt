-- ===== src/Telegram/Mentions.antt =====
-- Mentions of the bot: `entityText`, `isDirected`, `replyToBot` and `stripBotMentions` of
-- internal/transport/telegram/telegram.go.
use yaad_grove.Base.{
  ℕ, ◌-◌, Bool, true, false, not, ◌&&◌, ◌||◌, String, Option, none, some, List, [], ◌∷◌, ◌++◌, ltb,
  leb, if◌then◌else◌, same_text, length, take, drop, map, keep,
}
use yaad_grove.Base.Int.{ℤ, pos, pos_part, ltb_ℤ, leb_ℤ, ◌+ℤ◌}
use yaad_grove.Base.Text.{◌<>◌, trim_space}
use yaad_grove.Base.Utf16.{encode, decode}
use yaad_grove.Base.Sort.{sort_by}
use yaad_grove.Telegram.Updates.{
  MentionKind, MessageEntity, Message, BotUser, Adapter, Go, same_int,
}

-- `u[start:end]`, in range.
abbrev pub slice : ℕ → ℕ → List ℕ → List ℕ
slice start end u = take (end - start) (drop start u)

-- `entityText`
unfoldable pub entity_text : String → ℤ → ℤ → String
entity_text text offset len =
    let u = encode text in
    let end = offset +ℤ len in
    if ltb_ℤ offset (pos 0) || ltb_ℤ len (pos 0) || ltb_ℤ (pos (length u)) end
    then ""
    else decode (slice (pos_part offset) (pos_part end) u)

-- e.User != nil && e.User.ID == a.botID
abbrev pub is_user : ℤ → Option BotUser → Bool
is_user id none = false
is_user id (some u) = same_int u.id id

-- a.botID != 0
abbrev pub has_id : Adapter → Bool
has_id a = not (same_int a.bot_id (pos 0))

-- A span, from its start to its end.
abbrev pub Span : Type 0
Span = ℕ × ℤ

abbrev pub span_of : MessageEntity → Span
span_of e = (pos_part e.offset, e.offset +ℤ e.length)

-- `u = append(u[:s.start], u[s.end:]...)`. None where a bound is out of range.
unfoldable pub cut : Span → List ℕ → Option (List ℕ)
cut (start, end) u =
    if ltb (length u) start || ltb_ℤ (pos (length u)) end || ltb_ℤ end (pos 0)
    then none
    else some (take start u ++ drop (pos_part end) u)

abbrev pub cut_next : (List ℕ → Option (List ℕ)) → Option (List ℕ) → Option (List ℕ)
cut_next go_on none = none
cut_next go_on (some v) = go_on v

unfoldable pub cut_all : List Span → List ℕ → Option (List ℕ)
cut_all [] u = some u
cut_all (s ∷ ss) u = cut_next (cut_all ss) (cut s u)

-- spans[i].start > spans[j].start, or equal.
abbrev pub not_before : Span → Span → Bool
not_before s t = leb t.0 s.0

abbrev pub shortened : Option (List ℕ) → Option String
shortened none = none
shortened (some u) = some (trim_space (decode u))

-- What follows the loop over the entities, given the spans.
abbrev pub without : String → List Span → Option String
without text [] = some text
without text (s ∷ ss) = shortened (cut_all (sort_by not_before (s ∷ ss)) (encode text))

module _ (go : Go) (a : Adapter) where
  -- The two cases of the entity's type, in `isDirected` and in `stripBotMentions`.
  unfoldable pub is_own : String → MessageEntity → Bool
  is_own text e = elim e.kind [
    | MentionKind.mention ↦
        not (same_text a.bot_username "")
        && go.equal_fold (entity_text text e.offset e.length) ("@" <> a.bot_username)
    | MentionKind.text_mention ↦ has_id a && is_user a.bot_id e.user
    | MentionKind.other_entity ↦ false
  ]

  -- `replyToBot`
  unfoldable pub reply_to_bot : Message → Bool
  reply_to_bot m = elim m.reply_to_message [
    | none ↦ false
    | some parent ↦ has_id a && is_user a.bot_id parent.sender
  ]

  -- The loop of `isDirected`.
  unfoldable pub any_own : String → List MessageEntity → Bool
  any_own text [] = false
  any_own text (e ∷ es) = is_own text e || any_own text es

  -- `isDirected`
  unfoldable pub is_directed : Message → Bool
  is_directed m = if reply_to_bot m then true else any_own m.text m.entities

  -- mine && e.Offset >= 0 && e.Offset+e.Length <= len(u)
  abbrev pub is_cut : String → MessageEntity → Bool
  is_cut text e =
      is_own text e
      && leb_ℤ (pos 0) e.offset
      && leb_ℤ (e.offset +ℤ e.length) (pos (length (encode text)))

  -- `stripBotMentions`. None where a slice panics.
  unfoldable pub strip_bot_mentions : String → List MessageEntity → Option String
  unfolding cut_all
  strip_bot_mentions text [] = some text
  strip_bot_mentions text (e ∷ es) = without text (map span_of (keep (is_cut text) (e ∷ es)))
