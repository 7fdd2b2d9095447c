-- ===== src/Telegram/Updates.antt =====
-- What internal/transport/telegram/telegram.go reads of the Bot API's updates, and `Config` and `Adapter`.
use yaad_grove.Base.{Bool, String, Option, List, ◌==◌, ◌&&◌}
use yaad_grove.Base.Int.{ℤ, pos_part, neg_part}

abbrev pub same_int : ℤ → ℤ → Bool
same_int a b = (pos_part a == pos_part b) && (neg_part a == neg_part b)

pub data ChatType : Type 0 where
  private_ group supergroup channel : ChatType

pub record Chat : Type 0 where
  pub id : ℤ
  pub type_ : ChatType

pub record BotUser : Type 0 where
  pub id : ℤ
  pub username : String
  pub first_name : String

pub data MentionKind : Type 0 where
  mention text_mention other_entity : MentionKind

-- `models.MessageEntity`, in UTF-16 units.
pub record MessageEntity : Type 0 where
  pub kind : MentionKind
  pub offset : ℤ
  pub length : ℤ
  pub user : Option BotUser

-- The message that a message replies to.
pub record Parent : Type 0 where
  pub id : ℤ
  pub text : String
  pub sender : Option BotUser

pub record Message : Type 0 where
  pub id : ℤ
  pub sender : Option BotUser
  pub chat : Chat
  pub thread : ℤ
  pub text : String
  pub entities : List MessageEntity
  pub reply_to_message : Option Parent

-- `models.MaybeInaccessibleMessage`
pub data CallbackMessage : Type 0 where
  accessible : Chat → ℤ → CallbackMessage
  inaccessible : Chat → ℤ → CallbackMessage
  no_message : CallbackMessage

pub record CallbackQuery : Type 0 where
  pub id : String
  pub data_ : String
  pub sender : BotUser
  pub message : CallbackMessage

-- `Config`, without the token. `allowed_topics` is the Go map from a chat id.
pub record Config : Type 0 where
  pub allowed_groups : List String
  pub allowed_topics : ℤ → Option (List ℤ)

-- `Adapter`: the configuration and the bot's own identity.
pub record Adapter : Type 0 where
  pub cfg : Config
  pub bot_id : ℤ
  pub bot_username : String

-- strings.EqualFold, strconv.FormatInt and Itoa, strconv.ParseInt and Atoi.
pub record Go : Type 0 where
  pub equal_fold : String → String → Bool
  pub format_int : ℤ → String
  pub parse_int : String → Option ℤ
