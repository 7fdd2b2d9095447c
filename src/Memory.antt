-- ===== src/Memory.antt =====
-- internal/memory/memory.go: the bounded conversation buffer.
pub mod Retention
pub mod Withdrawal
pub mod Select
pub mod Window
mod Tests
use yaad_grove.Base.{
  ℕ, ◌-◌, Bool, true, false, not, ◌||◌, String, Option, none, some, List, [], ◌∷◌, ◌++◌, Map,
  lookup, insert, keep, drop, length, if◌then◌else◌, ltb, leb, same_text, min, map,
}
use yaad_grove.Base.Int.{ℤ, pos, negsuc}

pub record Turn : Type 0 where
  pub speaker_id : String
  pub speaker : String
  pub bot : Bool
  pub text : String
  pub time : ℕ
  pub message_id : String
  pub reply_to : String

-- `retain` is the number of turns kept for a conversation; 0 stands for every bound that is not
-- positive.
pub record Buffer : Type 0 where
  pub retain : ℕ
  pub convos : Map (List Turn)

pub new : ℕ → Buffer
new retain = record { retain = retain; convos = [] }

-- A nil buffer is `none`.
unfoldable pub enabled : Option Buffer → Bool
enabled none = false
enabled (some b) = ltb 0 b.retain

-- A missing conversation reads as no turns.
abbrev pub or_empty : Option (List Turn) → List Turn
or_empty none = []
or_empty (some l) = l

unfoldable pub convo : String → Buffer → List Turn
convo chat b = or_empty (lookup chat b.convos)

-- turns[len(turns)-b.retain:] where there are more
unfoldable pub trim : ℕ → List Turn → List Turn
trim n l = if ltb n (length l) then drop (length l - n) l else l

append_turn : String → Turn → Buffer → Buffer
unfolding convo trim
append_turn chat t b = record b {
  convos = insert chat (trim b.retain (convo chat b ++ t ∷ [])) b.convos;
}

unfoldable pub append : String → Turn → Buffer → Buffer
unfolding append_turn enabled
append chat t b = if enabled (some b) then append_turn chat t b else b

-- The last `k` turns. A `k` of 0 stands for every one that is not positive.
unfoldable pub recent : String → ℕ → Buffer → List Turn
unfolding convo enabled
recent chat k b =
    if not (enabled (some b)) || leb k 0
    then []
    else drop (length (convo chat b) - min k (length (convo chat b))) (convo chat b)

-- The loop of `purgeLocked`.
unfoldable pub without_speaker : String → List Turn → List Turn
without_speaker id l = keep (λ t. not (same_text t.speaker_id id)) l

unfoldable pub purge : String → String → Buffer → Buffer
unfolding convo enabled without_speaker
purge chat id b =
    if not (enabled (some b)) || same_text id ""
    then b
    else record b { convos = insert chat (without_speaker id (convo chat b)) b.convos }

-- `PurgeUser` runs `purgeLocked` on every conversation.
purge_all : String → Map (List Turn) → Map (List Turn)
unfolding without_speaker
purge_all id [] = []
purge_all id ((chat, l) ∷ rest) = (chat, without_speaker id l) ∷ purge_all id rest

unfoldable pub purge_user : String → Buffer → Buffer
unfolding purge_all enabled
purge_user id b =
    if not (enabled (some b)) || same_text id ""
    then b
    else record b { convos = purge_all id b.convos }
