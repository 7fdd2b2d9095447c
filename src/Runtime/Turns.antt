-- ===== src/Runtime/Turns.antt =====
-- internal/runtime/memory.go, and the paths of handler.go that answer and that buffer a turn.
use yaad_grove.Base.{
  ℕ, Bool, true, false, not, String, Option, none, some, List, map, if◌then◌else◌, same_text,
  Result, ok, err,
}
use yaad_grove.Base.Text.{trim_space, ◌<>◌}
use yaad_grove.Core.{Reply, Inbound, Query, HistoryTurn}
use yaad_grove.Core.Names.{display_name}
use yaad_grove.Acl.{Consent, granted, declined, unknown, consent_of}
use yaad_grove.Budget.{ChatError, over_budget, call_failed}
use yaad_grove.Memory.{Turn, Buffer, append}
use yaad_grove.Memory.Select.{select}
use yaad_grove.Runtime.Services.{Services, State, Times}
use yaad_grove.Runtime.Consent.{says, purged}

abbrev pub history_turn : Turn → HistoryTurn
history_turn t = record {
  speaker = t.speaker;
  bot = t.bot;
  text = t.text;
  time = t.time;
  message_id = t.message_id;
  reply_to = t.reply_to;
}

unfoldable pub user_turn : Inbound → ℕ → Turn
user_turn i at = record {
  speaker_id = i.user.id;
  speaker = i.user.display;
  bot = false;
  text = i.text;
  time = at;
  message_id = i.message_id;
  reply_to = i.reply_to_message_id;
}

unfoldable pub bot_turn : String → ℕ → Turn
bot_turn text at = record {
  speaker_id = "";
  speaker = "";
  bot = true;
  text = text;
  time = at;
  message_id = "";
  reply_to = "";
}

unfoldable pub remember_user : Inbound → ℕ → Option Buffer → Option Buffer
unfolding user_turn
remember_user i at none = none
remember_user i at (some b) = some (append i.reply_to (user_turn i at) b)

unfoldable pub remember_bot : String → String → ℕ → Option Buffer → Option Buffer
unfolding bot_turn
remember_bot chat text at none = none
remember_bot chat text at (some b) =
    if same_text (trim_space text) "" then some b else some (append chat (bot_turn text at) b)

module _ {E F S Q T W : Type 0} (env : Services E F S Q T W) where
  -- `replyContextOf`
  reply_context_of : Inbound → String
  reply_context_of i =
      let text = trim_space i.reply_to_text in
      let sender = display_name env.names i.reply_to_sender in
      if same_text text ""
      then ""
      else if not (same_text sender "")
      then sender <> ": " <> text
      else text

  unfoldable pub select_history : Inbound → ℕ → Option Buffer → List HistoryTurn
  select_history i now b = map history_turn (
      select env.unicode i.reply_to i.text i.user.id (not (same_text i.reply_to_message_id ""))
        env.policy.inject env.policy.followup_window now b)

  -- The query that `answer` asks.
  query_of : Inbound → List HistoryTurn → Bool → ℕ → Query
  unfolding reply_context_of
  query_of i history remember withdrawals = record {
    user = i.user;
    surface = i.surface;
    text = i.text;
    history = history;
    reply_context = reply_context_of i;
    chat = i.reply_to;
    remember = remember;
    withdrawals = withdrawals;
  }

  answered : Result (ChatError F) Reply → Result F Reply
  answered (ok r) = ok r
  answered (err over_budget) =
      ok (record (says env.policy.strings "at_capacity") { refused = true })
  answered (err (call_failed e)) = err e

  unfoldable pub answer : Inbound → List HistoryTurn → Bool → ℕ → W → Result F Reply × W
  unfolding query_of answered
  answer i history remember withdrawals w =
      let (r, w') = env.answer (query_of i history remember withdrawals) w in (answered r, w')

  -- The buffer after an answer.
  remember_answer : Inbound → ℕ → Result F Reply → Option Buffer → Option Buffer
  remember_answer i at (err e) b = b
  remember_answer i at (ok r) b = if r.refused then b else remember_bot i.reply_to r.text at b

  unfoldable pub answer_remembering :
      Inbound → Times → Bool → ℕ → State S Q T W → Result F Reply × State S Q T W
  unfolding remember_answer
  answer_remembering i at remember withdrawals s =
      let history = select_history i at.selected s.buffer in
      let b = remember_user i at.remembered s.buffer in
      let (r, w) = answer i history remember withdrawals s.world in
      (r, record s { buffer = remember_answer i at.answered r b; world = w })

  withdrawn_buffer : Result E Consent → String → Option Buffer → Option Buffer
  withdrawn_buffer (err e) id b = b
  withdrawn_buffer (ok granted) id b = b
  withdrawn_buffer (ok declined) id b = purged id b
  withdrawn_buffer (ok unknown) id b = purged id b

  unfoldable pub purge_if_withdrawn : String → State S Q T W → State S Q T W
  unfolding withdrawn_buffer
  purge_if_withdrawn id s =
      if env.consent
      then record s { buffer = withdrawn_buffer (consent_of env.store id s.acl) id s.buffer }
      else s
