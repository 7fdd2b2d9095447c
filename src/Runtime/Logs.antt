-- ===== src/Runtime/Logs.antt =====
-- internal/runtime/handler.go: what is written to the quarantine log and the transcript.
use yaad_grove.Base.{ℕ, Bool, true, false, not, String, Option, none, some, if◌then◌else◌}
use yaad_grove.Core.{Inbound, Surface, group, dm}
use yaad_grove.Runtime.Services.{Services, LogEntry, TranscriptEntry, human, bot, system}

unfoldable pub is_group : Surface → Bool
is_group group = true
is_group dm = false

unfoldable pub surface_label : Surface → String
surface_label dm = "dm"
surface_label group = "group"

module _ {E F S Q T W : Type 0} (env : Services E F S Q T W) where
  unfoldable pub log_served_to : Option (LogEntry → Q → Option F × Q) → Inbound → ℕ → Q → Q
  log_served_to none i at q = q
  log_served_to (some append_log) i at q =
      if not (is_group i.surface)
      then q
      else (append_log
          (record {
            time = at;
            chat_id = i.reply_to;
            user_id = i.user.id;
            handle = i.user.display;
            surface = surface_label i.surface;
            text = i.text;
          })
          q).1

  unfoldable pub log_served : Inbound → ℕ → Q → Q
  unfolding log_served_to
  log_served i at q = log_served_to env.qlog i at q

  -- `appendTranscript`, in a group only, as its three callers test.
  unfoldable pub append_transcript :
      Option (TranscriptEntry → T → Option F × T) → Inbound → TranscriptEntry → T → T
  append_transcript none i e t = t
  append_transcript (some append_log) i e t =
      if not (is_group i.surface) then t else (append_log e t).1

  abbrev blank_entry : Inbound → ℕ → TranscriptEntry
  blank_entry i at = record {
    time = at;
    role = system;
    chat_id = i.reply_to;
    user_id = "";
    speaker = "";
    text = "";
    message_id = "";
    reply_to = "";
    event = "";
  }

  unfoldable pub log_transcript_human : Inbound → ℕ → T → T
  unfolding append_transcript
  log_transcript_human i at t =
      append_transcript env.transcript i
        (record (blank_entry i at) {
          role = human;
          user_id = i.user.id;
          speaker = i.user.display;
          text = i.text;
          message_id = i.message_id;
          reply_to = i.reply_to_message_id;
        })
        t

  unfoldable pub log_transcript_bot : Inbound → String → ℕ → T → T
  unfolding append_transcript
  log_transcript_bot i text at t =
      append_transcript env.transcript i (record (blank_entry i at) { role = bot; text = text }) t

  unfoldable pub log_transcript_system : Inbound → String → ℕ → T → T
  unfolding append_transcript
  log_transcript_system i event at t =
      append_transcript env.transcript i (record (blank_entry i at) { event = event }) t
