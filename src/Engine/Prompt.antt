-- ===== src/Engine/Prompt.antt =====
-- `renderInstructions` of internal/core/prompt.go, and what engine.go puts before the model: the
-- retrieval query, the material, the history and the label of the asker.
use yaad_grove.Base.{
  ℕ, Bool, true, false, not, String, Option, none, some, List, [], ◌∷◌, ◌++◌, map, Map, lookup,
  insert, if◌then◌else◌, same_text,
}
use yaad_grove.Base.Text.{trim_space, ◌<>◌}
use yaad_grove.Core.{Chunk, HistoryTurn, Query}
use yaad_grove.Core.Names.{NameTables, display_name, words as fields, joined}

-- `words`: the texts joined on spaces, every run of white space collapsed.
unfoldable pub words : List String → String
unfolding joined fields
words texts = joined (fields "" (joined texts))

-- The history from the last turn back, as the loops read it.
unfoldable pub latest_first : List HistoryTurn → List HistoryTurn
latest_first [] = []
latest_first (t ∷ ts) = latest_first ts ++ t ∷ []

-- The person's turn nearest to the end, if there is one.
unfoldable pub last_person : List HistoryTurn → Option HistoryTurn
last_person [] = none
last_person (t ∷ ts) = let rest = last_person ts in if not t.bot then some t else rest

abbrev before_bot : Option HistoryTurn → List String
before_bot none = []
before_bot (some t) = t.text ∷ []

-- The previous exchange, for a history that ends with `last`.
unfoldable pub exchange : HistoryTurn → List HistoryTurn → List String
unfolding last_person
exchange last older =
    if last.bot then before_bot (last_person older) ++ last.text ∷ [] else last.text ∷ []

query_text : String → List HistoryTurn → String × String
unfolding exchange words
query_text text [] = (text, "message")
query_text text (last ∷ older) = (words (text ∷ exchange last older), "message+history")

-- `retrievalQuery`
unfoldable pub retrieval_query : Query → String × String
unfolding query_text latest_first
retrieval_query q =
    if not (same_text q.reply_context "")
    then (words (q.text ∷ q.reply_context ∷ []), "message+reply")
    else query_text q.text (latest_first q.history)

-- `promptData`, without the fields that are always empty.
pub record PromptData : Type 0 where
  pub persona : String
  pub scope : String
  pub has_tools : Bool
  pub language : String

-- The operator's standing layers, and the templates: `none` is an execution that failed.
pub record Layers : Type 0 where
  pub persona : String
  pub scope : String
  pub language : String
  pub template : Option (PromptData → Option String)
  pub default_template : PromptData → String

unfoldable pub language_block : String → String
language_block language = let l = trim_space language in if same_text l "" then "" else "\n\n" <> l

abbrev rendered_or : Option String → String → String
rendered_or none fallback = fallback
rendered_or (some s) fallback = s

abbrev from_template : Option (PromptData → Option String) → PromptData → Option String
from_template none data' = none
from_template (some t) data' = t data'

abbrev is_nil {ℓ} : {A : Type ℓ} → List A → Bool
is_nil [] = true
is_nil (x ∷ xs) = false

-- The engine's framing, whose wording is not modelled.
pub record Notes : Type 0 where
  pub history_note : String
  pub reply_note : String

unfoldable pub render_instructions : Notes → Layers → List HistoryTurn → String → Bool → String
unfolding language_block
render_instructions notes l history reply_context has_tools =
    let values : PromptData = record {
      persona = trim_space l.persona;
      scope = trim_space l.scope;
      has_tools = has_tools;
      language = language_block l.language;
    } in
    rendered_or (from_template l.template values) (l.default_template values)
    <> (if is_nil history then "" else notes.history_note)
    <> (if same_text (trim_space reply_context) "" then "" else notes.reply_note)

-- Where untrusted text comes from, with its label.
pub data Source : Type 0 where
  from_user from_model from_fetched : Source

pub record Untrusted : Type 0 where
  pub source : Source
  pub id : String
  pub text : String

unfoldable pub fetched : List Chunk → List Untrusted
fetched [] = []
fetched (c ∷ cs) =
    record { source = from_fetched; id = c.source; text = trim_space c.text } ∷ fetched cs

-- `material`
unfoldable pub material : List Chunk → String → List Untrusted
unfolding fetched
material chunks reply_context =
    let r = trim_space reply_context in
    fetched chunks
    ++ (if same_text r ""
        then []
        else record { source = from_user; id = "replied-to message"; text = r } ∷ [])

-- A message of the run's history; `by_bot` is the assistant's role.
pub record Message : Type 0 where
  pub by_bot : Bool
  pub body : Untrusted

module _ (names : NameTables) where
  -- `askerLabel`
  unfoldable pub asker_label : String → String
  asker_label display =
      let name = display_name names display in if same_text name "" then "" else "[" <> name <> "] "

  -- `speakerLabel`
  unfoldable pub speaker_label : HistoryTurn → String
  speaker_label t =
      let name = display_name names t.speaker in
      if t.bot then "assistant" else if same_text name "" then "a participant" else name

  -- The map from the ids of messages to their speakers; a later turn of the same id wins.
  unfoldable pub labels : List HistoryTurn → Map String → Map String
  unfolding speaker_label
  labels [] m = m
  labels (t ∷ ts) m =
      labels ts (if same_text t.message_id "" then m else insert t.message_id (speaker_label t) m)

  abbrev found_or : Option String → String → String
  found_or none d = d
  found_or (some s) d = if same_text s "" then d else s

  module _ (clock : ℕ → String) where
    -- `clock` formats a time as hours and minutes.
    unfoldable pub history_message : Map String → HistoryTurn → Message
    history_message by_id t =
        let text =
          "["
          <> clock t.time
          <> "] "
          <> speaker_label t
          <> (if same_text t.reply_to ""
              then ""
              else " (reply to " <> found_or (lookup t.reply_to by_id) "a message not shown" <> ")")
          <> ": "
          <> trim_space t.text in
        record {
          by_bot = t.bot;
          body = record {
            source = if t.bot then from_model else from_user;
            id = t.message_id;
            text = text;
          };
        }

    -- `historyMessages`
    unfoldable pub history_messages : List HistoryTurn → List Message
    unfolding labels history_message
    history_messages history = map (history_message (labels history [])) history
