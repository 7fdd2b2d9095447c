-- ===== src/Engine/Answer.antt =====
-- `Engine.Answer` of internal/core/engine.go.
use yaad_grove.Base.{
  ℕ, Bool, true, false, not, ◌&&◌, String, Option, none, some, List, [], ◌∷◌, if◌then◌else◌,
  same_text, Result, ok, err,
}
use yaad_grove.Base.Text.{◌<>◌}
use yaad_grove.Core.{Chunk, Query, Reply, empty_reply}
use yaad_grove.Core.Names.{NameTables}
use yaad_grove.LongMemory.{Backend, LongMemory, KeptTurn, use_memory, keep}
use yaad_grove.Engine.Refusal.{out_of_scope_reply, parse_refusal}
use yaad_grove.Engine.Context.{cap_context}
use yaad_grove.Engine.Prompt.{
  Layers, Notes, Untrusted, Message, retrieval_query, render_instructions, material,
  history_messages, asker_label,
}

-- What one agent run is given. `recall` is the store and the subject that the run may recall from.
pub record AgentInput : Type 0 where
  pub instructions : String
  pub material : List Untrusted
  pub history : List Message
  pub recall : Option (String × String)
  pub input : String

-- How it ends: it did not start, it answered, it met its step limit, it met its deadline with the
-- caller's context ended or not, or it stopped otherwise; with the error reported, if one was.
pub data Outcome (E : Type 0) : Type 0 where
  not_run : E → Outcome E
  final : String → Outcome E
  step_limit : Outcome E
  cancelled : E → Outcome E
  stopped : Option E → Outcome E

pub data AnswerError (E : Type 0) : Type 0 where
  failed : E → AnswerError E
  run_ended : AnswerError E

-- The engine and its collaborators. `W` is all that a retrieval and a run change, `D` what the stores of
-- long-term memory hold.
pub record Engine (E D W : Type 0) : Type 0 where
  pub retrieve : String → W → Result E (List Chunk) × W
  pub run : AgentInput → W → Outcome E × W
  pub render : List Chunk → String
  pub has_tools : Bool
  pub layers : Layers
  pub notes : Notes
  pub context_tokens : ℕ
  pub names : NameTables
  pub clock : ℕ → String
  pub decimal : ℕ → String
  pub scrub : String → String
  pub memory : Bool
  pub backend : Backend E D

abbrev is_nil {ℓ} : {A : Type ℓ} → List A → Bool
is_nil [] = true
is_nil (x ∷ xs) = false

abbrev pub refused_reply : Reply
refused_reply = record empty_reply { text = out_of_scope_reply; refused = true }

abbrev recalled : Option KeptTurn → Option (String × String)
recalled none = none
recalled (some t) = some (t.store, t.subject)

module _ {E D W : Type 0} (e : Engine E D W) where
  -- Where the turn is kept; an engine without long-term memory has none.
  unfoldable pub turn_of : Query → ℕ → LongMemory → Option KeptTurn
  turn_of q now m = if e.memory then use_memory e.decimal q now m else none

  -- `run` and what it is given.
  unfoldable pub agent_input : Query → List Chunk → Option KeptTurn → AgentInput
  agent_input q chunks turn = record {
    instructions = render_instructions e.notes e.layers q.history q.reply_context e.has_tools;
    material = material chunks q.reply_context;
    history = history_messages e.names e.clock q.history;
    recall = recalled turn;
    input = asker_label e.names q.user.display <> q.text;
  }

  -- The reply to a final answer, and what is kept of it.
  unfoldable pub finish :
      Option KeptTurn → String → String × Bool → LongMemory → D → Result (AnswerError E) Reply × D
  finish turn input (text, refused) m d = (
    ok (record empty_reply { text = text; refused = refused }),
    if refused then d else keep e.backend e.scrub turn input text m d,
  )

  unfoldable pub after_run :
      Option KeptTurn
      → String
      → Outcome E × W
      → LongMemory
      → D
      → Result (AnswerError E) Reply × D × W
  unfolding finish
  after_run turn input (not_run x, w) m d = (err (failed x), d, w)
  after_run turn input (final answer, w) m d =
      let (r, d') = finish turn input (parse_refusal answer) m d in (r, d', w)
  after_run turn input (step_limit, w) m d = (ok refused_reply, d, w)
  after_run turn input (cancelled x, w) m d = (err (failed x), d, w)
  after_run turn input (stopped (some x), w) m d = (err (failed x), d, w)
  after_run turn input (stopped none, w) m d = (err run_ended, d, w)

  -- Nothing to ground on: no chunk, no tool, no history and no message replied to.
  unfoldable pub ungrounded : Query → List Chunk → Bool
  ungrounded q chunks =
      is_nil chunks && not e.has_tools && is_nil q.history && same_text q.reply_context ""

  unfoldable pub answer_with :
      Query
      → ℕ
      → LongMemory
      → LongMemory
      → Result E (List Chunk) × W
      → D
      → Result (AnswerError E) Reply × D × W
  unfolding turn_of agent_input after_run ungrounded
  answer_with q now m m' (err x, w) d = (err (failed x), d, w)
  answer_with q now m m' (ok found, w) d =
      let chunks = cap_context e.render found e.context_tokens in
      let turn = turn_of q now m in
      let input = agent_input q chunks turn in
      if ungrounded q chunks
      then (ok refused_reply, d, w)
      else after_run turn input.input (e.run input w) m' d

  -- `Answer` at the time `now`. `m` is long-term memory's state as the run starts and `m'` as it ends:
  -- withdrawals may be counted in between.
  unfoldable pub answer :
      Query → ℕ → LongMemory → LongMemory → D → W → Result (AnswerError E) Reply × D × W
  unfolding answer_with
  answer q now m m' d w = answer_with q now m m' (e.retrieve (retrieval_query q).0 w) d
