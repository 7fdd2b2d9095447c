-- ===== src/Engine/Tests.antt =====
-- Replies of the model and answers of an engine whose run replies with a fixed text.
use yaad_grove.Base.{
  ℕ, ◌+◌, ◌≤◌, ◌<◌, ◌≡◌, refl, ◌⊎◌, true, false, String, none, List, [], ◌∷◌, length, take, lookup,
  same_text, arith, ok,
}
use yaad_grove.Base.Text.{trim_space, is_space, ◌<>◌}
use yaad_grove.Core.{Chunk, Query, group}
use yaad_grove.LongMemory.{Backend, LongMemory, withdrawals}
use yaad_grove.LongMemory.Erasure.{withdraw_all}
use yaad_grove.Engine.Refusal.{parse_refusal, contains, remove_all}
use yaad_grove.Engine.Context.{tokens, cap_context, cap_context-longest}
use yaad_grove.Engine.Answer.{Engine, Outcome, answer}
use yaad_grove.Engine.Memory.{answer-withdraw}

-- A marker that stands inside another is put together by the removal.
nested_marker : parse_refusal "so %%OUT_%%OUT_OF_SCOPE%%OF_SCOPE%%" ≡ ("so %%OUT_OF_SCOPE%%", false)
unfolding parse_refusal contains remove_all trim_space is_space
nested_marker = refl

abbrev chunks : List Chunk
chunks =
    record { source = "a.md"; text = "eight ch" } ∷ record { source = "b.md"; text = "more" } ∷ []

abbrev rendered : List Chunk → String
rendered [] = ""
rendered (c ∷ cs) = c.text <> rendered cs

cap_context-longest_example :
    let out = cap_context rendered chunks 2 in
    (out ≡ take (length out) chunks)
    × ((out ≡ []) ⊎ (tokens rendered out ≤ 2))
    × ((2 ≤ length out) ⊎ (2 < tokens rendered (take 2 chunks)))
cap_context-longest_example =
    cap_context-longest rendered chunks 2 2 (omega arith) (omega arith) (omega arith)

abbrev backend : Backend ℕ (List String)
backend = record {
  append = λ ns subject session kind text d. (none, text ∷ d);
  delete_subject = λ ns user d. (none, []);
}

abbrev engine : Engine ℕ (List String) ℕ
engine = record {
  retrieve = λ query w. (ok chunks, w + 1);
  run = λ i w. (Outcome.final "Trains run.", w + 1);
  render = rendered;
  has_tools = false;
  layers = record {
    persona = "";
    scope = "trains";
    language = "";
    template = none;
    default_template = λ v. v.scope;
  };
  notes = record { history_note = ""; reply_note = "" };
  context_tokens = 100;
  names = record { is_control = λ c. false; is_bidi_control = λ c. false; equal_fold = same_text };
  clock = λ t. "12:00";
  decimal = λ n. "0";
  scrub = λ s. s;
  memory = true;
  backend = backend;
}

abbrev query : Query
query = record {
  user = record { id = "ann"; display = "" };
  surface = group;
  text = "do trains run?";
  history = [];
  reply_context = "";
  chat = "room";
  remember = true;
  withdrawals = 2;
}

abbrev memory : LongMemory
memory = record { store = "main"; groups = []; window = 3600; withdrawn = ("ann", 2) ∷ [] }

answer-withdraw_example :
    (answer engine query 50 memory (withdraw_all ("bob" ∷ "ann" ∷ []) memory) [] 0).1 ≡ []
answer-withdraw_example =
    answer-withdraw engine query 50 ("bob" ∷ "ann" ∷ []) memory [] 0
      (unfold withdrawals lookup in refl) (unfold withdrawals lookup in omega arith) (omega arith)
      (omega arith)
