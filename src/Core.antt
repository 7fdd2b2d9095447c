-- ===== src/Core.antt =====
-- The platform-neutral types of internal/core/engine.go, and the inbound message of
-- internal/transport/transport.go.
pub mod Names
use yaad_grove.Base.{ℕ, Map, String, Bool, false, Option, none, List, []}

pub data Surface : Type 0 where
  group dm : Surface

pub record User : Type 0 where
  pub id : String
  pub display : String

-- One button of a reply.
pub record Action : Type 0 where
  pub verb : String
  pub params : Map String
  pub label : String

pub record Reply : Type 0 where
  pub text : String
  pub refused : Bool
  pub silent : Bool
  pub actions : List Action
  pub notice : String
  pub reaction : String

pub record HistoryTurn : Type 0 where
  pub speaker : String
  pub bot : Bool
  pub text : String
  pub time : ℕ
  pub message_id : String
  pub reply_to : String

pub record Query : Type 0 where
  pub user : User
  pub surface : Surface
  pub text : String
  pub history : List HistoryTurn
  pub reply_context : String
  pub chat : String
  pub remember : Bool
  pub withdrawals : ℕ

-- A retrieved piece of the vault.
pub record Chunk : Type 0 where
  pub source : String
  pub text : String

pub record Callback : Type 0 where
  pub token : String
  pub query_id : String
  pub message_id : String

pub record Inbound : Type 0 where
  pub user : User
  pub surface : Surface
  pub text : String
  pub reply_to : String
  pub directed : Bool
  pub message_id : String
  pub reply_to_message_id : String
  pub reply_to_bot : Bool
  pub reply_to_text : String
  pub reply_to_sender : String
  pub callback : Option Callback

-- Go's zero values, `Action{}` and `Reply{}`.
abbrev pub no_action : Action
no_action = record { verb = ""; params = []; label = "" }

abbrev pub empty_reply : Reply
empty_reply = record {
  text = "";
  refused = false;
  silent = false;
  actions = [];
  notice = "";
  reaction = "";
}
