-- ===== src/Runtime/Services.antt =====
-- What `NewHandler` of internal/runtime/handler.go is given, and what it changes. The engine, the
-- button store, the logs and the eraser are the interfaces that handler.go and erase.go declare.
use yaad_grove.Base.{ℕ, Bool, true, false, String, Option, none, some, List, [], ◌∷◌, Map, Result}
use yaad_grove.Core.{Action, Reply, Query}
use yaad_grove.Core.Names.{NameTables}
use yaad_grove.Acl.{Store, Gate}
use yaad_grove.Budget.{ChatError}
use yaad_grove.Pending.{Status}
use yaad_grove.Memory.{Buffer}
use yaad_grove.Memory.Select.{Unicode}
use yaad_grove.Runtime.Verbs.{Verb}
use yaad_grove.Runtime.Policy.{Policy}

-- internal/quarantine/quarantine.go
pub record LogEntry : Type 0 where
  pub time : ℕ
  pub chat_id : String
  pub user_id : String
  pub handle : String
  pub surface : String
  pub text : String

pub data Role : Type 0 where
  human bot system : Role

-- internal/transcript/transcript.go
pub record TranscriptEntry : Type 0 where
  pub time : ℕ
  pub role : Role
  pub chat_id : String
  pub user_id : String
  pub speaker : String
  pub text : String
  pub message_id : String
  pub reply_to : String
  pub event : String

-- `EraseResult`
pub record EraseResult (E : Type 0) : Type 0 where
  pub namespace : String
  pub error : Option E

-- `Erased`
unfoldable pub erased : {E : Type 0} → List (EraseResult E) → Bool
erased [] = true
erased (r ∷ rest) = elim r.error [ some e ↦ false | none ↦ erased rest ]

-- `MemoryEraser`, over the world `W` it works in.
pub record MemoryEraser (E W : Type 0) : Type 0 where
  pub withdrawals : String → W → ℕ
  pub erase : String → W → List (EraseResult E) × W

-- `S` is the access-control store, `Q` the quarantine log, `T` the transcript, `W` all else that the
-- engine, the button store and the eraser change; `F` is what they fail with.
pub record Services (E F S Q T W : Type 0) : Type 0 where
  pub store : Store E S
  pub answer : Query → W → Result (ChatError F) Reply × W
  pub callbacks : Option (String → W → Result F (Action × Status) × W)
  pub registry : Option (Map (Verb E S))
  pub qlog : Option (LogEntry → Q → Option F × Q)
  pub transcript : Option (TranscriptEntry → T → Option F × T)
  pub eraser : Option (MemoryEraser F W)
  pub consent : Bool
  pub policy : Policy
  pub unicode : Unicode
  pub names : NameTables

pub record State (S Q T W : Type 0) : Type 0 where
  pub gate : Gate
  pub acl : S
  pub qlog : Q
  pub transcript : T
  pub buffer : Option Buffer
  pub world : W

-- The readings of the clock while one message is handled.
pub record Times : Type 0 where
  pub gated : ℕ
  pub logged : ℕ
  pub transcribed : ℕ
  pub selected : ℕ
  pub remembered : ℕ
  pub answered : ℕ
  pub answer_transcribed : ℕ
