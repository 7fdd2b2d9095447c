-- ===== src/Tools/Agent.antt =====
-- internal/tools/agent.go: the tools as an agent run sees them. The engine's tools, the JSON decoder of
-- the arguments and the servers are arguments.
use yaad_grove.Base.{
  Bool, true, false, not, ◌||◌, ◌≡◌, refl, ◌⊎◌, inl, inr, Bool-cases, String, Option, none, some,
  List, [], ◌∷◌, if◌then◌else◌, same_text, Result, ok, err,
}
use yaad_grove.Base.Text.{◌<>◌}
use yaad_grove.Tools.Registry.{ToolDef}

-- `content.KindRemoteTool` and `content.KindTool`
pub data SourceKind : Type 0 where
  remote_tool own_tool : SourceKind

pub data AgentError : Type 0 where
  err_unknown err_invalid_arguments : AgentError
  tool_error : String → AgentError

abbrev pub names_in : List ToolDef → String → Bool
names_in [] name = false
names_in (d ∷ ds) name = same_text d.name name || names_in ds name

-- `core.Tools`, with arguments of type A.
pub record Tools (A : Type 0) : Type 0 where
  pub defs : List ToolDef
  pub call : String → A → Result String String

-- `AgentTools.Server`, for servers that may be nil.
unfoldable pub agent_server : Option (String → String) → String → String
agent_server none name = ""
agent_server (some servers) name = servers name

-- `AgentTools.Source`
unfoldable pub source : Option (String → String) → String → SourceKind
source servers name = if same_text (agent_server servers name) "" then own_tool else remote_tool

module _ (servers : Option (String → String)) where
  -- `Definitions`, of tools that may be nil.
  unfoldable pub definitions : {A : Type 0} → Option (Tools A) → List ToolDef
  definitions none = []
  definitions (some t) = t.defs

  abbrev pub finished_call : Bool → String → Result String String → Result AgentError String
  finished_call cancelled name (ok out) = ok out
  finished_call cancelled name (err e) =
      if not (same_text (agent_server servers name) "")
      then err (tool_error e)
      else if cancelled
      then err (tool_error e)
      else ok ("error: " <> e)

  abbrev pub with_arguments :
      {A : Type 0} → Tools A → Bool → String → Option A → Result AgentError String
  with_arguments t cancelled name none = err err_invalid_arguments
  with_arguments t cancelled name (some args) = finished_call cancelled name (t.call name args)

  -- `AgentTools.Call`. `args` is what the arguments decode to; a cancelled context is an argument.
  unfoldable pub agent_call :
      {A : Type 0} → Option (Tools A) → Bool → String → Option A → Result AgentError String
  agent_call none cancelled name args = err err_unknown
  agent_call (some t) cancelled name args =
      if names_in t.defs name then with_arguments t cancelled name args else err err_unknown

  finished-output :
      (cancelled : Bool) (name out : String) (r : Result String String)
      → finished_call cancelled name r ≡ ok out
      → (r ≡ ok out)
        ⊎ ((source servers name ≡ own_tool) × (e : String) × (r ≡ err e) × (out ≡ "error: " <> e))
  unfolding source
  finished-output cancelled name out (ok x) h = let same : x ≡ out = cc h in inl (rw same refl)
  finished-output cancelled name out (err e) h =
      elim (Bool-cases (same_text (agent_server servers name) "")) [
        | inl own ↦ elim (Bool-cases cancelled) [
          | inl stop ↦ absurd (cc (rw (own, stop) at h))
          | inr go ↦ inr (rw own refl, e, refl, cc (rw (own, go) at h))
        ]
        | inr remote ↦ absurd (cc (rw remote at h))
      ]

  with_arguments-output :
      {A : Type 0} (t : Tools A) (cancelled : Bool) (name out : String) (args : Option A)
      → with_arguments t cancelled name args ≡ ok out
      → (a : A) × (args ≡ some a)
        × ((t.call name a ≡ ok out)
            ⊎ ((source servers name ≡ own_tool)
                × (e : String) × (t.call name a ≡ err e)
                × (out ≡ "error: " <> e)))
  with_arguments-output t cancelled name out none h = absurd (cc h)
  with_arguments-output t cancelled name out (some a) h =
      (a, refl, finished-output cancelled name out (t.call name a) h)

  -- What an agent run is given for a call: a tool's own output or, where no server serves the tool, the
  -- text of the engine's own error. An error's text of a server's tool is never given as output.
  pub agent_call-output :
      {A : Type 0} (t : Tools A) (cancelled : Bool) (name out : String) (args : Option A)
      → agent_call (some t) cancelled name args ≡ ok out
      → (names_in t.defs name ≡ true)
        × ((a : A) × (args ≡ some a)
            × ((t.call name a ≡ ok out)
                ⊎ ((source servers name ≡ own_tool)
                    × (e : String) × (t.call name a ≡ err e)
                    × (out ≡ "error: " <> e))))
  unfolding agent_call source
  agent_call-output t cancelled name out args h = elim (Bool-cases (names_in t.defs name)) [
    | inl known ↦
        let (a, decoded, way) = with_arguments-output t cancelled name out args (rw known at h) in
        (known, (a, decoded, way))
    | inr unknown ↦ absurd (cc (rw unknown at h))
  ]
