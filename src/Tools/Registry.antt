-- ===== src/Tools/Registry.antt =====
-- internal/tools/registry.go: the host of the configured tool servers. The servers are arguments:
-- `dial` opens a session, `list` gives a page of a session's tools, `call_tool` runs one.
use yaad_grove.Base.{
  one_of, ℕ, zero, suc, Bool, true, false, not, String, Option, none, some, List, [], ◌∷◌, ◌++◌,
  map, keep, Map, lookup, insert, if◌then◌else◌, same_text, Result, ok, err,
}
use yaad_grove.Base.Text.{◌<>◌}

-- `ServerConfig`. How the server is launched belongs to `dial`.
pub record ServerConfig : Type 0 where
  pub name : String
  pub allow : List String
  pub deny : List String

-- A tool as a server lists it. A schema is its JSON text, empty for none.
pub record Listed : Type 0 where
  pub name : String
  pub description : String
  pub schema : String

-- `toolRef`; a session is a number.
pub record ToolRef : Type 0 where
  pub session : ℕ
  pub server : String
  pub description : String
  pub input_schema : String

-- `Registry`
pub record Registry : Type 0 where
  pub sessions : List ℕ
  pub tools : Map ToolRef
  pub names : List String

-- `core.ToolDef`
pub record ToolDef : Type 0 where
  pub name : String
  pub description : String
  pub schema : String

-- `permits`
unfoldable pub permits : ServerConfig → String → Bool
permits s tool = elim s.allow [
  | a ∷ more ↦ one_of (a ∷ more) tool
  | [] ↦ elim s.deny [ d ∷ more ↦ not (one_of (d ∷ more) tool) | [] ↦ true ]
]

-- What the loop over a session's pages ends in: it does not end where a server always has a next page.
pub data Listing : Type 0 where
  listed : List Listed → Listing
  list_failed : String → Listing
  unending : Listing

-- What a call gives: a tool's content, an error response, or no response.
pub data Content : Type 0 where
  text_content : String → Content
  other_content : Content

pub data CallResult : Type 0 where
  called : List Content → Bool → CallResult
  call_rejected : String → CallResult
  call_broken : String → CallResult

pub data CallError : Type 0 where
  unknown_tool : CallError
  rejected : String → CallError
  failed_call : String → CallError
  reported : String → CallError

-- `flattenContent`, from what is written so far.
unfoldable pub flatten_onto : String → List Content → String
flatten_onto b [] = b
flatten_onto b (other_content ∷ cs) = flatten_onto b cs
flatten_onto b (text_content t ∷ cs) =
    flatten_onto (if same_text b "" then t else b <> "\n" <> t) cs

unfoldable pub flatten_content : List Content → String
unfolding flatten_onto
flatten_content = flatten_onto ""

-- `New`
abbrev pub new_registry : Registry
new_registry = record { sessions = []; tools = []; names = [] }

abbrev pub ListTools : Type 0
ListTools = String → Result String (List Listed × String)

-- One page: the tools that the server's configuration permits are kept, and the loop goes on while
-- there is a next page.
abbrev pub next_page :
    ServerConfig
    → List Listed
    → (String → List Listed → Listing)
    → Result String (List Listed × String)
    → Listing
next_page cfg found go_on (err e) = list_failed e
next_page cfg found go_on (ok (ts, next)) =
    let more = found ++ keep (λ t. permits cfg t.name) ts in
    elim (same_text next "") [ true ↦ listed more | false ↦ go_on next more ]

-- The loop over the pages, on fuel, from a cursor.
unfoldable pub list_loop : ServerConfig → ListTools → ℕ → String → List Listed → Listing
list_loop cfg list zero cursor found = unending
list_loop cfg list (suc fuel) cursor found =
    next_page cfg found (list_loop cfg list fuel) (list cursor)

abbrev pub ref_of : ServerConfig → ℕ → Listed → ToolRef
ref_of cfg session t = record {
  session = session;
  server = cfg.name;
  description = t.description;
  input_schema = t.schema;
}

abbrev pub named_once : String → Option ToolRef → List String → List String
named_once name none names = names ++ (name ∷ [])
named_once name (some old) names = names

-- The loop over the tools found. The last server wins on a name collision.
unfoldable pub register : ServerConfig → ℕ → List Listed → Registry → Registry
register cfg session [] r = r
register cfg session (t ∷ ts) r = register cfg session ts (record r {
  tools = insert t.name (ref_of cfg session t) r.tools;
  names = named_once t.name (lookup t.name r.tools) r.names;
})

-- How a call of `connect` ends, with the sessions that it opened and closed.
pub data Connected : Type 0 where
  connected : Registry → Connected
  not_connected : String → Connected
  not_listed : ℕ → String → Connected
  never_listed : ℕ → Connected

abbrev pub with_listing : ServerConfig → ℕ → Registry → Listing → Connected
with_listing cfg session r (listed found) =
    connected (register cfg session found (record r { sessions = r.sessions ++ (session ∷ []) }))
with_listing cfg session r (list_failed e) = not_listed session e
with_listing cfg session r unending = never_listed session

-- How `Connect` ends: with the registry and the sessions that it closed. None for a server that never
-- stops listing.
pub record Dialed : Type 0 where
  pub registry : Registry
  pub closed : List ℕ
  pub error : Option String

module _ (dial : ServerConfig → Result String ℕ) (list : ℕ → ListTools) (close : ℕ → Option String)
    (fuel : ℕ) where
  abbrev pub on_session : ServerConfig → Registry → Result String ℕ → Connected
  on_session cfg r (err e) = not_connected e
  on_session cfg r (ok session) =
      with_listing cfg session r (list_loop cfg (list session) fuel "" [])

  -- `connect`
  unfoldable pub connect : ServerConfig → Registry → Connected
  unfolding list_loop register
  connect cfg r = on_session cfg r (dial cfg)

  -- The loop of `Close`: the sessions whose Close it called, and the first error.
  unfoldable pub close_all : List ℕ → List ℕ × Option String
  close_all [] = ([], none)
  close_all (s ∷ ss) =
      let (closed, failed) = close_all ss in
      (s ∷ closed, elim (close s) [ none ↦ failed | some e ↦ some e ])

  -- `Close`, with the sessions that it closed.
  unfoldable pub close_registry : Registry → List ℕ × Option String × Registry
  close_registry r =
      let (closed, failed) = close_all r.sessions in (closed, failed, record r { sessions = [] })

  -- `Close` after a failure to connect; `first` was closed by `connect` itself.
  unfoldable pub torn_down : Registry → List ℕ → String → Dialed
  torn_down r first e =
      let (closed, failed, emptied) = close_registry r in
      record { registry = emptied; closed = first ++ closed; error = some e }

  abbrev pub after_connect : (Registry → Option Dialed) → Registry → Connected → Option Dialed
  after_connect go_on r (connected q) = go_on q
  after_connect go_on r (not_connected e) = some (torn_down r [] e)
  after_connect go_on r (not_listed session e) = some (torn_down r (session ∷ []) e)
  after_connect go_on r (never_listed session) = none

  -- `Connect`
  unfoldable pub connect_all : List ServerConfig → Registry → Option Dialed
  connect_all [] r = some (record { registry = r; closed = []; error = none })
  connect_all (cfg ∷ cfgs) r = after_connect (connect_all cfgs) r (connect cfg r)

-- `r.tools[name]`, with Go's zero value where there is none.
abbrev pub ref_or_zero : Option ToolRef → ToolRef
ref_or_zero (some ref) = ref
ref_or_zero none = record { session = 0; server = ""; description = ""; input_schema = "" }

abbrev pub def_of : Registry → String → ToolDef
def_of r name =
    let ref = ref_or_zero (lookup name r.tools) in
    record { name = name; description = ref.description; schema = ref.input_schema }

-- `Defs`. A schema is passed on as it is.
unfoldable pub defs : Registry → List ToolDef
defs r = map (def_of r) r.names

abbrev pub answered : CallResult → Result (CallError) String
answered (called content is_error) =
    let text = flatten_content content in if is_error then err (reported text) else ok text
answered (call_rejected e) = err (rejected e)
answered (call_broken e) = err (failed_call e)

-- `Call`
unfoldable pub call_tool :
    {A : Type 0} → (ℕ → String → A → CallResult) → Registry → String → A → Result (CallError) String
call_tool run r name args = elim (lookup name r.tools) [
  | none ↦ err unknown_tool
  | some ref ↦ answered (run ref.session name args)
]

-- `Server`
unfoldable pub server_of : Registry → String → String
server_of r name = (ref_or_zero (lookup name r.tools)).server
