-- ===== src/Tools/Tests.antt =====
-- kb_enumerate over a vault of three notes.
use yaad_grove.Tools.Registry.{
  connect, connect_all, permits, ServerConfig, Listed, ListTools, Dialed, CallResult, called,
  text_content, call_tool, unknown_tool, defs, new_registry, list_loop, unending,
}
use yaad_grove.Tools.Agent.{
  agent_call, agent_server, Tools, agent_call-output, names_in, source, own_tool,
}
use yaad_grove.Tools.Scoped.{connect_all-refuses}
use yaad_grove.Tools.Sessions.{
  Accounts, opened, connect_all-Accounts, list_loop-Ends, ends_later, ends_last,
}
use yaad_grove.Store.Complete.{carries}
use yaad_grove.Base.Text.{◌<>◌, trim_space}
use yaad_grove.Store.Structured.{resolve_value, build_structured, enumerate}
use mathlib.Core.List.{Perm}
use native.Mathlib.Nat.{mul-div_left}
use yaad_grove.Base.{
  ◌+◌, ℕ, Result, All, true, Option, some, same_text, if◌then◌else◌, insert, false, String, none,
  List, [], ◌∷◌, keep, ◌*◌, ◌<◌, ok, err, ◌⊎◌, ◌≡◌, ◌≢◌, refl, ap, arith, lookup, ◌/◌,
}
use yaad_grove.Base.Int.{ℤ, pos}
use yaad_grove.Base.Sort.{sort_by, IsSorted}
use yaad_grove.Store.{Doc, DocRef}
use yaad_grove.Store.Normalize.{separator, normalize_key, Script}
use yaad_grove.Store.Ordered.{
  entry_le, build_ordered, ordered, Direction, OrderedEntry, capped, refs_of,
}
use yaad_grove.Store.Directed.{stands_before}
use yaad_grove.Store.Order.{carrying}
use yaad_grove.Tools.{Float64, Json, Fields, Go, Predicate, Order, ToolError, Backend}
use yaad_grove.Tools.Arguments.{unit, int_arg, get}
use yaad_grove.Tools.Enumerate.{Matches, ordered_refs, call}
use yaad_grove.Tools.Whole.{Serves, in_all, first_empty}
use yaad_grove.Tools.Vault.{memory_backend, valued, ordered_refs-memory_backend}
use yaad_grove.Tools.Safety.{IsExact, Asked, asked_for, Positive, int_arg-accepted}
use yaad_grove.Tools.Text.{call_text}
use yaad_grove.Tools.Total.{call-total}

abbrev as_is : Script
as_is = record { nfkc = λ s. s; to_lower = λ c. c; is_punct = λ c. false; is_symbol = λ c. false }

abbrev note : String → List String → ℤ → Doc
note path kinds year = record {
  ref = record { path = path; title = path };
  chunks = [];
  dimensions = ("kind", kinds) ∷ [];
  aliases = [];
  ordered = ("year", year) ∷ [];
}

abbrev vault : List Doc
vault =
    note "a" ("rail" ∷ []) (pos 1)
    ∷ note "b" ("rail" ∷ "bus" ∷ []) (pos 3)
    ∷ note "c" ("tram" ∷ []) (pos 5)
    ∷ []

abbrev rail : Predicate
rail = record { dimension = "kind"; value = "rail" }

abbrev latest : Order
latest = record { field = "year"; dir = Direction.descending; limit = pos 1 }

-- The newest note is not about rail, and the answer is the newest that is.
newest_rail :
    ordered_refs (memory_backend as_is vault) (rail ∷ []) latest
    ≡ ok (Matches.matching (record { path = "b"; title = "b" } ∷ []))
unfolding ordered_refs memory_backend enumerate lookup build_structured insert normalize_key
    trim_space separator ordered build_ordered sort_by entry_le
newest_rail = refl

ordered_refs-memory_backend_example :
    (es : List OrderedEntry) × Perm es (carrying "year" vault)
    × IsSorted (stands_before Direction.descending) es
    × (ordered_refs (memory_backend as_is vault) (rail ∷ []) latest
        ≡ ok (
            Matches.matching (
              capped
                (pos 1)
                (keep (λ r. in_all (valued as_is vault) (rail ∷ []) r.path) (refs_of es)))))
unfolding lookup first_empty carries resolve_value build_structured normalize_key trim_space
    separator
ordered_refs-memory_backend_example =
    ordered_refs-memory_backend as_is vault (rail ∷ []) latest
      ((refl, tt), ((refl, tt), ((refl, tt), tt))) ((refl, tt), ((refl, tt), ((refl, tt), tt))) refl

-- A backend of two documents.
abbrev doc : String → DocRef
doc path = record { path = path; title = "" }

abbrev some_set : String → String → List DocRef
some_set dim value = doc "x" ∷ doc "y" ∷ []

abbrev some_order : String → Direction → List DocRef
some_order field dir = doc "z" ∷ doc "y" ∷ doc "x" ∷ []

abbrev small : Backend Unit
small = record {
  enumerate = λ dim value. ok (some_set dim value);
  ordered = λ field dir limit. ok (capped limit (some_order field dir));
}

abbrev small-Serves : Serves small some_set some_order
small-Serves = record { enumerates = λ dim value. refl; orders = λ field dir limit. refl }

abbrev whole_part : Float64 → ℤ
whole_part (Float64.finite (pos m)) = pos (m / unit)
whole_part f = pos 0

unit_above : 0 < unit
unit_above = omega arith

abbrev machine : Go
machine = record {
  parse_float = λ s. none;
  to_int = whole_part;
  to_lower = λ s. s;
  quote = λ s. s;
  decimal = λ n. "";
}

abbrev one_asked : Fields
one_asked = Fields.field "limit" (Json.number (Float64.finite (pos (1 * unit)))) Fields.no_fields

machine-IsExact : IsExact machine
machine-IsExact = record { whole = λ n h. ap pos (mul-div_left n unit_above) }

int_arg-accepted_example :
    ((asked_for machine (get "limit" one_asked) ≡ Asked.nothing) × (pos 1 ≡ pos 0))
    ⊎ ((f : Float64) × (asked_for machine (get "limit" one_asked) ≡ Asked.number f)
        × Positive machine f (pos 1))
unfolding int_arg
int_arg-accepted_example =
    int_arg-accepted {E = Unit} machine one_asked "limit" (pos 1) machine-IsExact refl

call-total_example :
    call machine (record { backend = small; dimensions = "kind" ∷ []; orderable = [] }) one_asked
    ≢ err ToolError.index_out_of_range
call-total_example =
    call-total machine (record { backend = small; dimensions = "kind" ∷ []; orderable = [] })
      one_asked

newest_rail_text :
    call_text machine
      (record {
        backend = memory_backend as_is vault;
        dimensions = "kind" ∷ [];
        orderable = "year" ∷ [];
      })
      (Fields.field "sort" (Json.text "year") (
        Fields.field "dimension"
          (Json.text "kind")
          (Fields.field "value" (Json.text "rail") one_asked)))
    ≡ ok " documents with kind = rail, by year (highest first), showing the first :\n- b (b)"
unfolding call_text call trim_space ordered_refs memory_backend enumerate lookup build_structured
    insert normalize_key separator ordered build_ordered sort_by entry_le ◌<>◌
newest_rail_text = refl

-- A server with two pages of tools, one of them not permitted.
abbrev shop : ServerConfig
shop = record { name = "shop"; allow = "find" ∷ []; deny = [] }

abbrev a_tool : String → Listed
a_tool name = record { name = name; description = ""; schema = "" }

abbrev pages : ℕ → ListTools
pages s cursor =
    if same_text cursor ""
    then ok (a_tool "post_play" ∷ [], "more")
    else ok (a_tool "find" ∷ [], "")

abbrev dial : ServerConfig → Result String ℕ
dial cfg = ok 4

abbrev closes : ℕ → Option String
closes s = none

abbrev found_one : Dialed
found_one = record {
  registry = record {
    sessions = 4 ∷ [];
    tools =
        ("find", record { session = 4; server = "shop"; description = ""; input_schema = "" }) ∷ [];
    names = "find" ∷ [];
  };
  closed = [];
  error = none;
}

run_tool : ℕ → String → String → CallResult
run_tool s name args = called (text_content args ∷ []) false

connect_all-refuses_example :
    (call_tool run_tool found_one.registry "post_play" "" ≡ err unknown_tool)
    × All (λ t. same_text t.name "post_play" ≡ false) (defs found_one.registry)
unfolding permits connect_all connect insert lookup
connect_all-refuses_example =
    connect_all-refuses dial pages closes 2 run_tool (shop ∷ []) "post_play" "" found_one (refl, tt)
      refl

connect_all-Accounts_example :
    Accounts dial pages closes 2 [] (opened dial pages closes 2 (shop ∷ [])) found_one
unfolding connect_all connect permits insert lookup
connect_all-Accounts_example =
    connect_all-Accounts dial pages closes 2 (shop ∷ []) new_registry found_one refl

list_loop-Ends_example :
    (n : ℕ) × ((k : ℕ) (found : List Listed) → list_loop shop (pages 4) (n + k) "" found ≢ unending)
list_loop-Ends_example =
    list_loop-Ends shop (pages 4) ""
      (ends_later (a_tool "post_play" ∷ []) "more" refl (ends_last (a_tool "find" ∷ []) refl))

-- A tool of the engine's own that fails.
abbrev own_tools : Tools String
own_tools = record {
  defs = record { name = "kb_enumerate"; description = ""; schema = "" } ∷ [];
  call = λ name args. err "no such dimension";
}

agent_call-output_example :
    (names_in own_tools.defs "kb_enumerate" ≡ true)
    × ((a : String) × (some "{}" ≡ some a)
        × ((own_tools.call "kb_enumerate" a ≡ ok "error: no such dimension")
            ⊎ ((source none "kb_enumerate" ≡ own_tool)
                × (e : String) × (own_tools.call "kb_enumerate" a ≡ err e)
                × ("error: no such dimension" ≡ "error: " <> e))))
unfolding agent_call agent_server ◌<>◌
agent_call-output_example =
    agent_call-output none own_tools false "kb_enumerate" "error: no such dimension" (some "{}")
      refl
