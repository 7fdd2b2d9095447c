-- ===== src/Tools/Scoped.antt =====
-- About the tools that `Connect` of internal/tools/registry.go lets through.
use yaad_grove.Base.{
  ℕ, zero, suc, false, String, Option, none, some, List, [], ◌∷◌, map, keep, lookup, lookup-insert,
  All, All-append, same_text, same_text_iff, Result, ok, err, ◌≡◌, refl, ap, subst, inl, inr,
  Bool-cases,
}
use yaad_grove.Tools.Registry.{
  ServerConfig, Listed, Registry, permits, Listing, listed, list_failed, unending, list_loop,
  register, named_once, Connected, connected, not_connected, not_listed, never_listed, with_listing,
  connect, connect_all, close_registry, torn_down, Dialed, CallResult, unknown_tool, call_tool,
  defs, new_registry, ListTools, next_page, ToolRef, on_session, after_connect, def_of,
}

-- A name that the registry does not know.
abbrev pub Unknown : String → Registry → Type 0
Unknown name r = (lookup name r.tools ≡ none) × All (λ n. same_text n name ≡ false) r.names

keep_permitted :
    (cfg : ServerConfig) (name : String) (ts : List Listed)
    → permits cfg name ≡ false
    → All (λ t. same_text t.name name ≡ false) (keep (λ t. permits cfg t.name) ts)
keep_permitted cfg name [] h = tt
keep_permitted cfg name (t ∷ ts) h = elim (Bool-cases (permits cfg t.name)) [
  | inl can ↦ rw can (elim (Bool-cases (same_text t.name name)) [
    | inl same ↦ absurd (cc (can, h, (same_text_iff t.name name).0 same))
    | inr other ↦ (other, keep_permitted cfg name ts h)
  ])
  | inr cannot ↦ rw cannot (keep_permitted cfg name ts h)
]

abbrev OnlyOthers : String → Listing → Type 0
OnlyOthers name (listed ts) = All (λ t. same_text t.name name ≡ false) ts
OnlyOthers name l = Unit

next_page-OnlyOthers :
    (cfg : ServerConfig) (name : String) (found : List Listed)
    (go_on : String → List Listed → Listing) (page : Result String (List Listed × String))
    → permits cfg name ≡ false
    → All (λ t. same_text t.name name ≡ false) found
    → ((c : String) (l : List Listed)
        → All (λ t. same_text t.name name ≡ false) l
        → OnlyOthers name (go_on c l))
    → OnlyOthers name (next_page cfg found go_on page)
next_page-OnlyOthers cfg name found go_on (err e) h f later = tt
next_page-OnlyOthers cfg name found go_on (ok (ts, next)) h f later =
    let more = All-append _ found _ f (keep_permitted cfg name ts h) in
    elim (Bool-cases (same_text next "")) [
      | inl last ↦ rw (last, OnlyOthers) more
      | inr on ↦ rw (on, OnlyOthers) (later next _ more)
    ]

list_loop-OnlyOthers :
    (cfg : ServerConfig) (list : ListTools) (name : String) (fuel : ℕ) (cursor : String)
    (found : List Listed)
    → permits cfg name ≡ false
    → All (λ t. same_text t.name name ≡ false) found
    → OnlyOthers name (list_loop cfg list fuel cursor found)
unfolding list_loop
list_loop-OnlyOthers cfg list name zero cursor found h f = tt
list_loop-OnlyOthers cfg list name (suc fuel) cursor found h f =
    next_page-OnlyOthers cfg name found (list_loop cfg list fuel) (list cursor) h f
      (λ c l k. list_loop-OnlyOthers cfg list name fuel c l h k)

named_once-others :
    (name new : String) (old : Option ToolRef) (names : List String)
    → same_text new name ≡ false
    → All (λ n. same_text n name ≡ false) names
    → All (λ n. same_text n name ≡ false) (named_once new old names)
named_once-others name new none names h f = All-append _ names (new ∷ []) f (h, tt)
named_once-others name new (some ref) names h f = f

register-Unknown :
    (cfg : ServerConfig) (session : ℕ) (name : String) (ts : List Listed) (r : Registry)
    → All (λ t. same_text t.name name ≡ false) ts
    → Unknown name r
    → Unknown name (register cfg session ts r)
unfolding register
register-Unknown cfg session name [] r h u = u
register-Unknown cfg session name (t ∷ ts) r h u = register-Unknown cfg session name ts _ h.1 (
  rw (lookup-insert, h.0) (u.0),
  named_once-others name t.name (lookup t.name r.tools) r.names h.0 u.1,
)

-- The registries of two equal ends.
ends : {d e : Dialed} → some d ≡ some e → d.registry ≡ e.registry
ends {d = d} {e = e} h = let same : d ≡ e = cc h in ap (λ x. x.registry) same

module _ (dial : ServerConfig → Result String ℕ) (list : ℕ → ListTools) (close : ℕ → Option String)
    (fuel : ℕ) where
  abbrev StillUnknown : String → Connected → Type 0
  StillUnknown name (connected r) = Unknown name r
  StillUnknown name c = Unit

  with_listing-StillUnknown :
      (cfg : ServerConfig) (session : ℕ) (name : String) (r : Registry) (l : Listing)
      → OnlyOthers name l
      → Unknown name r
      → StillUnknown name (with_listing cfg session r l)
  with_listing-StillUnknown cfg session name r (listed ts) h u =
      register-Unknown cfg session name ts _ h u
  with_listing-StillUnknown cfg session name r (list_failed e) h u = tt
  with_listing-StillUnknown cfg session name r unending h u = tt

  dialed-StillUnknown :
      (cfg : ServerConfig) (name : String) (r : Registry) (d : Result String ℕ)
      → permits cfg name ≡ false
      → Unknown name r
      → StillUnknown name (on_session dial list close fuel cfg r d)
  dialed-StillUnknown cfg name r (err e) h u = tt
  dialed-StillUnknown cfg name r (ok session) h u =
      with_listing-StillUnknown cfg session name r (list_loop cfg (list session) fuel "" [])
        (list_loop-OnlyOthers cfg (list session) name fuel "" [] h tt) u

  after_connect-Unknown :
      (name : String) (r : Registry) (go_on : Registry → Option Dialed) (c : Connected) (d : Dialed)
      → ((q : Registry) → Unknown name q → go_on q ≡ some d → Unknown name d.registry)
      → Unknown name r
      → StillUnknown name c
      → after_connect dial list close fuel go_on r c ≡ some d
      → Unknown name d.registry
  unfolding close_registry torn_down
  after_connect-Unknown name r go_on (connected q) d later u h e = later q h e
  after_connect-Unknown name r go_on (not_connected x) d later u h e =
      subst (Unknown name) (ends e) u
  after_connect-Unknown name r go_on (not_listed s x) d later u h e =
      subst (Unknown name) (ends e) u
  after_connect-Unknown name r go_on (never_listed s) d later u h e = absurd (cc e)

  connect_all-Unknown :
      (cfgs : List ServerConfig) (name : String) (r : Registry) (d : Dialed)
      → All (λ cfg. permits cfg name ≡ false) cfgs
      → Unknown name r
      → connect_all dial list close fuel cfgs r ≡ some d
      → Unknown name d.registry
  unfolding connect_all connect
  connect_all-Unknown [] name r d h u e = subst (Unknown name) (ends e) u
  connect_all-Unknown (cfg ∷ cfgs) name r d h u e =
      after_connect-Unknown name r (connect_all dial list close fuel cfgs)
        (on_session dial list close fuel cfg r (dial cfg)) d
        (λ q k f. connect_all-Unknown cfgs name q d h.1 k f) u
        (dialed-StillUnknown cfg name r (dial cfg) h.0 u) e

  defs-others :
      (r : Registry) (name : String) (names : List String)
      → All (λ n. same_text n name ≡ false) names
      → All (λ t. same_text t.name name ≡ false) (map (def_of r) names)
  defs-others r name [] h = tt
  defs-others r name (n ∷ ns) h = (h.0, defs-others r name ns h.1)

  -- Once the servers are connected, a tool that no server's configuration permits is not offered to the
  -- model, and a call of it is refused as unknown, whatever the servers list.
  pub connect_all-refuses :
      {A : Type 0} (run : ℕ → String → A → CallResult) (servers : List ServerConfig) (name : String)
      (args : A) (d : Dialed)
      → All (λ cfg. permits cfg name ≡ false) servers
      → connect_all dial list close fuel servers new_registry ≡ some d
      → (call_tool run d.registry name args ≡ err unknown_tool)
        × All (λ t. same_text t.name name ≡ false) (defs d.registry)
  unfolding call_tool defs lookup
  connect_all-refuses run servers name args d h e =
      let (none_, others) = connect_all-Unknown servers name new_registry d h (refl, tt) e in
      (rw (none_, call_tool) refl, defs-others d.registry name d.registry.names others)
