-- ===== src/Tools/Sessions.antt =====
-- About the sessions of `Connect` and the pages of a server, internal/tools/registry.go.
use mathlib.Core.List.{Perm, perm_append_comm}
use mathlib.Core.List.Perm
use yaad_grove.Base.{
  ◌+◌, ◌⊎◌, ℕ, zero, suc, ◌≤◌, String, Option, none, some, List, [], ◌∷◌, ◌++◌, append_assoc,
  append_nil, ap, same_text, Result, ok, err, ◌≡◌, ◌≢◌, refl, sym, subst, arith, inl, inr,
  Bool-cases,
}
use yaad_grove.Tools.Registry.{
  ServerConfig, Listed, Registry, Listing, listed, list_failed, unending, list_loop, next_page,
  register, with_listing, connect, connect_all, after_connect, on_session, close_registry,
  close_all, torn_down, Dialed, ListTools,
}

-- The pages of a server from a cursor end: with a last page, with an error, or after one more page.
pub data Ends (list : ListTools) : String → Type 0 where
  ends_last : {c : String} (ts : List Listed) → list c ≡ ok (ts, "") → Ends list c
  ends_failed : {c : String} (e : String) → list c ≡ err e → Ends list c
  ends_later :
      {c : String} (ts : List Listed) (next : String)
      → list c ≡ ok (ts, next)
      → Ends list next
      → Ends list c

list_loop-enough :
    (cfg : ServerConfig) (list : ListTools) (c : String)
    → Ends list c
    → (n : ℕ) × ((k : ℕ) (found : List Listed) → n ≤ k → list_loop cfg list k c found ≢ unending)
unfolding list_loop
list_loop-enough cfg list c (ends_last ts e) =
    (1, elim [ zero ↦ λ f h x. omega (arith, h) | suc k ↦ λ f h x. cc (rw e at x) ])
list_loop-enough cfg list c (ends_failed x e) =
    (1, elim [ zero ↦ λ f h x. omega (arith, h) | suc k ↦ λ f h x. cc (rw e at x) ])
list_loop-enough cfg list c (ends_later ts next e more) =
    let (n, ih) = list_loop-enough cfg list next more in
    (
      suc n,
      elim [
        | zero ↦ λ f h x. omega (arith, h)
        | suc k ↦ λ f h x. elim (Bool-cases (same_text next "")) [
          | inl last ↦ cc (rw (e, next_page, last) at x)
          | inr on ↦ ih k _ (omega (arith, h)) (rw (e, next_page, on) at x)
        ]
      ],
    )

-- Where the pages end, the loop over them ends, with any fuel from some amount on.
pub list_loop-Ends :
    (cfg : ServerConfig) (list : ListTools) (c : String)
    → Ends list c
    → (n : ℕ) × ((k : ℕ) (found : List Listed) → list_loop cfg list (n + k) c found ≢ unending)
list_loop-Ends cfg list c ends =
    let (n, enough) = list_loop-enough cfg list c ends in
    (n, λ k found. enough (n + k) found (omega arith))

register-sessions :
    (cfg : ServerConfig) (session : ℕ) (ts : List Listed) (r : Registry)
    → (register cfg session ts r).sessions ≡ r.sessions
unfolding register
register-sessions cfg session [] r = refl
register-sessions cfg session (t ∷ ts) r = register-sessions cfg session ts _

module _ (dial : ServerConfig → Result String ℕ) (list : ℕ → ListTools) (close : ℕ → Option String)
    (fuel : ℕ) where
  abbrev opened_then : ℕ → List ℕ → Listing → List ℕ
  opened_then s later (listed ts) = s ∷ later
  opened_then s later l = s ∷ []

  abbrev opened_by : List ℕ → ServerConfig → Result String ℕ → List ℕ
  opened_by later cfg (err e) = []
  opened_by later cfg (ok s) = opened_then s later (list_loop cfg (list s) fuel "" [])

  -- The sessions that connecting to the servers opens, up to the first failure.
  unfoldable pub opened : List ServerConfig → List ℕ
  opened [] = []
  opened (cfg ∷ cfgs) = opened_by (opened cfgs) cfg (dial cfg)

  -- The sessions of an end: the closed ones, then the open ones.
  abbrev pub all_of : Dialed → List ℕ
  all_of d = d.closed ++ d.registry.sessions

  -- No session is lost, and after a failure none is open.
  abbrev pub Accounts : List ℕ → List ℕ → Dialed → Type 0
  Accounts before later d =
      Perm (all_of d) (before ++ later) × ((d.error ≡ none) ⊎ (d.registry.sessions ≡ []))

  -- The loop of `Close` skips no session, whichever of them fail to close.
  close_all-all : (ss : List ℕ) → (close_all dial list close fuel ss).0 ≡ ss
  unfolding close_all
  close_all-all [] = refl
  close_all-all (s ∷ ss) = ap (λ l. s ∷ l) (close_all-all ss)

  torn_down-Accounts :
      (r : Registry) (first : List ℕ) (e : String)
      → Accounts r.sessions first (torn_down dial list close fuel r first e)
  unfolding torn_down close_registry
  torn_down-Accounts r first e =
      let closed : Perm (first ++ r.sessions) (r.sessions ++ first) =
        perm_append_comm first r.sessions in
      let whole : Perm ((first ++ (close_all dial list close fuel r.sessions).0) ++ [])
          (r.sessions ++ first) =
        rw (close_all-all r.sessions, append_nil (first ++ r.sessions)) closed in
      (whole, inr refl)

  end-Accounts :
      (before later : List ℕ) (d e : Dialed)
      → some d ≡ some e
      → Accounts before later d
      → Accounts before later e
  end-Accounts before later d e h a =
      let same : d ≡ e = cc h in subst (Accounts before later) same a

  listing-Accounts :
      (cfg : ServerConfig) (s : ℕ) (r : Registry) (l : Listing) (later : List ℕ)
      (go_on : Registry → Option Dialed) (d : Dialed)
      → ((q : Registry) → go_on q ≡ some d → Accounts q.sessions later d)
      → after_connect dial list close fuel go_on r (with_listing cfg s r l) ≡ some d
      → Accounts r.sessions (opened_then s later l) d
  listing-Accounts cfg s r (listed ts) later go_on d next h =
      let q = record r { sessions = r.sessions ++ (s ∷ []) } in
      let a =
        subst (λ b. Accounts b later d) (register-sessions cfg s ts q)
          (next (register cfg s ts q) h) in
      (subst (Perm (all_of d)) (append_assoc r.sessions (s ∷ []) later) a.0, a.1)
  listing-Accounts cfg s r (list_failed e) later go_on d next h =
      end-Accounts r.sessions (s ∷ []) _ d h (torn_down-Accounts r (s ∷ []) e)
  listing-Accounts cfg s r unending later go_on d next h = absurd (cc h)

  dial-Accounts :
      (cfg : ServerConfig) (r : Registry) (o : Result String ℕ) (later : List ℕ)
      (go_on : Registry → Option Dialed) (d : Dialed)
      → ((q : Registry) → go_on q ≡ some d → Accounts q.sessions later d)
      → after_connect dial list close fuel go_on r (on_session dial list close fuel cfg r o)
        ≡ some d
      → Accounts r.sessions (opened_by later cfg o) d
  dial-Accounts cfg r (ok s) later go_on d next h =
      listing-Accounts cfg s r (list_loop cfg (list s) fuel "" []) later go_on d next h
  dial-Accounts cfg r (err e) later go_on d next h =
      end-Accounts r.sessions [] _ d h (torn_down-Accounts r [] e)

  -- However connecting ends, each session that was opened is closed or in the registry, and after a failure
  -- none is left open.
  pub connect_all-Accounts :
      (cfgs : List ServerConfig) (r : Registry) (d : Dialed)
      → connect_all dial list close fuel cfgs r ≡ some d
      → Accounts r.sessions (opened cfgs) d
  unfolding connect_all connect opened
  connect_all-Accounts [] r d h =
      end-Accounts r.sessions [] _ d h
        (subst (Perm r.sessions) (sym (append_nil r.sessions)) Perm.rfl, inl refl)
  connect_all-Accounts (cfg ∷ cfgs) r d h =
      dial-Accounts cfg r (dial cfg) (opened cfgs) (connect_all dial list close fuel cfgs) d
        (λ q e. connect_all-Accounts cfgs q d e) h
