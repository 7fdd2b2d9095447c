-- ===== src/Acl/Overlap.antt =====
-- Checks of the gate that overlap, of internal/acl/acl.go: each is two steps, a read and the rest.
use mathlib.Core.Option
use yaad_grove.Base.{zero, suc, All}
use yaad_grove.Base.{
  ℕ, ◌+◌, ◌<◌, ◌≤◌, ◌≡◌, refl, ◌∙◌, ap, ◌≢◌, inl, inr, Bool, true, false, String, Option, none,
  some, List, [], ◌∷◌, same_text, arith, if◌then◌else◌, Bool-cases, Result, ok, err,
}
use yaad_grove.Base.Int.{since_le}
use yaad_grove.Acl.{
  Record, Store, Gate, GateInput, Decision, serve, rate_window, windowed, over_rate, allowance_for,
  resolve_tier, nudge, check_read, check_rate, served,
}

abbrev pub is_serve : {E : Type 0} → Result E Decision → Bool
is_serve (ok serve) = true
is_serve (ok _) = false
is_serve (err e) = false

is_serve-serve : {E : Type 0} (r : Result E Decision) → is_serve r ≡ true → r ≡ ok serve
is_serve-serve (ok serve) h = refl
is_serve-serve (ok _) h = cc
is_serve-serve (err e) h = cc

-- A record in the window that began at `w`, with `n` messages counted, for a user whose tier allows `a`.
pub record InWindow (a w n : ℕ) (g : Gate) (r : Record) : Type 0 where
  pub start : r.rate_window_start ≡ w
  pub count : r.rate_count ≡ n
  pub allowed : allowance_for (resolve_tier r g) ≡ some a

pub windowed-open :
    (now w : ℕ) (r : Record)
    → r.rate_window_start ≡ w
    → 0 < w
    → now < w + rate_window
    → windowed now r ≡ r
unfolding windowed
windowed-open now w r e h early =
    let d = since_le now w rate_window (omega arith) (omega arith) in rw (e, d) (ground arith)

def_tier-nudge : (id : String) (now : ℕ) (g : Gate) → (nudge id now g).1.def_tier ≡ g.def_tier
unfolding nudge
def_tier-nudge id now g = ground arith

def_tier-served :
    {E S : Type 0} (o : Option E × S) (g : Gate) → (served o g).1.def_tier ≡ g.def_tier
unfolding served
def_tier-served (none, s) g = refl
def_tier-served (some e, s) g = refl

resolve_tier-def :
    (r r' : Record) (g g' : Gate)
    → r'.tier ≡ r.tier
    → g'.def_tier ≡ g.def_tier
    → resolve_tier r' g' ≡ resolve_tier r g
unfolding resolve_tier
resolve_tier-def r r' g g' e f = rw (e, f) refl

pub InWindow-after :
    (a w n m : ℕ) (g g' : Gate) (r r' : Record)
    → InWindow a w n g r
    → r'.rate_window_start ≡ w
    → r'.rate_count ≡ m
    → r'.tier ≡ r.tier
    → g'.def_tier ≡ g.def_tier
    → InWindow a w m g' r'
InWindow-after a w n m g g' r r' k started counted_eq tier_eq def_eq = record {
  start = started;
  count = counted_eq;
  allowed = ap allowance_for (resolve_tier-def r r' g g' tier_eq def_eq) ∙ k.allowed;
}

pub under_rate : (a n : ℕ) → over_rate (some a) n ≡ false → n + 1 ≤ a
unfolding over_rate
under_rate a n h = ground arith

pub not_serve : {E : Type 0} (r : Result E Decision) → r ≢ ok serve → is_serve r ≡ false
not_serve r h = elim (Bool-cases (is_serve r)) [
  | inl yes_serve ↦ absurd (h (is_serve-serve r yes_serve))
  | inr other ↦ other
]

-- A check between its two steps: its message, what it read, and whether a message of the same user has been
-- served since.
pub record Pending (E : Type 0) : Type 0 where
  pub input : GateInput
  pub got : Result E Record
  pub overtaken : Bool

-- The steps of checks that overlap: one reads the record of its sender, or the n-th of those that have read goes
-- on to its end, at a time.
pub data Step : Type 0 where
  reads : GateInput → Step
  goes_on : ℕ → ℕ → Step

-- The n-th, and the others.
abbrev pub take_out : {A : Type 0} → ℕ → List A → Option (A × List A)
take_out n [] = none
take_out zero (p ∷ ps) = some (p, ps)
take_out (suc n) (p ∷ ps) = Option.map (λ x. (x.0, p ∷ x.1)) (take_out n ps)

module _ {E : Type 0} where
  -- A message of the user is served.
  abbrev pub overtake : String → List (Pending E) → List (Pending E)
  overtake k [] = []
  overtake k (p ∷ ps) =
      let rest = overtake k ps in
      (if same_text p.input.user.id k then record p { overtaken = true } else p) ∷ rest

-- One message more is served to the user, or to another: how many were, and how many of them by checks that
-- were overtaken.
abbrev pub tallied : Bool → Bool → ℕ × ℕ → ℕ × ℕ
tallied false overtaken (n, k) = (n, k)
tallied true false (n, k) = (n + 1, k)
tallied true true (n, k) = (n + 1, k + 1)

abbrev pub OutAll : {A : Type 0} → (A → Type 0) → Option (A × List A) → Type 0
OutAll P none = Unit
OutAll P (some (p, ps)) = P p × All P ps

put_back :
    {A : Type 0} (P : A → Type 0) (p : A) (o : Option (A × List A))
    → P p
    → OutAll P o
    → OutAll P (Option.map (λ x. (x.0, p ∷ x.1)) o)
put_back P p none h out = tt
put_back P p (some (q, qs)) h out = (out.0, (h, out.1))

pub take_out-All :
    {A : Type 0} (P : A → Type 0) (n : ℕ) (ps : List A) → All P ps → OutAll P (take_out n ps)
take_out-All P n [] h = tt
take_out-All P zero (p ∷ ps) h = h
take_out-All P (suc n) (p ∷ ps) h = put_back P p (take_out n ps) h.0 (take_out-All P n ps h.1)

module _ {E S : Type 0} (store : Store E S) where
  pub def_tier-read :
      (i : GateInput) (now : ℕ) (o : Result E Record) (g : Gate) (s : S)
      → (check_read store i now o g s).1.def_tier ≡ g.def_tier
  unfolding check_read check_rate
  def_tier-read i now (err e) g s = refl
  def_tier-read i now (ok r) g s =
      let rec' = windowed now r in
      ground (
        arith,
        def_tier-nudge i.user.id now g,
        def_tier-served (store.put (record rec' { rate_count = rec'.rate_count + 1 }) s) g,
      )

  -- How many messages of `id` are served in the steps, and how many of them by checks that were overtaken.
  module _ (id : String) where
    abbrev pub ended :
        (List (Pending E) → Gate → S → ℕ × ℕ)
        → ℕ
        → Option (Pending E × List (Pending E))
        → List (Pending E)
        → Gate
        → S
        → ℕ × ℕ
    ended next now none ps g s = next ps g s
    ended next now (some (p, qs)) ps g s =
        let (d, g', s') = check_read store p.input now p.got g s in
        let k = p.input.user.id in
        if is_serve d
        then tallied (same_text k id) p.overtaken (next (overtake k qs) g' s')
        else next qs g' s'

    unfoldable pub serves : List Step → List (Pending E) → Gate → S → ℕ × ℕ
    serves [] ps g s = (0, 0)
    serves (reads i ∷ l) ps g s =
        serves l (record { input = i; got = store.get i.user.id s; overtaken = false } ∷ ps) g s
    serves (goes_on n now ∷ l) ps g s = ended (serves l) now (take_out n ps) ps g s

abbrev pub AllWithin : ℕ → List Step → Type 0
AllWithin t [] = Unit
AllWithin t (reads i ∷ l) = AllWithin t l
AllWithin t (goes_on n now ∷ l) = (now < t) × AllWithin t l
