-- ===== src/Pending/SingleUse.antt =====
-- A token resolves once, whatever happens in between.
use yaad_grove.Base.{
  ℕ, ◌<◌, ◌≡◌, refl, ◌≢◌, ◌⊎◌, inl, inr, Bool, not, String, Option, none, some, List, [], ◌∷◌, Map,
  lookup, insert, lookup-insert, keep_values, IsDistinct, insert-IsDistinct, keep-IsDistinct,
  lookup-keep_values, filtered, arith, ltb, Result, ok, err, same_text_iff, same_text_refl,
  Bool-cases, ◌==◌, ap,
}
use yaad_grove.Core.{Action}
use yaad_grove.Pending.{
  Entry, resolved, MemoryStore, put, resolve, resolve_found, sweep, sweep_loop,
}

-- What other users of the store do: a put with its drawn token, a click, a sweep.
pub data Op (E : Type 0) : Type 0 where
  puts : Result E String → Action → ℕ → Op E
  resolves : String → ℕ → Op E
  sweeps : ℕ → Op E

module _ {E : Type 0} where
  unfoldable pub step : Op E → MemoryStore → MemoryStore
  step (puts t a now) s = (put t a now s).1
  step (resolves t now) s = (resolve t now s).2
  step (sweeps now) s = (sweep now s).1

  unfoldable pub run : List (Op E) → MemoryStore → MemoryStore
  run [] s = s
  run (o ∷ os) s = run os (step o s)

  -- No put draws the token, and the clock never reads the zero time.
  abbrev pub IsOther : String → Op E → Type 0
  IsOther t (puts drawn a now) = drawn ≢ ok t
  IsOther t (resolves u now) = 0 < now
  IsOther t (sweeps now) = Unit

  abbrev pub AllOther : String → List (Op E) → Type 0
  AllOther t [] = Unit
  AllOther t (o ∷ os) = IsOther t o × AllOther t os

-- The sweep keeps what has not expired, in its order.
pub sweep_loop-eq :
    (now : ℕ) (m : Map Entry)
    → (sweep_loop now m).0 ≡ keep_values (λ r. not (ltb r.expires_at now)) m
unfolding sweep_loop
sweep_loop-eq now [] = refl
sweep_loop-eq now ((t, r) ∷ m) = ground (arith, sweep_loop-eq now m)

-- The token is unknown or tombstoned.
abbrev pub IsSpent : String → Map Entry → Type 0
IsSpent t m = (r : Entry) → lookup t m ≡ some r → 0 < r.consumed_at

insert-IsSpent :
    (t k : String) (r : Entry) (m : Map Entry)
    → ((k ≡ t) → 0 < r.consumed_at)
    → IsSpent t m
    → IsSpent t (insert k r m)
insert-IsSpent t k r m h spent x e =
    ground (arith, lookup-insert k t r m, same_text_iff k t, spent x)

filtered-some :
    (p : Entry → Bool) (o : Option Entry) (r : Entry) → filtered p o ≡ some r → o ≡ some r
filtered-some p none r h = cc
filtered-some p (some x) r h = ground arith

sweep-IsSpent :
    (t : String) (now : ℕ) (s : MemoryStore)
    → IsDistinct s.m
    → IsSpent t s.m
    → IsSpent t (sweep now s).1.m
unfolding sweep
sweep-IsSpent t now s d spent x e =
    let p : Entry → Bool = λ r. not (ltb r.expires_at now) in
    spent x (
      filtered-some p (lookup t s.m) x
        (cc (e, ap (lookup t) (sweep_loop-eq now s.m), lookup-keep_values p t s.m d)))

pub sweep-IsDistinct : (now : ℕ) (s : MemoryStore) → IsDistinct s.m → IsDistinct (sweep now s).1.m
unfolding sweep
sweep-IsDistinct now s d = rw (sweep_loop-eq now s.m) (keep-IsDistinct _ s.m d)

abbrev Keeps : String → MemoryStore → MemoryStore → Type 0
Keeps t s s' =
    (s' ≡ s) ⊎ ((u : String) × (r : Entry) × (s'.m ≡ insert u r s.m) × (0 < r.consumed_at))

resolve_found-Keeps :
    (t u : String) (now : ℕ) (o : Option Entry) (s : MemoryStore)
    → 0 < now
    → Keeps t s (resolve_found u now o s).2
unfolding resolve_found
resolve_found-Keeps t u now none s h = inl refl
resolve_found-Keeps t u now (some r) s h = elim (Bool-cases (not (r.consumed_at == 0))) [
  | inl used ↦ rw used (inl refl)
  | inr fresh ↦ elim (Bool-cases (ltb r.expires_at now)) [
    | inl late ↦ rw (fresh, late) (inl refl)
    | inr live ↦ rw (fresh, live) (inr (u, record r { consumed_at = now }, refl, h))
  ]
]

Keeps-IsSpent :
    (t : String) (s s' : MemoryStore)
    → Keeps t s s'
    → IsDistinct s.m × IsSpent t s.m
    → IsDistinct s'.m × IsSpent t s'.m
Keeps-IsSpent t s s' (inl e) h = rw e h
Keeps-IsSpent t s s' (inr (u, r, e, used)) h =
    rw e (insert-IsDistinct u r s.m h.0, insert-IsSpent t u r s.m (λ _. used) h.1)

Keeps-IsDistinct :
    (t : String) (s s' : MemoryStore) → Keeps t s s' → IsDistinct s.m → IsDistinct s'.m
Keeps-IsDistinct t s s' (inl e) d = rw e d
Keeps-IsDistinct t s s' (inr (u, r, e, used)) d = rw e (insert-IsDistinct u r s.m d)

resolve_found-spent :
    (t : String) (now : ℕ) (o : Option Entry) (s : MemoryStore)
    → ((r : Entry) → o ≡ some r → 0 < r.consumed_at)
    → (resolve_found t now o s).1 ≢ resolved
unfolding resolve_found
resolve_found-spent t now none s h = λ e. cc
resolve_found-spent t now (some r) s h = λ e. ground (arith, h r refl)

resolve_found-IsSpent :
    (t : String) (now : ℕ) (o : Option Entry) (s : MemoryStore)
    → 0 < now
    → (resolve_found t now o s).1 ≡ resolved
    → IsSpent t (resolve_found t now o s).2.m
unfolding resolve_found
resolve_found-IsSpent t now none s h e = λ x p. cc
resolve_found-IsSpent t now (some r) s h e =
    λ x p. ground (arith, lookup-insert t t (record r { consumed_at = now }) s.m, same_text_refl t)

module _ {E : Type 0} where
  step-keeps :
      (t : String) (o : Op E) (s : MemoryStore)
      → IsOther t o
      → IsDistinct s.m × IsSpent t s.m
      → IsDistinct (step o s).m × IsSpent t (step o s).m
  unfolding step put resolve
  step-keeps t (puts (err e) a now) s other h = h
  step-keeps t (puts (ok k) a now) s other h = (
    insert-IsDistinct k _ s.m h.0,
    insert-IsSpent t k _ s.m (λ same. absurd (other (ap ok same))) h.1,
  )
  step-keeps t (resolves u now) s other h =
      Keeps-IsSpent t s _ (resolve_found-Keeps t u now (lookup u s.m) s other) h
  step-keeps t (sweeps now) s other h = (sweep-IsDistinct now s h.0, sweep-IsSpent t now s h.0 h.1)

  run-keeps :
      (t : String) (os : List (Op E)) (s : MemoryStore)
      → AllOther t os
      → IsDistinct s.m × IsSpent t s.m
      → IsDistinct (run os s).m × IsSpent t (run os s).m
  unfolding run
  run-keeps t [] s others h = h
  run-keeps t (o ∷ os) s others h = run-keeps t os (step o s) others.1 (step-keeps t o s others.0 h)

  -- A token that has resolved does not resolve again: not after any puts that draw other tokens, any
  -- clicks, this token's included, and any sweeps. The clock is taken not to read the zero time.
  pub resolved_once :
      (t : String) (now later : ℕ) (os : List (Op E)) (s : MemoryStore)
      → 0 < now
      → IsDistinct s.m
      → AllOther t os
      → (resolve t now s).1 ≡ resolved
      → (resolve t later (run os (resolve t now s).2)).1 ≢ resolved
  unfolding resolve
  resolved_once t now later os s h d others e =
      let o = lookup t s.m in
      let s' = (resolve_found t now o s).2 in
      let first : IsDistinct s'.m × IsSpent t s'.m = (
        Keeps-IsDistinct t s s' (resolve_found-Keeps t t now o s h) d,
        resolve_found-IsSpent t now o s h e,
      ) in
      let after = run-keeps t os s' others first in
      resolve_found-spent t later (lookup t (run os s').m) (run os s') after.1
