-- ===== src/Pending/Lifetime.antt =====
-- How long a token lives, and what a sweep changes.
use yaad_grove.Base.{
  ℕ, ◌+◌, ◌≤◌, ◌≡◌, refl, ◌≢◌, ◌↔◌, Bool, not, String, Option, none, some, List, [], ◌∷◌, Map,
  lookup, insert, lookup-insert, IsDistinct, insert-IsDistinct, keep-IsDistinct, lookup-keep_values,
  filtered, arith, ltb, ok, err, same_text_iff, same_text_refl, length, ap, inl, inr, Bool-cases,
  ◌==◌, if◌then◌else◌, ◌∙◌,
}
use yaad_grove.Base.Int.{later_by}
use yaad_grove.Core.{Action, no_action}
use yaad_grove.Pending.{
  Entry, resolved, expired, MemoryStore, put, resolve, resolve_found, sweep, sweep_loop,
}
use yaad_grove.Pending.SingleUse.{Op, puts, resolves, sweeps, step, run, sweep_loop-eq}

abbrev pub is_live : ℕ → Entry → Bool
is_live now r = not (ltb r.expires_at now)

lookup-sweep :
    (k : String) (now : ℕ) (s : MemoryStore)
    → IsDistinct s.m
    → lookup k (sweep now s).1.m ≡ filtered (is_live now) (lookup k s.m)
unfolding sweep
lookup-sweep k now s d =
    ap (lookup k) (sweep_loop-eq now s.m) ∙ lookup-keep_values (is_live now) k s.m d

sweep_loop-length :
    (now : ℕ) (m : Map Entry) → (sweep_loop now m).1 + length (sweep_loop now m).0 ≡ length m
unfolding sweep_loop
sweep_loop-length now [] = omega arith
sweep_loop-length now ((t, r) ∷ m) = ground (arith, sweep_loop-length now m)

-- A sweep drops a record exactly when its time to live has passed, tombstones too, keeps every other
-- as it is, and reports how many it dropped.
pub sweep_exact :
    (k : String) (now : ℕ) (s : MemoryStore)
    → IsDistinct s.m
    → (lookup k (sweep now s).1.m ≡ filtered (is_live now) (lookup k s.m))
      × ((sweep now s).0 + length (sweep now s).1.m ≡ length s.m)
unfolding sweep
sweep_exact k now s d = (lookup-sweep k now s d, sweep_loop-length now s.m)

resolve_found-filtered :
    (t : String) (now later : ℕ) (o : Option Entry) (s s' : MemoryStore)
    → now ≤ later
    → ((resolve_found t later (filtered (is_live now) o) s').0 ≡ (resolve_found t later o s).0)
      × (((resolve_found t later (filtered (is_live now) o) s').1 ≡ resolved)
          ↔ ((resolve_found t later o s).1 ≡ resolved))
unfolding resolve_found
resolve_found-filtered t now later none s s' h = (refl, (λ e. e, λ e. e))
resolve_found-filtered t now later (some r) s s' h = ground arith

-- Sweeping first does not change which action a later click resolves to, nor whether it resolves.
pub resolve-sweep :
    (t : String) (now later : ℕ) (s : MemoryStore)
    → IsDistinct s.m
    → now ≤ later
    → ((resolve t later (sweep now s).1).0 ≡ (resolve t later s).0)
      × (((resolve t later (sweep now s).1).1 ≡ resolved) ↔ ((resolve t later s).1 ≡ resolved))
unfolding resolve
resolve-sweep t now later s d h =
    rw (lookup-sweep t now s d)
      (resolve_found-filtered t now later (lookup t s.m) s (sweep now s).1 h)

module _ {E : Type 0} where
  -- No put draws the token, no click is on it, and no sweep comes after its time.
  abbrev pub LeavesAlone : String → ℕ → Op E → Type 0
  LeavesAlone t expiry (puts drawn a now) = drawn ≢ ok t
  LeavesAlone t expiry (resolves u now) = u ≢ t
  LeavesAlone t expiry (sweeps now) = now ≤ expiry

  abbrev pub AllLeaveAlone : String → ℕ → List (Op E) → Type 0
  AllLeaveAlone t expiry [] = Unit
  AllLeaveAlone t expiry (o ∷ os) = LeavesAlone t expiry o × AllLeaveAlone t expiry os

abbrev Holds : String → Entry → MemoryStore → Type 0
Holds t r s = IsDistinct s.m × (lookup t s.m ≡ some r)

insert-Holds :
    (t k : String) (r x : Entry) (s : MemoryStore) (m : Map Entry)
    → k ≢ t
    → Holds t r s
    → m ≡ insert k x s.m
    → IsDistinct m × (lookup t m ≡ some r)
insert-Holds t k r x s m other h e =
    rw e (
      insert-IsDistinct k x s.m h.0,
      ground (arith, lookup-insert k t x s.m, same_text_iff k t, h.1),
    )

resolve_found-Holds :
    (t u : String) (now : ℕ) (r : Entry) (o : Option Entry) (s : MemoryStore)
    → u ≢ t
    → Holds t r s
    → Holds t r (resolve_found u now o s).2
unfolding resolve_found
resolve_found-Holds t u now r none s other h = h
resolve_found-Holds t u now r (some x) s other h = elim (Bool-cases (not (x.consumed_at == 0))) [
  | inl used ↦ rw used h
  | inr fresh ↦ elim (Bool-cases (ltb x.expires_at now)) [
    | inl late ↦ rw (fresh, late) h
    | inr live ↦
        rw (fresh, live) (insert-Holds t u r (record x { consumed_at = now }) s _ other h refl)
  ]
]

module _ {E : Type 0} where
  step-Holds :
      (t : String) (r : Entry) (o : Op E) (s : MemoryStore)
      → LeavesAlone t r.expires_at o
      → Holds t r s
      → Holds t r (step o s)
  unfolding step put resolve
  step-Holds t r (puts (err e) a now) s other h = h
  step-Holds t r (puts (ok k) a now) s other h =
      insert-Holds t k r _ s _ (λ same. other (ap ok same)) h refl
  step-Holds t r (resolves u now) s other h = resolve_found-Holds t u now r (lookup u s.m) s other h
  step-Holds t r (sweeps now) s early h = (
    unfold sweep in rw (sweep_loop-eq now s.m) (keep-IsDistinct _ s.m h.0),
    rw (lookup-sweep t now s h.0, h.1) (ground arith),
  )

  run-Holds :
      (t : String) (r : Entry) (os : List (Op E)) (s : MemoryStore)
      → AllLeaveAlone t r.expires_at os
      → Holds t r s
      → Holds t r (run os s)
  unfolding run
  run-Holds t r [] s others h = h
  run-Holds t r (o ∷ os) s others h =
      run-Holds t r os (step o s) others.1 (step-Holds t r o s others.0 h)

  -- A button that was put, and left alone but for other puts, other clicks and sweeps within its time,
  -- gives its action to the click within its time to live and is expired from then on.
  pub button_lives :
      (t : String) (a : Action) (now later : ℕ) (os : List (Op E)) (s : MemoryStore)
      → IsDistinct s.m
      → AllLeaveAlone t (later_by now s.ttl) os
      → let r = resolve t later (run os (put {E = E} (ok t) a now s).1) in
        (r.0 ≡ (if ltb (later_by now s.ttl) later then no_action else a))
        × (r.1 ≡ (if ltb (later_by now s.ttl) later then expired else resolved))
  unfolding put resolve resolve_found
  button_lives t a now later os s d others =
      let r : Entry = record { action = a; expires_at = later_by now s.ttl; consumed_at = 0 } in
      let s' : MemoryStore = record s { m = insert t r s.m } in
      let start : Holds t r s' =
        (insert-IsDistinct t r s.m d, rw (lookup-insert t t r s.m, same_text_refl t)) in
      rw ((run-Holds t r os s' others start).1) (ground arith)
