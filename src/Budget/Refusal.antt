-- ===== src/Budget/Refusal.antt =====
-- When the ceiling refuses a model call, and what a refused call leaves alone.
use yaad_grove.Base.{
  List, [], ◌∷◌, ℕ, ◌+◌, ◌-◌, ◌≤◌, ◌<◌, ◌≡◌, refl, ◌||◌, Option, arith, ltb, leb, if◌then◌else◌,
  Result, ok, err, Bool-cases, inl, inr,
}
use native.Mathlib.Decide.{dec_le}
use yaad_grove.Base.Int.{since, ◌-ℤ◌, ℤ, pos, ◌≤ℤ◌, half64, since_lt, -ℤ_pos, ltb_ℤ}
use yaad_grove.Budget.{
  Store, Meter, roll, allow, remaining, Usage, used, over_budget, chat, chat_outcome,
}
use yaad_grove.Budget.Bounds.{
  Gauge, Steps, admitted, refused, failed, completed, here, next, spend_bounded,
}

-- A meter whose settings passed `new` and whose spend has not wrapped around.
pub record IsCounting {S : Type 0} (c p s : ℕ) (m : Meter S) : Type 0 where
  pub ceiling_eq : m.ceiling ≡ pos c
  pub ceiling_pos : 0 < c
  pub ceiling_fits : c < half64
  pub period_eq : m.period ≡ pos p
  pub period_pos : 0 < p
  pub period_fits : p < half64
  pub spent_eq : m.spent ≡ pos s
  pub spent_fits : s < half64

module _ {E S : Type 0} (store : Store E S) where
  -- The roll happens exactly when the period has elapsed.
  elapsed :
      (c p s now : ℕ) (m : Meter S)
      → IsCounting c p s m
      → ltb_ℤ (since now m.start) m.period ≡ ltb now (m.start + p)
  elapsed c p s now m k = rw k.period_eq (since_lt now m.start p k.period_pos k.period_fits)

  roll_early :
      (c p s now : ℕ) (m : Meter S) → IsCounting c p s m → now < m.start + p → roll store now m ≡ m
  unfolding roll
  roll_early c p s now m k early = rw (elapsed c p s now m k) (ground arith)

  roll_late :
      (c p s now : ℕ) (m : Meter S)
      → IsCounting c p s m
      → m.start + p ≤ now
      → ((roll store now m).spent ≡ pos 0) × ((roll store now m).ceiling ≡ pos c)
  unfolding roll
  roll_late c p s now m k late = rw (elapsed c p s now m k) (ground (arith, k.ceiling_eq))

  within_budget :
      (c s : ℕ) {a b : ℤ}
      → a ≡ pos s
      → b ≡ pos c
      → c < half64
      → s < half64
      → (ltb_ℤ a b ≡ ltb s c) × ((if ltb_ℤ (pos 0) (b -ℤ a) then b -ℤ a else pos 0) ≡ pos (c - s))
  within_budget c s e f hc hs = rw (e, f, -ℤ_pos c s hc hs) (ground arith)

  -- Before the period has elapsed a call is allowed while the spend is below the ceiling, and from
  -- then on always. `remaining` is what is left of the ceiling, all of it once the period has
  -- elapsed. The settings are positive and the spend is a count, within an int64.
  pub allow-remaining_iff :
      (c p s now : ℕ) (m : Meter S)
      → IsCounting c p s m
      → ((allow store now m).0 ≡ (leb (m.start + p) now || ltb s c))
        × ((remaining store now m).0 ≡ pos (if leb (m.start + p) now then c else c - s))
  unfolding allow remaining
  allow-remaining_iff c p s now m k = elim (dec_le (m.start + p) now) [
    | yes late ↦
        let (spent_eq, ceiling_eq) = roll_late c p s now m k late in
        let b = within_budget c 0 spent_eq ceiling_eq k.ceiling_fits (omega arith) in
        ground (arith, b, k.ceiling_pos)
    | no early ↦
        let b = within_budget c s k.spent_eq k.ceiling_eq k.ceiling_fits k.spent_fits in
        rw (roll_early c p s now m k (omega arith)) (ground (arith, b))
  ]

  -- A refused call: within the period, with the ceiling reached, `chat` answers that the budget is
  -- spent, the model is not called, and the meter is as it was. The settings are positive and the
  -- spend is a count, within an int64.
  pub chat_over_budget :
      {F W Q R : Type 0} (inner : Q → W → Result F (R × Option Usage) × W) (c p s before after : ℕ)
      (q : Q) (w : W) (m : Meter S)
      → IsCounting c p s m
      → c ≤ s
      → before < m.start + p
      → chat store inner q before after w m ≡ (err over_budget, w, m)
  unfolding chat allow
  chat_over_budget inner c p s before after q w m k reached early =
      let b = within_budget c s k.spent_eq k.ceiling_eq k.ceiling_fits k.spent_fits in
      rw (roll_early c p s before m k early) (ground (arith, b))

  chat_outcome-Steps :
      {F W Q R : Type 0} (inner : Q → W → Result F (R × Option Usage) × W) (most after : ℕ)
      (o : Result F (R × Option Usage) × W) (m : Meter S) {g : Gauge S}
      → ((r : R) (u : Option Usage) → o.0 ≡ ok (r, u) → used u ≤ℤ pos most)
      → Steps store 1 most g (record { meter = m; in_flight = 1 })
      → Steps store 1 most g
          (record { meter = (chat_outcome store inner o after m).2; in_flight = 0 })
  unfolding chat_outcome
  chat_outcome-Steps inner most after (ok (r, u), w) m small begun =
      next begun (completed after (used u) (omega arith) (small r u refl) refl)
  chat_outcome-Steps inner most after (err e, w) m small begun =
      next begun (failed (omega arith) refl)

  -- One metered call is at most one call in flight.
  pub chat-Steps :
      {F W Q R : Type 0} (inner : Q → W → Result F (R × Option Usage) × W) (most before after : ℕ)
      (q : Q) (w : W) (m : Meter S)
      → ((r : R) (u : Option Usage) → (inner q w).0 ≡ ok (r, u) → used u ≤ℤ pos most)
      → Steps store 1 most
          (record { meter = m; in_flight = 0 })
          (record { meter = (chat store inner q before after w m).2; in_flight = 0 })
  unfolding chat
  chat-Steps inner most before after q w m small = elim (Bool-cases (allow store before m).0) [
    | inl allowed ↦ rw allowed (
        chat_outcome-Steps inner most after (inner q w) (allow store before m).1 small
          (next here (admitted before (omega arith) allowed refl)))
    | inr denied ↦ rw denied (next here (refused before denied refl))
  ]

  -- Calls one after the other, each with its two readings of the clock.
  pub chats :
      {F W Q R : Type 0} (inner : Q → W → Result F (R × Option Usage) × W)
      → List (Q × ℕ × ℕ)
      → W
      → Meter S
      → W × Meter S
  chats inner [] w m = (w, m)
  chats inner ((q, before, after) ∷ rest) w m =
      let (r, w', m') = chat store inner q before after w m in chats inner rest w' m'

  Steps-append :
      {n u : ℕ} {g h k : Gauge S} → Steps store n u g h → Steps store n u h k → Steps store n u g k
  Steps-append r here = r
  Steps-append r (next t st) = next (Steps-append r t) st

  chats-Steps :
      {F W Q R : Type 0} (inner : Q → W → Result F (R × Option Usage) × W) (most : ℕ)
      (calls : List (Q × ℕ × ℕ)) (w : W) (m : Meter S)
      → ((q : Q) (v : W) (r : R) (u : Option Usage)
          → (inner q v).0 ≡ ok (r, u)
          → used u ≤ℤ pos most)
      → Steps store 1 most
          (record { meter = m; in_flight = 0 })
          (record { meter = (chats inner calls w m).1; in_flight = 0 })
  unfolding chats
  chats-Steps inner most [] w m small = here
  chats-Steps inner most ((q, before, after) ∷ rest) w m small =
      let (r, w', m') = chat store inner q before after w m in
      Steps-append (chat-Steps inner most before after q w m (small q w))
        (chats-Steps inner most rest w' m' small)

  -- Metered calls that come one after the other, each of at most `most` tokens, keep the spend below
  -- the ceiling and one call more. They start below the ceiling, and the sum fits an int64.
  pub chats_bounded :
      {F W Q R : Type 0} (inner : Q → W → Result F (R × Option Usage) × W) (c s most : ℕ)
      (calls : List (Q × ℕ × ℕ)) (w : W) (m : Meter S)
      → c + most < half64
      → m.ceiling ≡ pos c
      → m.spent ≡ pos s
      → s < c
      → ((q : Q) (v : W) (r : R) (u : Option Usage)
          → (inner q v).0 ≡ ok (r, u)
          → used u ≤ℤ pos most)
      → (t : ℕ) × ((chats inner calls w m).1.spent ≡ pos t) × (t < c + most)
  chats_bounded inner c s most calls w m fits c_eq s_eq below small =
      let (t, t_eq, t_lt) =
        spend_bounded store 1 most c s m (omega arith) c_eq s_eq below
          (chats-Steps inner most calls w m small) in
      (t, t_eq, omega arith)
