-- ===== src/Budget/Bounds.antt =====
-- How far the spend of a period can pass the ceiling, with calls in flight at the same time.
use mathlib.Core.Path.{subst₂}
use yaad_grove.Base.{
  zero, suc, ◌∙◌, ℕ, ◌+◌, ◌*◌, ◌-◌, ◌≤◌, ◌<◌, ◌≡◌, ◌⊎◌, inl, inr, true, false, arith,
}
use yaad_grove.Base.Int.{ℤ, pos, negsuc, ◌≤ℤ◌, half64, +ℤ_pos, ltb_ℤ}
use yaad_grove.Budget.{Store, Meter, roll, allow, record_tokens, counted}

-- The meter with the number of model calls that passed `allow` and have not finished.
pub record Gauge (S : Type 0) : Type 0 where
  pub meter : Meter S
  pub in_flight : ℕ

module _ {E S : Type 0} (store : Store E S) (callers most : ℕ) where
  -- At most `callers` calls are in flight at once and a call uses at most `most` tokens.
  pub data Step (g : Gauge S) (h : Gauge S) : Type 0 where
    admitted :
        (now : ℕ)
        → g.in_flight < callers
        → (allow store now g.meter).0 ≡ true
        → h ≡ record { meter = (allow store now g.meter).1; in_flight = g.in_flight + 1 }
        → Step g h
    refused :
        (now : ℕ)
        → (allow store now g.meter).0 ≡ false
        → h ≡ record g { meter = (allow store now g.meter).1 }
        → Step g h
    failed : 0 < g.in_flight → h ≡ record g { in_flight = g.in_flight - 1 } → Step g h
    completed :
        (now : ℕ) (tokens : ℤ)
        → 0 < g.in_flight
        → tokens ≤ℤ pos most
        → h ≡ record {
          meter = (record_tokens store now tokens g.meter).1;
          in_flight = g.in_flight - 1;
        }
        → Step g h

  pub data Steps (g : Gauge S) : Gauge S → Type 0 where
    here : Steps g g
    next : {h k : Gauge S} → Steps g h → Step h k → Steps g k

  -- What is spent and what the calls in flight may still add.
  pub record IsWithin (c : ℕ) (g : Gauge S) : Type 0 where
    pub spent : ℕ
    pub spent_eq : g.meter.spent ≡ pos spent
    pub ceiling_eq : g.meter.ceiling ≡ pos c
    pub bound : spent + g.in_flight * most < c + callers * most

ltb_ℤ→lt : (t c : ℕ) {a b : ℤ} → a ≡ pos t → b ≡ pos c → ltb_ℤ a b ≡ true → t < c
ltb_ℤ→lt t c p q h =
    let h' : ltb_ℤ (pos t) (pos c) ≡ true = subst₂ (λ x y. ltb_ℤ x y ≡ true) p q h in ground arith

fits_one_more : (f n u t c : ℕ) → f < n → t < c → t + (f + 1) * u < c + n * u
fits_one_more f n u t c room below = grind arith

one_less : (f u : ℕ) → 0 < f → (f - 1) * u + u ≡ f * u
one_less zero u h = absurd (omega arith)
one_less (suc f) u h = grind arith

counted_lem :
    (most : ℕ) (tokens : ℤ) → tokens ≤ℤ pos most → (k : ℕ) × (counted tokens ≡ pos k) × (k ≤ most)
unfolding counted
counted_lem most (pos n) h = (n, ground arith, omega arith)
counted_lem most (negsuc n) h = (0, ground arith, omega arith)

module _ {E S : Type 0} (store : Store E S) where
  -- A roll leaves the ceiling, and the spend as it was or at 0.
  roll_lem :
      (now : ℕ) (m : Meter S)
      → ((roll store now m).ceiling ≡ m.ceiling)
        × (((roll store now m).spent ≡ m.spent) ⊎ ((roll store now m).spent ≡ pos 0))
  unfolding roll
  roll_lem now m = ground arith

  -- A completed call adds at most `most` tokens to the spend.
  record_tokens_lem :
      (now s most : ℕ) (tokens : ℤ) (m : Meter S)
      → m.spent ≡ pos s
      → tokens ≤ℤ pos most
      → s + most < half64
      → (t : ℕ) × ((record_tokens store now tokens m).1.spent ≡ pos t)
        × ((record_tokens store now tokens m).1.ceiling ≡ m.ceiling)
        × (t ≤ s + most)
  unfolding record_tokens
  record_tokens_lem now s most tokens m e u h =
      let (k, counted_eq, k_le) = counted_lem most tokens u in
      elim (roll_lem now m).1 [
        | inl kept ↦ (
          s + k,
          cc (kept, e, counted_eq, +ℤ_pos s k (omega arith)),
          (roll_lem now m).0,
          omega arith,
        )
        | inr reset ↦ (
          0 + k,
          cc (reset, counted_eq, +ℤ_pos 0 k (omega arith)),
          (roll_lem now m).0,
          omega arith,
        )
      ]

  rolled :
      (now s : ℕ) (m : Meter S)
      → m.spent ≡ pos s
      → (t : ℕ) × ((roll store now m).spent ≡ pos t) × (t ≤ s)
  rolled now s m e = elim (roll_lem now m).1 [
    | inl kept ↦ (s, kept ∙ e, omega arith)
    | inr reset ↦ (0, reset, omega arith)
  ]

  -- A step keeps what is spent, and what the calls in flight may add, within the bound.
  Step-IsWithin :
      (callers most c : ℕ) {g h : Gauge S}
      → c + callers * most < half64
      → Step store callers most g h
      → IsWithin store callers most c g
      → IsWithin store callers most c h
  unfolding allow
  Step-IsWithin callers most c {g} fits (admitted now room allowed e) w =
      let (t, t_eq, t_le) = rolled now w.spent g.meter w.spent_eq in
      let c_eq = (roll_lem now g.meter).0 ∙ w.ceiling_eq in
      let below = ltb_ℤ→lt t c t_eq c_eq allowed in
      rw e (record {
        spent = t;
        spent_eq = t_eq;
        ceiling_eq = c_eq;
        bound = fits_one_more g.in_flight callers most t c room below;
      })
  Step-IsWithin callers most c {g} fits (refused now denied e) w =
      let (t, t_eq, t_le) = rolled now w.spent g.meter w.spent_eq in
      rw e (record {
        spent = t;
        spent_eq = t_eq;
        ceiling_eq = (roll_lem now g.meter).0 ∙ w.ceiling_eq;
        bound = omega (arith, w.bound);
      })
  Step-IsWithin callers most c {g} fits (failed busy e) w = rw e (record {
    spent = w.spent;
    spent_eq = w.spent_eq;
    ceiling_eq = w.ceiling_eq;
    bound = omega (arith, w.bound, one_less g.in_flight most busy);
  })
  Step-IsWithin callers most c {g} fits (completed now tokens busy small e) w =
      let room : w.spent + most < half64 = omega (arith, w.bound, one_less g.in_flight most busy) in
      let (t, t_eq, c_eq, t_le) =
        record_tokens_lem now w.spent most tokens g.meter w.spent_eq small room in
      rw e (record {
        spent = t;
        spent_eq = t_eq;
        ceiling_eq = c_eq ∙ w.ceiling_eq;
        bound = omega (arith, w.bound, one_less g.in_flight most busy);
      })

  Steps-IsWithin :
      (callers most c : ℕ) {g h : Gauge S}
      → c + callers * most < half64
      → Steps store callers most g h
      → IsWithin store callers most c g
      → IsWithin store callers most c h
  Steps-IsWithin callers most c fits here w = w
  Steps-IsWithin callers most c fits (next r st) w =
      Step-IsWithin callers most c fits st (Steps-IsWithin callers most c fits r w)

  -- A meter with ceiling `c` starts below it with no call in flight. Whatever then happens, with at
  -- most `callers` calls in flight at once that use at most `most` tokens each, and with any clock and
  -- any failing saves, the spend of the period is a count below `c + callers * most`: the ceiling is
  -- passed by no more than the calls in flight. The sum is taken to fit an int64.
  pub spend_bounded :
      (callers most c s : ℕ) (m : Meter S) {h : Gauge S}
      → c + callers * most < half64
      → m.ceiling ≡ pos c
      → m.spent ≡ pos s
      → s < c
      → Steps store callers most (record { meter = m; in_flight = 0 }) h
      → (t : ℕ) × (h.meter.spent ≡ pos t) × (t < c + callers * most)
  spend_bounded callers most c s m {h} fits c_eq s_eq below steps =
      let w =
        Steps-IsWithin callers most c fits steps
          (record { spent = s; spent_eq = s_eq; ceiling_eq = c_eq; bound = omega arith }) in
      (w.spent, w.spent_eq, omega (arith, w.bound))
