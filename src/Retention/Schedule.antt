-- ===== src/Retention/Schedule.antt =====
-- `untilPurge`, `PurgeCut` and the loop of `RunPurge` of internal/runtime/purge.go.
use native.Mathlib.Nat.{div-add-mod', mul-le-mul_right}
use yaad_grove.Base.{
  ℕ, zero, suc, ◌+◌, ◌-◌, ◌*◌, ◌/◌, ◌≤◌, ◌<◌, ◌⊎◌, true, ltb, leb, Bool-cases, inl, inr, ◌≡◌, sym,
  subst, arith,
}
use yaad_grove.Base.Int.{pos, ltb_ℤ}
use yaad_grove.LongMemory.{window_start}
use yaad_grove.Retention.{purge_delay, until_purge, purge_cut, purge_time}

module _ (window : ℕ) (wide : 0 < window) where
  -- The start of a window is a whole number of windows.
  start_whole : (t : ℕ) → window_start t window ≡ (t / window) * window
  unfolding window_start
  start_whole t = omega (arith, div-add-mod' t window)

  start-near : (t : ℕ) → (window_start t window ≤ t) × (t < window_start t window + window)
  unfolding window_start
  start-near t = (omega arith, ground (arith, wide))

  -- The wait ends a delay after the next window boundary, within a window.
  pub until_purge-bounds :
      (t : ℕ)
      → purge_delay ≤ t
      → (0 < until_purge t window)
        × (until_purge t window ≤ window)
        × (t + until_purge t window ≡ window_start (t - purge_delay) window + window + purge_delay)
  unfolding until_purge
  until_purge-bounds t h =
      let near = start-near (t - purge_delay) in
      (
        omega (arith, near.0, near.1, h),
        omega (arith, near.0, near.1, h),
        omega (arith, near.0, near.1, h),
      )

  -- A window that starts before another ends by its start.
  whole_below : (a b : ℕ) → a * window < b * window → a * window + window ≤ b * window
  whole_below a b h = elim (Bool-cases (ltb a b)) [
    | inl less ↦
        let next : suc a ≤ b = ground (arith, less) in omega (arith, mul-le-mul_right window next)
    | inr more ↦
        let back : b ≤ a = ground (arith, more) in omega (arith, mul-le-mul_right window back, h)
  ]

  -- Of a window's start and a whole number of windows.
  start_below :
      (t b : ℕ) → window_start t window < b * window → window_start t window + window ≤ b * window
  start_below t b h =
      subst (λ x. x + window ≤ b * window) (sym (start_whole t))
        (whole_below (t / window) b (subst (λ x. x < b * window) (start_whole t) h))

  start_above : (t b : ℕ) → b * window ≤ t → b * window ≤ window_start t window
  start_above t b h = elim (Bool-cases (ltb (window_start t window) (b * window))) [
    | inl less ↦
        let below : window_start t window < b * window = ground (arith, less) in
        omega (arith, start_below t b below, start-near t, h)
    | inr more ↦ ground (arith, more)
  ]

  module _ (start : ℕ) (spent late : ℕ → ℕ) (begun : purge_delay ≤ start) where
    abbrev time : ℕ → ℕ
    time = purge_time window start spent late

    time_grows : (n : ℕ) → start + n ≤ time n
    unfolding purge_time
    time_grows zero = omega arith
    time_grows (suc n) =
        let ih = time_grows n in
        let wait = until_purge-bounds (time n + spent n) (omega (arith, ih, begun)) in
        omega (arith, ih, wait.0)

    -- The last round that begins before an instant, and the first at or after it.
    first_from :
        (at n : ℕ) → start < at → at ≤ time n → (k : ℕ) × (time k < at) × (at ≤ time (suc k))
    unfolding purge_time
    first_from at zero before reached = absurd (omega (arith, before, reached))
    first_from at (suc n) before reached = elim (Bool-cases (leb at (time n))) [
      | inl already ↦ first_from at n before (ground (arith, already))
      | inr yet ↦ (n, ground (arith, yet), reached)
    ]

    -- The next round begins a delay after a boundary that the round before begins before, unless that round
    -- runs on for longer than the delay; then it begins at most a window after the round's end.
    abbrev NextBy : ℕ → ℕ → Type 0
    NextBy boundary k =
        (time (suc k) ≤ boundary + purge_delay + late k)
        ⊎ ((purge_delay < spent k) × (time (suc k) ≤ boundary + window + spent k + late k))

    next_by : (b k : ℕ) → time k < b * window → NextBy (b * window) k
    unfolding purge_time
    next_by b k before =
        let read = time k + spent k in
        let grown = time_grows k in
        let wait = until_purge-bounds read (omega (arith, grown, begun)) in
        elim (Bool-cases (ltb (read - purge_delay) (b * window))) [
          | inl soon ↦
              let inside : read - purge_delay < b * window = ground (arith, soon) in
              let boundary =
                start_below (read - purge_delay) b
                  (omega (arith, start-near (read - purge_delay), inside)) in
              inl (omega (arith, wait.2, boundary))
          | inr long ↦
              let past : b * window ≤ read - purge_delay = ground (arith, long) in
              inr (omega (arith, past, before), omega (arith, wait.1, before))
        ]

    -- Retention is enforced: while the purges run, there is a round in which the cut is above the time of a
    -- record that had not expired when they started, at whatever moment of the round its namespace is
    -- purged. That round begins at most a window and a delay after the record expires, and by how much the
    -- timer is late; where the round before takes longer than the delay, at most two windows after
    -- the record expires, and what that round takes and by how much the timer is late.
    pub purge_time-enforces :
        (t retention : ℕ)
        → start ≤ t + retention
        → (k : ℕ) × ((x : ℕ) → ltb_ℤ (pos t) (purge_cut (time (suc k) + x) window retention) ≡ true)
          × ((time (suc k) ≤ t + retention + window + purge_delay + late k)
              ⊎ ((purge_delay < spent k)
                  × (time (suc k) ≤ t + retention + window + window + spent k + late k)))
    unfolding purge_cut
    purge_time-enforces t retention fresh =
        let from = (t + retention) / window in
        let whole = start_whole (t + retention) in
        let near = start-near (t + retention) in
        let bound : suc from * window ≡ window_start (t + retention) window + window =
          omega (arith, whole) in
        let (k, before, reached) =
          first_from (suc from * window) (suc from * window) (omega (arith, bound, near.1, fresh))
            (omega (arith, time_grows (suc from * window))) in
        (
          k,
          λ x.
              let above = start_above (time (suc k) + x) (suc from) (omega (arith, reached)) in
              ground (arith, above, bound, near.1),
          elim (next_by (suc from) k before) [
            | inl soon ↦ inl (omega (arith, soon, bound, near.0))
            | inr (long, by) ↦ inr (long, omega (arith, by, bound, near.0))
          ],
        )
