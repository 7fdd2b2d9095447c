-- ===== src/Budget/Tests.antt =====
-- Runs of the meter of budget.go over the in-memory store.
use yaad_grove.Base.{
  ℕ, ◌+◌, ◌<◌, ◌≡◌, refl, List, [], ◌∷◌, Option, none, some, arith, Result, ok, err,
}
use yaad_grove.Base.Int.{pos, ◌+ℤ◌, since}
use yaad_grove.Budget.{
  Config, Store, State, Meter, Usage, allow, record_tokens, roll, memory_store, chat, over_budget,
  used,
}
use yaad_grove.Budget.Bounds.{spend_bounded, here, next, admitted, completed}
use yaad_grove.Budget.Refusal.{IsCounting}

abbrev hourly : Config
hourly = record { ceiling = pos 100; period = pos 3600 }

abbrev store : Store ℕ (Option State)
store = memory_store

abbrev fresh_meter : Meter (Option State)
fresh_meter = record {
  ceiling = pos 100;
  period = pos 3600;
  start = 50;
  spent = pos 0;
  disk = none;
}

abbrev meter_at : ℕ → Meter (Option State)
meter_at s = record {
  ceiling = pos 100;
  period = pos 3600;
  start = 1000;
  spent = pos s;
  disk = none;
}

meter_at-IsCounting : (s : ℕ) → s < 1000 → IsCounting 100 3600 s (meter_at s)
meter_at-IsCounting s h = record {
  ceiling_eq = refl;
  ceiling_pos = omega arith;
  ceiling_fits = omega arith;
  period_eq = refl;
  period_pos = omega arith;
  period_fits = omega arith;
  spent_eq = refl;
  spent_fits = omega arith;
}

-- A model that answers every query with its number and 60 tokens.
abbrev model : ℕ → ℕ → Result ℕ (ℕ × Option Usage) × ℕ
model q w = (ok (q, some (record { input_tokens = pos 40; output_tokens = pos 20 })), w + 1)

third_refused : (chat store model 7 1002 1003 0 (meter_at 120)).0 ≡ err over_budget
unfolding chat allow roll since
third_refused = refl

spend_bounded_example :
    (t : ℕ) × ((record_tokens store 1002 (pos 60) (allow store 1001 (meter_at 90)).1).1.spent
      ≡ pos t)
    × (t < 160)
unfolding allow roll since
spend_bounded_example =
    spend_bounded store 1 60 100 90 (meter_at 90) (omega arith) refl refl (omega arith) (
      next (next here (admitted 1001 (omega arith) refl refl))
        (completed 1002 (pos 60) (omega arith) (omega arith) refl))

abbrev three_calls : List (ℕ × ℕ × ℕ)
three_calls = (1, 1001, 1002) ∷ (2, 1003, 1004) ∷ (3, 1005, 1006) ∷ []

model_small : (q w r : ℕ) (u : Option Usage) → (model q w).0 ≡ ok (r, u) → used u ≡ pos 60
unfolding used ◌+ℤ◌
model_small q w r u h = ground arith
