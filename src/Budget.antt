-- ===== src/Budget.antt =====
-- internal/budget/budget.go, the global spend ceiling, and internal/runtime/metered.go, which puts it
-- on the model-call path. The store is the interface `Store` of budget.go over a type `S` of what is
-- on disk; each reading of the clock is an argument.
pub mod Bounds
pub mod Refusal
pub mod Restart
mod Tests
use yaad_grove.Base.{ℕ, Bool, true, false, Option, none, some, if◌then◌else◌, Result, ok, err}
use yaad_grove.Base.Int.{ℤ, pos, ltb_ℤ, leb_ℤ, ◌+ℤ◌, ◌-ℤ◌, since}

pub record Config : Type 0 where
  pub ceiling : ℤ
  pub period : ℤ

-- The meter's persisted state.
pub record State : Type 0 where
  pub period_start : ℕ
  pub spent : ℤ

-- `load` finds nothing on the first run. `save` may fail, and says so.
pub record Store (E S : Type 0) : Type 0 where
  pub load : S → Result E (Option State)
  pub save : State → S → Option E × S

pub record Meter (S : Type 0) : Type 0 where
  pub ceiling : ℤ
  pub period : ℤ
  pub start : ℕ
  pub spent : ℤ
  pub disk : S

pub data NewError (E : Type 0) : Type 0 where
  no_ceiling no_period no_store : NewError E
  load_failed : E → NewError E

-- A negative count is treated as zero.
unfoldable pub counted : ℤ → ℤ
counted tokens = if ltb_ℤ tokens (pos 0) then pos 0 else tokens

module _ {E S : Type 0} where
  loaded : Config → S → ℕ → Result E (Option State) → Result (NewError E) (Meter S)
  loaded cfg disk now (err e) = err (load_failed e)
  loaded cfg disk now (ok (some st)) = ok (record {
    ceiling = cfg.ceiling;
    period = cfg.period;
    start = st.period_start;
    spent = st.spent;
    disk = disk;
  })
  loaded cfg disk now (ok none) = ok (record {
    ceiling = cfg.ceiling;
    period = cfg.period;
    start = now;
    spent = pos 0;
    disk = disk;
  })

  load_from : Config → S → ℕ → Option (Store E S) → Result (NewError E) (Meter S)
  unfolding loaded
  load_from cfg disk now none = err no_store
  load_from cfg disk now (some store) = loaded cfg disk now (store.load disk)

  pub new : Config → Option (Store E S) → S → ℕ → Result (NewError E) (Meter S)
  unfolding load_from
  new cfg store disk now =
      if leb_ℤ cfg.ceiling (pos 0)
      then err no_ceiling
      else if leb_ℤ cfg.period (pos 0)
      then err no_period
      else load_from cfg disk now store

  -- `rollLocked`: an error of this save is dropped.
  unfoldable pub roll : Store E S → ℕ → Meter S → Meter S
  roll store now m = if ltb_ℤ (since now m.start) m.period then m else record m {
    start = now;
    spent = pos 0;
    disk = (store.save (record { period_start = now; spent = pos 0 }) m.disk).1;
  }

  unfoldable pub allow : Store E S → ℕ → Meter S → Bool × Meter S
  allow store now m = let m' = roll store now m in (ltb_ℤ m'.spent m'.ceiling, m')

  -- `Record`
  unfoldable pub record_tokens : Store E S → ℕ → ℤ → Meter S → Option E × Meter S
  record_tokens store now tokens m =
      let m' = roll store now m in
      let spent' = m'.spent +ℤ counted tokens in
      let (failure, disk') =
        store.save (record { period_start = m'.start; spent = spent' }) m'.disk in
      (failure, record m' { spent = spent'; disk = disk' })

  pub remaining : Store E S → ℕ → Meter S → ℤ × Meter S
  remaining store now m =
      let m' = roll store now m in
      let r = m'.ceiling -ℤ m'.spent in (if ltb_ℤ (pos 0) r then r else pos 0, m')

pub record Usage : Type 0 where
  pub input_tokens : ℤ
  pub output_tokens : ℤ

pub data ChatError (E : Type 0) : Type 0 where
  over_budget : ChatError E
  call_failed : E → ChatError E

-- `resp.Usage` may be nil.
unfoldable pub used : Option Usage → ℤ
used none = pos 0
used (some u) = u.input_tokens +ℤ u.output_tokens

-- `meteredChat.Chat` around a model `inner` with a state `W` of its own. `before` and `after` are the
-- clock at the two uses of the meter.
module _ {E F S W Q R : Type 0} (store : Store E S)
    (inner : Q → W → Result F (R × Option Usage) × W) where
  pub chat_outcome :
      Result F (R × Option Usage) × W → ℕ → Meter S → Result (ChatError F) R × W × Meter S
  chat_outcome (err e, w) after m = (err (call_failed e), w, m)
  chat_outcome (ok (r, usage), w) after m = (ok r, w, (record_tokens store after (used usage) m).1)

  unfoldable pub chat : Q → ℕ → ℕ → W → Meter S → Result (ChatError F) R × W × Meter S
  unfolding chat_outcome
  chat q before after w m =
      let (allowed, m') = allow store before m in
      if allowed then chat_outcome (inner q w) after m' else (err over_budget, w, m')

-- budget.go `MemoryStore`.
pub memory_store : {E : Type 0} → Store E (Option State)
memory_store = record { load = λ d. ok d; save = λ st d. (none, some st) }
