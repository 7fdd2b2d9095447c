-- ===== src/Budget/Restart.antt =====
-- What `New` accepts, and that a restart finds the meter as the last successful save left it.
use yaad_grove.Base.{ℕ, ◌≡◌, refl, ◌⊎◌, inl, inr, Option, none, some, arith, Result, ok, err}
use yaad_grove.Base.Int.{ℤ, pos, ◌<ℤ◌, ◌+ℤ◌}
use yaad_grove.Budget.{
  Config, Store, State, Meter, new, loaded, roll, record_tokens, memory_store, counted,
}

-- What a save without error promises: the next load finds the state.
pub record IsDurable {E S : Type 0} (store : Store E S) : Type 0 where
  pub load-save :
      (s : State) (d : S) → (store.save s d).0 ≡ none → store.load (store.save s d).1 ≡ ok (some s)

pub memory_store-IsDurable : {E : Type 0} → IsDurable (memory_store {E = E})
unfolding memory_store
memory_store-IsDurable = record { load-save = λ s d h. refl }

module _ {E S : Type 0} where
  abbrev pub Built : Config → S → ℕ → Result E (Option State) → Meter S → Type 0
  Built cfg disk now r m =
      ((st : State) × (r ≡ ok (some st))
        × (m ≡ record {
          ceiling = cfg.ceiling;
          period = cfg.period;
          start = st.period_start;
          spent = st.spent;
          disk = disk;
        }))
      ⊎ ((r ≡ ok none)
          × (m ≡ record {
            ceiling = cfg.ceiling;
            period = cfg.period;
            start = now;
            spent = pos 0;
            disk = disk;
          }))

  loaded-ok :
      (cfg : Config) (disk : S) (now : ℕ) (r : Result E (Option State)) (m : Meter S)
      → loaded cfg disk now r ≡ ok m
      → Built cfg disk now r m
  unfolding loaded
  loaded-ok cfg disk now (ok (some st)) m h = inl (st, refl, cc)
  loaded-ok cfg disk now (ok none) m h = inr (refl, cc)
  loaded-ok cfg disk now (err e) m h = cc

  new_guards :
      (cfg : Config) (s : Store E S) (disk : S) (now : ℕ) (m : Meter S)
      → new cfg (some s) disk now ≡ ok m
      → (pos 0 <ℤ cfg.ceiling) × (pos 0 <ℤ cfg.period) × (loaded cfg disk now (s.load disk) ≡ ok m)
  unfolding new
  new_guards cfg s disk now m h = ground arith

  -- A meter is built only with a positive ceiling, a positive period and a store; it has the settings
  -- given, and the state that the store holds, or a new period without spend where it holds none.
  pub new-ok :
      (cfg : Config) (store : Option (Store E S)) (disk : S) (now : ℕ) (m : Meter S)
      → new cfg store disk now ≡ ok m
      → (pos 0 <ℤ cfg.ceiling)
        × (pos 0 <ℤ cfg.period)
        × ((s : Store E S) × (store ≡ some s) × Built cfg disk now (s.load disk) m)
  unfolding new
  new-ok cfg none disk now m h = ground arith
  new-ok cfg (some s) disk now m h =
      let (c, p, l) = new_guards cfg s disk now m h in
      (c, p, (s, refl, loaded-ok cfg disk now (s.load disk) m l))

  roll_settings :
      (store : Store E S) (now : ℕ) (m : Meter S)
      → ((roll store now m).ceiling ≡ m.ceiling) × ((roll store now m).period ≡ m.period)
  unfolding roll
  roll_settings store now m = ground arith

  -- A restart with the same settings after a call whose usage was saved to a
  -- store that loads what it saved gives the same meter, the settings positive: the
  -- spend is not reset.
  pub new-record_tokens :
      (store : Store E S) (now later : ℕ) (tokens : ℤ) (m : Meter S)
      → IsDurable store
      → pos 0 <ℤ m.ceiling
      → pos 0 <ℤ m.period
      → (record_tokens store now tokens m).0 ≡ none
      → new
          (record { ceiling = m.ceiling; period = m.period })
          (some store)
          (record_tokens store now tokens m).1.disk
          later
        ≡ ok (record_tokens store now tokens m).1
  unfolding new record_tokens
  new-record_tokens store now later tokens m d c p saved =
      let m' = roll store now m in
      let reloaded =
        d.load-save (record { period_start = m'.start; spent = m'.spent +ℤ counted tokens }) m'.disk
          saved in
      rw (reloaded, loaded) (ground (arith, roll_settings store now m))
