-- ===== src/Retention.antt =====
-- internal/runtime/purge.go: the retention purge. Times are in nanoseconds after the Unix epoch.
-- `Schedule` says when purges run, `Lives` and `Forgotten` what a purge forgets.
pub mod Schedule
pub mod Lives
pub mod Forgotten
mod Tests
use yaad_grove.Base.{
  zero, suc, Bool, true, false, not, ◌&&◌, ◌||◌, String, Option, none, some, List, [], ◌∷◌, ℕ, ◌+◌,
  ◌-◌, Result, ok, err, if◌then◌else◌,
}
use yaad_grove.Base.Int.{ℤ, pos, sub_ℕ, ltb_ℤ}
use yaad_grove.LongMemory.{window_start}
use yaad_grove.Namespaces.{NamespaceRecord, Codec, Disk, Done, Fault, RecordError, After, forget}

-- A minute.
abbrev pub purge_delay : ℕ
purge_delay = 60000000000

-- `untilPurge`
unfoldable pub until_purge : ℕ → ℕ → ℕ
unfolding window_start
until_purge t window = window_start (t - purge_delay) window + (window + purge_delay) - t

-- `PurgeCut`
unfoldable pub purge_cut : ℕ → ℕ → ℕ → ℤ
unfolding window_start
purge_cut now window retention = sub_ℕ (window_start now window) retention

-- `NamespacePurge`, its record and clock apart.
pub record NamespacePurge (E D : Type 0) : Type 0 where
  pub namespace : String
  pub delete_before : ℤ → D → Option E × D
  pub retention : ℕ
  pub window : ℕ
  pub dropped : Option ℕ

pub data PurgeError (E : Type 0) : Type 0 where
  delete_failed : E → PurgeError E
  forget_failed : RecordError → PurgeError E

-- What a purge changes.
pub record Kept (D : Type 0) : Type 0 where
  pub store : D
  pub rec : NamespaceRecord
  pub disk : Disk

-- p.Dropped.IsZero() || cut.Before(p.Dropped)
abbrev pub still_held : Option ℕ → ℤ → Bool
still_held none cut = true
still_held (some t) cut = ltb_ℤ cut (pos t)

abbrev pub purge_result : {E : Type 0} → Result RecordError Done → Result (PurgeError E) Done
purge_result (ok u) = ok tt
purge_result (err e) = err (PurgeError.forget_failed e)

module _ {E D : Type 0} (codec : Codec) where
  abbrev pub forget_in :
      Fault → String → D → NamespaceRecord → Disk → Result (PurgeError E) Done × Kept D
  forget_in fault ns store r disk =
      let a = forget codec fault ns r disk in
      (purge_result a.result, record { store = store; rec = a.rec; disk = a.disk })

  abbrev pub purged_at :
      NamespacePurge E D → Fault → ℤ → Option E × D → Kept D → Result (PurgeError E) Done × Kept D
  purged_at p fault cut (some e, store) k =
      (err (PurgeError.delete_failed e), record k { store = store })
  purged_at p fault cut (none, store) k =
      if still_held p.dropped cut
      then (ok tt, record k { store = store })
      else forget_in fault p.namespace store k.rec k.disk

  -- `Purge`
  unfoldable pub purge :
      NamespacePurge E D → Fault → ℕ → Kept D → Result (PurgeError E) Done × Kept D
  unfolding purge_cut
  purge p fault now k =
      let cut = purge_cut now p.window p.retention in
      purged_at p fault cut (p.delete_before cut k.store) k

-- The times at which the rounds of `RunPurge` begin, the first at `start`. The n-th round takes `spent n`;
-- the clock is read after it, and the timer fires `late n` after the wait from there.
unfoldable pub purge_time : ℕ → ℕ → (ℕ → ℕ) → (ℕ → ℕ) → ℕ → ℕ
purge_time window start spent late zero = start
purge_time window start spent late (suc n) =
    let read = purge_time window start spent late n + spent n in
    read + until_purge read window + late n
