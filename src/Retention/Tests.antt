-- ===== src/Retention/Tests.antt =====
-- A window of an hour and a retention of a day.
use yaad_grove.Base.{
  All, keep, not, Bool, Bool-cases, inl, inr, lookup, insert, delete, ℕ, ◌+◌, ◌≤◌, ◌<◌, ◌⊎◌, ◌*◌,
  Option, none, some, List, [], ◌∷◌, true, ◌≡◌, refl, arith,
}
use yaad_grove.Base.Int.{ℤ, pos, ltb_ℤ}
use yaad_grove.Namespaces.{NamespaceRecord, Codec, Disk, Fault, dropped, forget, save}
use yaad_grove.Retention.Lives.{Deletes, Lives, in_store}
use yaad_grove.Retention.Forgotten.{purge-forgets}
use yaad_grove.Retention.{
  NamespacePurge, Kept, purge, purge_delay, until_purge, purge_cut, purge_time,
}
use yaad_grove.Retention.Schedule.{purge_time-enforces}

abbrev minute : ℕ
minute = 60000000000

abbrev hour : ℕ
hour = 60 * minute

wait : until_purge (7 * hour + 5 * minute) hour ≡ 56 * minute
unfolding until_purge
wait = refl

-- A round takes two minutes, and the timer is on time.
abbrev two_minutes : ℕ → ℕ
two_minutes n = 2 * minute

abbrev on_time : ℕ → ℕ
on_time n = 0

abbrev rounds : ℕ → ℕ
rounds = purge_time hour (7 * hour + 5 * minute) two_minutes on_time

purge_time-enforces_example :
    (k : ℕ) × ((x : ℕ)
      → ltb_ℤ (pos (5 * hour)) (purge_cut (rounds (ℕ.suc k) + x) hour (24 * hour)) ≡ true)
    × ((rounds (ℕ.suc k) ≤ 5 * hour + 24 * hour + hour + purge_delay + on_time k)
        ⊎ ((purge_delay < two_minutes k)
            × (rounds (ℕ.suc k) ≤ 5 * hour + 24 * hour + hour + hour + two_minutes k + on_time k)))
purge_time-enforces_example =
    purge_time-enforces hour (omega arith) (7 * hour + 5 * minute) two_minutes on_time (omega arith)
      (5 * hour) (24 * hour) (omega arith)

-- A backend that never fails.
abbrev delete_times : ℤ → List ℕ → Option ℕ × List ℕ
delete_times cut l = (none, keep (λ t. not (ltb_ℤ (pos t) cut)) l)

All-keep : (P : ℕ → Type 0) (p : ℕ → Bool) (l : List ℕ) → All P l → All P (keep p l)
All-keep P p [] h = tt
All-keep P p (x ∷ l) h = elim (Bool-cases (p x)) [
  | inl has ↦ rw has (h.0, All-keep P p l h.1)
  | inr lacks ↦ rw lacks (All-keep P p l h.1)
]

delete_times-Deletes : Deletes delete_times
delete_times-Deletes = record {
  deletes = λ cut l h. refl;
  adds_none = λ cut l P h. All-keep P (λ t. not (ltb_ℤ (pos t) cut)) l h;
}

abbrev text_codec : Codec
text_codec = record { marshal = λ m. ""; unmarshal = λ s. none }

abbrev first_record : NamespaceRecord
first_record = record { dropped = ("old", none) ∷ [] }

abbrev purger : NamespacePurge ℕ (List ℕ)
purger = record {
  namespace = "old";
  delete_before = delete_times;
  retention = 24 * hour;
  window = hour;
  dropped = some 1;
}

-- A record is kept, the namespace is dropped, and two days pass.
abbrev old_state : Kept (List ℕ)
old_state = in_store (0 ∷ []) (dropped text_codec Fault.no_fault "old" 1 first_record Disk.missing)

old-Lives : Lives ℕ text_codec "old" (48 * hour) old_state
unfolding lookup
old-Lives = Lives.waits (48 * hour) (omega arith) (
    Lives.drops Fault.no_fault "old"
      (Lives.keeps refl (Lives.born {r = first_record} {disk = Disk.missing})))

purge-forgets_example : (purge text_codec purger Fault.no_fault (48 * hour) old_state).1.store ≡ []
unfolding purge dropped save lookup insert forget delete purge_cut
purge-forgets_example =
    purge-forgets text_codec "old" Fault.no_fault purger delete_times-Deletes refl old-Lives refl
