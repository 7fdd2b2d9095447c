-- ===== src/Pending/Durable.antt =====
-- About the bbolt store of internal/pending/bolt.go beside the in-memory store.
use yaad_grove.Base.{
  one_of, ℕ, Bool, false, not, String, Option, none, some, List, [], ◌∷◌, Map, lookup, insert,
  delete, lookup-insert, lookup-delete, IsDistinct, insert-IsDistinct, delete-IsDistinct, subst,
  lookup-keep_values, filtered, if◌then◌else◌, ltb, same_text, same_text_iff, Result, ok, err, ◌≡◌,
  refl, sym, ap, ◌∙◌, arith, inl, inr, Bool-cases, Option-cases,
}
use yaad_grove.Base.Int.{later_by}
use yaad_grove.Core.{Action}
use yaad_grove.Pending.{
  Entry, Status, resolve_record, MemoryStore, put, resolve, resolve_found, write_back, sweep,
}
use yaad_grove.Pending.Bolt.{
  Codec, BoltStore, Resolution, put_bolt, resolve_bolt, resolve_stored, resolve_read, stale_keys,
  delete_all, sweep_bolt, is_stale, written_back,
}
use yaad_grove.Pending.SingleUse.{Op, puts, resolves, sweeps, step, sweep_loop-eq, sweep-IsDistinct}

-- What a call gives: a put's result, a click's action and status. A sweep gives only a count.
pub data Answer : Type 0 where
  given : Result String String → Answer
  pressed : Action → Status → Answer
  tidied : Answer

abbrev pub memory_answer : Op String → MemoryStore → Answer
memory_answer (puts t a now) s = given (put t a now s).0
memory_answer (resolves t now) s = let r = resolve t now s in pressed r.0 r.1
memory_answer (sweeps now) s = tidied

unfoldable pub memory_answers : List (Op String) → MemoryStore → List Answer
memory_answers [] s = []
memory_answers (o ∷ os) s = memory_answer o s ∷ memory_answers os (step o s)

module _ {Bytes : Type 0} (codec : Codec Bytes)
    (round_trip : (e : Entry) → codec.decode (codec.encode e) ≡ some e) where
  abbrev pub entry_in : Option Bytes → Option Entry
  entry_in none = none
  entry_in (some v) = codec.decode v

  -- The bucket holds the records of the in-memory store, and perhaps some that cannot be read.
  abbrev pub Holds : Map Bytes → Map Entry → Type 0
  Holds db m = (k : String) → entry_in (lookup k db) ≡ lookup k m

  insert-Holds :
      (db : Map Bytes) (m : Map Entry) (k : String) (e : Entry)
      → Holds db m
      → Holds (insert k (codec.encode e) db) (insert k e m)
  insert-Holds db m k e h j = elim (Bool-cases (same_text k j)) [
    | inl same ↦ rw (lookup-insert, lookup-insert, same) (round_trip e)
    | inr other ↦ rw (lookup-insert, lookup-insert, other) (h j)
  ]

  deleted :
      (ks : List String) (db : Map Bytes) (k : String)
      → lookup k (delete_all ks db) ≡ (if one_of ks k then none else lookup k db)
  unfolding delete_all
  deleted [] db k = refl
  deleted (x ∷ ks) db k = ground (arith, deleted ks (delete x db) k, lookup-delete x k db)

  abbrev stale_at : ℕ → Option Bytes → Bool
  stale_at now none = false
  stale_at now (some v) = is_stale now (codec.decode v)

  collected :
      (now : ℕ) (db : Map Bytes) (k : String)
      → IsDistinct db
      → one_of (stale_keys codec now db) k ≡ stale_at now (lookup k db)
  unfolding stale_keys lookup
  collected now [] k d = refl
  collected now ((j, v) ∷ db) k d =
      ground (arith, same_text_iff j k, collected now db k d.1, collected now db j d.1)

  delete_all-IsDistinct :
      (ks : List String) (db : Map Bytes) → IsDistinct db → IsDistinct (delete_all ks db)
  unfolding delete_all
  delete_all-IsDistinct [] db d = d
  delete_all-IsDistinct (k ∷ ks) db d =
      delete_all-IsDistinct ks (delete k db) (delete-IsDistinct k db d)

  kept_entry :
      (now : ℕ) (o : Option Bytes)
      → entry_in (if stale_at now o then none else o)
        ≡ filtered (λ r. not (ltb r.expires_at now)) (entry_in o)
  kept_entry now none = refl
  kept_entry now (some v) = elim (Option-cases (codec.decode v)) [
    | inl unread ↦ rw (unread) refl
    | inr (rec, e) ↦ elim (Bool-cases (ltb rec.expires_at now)) [
      | inl old ↦ rw (e, old) refl
      | inr young ↦ rw (e, young) e
    ]
  ]

  -- The two stores hold the same records, each key once.
  abbrev pub Alike : BoltStore Bytes → MemoryStore → Type 0
  Alike b s = (b.ttl ≡ s.ttl) × Holds b.db s.m × IsDistinct b.db × IsDistinct s.m

  abbrev pub bolt_step : Op String → BoltStore Bytes → Answer × BoltStore Bytes
  bolt_step (puts t a now) b = let r = put_bolt codec t a now none b in (given r.0, r.1)
  bolt_step (resolves t now) b =
      let r = resolve_bolt codec t now none b in (pressed r.0.action r.0.status, r.1)
  bolt_step (sweeps now) b = (tidied, (sweep_bolt codec now none b).1)

  abbrev Step-Alike : Op String → BoltStore Bytes → MemoryStore → Type 0
  Step-Alike o b s = ((bolt_step o b).0 ≡ memory_answer o s) × Alike (bolt_step o b).1 (step o s)

  put-Alike :
      (t : Result String String) (a : Action) (now : ℕ) (b : BoltStore Bytes) (s : MemoryStore)
      → Alike b s
      → Step-Alike (puts t a now) b s
  unfolding put put_bolt step
  put-Alike (err e) a now b s h = (refl, h)
  put-Alike (ok token) a now b s h =
      let rec : Entry = record { action = a; expires_at = later_by now s.ttl; consumed_at = 0 } in
      rw (h.0) (
        refl,
        (
          refl,
          insert-Holds b.db s.m token rec h.1,
          insert-IsDistinct token (codec.encode rec) b.db h.2,
          insert-IsDistinct token rec s.m h.3,
        ),
      )

  sweep-Alike :
      (now : ℕ) (b : BoltStore Bytes) (s : MemoryStore) → Alike b s → Step-Alike (sweeps now) b s
  unfolding sweep sweep_bolt step
  sweep-Alike now b s h =
      let p : Entry → Bool = λ r. not (ltb r.expires_at now) in
      let holds : Holds (sweep_bolt codec now none b).1.db (sweep now s).1.m = λ k.
        ap entry_in (
          deleted (stale_keys codec now b.db) b.db k
          ∙ ap (λ c. if c then none else lookup k b.db) (collected now b.db k h.2))
        ∙ kept_entry now (lookup k b.db)
        ∙ ap (filtered p) (h.1 k)
        ∙ sym (ap (lookup k) (sweep_loop-eq now s.m) ∙ lookup-keep_values p k s.m h.3) in
      (
        refl,
        (
          h.0,
          holds,
          delete_all-IsDistinct (stale_keys codec now b.db) b.db h.2,
          sweep-IsDistinct now s h.3,
        ),
      )

  write_back-Alike :
      (token : String) (u : Option Entry) (b : BoltStore Bytes) (s : MemoryStore)
      → Alike b s
      → Alike (record b { db = written_back codec token u b.db }) (write_back token u s)
  unfolding write_back
  write_back-Alike token none b s h = h
  write_back-Alike token (some rec) b s h = (
    h.0,
    insert-Holds b.db s.m token rec h.1,
    insert-IsDistinct token (codec.encode rec) b.db h.2,
    insert-IsDistinct token rec s.m h.3,
  )

  -- A click on what is found: both stores give the same, and stay alike.
  abbrev Pressed-Alike : Resolution × BoltStore Bytes → Action × Status × MemoryStore → Type 0
  Pressed-Alike r t = (pressed r.0.action r.0.status ≡ pressed t.0 t.1) × Alike r.1 t.2

  read-Alike :
      (token : String) (now : ℕ) (o : Option Entry) (b : BoltStore Bytes) (s : MemoryStore)
      → Alike b s
      → Pressed-Alike (resolve_read codec token now none o b) (resolve_found token now o s)
  unfolding resolve_found
  read-Alike token now none b s h = (refl, h)
  read-Alike token now (some rec) b s h =
      (refl, write_back-Alike token (resolve_record rec now).2 b s h)

  found-Alike :
      (token : String) (now : ℕ) (o : Option Bytes) (b : BoltStore Bytes) (s : MemoryStore)
      → Alike b s
      → Pressed-Alike
          (resolve_stored codec token now none o b)
          (resolve_found token now (entry_in o) s)
  unfolding resolve_found
  found-Alike token now none b s h = (refl, h)
  found-Alike token now (some v) b s h = read-Alike token now (codec.decode v) b s h

  resolve-Alike :
      (token : String) (now : ℕ) (b : BoltStore Bytes) (s : MemoryStore)
      → Alike b s
      → Step-Alike (resolves token now) b s
  unfolding resolve resolve_bolt step
  resolve-Alike token now b s h =
      subst (λ o. Pressed-Alike (resolve_bolt codec token now none b) (resolve_found token now o s))
        (h.1 token) (found-Alike token now (lookup token b.db) b s h)

  step-Alike :
      (o : Op String) (b : BoltStore Bytes) (s : MemoryStore) → Alike b s → Step-Alike o b s
  step-Alike (puts t a now) b s h = put-Alike t a now b s h
  step-Alike (resolves t now) b s h = resolve-Alike t now b s h
  step-Alike (sweeps now) b s h = sweep-Alike now b s h

  -- What the calls give, one after another.
  unfoldable pub bolt_answers : List (Op String) → BoltStore Bytes → List Answer
  bolt_answers [] b = []
  bolt_answers (o ∷ os) b = let r = bolt_step o b in r.0 ∷ bolt_answers os r.1

  -- From stores that hold the same records, any puts, clicks and sweeps give the same tokens, actions and
  -- statuses in the bbolt store as in memory, as long as its transactions succeed.
  pub bolt_answers-Alike :
      (os : List (Op String)) (b : BoltStore Bytes) (s : MemoryStore)
      → Alike b s
      → bolt_answers os b ≡ memory_answers os s
  unfolding bolt_answers memory_answers
  bolt_answers-Alike [] b s h = refl
  bolt_answers-Alike (o ∷ os) b s h =
      let (same, alike) = step-Alike o b s h in
      ap (λ x. x ∷ bolt_answers os (bolt_step o b).1) same
      ∙ ap (λ l. memory_answer o s ∷ l) (bolt_answers-Alike os (bolt_step o b).1 (step o s) alike)
