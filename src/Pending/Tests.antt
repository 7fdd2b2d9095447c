-- ===== src/Pending/Tests.antt =====
-- Clicks on the buttons of pending.go.
use yaad_grove.Pending.Bolt.{Codec, BoltStore}
use yaad_grove.Pending.Durable.{entry_in, bolt_answers, memory_answers, bolt_answers-Alike}
use yaad_grove.Base.{
  Option, some, none, ℕ, ◌≡◌, refl, ◌≢◌, String, List, [], ◌∷◌, lookup, insert, arith, ok,
  same_text_iff, Result,
}
use yaad_grove.Base.Int.{pos}
use yaad_grove.Core.{Action}
use yaad_grove.Pending.{Entry, resolved, consumed, MemoryStore, new_memory_store, resolve}
use yaad_grove.Pending.SingleUse.{Op, puts, resolves, sweeps, run, resolved_once}

abbrev echo : Action
echo = record { verb = "echo"; params = []; label = "Echo" }

abbrev empty : MemoryStore
empty = record { m = []; ttl = pos 60 }

abbrev one_button : MemoryStore
one_button = record empty {
  m = ("t", record { action = echo; expires_at = 160; consumed_at = 0 }) ∷ [];
}

abbrev used_button : MemoryStore
used_button = record empty {
  m = ("t", record { action = echo; expires_at = 160; consumed_at = 120 }) ∷ [];
}

abbrev meanwhile : List (Op ℕ)
meanwhile = puts (ok "u") echo 110 ∷ resolves "u" 120 ∷ sweeps 130 ∷ []

t_ne_u : ◌≢◌ {A = String} "u" "t"
t_ne_u = ground (arith, same_text_iff "u" "t")

ok_ne : ◌≢◌ {A = Result ℕ String} (ok "u") (ok "t")
ok_ne e = ground (arith, t_ne_u)

empty_new : new_memory_store (pos 60) ≡ empty
unfolding new_memory_store
empty_new = refl

clicked : resolve "t" 120 one_button ≡ (echo, resolved, used_button)
unfolding resolve lookup insert
clicked = refl

replayed : (resolve "t" 120 used_button).1 ≡ consumed
unfolding resolve lookup insert
replayed = refl

resolved_once_example :
    (resolve "t" 140 (run meanwhile (resolve "t" 120 one_button).2)).1 ≢ resolved
resolved_once_example =
    resolved_once "t" 120 140 meanwhile one_button (omega arith) (unfold lookup in (refl, tt))
      (ok_ne, (omega arith, (tt, tt))) (unfold resolve lookup insert in refl)

-- A bucket whose values are the records.
abbrev as_it_is : Codec Entry
as_it_is = record { encode = λ e. e; decode = λ e. some e }

abbrev bucket : BoltStore Entry
bucket = record { db = one_button.m; ttl = pos 60 }

abbrev clicks : List (Op String)
clicks =
    resolves "t" 120
    ∷ puts (ok "u") echo 130
    ∷ resolves "t" 140
    ∷ sweeps 170
    ∷ resolves "u" 180
    ∷ []

same_entry : (o : Option Entry) → entry_in as_it_is (λ e. refl) o ≡ o
same_entry none = refl
same_entry (some e) = refl

bolt_answers-Alike_example :
    bolt_answers as_it_is (λ e. refl) clicks bucket ≡ memory_answers clicks one_button
unfolding lookup
bolt_answers-Alike_example =
    bolt_answers-Alike as_it_is (λ e. refl) clicks bucket one_button
      (refl, (λ k. same_entry (lookup k one_button.m)), (refl, tt), (refl, tt))
