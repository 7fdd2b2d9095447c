-- ===== src/Pending.antt =====
-- internal/pending/pending.go: the callback token store and its in-memory variant. The clock and the
-- outcome of drawing a random token are arguments. `Bolt` is the store in a file.
pub mod SingleUse
pub mod Lifetime
pub mod Bolt
pub mod Durable
mod Tests
use yaad_grove.Base.{
  ℕ, ◌+◌, Bool, true, false, not, String, Option, none, some, List, [], ◌∷◌, Map, lookup, insert,
  delete, keep_values, if◌then◌else◌, ltb, ◌==◌, Result, ok, err,
}
use yaad_grove.Base.Int.{ℤ, later_by}
use yaad_grove.Core.{Action, no_action}

pub data Status : Type 0 where
  resolved expired consumed : Status

-- `consumed_at` is the zero time until the first resolve.
pub record Entry : Type 0 where
  pub action : Action
  pub expires_at : ℕ
  pub consumed_at : ℕ

-- `resolveRecord`
unfoldable pub resolve_record : Entry → ℕ → Action × Status × Option Entry
resolve_record rec now =
    if not (rec.consumed_at == 0)
    then (no_action, consumed, none)
    else if ltb rec.expires_at now
    then (no_action, expired, none)
    else (rec.action, resolved, some (record rec { consumed_at = now }))

pub record MemoryStore : Type 0 where
  pub m : Map Entry
  pub ttl : ℤ

pub new_memory_store : ℤ → MemoryStore
new_memory_store ttl = record { m = []; ttl = ttl }

module _ {E : Type 0} where
  unfoldable pub put : Result E String → Action → ℕ → MemoryStore → Result E String × MemoryStore
  put (err e) action now s = (err e, s)
  put (ok token) action now s = (
    ok token,
    record s {
      m =
          insert token
            (record { action = action; expires_at = later_by now s.ttl; consumed_at = 0 }) s.m;
    },
  )

pub write_back : String → Option Entry → MemoryStore → MemoryStore
write_back token none s = s
write_back token (some rec) s = record s { m = insert token rec s.m }

pub resolve_found : String → ℕ → Option Entry → MemoryStore → Action × Status × MemoryStore
unfolding resolve_record write_back
resolve_found token now none s = (no_action, expired, s)
resolve_found token now (some rec) s =
    let (action, status, updated) = resolve_record rec now in
    (action, status, write_back token updated s)

unfoldable pub resolve : String → ℕ → MemoryStore → Action × Status × MemoryStore
unfolding resolve_found
resolve token now s = resolve_found token now (lookup token s.m) s

-- The loop of `Sweep`: the entries left, and how many were dropped.
unfoldable pub sweep_loop : ℕ → Map Entry → Map Entry × ℕ
sweep_loop now [] = ([], 0)
sweep_loop now ((token, rec) ∷ rest) =
    let (kept, n) = sweep_loop now rest in
    if ltb rec.expires_at now then (kept, n + 1) else ((token, rec) ∷ kept, n)

unfoldable pub sweep : ℕ → MemoryStore → ℕ × MemoryStore
unfolding sweep_loop
sweep now s = let (kept, n) = sweep_loop now s.m in (n, record s { m = kept })
