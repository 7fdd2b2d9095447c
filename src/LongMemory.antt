-- ===== src/LongMemory.antt =====
-- internal/core/longmemory.go and internal/runtime/erase.go: which turns long-term memory keeps, and
-- the erasure of a user. The memory stores are a third-party library's: `D` is what they hold, and
-- their two operations are the fields of `Backend`. Decimal printing is a parameter.
pub mod Erasure
mod Tests
use yaad_grove.Base.{
  ℕ, ◌+◌, ◌-◌, ◌/◌, ◌%◌, ◌^◌, Bool, true, false, not, ◌||◌, String, Option, none, some, List, [],
  ◌∷◌, Map, lookup, insert, if◌then◌else◌, ◌==◌, same_text,
}
use yaad_grove.Base.Text.{◌<>◌}
use yaad_grove.Core.{Query}
use yaad_grove.Runtime.Services.{EraseResult}

pub data Kind : Type 0 where
  by_user by_model : Kind

-- A store is named by its namespace.
pub record Backend (E D : Type 0) : Type 0 where
  pub append : String → String → String → Kind → String → D → Option E × D
  pub delete_subject : String → String → D → Option E × D

-- `Memory`: the default namespace, those of the chats, the window in nanoseconds, and each user's
-- withdrawals.
pub record LongMemory : Type 0 where
  pub store : String
  pub groups : Map String
  pub window : ℕ
  pub withdrawn : Map ℕ

abbrev pub or_zero : Option ℕ → ℕ
or_zero none = 0
or_zero (some n) = n

-- `Withdrawals`
unfoldable pub withdrawals : String → LongMemory → ℕ
withdrawals user m = or_zero (lookup user m.withdrawn)

-- `Withdraw`; the count is a uint64.
unfoldable pub withdraw : String → LongMemory → LongMemory
unfolding withdrawals
withdraw user m = record m {
  withdrawn = insert user ((withdrawals user m + 1) % 2 ^ 64) m.withdrawn;
}

abbrev or_text : String → Option String → String
or_text s none = s
or_text s (some t) = t

-- `storeFor`
store_for : String → LongMemory → String
store_for chat m = or_text m.store (lookup chat m.groups)

-- `WindowStart`, for times from the epoch on.
unfoldable pub window_start : ℕ → ℕ → ℕ
window_start t w = t - t % w

-- `Session`, in seconds.
session : (ℕ → String) → String → String → ℕ → String
session decimal chat user start = chat <> "/" <> user <> "/" <> decimal (start / 1000000000)

pub record KeptTurn : Type 0 where
  pub store : String
  pub subject : String
  pub session : String
  pub withdrawn : ℕ

-- `use`
unfoldable pub use_memory : (ℕ → String) → Query → ℕ → LongMemory → Option KeptTurn
unfolding store_for window_start session
use_memory decimal q now m =
    if not q.remember || same_text q.user.id "" || same_text q.chat ""
    then none
    else some (record {
      store = store_for q.chat m;
      subject = q.user.id;
      session = session decimal q.chat q.user.id (window_start now m.window);
      withdrawn = q.withdrawals;
    })

pub data EraseError (E : Type 0) : Type 0 where
  no_store : EraseError E
  delete_failed : E → EraseError E

module _ {E D : Type 0} (b : Backend E D) where
  -- The answer, after the message went in.
  keep_answer : KeptTurn → String → Option E × D → D
  keep_answer t answer (some e, d) = d
  keep_answer t answer (none, d) = (b.append t.store t.subject t.session by_model answer d).1

  -- `keep`; a nil scrubber scrubs nothing.
  unfoldable pub keep : (String → String) → Option KeptTurn → String → String → LongMemory → D → D
  unfolding keep_answer withdrawals
  keep scrub none message answer m d = d
  keep scrub (some t) message answer m d =
      if not (withdrawals t.subject m == t.withdrawn)
      then d
      else keep_answer t (scrub answer)
          (b.append t.store t.subject t.session by_user (scrub message) d)

  abbrev pub failure : Option E → Option (EraseError E)
  failure none = none
  failure (some e) = some (delete_failed e)

  -- One namespace; `open_stores` are those with a store.
  unfoldable pub erase_in : List String → String → String → D → Option (EraseError E) × D
  erase_in [] user ns d = (some no_store, d)
  erase_in (n ∷ open_stores) user ns d =
      let rest = erase_in open_stores user ns d in
      if same_text n ns then (let (e, d') = b.delete_subject ns user d in (failure e, d')) else rest

  -- The loop of `Erase`, over the recorded namespaces. The turns of answers go on meanwhile: before the
  -- deletion in a namespace, `meanwhile` changes the stores.
  unfoldable pub erase_loop :
      (String → D → D)
      → List String
      → List String
      → String
      → D
      → List (EraseResult (EraseError E)) × D
  unfolding erase_in
  erase_loop meanwhile open_stores [] user d = ([], d)
  erase_loop meanwhile open_stores (ns ∷ names) user d =
      let (e, d') = erase_in open_stores user ns (meanwhile ns d) in
      let (rest, d'') = erase_loop meanwhile open_stores names user d' in
      (record { namespace = ns; error = e } ∷ rest, d'')

  -- `Erase`: the withdrawal first, and then the deletions, while what goes on finds the withdrawal counted.
  unfoldable pub erase :
      (LongMemory → String → D → D)
      → List String
      → List String
      → String
      → LongMemory
      → D
      → List (EraseResult (EraseError E)) × LongMemory × D
  unfolding withdraw erase_loop
  erase meanwhile open_stores names user m d =
      let m' = withdraw user m in
      let (results, d') = erase_loop (meanwhile m') open_stores names user d in (results, m', d')
