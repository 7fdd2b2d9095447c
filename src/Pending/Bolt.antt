-- ===== src/Pending/Bolt.antt =====
-- internal/pending/bolt.go: the token store in a bbolt bucket, a map of values. `fault` is how the
-- transaction ends: bbolt applies all of its writes, or none and gives an error. encoding/json is an
-- argument, over the type of a value's bytes. The sweeper's ticker and goroutine are left out.
use yaad_grove.Base.{
  ℕ, Bool, true, String, Option, none, some, List, [], ◌∷◌, Map, lookup, insert, delete,
  if◌then◌else◌, ltb, length, Result, ok, err,
}
use yaad_grove.Base.Int.{ℤ, later_by}
use yaad_grove.Core.{Action, no_action}
use yaad_grove.Pending.{Entry, Status, expired, resolve_record}

-- json.Marshal of a record, and json.Unmarshal into one.
pub record Codec (Bytes : Type 0) : Type 0 where
  pub encode : Entry → Bytes
  pub decode : Bytes → Option Entry

-- `BoltStore`
pub record BoltStore (Bytes : Type 0) : Type 0 where
  pub db : Map Bytes
  pub ttl : ℤ

abbrev pub committed :
    {Bytes : Type 0} → Option String → Map Bytes → BoltStore Bytes → BoltStore Bytes
committed none db s = record s { db = db }
committed (some e) db s = s

-- What `Resolve` returns.
pub record Resolution : Type 0 where
  pub action : Action
  pub status : Status
  pub error : Option String

abbrev pub ended : Option String → Action → Status → Resolution
ended none action status = record { action = action; status = status; error = none }
ended (some e) action status = record { action = no_action; status = expired; error = some e }

abbrev pub put_result : Option String → String → Result String String
put_result none token = ok token
put_result (some e) token = err e

abbrev pub is_stale : ℕ → Option Entry → Bool
is_stale now none = true
is_stale now (some rec) = ltb rec.expires_at now

unfoldable pub delete_all : {Bytes : Type 0} → List String → Map Bytes → Map Bytes
delete_all [] db = db
delete_all (k ∷ ks) db = delete_all ks (delete k db)

abbrev pub swept : Option String → ℕ → Result String ℕ
swept none n = ok n
swept (some e) n = err e

module _ {Bytes : Type 0} (codec : Codec Bytes) where
  -- `Put`, given the drawn token.
  unfoldable pub put_bolt :
      Result String String
      → Action
      → ℕ
      → Option String
      → BoltStore Bytes
      → Result String String × BoltStore Bytes
  put_bolt (err e) action now fault s = (err e, s)
  put_bolt (ok token) action now fault s =
      let rec : Entry = record {
        action = action;
        expires_at = later_by now s.ttl;
        consumed_at = 0;
      } in
      (put_result fault token, committed fault (insert token (codec.encode rec) s.db) s)

  abbrev pub written_back : String → Option Entry → Map Bytes → Map Bytes
  written_back token none db = db
  written_back token (some rec) db = insert token (codec.encode rec) db

  abbrev pub resolve_read :
      String → ℕ → Option String → Option Entry → BoltStore Bytes → Resolution × BoltStore Bytes
  resolve_read token now fault none s = (ended (some "unmarshal record") no_action expired, s)
  resolve_read token now fault (some rec) s =
      let r = resolve_record rec now in
      (ended fault r.0 r.1, committed fault (written_back token r.2 s.db) s)

  abbrev pub resolve_stored :
      String → ℕ → Option String → Option Bytes → BoltStore Bytes → Resolution × BoltStore Bytes
  resolve_stored token now fault none s = (ended fault no_action expired, committed fault s.db s)
  resolve_stored token now fault (some v) s = resolve_read token now fault (codec.decode v) s

  -- `Resolve`
  unfoldable pub resolve_bolt :
      String → ℕ → Option String → BoltStore Bytes → Resolution × BoltStore Bytes
  unfolding resolve_record
  resolve_bolt token now fault s = resolve_stored token now fault (lookup token s.db) s

  -- The keys that `Sweep` collects: of expired records and of records that cannot be read.
  unfoldable pub stale_keys : ℕ → Map Bytes → List String
  stale_keys now [] = []
  stale_keys now ((k, v) ∷ db) =
      let rest = stale_keys now db in if is_stale now (codec.decode v) then k ∷ rest else rest

  -- `Sweep`
  unfoldable pub sweep_bolt :
      ℕ → Option String → BoltStore Bytes → Result String ℕ × BoltStore Bytes
  unfolding stale_keys delete_all
  sweep_bolt now fault s =
      let stale = stale_keys now s.db in
      (swept fault (length stale), committed fault (delete_all stale s.db) s)
