-- ===== src/Namespaces.antt =====
-- internal/namespaces/record.go: the durable record of the memory namespaces. A time is in nanoseconds
-- after the Unix epoch, and none is the zero time. `Durable` proves.
pub mod Durable
mod Tests
use yaad_grove.Base.{
  Bool, true, false, String, Option, none, some, List, [], ◌∷◌, Map, lookup, insert, delete, map, ℕ,
  Result, ok, err,
}
use yaad_grove.Base.Sort.{sort_by, text_le}

-- The value of a call that returns an error alone.
abbrev pub Done : Type 0
Done = Unit

-- `Record`; the path of its file is the disk's.
pub record NamespaceRecord : Type 0 where
  pub dropped : Map (Option ℕ)

-- `entry`
pub record Entry : Type 0 where
  pub dropped : Option ℕ

-- encoding/json, on `file`.
pub record Codec : Type 0 where
  pub marshal : Map Entry → String
  pub unmarshal : String → Option (Map Entry)

-- The record's file: missing, unreadable, or its contents.
pub data Disk : Type 0 where
  missing : Disk
  unreadable : Disk
  contents : String → Disk

-- Where a save fails, if it does: before the rename or after it.
pub data Fault : Type 0 where
  no_fault : Fault
  before_rename : Fault
  after_rename : Fault

pub data RecordError : Type 0 where
  read_failed : RecordError
  parse_failed : RecordError
  save_failed : RecordError

unfoldable pub from_entries : Map Entry → Map (Option ℕ)
from_entries [] = []
from_entries ((ns, e) ∷ m) = (ns, e.dropped) ∷ from_entries m

unfoldable pub to_entries : Map (Option ℕ) → Map Entry
to_entries [] = []
to_entries ((ns, t) ∷ m) = (ns, record { dropped = t }) ∷ to_entries m

-- What a call leaves: its result, the record and the file.
pub record After (A : Type 0) : Type 0 where
  pub result : Result RecordError A
  pub rec : NamespaceRecord
  pub disk : Disk

module _ (codec : Codec) where
  abbrev opened : Option (Map Entry) → Result RecordError NamespaceRecord
  opened none = err RecordError.parse_failed
  opened (some m) = ok (record { dropped = from_entries m })

  -- `Open`
  unfoldable pub open_record : Disk → Result RecordError NamespaceRecord
  unfolding from_entries
  open_record Disk.missing = ok (record { dropped = [] })
  open_record Disk.unreadable = err RecordError.read_failed
  open_record (Disk.contents s) = opened (codec.unmarshal s)

  -- `save`
  unfoldable pub save : Fault → NamespaceRecord → Disk → Result RecordError Done × Disk
  unfolding to_entries
  save Fault.no_fault r disk = (ok tt, Disk.contents (codec.marshal (to_entries r.dropped)))
  save Fault.before_rename r disk = (err RecordError.save_failed, disk)
  save Fault.after_rename r disk =
      (err RecordError.save_failed, Disk.contents (codec.marshal (to_entries r.dropped)))

  -- What the caller gets of a save, and the record when it fails.
  abbrev pub saved :
      {A : Type 0}
      → A
      → NamespaceRecord
      → NamespaceRecord
      → Result RecordError Done × Disk
      → After A
  saved a new old (ok u, disk) = record { result = ok a; rec = new; disk = disk }
  saved a new old (err e, disk) = record { result = err e; rec = old; disk = disk }

  unfoldable pub set_configured : List String → Map (Option ℕ) → Map (Option ℕ)
  set_configured [] m = m
  set_configured (ns ∷ rest) m = set_configured rest (insert ns none m)

  -- `Configured`; a save that fails leaves the change in memory.
  unfoldable pub configured : Fault → List String → NamespaceRecord → Disk → After Done
  unfolding save set_configured
  configured fault names r disk =
      let new : NamespaceRecord = record { dropped = set_configured names r.dropped } in
      saved tt new new (save fault new disk)

  abbrev pub newly_dropped : Fault → String → ℕ → NamespaceRecord → Disk → After ℕ
  newly_dropped fault ns now r disk =
      let new : NamespaceRecord = record { dropped = insert ns (some now) r.dropped } in
      saved now new (record { dropped = insert ns none r.dropped }) (save fault new disk)

  abbrev pub dropped_or : Option (Option ℕ) → After ℕ → NamespaceRecord → Disk → After ℕ
  dropped_or none next r disk = next
  dropped_or (some none) next r disk = next
  dropped_or (some (some t)) next r disk = record { result = ok t; rec = r; disk = disk }

  -- `Dropped`
  unfoldable pub dropped : Fault → String → ℕ → NamespaceRecord → Disk → After ℕ
  dropped fault ns now r disk =
      dropped_or (lookup ns r.dropped) (newly_dropped fault ns now r disk) r disk

  abbrev pub forgotten : Fault → String → Option (Option ℕ) → NamespaceRecord → Disk → After Done
  forgotten fault ns none r disk = record { result = ok tt; rec = r; disk = disk }
  forgotten fault ns (some t) r disk =
      let new : NamespaceRecord = record { dropped = delete ns r.dropped } in
      saved tt new (record { dropped = insert ns t new.dropped }) (save fault new disk)

  -- `Forget`
  unfoldable pub forget : Fault → String → NamespaceRecord → Disk → After Done
  forget fault ns r disk = forgotten fault ns (lookup ns r.dropped) r disk

keys_of : Map (Option ℕ) → List String
keys_of [] = []
keys_of ((ns, t) ∷ m) = ns ∷ keys_of m

-- `Namespaces`
unfoldable pub namespaces : NamespaceRecord → List String
unfolding keys_of
namespaces r = sort_by text_le (keys_of r.dropped)
