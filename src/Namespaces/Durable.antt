-- ===== src/Namespaces/Durable.antt =====
-- The calls of internal/namespaces/record.go and the file that they write.
use yaad_grove.Base.{
  Bool, true, false, String, Option, none, some, List, [], ◌∷◌, Map, lookup, insert, delete,
  lookup-insert, All, ℕ, Result, ok, err, same_text_iff, ◌≡◌, refl, sym, ap, subst, ◌∙◌, arith,
}
use yaad_grove.Namespaces.{
  NamespaceRecord, Codec, Disk, Fault, RecordError, After, Done, from_entries, to_entries, opened,
  open_record, save, saved, set_configured, configured, newly_dropped, dropped_or, dropped,
  forgotten, forget,
}

-- encoding/json reads back what it wrote.
pub record IsCodec (codec : Codec) : Type 0 where
  pub reads : (m : _) → codec.unmarshal (codec.marshal m) ≡ some m

-- The calls that change the record.
pub data Call : Type 0 where
  configuring : List String → Call
  dropping : String → ℕ → Call
  forgetting : String → Call

abbrev pub succeeds {ℓ} : {E : Type 0} {A : Type ℓ} → Result E A → Bool
succeeds (ok a) = true
succeeds (err e) = false

module _ (codec : Codec) where
  abbrev left : {A : Type 0} → After A → Bool × NamespaceRecord × Disk
  left a = (succeeds a.result, a.rec, a.disk)

  -- Whether a call succeeds, and the record and the file that it leaves.
  unfoldable pub run_call : Fault → Call → NamespaceRecord → Disk → Bool × NamespaceRecord × Disk
  unfolding configured dropped forget
  run_call fault (Call.configuring names) r disk = left (configured codec fault names r disk)
  run_call fault (Call.dropping ns now) r disk = left (dropped codec fault ns now r disk)
  run_call fault (Call.forgetting ns) r disk = left (forget codec fault ns r disk)

  -- The records and files that calls lead to from opening a file, as long as they succeed.
  pub data Reaches : NamespaceRecord → Disk → Type 0 where
    opens : {r : NamespaceRecord} {disk : Disk} → open_record codec disk ≡ ok r → Reaches r disk
    calls :
        {r : NamespaceRecord} {disk : Disk} (fault : Fault) (c : Call)
        → Reaches r disk
        → (run_call fault c r disk).0 ≡ true
        → Reaches (run_call fault c r disk).1 (run_call fault c r disk).2

  from-to_entries : (m : Map (Option ℕ)) → from_entries (to_entries m) ≡ m
  unfolding from_entries to_entries
  from-to_entries [] = refl
  from-to_entries ((ns, t) ∷ m) = ap (λ l. (ns, t) ∷ l) (from-to_entries m)

  module _ (laws : IsCodec codec) where
    written :
        (r : NamespaceRecord)
        → open_record codec (Disk.contents (codec.marshal (to_entries r.dropped))) ≡ ok r
    unfolding open_record
    written r =
        ap (λ o. opened codec o) (laws.reads (to_entries r.dropped))
        ∙ ap (λ m. ok (record { dropped = m })) (from-to_entries r.dropped)

    -- A save that succeeds, whatever the record is when it fails.
    saved_reads :
        {A : Type 0} (a : A) (new old : NamespaceRecord) (fault : Fault) (disk : Disk)
        → let after = saved codec a new old (save codec fault new disk) in
          succeeds after.result ≡ true → open_record codec after.disk ≡ ok after.rec
    unfolding save
    saved_reads a new old Fault.no_fault disk h = written new
    saved_reads a new old Fault.before_rename disk h = cc h
    saved_reads a new old Fault.after_rename disk h = cc h

    call-reads :
        (fault : Fault) (c : Call) (r : NamespaceRecord) (disk : Disk)
        → open_record codec disk ≡ ok r
        → (run_call fault c r disk).0 ≡ true
        → open_record codec (run_call fault c r disk).2 ≡ ok (run_call fault c r disk).1
    unfolding run_call configured dropped forget
    call-reads fault (Call.configuring names) r disk synced h =
        let new : NamespaceRecord = record { dropped = set_configured codec names r.dropped } in
        saved_reads tt new new fault disk h
    call-reads fault (Call.dropping ns now) r disk synced h = dropped-reads (lookup ns r.dropped) h
      where
        new : NamespaceRecord
        new = record { dropped = insert ns (some now) r.dropped }

        next : After ℕ
        next = newly_dropped codec fault ns now r disk

        dropped-reads :
            (o : Option (Option ℕ))
            → succeeds (dropped_or codec o next r disk).result ≡ true
            → open_record codec (dropped_or codec o next r disk).disk
              ≡ ok (dropped_or codec o next r disk).rec
        dropped-reads none h =
            saved_reads now new (record { dropped = insert ns none r.dropped }) fault disk h
        dropped-reads (some none) h =
            saved_reads now new (record { dropped = insert ns none r.dropped }) fault disk h
        dropped-reads (some (some t)) h = synced
    call-reads fault (Call.forgetting ns) r disk synced h = forgotten-reads (lookup ns r.dropped) h
      where
        forgotten-reads :
            (o : Option (Option ℕ))
            → succeeds (forgotten codec fault ns o r disk).result ≡ true
            → open_record codec (forgotten codec fault ns o r disk).disk
              ≡ ok (forgotten codec fault ns o r disk).rec
        forgotten-reads none h = synced
        forgotten-reads (some t) h =
            let new : NamespaceRecord = record { dropped = delete ns r.dropped } in
            saved_reads tt new (record { dropped = insert ns t new.dropped }) fault disk h

    -- The record is durable: after any calls that succeed, opening the file again gives the record that
    -- is in memory; encoding/json reads back what it wrote.
    pub Reaches-reopens :
        {r : NamespaceRecord} {disk : Disk} → Reaches r disk → open_record codec disk ≡ ok r
    Reaches-reopens (Reaches.opens h) = h
    Reaches-reopens (Reaches.calls {r} {disk} fault c before h) =
        call-reads fault c r disk (Reaches-reopens before) h

  pub saved-same :
      {A : Type 0} (a : A) (new : NamespaceRecord) (x : Result RecordError Done × Disk)
      → (saved codec a new new x).rec ≡ new
  saved-same a new (ok u, disk) = refl
  saved-same a new (err e, disk) = refl

  set_configured-others :
      (ns : String) (names : List String) (m : Map (Option ℕ))
      → lookup ns m ≡ some none
      → lookup ns (set_configured codec names m) ≡ some none
  unfolding set_configured
  set_configured-others ns [] m h = h
  set_configured-others ns (name ∷ names) m h =
      set_configured-others ns names (insert name none m)
        (ground (arith, lookup-insert name ns none m, h))

  set_configured-All :
      (names : List String) (m : Map (Option ℕ))
      → All (λ ns. lookup ns (set_configured codec names m) ≡ some none) names
  unfolding set_configured
  set_configured-All [] m = tt
  set_configured-All (name ∷ names) m = (
    set_configured-others name names (insert name none m)
        (ground (arith, lookup-insert name name none m, same_text_iff name name)),
    set_configured-All names (insert name none m),
  )

  -- Once Configured returns no error, whatever happened before, the file opens to a record that holds
  -- every namespace that it was given, as configured.
  pub configured-durable :
      (fault : Fault) (names : List String) (r : NamespaceRecord) (disk : Disk)
      → IsCodec codec
      → succeeds (configured codec fault names r disk).result ≡ true
      → (new : NamespaceRecord) × (open_record codec (configured codec fault names r disk).disk
          ≡ ok new)
        × All (λ ns. lookup ns new.dropped ≡ some none) names
  unfolding configured
  configured-durable fault names r disk laws h =
      let new : NamespaceRecord = record { dropped = set_configured codec names r.dropped } in
      (
        (saved codec tt new new (save codec fault new disk)).rec,
        saved_reads laws tt new new fault disk h,
        subst (λ x. All (λ ns. lookup ns x.dropped ≡ some none) names)
            (sym (saved-same tt new (save codec fault new disk)))
            (set_configured-All names r.dropped),
      )
