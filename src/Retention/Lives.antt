-- ===== src/Retention/Lives.antt =====
-- The life of one memory namespace: internal/namespaces/record.go and internal/runtime/purge.go.
use yaad_grove.Base.{
  not, String, Option, none, some, List, [], ◌∷◌, Map, lookup, insert, delete, lookup-insert,
  lookup-delete, keep, All, All-imp, ℕ, suc, ◌≤◌, ◌<◌, Result, ok, err, same_text, same_text_iff,
  if◌then◌else◌, Bool-cases, inl, inr, ◌⊎◌, ◌≡◌, refl, sym, ap, subst, ◌∙◌, arith,
}
use yaad_grove.Base.Int.{ℤ, pos, ltb_ℤ}
use yaad_grove.Namespaces.{
  NamespaceRecord, Codec, Disk, Fault, After, Done, save, saved, set_configured, configured,
  newly_dropped, dropped_or, dropped, forgotten, forget,
}
use yaad_grove.Namespaces.Durable.{saved-same}
use yaad_grove.Retention.{NamespacePurge, Kept, still_held, purged_at, purge, purge_cut}

-- A backend that is the times of a namespace's records, the latest first: DeleteBefore deletes those
-- before the cut when it returns no error, and adds none when it fails.
pub record Deletes {E : Type 0} (delete_before : ℤ → List ℕ → Option E × List ℕ) : Type 1 where
  pub deletes :
      (cut : ℤ) (l : List ℕ)
      → (delete_before cut l).0 ≡ none
      → (delete_before cut l).1 ≡ keep (λ t. not (ltb_ℤ (pos t) cut)) l
  pub adds_none : (cut : ℤ) (l : List ℕ) (P : ℕ → Type 0) → All P l → All P (delete_before cut l).1

-- What a call on the record leaves, beside the store.
abbrev pub in_store : {A : Type 0} → List ℕ → After A → Kept (List ℕ)
in_store l a = record { store = l; rec = a.rec; disk = a.disk }

-- A dropped namespace holds only records from before it was dropped.
abbrev pub Older : Option (Option ℕ) → List ℕ → Type 0
Older none l = Unit
Older (some none) l = Unit
Older (some (some d)) l = All (λ t. t < d) l

module _ (E : Type 0) (codec : Codec) (ns : String) where
  -- What may happen to the namespace, at times that do not fall.
  pub data Lives : ℕ → Kept (List ℕ) → Type 1 where
    born :
        {r : NamespaceRecord} {disk : Disk} → Lives 0 (record { store = []; rec = r; disk = disk })
    waits : {now : ℕ} {k : Kept (List ℕ)} (later : ℕ) → now ≤ later → Lives now k → Lives later k
    -- A configured namespace keeps a record, which takes time.
    keeps :
        {now : ℕ} {k : Kept (List ℕ)}
        → lookup ns k.rec.dropped ≡ some none
        → Lives now k
        → Lives (suc now) (record k { store = now ∷ k.store })
    configures :
        {now : ℕ} {k : Kept (List ℕ)} (fault : Fault) (names : List String)
        → Lives now k
        → Lives now (in_store k.store (configured codec fault names k.rec k.disk))
    drops :
        {now : ℕ} {k : Kept (List ℕ)} (fault : Fault) (name : String)
        → Lives now k
        → Lives now (in_store k.store (dropped codec fault name now k.rec k.disk))
    -- A purge of the namespace, with the time that the record gives it.
    purges :
        {now : ℕ} {k : Kept (List ℕ)} (fault : Fault) (p : NamespacePurge E (List ℕ))
        → Deletes p.delete_before
        → lookup ns k.rec.dropped ≡ some p.dropped
        → p.namespace ≡ ns
        → Lives now k
        → Lives now (purge codec p fault now k).1

module _ (codec : Codec) (ns : String) where
  abbrev Inv : ℕ → Kept (List ℕ) → Type 0
  Inv now k = All (λ t. t < now) k.store × Older (lookup ns k.rec.dropped) k.store

  Older-none : (o : Option (Option ℕ)) (l : List ℕ) → (o ≡ none) ⊎ (o ≡ some none) → Older o l
  Older-none none l h = tt
  Older-none (some none) l h = tt
  Older-none (some (some d)) l (inl h) = cc h
  Older-none (some (some d)) l (inr h) = cc h

  Older-nil : (o : Option (Option ℕ)) → Older o []
  Older-nil none = tt
  Older-nil (some none) = tt
  Older-nil (some (some d)) = tt

  saved-rec :
      {A : Type 0} (a : A) (new old : NamespaceRecord) (x : Result _ Done × Disk)
      → ((saved codec a new old x).rec ≡ new) ⊎ ((saved codec a new old x).rec ≡ old)
  saved-rec a new old (ok u, disk) = inl refl
  saved-rec a new old (err e, disk) = inr refl

  insert-Older :
      (name : String) (o : Option ℕ) (m : Map (Option ℕ)) (l : List ℕ)
      → Older (lookup ns m) l
      → Older (some o) l
      → Older (lookup ns (insert name o m)) l
  insert-Older name o m l h k = elim (Bool-cases (same_text name ns)) [
    | inl this ↦
        subst (λ x. Older x l)
          (sym (lookup-insert name ns o m ∙ ap (λ b. if b then some o else lookup ns m) this)) k
    | inr other ↦
        subst (λ x. Older x l)
          (sym (lookup-insert name ns o m ∙ ap (λ b. if b then some o else lookup ns m) other)) h
  ]

  set_configured-Older :
      (names : List String) (m : Map (Option ℕ)) (l : List ℕ)
      → Older (lookup ns m) l
      → Older (lookup ns (set_configured codec names m)) l
  unfolding set_configured
  set_configured-Older [] m l h = h
  set_configured-Older (name ∷ names) m l h =
      set_configured-Older names (insert name none m) l (insert-Older name none m l h tt)

  dropped-Older :
      (fault : Fault) (name : String) (now : ℕ) (r : NamespaceRecord) (disk : Disk) (l : List ℕ)
      → All (λ t. t < now) l
      → Older (lookup ns r.dropped) l
      → Older (lookup ns (dropped codec fault name now r disk).rec.dropped) l
  unfolding dropped
  dropped-Older fault name now r disk l young h = either (lookup name r.dropped)
    where
      newly : Older (lookup ns (newly_dropped codec fault name now r disk).rec.dropped) l
      newly =
          let new : NamespaceRecord = record { dropped = insert name (some now) r.dropped } in
          let old : NamespaceRecord = record { dropped = insert name none r.dropped } in
          elim (saved-rec now new old (save codec fault new disk)) [
            | inl e ↦
                subst (λ x. Older (lookup ns x.dropped) l) (sym e)
                  (insert-Older name (some now) r.dropped l h young)
            | inr e ↦
                subst (λ x. Older (lookup ns x.dropped) l) (sym e)
                  (insert-Older name none r.dropped l h tt)
          ]

      either :
          (o : Option (Option ℕ))
          → Older
              (lookup ns
                (dropped_or codec o (newly_dropped codec fault name now r disk) r disk).rec.dropped)
              l
      either none = newly
      either (some none) = newly
      either (some (some t)) = h

  forgotten-Older :
      (fault : Fault) (r : NamespaceRecord) (disk : Disk) (l : List ℕ) (o : Option (Option ℕ))
      → lookup ns r.dropped ≡ o
      → Older o l
      → Older (lookup ns (forgotten codec fault ns o r disk).rec.dropped) l
  forgotten-Older fault r disk l none e h = Older-none (lookup ns r.dropped) l (inl e)
  forgotten-Older fault r disk l (some t) e h =
      let new : NamespaceRecord = record { dropped = delete ns r.dropped } in
      let old : NamespaceRecord = record { dropped = insert ns t new.dropped } in
      let gone : lookup ns new.dropped ≡ none =
        ground (arith, lookup-delete ns ns r.dropped, same_text_iff ns ns) in
      elim (saved-rec tt new old (save codec fault new disk)) [
        | inl f ↦
            subst (λ x. Older (lookup ns x.dropped) l) (sym f)
              (Older-none (lookup ns new.dropped) l (inl gone))
        | inr f ↦
            subst (λ x. Older (lookup ns x.dropped) l) (sym f)
              (insert-Older ns t new.dropped l (Older-none (lookup ns new.dropped) l (inl gone)) h)
      ]

  forget-Older :
      (fault : Fault) (r : NamespaceRecord) (disk : Disk) (l : List ℕ)
      → Older (lookup ns r.dropped) l
      → Older (lookup ns (forget codec fault ns r disk).rec.dropped) l
  unfolding forget
  forget-Older fault r disk l h = forgotten-Older fault r disk l (lookup ns r.dropped) refl h

  -- What a purge leaves of a store that it took from one with the invariant.
  purged_at-Inv :
      {E : Type 0} (p : NamespacePurge E (List ℕ)) (fault : Fault) (cut : ℤ) (now : ℕ)
      (x : Option E × List ℕ) (k : Kept (List ℕ))
      → p.namespace ≡ ns
      → All (λ t. t < now) x.1
      → Older (lookup ns k.rec.dropped) x.1
      → Inv now (purged_at codec p fault cut x k).1
  purged_at-Inv p fault cut now (some e, l) k same young old = (young, old)
  purged_at-Inv p fault cut now (none, l) k same young old =
      elim (Bool-cases (still_held p.dropped cut)) [
        | inl held ↦ rw held (young, old)
        | inr free ↦ rw (free, same) (young, forget-Older fault k.rec k.disk l old)
      ]

  Older-deleted :
      {E : Type 0} (p : NamespacePurge E (List ℕ)) (cut : ℤ) (o : Option (Option ℕ)) (l : List ℕ)
      → Deletes p.delete_before
      → Older o l
      → Older o (p.delete_before cut l).1
  Older-deleted p cut none l d h = tt
  Older-deleted p cut (some none) l d h = tt
  Older-deleted p cut (some (some t)) l d h = d.adds_none cut l (λ x. x < t) h

  pub Lives-Inv : {E : Type 0} {now : ℕ} {k : Kept (List ℕ)} → Lives E codec ns now k → Inv now k
  unfolding configured purge
  Lives-Inv (Lives.born {r}) = (tt, Older-nil (lookup ns r.dropped))
  Lives-Inv (Lives.waits {now} {k} later le h) =
      let ih = Lives-Inv h in
      (All-imp (λ t. t < now) (λ t. t < later) (λ t lt. omega (arith, lt, le)) k.store ih.0, ih.1)
  Lives-Inv (Lives.keeps {now} {k} held h) =
      let ih = Lives-Inv h in
      (
        (
          omega arith,
          All-imp (λ t. t < now) (λ t. t < suc now) (λ t lt. omega (arith, lt)) k.store ih.0,
        ),
        Older-none (lookup ns k.rec.dropped) (now ∷ k.store) (inr held),
      )
  Lives-Inv (Lives.configures {now} {k} fault names h) =
      let ih = Lives-Inv h in
      let new : NamespaceRecord = record { dropped = set_configured codec names k.rec.dropped } in
      (
        ih.0,
        subst (λ x. Older (lookup ns x.dropped) k.store)
            (sym (saved-same codec tt new (save codec fault new k.disk)))
            (set_configured-Older names k.rec.dropped k.store ih.1),
      )
  Lives-Inv (Lives.drops {now} {k} fault name h) =
      let ih = Lives-Inv h in (ih.0, dropped-Older fault name now k.rec k.disk k.store ih.0 ih.1)
  Lives-Inv (Lives.purges {now} {k} fault p d e same h) =
      let ih = Lives-Inv h in
      let cut = purge_cut now p.window p.retention in
      purged_at-Inv p fault cut now (p.delete_before cut k.store) k same
        (d.adds_none cut k.store (λ t. t < now) ih.0)
        (Older-deleted p cut (lookup ns k.rec.dropped) k.store d ih.1)
