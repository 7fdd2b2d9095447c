-- ===== src/Retention/Forgotten.antt =====
-- `NamespacePurge.Purge` of internal/runtime/purge.go over the life of one namespace.
use yaad_grove.Base.{
  false, not, String, Option, none, some, List, [], ◌∷◌, lookup, keep, All, ℕ, ◌<◌, Bool-cases, inl,
  inr, ◌≡◌, refl, sym, subst, ◌∙◌, arith,
}
use yaad_grove.Base.Int.{ℤ, pos, ltb_ℤ}
use yaad_grove.Namespaces.{Codec, Fault}
use yaad_grove.Retention.{NamespacePurge, Kept, still_held, purged_at, purge, purge_cut}
use yaad_grove.Retention.Lives.{Deletes, Lives, Older, Lives-Inv}

module _ (codec : Codec) (ns : String) where
  keep_none :
      (cut : ℤ) (d : ℕ) (l : List ℕ)
      → ltb_ℤ cut (pos d) ≡ false
      → All (λ t. t < d) l
      → keep (λ t. not (ltb_ℤ (pos t) cut)) l ≡ []
  keep_none cut d [] h a = refl
  keep_none cut d (t ∷ l) h a = ground (arith, h, a.0, keep_none cut d l h a.1)

  free_none :
      (o : Option ℕ) (cut : ℤ) (l : List ℕ)
      → still_held o cut ≡ false
      → Older (some o) l
      → keep (λ t. not (ltb_ℤ (pos t) cut)) l ≡ []
  free_none none cut l h old = cc h
  free_none (some d) cut l h old = keep_none cut d l h old

  none-some {ℓ} : {A : Type ℓ} {a : A} → ◌≡◌ {A = Option A} none (some a) → ⊥
  none-some h = cc h

  -- No record outlives its namespace: after any life of a namespace (`Lives`), when a purge of it that
  -- has the drop time of the record forgets it, nothing that was kept in it is left; DeleteBefore
  -- deletes what is before the cut.
  pub purge-forgets :
      {E : Type 0} {now : ℕ} {k : Kept (List ℕ)} (fault : Fault) (p : NamespacePurge E (List ℕ))
      → Deletes p.delete_before
      → lookup ns k.rec.dropped ≡ some p.dropped
      → Lives E codec ns now k
      → lookup ns (purge codec p fault now k).1.rec.dropped ≡ none
      → (purge codec p fault now k).1.store ≡ []
  unfolding purge
  purge-forgets {E} {now} {k} fault p d e h gone =
      emptied (p.delete_before cut k.store) (d.deletes cut k.store) gone
    where
      cut : ℤ
      cut = purge_cut now p.window p.retention

      emptied :
          (x : Option E × List ℕ)
          → (x.0 ≡ none → x.1 ≡ keep (λ t. not (ltb_ℤ (pos t) cut)) k.store)
          → lookup ns (purged_at codec p fault cut x k).1.rec.dropped ≡ none
          → (purged_at codec p fault cut x k).1.store ≡ []
      emptied (some f, l) del g = absurd (none-some (sym g ∙ e))
      emptied (none, l) del g = elim (Bool-cases (still_held p.dropped cut)) [
        | inl held ↦ absurd (none-some (sym (rw held at g) ∙ e))
        | inr free ↦ rw free (
            del refl
            ∙ free_none p.dropped cut k.store free
                (subst (λ o. Older o k.store) e (Lives-Inv codec ns h).1))
      ]
