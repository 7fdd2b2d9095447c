-- ===== src/Retrieval/Hybrid.antt =====
-- `hybrid` of internal/retrieval/planner.go.
use yaad_grove.Base.{
  ◌≤◌, true, String, List, [], ◌∷◌, All, length, Result, ok, err, ◌≡◌, refl, sym, ap, subst, arith,
}
use yaad_grove.Base.Int.{ℤ, pos, ltb_ℤ, pos_part}
use yaad_grove.Base.Sort.{Pairs}
use yaad_grove.Core.{Chunk}
use yaad_grove.Retrieval.{
  Scores, Planner, RetrieveError, leg_of, semantic_leg, fused, hybrid, new_planner,
}
use yaad_grove.Retrieval.Fusion.{apart, IsFused, rrf_fuse-IsFused}

ok_inj {ℓ} : {E : Type 0} {A : Type ℓ} {a b : A} → ◌≡◌ {A = Result E A} (ok a) (ok b) → a ≡ b
ok_inj h = cc h

err_ok {ℓ} : {E : Type 0} {A : Type ℓ} {e : E} {a : A} → ◌≡◌ {A = Result E A} (err e) (ok a) → ⊥
err_ok h = cc h

leg_inj : {E : Type 0} (r : Result E (List Chunk)) (l : List Chunk) → leg_of r ≡ ok l → r ≡ ok l
leg_inj (ok m) l h = ap ok (ok_inj h)
leg_inj (err e) l h = absurd (err_ok h)

module _ {F : Type 0} (scores : Scores F) (P : Chunk → Type 0) where
  module _ {E V : Type 0} (p : Planner E V) where
    fused-IsFused :
        (kw sem : Result (RetrieveError E) (List Chunk)) (out : List Chunk)
        → ltb_ℤ (pos 0) p.max_chunks ≡ true
        → ((l : List Chunk) → kw ≡ ok l → All P l)
        → ((l : List Chunk) → sem ≡ ok l → All P l)
        → fused p scores kw sem ≡ ok out
        → IsFused scores P p.max_chunks out
    fused-IsFused (ok kw) (ok sem) out above h k e =
        subst (IsFused scores P p.max_chunks) (ok_inj e) (
          rrf_fuse-IsFused scores P (kw ∷ sem ∷ []) p.max_chunks above
            (h kw refl, (k sem refl, tt)))
    fused-IsFused (ok kw) (err f) out above h k e =
        subst (IsFused scores P p.max_chunks) (ok_inj e)
          (rrf_fuse-IsFused scores P (kw ∷ []) p.max_chunks above (h kw refl, tt))
    fused-IsFused (err g) (ok sem) out above h k e =
        subst (IsFused scores P p.max_chunks) (ok_inj e)
          (rrf_fuse-IsFused scores P (sem ∷ []) p.max_chunks above (k sem refl, tt))
    fused-IsFused (err g) (err f) out above h k e = absurd (err_ok e)

  module _ {E V : Type 0} (p : Planner E V) where
    new_planner-positive :
        (mode : String) (max_chunks : ℤ) (depths : List ℤ)
        → ltb_ℤ (pos 0) (new_planner p mode max_chunks depths).max_chunks ≡ true
    unfolding new_planner
    new_planner-positive mode max_chunks depths = ground arith

    -- A hybrid retrieval of a planner built by NewPlanner gives chunks that its legs gave, whatever
    -- holds of those, none twice, and no more than the planner's cap.
    pub hybrid-IsFused :
        (mode : String) (max_chunks : ℤ) (depths : List ℤ) (query : String) (out : List Chunk)
        → let q = new_planner p mode max_chunks depths in
          ((l : List Chunk) → q.keyword query q.fusion_depth ≡ ok l → All P l)
          → ((l : List Chunk) → semantic_leg q query q.fusion_depth ≡ ok l → All P l)
          → hybrid q scores query ≡ ok out
          → All P out × Pairs apart out × (length out ≤ pos_part q.max_chunks)
    unfolding hybrid
    hybrid-IsFused mode max_chunks depths query out h k e =
        let q = new_planner p mode max_chunks depths in
        fused-IsFused q (leg_of (q.keyword query q.fusion_depth))
          (semantic_leg q query q.fusion_depth) out (new_planner-positive mode max_chunks depths)
          (λ l f. h l (leg_inj (q.keyword query q.fusion_depth) l f)) k e

-- A hybrid retrieval fails only when both of its legs fail, with the error of the semantic one.
pub hybrid-fails :
    {E V F : Type 0} (p : Planner E V) (scores : Scores F) (query : String) (e : RetrieveError E)
    → hybrid p scores query ≡ err e
    → (semantic_leg p query p.fusion_depth ≡ err e)
      × ((f : E) × (p.keyword query p.fusion_depth ≡ err f))
unfolding hybrid
hybrid-fails p scores query e h =
    fused_fails (p.keyword query p.fusion_depth) (semantic_leg p query p.fusion_depth) h
  where
    fused_fails :
        (kw : Result _ (List Chunk)) (sem : Result _ (List Chunk))
        → fused p scores (leg_of kw) sem ≡ err e
        → (sem ≡ err e) × ((f : _) × (kw ≡ err f))
    fused_fails (ok kw) (ok sem) h = absurd (err_ok (sym h))
    fused_fails (ok kw) (err f) h = absurd (err_ok (sym h))
    fused_fails (err g) (ok sem) h = absurd (err_ok (sym h))
    fused_fails (err g) (err f) h = (h, (g, refl))
