-- ===== src/Retrieval/Fusion.antt =====
-- `rrfFuse` of internal/retrieval/planner.go.
use yaad_grove.Base.{
  ℕ, zero, suc, ◌≤◌, Bool, true, not, String, Option, none, some, List, [], ◌∷◌, map, Map, lookup,
  insert, insert-IsDistinct, IsDistinct, All, if◌then◌else◌, same_text, same_text_iff, ltb, length,
  take, length-take, Bool-cases, inl, inr, ◌≡◌, refl, sym, ap, subst, arith, ◌&&◌,
}
use yaad_grove.Base.Int.{ℤ, pos, ltb_ℤ, pos_part}
use yaad_grove.Base.Sort.{sort_by, Pairs, sort_by-Pairs, All-sort_by}
use yaad_grove.Core.{Chunk}
use yaad_grove.Store.Ordered.{capped}
use yaad_grove.Retrieval.{
  Scores, Agg, chunk_key, agg_or, seen_after, fuse_leg, fuse_legs, agg_le, values, rrf_fuse,
}

-- Of different sources or texts.
unfoldable pub apart : Chunk → Chunk → Bool
apart a b = not (same_text (chunk_key a) (chunk_key b))

module _ {ℓ} {A : Type ℓ} where
  All-take : (P : A → Type 0) (n : ℕ) (l : List A) → All P l → All P (take n l)
  All-take P zero l h = tt
  All-take P (suc n) [] h = tt
  All-take P (suc n) (x ∷ l) h = (h.0, All-take P n l h.1)

  Pairs-take : (R : A → A → Bool) (n : ℕ) (l : List A) → Pairs R l → Pairs R (take n l)
  Pairs-take R zero l h = tt
  Pairs-take R (suc n) [] h = tt
  Pairs-take R (suc n) (x ∷ l) h = (All-take (λ y. R x y ≡ true) n l h.0, Pairs-take R n l h.1)

  capped_cases :
      (Q : List A → Type 0) (k : ℤ) (l : List A) → Q l → Q (take (pos_part k) l) → Q (capped k l)
  capped_cases Q k l whole cut =
      elim (Bool-cases (ltb_ℤ (pos 0) k && ltb (pos_part k) (length l))) [
        | inl over ↦ subst Q (sym (ap (λ b. if b then take (pos_part k) l else l) over)) cut
        | inr under ↦ subst Q (sym (ap (λ b. if b then take (pos_part k) l else l) under)) whole
      ]

  length-capped : (k : ℤ) (l : List A) → ltb_ℤ (pos 0) k ≡ true → length (capped k l) ≤ pos_part k
  length-capped k l h = ground (arith, length-take (pos_part k) l, h)

module _ {F : Type 0} (scores : Scores F) (P : Chunk → Type 0) where
  -- An entry of the map of aggregates.
  abbrev IsEntry : String → Agg F → Type 0
  IsEntry k a = (k ≡ chunk_key a.chunk) × P a.chunk

  abbrev Entries : Map (Agg F) → Type 0
  Entries = All (λ e. IsEntry e.0 e.1)

  insert-Entries :
      (k : String) (a : Agg F) (m : Map (Agg F)) → IsEntry k a → Entries m → Entries (insert k a m)
  unfolding insert
  insert-Entries k a [] h es = (h, tt)
  insert-Entries k a ((j, b) ∷ m) h es = elim (Bool-cases (same_text j k)) [
    | inl same ↦ rw same (h, es.1)
    | inr other ↦ rw other (es.0, insert-Entries k a m h es.1)
  ]

  lookup-Entries :
      (k : String) (a : Agg F) (m : Map (Agg F)) → Entries m → lookup k m ≡ some a → IsEntry k a
  unfolding lookup
  lookup-Entries k a [] es h = cc h
  lookup-Entries k a ((j, b) ∷ m) es h = elim (Bool-cases (same_text j k)) [
    | inl same ↦
        let this : b ≡ a = cc (rw same at h) in
        subst (λ x. IsEntry x a) ((same_text_iff j k).0 same) (subst (λ x. IsEntry j x) this es.0)
    | inr other ↦ lookup-Entries k a m es.1 (rw other at h)
  ]

  -- The state of the fusion: entries under their chunks' keys, each key once.
  abbrev IsState : Map (Agg F) × ℕ → Type 0
  IsState st = Entries st.0 × IsDistinct st.0

  agg_or-IsEntry :
      (c : Chunk) (m : Map (Agg F)) (seen : ℕ) (o : Option (Agg F)) (f : F)
      → lookup (chunk_key c) m ≡ o
      → P c
      → Entries m
      → IsEntry (chunk_key c) (record (agg_or scores o c seen) { score = f })
  agg_or-IsEntry c m seen none f e pc es = (refl, pc)
  agg_or-IsEntry c m seen (some a) f e pc es = lookup-Entries (chunk_key c) a m es e

  fuse_leg-IsState :
      (rank : ℕ) (cs : List Chunk) (st : Map (Agg F) × ℕ)
      → All P cs
      → IsState st
      → IsState (fuse_leg scores rank cs st)
  unfolding fuse_leg
  fuse_leg-IsState rank [] st h s = s
  fuse_leg-IsState rank (c ∷ cs) (m, seen) h s =
      let key = chunk_key c in
      let found = lookup key m in
      let a = agg_or scores found c seen in
      let b : Agg F = record a { score = scores.plus a.score (scores.share rank) } in
      fuse_leg-IsState (suc rank) cs (insert key b m, seen_after scores found seen) h.1
        (
          insert-Entries key b m (agg_or-IsEntry c m seen found b.score refl h.0 s.0) s.0,
          insert-IsDistinct key b m s.1,
        )

  fuse_legs-IsState :
      (legs : List (List Chunk)) (st : Map (Agg F) × ℕ)
      → All (All P) legs
      → IsState st
      → IsState (fuse_legs scores legs st)
  unfolding fuse_legs
  fuse_legs-IsState [] st h s = s
  fuse_legs-IsState (leg ∷ legs) st h s =
      fuse_legs-IsState legs (fuse_leg scores 0 leg st) h.1 (fuse_leg-IsState 0 leg st h.0 s)

  abbrev agg_apart : Agg F → Agg F → Bool
  agg_apart a b = apart a.chunk b.chunk

  apart_values :
      (k : String) (a : Agg F) (m : Map (Agg F))
      → k ≡ chunk_key a.chunk
      → Entries m
      → lookup k m ≡ none
      → All (λ b. agg_apart a b ≡ true) (values scores m)
  unfolding apart lookup
  apart_values k a [] e es h = tt
  apart_values k a ((j, b) ∷ m) e es h = elim (Bool-cases (same_text j k)) [
    | inl same ↦ cc (rw same at h)
    | inr other ↦ (
      ground (
        arith,
        same_text_iff j k,
        same_text_iff (chunk_key a.chunk) (chunk_key b.chunk),
        e,
        es.0.0,
        other,
      ),
      apart_values k a m e es.1 (rw other at h),
    )
  ]

  values-Pairs : (m : Map (Agg F)) → Entries m → IsDistinct m → Pairs agg_apart (values scores m)
  values-Pairs [] es d = tt
  values-Pairs ((k, a) ∷ m) es d = (apart_values k a m es.0.0 es.1 d.0, values-Pairs m es.1 d.1)

  values-All : (m : Map (Agg F)) → Entries m → All (λ a. P a.chunk) (values scores m)
  values-All [] es = tt
  values-All ((k, a) ∷ m) es = (es.0.1, values-All m es.1)

  apart_sym : (a b : Agg F) → agg_apart a b ≡ true → agg_apart b a ≡ true
  unfolding apart
  apart_sym a b h = ground (
    arith,
    same_text_iff (chunk_key a.chunk) (chunk_key b.chunk),
    same_text_iff (chunk_key b.chunk) (chunk_key a.chunk),
    h,
  )

  chunks-All :
      (Q : Chunk → Type 0) (l : List (Agg F))
      → All (λ b. Q b.chunk) l
      → All Q (map (λ b. b.chunk) l)
  chunks-All Q [] h = tt
  chunks-All Q (b ∷ l) h = (h.0, chunks-All Q l h.1)

  length-chunks : (l : List (Agg F)) → length (map (λ b. b.chunk) l) ≡ length l
  length-chunks [] = refl
  length-chunks (b ∷ l) = ap suc (length-chunks l)

  chunks-Pairs : (l : List (Agg F)) → Pairs agg_apart l → Pairs apart (map (λ a. a.chunk) l)
  chunks-Pairs [] s = tt
  chunks-Pairs (a ∷ l) s = (chunks-All (λ c. apart a.chunk c ≡ true) l s.0, chunks-Pairs l s.1)

  -- What a fused list promises: its chunks come from the legs, none twice, and no more than the cap.
  abbrev pub IsFused : ℤ → List Chunk → Type 0
  IsFused k out = All P out × Pairs apart out × (length out ≤ pos_part k)

  pub rrf_fuse-IsFused :
      (legs : List (List Chunk)) (k : ℤ)
      → ltb_ℤ (pos 0) k ≡ true
      → All (All P) legs
      → IsFused k (rrf_fuse scores legs k)
  unfolding rrf_fuse lookup
  rrf_fuse-IsFused legs k above h =
      let state = fuse_legs-IsState legs ([], 0) h (tt, tt) in
      let m = (fuse_legs scores legs ([], 0)).0 in
      let sorted = sort_by (agg_le scores) (values scores m) in
      let from =
        All-sort_by (agg_le scores) (λ a. P a.chunk) (values scores m) (values-All m state.0) in
      let once =
        sort_by-Pairs (agg_le scores) agg_apart apart_sym (values scores m)
          (values-Pairs m state.0 state.1) in
      (
        chunks-All P (capped k sorted) (
            capped_cases (All (λ a. P a.chunk)) k sorted from
              (All-take (λ a. P a.chunk) (pos_part k) sorted from)),
        chunks-Pairs (capped k sorted) (
            capped_cases (Pairs agg_apart) k sorted once
              (Pairs-take agg_apart (pos_part k) sorted once)),
        omega (arith, length-capped k sorted above, length-chunks (capped k sorted)),
      )
