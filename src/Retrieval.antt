-- ===== src/Retrieval.antt =====
-- internal/retrieval/planner.go: the modes of retrieval and rank fusion. `Fusion` and `Hybrid` prove.
-- `Orderable`, `ReadKinds`, `Markdown` and `Lossless` are about internal/retrieval/vault.go.
pub mod Fusion
pub mod Hybrid
pub mod Orderable
pub mod ReadKinds
pub mod Markdown
pub mod Lossless
mod Tests
use Prim.Native.Char.{Char}
use yaad_grove.Base.{
  ℕ, zero, suc, ◌+◌, Bool, true, false, not, ◌&&◌, ◌||◌, String, Option, none, some, List, [], ◌∷◌,
  map, Map, lookup, insert, if◌then◌else◌, same_text, ltb, length, Result, ok, err,
}
use yaad_grove.Base.Int.{ℤ, pos, ltb_ℤ, leb_ℤ}
use yaad_grove.Base.Sort.{sort_by}
use yaad_grove.Base.Text.{trim_space, ◌<>◌}
use yaad_grove.Core.{Chunk}
use yaad_grove.Store.Ordered.{capped}

-- The scores, which are float64: 0, the sum, 1.0 / float64(rrfK + rank), and the order.
pub record Scores (F : Type 0) : Type 0 where
  pub none_yet : F
  pub plus : F → F → F
  pub share : ℕ → F
  pub less : F → F → Bool

-- `agg`
pub record Agg (F : Type 0) : Type 0 where
  pub chunk : Chunk
  pub score : F
  pub order : ℕ

pub data RetrieveError (E : Type 0) : Type 0 where
  failed : E → RetrieveError E
  unknown_mode : String → RetrieveError E
  vector_count : ℕ → RetrieveError E

-- `Planner` with its store and embedder; V is a vector.
pub record Planner (E V : Type 0) : Type 0 where
  pub keyword : String → ℤ → Result E (List Chunk)
  pub semantic : V → ℤ → Result E (List Chunk)
  pub embed : String → Result E (List V)
  pub mode : String
  pub max_chunks : ℤ
  pub fusion_depth : ℤ

-- c.Source + "\x00" + c.Text
unfoldable pub chunk_key : Chunk → String
chunk_key c = c.source <> String.◌∷◌ (Char.char 0 tt) c.text

module _ {F : Type 0} (scores : Scores F) where
  abbrev pub agg_or : Option (Agg F) → Chunk → ℕ → Agg F
  agg_or none c seen = record { chunk = c; score = scores.none_yet; order = seen }
  agg_or (some a) c seen = a

  abbrev pub seen_after : Option (Agg F) → ℕ → ℕ
  seen_after none seen = suc seen
  seen_after (some a) seen = seen

  -- One leg, from a rank on.
  unfoldable pub fuse_leg : ℕ → List Chunk → Map (Agg F) × ℕ → Map (Agg F) × ℕ
  unfolding chunk_key
  fuse_leg rank [] st = st
  fuse_leg rank (c ∷ cs) (by_key, seen) =
      let key = chunk_key c in
      let found = lookup key by_key in
      let a = agg_or found c seen in
      fuse_leg (suc rank) cs (
        insert key (record a { score = scores.plus a.score (scores.share rank) }) by_key,
        seen_after found seen,
      )

  unfoldable pub fuse_legs : List (List Chunk) → Map (Agg F) × ℕ → Map (Agg F) × ℕ
  unfolding fuse_leg
  fuse_legs [] st = st
  fuse_legs (leg ∷ legs) st = fuse_legs legs (fuse_leg 0 leg st)

  -- The test of sort.SliceStable.
  unfoldable pub agg_less : Agg F → Agg F → Bool
  agg_less a b =
      if scores.less b.score a.score
      then true
      else if scores.less a.score b.score
      then false
      else ltb a.order b.order

  unfoldable pub agg_le : Agg F → Agg F → Bool
  unfolding agg_less
  agg_le a b = not (agg_less b a)

  abbrev pub values : Map (Agg F) → List (Agg F)
  values = map (λ e. e.1)

  -- `rrfFuse`
  unfoldable pub rrf_fuse : List (List Chunk) → ℤ → List Chunk
  unfolding fuse_legs agg_le
  rrf_fuse legs k =
      map (λ a. a.chunk) (capped k (sort_by agg_le (values (fuse_legs legs ([], 0)).0)))

abbrev pub leg_of : {E : Type 0} → Result E (List Chunk) → Result (RetrieveError E) (List Chunk)
leg_of (ok l) = ok l
leg_of (err e) = err (RetrieveError.failed e)

module _ {E V : Type 0} (p : Planner E V) where
  abbrev pub searched : ℤ → Result E (List V) → Result (RetrieveError E) (List Chunk)
  searched k (err e) = err (RetrieveError.failed e)
  searched k (ok []) = err (RetrieveError.vector_count 0)
  searched k (ok (v ∷ [])) = leg_of (p.semantic v k)
  searched k (ok (v ∷ w ∷ vs)) = err (RetrieveError.vector_count (suc (suc (length vs))))

  -- `semanticLeg`
  unfoldable pub semantic_leg : String → ℤ → Result (RetrieveError E) (List Chunk)
  semantic_leg query k =
      if same_text (trim_space query) "" then ok [] else searched k (p.embed query)

  abbrev pub or_keyword :
      Result (RetrieveError E) (List Chunk) → String → Result (RetrieveError E) (List Chunk)
  or_keyword (ok l) query = ok l
  or_keyword (err e) query = leg_of (p.keyword query p.max_chunks)

  -- `semanticWithFallback`
  unfoldable pub semantic_with_fallback : String → Result (RetrieveError E) (List Chunk)
  unfolding semantic_leg
  semantic_with_fallback query = or_keyword (semantic_leg query p.max_chunks) query

  module _ {F : Type 0} (scores : Scores F) where
    -- The legs that answered, the keyword leg first; the error of the last leg when none did.
    abbrev pub fused :
        Result (RetrieveError E) (List Chunk)
        → Result (RetrieveError E) (List Chunk)
        → Result (RetrieveError E) (List Chunk)
    fused (ok kw) (ok sem) = ok (rrf_fuse scores (kw ∷ sem ∷ []) p.max_chunks)
    fused (ok kw) (err f) = ok (rrf_fuse scores (kw ∷ []) p.max_chunks)
    fused (err e) (ok sem) = ok (rrf_fuse scores (sem ∷ []) p.max_chunks)
    fused (err e) (err f) = err f

    -- `hybrid`
    unfoldable pub hybrid : String → Result (RetrieveError E) (List Chunk)
    unfolding semantic_leg
    hybrid query =
        fused (leg_of (p.keyword query p.fusion_depth)) (semantic_leg query p.fusion_depth)

    -- `Retrieve`
    unfoldable pub retrieve : String → Result (RetrieveError E) (List Chunk)
    unfolding semantic_with_fallback hybrid
    retrieve query =
        if same_text p.mode "keyword"
        then leg_of (p.keyword query p.max_chunks)
        else if same_text p.mode "semantic"
        then semantic_with_fallback query
        else if same_text p.mode "hybrid"
        then hybrid query
        else err (RetrieveError.unknown_mode p.mode)

-- WithFusionDepth, for each option in order.
abbrev pub with_depths : ℤ → List ℤ → ℤ
with_depths depth [] = depth
with_depths depth (n ∷ ns) = with_depths n ns

-- `NewPlanner`, given the planner's store and embedder.
unfoldable pub new_planner : {E V : Type 0} → Planner E V → String → ℤ → List ℤ → Planner E V
new_planner p mode max_chunks depths =
    let top = if leb_ℤ max_chunks (pos 0) then pos 8 else max_chunks in
    let depth = with_depths (pos 30) depths in
    record p {
      mode = mode;
      max_chunks = top;
      fusion_depth = if ltb_ℤ depth top then top else depth;
    }
