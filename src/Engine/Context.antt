-- ===== src/Engine/Context.antt =====
-- `capContext` and `approxTokens` of internal/core/prompt.go. `render` is the library's rendering of the
-- material, `materialText`.
use yaad_grove.Base.{
  ℕ, zero, suc, ◌+◌, ◌/◌, ◌≤◌, ◌<◌, ◌≡◌, refl, sym, ap, ◌⊎◌, inl, inr, false, String, List, [],
  length, take, length-take, if◌then◌else◌, leb, Bool-cases, arith,
}
use yaad_grove.Core.{Chunk}
use yaad_grove.Engine.Refusal.{size}

unfoldable pub approx_tokens : String → ℕ
approx_tokens s = (size s + 3) / 4

module _ (render : List Chunk → String) where
  unfoldable pub tokens : List Chunk → ℕ
  unfolding approx_tokens
  tokens chunks = approx_tokens (render chunks)

  -- The loop, for `k`, `k` - 1, …, 1.
  unfoldable pub cap_loop : List Chunk → ℕ → ℕ → List Chunk
  cap_loop chunks max_tokens zero = []
  cap_loop chunks max_tokens (suc k) =
      let rest = cap_loop chunks max_tokens k in
      if leb (tokens (take (suc k) chunks)) max_tokens then take (suc k) chunks else rest

  -- `capContext`; a cap of 0 stands for every one that is not positive.
  unfoldable pub cap_context : List Chunk → ℕ → List Chunk
  unfolding cap_loop
  cap_context chunks max_tokens =
      if leb max_tokens 0 then chunks else cap_loop chunks max_tokens (length chunks)

  -- What the loop returns from `k` on: a prefix of `n` chunks that fits, and none between is longer.
  record IsLongest (chunks : List Chunk) (max_tokens k : ℕ) (out : List Chunk) : Type 0 where
    size_le : length out ≤ k
    is_prefix : out ≡ take (length out) chunks
    fits : (out ≡ []) ⊎ (tokens out ≤ max_tokens)
    longest : (j : ℕ) → 0 < j → j ≤ k → tokens (take j chunks) ≤ max_tokens → j ≤ length out

  cap_loop-IsLongest :
      (chunks : List Chunk) (max_tokens k : ℕ)
      → k ≤ length chunks
      → IsLongest chunks max_tokens k (cap_loop chunks max_tokens k)
  unfolding cap_loop
  cap_loop-IsLongest chunks max_tokens zero h = record {
    size_le = omega arith;
    is_prefix = refl;
    fits = inl refl;
    longest = λ j p q f. absurd (omega arith);
  }
  cap_loop-IsLongest chunks max_tokens (suc k) h =
      let len : length (take (suc k) chunks) ≡ suc k = omega (arith, length-take (suc k) chunks) in
      elim (Bool-cases (leb (tokens (take (suc k) chunks)) max_tokens)) [
        | inl fit ↦ rw fit (record {
          size_le = omega (arith, len);
          is_prefix = ap (λ n. take n chunks) (sym len);
          fits = inr (ground arith);
          longest = λ j p q f. omega (arith, len);
        })
        | inr over ↦
            let ih = cap_loop-IsLongest chunks max_tokens k (omega arith) in
            rw over (record {
              size_le = omega (arith, ih.size_le);
              is_prefix = ih.is_prefix;
              fits = ih.fits;
              longest = λ j p q f. ih.longest j p (ground arith) f;
            })
      ]

  -- With a cap set, the material kept is a prefix of the ranked chunks that fits the cap, or nothing, and
  -- every prefix that is not empty and is longer would pass the cap.
  pub cap_context-longest :
      (chunks : List Chunk) (max_tokens j : ℕ)
      → 0 < max_tokens
      → 0 < j
      → j ≤ length chunks
      → let out = cap_context chunks max_tokens in
        (out ≡ take (length out) chunks)
        × ((out ≡ []) ⊎ (tokens out ≤ max_tokens))
        × ((j ≤ length out) ⊎ (max_tokens < tokens (take j chunks)))
  unfolding cap_context
  cap_context-longest chunks max_tokens j on some_j within =
      let r = cap_loop-IsLongest chunks max_tokens (length chunks) (omega arith) in
      let set_on : leb max_tokens 0 ≡ false = ground arith in
      rw set_on (
        r.is_prefix,
        r.fits,
        elim (Bool-cases (leb (tokens (take j chunks)) max_tokens)) [
          | inl fit ↦ inl (r.longest j some_j within (ground arith))
          | inr over ↦ inr (ground arith)
        ],
      )
