-- ===== src/Acl/Counts.antt =====
-- What the checks of the gate that are under way have read, of internal/acl/acl.go.
use yaad_grove.Base.{
  All, ◌⊎◌, ℕ, ◌≤◌, ◌≡◌, refl, ◌∙◌, sym, inl, inr, Bool, true, false, String, List, [], ◌∷◌,
  same_text, same_text_iff, Bool-cases, ok,
}
use yaad_grove.Acl.{Record, Gate}
use yaad_grove.Acl.Overlap.{InWindow, InWindow-after, Pending, overtake}

pub InWindow-gate :
    (a w n : ℕ) (g g' : Gate) (r : Record)
    → g'.def_tier ≡ g.def_tier
    → InWindow a w n g r
    → InWindow a w n g' r
InWindow-gate a w n g g' r same k = InWindow-after a w n n g g' r r k k.start k.count refl same

module _ {E : Type 0} (id : String) (a w : ℕ) where
  -- What was read of the user, when `c` messages are counted.
  unfoldable pub Mine : Gate → ℕ → Pending E → Record → Type 0
  Mine g c p r =
      InWindow a w r.rate_count g r × (r.rate_count ≤ a) × (p.overtaken ≡ false → r.rate_count ≡ c)

  unfoldable pub Held : Gate → ℕ → Pending E → Type 0
  Held g c p =
      (r : Record)
      → p.got ≡ ok r
      → (r.user_id ≡ p.input.user.id) × (p.input.user.id ≡ id → Mine g c p r)

  -- A check that is still to end after the count became `c'` by serving the user of `k`.
  still-Held :
      (g g' : Gate) (c c' : ℕ) (p : Pending E) (overtaken : Bool)
      → g'.def_tier ≡ g.def_tier
      → (p.input.user.id ≡ id → overtaken ≡ false → (p.overtaken ≡ false) × (c' ≡ c))
      → Held g c p
      → Held g' c' (record p { overtaken = overtaken })
  unfolding Held Mine
  still-Held g g' c c' p overtaken same counts h r e =
      let (owner, mine) = h r e in
      (
        owner,
        λ own.
            let (win, le, current) = mine own in
            (
              InWindow-gate a w r.rate_count g g' r same win,
              le,
              λ fresh. let (was, eq) = counts own fresh in current was ∙ sym eq,
            ),
      )

  pub gate-Held :
      (g g' : Gate) (c : ℕ) (ps : List (Pending E))
      → g'.def_tier ≡ g.def_tier
      → All (Held g c) ps
      → All (Held g' c) ps
  gate-Held g g' c [] same h = tt
  gate-Held g g' c (p ∷ ps) same h = (
    still-Held g g' c c p p.overtaken same (λ own was. (was, refl)) h.0,
    gate-Held g g' c ps same h.1,
  )

  pub overtake-Held :
      (k : String) (g g' : Gate) (c c' : ℕ) (ps : List (Pending E))
      → g'.def_tier ≡ g.def_tier
      → ((k ≡ id) ⊎ (c' ≡ c))
      → All (Held g c) ps
      → All (Held g' c') (overtake k ps)
  overtake-Held k g g' c c' [] same change h = tt
  overtake-Held k g g' c c' (p ∷ ps) same change h =
      let rest = overtake-Held k g g' c c' ps same change h.1 in
      elim (Bool-cases (same_text p.input.user.id k)) [
        | inl hit ↦ rw hit (still-Held g g' c c' p true same (λ own x. cc x) h.0, rest)
        | inr miss ↦ rw miss (
          still-Held g g' c c' p p.overtaken same
              (λ own was. (
                was,
                elim change [
                  | inl user ↦ absurd (
                      let clash : false ≡ true =
                        sym miss ∙ (same_text_iff p.input.user.id k).1 (own ∙ sym user) in
                      cc clash)
                  | inr eq ↦ eq
                ],
              ))
              h.0,
          rest,
        )
      ]
