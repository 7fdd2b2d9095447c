-- ===== src/Acl/Writes.antt =====
-- What `SetConsent` and `SetTier` change, and a write that the rate limit undoes.
use yaad_grove.Base.{
  ℕ, ◌+◌, ◌≡◌, refl, ◌∙◌, ap, Bool, true, false, String, Option, none, some, same_text,
  same_text_iff, same_text_refl, arith, Bool-cases, inl, inr, if◌then◌else◌, Result, ok, err,
}
use yaad_grove.Core.{User}
use yaad_grove.Acl.{
  Tier, at_least, valid_tier, Record, Consent, granted, declined, Store, Gate, serve, resolve_tier,
  authorize, authorize_read, set_tier, set_consent, wrapped, check_rate, windowed, over_rate,
  allowance_for, served,
}
use yaad_grove.Acl.Laws.{IsStore}

blank_tier : valid_tier "" ≡ false
unfolding valid_tier
blank_tier = refl

-- The fields that the rate limit may change.
abbrev pub SameUser : Record → Record → Type 0
SameUser r r' = (r'.user_id ≡ r.user_id) × (r'.consent ≡ r.consent) × (r'.tier ≡ r.tier)

pub windowed-SameUser : (now : ℕ) (r : Record) → SameUser r (windowed now r)
unfolding windowed
windowed-SameUser now r = ground arith

served-serve :
    {E S : Type 0} (o : Option E × S) (g : Gate)
    → (served o g).0 ≡ ok serve
    → (o.0 ≡ none) × ((served o g).2 ≡ o.1)
unfolding served
served-serve (none, s) g h = (refl, refl)
served-serve (some e, s) g h = cc

-- The record that the rate limit writes back when it serves.
pub check_rate-serve :
    {E S : Type 0} (store : Store E S) (now : ℕ) (rec : Record) (g : Gate) (s : S)
    → (check_rate store now rec g s).0 ≡ ok serve
    → let rec' = windowed now rec in
      let written = record rec' { rate_count = rec'.rate_count + 1 } in
      (over_rate (allowance_for (resolve_tier rec g)) rec'.rate_count ≡ false)
      × ((store.put written s).0 ≡ none)
      × ((check_rate store now rec g s).2 ≡ (store.put written s).1)
unfolding check_rate
check_rate-serve store now rec g s h =
    let rec' = windowed now rec in
    elim (Bool-cases (over_rate (allowance_for (resolve_tier rec g)) rec'.rate_count)) [
      | inl over ↦ cc
      | inr under ↦
          let (saved, final) =
            served-serve (store.put (record rec' { rate_count = rec'.rate_count + 1 }) s) g
              (rw under at h) in
          (under, saved, rw under final)
    ]

module _ {E S : Type 0} (store : Store E S) (view : S → String → Record)
    (laws : IsStore store view) where
  -- A withdrawal or a grant that went through changes the user's consent, leaves the tier and the rate
  -- counter, and leaves every other user as they were.
  pub set_consent-view :
      (id j : String) (c : Consent) (s : S)
      → (set_consent store id c s).0 ≡ none
      → view (set_consent store id c s).1 j
        ≡ (if same_text id j then record (view s id) { consent = c } else view s j)
  unfolding set_consent
  set_consent-view id j c s written =
      laws.update_view s (λ r. ok (record r { consent = c })) id j
        (record (view s id) { consent = c }) refl (laws.user_id-view s id) written

  wrapped-none : (r : Option E × S) → (wrapped r).0 ≡ none → (r.0 ≡ none) × ((wrapped r).1 ≡ r.1)
  unfolding wrapped
  wrapped-none (none, s) h = (refl, refl)
  wrapped-none (some e, s) h = cc

  -- `SetTier` goes through only with a known tier, and then changes the user's tier and nothing else.
  -- The store is taken to have the laws of `IsStore`.
  pub set_tier-view :
      (id j : String) (t : Tier) (s : S)
      → (set_tier store id t s).0 ≡ none
      → (valid_tier t ≡ true)
        × (view (set_tier store id t s).1 j
            ≡ (if same_text id j then record (view s id) { tier = t } else view s j))
  unfolding set_tier
  set_tier-view id j t s written = elim (Bool-cases (valid_tier t)) [
    | inl known ↦
        let f : Record → Result E Record = λ r. ok (record r { tier = t }) in
        let w = wrapped-none (store.update id f s) (ground arith) in
        (
          known,
          rw known (
              rw (w.1) (
                laws.update_view s f id j (record (view s id) { tier = t }) refl
                  (laws.user_id-view s id) w.0)),
        )
    | inr unknown ↦ cc
  ]

  authorize_read-ok :
      (o : Result E Record) (min_tier : Tier) (g : Gate) (b : Bool)
      → authorize_read o min_tier g ≡ ok b
      → (r : Record) × (o ≡ ok r) × (b ≡ at_least (resolve_tier r g) min_tier)
  unfolding authorize_read
  authorize_read-ok (err e) min_tier g b h = cc
  authorize_read-ok (ok r) min_tier g b h = (r, refl, cc)

  resolve_tier_known :
      (r : Record) (g : Gate) (t : Tier) → valid_tier t ≡ true → r.tier ≡ t → resolve_tier r g ≡ t
  unfolding resolve_tier valid_tier
  resolve_tier_known r g t known e = elim (Bool-cases (same_text t "")) [
    | inl blank ↦ cc (ap valid_tier ((same_text_iff t "").0 blank), blank_tier)
    | inr named ↦ rw (e, named)
  ]

  -- Authority is read from the store when it is asked for: once `set_tier` has given a user a tier,
  -- what `authorize` then answers is decided by that tier, whatever it was before. The store is taken
  -- to have the laws of `IsStore`.
  pub authorize-set_tier :
      (u : User) (t min_tier : Tier) (g : Gate) (s : S) (b : Bool)
      → (set_tier store u.id t s).0 ≡ none
      → authorize store u min_tier g (set_tier store u.id t s).1 ≡ ok b
      → b ≡ at_least t min_tier
  unfolding authorize
  authorize-set_tier u t min_tier g s b written answered =
      let s' = (set_tier store u.id t s).1 in
      let (known, v) = set_tier-view u.id u.id t s written in
      let (r, got, b_eq) = authorize_read-ok (store.get u.id s') min_tier g b answered in
      let r_eq : r ≡ record (view s u.id) { tier = t } =
        laws.get_view s' u.id got
        ∙ v
        ∙ ap (λ x. if x then record (view s u.id) { tier = t } else view s u.id)
            (same_text_refl u.id) in
      b_eq
      ∙ ap (λ x. at_least x min_tier)
          (resolve_tier_known r g t known (ap (λ (x : Record). x.tier) r_eq))

  -- `Check` reads the record, and later writes it back whole. A withdrawal that goes through between
  -- the two is undone: once the check has served, the user's stored consent is `granted` again. So it
  -- goes for every withdrawal and every record read before it. The store is taken to have the laws of
  -- `IsStore`.
  pub withdrawal_lost :
      (id : String) (now : ℕ) (g : Gate) (s : S)
      → (view s id).consent ≡ granted
      → (set_consent store id declined s).0 ≡ none
      → let after = (set_consent store id declined s).1 in
        (check_rate store now (view s id) g after).0 ≡ ok serve
        → ((view after id).consent ≡ declined)
          × ((view (check_rate store now (view s id) g after).2 id).consent ≡ granted)
  withdrawal_lost id now g s was withdrawn served_it =
      let s' = (set_consent store id declined s).1 in
      let rec' = windowed now (view s id) in
      let written = record rec' { rate_count = rec'.rate_count + 1 } in
      let same = windowed-SameUser now (view s id) in
      let (under, saved, final) = check_rate-serve store now (view s id) g s' served_it in
      let keyed : same_text rec'.user_id id ≡ true =
        (same_text_iff rec'.user_id id).1 (same.0 ∙ laws.user_id-view s id) in
      (
        ap (λ (r : Record). r.consent) (set_consent-view id id declined s withdrawn)
            ∙ rw (same_text_refl id) refl,
        rw final (
            ap (λ (r : Record). r.consent) (laws.put_view s' written id saved)
            ∙ rw keyed (same.1 ∙ was)),
      )
