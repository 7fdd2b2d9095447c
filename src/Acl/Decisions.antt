-- ===== src/Acl/Decisions.antt =====
-- Which decision `Check` may take, and what it writes.
use yaad_grove.Base.{
  ℕ, ◌+◌, ◌≡◌, refl, ◌∙◌, ap, ◌≢◌, ◌⊎◌, inl, inr, Bool, true, false, String, Option, none, some,
  List, [], ◌∷◌, same_text, same_text_iff, arith, Bool-cases, if◌then◌else◌, Result, ok, err,
}
use yaad_grove.Acl.{
  Record, Consent, granted, declined, unknown, Store, Gate, GateInput, Decision, serve, log_only,
  nudged, refuse, rate_limited, silent, nudge, check, check_read, check_rate, served, windowed,
  over_rate, allowance_for, resolve_tier,
}
use yaad_grove.Acl.Laws.{IsStore}
use yaad_grove.Acl.Writes.{windowed-SameUser, check_rate-serve}

-- What a decision says of the sender's consent and of the message.
abbrev pub Justified : Decision → Consent → Bool → Type 0
Justified serve c directed = (c ≡ granted) × (directed ≡ true)
Justified log_only c directed = (c ≡ granted) × (directed ≡ false)
Justified nudged c directed = (c ≡ unknown) × (directed ≡ true)
Justified rate_limited c directed = (c ≡ granted) × (directed ≡ true)
Justified silent c directed = c ≢ granted
Justified refuse c directed = ⊥

nudge-decision :
    (id : String) (now : ℕ) (g : Gate)
    → ((nudge id now g).0 ≡ nudged) ⊎ ((nudge id now g).0 ≡ silent)
unfolding nudge
nudge-decision id now g = ground arith

-- The outcome of a check that read the record `r`: no record changes, or a consented, directed message is
-- served and the record that was read is written back with the message counted.
pub data Outcome {E S : Type 0} (view : S → String → Record) (i : GateInput) (now : ℕ) (g : Gate)
    (s : S) (r : Record) (o : Result E Decision × Gate × S) : Type 0 where
  kept : (o.0 ≢ ok serve) → ((id : String) → view o.2 id ≡ view s id) → Outcome view i now g s r o
  counted :
      o.0 ≡ ok serve
      → over_rate (allowance_for (resolve_tier r g)) (windowed now r).rate_count ≡ false
      → ((id : String)
          → view o.2 id ≡ (
              if same_text i.user.id id
              then record (windowed now r) { rate_count = (windowed now r).rate_count + 1 }
              else view s id))
      → Outcome view i now g s r o

served_only :
    {E S : Type 0} (o : Option E × S) (g : Gate) {d : Decision} → (served o g).0 ≡ ok d → d ≡ serve
unfolding served
served_only (none, s) g h = cc
served_only (some e, s) g h = cc

pub serve_or_not : {E : Type 0} (r : Result E Decision) → (r ≡ ok serve) ⊎ (r ≢ ok serve)
serve_or_not (err e) = inr (λ x. cc x)
serve_or_not (ok serve) = inl refl
serve_or_not (ok _) = inr (λ x. cc x)

IsServed-cases :
    {E S : Type 0} (o : Option E × S) (g : Gate)
    → ((o.0 ≡ none) × ((served o g).0 ≡ ok serve))
      ⊎ ((e : E) × (o.0 ≡ some e) × ((served o g).2 ≡ o.1))
unfolding served
IsServed-cases (none, s) g = inl (refl, refl)
IsServed-cases (some e, s) g = inr (e, refl, refl)

declined_only : (d : Decision) (b : Bool) → Justified d declined b → d ≡ silent
declined_only silent b j = refl
declined_only refuse b j = absurd j
declined_only serve b j = cc (j.0)
declined_only log_only b j = cc (j.0)
declined_only nudged b j = cc (j.0)
declined_only rate_limited b j = cc (j.0)

module _ {E S : Type 0} (store : Store E S) (view : S → String → Record)
    (laws : IsStore store view) where
  put_kept :
      (r : Record) (g : Gate) (s : S) (id : String)
      → (served (store.put r s) g).0 ≢ ok serve
      → view (served (store.put r s) g).2 id ≡ view s id
  put_kept r g s id h = elim (IsServed-cases (store.put r s) g) [
    | inl (saved, ok_serve) ↦ absurd (h ok_serve)
    | inr (e, failed, same) ↦ rw same (laws.put_failed s r id failed)
  ]

  rate_justified :
      (now : ℕ) (rec : Record) (g : Gate) (s : S) {d : Decision}
      → (check_rate store now rec g s).0 ≡ ok d
      → (d ≡ serve) ⊎ (d ≡ rate_limited)
  unfolding check_rate served
  rate_justified now rec g s {d} h =
      let rec' = windowed now rec in
      let put = store.put (record rec' { rate_count = rec'.rate_count + 1 }) s in
      elim (Bool-cases (over_rate (allowance_for (resolve_tier rec g)) rec'.rate_count)) [
        | inl over ↦ inr (cc (rw over at h))
        | inr under ↦ inl (served_only put g (rw under at h))
      ]

  by_consent :
      (i : GateInput) (now : ℕ) (r : Record) (g : Gate) (s : S) (d : Decision) (c : Consent)
      (b : Bool)
      → r.consent ≡ c
      → i.directed ≡ b
      → (check_read store i now (ok r) g s).0 ≡ ok d
      → Justified d c b
  unfolding check_read
  by_consent i now r g s d declined b ec eb h =
      let e : d ≡ silent = cc (rw ec at h) in rw e (λ x. cc x)
  by_consent i now r g s d unknown true ec eb h = elim (nudge-decision i.user.id now g) [
    | inl n ↦ let e : d ≡ nudged = cc (n, rw (ec, eb) at h) in rw e (refl, refl)
    | inr q ↦ let e : d ≡ silent = cc (q, rw (ec, eb) at h) in rw e (λ x. cc x)
  ]
  by_consent i now r g s d unknown false ec eb h =
      let e : d ≡ silent = cc (rw (ec, eb) at h) in rw e (λ x. cc x)
  by_consent i now r g s d granted true ec eb h =
      elim (rate_justified now (record r { consent = granted }) g s {d = d} (rw (ec, eb) at h)) [
        | inl e ↦ rw e (refl, refl)
        | inr e ↦ rw e (refl, refl)
      ]
  by_consent i now r g s d granted false ec eb h =
      let e : d ≡ log_only = cc (rw (ec, eb) at h) in rw e (refl, refl)

  read-Justified :
      (i : GateInput) (now : ℕ) (o : Result E Record) (g : Gate) (s : S) (d : Decision)
      → (check_read store i now o g s).0 ≡ ok d
      → (r : Record) × (o ≡ ok r) × Justified d r.consent i.directed
  read-Justified i now (err e) g s d h = unfold check_read in cc
  read-Justified i now (ok r) g s d h =
      (r, refl, by_consent i now r g s d r.consent i.directed refl refl h)

  -- Every decision of the gate follows from the sender's stored consent and from whether the message
  -- is directed: only a consented sender is served, logged or rate limited, only a sender who has
  -- never answered is nudged, both as the message is directed or not, and only an unconsented one
  -- meets silence. A refusal is never returned without an error of the store. The store is taken to
  -- have the laws of `IsStore`.
  pub check-Justified :
      (i : GateInput) (now : ℕ) (g : Gate) (s : S) (d : Decision)
      → (check store i now g s).0 ≡ ok d
      → Justified d (view s i.user.id).consent i.directed
  unfolding check
  check-Justified i now g s d h =
      let (r, got, j) = read-Justified i now (store.get i.user.id s) g s d h in
      let e = laws.get_view s i.user.id got in rw (← e) j

  -- A check that does not serve, or that is not allowed to, leaves every record: the failing put too.
  rate_kept :
      (now : ℕ) (rec : Record) (g : Gate) (s : S) (id : String)
      → (check_rate store now rec g s).0 ≢ ok serve
      → view (check_rate store now rec g s).2 id ≡ view s id
  unfolding check_rate
  rate_kept now rec g s id h =
      let rec' = windowed now rec in
      let written = record rec' { rate_count = rec'.rate_count + 1 } in
      elim (Bool-cases (over_rate (allowance_for (resolve_tier rec g)) rec'.rate_count)) [
        | inl over ↦ rw over refl
        | inr under ↦ rw under (put_kept written g s id (rw under at h))
      ]

  quiet_kept :
      (i : GateInput) (now : ℕ) (r : Record) (g : Gate) (s : S) (c : Consent) (b : Bool)
      → r.consent ≡ c
      → i.directed ≡ b
      → (((check_read store i now (ok r) g s).2 ≡ s)
          × ((check_read store i now (ok r) g s).0 ≢ ok serve))
        ⊎ (check_read store i now (ok r) g s ≡ check_rate store now r g s)
  unfolding check_read
  quiet_kept i now r g s declined b ec eb = rw ec (inl (refl, λ e. cc))
  quiet_kept i now r g s unknown true ec eb =
      rw (ec, eb) (inl (refl, λ e. ground (arith, nudge-decision i.user.id now g)))
  quiet_kept i now r g s unknown false ec eb = rw (ec, eb) (inl (refl, λ e. cc))
  quiet_kept i now r g s granted true ec eb = inr (ground arith)
  quiet_kept i now r g s granted false ec eb = rw (ec, eb) (inl (refl, λ e. cc))

  rate_Outcome :
      (i : GateInput) (now : ℕ) (g : Gate) (s : S) (r : Record)
      → r.user_id ≡ i.user.id
      → (check_rate store now r g s).0 ≡ ok serve
      → Outcome view i now g s r (check_rate store now r g s)
  rate_Outcome i now g s r owner h =
      let rec' = windowed now r in
      let written = record rec' { rate_count = rec'.rate_count + 1 } in
      let (under, saved, final) = check_rate-serve store now r g s h in
      let keyed : rec'.user_id ≡ i.user.id = (windowed-SameUser now r).0 ∙ owner in
      counted h under (λ id. rw final (
        laws.put_view s written id saved
        ∙ ap (λ k. if same_text k id then written else view s id) keyed))

  -- The record may have been read at any earlier time.
  pub read_Outcome :
      (i : GateInput) (now : ℕ) (g : Gate) (s : S) (r : Record)
      → r.user_id ≡ i.user.id
      → Outcome view i now g s r (check_read store i now (ok r) g s)
  read_Outcome i now g s r owner = elim (quiet_kept i now r g s r.consent i.directed refl refl) [
    | inl (same, other) ↦ kept other (λ id. ap (λ t. view t id) same)
    | inr e ↦ rw e (elim (serve_or_not (check_rate store now r g s).0) [
      | inl h ↦ rate_Outcome i now g s r owner h
      | inr h ↦ kept h (λ id. rate_kept now r g s id h)
    ])
  ]

  got_Outcome :
      (i : GateInput) (now : ℕ) (g : Gate) (s : S) (o : Result E Record)
      → ((r : Record) → o ≡ ok r → r ≡ view s i.user.id)
      → Outcome view i now g s (view s i.user.id) (check_read store i now o g s)
  got_Outcome i now g s (err e) got = unfold check_read in kept (λ x. cc x) (λ id. refl)
  got_Outcome i now g s (ok r) got =
      rw (got r refl) (read_Outcome i now g s (view s i.user.id) (laws.user_id-view s i.user.id))

  -- `check` changes a record only by serving, and then only the sender's.
  pub check-Outcome :
      (i : GateInput) (now : ℕ) (g : Gate) (s : S)
      → Outcome view i now g s (view s i.user.id) (check store i now g s)
  unfolding check
  check-Outcome i now g s =
      got_Outcome i now g s (store.get i.user.id s) (λ r e. laws.get_view s i.user.id e)

  consent_counted :
      (k id : String) (now : ℕ) (s : S)
      → (if same_text k id
          then record (windowed now (view s k)) {
            rate_count = (windowed now (view s k)).rate_count + 1;
          }
          else view s id).consent
        ≡ (view s id).consent
  consent_counted k id now s = elim (Bool-cases (same_text k id)) [
    | inl same ↦ rw same (
        (windowed-SameUser now (view s k)).1
        ∙ ap (λ j. (view s j).consent) ((same_text_iff k id).0 same))
    | inr other ↦ rw other refl
  ]

  -- Checks one after the other, of any senders.
  unfoldable pub checks : List (GateInput × ℕ) → Gate → S → Gate × S
  checks [] g s = (g, s)
  checks ((i, now) ∷ rest) g s = let (d, g', s') = check store i now g s in checks rest g' s'

  consent_kept :
      (i : GateInput) (now : ℕ) (g : Gate) (s : S) (id : String)
      → (view (check store i now g s).2 id).consent ≡ (view s id).consent
  consent_kept i now g s id = elim (check-Outcome i now g s) [
    | kept h same ↦ ap (λ (r : Record). r.consent) (same id)
    | counted h under v ↦ rw (v id) (consent_counted i.user.id id now s)
  ]

  checks-consent :
      (l : List (GateInput × ℕ)) (g : Gate) (s : S) (id : String)
      → (view (checks l g s).1 id).consent ≡ (view s id).consent
  unfolding checks
  checks-consent [] g s id = refl
  checks-consent ((i, now) ∷ rest) g s id =
      let (d, g', s') = check store i now g s in
      checks-consent rest g' s' id ∙ consent_kept i now g s id

  -- Whatever messages the gate has decided since, from whomever, a user who declined meets silence:
  -- never an answer, never a nudge, never a log. The store is taken to have the laws of `IsStore`.
  pub declined_silent :
      (l : List (GateInput × ℕ)) (i : GateInput) (now : ℕ) (g : Gate) (s : S) (d : Decision)
      → (view s i.user.id).consent ≡ declined
      → let (g', s') = checks l g s in (check store i now g' s').0 ≡ ok d → d ≡ silent
  declined_silent l i now g s d was h =
      let (g', s') = checks l g s in
      declined_only d i.directed
        (rw (checks-consent l g s i.user.id ∙ was) at (check-Justified i now g' s' d h))
