-- ===== src/Runtime/Privacy.antt =====
-- What the handler of internal/runtime/handler.go records, and of whom.
use yaad_grove.Base.{
  ℕ, ◌≡◌, refl, sym, ap, ◌≢◌, ◌⊎◌, subst, inl, inr, Bool, true, false, String, none, Bool-cases,
  Result, ok, err, arith,
}
use yaad_grove.Core.{Inbound, group, dm, Surface}
use yaad_grove.Acl.{
  Record, Consent, granted, declined, unknown, Gate, GateInput, Decision, serve, log_only, nudged,
  refuse, rate_limited, silent, check, check_read, nudge,
}
use yaad_grove.Acl.Laws.{IsStore}
use yaad_grove.Runtime.Services.{Services, State, Times}
use yaad_grove.Runtime.Handler.{handle, routed, message, gated, decided, is_dm, withdrawals_of}

-- A decision after which the handler records the message.
abbrev pub records : {E : Type 0} → Result E Decision → Bool
records (err e) = false
records (ok serve) = true
records (ok log_only) = true
records (ok rate_limited) = true
records (ok nudged) = false
records (ok silent) = false
records (ok refuse) = false

-- The two states differ at most in the nudges that the gate remembers.
abbrev pub SameButNudges : {S Q T W : Type 0} → State S Q T W → State S Q T W → Type 0
SameButNudges s s' =
    (s'.acl ≡ s.acl)
    × (s'.qlog ≡ s.qlog)
    × (s'.transcript ≡ s.transcript)
    × (s'.buffer ≡ s.buffer)
    × (s'.world ≡ s.world)

nudge-records :
    (E : Type 0) (id : String) (now : ℕ) (g : Gate)
    → records {E = E} (ok (nudge id now g).0) ≡ false
unfolding nudge
nudge-records E id now g = ground arith

consent_cases : (c : Consent) → (c ≡ granted) ⊎ ((c ≡ declined) ⊎ (c ≡ unknown))
consent_cases granted = inl refl
consent_cases declined = inr (inl refl)
consent_cases unknown = inr (inr refl)

pub not_dm : (x : Surface) → x ≡ group → is_dm x ≡ false
unfolding is_dm
not_dm group e = refl
not_dm dm e = cc e

module _ {E F S Q T W : Type 0} (env : Services E F S Q T W) where
  pub handle-message :
      (i : Inbound) (at : Times) (s : State S Q T W)
      → i.callback ≡ none
      → handle env i at s ≡ message env i at s
  unfolding handle routed
  handle-message i at s text = ap (λ c. routed env i at s c) text

  unconsented_read :
      (i : GateInput) (now : ℕ) (r : Result E Record) (g : Gate) (s : S)
      → ((rec : Record) → r ≡ ok rec → rec.consent ≢ granted)
      → (records (check_read env.store i now r g s).0 ≡ false)
        × ((check_read env.store i now r g s).2 ≡ s)
  unfolding check_read
  unconsented_read i now (err e) g s h = (refl, refl)
  unconsented_read i now (ok rec) g s h = elim (consent_cases rec.consent) [
    | inl consented ↦ absurd (h rec refl consented)
    | inr (inl withdrawn) ↦ rw withdrawn (refl, refl)
    | inr (inr never) ↦ elim (Bool-cases i.directed) [
      | inl d ↦ rw (never, d) (nudge-records E i.user.id now g, refl)
      | inr d ↦ rw (never, d) (refl, refl)
    ]
  ]

  unrecorded :
      (i : Inbound) (at : Times) (n : ℕ) (d : Result E Decision) (s : State S Q T W)
      → records d ≡ false
      → (decided env i at n d s).1 ≡ s
  unfolding decided
  unrecorded i at n (err e) s h = refl
  unrecorded i at n (ok nudged) s h = refl
  unrecorded i at n (ok silent) s h = refl
  unrecorded i at n (ok refuse) s h = refl
  unrecorded i at n (ok serve) s h = cc h
  unrecorded i at n (ok log_only) s h = cc h
  unrecorded i at n (ok rate_limited) s h = cc h

  module _ (view : S → String → Record) (laws : IsStore env.store view) where
    gated_unconsented :
        (i : Inbound) (at : Times) (s : State S Q T W)
        → (view s.acl i.user.id).consent ≢ granted
        → SameButNudges s (gated env i at s).1
    unfolding gated
    gated_unconsented i at s h =
        let input : GateInput = record {
          user = i.user;
          surface = i.surface;
          directed = i.directed;
        } in
        let (quiet, same) : (records (check env.store input at.gated s.gate s.acl).0 ≡ false)
            × ((check env.store input at.gated s.gate s.acl).2 ≡ s.acl) =
          unfold check in
          unconsented_read input at.gated (env.store.get i.user.id s.acl) s.gate s.acl (λ rec read.
            subst (λ r. r.consent ≢ granted) (sym (laws.get_view s.acl i.user.id read)) h) in
        let kept =
          unrecorded i at (withdrawals_of env env.eraser i.user.id s.world)
            (check env.store input at.gated s.gate s.acl).0
            (record s {
              gate = (check env.store input at.gated s.gate s.acl).1;
              acl = (check env.store input at.gated s.gate s.acl).2;
            })
            quiet in
        rw kept (same, refl, refl, refl, refl)

    -- A group message of a user who has not granted consent is recorded nowhere: it enters neither
    -- the quarantine log nor the transcript nor the conversation buffer, changes no access-control
    -- record, and changes nothing that the engine, the button store and the eraser keep. Only the
    -- gate may remember that it nudged the user. The store is taken to have the laws of `IsStore`.
    pub unconsented_unrecorded :
        (i : Inbound) (at : Times) (s : State S Q T W)
        → i.callback ≡ none
        → i.surface ≡ group
        → (view s.acl i.user.id).consent ≢ granted
        → SameButNudges s (handle env i at s).1
    unfolding message
    unconsented_unrecorded i at s text in_group h =
        rw (handle-message i at s text, not_dm i.surface in_group) (gated_unconsented i at s h)
