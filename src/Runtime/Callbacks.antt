-- ===== src/Runtime/Callbacks.antt =====
-- internal/runtime/handler.go, verbs.go and proposer.go: when the executor behind a button runs, and
-- what it may change.
use yaad_grove.Base.{
  Bool-cases, same_text, ◌≡◌, refl, ◌∙◌, sym, ap, ◌≢◌, ◌⊎◌, arith, inl, inr, subst, Bool, true,
  false, String, Option, none, some, Map, lookup, insert, Option-cases, if◌then◌else◌, same_text_ne,
  same_text_iff, same_text_refl, Result, ok, err,
}
use yaad_grove.Core.{User, Action, Reply}
use yaad_grove.Acl.{
  Record, Tier, tier_admin, granted, Store, Gate, authorize, authorize_read, at_least, resolve_tier,
  set_consent,
}
use yaad_grove.Acl.Laws.{IsStore}
use yaad_grove.Acl.Writes.{set_consent-view}
use yaad_grove.Runtime.Policy.{Catalog}
use yaad_grove.Runtime.Verbs.{
  Verb, VerbError, default_registry, set_tier_verb, consent_grant_verb, consent_grant_status,
  dismiss_verb, echo_verb, execute_action, run_verb, authorized, validated, finished, refusal_of,
}

module _ {E S : Type 0} (store : Store E S) (gate : Gate) (c : Catalog) where
  -- The executor of the verb ran: the user was authorised for it and its parameters were valid.
  abbrev pub Ran : Verb E S → User → Map String → S → Reply × S → Type 0
  Ran verb u p s o =
      (authorize store u verb.min_tier gate s ≡ ok true)
      × (refusal_of verb.validate p ≡ none)
      × (o ≡ finished store gate c (verb.execute u p s))

  -- Nothing ran: no record is written and the reply has a toast only.
  abbrev pub Denied : S → Reply × S → Type 0
  Denied s o = (o.1 ≡ s) × (o.0.text ≡ "")

  validated_cases :
      (verb : Verb E S) (u : User) (p : Map String) (o : Option (VerbError E)) (s : S)
      → Denied s (validated store gate c verb u p o s)
        ⊎ ((o ≡ none)
            × (validated store gate c verb u p o s ≡ finished store gate c (verb.execute u p s)))
  unfolding validated
  validated_cases verb u p (some e) s = inl (refl, refl)
  validated_cases verb u p none s = inr (refl, refl)

  authorized_cases :
      (verb : Verb E S) (u : User) (p : Map String) (r : Result E Bool) (s : S)
      → Denied s (authorized store gate c verb u p r s)
        ⊎ ((r ≡ ok true)
            × ((refusal_of verb.validate p ≡ none)
                × (authorized store gate c verb u p r s
                    ≡ finished store gate c (verb.execute u p s))))
  unfolding authorized
  authorized_cases verb u p (err e) s = inl (refl, refl)
  authorized_cases verb u p (ok false) s = inl (refl, refl)
  authorized_cases verb u p (ok true) s =
      elim (validated_cases verb u p (refusal_of verb.validate p) s) [
        | inl d ↦ inl d
        | inr r ↦ inr (refl, r)
      ]

  run_cases :
      (o : Option (Verb E S)) (u : User) (a : Action) (s : S)
      → Denied s (run_verb store gate c o u a s)
        ⊎ ((verb : Verb E S) × (o ≡ some verb)
            × Ran verb u a.params s (run_verb store gate c o u a s))
  unfolding run_verb
  run_cases none u a s = inl (refl, refl)
  run_cases (some verb) u a s =
      elim (authorized_cases verb u a.params (authorize store u verb.min_tier gate s) s) [
        | inl d ↦ inl d
        | inr (able, (valid, out)) ↦ inr (verb, refl, (able, valid, out))
      ]

  -- A click whose token resolved either changes no record and answers with a toast only, or names a
  -- registered verb for which the user has the tier at the time of the click and whose parameters are
  -- valid; then the outcome is that of the verb's executor.
  pub executed_authorized :
      (registry : Map (Verb E S)) (u : User) (a : Action) (s : S)
      → Denied s (execute_action store gate c (some registry) u a s)
        ⊎ ((verb : Verb E S) × (lookup a.verb registry ≡ some verb)
            × Ran verb u a.params s (execute_action store gate c (some registry) u a s))
  unfolding execute_action
  executed_authorized registry u a s = run_cases (lookup a.verb registry) u a s

  default_cases :
      (name : String) (verb : Verb E S)
      → lookup name (default_registry store c) ≡ some verb
      → (verb ≡ set_tier_verb store)
        ⊎ ((verb ≡ consent_grant_verb store c) ⊎ ((verb ≡ dismiss_verb) ⊎ (verb ≡ echo_verb)))
  unfolding default_registry lookup insert
  default_cases name verb h = ground (arith)

  module _ (view : S → String → Record) (laws : IsStore store view) where
    authorize_read-true :
        (r : Result E Record) (t : Tier)
        → authorize_read r t gate ≡ ok true
        → (rec : Record) × (r ≡ ok rec) × (at_least (resolve_tier rec gate) t ≡ true)
    unfolding authorize_read
    authorize_read-true (err e) t h = cc h
    authorize_read-true (ok rec) t h = (rec, refl, cc)

    authorize-view :
        (u : User) (t : Tier) (s : S)
        → authorize store u t gate s ≡ ok true
        → at_least (resolve_tier (view s u.id) gate) t ≡ true
    unfolding authorize
    authorize-view u t s h =
        let (rec, read, able) = authorize_read-true (store.get u.id s) t h in
        subst (λ r. at_least (resolve_tier r gate) t ≡ true) (laws.get_view s u.id read) able

    -- What a user without admin authority may change: their own consent.
    Harmless : User → S → S → Type 0
    Harmless u s s' =
        ((id : String) → id ≢ u.id → view s' id ≡ view s id)
        × ((view s' u.id).tier ≡ (view s u.id).tier)

    grant_failed :
        (u : User) (s : S) (id : String) {e : E}
        → (set_consent store u.id granted s).0 ≡ some e
        → view (set_consent store u.id granted s).1 id ≡ view s id
    unfolding set_consent
    grant_failed u s id failed =
        laws.update_failed s (λ r. ok (record r { consent = granted })) u.id id failed

    grant-Harmless : (u : User) (s : S) → Harmless u s (set_consent store u.id granted s).1
    unfolding Harmless
    grant-Harmless u s = elim (Option-cases (set_consent store u.id granted s).0) [
      | inl written ↦ (
        (λ id other.
            let kept = set_consent-view store view laws u.id id granted s written in
            kept
            ∙ ap (λ b. if b then record (view s u.id) { consent = granted } else view s id)
                (same_text_ne u.id id (λ e. other (sym e)))),
        (let own = set_consent-view store view laws u.id u.id granted s written in
            ap (λ r. r.tier)
              (own
                ∙ ap (λ b. if b then record (view s u.id) { consent = granted } else view s u.id)
                    (same_text_refl u.id))),
      )
      | inr (e, failed) ↦ (
        (λ id other. grant_failed u s id failed),
        ap (λ r. r.tier) (grant_failed u s u.id failed),
      )
    ]

    finished_store : (o : Result (VerbError E) String × S) → (finished store gate c o).1 ≡ o.1
    unfolding finished
    finished_store (err e, s) = refl
    finished_store (ok t, s) = refl

    consent_status_store : (o : Option E × S) → (consent_grant_status c o).1 ≡ o.1
    unfolding consent_grant_status
    consent_status_store (some e, s) = refl
    consent_status_store (none, s) = refl

    verb-Harmless :
        (name : String) (verb : Verb E S) (u : User) (p : Map String) (s : S)
        → at_least (resolve_tier (view s u.id) gate) tier_admin ≡ false
        → lookup name (default_registry store c) ≡ some verb
        → authorize store u verb.min_tier gate s ≡ ok true
        → Harmless u s (verb.execute u p s).1
    verb-Harmless name verb u p s weak found able = elim (default_cases name verb found) [
      | inl is_tier ↦ absurd (
          let admin = subst (λ v. authorize store u v.min_tier gate s ≡ ok true) is_tier able in
          let strong = authorize-view u tier_admin s (unfold set_tier_verb in admin) in
          cc (weak, strong))
      | inr (inl is_grant) ↦
          subst (λ v. Harmless u s (v.execute u p s).1) (sym is_grant)
            (unfold consent_grant_verb in
              subst (λ t. Harmless u s t)
                (sym (consent_status_store (set_consent store u.id granted s)))
                (grant-Harmless u s))
      | inr (inr (inl is_dismiss)) ↦
          subst (λ v. Harmless u s (v.execute u p s).1) (sym is_dismiss)
            (unfold dismiss_verb Harmless in ((λ id other. refl), refl))
      | inr (inr (inr is_echo)) ↦
          subst (λ v. Harmless u s (v.execute u p s).1) (sym is_echo)
            (unfold echo_verb Harmless in ((λ id other. refl), refl))
    ]

    -- A click of a user without admin authority changes no tier, and no record but the user's own.
    -- The store is taken to have the laws of `IsStore`.
    pub click_harmless :
        (u : User) (a : Action) (s : S) (id : String)
        → at_least (resolve_tier (view s u.id) gate) tier_admin ≡ false
        → let s' = (execute_action store gate c (some (default_registry store c)) u a s).1 in
          ((view s' id).tier ≡ (view s id).tier) × ((view s' id ≡ view s id) ⊎ (id ≡ u.id))
    unfolding Harmless
    click_harmless u a s id weak = elim (executed_authorized (default_registry store c) u a s) [
      | inl (kept, toast) ↦ rw kept (refl, inl refl)
      | inr (verb, found, (able, valid, outcome)) ↦
          let (others, own) = verb-Harmless a.verb verb u a.params s weak found able in
          rw (ap (λ o. o.1) outcome ∙ finished_store (verb.execute u a.params s))
            (elim (Bool-cases (same_text id u.id)) [
              | inl same ↦
                  let e = (same_text_iff id u.id).0 same in
                  (
                    subst (λ x. (view (verb.execute u a.params s).1 x).tier ≡ (view s x).tier)
                        (sym e) own,
                    inr e,
                  )
              | inr other ↦
                  let e = others id (λ e. cc (other, same_text_refl u.id, e)) in
                  (ap (λ r. r.tier) e, inl e)
            ])
    ]
