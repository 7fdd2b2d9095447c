-- ===== src/Runtime/Verbs.antt =====
-- internal/runtime/registry.go, verbs.go, proposer.go, and `executeAction` of handler.go.
use yaad_grove.Base.{
  Bool, true, false, not, String, Option, none, some, [], ◌∷◌, Map, lookup, insert, if◌then◌else◌,
  same_text, Result, ok, err,
}
use yaad_grove.Base.Text.{trim_space, ◌<>◌}
use yaad_grove.Core.{User, Action, Reply, empty_reply, Surface, group, dm}
use yaad_grove.Acl.{
  Tier, tier_throttled, tier_admin, valid_tier, at_least, Store, Gate, SetTierError, granted,
  set_tier, set_consent, authorize,
}
use yaad_grove.Runtime.Policy.{Catalog, get}

pub data VerbError (E : Type 0) : Type 0 where
  missing_user unknown_tier : VerbError E
  set_tier_failed : SetTierError E → VerbError E
  set_consent_failed : E → VerbError E

-- `S` is the access-control store, which the executors write.
pub record Verb (E S : Type 0) : Type 0 where
  pub min_tier : Tier
  pub validate : Option (Map String → Option (VerbError E))
  pub execute : User → Map String → S → Result (VerbError E) String × S
  pub describe : Option (Map String → String)

-- A missing parameter reads as the empty string.
abbrev pub or_blank : Option String → String
or_blank none = ""
or_blank (some s) = s

abbrev pub param : String → Map String → String
param k p = or_blank (lookup k p)

module _ {E : Type 0} where
  unfoldable pub set_tier_validate : Map String → Option (VerbError E)
  set_tier_validate p =
      if same_text (trim_space (param "user" p)) ""
      then some missing_user
      else if not (valid_tier (param "tier" p))
      then some unknown_tier
      else none

module _ {E S : Type 0} where
  unfoldable pub echo_verb : Verb E S
  echo_verb = record {
    min_tier = tier_throttled;
    validate = none;
    execute = λ u p s. (ok "", s);
    describe = none;
  }

  unfoldable pub dismiss_verb : Verb E S
  dismiss_verb = record {
    min_tier = tier_throttled;
    validate = none;
    execute = λ u p s. (ok "Dismissed.", s);
    describe = none;
  }

  unfoldable pub set_tier_status :
      String → Tier → Option (SetTierError E) × S → Result (VerbError E) String × S
  set_tier_status target tier (some e, s) = (err (set_tier_failed e), s)
  set_tier_status target tier (none, s) = (ok ("Set " <> target <> " → " <> tier <> "."), s)

  unfoldable pub set_tier_verb : Store E S → Verb E S
  unfolding set_tier_status set_tier_validate
  set_tier_verb store = record {
    min_tier = tier_admin;
    validate = some set_tier_validate;
    execute = λ u p s.
        set_tier_status (param "user" p) (param "tier" p)
          (set_tier store (param "user" p) (param "tier" p) s);
    describe = some (λ p. "Set " <> param "user" p <> " → " <> param "tier" p);
  }

  unfoldable pub consent_grant_status : Catalog → Option E × S → Result (VerbError E) String × S
  consent_grant_status c (some e, s) = (err (set_consent_failed e), s)
  consent_grant_status c (none, s) = (ok (get c "consent_granted"), s)

  unfoldable pub consent_grant_verb : Store E S → Catalog → Verb E S
  unfolding consent_grant_status
  consent_grant_verb store c = record {
    min_tier = tier_throttled;
    validate = none;
    execute = λ u p s. consent_grant_status c (set_consent store u.id granted s);
    describe = none;
  }

  unfoldable pub default_registry : Store E S → Catalog → Map (Verb E S)
  default_registry store c = insert "set_tier" (set_tier_verb store) (
      insert "consent_grant" (consent_grant_verb store c)
        (insert "dismiss" dismiss_verb (insert "echo" echo_verb [])))

-- The toasts of `executeAction`, by their catalog keys.
abbrev pub notice : Catalog → String → Reply
notice c key = record empty_reply { notice = get c key }

abbrev pub refusal_of :
    {E : Type 0} → Option (Map String → Option (VerbError E)) → Map String → Option (VerbError E)
refusal_of none p = none
refusal_of (some validate) p = validate p

module _ {E S : Type 0} (store : Store E S) (gate : Gate) (c : Catalog) where
  unfoldable pub finished : Result (VerbError E) String × S → Reply × S
  finished (err e, s) = (notice c "callback_failed", s)
  finished (ok status, s) = (record (notice c "callback_done") { text = status }, s)

  unfoldable pub validated : Verb E S → User → Map String → Option (VerbError E) → S → Reply × S
  unfolding finished
  validated verb subject p (some e) s = (notice c "callback_invalid", s)
  validated verb subject p none s = finished (verb.execute subject p s)

  unfoldable pub authorized : Verb E S → User → Map String → Result E Bool → S → Reply × S
  unfolding validated
  authorized verb subject p (err e) s = (notice c "callback_denied", s)
  authorized verb subject p (ok false) s = (notice c "callback_denied", s)
  authorized verb subject p (ok true) s = validated verb subject p (refusal_of verb.validate p) s

  unfoldable pub run_verb : Option (Verb E S) → User → Action → S → Reply × S
  unfolding authorized
  run_verb none subject action s = (notice c "callback_unknown_verb", s)
  run_verb (some verb) subject action s =
      authorized verb subject action.params (authorize store subject verb.min_tier gate s) s

  unfoldable pub execute_action : Option (Map (Verb E S)) → User → Action → S → Reply × S
  unfolding run_verb
  execute_action none subject action s = (notice c "callback_unknown_verb", s)
  execute_action (some registry) subject action s =
      run_verb (lookup action.verb registry) subject action s

pub record Proposal : Type 0 where
  pub prompt : String
  pub action : Action

pub data ProposalError (E : Type 0) : Type 0 where
  unknown_proposed_verb not_describable not_private recipient_cannot_approve : ProposalError E
  invalid_params : VerbError E → ProposalError E
  authorize_failed : E → ProposalError E

unfoldable pub is_privileged : Tier → Bool
is_privileged min_tier = at_least min_tier tier_admin

abbrev is_dm : Surface → Bool
is_dm dm = true
is_dm group = false

module _ {E S : Type 0} (store : Store E S) (gate : Gate) where
  abbrev pub offer : Proposal → String → Reply
  offer p label = record empty_reply {
    text = p.prompt;
    actions =
        record p.action { label = label }
        ∷ record { verb = "dismiss"; params = []; label = "Dismiss" }
        ∷ [];
  }

  unfoldable pub approvable : Proposal → String → Result E Bool → Result (ProposalError E) Reply
  approvable p label (err e) = err (authorize_failed e)
  approvable p label (ok false) = err recipient_cannot_approve
  approvable p label (ok true) = ok (offer p label)

  unfoldable pub privileged_offer :
      Verb E S
      → Proposal
      → User
      → Surface
      → S
      → Option (Map String → String)
      → Result (ProposalError E) Reply
  unfolding approvable
  privileged_offer verb p recipient surface s none = err not_describable
  privileged_offer verb p recipient surface s (some describe) =
      if not (is_dm surface)
      then err not_private
      else approvable p (describe p.action.params) (authorize store recipient verb.min_tier gate s)

  abbrev pub label_of : Option (Map String → String) → Map String → String
  label_of none params = "Approve"
  label_of (some describe) params = describe params

  unfoldable pub described :
      Verb E S
      → Proposal
      → User
      → Surface
      → S
      → Option (VerbError E)
      → Result (ProposalError E) Reply
  unfolding privileged_offer
  described verb p recipient surface s (some e) = err (invalid_params e)
  described verb p recipient surface s none =
      if is_privileged verb.min_tier
      then privileged_offer verb p recipient surface s verb.describe
      else ok (offer p (label_of verb.describe p.action.params))

  unfoldable pub proposed :
      Option (Verb E S) → Proposal → User → Surface → S → Result (ProposalError E) Reply
  unfolding described
  proposed none p recipient surface s = err unknown_proposed_verb
  proposed (some verb) p recipient surface s =
      described verb p recipient surface s (refusal_of verb.validate p.action.params)

  unfoldable pub render_proposal :
      Map (Verb E S) → Proposal → User → Surface → S → Result (ProposalError E) Reply
  unfolding proposed
  render_proposal registry p recipient surface s =
      proposed (lookup p.action.verb registry) p recipient surface s
