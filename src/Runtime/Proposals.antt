-- ===== src/Runtime/Proposals.antt =====
-- internal/runtime/proposer.go: which proposals become buttons.
use yaad_grove.Base.{
  ◌≡◌, refl, ◌⊎◌, inl, inr, Bool, true, false, String, Option, none, some, Map, lookup, Bool-cases,
  Result, ok, err,
}
use yaad_grove.Core.{User, Reply, Surface, group, dm}
use yaad_grove.Acl.{Store, Gate, authorize}
use yaad_grove.Runtime.Verbs.{
  Verb, VerbError, Proposal, is_privileged, refusal_of, offer, label_of, render_proposal, proposed,
  described, privileged_offer, approvable,
}

module _ {E S : Type 0} (store : Store E S) (gate : Gate) where
  -- What a rendered proposal of a privileged verb has.
  pub record IsPrivate (verb : Verb E S) (p : Proposal) (u : User) (surface : Surface) (s : S)
      (r : Reply) : Type 0 where
    pub in_dm : surface ≡ dm
    pub may_approve : authorize store u verb.min_tier gate s ≡ ok true
    pub describe_label : Map String → String
    pub described_verb : verb.describe ≡ some describe_label
    pub reply_offer : r ≡ offer store gate p (describe_label p.action.params)

  approvable_ok :
      (p : Proposal) (label : String) (b : Result E Bool) (r : Reply)
      → approvable store gate p label b ≡ ok r
      → (b ≡ ok true) × (r ≡ offer store gate p label)
  unfolding approvable
  approvable_ok p label (err e) r h = cc h
  approvable_ok p label (ok false) r h = cc h
  approvable_ok p label (ok true) r h = (refl, cc h)

  privileged_ok :
      (verb : Verb E S) (p : Proposal) (u : User) (surface : Surface) (s : S)
      (d : Option (Map String → String)) (r : Reply)
      → verb.describe ≡ d
      → privileged_offer store gate verb p u surface s d ≡ ok r
      → IsPrivate verb p u surface s r
  unfolding privileged_offer
  privileged_ok verb p u surface s none r e h = cc h
  privileged_ok verb p u group s (some d) r e h = cc h
  privileged_ok verb p u dm s (some d) r e h =
      let (able, same) =
        approvable_ok p (d p.action.params) (authorize store u verb.min_tier gate s) r h in
      record {
        in_dm = refl;
        may_approve = able;
        describe_label = d;
        described_verb = e;
        reply_offer = same;
      }

  described_ok :
      (verb : Verb E S) (p : Proposal) (u : User) (surface : Surface) (s : S)
      (o : Option (VerbError E)) (r : Reply)
      → described store gate verb p u surface s o ≡ ok r
      → (o ≡ none)
        × ((is_privileged verb.min_tier ≡ true) × IsPrivate verb p u surface s r
            ⊎ (is_privileged verb.min_tier ≡ false)
              × (r ≡ offer store gate p (label_of store gate verb.describe p.action.params)))
  unfolding described
  described_ok verb p u surface s (some e) r h = cc h
  described_ok verb p u surface s none r h = elim (Bool-cases (is_privileged verb.min_tier)) [
    | inl privileged ↦ (
      refl,
      inl (privileged, privileged_ok verb p u surface s verb.describe r refl (rw privileged at h)),
    )
    | inr plain ↦ (refl, inr (plain, cc (rw plain at h)))
  ]

  proposed_ok :
      (o : Option (Verb E S)) (p : Proposal) (u : User) (surface : Surface) (s : S) (r : Reply)
      → proposed store gate o p u surface s ≡ ok r
      → (verb : Verb E S) × (o ≡ some verb)
        × (refusal_of verb.validate p.action.params ≡ none)
        × ((is_privileged verb.min_tier ≡ true) × IsPrivate verb p u surface s r
            ⊎ (is_privileged verb.min_tier ≡ false)
              × (r ≡ offer store gate p (label_of store gate verb.describe p.action.params)))
  unfolding proposed
  proposed_ok none p u surface s r h = cc h
  proposed_ok (some verb) p u surface s r h =
      let (valid, kind) =
        described_ok verb p u surface s (refusal_of verb.validate p.action.params) r h in
      (verb, refl, valid, kind)

  -- A proposal is rendered only for a registered verb with valid parameters. A privileged verb's is
  -- rendered only in a direct chat, to a recipient with the tier it needs, and its button carries the
  -- label that the verb describes and not the proposal's; another verb's button carries the verb's
  -- description, or "Approve".
  pub proposal_guarded :
      (registry : Map (Verb E S)) (p : Proposal) (u : User) (surface : Surface) (s : S) (r : Reply)
      → render_proposal store gate registry p u surface s ≡ ok r
      → (verb : Verb E S) × (lookup p.action.verb registry ≡ some verb)
        × (refusal_of verb.validate p.action.params ≡ none)
        × ((is_privileged verb.min_tier ≡ true) × IsPrivate verb p u surface s r
            ⊎ (is_privileged verb.min_tier ≡ false)
              × (r ≡ offer store gate p (label_of store gate verb.describe p.action.params)))
  unfolding render_proposal
  proposal_guarded registry p u surface s r h =
      proposed_ok (lookup p.action.verb registry) p u surface s r h
