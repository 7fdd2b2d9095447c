-- ===== src/Runtime/Consent.antt =====
-- internal/runtime/consent.go: a direct message as consent management.
use yaad_grove.Base.{
  Bool, true, false, ◌||◌, String, Option, none, some, [], ◌∷◌, if◌then◌else◌, same_text, Result,
  ok, err,
}
use yaad_grove.Base.Text.{trim_space, ◌<>◌}
use yaad_grove.Core.{Reply, Inbound, empty_reply}
use yaad_grove.Acl.{Consent, granted, declined, unknown, set_consent, consent_of}
use yaad_grove.Memory.{Buffer, purge_user}
use yaad_grove.Runtime.Policy.{Catalog, get}
use yaad_grove.Runtime.Services.{Services, State, MemoryEraser, erased}

unfoldable pub is_consent_command : String → Bool
is_consent_command text =
    let t = trim_space text in
    same_text t "/start" || same_text t "/consent" || same_text t "/consent remove"

abbrev pub says : Catalog → String → Reply
says c key = record empty_reply { text = get c key }

-- `PurgeUser` on a buffer that may be nil.
abbrev pub purged : String → Option Buffer → Option Buffer
purged id none = none
purged id (some b) = some (purge_user id b)

module _ {E F S Q T W : Type 0} (env : Services E F S Q T W) where
  abbrev acknowledged : String → Reply
  acknowledged key = record (says env.policy.strings key) { reaction = env.policy.consent_ack }

  unfoldable pub consent_granted_reply : Option E × S → State S Q T W → Reply × State S Q T W
  consent_granted_reply (some e, a) s =
      (says env.policy.strings "consent_error", record s { acl = a })
  consent_granted_reply (none, a) s = (acknowledged "consent_granted", record s { acl = a })

  unfoldable pub erased_reply :
      Option (MemoryEraser F W) → String → State S Q T W → Reply × State S Q T W
  erased_reply none id s = (acknowledged "consent_removed", s)
  erased_reply (some eraser) id s =
      let (results, w) = eraser.erase id s.world in
      (
        if erased results
            then acknowledged "consent_removed_erased"
            else says env.policy.strings "consent_erase_failed",
        record s { world = w },
      )

  unfoldable pub consent_removed_reply :
      Option E × S → String → State S Q T W → Reply × State S Q T W
  unfolding erased_reply
  consent_removed_reply (some e, a) id s =
      (says env.policy.strings "consent_error", record s { acl = a })
  consent_removed_reply (none, a) id s =
      erased_reply env.eraser id (record s { acl = a; buffer = purged id s.buffer })

  abbrev is_some {ℓ} : {A : Type ℓ} → Option A → Bool
  is_some none = false
  is_some (some a) = true

  disclosure : String
  disclosure =
      let c = env.policy.strings in
      get c "consent_disclosure_intro"
      <> (if is_some env.transcript then get c "consent_transcript_line" else "")
      <> (if is_some env.eraser
          then get c "consent_memory_line"
            <> (if env.policy.memory_derive then get c "consent_memory_derive_line" else "")
          else "")
      <> get c "consent_disclosure_tap"

  consent_offer : Reply
  unfolding disclosure
  consent_offer = record empty_reply {
    text = disclosure;
    actions =
        record {
          verb = "consent_grant";
          params = [];
          label = get env.policy.strings "consent_opt_in_label";
        }
        ∷ [];
  }

  consent_status_reply : Result E Consent → Reply
  unfolding consent_offer
  consent_status_reply (err e) = says env.policy.strings "consent_error"
  consent_status_reply (ok granted) = says env.policy.strings "consent_already"
  consent_status_reply (ok declined) = consent_offer
  consent_status_reply (ok unknown) = consent_offer

  unfoldable pub dm_consent_flow : Inbound → State S Q T W → Reply × State S Q T W
  unfolding consent_granted_reply consent_removed_reply consent_status_reply
  dm_consent_flow i s =
      if same_text (trim_space i.text) "/consent"
      then consent_granted_reply (set_consent env.store i.user.id granted s.acl) s
      else if same_text (trim_space i.text) "/consent remove"
      then consent_removed_reply (set_consent env.store i.user.id declined s.acl) i.user.id s
      else (consent_status_reply (consent_of env.store i.user.id s.acl), s)
