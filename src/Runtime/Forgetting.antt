-- ===== src/Runtime/Forgetting.antt =====
-- internal/runtime/consent.go and handler.go: what a withdrawal leaves.
use yaad_grove.Base.{
  ◌<◌, ◌≡◌, refl, ◌∙◌, sym, ap, ◌≢◌, inl, inr, subst, true, false, String, Option, none, some,
  Bool-cases, if◌then◌else◌, same_text, same_text_refl,
}
use yaad_grove.Base.Text.{trim_space}
use yaad_grove.Core.{Inbound, Surface, group, dm}
use yaad_grove.Acl.{Record, declined, set_consent}
use yaad_grove.Acl.Laws.{IsStore}
use yaad_grove.Acl.Writes.{set_consent-view}
use yaad_grove.Memory.{Buffer, convo}
use yaad_grove.Memory.Withdrawal.{NotBy, purge_user-convo}
use yaad_grove.Runtime.Policy.{is_admin}
use yaad_grove.Runtime.Services.{Services, State, Times, MemoryEraser}
use yaad_grove.Runtime.Consent.{
  is_consent_command, dm_consent_flow, consent_removed_reply, erased_reply, purged,
}
use yaad_grove.Runtime.Handler.{handle, message, dm_message, is_dm}
use yaad_grove.Runtime.Privacy.{handle-message, unconsented_unrecorded}

-- No conversation of the buffer holds a turn of the user.
abbrev pub Forgets : String → Option Buffer → Type 0
Forgets id none = Unit
Forgets id (some b) = (chat : String) → NotBy id (convo chat b)

-- The buffer keeps turns.
abbrev pub Keeps : Option Buffer → Type 0
Keeps none = Unit
Keeps (some b) = 0 < b.retain

-- `/consent remove` is a command and not `/consent`.
remove_command :
    (text : String)
    → trim_space text ≡ "/consent remove"
    → (same_text (trim_space text) "/consent" ≡ false)
      × (same_text (trim_space text) "/consent remove" ≡ true)
      × (is_consent_command text ≡ true)
unfolding is_consent_command
remove_command text h = rw h (refl, refl, refl)

dm_is_dm : (x : Surface) → x ≡ dm → is_dm x ≡ true
unfolding is_dm
dm_is_dm dm e = refl
dm_is_dm group e = cc e

purged-Forgets : (id : String) (b : Option Buffer) → Keeps b → id ≢ "" → Forgets id (purged id b)
purged-Forgets id none on known = tt
purged-Forgets id (some b) on known = λ chat. (purge_user-convo id chat b on known).1

module _ {E F S Q T W : Type 0} (env : Services E F S Q T W) where
  erased_reply-same :
      (o : Option (MemoryEraser F W)) (id : String) (s : State S Q T W)
      → ((erased_reply env o id s).1.buffer ≡ s.buffer) × ((erased_reply env o id s).1.acl ≡ s.acl)
  unfolding erased_reply
  erased_reply-same none id s = (refl, refl)
  erased_reply-same (some e) id s = (refl, refl)

  removed-state :
      (o : Option E × S) (id : String) (s : State S Q T W)
      → o.0 ≡ none
      → ((consent_removed_reply env o id s).1.buffer ≡ purged id s.buffer)
        × ((consent_removed_reply env o id s).1.acl ≡ o.1)
  unfolding consent_removed_reply
  removed-state (some e, a) id s h = cc h
  removed-state (none, a) id s h =
      erased_reply-same env.eraser id (record s { acl = a; buffer = purged id s.buffer })

  handle-remove :
      (i : Inbound) (at : Times) (s : State S Q T W)
      → env.consent ≡ true
      → i.callback ≡ none
      → i.surface ≡ dm
      → trim_space i.text ≡ "/consent remove"
      → (handle env i at s).1
        ≡ (consent_removed_reply env (set_consent env.store i.user.id declined s.acl) i.user.id s).1
  unfolding message dm_message dm_consent_flow
  handle-remove i at s on text private command =
      let (other, remove, is_command) = remove_command i.text command in
      rw (handle-message env i at s text, dm_is_dm i.surface private, on, is_command)
        (elim (Bool-cases (is_admin env.policy.admins i.user.id)) [
          | inl admin ↦ rw (admin, other, remove) refl
          | inr user ↦ rw (user, other, remove) refl
        ])

  module _ (view : S → String → Record) (laws : IsStore env.store view) where
    -- After `/consent remove` in a direct chat, with the consent surface wired and once the store has
    -- taken the withdrawal, the user's consent is declined and no conversation of the buffer holds a
    -- turn of theirs, whatever the eraser of long-term memory reports. The user's id is not blank,
    -- and a buffer that there is keeps turns. The store is taken to have the laws of `IsStore`.
    pub withdrawal-Forgets :
        (i : Inbound) (at : Times) (s : State S Q T W)
        → env.consent ≡ true
        → i.callback ≡ none
        → i.surface ≡ dm
        → trim_space i.text ≡ "/consent remove"
        → (set_consent env.store i.user.id declined s.acl).0 ≡ none
        → Keeps s.buffer
        → i.user.id ≢ ""
        → ((view (handle env i at s).1.acl i.user.id).consent ≡ declined)
          × Forgets i.user.id (handle env i at s).1.buffer
    withdrawal-Forgets i at s on text private command written keeps known =
        let run = handle-remove i at s on text private command in
        let (b, a) =
          removed-state (set_consent env.store i.user.id declined s.acl) i.user.id s written in
        let own = set_consent-view env.store view laws i.user.id i.user.id declined s.acl written in
        (
          rw (run, a)
              (ap (λ r. r.consent)
                (own
                  ∙ ap
                      (λ t.
                        if t
                        then record (view s.acl i.user.id) { consent = declined }
                        else view s.acl i.user.id)
                      (same_text_refl i.user.id))),
          rw (run, b) (purged-Forgets i.user.id s.buffer keeps known),
        )

    -- The user's next group message after such a withdrawal leaves the buffer without a turn of
    -- theirs, and both logs as the withdrawal left them. The store is taken to have the laws of
    -- `IsStore`.
    pub withdrawn_stays_out :
        (i j : Inbound) (at then_at : Times) (s : State S Q T W)
        → env.consent ≡ true
        → i.callback ≡ none
        → i.surface ≡ dm
        → trim_space i.text ≡ "/consent remove"
        → (set_consent env.store i.user.id declined s.acl).0 ≡ none
        → Keeps s.buffer
        → i.user.id ≢ ""
        → j.user.id ≡ i.user.id
        → j.callback ≡ none
        → j.surface ≡ group
        → Forgets i.user.id (handle env j then_at (handle env i at s).1).1.buffer
          × ((handle env j then_at (handle env i at s).1).1.qlog ≡ (handle env i at s).1.qlog)
          × ((handle env j then_at (handle env i at s).1).1.transcript
              ≡ (handle env i at s).1.transcript)
    withdrawn_stays_out i j at then_at s on text private command written keeps known same text'
          public =
        let (off, forgets) =
          withdrawal-Forgets i at s on text private command written keeps known in
        let (a, q, t, b, w) =
          unconsented_unrecorded env view laws j then_at (handle env i at s).1 text' public
            (λ e. cc (off, e, same)) in
        (subst (λ x. Forgets i.user.id x) (sym b) forgets, q, t)
