-- ===== src/Runtime/Direct.antt =====
-- internal/runtime/handler.go: what is logged of a direct chat.
use yaad_grove.Base.{
  ℕ, ◌≡◌, refl, ◌∙◌, inl, inr, false, not, ◌&&◌, String, Option, none, some, Bool-cases, same_text,
  Result, ok, err,
}
use yaad_grove.Core.{Inbound, Reply, group, dm, Surface, Callback, Action}
use yaad_grove.Base.Text.{trim_space}
use yaad_grove.Pending.{Status, resolved, expired, consumed}
use yaad_grove.Acl.{Decision, serve, log_only, nudged, refuse, rate_limited, silent}
use yaad_grove.Runtime.Policy.{is_admin}
use yaad_grove.Runtime.Services.{Services, State, Times, MemoryEraser, LogEntry, TranscriptEntry}
use yaad_grove.Runtime.Consent.{
  is_consent_command, dm_consent_flow, consent_granted_reply, consent_removed_reply, erased_reply,
  purged,
}
use yaad_grove.Runtime.Handler.{
  handle, routed, message, gated, decided, dm_message, is_dm, resolve_callback, click,
  resolved_click, serve_message, buffered, logged, transcribe_answer,
}
use yaad_grove.Runtime.Turns.{remember_user, answer_remembering, purge_if_withdrawn}
use yaad_grove.Runtime.Logs.{
  is_group, log_served, log_served_to, append_transcript, log_transcript_human, log_transcript_bot,
  log_transcript_system,
}

not_group : (x : Surface) → x ≡ dm → is_group x ≡ false
unfolding is_group
not_group dm e = refl
not_group group e = cc e

module _ {E F S Q T W : Type 0} (env : Services E F S Q T W) where
  -- The two states have the same logs.
  abbrev SameLogs : State S Q T W → State S Q T W → Type 0
  SameLogs s s' = (s'.qlog ≡ s.qlog) × (s'.transcript ≡ s.transcript)

  log_served-dm :
      (i : Inbound) (at : ℕ) (o : Option (LogEntry → Q → Option F × Q)) (q : Q)
      → is_group i.surface ≡ false
      → log_served_to env o i at q ≡ q
  unfolding log_served_to
  log_served-dm i at none q h = refl
  log_served-dm i at (some append_log) q h = rw h refl

  append_transcript-dm :
      (i : Inbound) (e : TranscriptEntry) (o : Option (TranscriptEntry → T → Option F × T)) (t : T)
      → is_group i.surface ≡ false
      → append_transcript env o i e t ≡ t
  unfolding append_transcript
  append_transcript-dm i e none t h = refl
  append_transcript-dm i e (some append_log) t h = rw h refl

  logged-dm :
      (i : Inbound) (at : Times) (s : State S Q T W)
      → is_group i.surface ≡ false
      → SameLogs s (logged env i at s)
  unfolding logged log_served log_transcript_human
  logged-dm i at s h = (
    log_served-dm i at.logged env.qlog s.qlog h,
    append_transcript-dm i _ env.transcript s.transcript h,
  )

  transcribe_answer-dm :
      (i : Inbound) (at : ℕ) (r : Result F Reply) (t : T)
      → is_group i.surface ≡ false
      → transcribe_answer env i at r t ≡ t
  unfolding transcribe_answer log_transcript_bot
  transcribe_answer-dm i at (err e) t h = refl
  transcribe_answer-dm i at (ok r) t h =
      elim (Bool-cases (not r.silent && not (same_text r.text ""))) [
        | inl said ↦ rw said (append_transcript-dm i _ env.transcript t h)
        | inr quiet ↦ rw quiet refl
      ]

  purge-SameLogs : (id : String) (s : State S Q T W) → SameLogs s (purge_if_withdrawn env id s)
  unfolding purge_if_withdrawn
  purge-SameLogs id s = elim (Bool-cases env.consent) [
    | inl on ↦ rw on (refl, refl)
    | inr off ↦ rw off (refl, refl)
  ]

  buffered-dm :
      (i : Inbound) (at : Times) (s : State S Q T W)
      → is_group i.surface ≡ false
      → SameLogs s (buffered env i at s)
  unfolding buffered
  buffered-dm i at s h =
      let p = purge-SameLogs i.user.id (record (logged env i at s) {
        buffer = remember_user i at.remembered (logged env i at s).buffer;
      }) in
      let l = logged-dm i at s h in (p.0 ∙ l.0, p.1 ∙ l.1)

  serve-dm :
      (i : Inbound) (at : Times) (n : ℕ) (s : State S Q T W)
      → is_group i.surface ≡ false
      → SameLogs s (serve_message env i at n s).1
  unfolding serve_message answer_remembering
  serve-dm i at n s h =
      let l = logged-dm i at s h in
      let s' = (answer_remembering env i at (is_group i.surface) n (logged env i at s)).1 in
      let p = purge-SameLogs i.user.id s' in
      (
        p.0 ∙ l.0,
        transcribe_answer-dm i at.answer_transcribed
              (answer_remembering env i at (is_group i.surface) n (logged env i at s)).0 _ h
            ∙ p.1
            ∙ l.1,
      )

  decided-dm :
      (i : Inbound) (at : Times) (n : ℕ) (d : Result E Decision) (s : State S Q T W)
      → is_group i.surface ≡ false
      → SameLogs s (decided env i at n d s).1
  unfolding decided log_transcript_system
  decided-dm i at n (err e) s h = (refl, refl)
  decided-dm i at n (ok serve) s h = serve-dm i at n s h
  decided-dm i at n (ok log_only) s h = buffered-dm i at s h
  decided-dm i at n (ok rate_limited) s h =
      let b = buffered-dm i at s h in (b.0, append_transcript-dm i _ env.transcript _ h ∙ b.1)
  decided-dm i at n (ok nudged) s h = (refl, refl)
  decided-dm i at n (ok silent) s h = (refl, refl)
  decided-dm i at n (ok refuse) s h = (refl, refl)

  consent_granted-SameLogs :
      (o : Option E × S) (s : State S Q T W) → SameLogs s (consent_granted_reply env o s).1
  unfolding consent_granted_reply
  consent_granted-SameLogs (some e, a) s = (refl, refl)
  consent_granted-SameLogs (none, a) s = (refl, refl)

  erased-SameLogs :
      (o : Option (MemoryEraser F W)) (id : String) (s : State S Q T W)
      → SameLogs s (erased_reply env o id s).1
  unfolding erased_reply
  erased-SameLogs none id s = (refl, refl)
  erased-SameLogs (some e) id s = (refl, refl)

  consent_removed-SameLogs :
      (o : Option E × S) (id : String) (s : State S Q T W)
      → SameLogs s (consent_removed_reply env o id s).1
  unfolding consent_removed_reply
  consent_removed-SameLogs (some e, a) id s = (refl, refl)
  consent_removed-SameLogs (none, a) id s =
      erased-SameLogs env.eraser id (record s { acl = a; buffer = purged id s.buffer })

  dm_consent_flow-SameLogs :
      (i : Inbound) (s : State S Q T W) → SameLogs s (dm_consent_flow env i s).1
  unfolding dm_consent_flow
  dm_consent_flow-SameLogs i s = elim (Bool-cases (same_text (trim_space i.text) "/consent")) [
    | inl grant ↦ rw grant (consent_granted-SameLogs _ s)
    | inr other ↦ elim (Bool-cases (same_text (trim_space i.text) "/consent remove")) [
      | inl remove ↦ rw (other, remove) (consent_removed-SameLogs _ i.user.id s)
      | inr status ↦ rw (other, status) (refl, refl)
    ]
  ]

  resolved_click-SameLogs :
      (i : Inbound) (o : Result F (Action × Status) × W) (s : State S Q T W)
      → SameLogs s (resolved_click env i o s).1
  unfolding resolved_click
  resolved_click-SameLogs i (err e, w) s = (refl, refl)
  resolved_click-SameLogs i (ok (a, resolved), w) s = (refl, refl)
  resolved_click-SameLogs i (ok (a, consumed), w) s = (refl, refl)
  resolved_click-SameLogs i (ok (a, expired), w) s = (refl, refl)

  click-SameLogs :
      (o : Option (String → W → Result F (Action × Status) × W)) (i : Inbound) (token : String)
      (s : State S Q T W)
      → SameLogs s (click env o i token s).1
  unfolding click
  click-SameLogs none i token s = (refl, refl)
  click-SameLogs (some resolve_token) i token s =
      resolved_click-SameLogs i (resolve_token token s.world) s

  message-dm :
      (i : Inbound) (at : Times) (s : State S Q T W)
      → is_group i.surface ≡ false
      → SameLogs s (message env i at s).1
  unfolding message dm_message gated answer_remembering
  message-dm i at s h = elim (Bool-cases (is_dm i.surface && env.consent)) [
    | inl private ↦
        elim (Bool-cases
          (is_admin env.policy.admins i.user.id && not (is_consent_command i.text))) [
            | inl admin ↦ rw (private, admin) (refl, refl)
            | inr user ↦ rw (private, user) (dm_consent_flow-SameLogs i s)
          ]
    | inr no_surface ↦ rw no_surface (decided-dm i at _ _ _ h)
  ]

  routed-dm :
      (i : Inbound) (at : Times) (s : State S Q T W) (o : Option Callback)
      → is_group i.surface ≡ false
      → SameLogs s (routed env i at s o).1
  unfolding routed resolve_callback
  routed-dm i at s none h = message-dm i at s h
  routed-dm i at s (some c) h = click-SameLogs env.callbacks i c.token s

  -- A message or a click in a direct chat leaves the quarantine log and the transcript alone, whoever
  -- sends it and whatever the gate and the engine say.
  pub dm_unlogged :
      (i : Inbound) (at : Times) (s : State S Q T W)
      → i.surface ≡ dm
      → ((handle env i at s).1.qlog ≡ s.qlog) × ((handle env i at s).1.transcript ≡ s.transcript)
  unfolding handle
  dm_unlogged i at s h = routed-dm i at s i.callback (not_group i.surface h)
