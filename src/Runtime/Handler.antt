-- ===== src/Runtime/Handler.antt =====
-- internal/runtime/handler.go: the handler of every message and click.
use yaad_grove.Base.{
  ℕ, Bool, true, false, not, ◌&&◌, String, Option, none, some, if◌then◌else◌, same_text, Result, ok,
  err,
}
use yaad_grove.Core.{Reply, Inbound, Surface, group, dm, empty_reply, Action, Callback}
use yaad_grove.Acl.{Decision, serve, log_only, nudged, refuse, rate_limited, silent, check}
use yaad_grove.Pending.{Status, resolved, expired, consumed}
use yaad_grove.Runtime.Policy.{Nudge, Catalog, get, resolve, is_admin, nudge_reaction}
use yaad_grove.Runtime.Verbs.{execute_action, notice}
use yaad_grove.Runtime.Services.{Services, State, Times, MemoryEraser}
use yaad_grove.Runtime.Consent.{is_consent_command, says, dm_consent_flow}
use yaad_grove.Runtime.Logs.{
  is_group, log_served, log_transcript_human, log_transcript_bot, log_transcript_system,
}
use yaad_grove.Runtime.Turns.{remember_user, answer_remembering, purge_if_withdrawn}

unfoldable pub is_dm : Surface → Bool
is_dm dm = true
is_dm group = false

unfoldable pub nudge_reply : Nudge → Catalog → Reply
unfolding resolve
nudge_reply n c =
    let n' = resolve n in
    if same_text n'.mode nudge_reaction
    then record empty_reply { reaction = n'.emoji }
    else if same_text n'.text ""
    then says c "nudge"
    else record empty_reply { text = n'.text }

abbrev pub refusal : Catalog → Reply
refusal c = record (says c "refuse") { refused = true }

abbrev pub silence : Reply
silence = record empty_reply { silent = true }

module _ {E F S Q T W : Type 0} (env : Services E F S Q T W) where
  abbrev lapsed : String → String → Reply
  lapsed toast edit = record (notice env.policy.strings toast) {
    text = get env.policy.strings edit;
  }

  unfoldable pub resolved_click :
      Inbound → Result F (Action × Status) × W → State S Q T W → Reply × State S Q T W
  resolved_click i (err e, w) s =
      (notice env.policy.strings "callback_error", record s { world = w })
  resolved_click i (ok (action, resolved), w) s =
      let (r, a) =
        execute_action env.store s.gate env.policy.strings env.registry i.user action s.acl in
      (r, record s { world = w; acl = a })
  resolved_click i (ok (action, consumed), w) s =
      (lapsed "callback_consumed" "callback_consumed_edit", record s { world = w })
  resolved_click i (ok (action, expired), w) s =
      (lapsed "callback_expired" "callback_expired_edit", record s { world = w })

  unfoldable pub click :
      Option (String → W → Result F (Action × Status) × W)
      → Inbound
      → String
      → State S Q T W
      → Reply × State S Q T W
  unfolding resolved_click
  click none i token s = (lapsed "callback_expired" "callback_expired_edit", s)
  click (some resolve_token) i token s = resolved_click i (resolve_token token s.world) s

  unfoldable pub resolve_callback : Inbound → String → State S Q T W → Reply × State S Q T W
  unfolding click
  resolve_callback i token s = click env.callbacks i token s

  -- Both logs of a consented message.
  unfoldable pub logged : Inbound → Times → State S Q T W → State S Q T W
  logged i at s = record s {
    qlog = log_served env i at.logged s.qlog;
    transcript = log_transcript_human env i at.transcribed s.transcript;
  }

  -- The transcript after an answer.
  unfoldable pub transcribe_answer : Inbound → ℕ → Result F Reply → T → T
  transcribe_answer i at (err e) t = t
  transcribe_answer i at (ok r) t =
      if not r.silent && not (same_text r.text "") then log_transcript_bot env i r.text at t else t

  unfoldable pub serve_message :
      Inbound → Times → ℕ → State S Q T W → Result F Reply × State S Q T W
  unfolding logged transcribe_answer
  serve_message i at withdrawals s =
      let (r, s') = answer_remembering env i at (is_group i.surface) withdrawals (logged i at s) in
      let s'' = purge_if_withdrawn env i.user.id s' in
      (r, record s'' { transcript = transcribe_answer i at.answer_transcribed r s''.transcript })

  -- A consented message that is not answered enters the buffer.
  unfoldable pub buffered : Inbound → Times → State S Q T W → State S Q T W
  unfolding logged
  buffered i at s =
      let s' = logged i at s in
      purge_if_withdrawn env i.user.id
        (record s' { buffer = remember_user i at.remembered s'.buffer })

  unfoldable pub decided :
      Inbound → Times → ℕ → Result E Decision → State S Q T W → Result F Reply × State S Q T W
  unfolding serve_message buffered
  decided i at withdrawals (err e) s = (ok (refusal env.policy.strings), s)
  decided i at withdrawals (ok serve) s = serve_message i at withdrawals s
  decided i at withdrawals (ok log_only) s = (ok silence, buffered i at s)
  decided i at withdrawals (ok nudged) s = (ok (nudge_reply env.policy.nudge env.policy.strings), s)
  decided i at withdrawals (ok rate_limited) s =
      let s' = buffered i at s in
      (
        ok (says env.policy.strings "rate_limited"),
        record s' {
          transcript =
              log_transcript_system env i "rate_limited" at.answer_transcribed s'.transcript;
        },
      )
  decided i at withdrawals (ok silent) s = (ok silence, s)
  decided i at withdrawals (ok refuse) s = (ok (refusal env.policy.strings), s)

  unfoldable pub withdrawals_of : Option (MemoryEraser F W) → String → W → ℕ
  withdrawals_of none id w = 0
  withdrawals_of (some e) id w = e.withdrawals id w

  unfoldable pub gated : Inbound → Times → State S Q T W → Result F Reply × State S Q T W
  unfolding decided withdrawals_of
  gated i at s =
      let withdrawals = withdrawals_of env.eraser i.user.id s.world in
      let (d, g, a) =
        check env.store (record { user = i.user; surface = i.surface; directed = i.directed })
          at.gated s.gate s.acl in
      decided i at withdrawals d (record s { gate = g; acl = a })

  unfoldable pub dm_message : Inbound → Times → State S Q T W → Result F Reply × State S Q T W
  dm_message i at s =
      if is_admin env.policy.admins i.user.id && not (is_consent_command i.text)
      then answer_remembering env i at false 0 s
      else (let (r, s') = dm_consent_flow env i s in (ok r, s'))

  unfoldable pub message : Inbound → Times → State S Q T W → Result F Reply × State S Q T W
  unfolding dm_message gated
  message i at s = if is_dm i.surface && env.consent then dm_message i at s else gated i at s

  unfoldable pub routed :
      Inbound → Times → State S Q T W → Option Callback → Result F Reply × State S Q T W
  routed i at s (some c) = let (r, s') = resolve_callback i c.token s in (ok r, s')
  routed i at s none = message i at s

  -- `NewHandler`
  unfoldable pub handle : Inbound → Times → State S Q T W → Result F Reply × State S Q T W
  unfolding routed
  handle i at s = routed i at s i.callback
