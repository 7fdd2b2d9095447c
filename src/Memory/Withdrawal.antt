-- ===== src/Memory/Withdrawal.antt =====
-- A withdrawal takes a speaker out of the buffer.
use yaad_grove.Base.{
  ◌<◌, ◌≡◌, refl, ◌≢◌, true, String, some, List, [], ◌∷◌, Map, lookup, same_text, same_text_iff,
  same_text_ne, arith, not, keep, All, Bool-cases, inl, inr,
}
use yaad_grove.Memory.{
  Turn, Buffer, enabled, or_empty, convo, purge_user, purge_all, without_speaker,
}

-- The turns of everyone else. A turn of the bot has a blank speaker.
abbrev pub of_others : String → List Turn → List Turn
of_others id = keep (λ t. not (same_text t.speaker_id id))

-- None of the turns is the speaker's.
abbrev pub NotBy : String → List Turn → Type 0
NotBy id l = All (λ t. t.speaker_id ≢ id) l

of_others-NotBy : (id : String) (l : List Turn) → NotBy id (of_others id l)
of_others-NotBy id [] = tt
of_others-NotBy id (t ∷ l) = elim (Bool-cases (same_text t.speaker_id id)) [
  | inl mine ↦ rw mine (of_others-NotBy id l)
  | inr other ↦ rw other (
    (λ e. let same = (same_text_iff t.speaker_id id).1 e in cc (same, other)),
    of_others-NotBy id l,
  )
]

lookup-purge_all :
    (id chat : String) (m : Map (List Turn))
    → or_empty (lookup chat (purge_all id m)) ≡ of_others id (or_empty (lookup chat m))
unfolding lookup purge_all without_speaker
lookup-purge_all id chat [] = refl
lookup-purge_all id chat ((c, l) ∷ m) = ground (arith, lookup-purge_all id chat m)

enabled_on : (b : Buffer) → 0 < b.retain → enabled (some b) ≡ true
unfolding enabled
enabled_on b h = ground arith

-- After the purge of a speaker whose id is not blank from a buffer that keeps turns, no conversation
-- holds a turn of the speaker, in any chat, and every chat keeps exactly its turns whose speaker has another
-- id, the bot's (whose id is blank) with them, in their order.
pub purge_user-convo :
    (id chat : String) (b : Buffer)
    → 0 < b.retain
    → id ≢ ""
    → (convo chat (purge_user id b) ≡ of_others id (convo chat b))
      × NotBy id (convo chat (purge_user id b))
unfolding purge_user
purge_user-convo id chat b on known =
    let blank = same_text_ne id "" known in
    let e : convo chat (purge_user id b) ≡ of_others id (convo chat b) =
      rw (enabled_on b on, blank) (unfold convo in lookup-purge_all id chat b.convos) in
    (e, rw e (of_others-NotBy id (convo chat b)))
