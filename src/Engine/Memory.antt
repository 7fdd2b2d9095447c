-- ===== src/Engine/Memory.antt =====
-- What an answer leaves in long-term memory.
use yaad_grove.Base.{
  ℕ, ◌<◌, ◌≡◌, refl, ◌∙◌, sym, ap, if◌then◌else◌, inl, inr, Bool, not, ◌||◌, String, Option, none,
  some, List, ◌^◌, same_text, Bool-cases, Result, ok, err, subst,
}
use yaad_grove.Base.Text.{◌<>◌}
use yaad_grove.Core.{Chunk, Query, Reply}
use yaad_grove.LongMemory.{LongMemory, KeptTurn, use_memory, keep, withdrawals}
use yaad_grove.LongMemory.Erasure.{withdraw_all, times, stale_turn_unkept}
use yaad_grove.Engine.Refusal.{parse_refusal}
use yaad_grove.Engine.Context.{cap_context}
use yaad_grove.Engine.Prompt.{asker_label, retrieval_query}
use yaad_grove.Engine.Answer.{
  Engine, Outcome, not_run, final, step_limit, cancelled, stopped, AnswerError, answer, answer_with,
  after_run, finish, turn_of, agent_input, ungrounded,
}

module _ {E D W : Type 0} (e : Engine E D W) where
  -- What long-term memory holds after a result: the turn of a reply that is no refusal is kept with it,
  -- under the text replied; an error and a refusal change nothing.
  abbrev pub kept_with :
      Option KeptTurn → String → LongMemory → D → Result (AnswerError E) Reply → D
  kept_with turn input m d (err x) = d
  kept_with turn input m d (ok reply) =
      if reply.refused then d else keep e.backend e.scrub turn input reply.text m d

  finish-kept_with :
      (turn : Option KeptTurn) (input : String) (p : String × Bool) (m : LongMemory) (d : D)
      → (finish e turn input p m d).1 ≡ kept_with turn input m d (finish e turn input p m d).0
  unfolding finish
  finish-kept_with turn input (text, refused) m d = refl

  after_run-kept_with :
      (turn : Option KeptTurn) (input : String) (o : Outcome E × W) (m : LongMemory) (d : D)
      → (after_run e turn input o m d).1 ≡ kept_with turn input m d (after_run e turn input o m d).0
  unfolding after_run
  after_run-kept_with turn input (not_run x, w) m d = refl
  after_run-kept_with turn input (final text, w) m d =
      finish-kept_with turn input (parse_refusal text) m d
  after_run-kept_with turn input (step_limit, w) m d = refl
  after_run-kept_with turn input (cancelled x, w) m d = refl
  after_run-kept_with turn input (stopped (some x), w) m d = refl
  after_run-kept_with turn input (stopped none, w) m d = refl

  abbrev pub input_of : Query → String
  input_of q = asker_label e.names q.user.display <> q.text

  answer_with-kept_with :
      (q : Query) (now : ℕ) (m m' : LongMemory) (f : Result E (List Chunk) × W) (d : D)
      → (answer_with e q now m m' f d).1
        ≡ kept_with (turn_of e q now m) (input_of q) m' d (answer_with e q now m m' f d).0
  unfolding answer_with
  answer_with-kept_with q now m m' (err x, w) d = refl
  answer_with-kept_with q now m m' (ok found, w) d =
      let chunks = cap_context e.render found e.context_tokens in
      elim (Bool-cases (ungrounded e q chunks)) [
        | inl bare ↦ rw bare refl
        | inr grounded ↦ rw grounded (
            unfold agent_input in
            after_run-kept_with (turn_of e q now m) (input_of q)
              (e.run (agent_input e q chunks (turn_of e q now m)) w) m' d)
      ]

  pub answer-kept_with :
      (q : Query) (now : ℕ) (m m' : LongMemory) (d : D) (w : W)
      → (answer e q now m m' d w).1
        ≡ kept_with (turn_of e q now m) (input_of q) m' d (answer e q now m m' d w).0
  unfolding answer
  answer-kept_with q now m m' d w =
      answer_with-kept_with q now m m' (e.retrieve (retrieval_query q).0 w) d

  use_memory_turn :
      (q : Query) (now : ℕ) (m : LongMemory) (t : KeptTurn)
      → use_memory e.decimal q now m ≡ some t
      → (t.subject ≡ q.user.id) × (t.withdrawn ≡ q.withdrawals)
  unfolding use_memory
  use_memory_turn q now m t h =
      elim (Bool-cases (not q.remember || same_text q.user.id "" || same_text q.chat "")) [
        | inl off ↦ absurd (let f : none ≡ some t = rw off at h in cc f)
        | inr on ↦ let f = rw on at h in (cc f, cc f)
      ]

  keep_stale :
      (t : Option KeptTurn) (q : Query) (now : ℕ) (input text : String) (us : List String)
      (m : LongMemory) (d : D)
      → use_memory e.decimal q now m ≡ t
      → q.withdrawals ≡ withdrawals q.user.id m
      → withdrawals q.user.id m < 2 ^ 64
      → 0 < times q.user.id us
      → times q.user.id us < 2 ^ 64
      → keep e.backend e.scrub t input text (withdraw_all us m) d ≡ d
  keep_stale none q now input text us m d placed begun fits some_time few = unfold keep in refl
  keep_stale (some t) q now input text us m d placed begun fits some_time few =
      let (subject, count) = use_memory_turn q now m t placed in
      stale_turn_unkept e.backend e.scrub t input text us m d
        (count ∙ begun ∙ ap (λ u. withdrawals u m) (sym subject))
        (subst (λ u. withdrawals u m < 2 ^ 64) (sym subject) fits)
        (subst (λ u. 0 < times u us) (sym subject) some_time)
        (subst (λ u. times u us < 2 ^ 64) (sym subject) few)

  kept_with_stale :
      (q : Query) (now : ℕ) (us : List String) (m : LongMemory) (d : D)
      (r : Result (AnswerError E) Reply)
      → q.withdrawals ≡ withdrawals q.user.id m
      → withdrawals q.user.id m < 2 ^ 64
      → 0 < times q.user.id us
      → times q.user.id us < 2 ^ 64
      → kept_with (turn_of e q now m) (input_of q) (withdraw_all us m) d r ≡ d
  kept_with_stale q now us m d (err x) begun fits some_time few = refl
  kept_with_stale q now us m d (ok reply) begun fits some_time few =
      elim (Bool-cases reply.refused) [
        | inl refused ↦ rw refused refl
        | inr served ↦ rw served (elim (Bool-cases e.memory) [
          | inl on ↦
              keep_stale (turn_of e q now m) q now (input_of q) reply.text us m d
                (unfold turn_of in rw on refl) begun fits some_time few
          | inr off ↦ unfold turn_of keep in rw off refl
        ])
      ]

  -- An answer that is under way while its user withdraws leaves long-term memory as it was, whoever else
  -- withdraws meanwhile. The query carries the user's count from before, and the user withdraws fewer
  -- than 2 ^ 64 times.
  pub answer-withdraw :
      (q : Query) (now : ℕ) (us : List String) (m : LongMemory) (d : D) (w : W)
      → q.withdrawals ≡ withdrawals q.user.id m
      → withdrawals q.user.id m < 2 ^ 64
      → 0 < times q.user.id us
      → times q.user.id us < 2 ^ 64
      → (answer e q now m (withdraw_all us m) d w).1 ≡ d
  answer-withdraw q now us m d w begun fits some_time few =
      answer-kept_with q now m (withdraw_all us m) d w
      ∙ kept_with_stale q now us m d (answer e q now m (withdraw_all us m) d w).0 begun fits
          some_time few
