-- ===== src/Telegram/Cascade.antt =====
-- How `sendTo` of internal/transport/telegram/telegram.go resends a message.
use yaad_grove.Base.{
  ℕ, zero, suc, ◌+◌, ◌≤◌, String, All, length, same_text, ◌≡◌, ◌≢◌, refl, arith, ◌⊎◌, inl, inr,
  Bool-cases,
}
use yaad_grove.Base.Int.{ℤ}
use yaad_grove.Telegram.Markdown.{Walk}
use yaad_grove.Telegram.Render.{Renderer, Libraries}
use yaad_grove.Telegram.Send.{
  Markup, Request, Outcome, sent, bad_request, failed, Delivery, attempts, result_of, after_request,
  third, raw_request, plain_request, html_request,
}

abbrev doubt : Outcome → ℕ
doubt failed = 1
doubt o = 0

-- How many of the first n requests may have delivered the message without saying so.
unfoldable pub unclear : (ℕ → Outcome) → ℕ → ℕ
unclear api zero = 0
unclear api (suc n) = unclear api n + doubt (api n)

-- None of the first n requests was acknowledged.
unfoldable pub Unsent : (ℕ → Outcome) → ℕ → Type 0
Unsent api zero = Unit
Unsent api (suc n) = Unsent api n × (api n ≢ sent)

Outcome-cases : (o : Outcome) → (o ≡ sent) ⊎ ((o ≡ bad_request) ⊎ (o ≡ failed))
Outcome-cases sent = inl refl
Outcome-cases bad_request = inr (inl refl)
Outcome-cases failed = inr (inr refl)

module _ (lib : Libraries) (w : Walk Renderer) (api : ℕ → Outcome) (chat thread : ℤ) where
  abbrev pub Addressed : Markup → Request → Type 0
  Addressed markup r = (r.chat ≡ chat) × (r.thread ≡ thread) × (r.markup ≡ markup)

  abbrev pub Resends : Markup → Delivery → Type 0
  Resends markup d =
      (last : ℕ) × (length d.requests ≡ suc last)
      × (last ≤ 2)
      × All (Addressed markup) d.requests
      × Unsent api last
      × (unclear api last ≤ 1)
      × (d.result ≡ result_of (api last))

  third-Resends :
      (markup : Markup) (r p q : Request)
      → Addressed markup r
      → Addressed markup p
      → Addressed markup q
      → api 0 ≢ sent
      → Resends markup (after_request r (third lib w api chat thread p (api 1) q))
  unfolding Unsent unclear
  third-Resends markup r p q hr hp hq first =
      let once : unclear api 1 ≤ 1 = ground (arith, first) in
      elim (Outcome-cases (api 1)) [
        | inl e ↦ rw e (1, refl, omega arith, (hr, (hp, tt)), (tt, first), once, rw e refl)
        | inr (inl e) ↦ rw e (
          2,
          refl,
          omega arith,
          (hr, (hp, (hq, tt))),
          ((tt, first), λ h. cc (e, h)),
          rw e (omega (arith, once)),
          refl,
        )
        | inr (inr e) ↦ rw e (1, refl, omega arith, (hr, (hp, tt)), (tt, first), once, rw e refl)
      ]

  -- A rendered message is sent in one to three requests, all to the same chat and topic with the same
  -- keyboard. A request follows only requests that were not acknowledged, of which at most one may have
  -- delivered the message; the call succeeds exactly when the last request was acknowledged.
  pub attempts-Resends :
      (html text : String) (markup : Markup)
      → Resends markup (attempts lib w api chat thread html text markup)
  unfolding attempts Unsent unclear
  attempts-Resends html text markup =
      let raw = raw_request lib w api chat thread text markup in
      let here : Addressed markup raw = (refl, refl, refl) in
      elim (Bool-cases (same_text html "")) [
        | inl blank ↦ rw blank (0, refl, omega arith, (here, tt), tt, omega arith, refl)
        | inr rendered ↦ elim (Outcome-cases (api 0)) [
          | inl e ↦ rw (rendered, e) (0, refl, omega arith, (here, tt), tt, omega arith, rw e refl)
          | inr (inl e) ↦
              rw (rendered, e)
                (third-Resends markup (html_request lib w api chat thread html markup)
                  (plain_request lib w api chat thread html markup) raw here here here
                  (λ h. cc (e, h)))
          | inr (inr e) ↦
              rw (rendered, e)
                (third-Resends markup (html_request lib w api chat thread html markup)
                  (plain_request lib w api chat thread html markup) raw here here here
                  (λ h. cc (e, h)))
        ]
      ]
