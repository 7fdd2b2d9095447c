-- ===== src/Telegram/Entities.antt =====
-- About the offsets of the entities of `plainFromHTML` of internal/transport/telegram/format.go.
use yaad_grove.Base.{
  not, ◌&&◌, same_text, subst, Option-cases, ℕ, ◌+◌, ◌-◌, ◌≤◌, ◌<◌, String, Option, none, some,
  List, [], ◌∷◌, ◌++◌, ◌≡◌, refl, sym, ap, ◌∙◌, arith, inl, inr, Bool-cases, ltb,
}
use yaad_grove.Base.Text.{◌<>◌}
use yaad_grove.Telegram.Blocks.{
  Token, text_token, start_tag, end_tag, self_closing_tag, other_token,
}
use yaad_grove.Telegram.Plain.{
  Entity, Plain, OpenLink, utf16_len, write, plain_step, plain_tokens, plain_from_html, no_plain,
  is_code, text_from, open_code, close_code, close_link,
}

-- The entities follow one another between two offsets, none of them empty.
unfoldable pub Fits : ℕ → ℕ → List Entity → Type 0
Fits from limit [] = from ≤ limit
Fits from limit (e ∷ es) = (from ≤ e.offset) × (0 < e.length) × Fits (e.offset + e.length) limit es

utf16_len-append : (s t : String) → utf16_len (s <> t) ≡ utf16_len s + utf16_len t
unfolding utf16_len ◌<>◌
utf16_len-append String.[] t = omega arith
utf16_len-append (String.◌∷◌ c s) t = omega (arith, utf16_len-append s t)

Fits-more : (a l k : ℕ) (es : List Entity) → l ≤ k → Fits a l es → Fits a k es
unfolding Fits
Fits-more a l k [] h f = omega (arith, h, f)
Fits-more a l k (e ∷ es) h f = (f.0, f.1, Fits-more (e.offset + e.length) l k es h f.2)

Fits-last :
    (a l k : ℕ) (es : List Entity) (e : Entity)
    → Fits a l es
    → l ≤ e.offset
    → 0 < e.length
    → e.offset + e.length ≤ k
    → Fits a k (es ++ (e ∷ []))
unfolding Fits
Fits-last a l k [] e f h some_ end = (omega (arith, h, f), some_, end)
Fits-last a l k (x ∷ es) e f h some_ end =
    (f.0, f.1, Fits-last (x.offset + x.length) l k es e f.2 h some_ end)

-- The last offset that the entities so far may reach.
abbrev limit_of : Option ℕ → ℕ → ℕ
limit_of none n = n
limit_of (some from) n = from

-- What holds before every token.
abbrev IsSound : Plain → Type 0
IsSound p =
    (p.n ≡ utf16_len p.b) × (limit_of p.start p.n ≤ p.n) × Fits 0 (limit_of p.start p.n) p.entities

write-IsSound : (t : String) (p : Plain) → IsSound p → IsSound (write t p)
write-IsSound t p h =
    let counted = ap (λ m. m + utf16_len t) h.0 ∙ sym (utf16_len-append p.b t) in
    elim (Option-cases p.start) [
      | inl e ↦
          let k = rw e at h in
          rw e
            (counted, omega arith, Fits-more 0 p.n (p.n + utf16_len t) p.entities (omega arith) k.2)
      | inr (from, e) ↦ let k = rw e at h in rw e (counted, omega (arith, k.1), k.2)
    ]

open_code-IsSound :
    (name : String) (p : Plain) (o : Option ℕ)
    → p.start ≡ o
    → IsSound p
    → IsSound (open_code name o p)
open_code-IsSound name p none e h = let k = rw e at h in (h.0, omega arith, k.2)
open_code-IsSound name p (some from) e h = h

close_code-IsSound : (p : Plain) (o : Option ℕ) → p.start ≡ o → IsSound p → IsSound (close_code o p)
close_code-IsSound p none e h = h
close_code-IsSound p (some from) e h =
    let k = rw e at h in
    elim (Bool-cases (ltb from p.n)) [
      | inl more ↦ rw more (
        h.0,
        omega arith,
        Fits-last 0 from p.n p.entities
            (record { kind = p.kind; offset = from; length = p.n - from }) k.2 (omega arith)
            (ground (arith, more)) (omega (arith, k.1)),
      )
      | inr less ↦ rw less (h.0, omega arith, Fits-more 0 from p.n p.entities k.1 k.2)
    ]

close_link-IsSound : (p : Plain) (ls : List OpenLink) → IsSound p → IsSound (close_link ls p)
close_link-IsSound p [] h = h
close_link-IsSound p (l ∷ ls) h =
    let shown = not (same_text l.href "") && not (same_text (text_from l.from p.b) l.href) in
    elim (Bool-cases shown) [
      | inl e ↦ rw e (write-IsSound (" (" <> l.href <> ")") (record p { links = ls }) h)
      | inr e ↦ rw e h
    ]

plain_step-IsSound : (t : Token) (p : Plain) → IsSound p → IsSound (plain_step t p)
unfolding plain_step
plain_step-IsSound (text_token t) p h = write-IsSound t p h
plain_step-IsSound (start_tag name attrs) p h = elim (Bool-cases (is_code name)) [
  | inl e ↦ rw e (open_code-IsSound name p p.start refl h)
  | inr e ↦ elim (Bool-cases (same_text name "a")) [ inl a ↦ rw (e, a) h | inr a ↦ rw (e, a) h ]
]
plain_step-IsSound (end_tag name) p h = elim (Bool-cases (is_code name)) [
  | inl e ↦ rw e (close_code-IsSound p p.start refl h)
  | inr e ↦ elim (Bool-cases (same_text name "a")) [
    | inl a ↦ rw (e, a) (close_link-IsSound p p.links h)
    | inr a ↦ rw (e, a) h
  ]
]
plain_step-IsSound (self_closing_tag name) p h = h
plain_step-IsSound other_token p h = h

plain_tokens-IsSound : (ts : List Token) (p : Plain) → IsSound p → IsSound (plain_tokens ts p)
unfolding plain_tokens
plain_tokens-IsSound [] p h = h
plain_tokens-IsSound (t ∷ ts) p h =
    plain_tokens-IsSound ts (plain_step t p) (plain_step-IsSound t p h)

-- The entities of the plain text are in order, none is empty, none overlaps another, and the last one
-- ends within the text, counted in UTF-16 units.
pub plain_from_html-Fits :
    (ts : List Token) → Fits 0 (utf16_len (plain_from_html ts).0) (plain_from_html ts).1
unfolding plain_from_html utf16_len Fits
plain_from_html-Fits ts =
    let p = plain_tokens ts no_plain in
    let h = plain_tokens-IsSound ts no_plain (refl, omega arith, omega arith) in
    subst (λ m. Fits 0 m p.entities) h.0 (Fits-more 0 (limit_of p.start p.n) p.n p.entities h.1 h.2)
