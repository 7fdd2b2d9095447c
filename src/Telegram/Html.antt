-- ===== src/Telegram/Html.antt =====
-- Well-formed messages: the subset of HTML that Telegram renders, with no other tag and no loose
-- special character.
use Prim.Native.Char.{Char, code}
use yaad_grove.Base.{
  one_of, Bool, true, false, ◌||◌, String, [], ◌∷◌, ◌==◌, ◌⊎◌, inl, inr, ◌≡◌, refl, sym, ap, ◌∙◌,
  subst, arith, Bool-cases,
}
use yaad_grove.Base.Text.{
  ◌<>◌, text_nil, text_assoc, is_space, trim_space, trim_left, trim_right, trim_left-space,
  trim_left-letter, trim_right-cons, trim_right-behind,
}
use yaad_grove.Telegram.Render.{entity, escape_string, link_start}

-- The characters that `html.EscapeString` replaces.
abbrev pub is_special : Char → Bool
is_special c = let n = code c in (n == 38) || (n == 39) || (n == 60) || (n == 62) || (n == 34)

unfoldable pub is_tag : String → Bool
is_tag = one_of ("b" ∷ "i" ∷ "code" ∷ "pre" ∷ "blockquote" ∷ [])

-- Other characters stay as they are.
entity-plain : (c : Char) → is_special c ≡ false → entity c ≡ String.◌∷◌ c ""
entity-plain c h = ground arith

entity-among :
    (c : Char)
    → is_special c ≡ true
    → (entity c ≡ "&amp;")
      ⊎ ((entity c ≡ "&#39;")
          ⊎ ((entity c ≡ "&lt;") ⊎ ((entity c ≡ "&gt;") ⊎ (entity c ≡ "&#34;"))))
entity-among c h = ground arith

-- A text that is shown from its first character to its last.
abbrev Shown : String → Type 0
Shown s =
    (x : Char) × (inside : String) × (y : Char) × (is_space x ≡ false)
    × (is_space y ≡ false)
    × (s ≡ String.◌∷◌ x (inside <> String.◌∷◌ y ""))

entity-Shown : (c : Char) → is_special c ≡ true → Shown (entity c)
unfolding ◌<>◌ is_space
entity-Shown c h = elim (entity-among c h) [
  | inl e ↦ ("&", "amp", ";", refl, refl, e)
  | inr (inl e) ↦ ("&", "#39", ";", refl, refl, e)
  | inr (inr (inl e)) ↦ ("&", "lt", ";", refl, refl, e)
  | inr (inr (inr (inl e))) ↦ ("&", "gt", ";", refl, refl, e)
  | inr (inr (inr (inr e))) ↦ ("&", "#34", ";", refl, refl, e)
]

trim_left-Shown : (o s : String) → Shown o → trim_left (o <> s) ≡ o <> s
unfolding ◌<>◌
trim_left-Shown o s (x, m, y, shown, last, e) =
    rw e (trim_left-letter x ((m <> String.◌∷◌ y "") <> s) shown)

-- Nothing is cut in front of a text that is shown.
trim_right-Shown :
    (a o s : String) → Shown o → trim_right (a <> (o <> s)) ≡ a <> (o <> trim_right s)
unfolding ◌<>◌
trim_right-Shown a o s (x, m, y, first, shown, e) =
    let split : (t : String) → a <> (o <> t) ≡ (a <> String.◌∷◌ x m) <> String.◌∷◌ y t = λ t.
      ap (λ u. a <> (u <> t)) e
      ∙ ap (λ u. a <> String.◌∷◌ x u) (text_assoc m (String.◌∷◌ y "") t)
      ∙ sym (text_assoc a (String.◌∷◌ x m) (String.◌∷◌ y t)) in
    ap trim_right (split s)
    ∙ trim_right-behind (a <> String.◌∷◌ x m) y s shown
    ∙ sym (split (trim_right s))

module _ (Address : String → Type 0) where
  -- The start and the end of an element: a tag with no attribute, or a link.
  pub data IsElement : String → String → Type 0 where
    tag : (t : String) → is_tag t ≡ true → IsElement ("<" <> t <> ">") ("</" <> t <> ">")
    link : (url : String) → Address url → IsElement (link_start url) "</a>"

  pub data IsHtml : String → Type 0 where
    empty : IsHtml ""
    letter : (c : Char) {s : String} → is_special c ≡ false → IsHtml s → IsHtml (String.◌∷◌ c s)
    escaped : (c : Char) {s : String} → is_special c ≡ true → IsHtml s → IsHtml (entity c <> s)
    element :
        {first last inner s : String}
        → IsElement first last
        → IsHtml inner
        → IsHtml s
        → IsHtml (first <> (inner <> (last <> s)))

  element-Shown : {first last : String} → IsElement first last → Shown first × Shown last
  unfolding ◌<>◌ is_space
  element-Shown (tag t h) =
      (("<", t, ">", refl, refl, refl), ("<", "/" <> t, ">", refl, refl, refl))
  element-Shown (link url h) = (
    (
      "<",
      "a href=\"" <> escape_string url <> "\"",
      ">",
      refl,
      refl,
      ap (λ t. "<a href=\"" <> t) (sym (text_assoc (escape_string url) "\"" ">")),
    ),
    ("<", "/a", ">", refl, refl, refl),
  )

  wrap_assoc : (o i c s b : String) → (o <> (i <> (c <> s))) <> b ≡ o <> (i <> (c <> (s <> b)))
  wrap_assoc o i c s b =
      text_assoc o (i <> (c <> s)) b
      ∙ ap (λ t. o <> t) (text_assoc i (c <> s) b ∙ ap (λ t. i <> t) (text_assoc c s b))

  pub concat_html : {a b : String} → IsHtml a → IsHtml b → IsHtml (a <> b)
  unfolding ◌<>◌
  concat_html empty k = k
  concat_html (letter c p h) k = letter c p (concat_html h k)
  concat_html {b = b} (escaped c {s} p h) k =
      subst IsHtml (sym (text_assoc (entity c) s b)) (escaped c p (concat_html h k))
  concat_html {b = b} (element {first = o} {last = c} {inner = i} {s = s} e inner h) k =
      subst IsHtml (sym (wrap_assoc o i c s b)) (element e inner (concat_html h k))

  -- An element by itself.
  pub whole_element :
      {first last inner : String}
      → IsElement first last
      → IsHtml inner
      → IsHtml (first <> inner <> last)
  whole_element {first = o} {last = c} {inner = i} e h =
      subst IsHtml (ap (λ t. o <> (i <> t)) (text_nil c) ∙ sym (text_assoc o i c))
        (element e h empty)

  -- Escaping any text gives a message.
  pub escape : (s : String) → IsHtml (escape_string s)
  unfolding escape_string ◌<>◌
  escape String.[] = empty
  escape (String.◌∷◌ c s) = elim (Bool-cases (is_special c)) [
    | inl special ↦ escaped c special (escape s)
    | inr plain ↦
        subst (λ t. IsHtml (t <> escape_string s)) (sym (entity-plain c plain))
          (letter c plain (escape s))
  ]

  -- What is left of a message without the white space at its ends is a message.
  left : {s : String} → IsHtml s → IsHtml (trim_left s)
  unfolding trim_left
  left empty = empty
  left (letter c {s} p h) = elim (Bool-cases (is_space c)) [
    | inl blank ↦ subst IsHtml (sym (trim_left-space c s blank)) (left h)
    | inr shown ↦ subst IsHtml (sym (trim_left-letter c s shown)) (letter c p h)
  ]
  left (escaped c {s} p h) =
      subst IsHtml (sym (trim_left-Shown (entity c) s (entity-Shown c p))) (escaped c p h)
  left (element {first = o} {last = c} {inner = i} {s = s} e inner h) =
      subst IsHtml (sym (trim_left-Shown o (i <> (c <> s)) (element-Shown e).0)) (element e inner h)

  right : {s : String} → IsHtml s → IsHtml (trim_right s)
  unfolding trim_right ◌<>◌
  right empty = empty
  right (letter c {s} p h) = elim (trim_right-cons c s) [
    | inl e ↦ subst IsHtml (sym e) empty
    | inr e ↦ subst IsHtml (sym e) (letter c p (right h))
  ]
  right (escaped c {s} p h) =
      subst IsHtml (sym (trim_right-Shown "" (entity c) s (entity-Shown c p)))
        (escaped c p (right h))
  right (element {first = o} {last = c} {inner = i} {s = s} e inner h) =
      subst IsHtml
        (sym (text_assoc o i (c <> trim_right s))
          ∙ sym (trim_right-Shown (o <> i) c s (element-Shown e).1)
          ∙ ap trim_right (text_assoc o i (c <> s)))
        (element e inner (right h))

  pub trimmed : {s : String} → IsHtml s → IsHtml (trim_space s)
  unfolding trim_space
  trimmed h = right (left h)
