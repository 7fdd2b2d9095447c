-- ===== src/Telegram/Pieces.antt =====
-- About the pieces that `render` of internal/transport/telegram/format.go writes.
use yaad_grove.Base.{
  length, suc, ◌<◌, some, ap, arith, ℕ, ltb, Bool, true, false, String, List, [], ◌∷◌, ◌≡◌, refl,
  sym, subst, inl, inr, Bool-cases,
}
use yaad_grove.Base.Text.{◌<>◌, text_assoc, text_nil}
use yaad_grove.Telegram.Markdown.{WalkStatus, walk_continue, Kind, node, Nodes, no_nodes, next}
use yaad_grove.Telegram.Render.{
  Renderer, ListState, write_string, marker, list_end, escape_string, break_if, block_end, in_list,
  child_text, lines_text, tag_of,
}
use yaad_grove.Telegram.Html.{IsHtml, IsElement, is_tag}
use yaad_grove.Telegram.Html

-- What the end of a list writes, by the lists that are open in front of it.
unfoldable pub list_break : List ListState → String
list_break (l ∷ []) = "\n"
list_break ls = ""

pub unchanged : (s : Renderer) → s.out ≡ s.out <> ""
unchanged s = sym (text_nil s.out)

pub list_end-Leaves :
    (d : ℕ) (t : Renderer) (ls : List ListState)
    → t.lists ≡ ls
    → length ls ≡ suc d
    → (u : Renderer) × (st : WalkStatus) × (list_end t ls ≡ some (u, st))
      × (u.out ≡ t.out <> list_break ls)
      × (length u.lists ≡ d)
unfolding list_break
list_end-Leaves d t [] e h = absurd (cc h)
list_end-Leaves d t (l ∷ []) e h = (_, walk_continue, refl, refl, omega (arith, h))
list_end-Leaves d t (l ∷ k ∷ ls) e h = (_, walk_continue, refl, unchanged t, omega (arith, h))

module _ (Address : String → Type 0) where
  -- A message, something in it, and another message.
  pub beside :
      (a b i : String)
      → IsHtml Address a
      → IsHtml Address b
      → IsHtml Address i
      → IsHtml Address (a <> (i <> b))
  beside a b i ha hb hi = Html.concat_html Address ha (Html.concat_html Address hi hb)

  pub text_html : (s : String) → IsHtml Address (escape_string s)
  text_html = Html.escape Address

  -- Text that holds no special character.
  pub literal : (s : String) → escape_string s ≡ s → IsHtml Address s
  literal s e = subst (IsHtml Address) e (text_html s)

  pub text_break : (s : String) (b : Bool) → IsHtml Address (escape_string s <> break_if b)
  unfolding escape_string ◌<>◌
  text_break s true = Html.concat_html Address (text_html s) (literal "\n" refl)
  text_break s false = Html.concat_html Address (text_html s) IsHtml.empty

  pub block_html : (t : Renderer) → IsHtml Address (block_end t)
  unfolding escape_string ◌<>◌
  block_html t = elim (Bool-cases (in_list t)) [
    | inl e ↦ rw e (literal "\n" refl)
    | inr e ↦ rw e (literal "\n\n" refl)
  ]

  pub list_break_html : (ls : List ListState) → IsHtml Address (list_break ls)
  unfolding list_break escape_string ◌<>◌
  list_break_html [] = IsHtml.empty
  list_break_html (l ∷ []) = literal "\n" refl
  list_break_html (l ∷ k ∷ ls) = IsHtml.empty

  pub child_text_html : (ns : Nodes) → IsHtml Address (child_text ns)
  unfolding child_text
  child_text_html no_nodes = IsHtml.empty
  child_text_html (next (node (Kind.text v soft hard) ms) ns) =
      Html.concat_html Address (text_html v) (child_text_html ns)
  child_text_html (next (node k ms) ns) = child_text_html ns

  pub lines_html : (ls : List String) → IsHtml Address (lines_text ls)
  unfolding lines_text
  lines_html [] = IsHtml.empty
  lines_html (l ∷ ls) = Html.concat_html Address (text_html l) (lines_html ls)

  pub pre_html : (ls : List String) → IsHtml Address ("<pre>" <> lines_text ls <> "</pre>\n\n")
  unfolding escape_string is_tag ◌<>◌
  pre_html ls =
      subst (IsHtml Address) (sym (text_assoc "<pre>" (lines_text ls) "</pre>\n\n"))
        (IsHtml.element (IsElement.tag "pre" refl) (lines_html ls) (literal "\n\n" refl))

  pub emphasis_html :
      (level : ℕ) (i : String)
      → IsHtml Address i
      → IsHtml Address (("<" <> tag_of level <> ">") <> (i <> ("</" <> tag_of level <> ">")))
  unfolding tag_of is_tag ◌<>◌
  emphasis_html level i h = elim (Bool-cases (ltb 1 level)) [
    | inl e ↦ rw e (IsHtml.element (IsElement.tag "b" refl) h IsHtml.empty)
    | inr e ↦ rw e (IsHtml.element (IsElement.tag "i" refl) h IsHtml.empty)
  ]

  pub marker-Enters :
      (decimal : ℕ → String)
      → ((n : ℕ) → escape_string (decimal n) ≡ decimal n)
      → (s : Renderer) (ls : List ListState) → s.lists ≡ ls
      → 0 < length ls
      → (s1 : Renderer) × (a : String) × (marker decimal ls s ≡ some (s1, walk_continue))
        × IsHtml Address a
        × (s1.out ≡ s.out <> a)
        × (length s1.lists ≡ length s.lists)
  unfolding escape_string ◌<>◌
  marker-Enters decimal digits s [] same h = absurd (omega (arith, h))
  marker-Enters decimal digits s (l ∷ ls) same h = elim (Bool-cases l.ordered) [
    | inl e ↦
        let number = decimal l.item <> ". " in
        (
          record { out = s.out <> number; lists = record l { item = suc l.item } ∷ ls },
          number,
          rw e refl,
          Html.concat_html Address (literal (decimal l.item) (digits l.item)) (literal ". " refl),
          refl,
          ap length (sym same),
        )
    | inr e ↦ (write_string "• " s, "• ", rw e refl, literal "• " refl, refl, refl)
  ]
