-- ===== src/Telegram/Nesting.antt =====
-- About what `toTelegramHTML` of internal/transport/telegram/format.go writes, node by node.
use yaad_grove.Base.{
  ℕ, ◌<◌, ◌||◌, ◌==◌, same_text, if◌then◌else◌, Bool, true, false, String, Option, some, [], ◌∷◌,
  length, ◌≡◌, refl, sym, ap, ◌∙◌, subst, arith, inl, inr, Bool-cases,
}
use yaad_grove.Base.Text.{◌<>◌, text_assoc, trim_space}
use yaad_grove.Telegram.Markdown.{
  Kind, Node, node, Nodes, no_nodes, next, Walk, IsWalk, WalkStatus, walk_continue,
  walk_skip_children, bind, children_of,
}
use yaad_grove.Telegram.Render.{
  Renderer, Libraries, write_string, escape_string, is_web_url, render, link_tag, link_start,
  break_if, block_end, child_text, lines_text, tag_of, to_telegram_html,
}
use yaad_grove.Telegram.Html.{IsHtml, IsElement, is_tag}
use yaad_grove.Telegram.Html
use yaad_grove.Telegram.Pieces
use yaad_grove.Telegram.Pieces.{list_break, unchanged, list_end-Leaves, marker-Enters}
use yaad_grove.Telegram.Placed.{IsPlaced, ArePlaced}
use yaad_grove.Telegram.Blocks.{html_block_text}

module _ (lib : Libraries) (w : Walk Renderer) (law : IsWalk Renderer w) (Address : String → Type 0)
    (web : (u : String) → is_web_url lib u ≡ true → Address u)
    (digits : (n : ℕ) → escape_string (lib.decimal n) ≡ lib.decimal n) where
  -- From the renderer s, a call ends, and has written a message, as deep in lists as before.
  abbrev Writes : Option Renderer → Renderer → Type 0
  Writes o s =
      (t : Renderer) × (o ≡ some t)
      × (x : String) × IsHtml Address x
      × (t.out ≡ s.out <> x)
      × (length t.lists ≡ length s.lists)

  -- The visitor leaves a node from depth m for depth d, and writes b.
  abbrev Leaves : Node → ℕ → ℕ → (Renderer → String) → Type 0
  Leaves n m d b =
      (t : Renderer)
      → length t.lists ≡ m
      → (u : Renderer) × (st : WalkStatus) × (render lib n false t ≡ some (u, st))
        × (u.out ≡ t.out <> b t)
        × (length u.lists ≡ d)

  -- A node with something in front of its children and something behind them.
  around :
      (n : Node) (s s1 : Renderer) (a : String) (b : Renderer → String)
      → ((i : String) → IsHtml Address i → (t : Renderer) → IsHtml Address (a <> (i <> b t)))
      → render lib n true s ≡ some (s1, walk_continue)
      → s1.out ≡ s.out <> a
      → Writes (w.walk_children (render lib) (children_of n) s1) s1
      → Leaves n (length s1.lists) (length s.lists) b
      → Writes (w.walk (render lib) n s) s
  around n s s1 a b html opens wrote (t, inner, i, hi, grew, depth) leaves =
      let (u, st, closes, end, back) = leaves t depth in
      (
        u,
        law.at_node (render lib) n s ∙ rw (opens, inner, closes) refl,
        a <> (i <> b t),
        html i hi t,
        end
            ∙ ap (λ x. x <> b t) (grew ∙ ap (λ x. x <> i) wrote)
            ∙ text_assoc (s.out <> a) i (b t)
            ∙ text_assoc s.out a (i <> b t),
        back,
      )

  -- A node that is written at once, without its children.
  alone :
      (n : Node) (s s1 : Renderer) (a : String) (st : WalkStatus)
      → IsHtml Address a
      → render lib n true s ≡ some (s1, walk_skip_children)
      → render lib n false s1 ≡ some (s1, st)
      → s1.out ≡ s.out <> a
      → length s1.lists ≡ length s.lists
      → Writes (w.walk (render lib) n s) s
  alone n s s1 a st html opens closes wrote depth =
      (s1, law.at_node (render lib) n s ∙ rw (opens, closes) refl, a, html, wrote, depth)

  web_tag :
      (n : Node) (s : Renderer) (dest : String)
      → ((entering : Bool) (r : Renderer) → render lib n entering r ≡ link_tag lib dest entering r)
      → ((t : Renderer)
          → length t.lists ≡ length s.lists
          → Writes (w.walk_children (render lib) (children_of n) t) t)
      → Writes (w.walk (render lib) n s) s
  unfolding ◌<>◌
  web_tag n s dest step inner = elim (Bool-cases (is_web_url lib dest)) [
    | inl e ↦
        around n s (write_string (link_start dest) s) (link_start dest) (λ t. "</a>")
          (λ i h t. IsHtml.element (IsElement.link dest (web dest e)) h IsHtml.empty)
          (step true s ∙ rw e refl) refl (inner (write_string (link_start dest) s) refl)
          (λ t k. (write_string "</a>" t, walk_continue, step false t ∙ rw e refl, refl, k))
    | inr e ↦
        around n s s "" (λ t. "")
          (λ i h t. Pieces.beside Address "" "" i IsHtml.empty IsHtml.empty h)
          (step true s ∙ rw e refl) (unchanged s) (inner s refl)
          (λ t k. (t, walk_continue, step false t ∙ rw e refl, unchanged t, k))
  ]

  block-Writes :
      (raw : String) (ns : Nodes) (s : Renderer)
      → Writes (w.walk (render lib) (node (Kind.html_block raw) ns) s) s
  unfolding render
  block-Writes raw ns s =
      let n = node (Kind.html_block raw) ns in
      let t = html_block_text (lib.tokenize raw) in
      elim (Bool-cases (same_text t "")) [
        | inl e ↦ alone n s s "" walk_skip_children IsHtml.empty (rw e refl) refl (unchanged s) refl
        | inr e ↦
            alone n s (write_string (escape_string t <> block_end s) s)
              (escape_string t <> block_end s) walk_skip_children
              (Html.concat_html Address (Pieces.text_html Address t) (Pieces.block_html Address s))
              (rw e refl) refl refl refl
      ]

  mutual
    unfolding render IsPlaced escape_string is_tag ◌<>◌

    walk-Writes :
        (n : Node) (s : Renderer) (inside : Bool)
        → IsPlaced Address inside n
        → (inside ≡ true → 0 < length s.lists)
        → Writes (w.walk (render lib) n s) s
    walk-Writes (node (Kind.text v soft hard) ns) s inside p deep =
        around (node (Kind.text v soft hard) ns) s
          (write_string (escape_string v <> break_if (hard || soft)) s)
          (escape_string v <> break_if (hard || soft)) (λ t. "")
          (λ i h t.
            Pieces.beside Address _ "" i (Pieces.text_break Address v (hard || soft)) IsHtml.empty
              h)
          refl refl
          (children-Writes ns (write_string (escape_string v <> break_if (hard || soft)) s) inside
            p.1 deep)
          (λ t e. (t, walk_continue, refl, unchanged t, e))
    walk-Writes (node (Kind.string_ v) ns) s inside p deep =
        around (node (Kind.string_ v) ns) s (write_string (escape_string v) s) (escape_string v)
          (λ t. "")
          (λ i h t. Pieces.beside Address _ "" i (Pieces.text_html Address v) IsHtml.empty h) refl
          refl (children-Writes ns (write_string (escape_string v) s) inside p.1 deep)
          (λ t e. (t, walk_continue, refl, unchanged t, e))
    walk-Writes (node (Kind.auto_link url) ns) s inside p deep =
        alone (node (Kind.auto_link url) ns) s
          (write_string (link_start url <> escape_string url <> "</a>") s)
          (link_start url <> escape_string url <> "</a>") walk_skip_children
          (Html.whole_element Address (IsElement.link url p.0) (Pieces.text_html Address url)) refl
          refl refl refl
    walk-Writes (node Kind.code_span ns) s inside p deep =
        alone (node Kind.code_span ns) s (write_string ("<code>" <> child_text ns <> "</code>") s)
          ("<code>" <> child_text ns <> "</code>") walk_skip_children
          (Html.whole_element Address (IsElement.tag "code" refl)
            (Pieces.child_text_html Address ns))
          refl refl refl refl
    walk-Writes (node (Kind.emphasis level) ns) s inside p deep =
        around (node (Kind.emphasis level) ns) s (write_string ("<" <> tag_of level <> ">") s)
          ("<" <> tag_of level <> ">") (λ t. "</" <> tag_of level <> ">")
          (λ i h t. Pieces.emphasis_html Address level i h) refl refl
          (children-Writes ns (write_string ("<" <> tag_of level <> ">") s) inside p.1 deep)
          (λ t e. (write_string ("</" <> tag_of level <> ">") t, walk_continue, refl, refl, e))
    walk-Writes (node (Kind.link dest) ns) s inside p deep =
        web_tag (node (Kind.link dest) ns) s dest (λ entering r. refl)
          (λ t e. children-Writes ns t inside p.1 (λ f. subst (λ k. 0 < k) (sym e) (deep f)))
    walk-Writes (node (Kind.image dest) ns) s inside p deep =
        web_tag (node (Kind.image dest) ns) s dest (λ entering r. refl)
          (λ t e. children-Writes ns t inside p.1 (λ f. subst (λ k. 0 < k) (sym e) (deep f)))
    walk-Writes (node Kind.heading ns) s inside p deep =
        around (node Kind.heading ns) s (write_string "<b>" s) "<b>" (λ t. "</b>\n\n")
          (λ i h t. IsHtml.element (IsElement.tag "b" refl) h (Pieces.literal Address "\n\n" refl))
          refl refl (children-Writes ns (write_string "<b>" s) inside p.1 deep)
          (λ t e. (write_string "</b>\n\n" t, walk_continue, refl, refl, e))
    walk-Writes (node Kind.paragraph ns) s inside p deep =
        around (node Kind.paragraph ns) s s "" (λ t. block_end t)
          (λ i h t. Pieces.beside Address "" _ i IsHtml.empty (Pieces.block_html Address t) h) refl
          (unchanged s) (children-Writes ns s inside p.1 deep)
          (λ t e. (write_string (block_end t) t, walk_continue, refl, refl, e))
    walk-Writes (node Kind.text_block ns) s inside p deep =
        around (node Kind.text_block ns) s s "" (λ t. "\n")
          (λ i h t. Pieces.beside Address "" _ i IsHtml.empty (Pieces.literal Address "\n" refl) h)
          refl (unchanged s) (children-Writes ns s inside p.1 deep)
          (λ t e. (write_string "\n" t, walk_continue, refl, refl, e))
    walk-Writes (node (Kind.fenced_code_block ls) ns) s inside p deep =
        alone (node (Kind.fenced_code_block ls) ns) s
          (write_string ("<pre>" <> lines_text ls <> "</pre>\n\n") s)
          ("<pre>" <> lines_text ls <> "</pre>\n\n") walk_skip_children (Pieces.pre_html Address ls)
          refl refl refl refl
    walk-Writes (node (Kind.code_block ls) ns) s inside p deep =
        alone (node (Kind.code_block ls) ns) s
          (write_string ("<pre>" <> lines_text ls <> "</pre>\n\n") s)
          ("<pre>" <> lines_text ls <> "</pre>\n\n") walk_skip_children (Pieces.pre_html Address ls)
          refl refl refl refl
    walk-Writes (node Kind.blockquote ns) s inside p deep =
        around (node Kind.blockquote ns) s (write_string "<blockquote>" s) "<blockquote>"
          (λ t. "</blockquote>\n")
          (λ i h t.
            IsHtml.element (IsElement.tag "blockquote" refl) h (Pieces.literal Address "\n" refl))
          refl refl (children-Writes ns (write_string "<blockquote>" s) inside p.1 deep)
          (λ t e. (write_string "</blockquote>\n" t, walk_continue, refl, refl, e))
    walk-Writes (node (Kind.list ordered start) ns) s inside p deep =
        let inner : Renderer = record s {
          lists = record { ordered = ordered; item = if start == 0 then 1 else start } ∷ s.lists;
        } in
        around (node (Kind.list ordered start) ns) s inner "" (λ t. list_break t.lists)
          (λ i h t.
            Pieces.beside Address "" _ i IsHtml.empty (Pieces.list_break_html Address t.lists) h)
          refl (unchanged s) (children-Writes ns inner true p.1 (λ e. omega arith))
          (λ t e. list_end-Leaves (length s.lists) t t.lists refl e)
    walk-Writes (node Kind.list_item ns) s inside p deep =
        let (s1, a, enters, ha, wrote, depth) =
          marker-Enters Address lib.decimal digits s s.lists refl (deep p.0) in
        around (node Kind.list_item ns) s s1 a (λ t. "\n")
          (λ i h t. Pieces.beside Address a "\n" i ha (Pieces.literal Address "\n" refl) h) enters
          wrote (children-Writes ns s1 inside p.1 (λ f. subst (λ k. 0 < k) (sym depth) (deep f)))
          (λ t e. (write_string "\n" t, walk_continue, refl, refl, e ∙ depth))
    walk-Writes (node Kind.thematic_break ns) s inside p deep =
        around (node Kind.thematic_break ns) s (write_string "—\n" s) "—\n" (λ t. "")
          (λ i h t.
            Pieces.beside Address "—\n" "" i (Pieces.literal Address "—\n" refl) IsHtml.empty h)
          refl refl (children-Writes ns (write_string "—\n" s) inside p.1 deep)
          (λ t e. (t, walk_continue, refl, unchanged t, e))
    walk-Writes (node Kind.raw_html ns) s inside p deep =
        alone (node Kind.raw_html ns) s s "" walk_skip_children IsHtml.empty refl refl (unchanged s)
          refl
    walk-Writes (node (Kind.html_block raw) ns) s inside p deep = block-Writes raw ns s
    walk-Writes (node Kind.other ns) s inside p deep =
        around (node Kind.other ns) s s "" (λ t. "")
          (λ i h t. Pieces.beside Address "" "" i IsHtml.empty IsHtml.empty h) refl (unchanged s)
          (children-Writes ns s inside p.1 deep) (λ t e. (t, walk_continue, refl, unchanged t, e))

    children-Writes :
        (ns : Nodes) (s : Renderer) (inside : Bool)
        → ArePlaced Address inside ns
        → (inside ≡ true → 0 < length s.lists)
        → Writes (w.walk_children (render lib) ns s) s
    children-Writes no_nodes s inside p deep =
        (s, law.at_end (render lib) s, "", IsHtml.empty, unchanged s, refl)
    children-Writes (next n ns) s inside p deep =
        let (t, walked, x, hx, wrote, depth) = walk-Writes n s inside p.0 deep in
        let (u, rest, y, hy, more, end) =
          children-Writes ns t inside p.1 (λ e. subst (λ k. 0 < k) (sym depth) (deep e)) in
        (
          u,
          law.at_next (render lib) n ns s
              ∙ ap (λ o. bind o (w.walk_children (render lib) ns)) walked
              ∙ rest,
          x <> y,
          Html.concat_html Address hx hy,
          more ∙ ap (λ z. z <> y) wrote ∙ text_assoc s.out x y,
          end ∙ depth,
        )

  -- For a document whose list items stand in lists and whose automatic links lead to addresses of a set that
  -- holds the http and https URLs, with numbers written without special characters: rendering does not panic,
  -- and the message is well-formed, its tags nested and without attributes but the links', its text escaped,
  -- its links to addresses of the set.
  pub to_telegram_html-IsHtml :
      (md : String)
      → IsPlaced Address false (lib.parse md)
      → (message : String) × (to_telegram_html lib w md ≡ some message) × IsHtml Address message
  unfolding to_telegram_html ◌<>◌
  to_telegram_html-IsHtml md placed =
      let start : Renderer = record { out = ""; lists = [] } in
      let (t, walked, x, hx, wrote, depth) =
        walk-Writes (lib.parse md) start false placed (λ e. absurd (cc e)) in
      (
        trim_space t.out,
        ap (λ o. bind o (λ r. some (trim_space r.out))) walked,
        subst (λ z. IsHtml Address (trim_space z)) (sym wrote) (Html.trimmed Address hx),
      )
