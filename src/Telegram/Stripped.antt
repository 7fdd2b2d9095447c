-- ===== src/Telegram/Stripped.antt =====
-- About `stripBotMentions` of internal/transport/telegram/telegram.go for one mention of the bot.
use yaad_grove.Base.{
  ℕ, ◌+◌, true, false, String, some, List, [], ◌∷◌, ◌++◌, All, All-imp, length, drop, keep,
  keep-one, map, take-append, drop-append, length-append, append_assoc, ◌≡◌, refl, sym, ◌∙◌, ap,
  arith,
}
use yaad_grove.Base.Int.{ℤ, pos, pos_part, ◌+ℤ◌}
use yaad_grove.Base.Text.{◌<>◌, trim_space}
use yaad_grove.Base.Utf16.{encode, decode, encode-append, decode-append}
use yaad_grove.Base.Sort.{sort_by}
use yaad_grove.Telegram.Updates.{MessageEntity, Adapter, Go}
use yaad_grove.Telegram.Mentions.{
  is_own, is_cut, span_of, cut, cut_all, cut_next, shortened, without, strip_bot_mentions, Span,
}

sized :
    (before name after : List ℕ)
    → length (before ++ (name ++ after)) ≡ length before + (length name + length after)
sized before name after =
    length-append before (name ++ after) ∙ ap (λ n. length before + n) (length-append name after)

cut-between :
    (before name after : List ℕ) (end : ℤ)
    → end ≡ pos (length before + length name)
    → cut (length before, end) (before ++ (name ++ after)) ≡ some (before ++ after)
unfolding cut
cut-between before name after end e =
    let behind : drop (length before + length name) (before ++ (name ++ after)) ≡ after =
      ap (λ n. drop n (before ++ (name ++ after))) (sym (length-append before name))
      ∙ ap (drop (length (before ++ name))) (sym (append_assoc before name after))
      ∙ drop-append (before ++ name) after in
    rw (e, sized before name after, take-append before (name ++ after), behind) (ground arith)

without-one :
    (text : String) (s : Span) (u : List ℕ)
    → cut s (encode text) ≡ some u
    → without text (s ∷ []) ≡ some (trim_space (decode u))
unfolding cut_all sort_by
without-one text s u h = ap (λ o. shortened (cut_next (cut_all []) o)) h

module _ (go : Go) (a : Adapter) where
  strip-one :
      (text : String) (es : List MessageEntity) (e : MessageEntity)
      → keep (is_cut go a text) es ≡ e ∷ []
      → strip_bot_mentions go a text es ≡ without text (span_of e ∷ [])
  unfolding strip_bot_mentions
  strip-one text [] e h = absurd (cc h)
  strip-one text (x ∷ xs) e h = ap (λ l. without text (map span_of l)) h

  not_cut :
      (text : String) (e : MessageEntity) → is_own go a text e ≡ false → is_cut go a text e ≡ false
  not_cut text e h = rw h refl

  -- Where one entity alone is a mention of the bot, from the end of `before` to the start of `after`, the text
  -- handed on is the rest, without white space at its ends.
  pub strip_bot_mentions-rest :
      (before name after : String) (es : List MessageEntity) (e : MessageEntity)
      (fs : List MessageEntity)
      → let text = before <> (name <> after) in
        is_own go a text e ≡ true
        → All (λ x. is_own go a text x ≡ false) es
        → All (λ x. is_own go a text x ≡ false) fs
        → e.offset ≡ pos (length (encode before))
        → e.offset +ℤ e.length ≡ pos (length (encode before) + length (encode name))
        → strip_bot_mentions go a text (es ++ (e ∷ fs)) ≡ some (trim_space (before <> after))
  strip_bot_mentions-rest before name after es e fs own others more start end =
      let text = before <> (name <> after) in
      let shape : encode text ≡ encode before ++ (encode name ++ encode after) =
        encode-append before (name <> after)
        ∙ ap (λ u. encode before ++ u) (encode-append name after) in
      let cuts : is_cut go a text e ≡ true =
        let size = ap length shape ∙ sized (encode before) (encode name) (encode after) in
        rw (own, end, start, size) (ground arith) in
      strip-one text (es ++ (e ∷ fs)) e (
        keep-one (is_cut go a text) es e fs (All-imp _ _ (not_cut text) es others) cuts
          (All-imp _ _ (not_cut text) fs more))
      ∙ without-one text (span_of e) (encode before ++ encode after) (
          ap (λ o. cut (pos_part o, e.offset +ℤ e.length) (encode text)) start
          ∙ ap (cut (length (encode before), e.offset +ℤ e.length)) shape
          ∙ cut-between (encode before) (encode name) (encode after) (e.offset +ℤ e.length) end)
      ∙ ap (λ t. some (trim_space t)) (decode-append before after)
