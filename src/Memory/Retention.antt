-- ===== src/Memory/Retention.antt =====
-- What the buffer keeps: the last turns of each conversation, in order.
use mathlib.Core.List.{append-nil, append_assoc}
use yaad_grove.Base.{
  ℕ, zero, suc, ◌+◌, ◌-◌, ◌<◌, ◌≤◌, ◌≡◌, refl, ◌∙◌, sym, ap, String, List, [], ◌∷◌, ◌++◌, lookup,
  lookup-insert, same_text, same_text_iff, arith, if◌then◌else◌, ltb, length, length-append,
  length-drop, drop, Bool-cases, inl, inr,
}
use yaad_grove.Memory.{Turn, Buffer, or_empty, convo, trim, append}

-- Turns appended one after the other, each to its chat.
pub append_all : List (String × Turn) → Buffer → Buffer
append_all [] b = b
append_all ((chat, t) ∷ rest) b = append_all rest (append chat t b)

-- The turns of one chat among them.
pub turns_of : String → List (String × Turn) → List Turn
turns_of chat [] = []
turns_of chat ((c, t) ∷ rest) =
    if same_text c chat then t ∷ turns_of chat rest else turns_of chat rest

drop-append_one :
    {A : Type 0} (n : ℕ) (xs ys : List A) → n ≤ length xs → drop n (xs ++ ys) ≡ drop n xs ++ ys
drop-append_one zero xs ys h = refl
drop-append_one (suc n) [] ys h = absurd (omega arith)
drop-append_one (suc n) (x ∷ xs) ys h = drop-append_one n xs ys (omega arith)

drop-nil : {A : Type 0} (n : ℕ) → drop {A = A} n [] ≡ []
drop-nil zero = refl
drop-nil (suc n) = refl

drop-drop : {A : Type 0} (m n : ℕ) (xs : List A) → drop m (drop n xs) ≡ drop (n + m) xs
drop-drop m zero xs = let e : zero + m ≡ m = omega arith in rw e refl
drop-drop m (suc n) [] = drop-nil m ∙ sym (drop-nil (suc n + m))
drop-drop m (suc n) (x ∷ xs) =
    let e : suc n + m ≡ suc (n + m) = omega arith in rw e (drop-drop m n xs)

-- The last `n` of a list.
abbrev pub last_of : ℕ → List Turn → List Turn
last_of n l = drop (length l - n) l

trim-eq : (n : ℕ) (l : List Turn) → trim n l ≡ last_of n l
unfolding trim
trim-eq n l = elim (Bool-cases (ltb n (length l))) [
  | inl more ↦ rw more refl
  | inr few ↦ let e : length l - n ≡ 0 = ground arith in rw (few, e) refl
]

-- Keeping the last turns after each append is keeping the last turns of them all.
last_of-append : (n : ℕ) (l m : List Turn) → last_of n (last_of n l ++ m) ≡ last_of n (l ++ m)
last_of-append n l m =
    let joined = sym (drop-append_one (length l - n) l m (omega arith)) in
    let short : length (last_of n l ++ m) ≡ (length l - (length l - n)) + length m =
      length-append (last_of n l) m ∙ ap (λ k. k + length m) (length-drop (length l - n) l) in
    let sum : (length l - n) + (length (last_of n l ++ m) - n) ≡ length (l ++ m) - n =
      omega (arith, short, length-append l m) in
    ap (drop (length (last_of n l ++ m) - n)) joined
    ∙ drop-drop (length (last_of n l ++ m) - n) (length l - n) (l ++ m)
    ∙ ap (λ k. drop k (l ++ m)) sum

convo-append :
    (chat c : String) (t : Turn) (b : Buffer)
    → 0 < b.retain
    → (convo chat (append c t b)
        ≡ (if same_text c chat then last_of b.retain (convo chat b ++ t ∷ []) else convo chat b))
      × ((append c t b).retain ≡ b.retain)
unfolding append convo
convo-append chat c t b h = elim (Bool-cases (same_text c chat)) [
  | inl same ↦
      let e = (same_text_iff c chat).0 same in
      let v =
        lookup-insert c chat (trim b.retain (or_empty (lookup c b.convos) ++ t ∷ [])) b.convos in
      (ground (arith, v, trim-eq b.retain (or_empty (lookup c b.convos) ++ t ∷ [])), ground arith)
  | inr other ↦
      let v =
        lookup-insert c chat (trim b.retain (or_empty (lookup c b.convos) ++ t ∷ [])) b.convos in
      (ground (arith, v), ground arith)
]

-- The invariant that `Append` keeps: no conversation holds more than `retain` turns.
convo_trimmed : (n : ℕ) (l : List Turn) → length l ≤ n → last_of n l ≡ l
convo_trimmed n l h = let e : length l - n ≡ 0 = omega arith in rw e refl

length-last_of : (n : ℕ) (l : List Turn) → length (last_of n l) ≤ n
length-last_of n l = omega (arith, length-drop (length l - n) l)

append_all-lem :
    (chat : String) (l : List (String × Turn)) (b : Buffer) (n : ℕ)
    → b.retain ≡ n
    → 0 < n
    → length (convo chat b) ≤ n
    → convo chat (append_all l b) ≡ last_of n (convo chat b ++ turns_of chat l)
unfolding append_all turns_of
append_all-lem chat [] b n e h fits =
    sym (ap (last_of n) (append-nil (convo chat b)) ∙ convo_trimmed n (convo chat b) fits)
append_all-lem chat ((c, t) ∷ rest) b n e h fits =
    let (v, kept) = convo-append chat c t b (omega arith) in
    elim (Bool-cases (same_text c chat)) [
      | inl same ↦
          let x_eq : convo chat (append c t b) ≡ last_of n (convo chat b ++ t ∷ []) =
            v ∙ rw (same, e) refl in
          let fits' : length (convo chat (append c t b)) ≤ n =
            rw x_eq (length-last_of n (convo chat b ++ t ∷ [])) in
          rw same (
            append_all-lem chat rest (append c t b) n (kept ∙ e) h fits'
            ∙ ap (λ x. last_of n (x ++ turns_of chat rest)) x_eq
            ∙ last_of-append n (convo chat b ++ t ∷ []) (turns_of chat rest)
            ∙ ap (last_of n) (append_assoc (convo chat b) (t ∷ []) (turns_of chat rest)))
      | inr other ↦
          let x_eq : convo chat (append c t b) ≡ convo chat b = v ∙ rw other refl in
          let fits' : length (convo chat (append c t b)) ≤ n = rw x_eq fits in
          rw other (
            append_all-lem chat rest (append c t b) n (kept ∙ e) h fits'
            ∙ ap (λ x. last_of n (x ++ turns_of chat rest)) x_eq)
    ]

-- In a buffer that keeps turns, after any appends to any chats a conversation that was within its bound
-- is exactly the last `retain` of the turns that it held
-- and that were appended to it, in order.
pub append_all-eq :
    (chat : String) (l : List (String × Turn)) (b : Buffer)
    → 0 < b.retain
    → length (convo chat b) ≤ b.retain
    → convo chat (append_all l b) ≡ last_of b.retain (convo chat b ++ turns_of chat l)
append_all-eq chat l b h fits = append_all-lem chat l b b.retain refl h fits
