-- ===== src/Base/Text.antt =====
-- Go's package strings, where the program uses it: TrimSpace over Unicode's white space.
use Prim.Native.Char.{Char, code}
use yaad_grove.Base.Tests.{leb, ◌==◌, same_text, if◌then◌else◌, Bool-cases, same_text_ne}
use Prim.Native.String.{String}
use mathlib.Core.Path.{◌≡◌, refl, ap}
use mathlib.Core.Bool.{Bool, true, false, ◌&&◌, ◌||◌}
use mathlib.Core.Logic.{◌⊎◌, inl, inr}
use native.Mathlib.Omega.{arith}

-- unicode.IsSpace
unfoldable pub is_space : Char → Bool
is_space c =
    let n = code c in
    (leb 9 n && leb n 13)
    || n == 32
    || n == 0x85
    || n == 0xa0
    || n == 0x1680
    || (leb 0x2000 n && leb n 0x200a)
    || n == 0x2028
    || n == 0x2029
    || n == 0x202f
    || n == 0x205f
    || n == 0x3000

unfoldable pub trim_left : String → String
unfolding is_space
trim_left String.[] = String.[]
trim_left (String.◌∷◌ c s) = let rest = trim_left s in if is_space c then rest else String.◌∷◌ c s

unfoldable pub trim_right : String → String
unfolding is_space
trim_right String.[] = String.[]
trim_right (String.◌∷◌ c s) =
    let rest = trim_right s in
    if is_space c && same_text rest "" then String.[] else String.◌∷◌ c rest

unfoldable pub trim_space : String → String
unfolding trim_left trim_right
trim_space s = trim_right (trim_left s)

infixl 65 ◌<>◌
-- s + t on strings.
unfoldable pub ◌<>◌ : String → String → String
String.[] <> t = t
(String.◌∷◌ c s) <> t = String.◌∷◌ c (s <> t)

pub text_nil : (s : String) → s <> "" ≡ s
unfolding ◌<>◌
text_nil String.[] = refl
text_nil (String.◌∷◌ c s) = ap (λ t. String.◌∷◌ c t) (text_nil s)

pub text_assoc : (a b c : String) → (a <> b) <> c ≡ a <> (b <> c)
unfolding ◌<>◌
text_assoc String.[] b c = refl
text_assoc (String.◌∷◌ x a) b c = ap (λ t. String.◌∷◌ x t) (text_assoc a b c)

pub trim_left-space :
    (c : Char) (s : String) → is_space c ≡ true → trim_left (String.◌∷◌ c s) ≡ trim_left s
unfolding trim_left
trim_left-space c s h = rw h refl

pub trim_left-letter :
    (c : Char) (s : String) → is_space c ≡ false → trim_left (String.◌∷◌ c s) ≡ String.◌∷◌ c s
unfolding trim_left
trim_left-letter c s h = rw h refl

-- A letter stays, or it was white space with nothing but white space behind it.
pub trim_right-cons :
    (c : Char) (s : String)
    → (trim_right (String.◌∷◌ c s) ≡ "")
      ⊎ (trim_right (String.◌∷◌ c s) ≡ String.◌∷◌ c (trim_right s))
unfolding trim_right
trim_right-cons c s = elim (Bool-cases (is_space c && same_text (trim_right s) "")) [
  | inl e ↦ inl (rw e refl)
  | inr e ↦ inr (rw e refl)
]

trim_right-letter :
    (c : Char) (s : String)
    → is_space c ≡ false
    → trim_right (String.◌∷◌ c s) ≡ String.◌∷◌ c (trim_right s)
unfolding trim_right
trim_right-letter c s h = rw h refl

cons_is_text : (c : Char) (s : String) → same_text (String.◌∷◌ c s) "" ≡ false
cons_is_text c s = same_text_ne (String.◌∷◌ c s) "" (λ e. cc e)

trim_right-over :
    (x c : Char) (a b t : String)
    → trim_right (a <> String.◌∷◌ c b) ≡ a <> String.◌∷◌ c t
    → trim_right (String.◌∷◌ x (a <> String.◌∷◌ c b)) ≡ String.◌∷◌ x (a <> String.◌∷◌ c t)
unfolding trim_right ◌<>◌
trim_right-over x c String.[] b t h = rw (h, cons_is_text) (ground arith)
trim_right-over x c (String.◌∷◌ y a) b t h = rw (h, cons_is_text) (ground arith)

-- Nothing is cut in front of a letter.
pub trim_right-behind :
    (a : String) (c : Char) (b : String)
    → is_space c ≡ false
    → trim_right (a <> String.◌∷◌ c b) ≡ a <> String.◌∷◌ c (trim_right b)
unfolding ◌<>◌
trim_right-behind String.[] c b h = trim_right-letter c b h
trim_right-behind (String.◌∷◌ x a) c b h =
    trim_right-over x c a b (trim_right b) (trim_right-behind a c b h)
