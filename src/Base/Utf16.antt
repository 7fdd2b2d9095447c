-- ===== src/Base/Utf16.antt =====
-- Go's package unicode/utf16, on lists of 16-bit units, and the decoder's way back.
use Prim.Native.Char.{Char, char, code, IsScalar}
use Prim.Native.Nat.{ℕ, ◌+◌, ◌-◌, ◌*◌, ◌/◌, ◌%◌, ◌≤◌, ◌<◌, compare, Ordering}
use Prim.Native.String.{String}
use text.Mathlib.TextEquality.{Char-path}
use mathlib.Core.Path.{◌≡◌, refl, sym, ap, ◌∙◌}
use yaad_grove.Base.Lists.{append_nil, append_assoc}
use mathlib.Core.Bool.{Bool, true, false, ◌&&◌}
use mathlib.Core.Logic.{inl, inr, ◌⊎◌}
use mathlib.Core.List.{List, [], ◌∷◌, ◌++◌}
use native.Mathlib.Omega.{arith}
use yaad_grove.Base.Tests.{ltb, leb, if◌then◌else◌, Bool-cases}
use yaad_grove.Base.Text.{◌<>◌, text_nil}

abbrev pub is_high : ℕ → Bool
is_high u = leb 0xd800 u && ltb u 0xdc00

abbrev pub is_low : ℕ → Bool
is_low u = leb 0xdc00 u && ltb u 0xe000

-- The units of one character.
abbrev units : Char → List ℕ
units c =
    let n = code c in
    if ltb n 0x10000
    then n ∷ []
    else (0xd800 + (n - 0x10000) / 0x400) ∷ (0xdc00 + (n - 0x10000) % 0x400) ∷ []

-- utf16.Encode([]rune(s))
unfoldable pub encode : String → List ℕ
encode String.[] = []
encode (String.◌∷◌ c s) = units c ++ encode s

less : (a b : ℕ) → ltb a b ≡ true → compare a b ≡ Ordering.lt
less a b h = ground (arith, h)

more : (a b : ℕ) → b < a → compare a b ≡ Ordering.gt
more a b h = ground (arith, h)

pub below : (n : ℕ) → ltb n 55296 ≡ true → IsScalar n
below n h = rw (less n 55296 h) tt

pub above : (n : ℕ) → ltb 57343 n ≡ true → ltb n 1114112 ≡ true → IsScalar n
above n h k = rw (more n 55296 (ground (arith, h)), less 57343 n h, less n 1114112 k) tt

abbrev pub Test : Bool → Type 0
Test b = (b ≡ true) ⊎ (b ≡ false)

abbrev pub test : (b : Bool) → Test b
test true = inl refl
test false = inr refl

-- The character with a number, U+FFFD where there is none.
abbrev pub with_code :
    (n : ℕ) → Test (ltb n 55296) → Test (ltb 57343 n) → Test (ltb n 1114112) → Char
with_code n (inl low) d e = char n (below n low)
with_code n (inr h) (inl high) (inl inside) = char n (above n high inside)
with_code n (inr h) (inl high) (inr outside) = char 0xfffd tt
with_code n (inr h) (inr surrogate) e = char 0xfffd tt

abbrev pub from_code : ℕ → Char
from_code n = with_code n (test (ltb n 55296)) (test (ltb 57343 n)) (test (ltb n 1114112))

-- utf16.Decode: a pair of surrogates is one character, a loose one is U+FFFD.
unfoldable pub decode : List ℕ → String
decode [] = ""
decode (u ∷ []) = String.◌∷◌ (from_code u) ""
decode (u ∷ v ∷ rest) = elim (is_high u && is_low v) [
  | true ↦ String.◌∷◌ (from_code (0x10000 + (u - 0xd800) * 0x400 + (v - 0xdc00))) (decode rest)
  | false ↦ String.◌∷◌ (from_code u) (decode (v ∷ rest))
]

-- A character's number is no surrogate's.
unfoldable pub IsRune : ℕ → Type 0
IsRune n = (n < 55296) ⊎ ((57343 < n) × (n < 1114112))

IsRune-cases :
    (n : ℕ) (o q r : Ordering)
    → compare n 55296 ≡ o
    → compare 57343 n ≡ q
    → compare n 1114112 ≡ r
    → IsScalar n
    → IsRune n
unfolding IsRune
IsRune-cases n Ordering.lt q r e f g p = inl (ground (arith, e))
IsRune-cases n Ordering.eq Ordering.lt Ordering.lt e f g p =
    inr (ground (arith, f), ground (arith, g))
IsRune-cases n Ordering.gt Ordering.lt Ordering.lt e f g p =
    inr (ground (arith, f), ground (arith, g))
IsRune-cases n Ordering.eq Ordering.lt r e f g p = absurd (rw (e, f, g) at p)
IsRune-cases n Ordering.gt Ordering.lt r e f g p = absurd (rw (e, f, g) at p)
IsRune-cases n Ordering.eq q r e f g p = absurd (rw (e, f) at p)
IsRune-cases n Ordering.gt q r e f g p = absurd (rw (e, f) at p)

code-IsRune : (c : Char) → IsRune (code c)
code-IsRune (char n p) =
    IsRune-cases n (compare n 55296) (compare 57343 n) (compare n 1114112) refl refl refl p

with_code-IsRune :
    (n : ℕ) (c : Test (ltb n 55296)) (d : Test (ltb 57343 n)) (e : Test (ltb n 1114112))
    → IsRune n
    → code (with_code n c d e) ≡ n
unfolding IsRune
with_code-IsRune n (inl low) d e h = refl
with_code-IsRune n (inr l) (inl high) (inl inside) h = refl
with_code-IsRune n (inr l) (inl high) (inr outside) h = absurd (ground (arith, l, outside, h))
with_code-IsRune n (inr l) (inr surrogate) e h = absurd (ground (arith, l, surrogate, h))

from_code-IsRune : (n : ℕ) → IsRune n → code (from_code n) ≡ n
from_code-IsRune n h =
    with_code-IsRune n (test (ltb n 55296)) (test (ltb 57343 n)) (test (ltb n 1114112)) h

from_code-code : (c : Char) → from_code (code c) ≡ c
from_code-code c = Char-path (from_code (code c)) c (from_code-IsRune (code c) (code-IsRune c))

decode_short :
    (c : Char) (rest : List ℕ)
    → IsRune (code c)
    → ltb (code c) 0x10000 ≡ true
    → decode (code c ∷ rest) ≡ String.◌∷◌ c (decode rest)
unfolding decode IsRune
decode_short c [] h s = ap (λ d. String.◌∷◌ d "") (from_code-code c)
decode_short c (v ∷ rest) h s =
    let whole : (is_high (code c) && is_low v) ≡ false = ground (arith, h, s) in
    rw (whole, decode) (ap (λ d. String.◌∷◌ d (decode (v ∷ rest))) (from_code-code c))

decode_long :
    (c : Char) (rest : List ℕ)
    → IsRune (code c)
    → ltb (code c) 0x10000 ≡ false
    → decode ((0xd800 + (code c - 0x10000) / 0x400) ∷ (0xdc00 + (code c - 0x10000) % 0x400) ∷ rest)
      ≡ String.◌∷◌ c (decode rest)
unfolding decode IsRune
decode_long c rest h l =
    let u = 0xd800 + (code c - 0x10000) / 0x400 in
    let v = 0xdc00 + (code c - 0x10000) % 0x400 in
    let big : 0x10000 ≤ code c = ground (arith, l) in
    let range : code c < 1114112 = ground (arith, h) in
    let pair : (is_high u && is_low v) ≡ true = ground (arith, range, big) in
    let value : 0x10000 + (u - 0xd800) * 0x400 + (v - 0xdc00) ≡ code c = omega (arith, big) in
    rw (pair, decode)
      (ap (λ n. String.◌∷◌ (from_code n) (decode rest)) value
        ∙ ap (λ d. String.◌∷◌ d (decode rest)) (from_code-code c))

-- A whole character in front is decoded by itself, whatever follows it.
decode-units : (c : Char) (rest : List ℕ) → decode (units c ++ rest) ≡ String.◌∷◌ c (decode rest)
decode-units c rest = elim (Bool-cases (ltb (code c) 0x10000)) [
  | inl short ↦ rw short (decode_short c rest (code-IsRune c) short)
  | inr long ↦ rw long (decode_long c rest (code-IsRune c) long)
]

-- Encoded text is read back, in front of any units.
pub decode-encode : (s : String) (rest : List ℕ) → decode (encode s ++ rest) ≡ s <> decode rest
unfolding encode ◌<>◌
decode-encode String.[] rest = refl
decode-encode (String.◌∷◌ c s) rest =
    ap decode (append_assoc (units c) (encode s) rest)
    ∙ decode-units c (encode s ++ rest)
    ∙ ap (String.◌∷◌ c) (decode-encode s rest)

pub encode-append : (s t : String) → encode (s <> t) ≡ encode s ++ encode t
unfolding encode ◌<>◌
encode-append String.[] t = refl
encode-append (String.◌∷◌ c s) t =
    ap (λ u. units c ++ u) (encode-append s t) ∙ sym (append_assoc (units c) (encode s) (encode t))

-- Two encoded texts, one behind the other.
pub decode-append : (s t : String) → decode (encode s ++ encode t) ≡ s <> t
unfolding decode
decode-append s t =
    decode-encode s (encode t)
    ∙ ap (λ u. s <> u) (ap decode (sym (append_nil (encode t))) ∙ decode-encode t [] ∙ text_nil t)
