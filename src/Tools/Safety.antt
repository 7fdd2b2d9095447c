-- ===== src/Tools/Safety.antt =====
-- `intArg` and `call` of internal/tools/enumerate.go: what they let through.
use native.Mathlib.Nat.{div-add-mod', mul-le-mul_right}
use yaad_grove.Base.{
  zero, suc, subst, Bool, true, false, not, ◌||◌, String, Option, none, some, ◌*◌, ◌<◌, ◌≤◌, ◌/◌,
  ◌^◌, ◌%◌, ◌==◌, ltb, if◌then◌else◌, Result, ok, err, same_text, Bool-cases, inl, inr, ◌⊎◌, ◌≡◌,
  refl, sym, ap, ◌∙◌, arith, ℕ,
}
use yaad_grove.Base.Int.{ℤ, pos, negsuc}
use yaad_grove.Base.Text.{trim_space}
use yaad_grove.Tools.{Float64, Json, Fields, Go, ToolError}
use yaad_grove.Tools.Arguments.{
  get, unit, not_positive_whole, int_arg, number_of, whole_number, parsed_number,
}

-- The conversion of a float64 to int, on the whole numbers in the range of int.
pub record IsExact (go : Go) : Type 0 where
  pub whole : (n : ℕ) → n < 2 ^ 63 → go.to_int (Float64.finite (pos (n * unit))) ≡ pos n

-- What an argument asks for: nothing, a number, or something that is none.
pub data Asked : Type 0 where
  nothing : Asked
  malformed : Asked
  number : Float64 → Asked

abbrev number_or_malformed : Option Float64 → Asked
number_or_malformed none = Asked.malformed
number_or_malformed (some f) = Asked.number f

unfoldable pub asked_for : Go → Option Json → Asked
asked_for go none = Asked.nothing
asked_for go (some Json.null) = Asked.nothing
asked_for go (some (Json.number n)) = Asked.number n
asked_for go (some (Json.text t)) =
    if same_text (trim_space t) ""
    then Asked.nothing
    else number_or_malformed (go.parse_float (trim_space t))
asked_for go (some (Json.boolean b)) = Asked.malformed
asked_for go (some (Json.array l)) = Asked.malformed
asked_for go (some (Json.object o)) = Asked.malformed

-- A number above the range of int.
abbrev pub Beyond : Float64 → Type 0
Beyond (Float64.finite (pos m)) = 2 ^ 63 * unit ≤ m
Beyond (Float64.finite (negsuc m)) = ⊥
Beyond (Float64.infinity positive) = positive ≡ true
Beyond Float64.nan = ⊥

whole_test : (u m : ℕ) → (not ((m % u) == 0) || ltb m u || ltb 0 0) ≡ false → (m % u ≡ 0) × (u ≤ m)
whole_test u m h = ground (arith, h)

quotient_of :
    (bound u m : ℕ)
    → 0 < u
    → m % u ≡ 0
    → u ≤ m
    → ((n : ℕ) × (1 ≤ n) × (n < bound) × (m ≡ n * u)) ⊎ (bound * u ≤ m)
quotient_of bound u m h k l = elim (Bool-cases (ltb (m / u) bound)) [
  | inl small ↦ inl (
    m / u,
    positive_factor (m / u) (subst (λ x. u ≤ x) (sym exact) l),
    ground (arith, small),
    sym exact,
  )
  | inr large ↦ inr (subst (λ x. bound * u ≤ x) exact (mul-le-mul_right u (ground (arith, large))))
]
  where
    exact : (m / u) * u ≡ m
    exact = omega (arith, div-add-mod' m u, k)

    positive_factor : (n : ℕ) → u ≤ n * u → 1 ≤ n
    positive_factor zero low = omega (arith, low, h)
    positive_factor (suc n) low = omega arith

-- A whole number from 1 is converted exactly, or is beyond the range.
abbrev pub Positive : Go → Float64 → ℤ → Type 0
Positive go f z =
    ((n : ℕ) × (1 ≤ n) × (n < 2 ^ 63) × (f ≡ Float64.finite (pos (n * unit))) × (z ≡ pos n))
    ⊎ (Beyond f × (z ≡ go.to_int f))

unit_positive : 0 < unit
unit_positive = omega arith

negative_refused : (m : ℕ) → not_positive_whole (Float64.finite (negsuc m)) ≡ false → ⊥
unfolding not_positive_whole
negative_refused m h = ground (arith, h)

passed :
    {E : Type 0} (b : Bool) (e : E) (x z : ℤ)
    → ◌≡◌ {A = Result E ℤ} (if b then err e else ok x) (ok z)
    → (b ≡ false) × (x ≡ z)
passed b e x z h = ground (arith, h)

converted :
    (go : Go) (m : ℕ)
    → IsExact go
    → ((n : ℕ) × (1 ≤ n) × (n < 2 ^ 63) × (m ≡ n * unit)) ⊎ (2 ^ 63 * unit ≤ m)
    → Positive go (Float64.finite (pos m)) (go.to_int (Float64.finite (pos m)))
converted go m exact (inl (n, low, high, e)) = inl (
  n,
  low,
  high,
  ap (λ k. Float64.finite (pos k)) e,
  ap (λ k. go.to_int (Float64.finite (pos k))) e ∙ exact.whole n high,
)
converted go m exact (inr large) = inr (large, refl)

accepted_number :
    {E : Type 0} (go : Go) (key : String) (f : Float64) (z : ℤ)
    → IsExact go
    → ◌≡◌ {A = Result (ToolError E) ℤ} (whole_number go key f) (ok z)
    → Positive go f z
unfolding not_positive_whole
accepted_number go key (Float64.finite (pos m)) z exact h =
    let seen =
      passed (not_positive_whole (Float64.finite (pos m))) (ToolError.bad_number key)
        (go.to_int (Float64.finite (pos m))) z h in
    let tested = whole_test unit m seen.0 in
    subst (λ x. Positive go (Float64.finite (pos m)) x) seen.1
      (converted go m exact (quotient_of (2 ^ 63) unit m unit_positive tested.0 tested.1))
accepted_number go key (Float64.finite (negsuc m)) z exact h =
    let seen =
      passed (not_positive_whole (Float64.finite (negsuc m))) (ToolError.bad_number key)
        (go.to_int (Float64.finite (negsuc m))) z h in
    absurd (negative_refused m seen.0)
accepted_number go key (Float64.infinity true) z exact h =
    inr (
      refl,
      sym (passed false (ToolError.bad_number key) (go.to_int (Float64.infinity true)) z h).1,
    )
accepted_number go key (Float64.infinity false) z exact h = cc h
accepted_number go key Float64.nan z exact h = cc h

parsed_accepted :
    {E : Type 0} (go : Go) (key : String) (o : Option Float64) (z : ℤ)
    → IsExact go
    → ◌≡◌ {A = Result (ToolError E) ℤ} (parsed_number go key o) (ok z)
    → (f : Float64) × (number_or_malformed o ≡ Asked.number f) × Positive go f z
parsed_accepted go key none z exact h = cc h
parsed_accepted go key (some f) z exact h = (f, refl, accepted_number go key f z exact h)

text_accepted :
    (E : Type 0) (go : Go) (key t : String) (z : ℤ)
    → IsExact go
    → ◌≡◌ {A = Result (ToolError E) ℤ} (number_of go key (some (Json.text t))) (ok z)
    → ((asked_for go (some (Json.text t)) ≡ Asked.nothing) × (z ≡ pos 0))
      ⊎ ((f : Float64) × (asked_for go (some (Json.text t)) ≡ Asked.number f) × Positive go f z)
unfolding asked_for
text_accepted E go key t z exact h = elim (Bool-cases (same_text (trim_space t) "")) [
  | inl blank ↦ inl (ground (arith, blank), ground (arith, blank, h))
  | inr full ↦
      rw full (
        inr (parsed_accepted {E = E} go key (go.parse_float (trim_space t)) z exact (cc (full, h))))
]

number_of-accepted :
    {E : Type 0} (go : Go) (key : String) (v : Option Json) (z : ℤ)
    → IsExact go
    → ◌≡◌ {A = Result (ToolError E) ℤ} (number_of go key v) (ok z)
    → ((asked_for go v ≡ Asked.nothing) × (z ≡ pos 0))
      ⊎ ((f : Float64) × (asked_for go v ≡ Asked.number f) × Positive go f z)
unfolding asked_for
number_of-accepted go key none z exact h = inl (refl, cc h)
number_of-accepted go key (some Json.null) z exact h = inl (refl, cc h)
number_of-accepted go key (some (Json.number n)) z exact h =
    inr (n, refl, accepted_number go key n z exact h)
number_of-accepted {E} go key (some (Json.text t)) z exact h = text_accepted E go key t z exact h
number_of-accepted go key (some (Json.boolean b)) z exact h = cc h
number_of-accepted go key (some (Json.array l)) z exact h = cc h
number_of-accepted go key (some (Json.object o)) z exact h = cc h

-- A limit is nothing asked, which reads 0, or a whole number from 1: exactly the one asked when it is
-- below 2 to the power 63, but whatever the machine makes of it when it is larger or infinite.
pub int_arg-accepted :
    {E : Type 0} (go : Go) (args : Fields) (key : String) (z : ℤ)
    → IsExact go
    → ◌≡◌ {A = Result (ToolError E) ℤ} (int_arg go args key) (ok z)
    → ((asked_for go (get key args) ≡ Asked.nothing) × (z ≡ pos 0))
      ⊎ ((f : Float64) × (asked_for go (get key args) ≡ Asked.number f) × Positive go f z)
unfolding int_arg
int_arg-accepted go args key z exact h = number_of-accepted go key (get key args) z exact h
