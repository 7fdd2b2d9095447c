-- ===== src/Base/Sort.antt =====
-- Go's sort.SliceStable by a test `le`, "may stand before", and the order of strings.
use Prim.Native.Char.{code}
use Prim.Native.String.{String}
use mathlib.Core.Path.{◌≡◌, refl}
use mathlib.Core.Bool.{Bool, true, false, not, ◌&&◌, ◌||◌}
use mathlib.Core.Logic.{inl, inr}
use mathlib.Core.List.{List, [], ◌∷◌, ◌++◌, Perm}
use mathlib.Core.List.Perm
use native.Mathlib.Omega.{arith}
use yaad_grove.Base.Tests.{if◌then◌else◌, ltb, Bool-cases}
use yaad_grove.Base.Lists.{All, All-append}

pub record IsOrder {ℓ} {A : Type ℓ} (le : A → A → Bool) : Type ℓ where
  pub total : (a b : A) → le a b ≡ false → le b a ≡ true
  pub trans : (a b c : A) → le a b ≡ true → le b c ≡ true → le a c ≡ true

-- Each stands in the relation to all that follow.
abbrev pub Pairs {ℓ} : {A : Type ℓ} → (A → A → Bool) → List A → Type 0
Pairs R [] = Unit
Pairs R (x ∷ xs) = All (λ y. R x y ≡ true) xs × Pairs R xs

module _ {ℓ} {A : Type ℓ} (le : A → A → Bool) where
  unfoldable pub place : A → List A → List A
  place x [] = x ∷ []
  place x (y ∷ ys) = let later = y ∷ place x ys in if le x y then x ∷ y ∷ ys else later

  unfoldable pub sort_by : List A → List A
  unfolding place
  sort_by [] = []
  sort_by (x ∷ xs) = place x (sort_by xs)

  -- Each may stand before all that follow.
  abbrev pub IsSorted : List A → Type 0
  IsSorted [] = Unit
  IsSorted (x ∷ xs) = All (λ y. le x y ≡ true) xs × IsSorted xs

  pub IsSorted-append :
      (xs ys : List A)
      → IsSorted xs
      → IsSorted ys
      → All (λ x. All (λ y. le x y ≡ true) ys) xs
      → IsSorted (xs ++ ys)
  IsSorted-append [] ys s t h = t
  IsSorted-append (x ∷ xs) ys s t h =
      (All-append (λ y. le x y ≡ true) xs ys s.0 h.0, IsSorted-append xs ys s.1 t h.1)

  pub place-perm : (x : A) (l : List A) → Perm (place x l) (x ∷ l)
  unfolding place
  place-perm x [] = Perm.rfl
  place-perm x (y ∷ ys) = elim (Bool-cases (le x y)) [
    | inl first ↦ rw first Perm.rfl
    | inr later ↦ rw later (Perm.trans (Perm.cons y (place-perm x ys)) (Perm.swap x y ys))
  ]

  pub perm_middle : (x : A) (xs ys : List A) → Perm (xs ++ (x ∷ ys)) (x ∷ (xs ++ ys))
  perm_middle x [] ys = Perm.rfl
  perm_middle x (y ∷ xs) ys =
      Perm.trans (Perm.cons y (perm_middle x xs ys)) (Perm.swap x y (xs ++ ys))

  pub sort_by-perm : (l : List A) → Perm (sort_by l) l
  unfolding sort_by
  sort_by-perm [] = Perm.rfl
  sort_by-perm (x ∷ xs) = Perm.trans (place-perm x (sort_by xs)) (Perm.cons x (sort_by-perm xs))

  All-place : (P : A → Type 0) (x : A) (l : List A) → P x → All P l → All P (place x l)
  unfolding place
  All-place P x [] px h = (px, tt)
  All-place P x (y ∷ ys) px h = elim (Bool-cases (le x y)) [
    | inl first ↦ rw first (px, h)
    | inr later ↦ rw later (h.0, All-place P x ys px h.1)
  ]

  place-Pairs :
      (R : A → A → Bool)
      → ((a b : A) → R a b ≡ true → R b a ≡ true)
      → (x : A) (l : List A) → All (λ y. R x y ≡ true) l
      → Pairs R l
      → Pairs R (place x l)
  unfolding place
  place-Pairs R flip x [] h s = (tt, tt)
  place-Pairs R flip x (y ∷ ys) h s = elim (Bool-cases (le x y)) [
    | inl first ↦ rw first (h, s)
    | inr later ↦
        rw later
          (All-place (λ z. R y z ≡ true) x ys (flip x y h.0) s.0, place-Pairs R flip x ys h.1 s.1)
  ]

  pub All-sort_by : (P : A → Type 0) (l : List A) → All P l → All P (sort_by l)
  unfolding sort_by
  All-sort_by P [] h = h
  All-sort_by P (x ∷ xs) h = All-place P x (sort_by xs) h.0 (All-sort_by P xs h.1)

  -- A symmetric relation between all pairs stays between all pairs.
  pub sort_by-Pairs :
      (R : A → A → Bool)
      → ((a b : A) → R a b ≡ true → R b a ≡ true)
      → (l : List A) → Pairs R l
      → Pairs R (sort_by l)
  unfolding sort_by
  sort_by-Pairs R flip [] s = tt
  sort_by-Pairs R flip (x ∷ xs) s =
      place-Pairs R flip x (sort_by xs) (All-sort_by (λ y. R x y ≡ true) xs s.0)
        (sort_by-Pairs R flip xs s.1)

  module _ (laws : IsOrder le) where
    below :
        (x y : A) (l : List A)
        → le x y ≡ true
        → All (λ z. le y z ≡ true) l
        → All (λ z. le x z ≡ true) l
    below x y [] h a = tt
    below x y (z ∷ l) h a = (laws.trans x y z h a.0, below x y l h a.1)

    place-IsSorted : (x : A) (l : List A) → IsSorted l → IsSorted (place x l)
    unfolding place
    place-IsSorted x [] s = (tt, tt)
    place-IsSorted x (y ∷ ys) s = elim (Bool-cases (le x y)) [
      | inl first ↦ rw first ((first, below x y ys first s.0), s)
      | inr later ↦
          rw later (
            All-place (λ z. le y z ≡ true) x ys (laws.total x y later) s.0,
            place-IsSorted x ys s.1,
          )
    ]

    pub sort_by-IsSorted : (l : List A) → IsSorted (sort_by l)
    unfolding sort_by
    sort_by-IsSorted [] = tt
    sort_by-IsSorted (x ∷ xs) = place-IsSorted x (sort_by xs) (sort_by-IsSorted xs)

-- s <= t on strings: by their bytes, whose order in UTF-8 is that of the characters' numbers.
unfoldable pub text_le : String → String → Bool
text_le String.[] t = true
text_le (String.◌∷◌ c s) String.[] = false
text_le (String.◌∷◌ c s) (String.◌∷◌ d t) =
    ltb (code c) (code d) || (not (ltb (code d) (code c)) && text_le s t)

pub text_le_total : (s t : String) → text_le s t ≡ false → text_le t s ≡ true
unfolding text_le
text_le_total String.[] t h = cc h
text_le_total (String.◌∷◌ c s) String.[] h = refl
text_le_total (String.◌∷◌ c s) (String.◌∷◌ d t) h = ground (arith, text_le_total s t)

pub text_le_trans : (s t u : String) → text_le s t ≡ true → text_le t u ≡ true → text_le s u ≡ true
unfolding text_le
text_le_trans String.[] t u h k = refl
text_le_trans (String.◌∷◌ c s) String.[] u h k = cc h
text_le_trans (String.◌∷◌ c s) (String.◌∷◌ d t) String.[] h k = cc k
text_le_trans (String.◌∷◌ c s) (String.◌∷◌ d t) (String.◌∷◌ e u) h k =
    ground (arith, text_le_trans s t u)
