-- ===== src/Base/Maps.antt =====
-- Go's maps with string keys, as association lists that hold a key once. The order of the entries
-- stands for one order in which `range` may visit them.
use Prim.Native.String.{String}
use mathlib.Core.Path.{◌≡◌, refl}
use mathlib.Core.Option.{Option, none, some}
use mathlib.Core.List.{List, [], ◌∷◌}
use native.Mathlib.Omega.{arith}
use mathlib.Core.Bool.{false, Bool, ◌||◌}
use yaad_grove.Base.Lists.{keep}
use yaad_grove.Base.Tests.{if◌then◌else◌, same_text, same_text_iff}

abbrev pub Map {ℓ} : Type ℓ → Type ℓ
Map V = List (String × V)

module _ {ℓ} {V : Type ℓ} where
  -- v, ok := m[k]
  unfoldable pub lookup : String → Map V → Option V
  lookup k [] = none
  lookup k ((j, v) ∷ m) = if same_text j k then some v else lookup k m

  -- m[k] = v
  unfoldable pub insert : String → V → Map V → Map V
  insert k v [] = (k, v) ∷ []
  insert k v ((j, w) ∷ m) = if same_text j k then (k, v) ∷ m else (j, w) ∷ insert k v m

  -- delete(m, k)
  unfoldable pub delete : String → Map V → Map V
  delete k [] = []
  delete k ((j, w) ∷ m) = if same_text j k then delete k m else (j, w) ∷ delete k m

  pub lookup-insert :
      (k j : String) (v : V) (m : Map V)
      → lookup j (insert k v m) ≡ (if same_text k j then some v else lookup j m)
  unfolding lookup insert
  lookup-insert k j v [] = refl
  lookup-insert k j v ((i, w) ∷ m) =
      ground (arith, same_text_iff k j, same_text_iff i k, same_text_iff i j, lookup-insert k j v m)

  pub lookup-delete :
      (k j : String) (m : Map V)
      → lookup j (delete k m) ≡ (if same_text k j then none else lookup j m)
  unfolding lookup delete
  lookup-delete k j [] = ground arith
  lookup-delete k j ((i, w) ∷ m) =
      ground (arith, same_text_iff k j, same_text_iff i k, same_text_iff i j, lookup-delete k j m)

  -- Every key stands once.
  abbrev pub IsDistinct : Map V → Type ℓ
  IsDistinct [] = Unit
  IsDistinct ((k, v) ∷ m) = (lookup k m ≡ none) × IsDistinct m

  abbrev pub filtered : (V → Bool) → Option V → Option V
  filtered p none = none
  filtered p (some v) = if p v then some v else none

  abbrev pub keep_values : (V → Bool) → Map V → Map V
  keep_values p = keep (λ e. p e.1)

  pub insert-IsDistinct :
      (k : String) (v : V) (m : Map V) → IsDistinct m → IsDistinct (insert k v m)
  unfolding insert lookup
  insert-IsDistinct k v [] d = (refl, tt)
  insert-IsDistinct k v ((j, w) ∷ m) d = ground (
    arith,
    same_text_iff j k,
    same_text_iff k j,
    lookup-insert k j v m,
    insert-IsDistinct k v m d.1,
  )

  lookup-keep_none :
      (p : V → Bool) (k : String) (m : Map V)
      → lookup k m ≡ none
      → lookup k (keep_values p m) ≡ none
  unfolding lookup
  lookup-keep_none p k [] h = refl
  lookup-keep_none p k ((j, w) ∷ m) h = ground (arith, lookup-keep_none p k m)

  pub keep-IsDistinct : (p : V → Bool) (m : Map V) → IsDistinct m → IsDistinct (keep_values p m)
  keep-IsDistinct p [] d = tt
  keep-IsDistinct p ((k, v) ∷ m) d =
      ground (arith, lookup-keep_none p k m d.0, keep-IsDistinct p m d.1)

  pub lookup-keep_values :
      (p : V → Bool) (k : String) (m : Map V)
      → IsDistinct m
      → lookup k (keep_values p m) ≡ filtered p (lookup k m)
  unfolding lookup
  lookup-keep_values p k [] d = refl
  lookup-keep_values p k ((j, w) ∷ m) d =
      ground (arith, same_text_iff j k, lookup-keep_values p k m d.1, lookup-keep_none p j m d.0)

module _ {ℓ} {V : Type ℓ} where
  pub delete-IsDistinct : (k : String) (m : Map V) → IsDistinct m → IsDistinct (delete k m)
  unfolding delete
  delete-IsDistinct k [] d = tt
  delete-IsDistinct k ((j, w) ∷ m) d =
      ground (arith, lookup-delete k j m, delete-IsDistinct k m d.1)

pub ruleset map_laws = (lookup-insert, lookup-delete)

-- Whether a list holds a text.
abbrev pub one_of : List String → String → Bool
one_of [] t = false
one_of (s ∷ ss) t = same_text s t || one_of ss t
