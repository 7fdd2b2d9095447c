-- ===== src/Engine/Refusal.antt =====
-- `parseRefusal` of internal/core/engine.go.
use Prim.Native.Char.{Char, code}
use yaad_grove.Base.{
  ℕ, zero, suc, ◌-◌, ◌≡◌, refl, Bool, true, false, ◌||◌, String, Option, none, some, if◌then◌else◌,
  ◌==◌, same_text, arith,
}
use yaad_grove.Base.Text.{trim_space, ◌<>◌}

abbrev pub refusal_token : String
refusal_token = "%%OUT_OF_SCOPE%%"

abbrev pub out_of_scope_reply : String
out_of_scope_reply = "That's outside what I can answer from my curated sources."

-- strings.CutPrefix(text, prefix)
unfoldable pub strip_prefix : String → String → Option String
strip_prefix String.[] text = some text
strip_prefix (String.◌∷◌ p prefix) String.[] = none
strip_prefix (String.◌∷◌ p prefix) (String.◌∷◌ c text) =
    let rest = strip_prefix prefix text in if code p == code c then rest else none

abbrev is_some {ℓ} : {A : Type ℓ} → Option A → Bool
is_some none = false
is_some (some a) = true

-- strings.Contains(text, part), for a part that is not empty.
unfoldable pub contains : String → String → Bool
unfolding strip_prefix
contains part String.[] = false
contains part (String.◌∷◌ c text) =
    is_some (strip_prefix part (String.◌∷◌ c text)) || contains part text

abbrev pub size : String → ℕ
size String.[] = 0
size (String.◌∷◌ c s) = suc (size s)

-- strings.ReplaceAll(text, part, ""), with the number of characters left of the occurrence at hand.
remove_from : String → ℕ → String → String
unfolding strip_prefix
remove_from part skip String.[] = ""
remove_from part (suc skip) (String.◌∷◌ c text) = remove_from part skip text
remove_from part zero (String.◌∷◌ c text) =
    let gone = remove_from part (size part - 1) text in
    let kept = remove_from part 0 text in
    if is_some (strip_prefix part (String.◌∷◌ c text)) then gone else String.◌∷◌ c kept

unfoldable pub remove_all : String → String → String
unfolding remove_from
remove_all part text = remove_from part 0 text

-- The cutset " \t\r\n".
unfoldable pub is_blank : Char → Bool
is_blank c = code c == 32 || code c == 9 || code c == 13 || code c == 10

unfoldable pub trim_lead : String → String
unfolding is_blank
trim_lead String.[] = String.[]
trim_lead (String.◌∷◌ c s) = let rest = trim_lead s in if is_blank c then rest else String.◌∷◌ c s

unfoldable pub note_or_default : String → String
note_or_default note = if same_text note "" then out_of_scope_reply else note

read_lead : String → Option String → String × Bool
unfolding contains remove_all trim_space note_or_default
read_lead text (some note) = (note_or_default (trim_space note), true)
read_lead text none =
    if contains refusal_token text
    then (trim_space (remove_all refusal_token text), false)
    else (text, false)

-- `parseRefusal`
unfoldable pub parse_refusal : String → String × Bool
unfolding read_lead trim_lead strip_prefix
parse_refusal text = read_lead text (strip_prefix refusal_token (trim_lead text))

-- Every character is a blank of the cutset.
abbrev pub AllBlank : String → Type 0
AllBlank String.[] = Unit
AllBlank (String.◌∷◌ c s) = (is_blank c ≡ true) × AllBlank s

strip_prefix-<> : (p s : String) → strip_prefix p (p <> s) ≡ some s
unfolding strip_prefix ◌<>◌
strip_prefix-<> String.[] s = refl
strip_prefix-<> (String.◌∷◌ c p) s = ground (arith, strip_prefix-<> p s)

trim_lead-<> : (b s : String) → AllBlank b → trim_lead (b <> s) ≡ trim_lead s
unfolding trim_lead ◌<>◌
trim_lead-<> String.[] s h = refl
trim_lead-<> (String.◌∷◌ c b) s h = rw h.0 (trim_lead-<> b s h.1)

trim_lead-token : (s : String) → trim_lead (refusal_token <> s) ≡ refusal_token <> s
unfolding trim_lead ◌<>◌
trim_lead-token s = refl

-- A reply that leads with the marker, behind any blanks, is a refusal, and what follows the marker is
-- shown with its outer white space removed, or a fixed line where nothing follows. It is shown as it
-- is: a second marker in it is shown too.
pub parse_refusal-note :
    (blanks note : String)
    → AllBlank blanks
    → parse_refusal (blanks <> (refusal_token <> note)) ≡ (note_or_default (trim_space note), true)
unfolding parse_refusal
parse_refusal-note blanks note h =
    rw
      (
        trim_lead-<> blanks (refusal_token <> note) h,
        trim_lead-token note,
        strip_prefix-<> refusal_token note,
      )
      refl
