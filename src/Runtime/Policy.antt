-- ===== src/Runtime/Policy.antt =====
-- internal/runtime/policy.go and strings.go: settings, the admin allowlist, the nudge, the catalog.
use yaad_grove.Base.{
  ℕ, Bool, false, ◌||◌, String, Option, none, some, List, [], ◌∷◌, Map, lookup, if◌then◌else◌,
  same_text,
}
use yaad_grove.Base.Text.{trim_space}
use yaad_grove.Base.Int.{ℤ}

pub record Nudge : Type 0 where
  pub mode : String
  pub text : String
  pub emoji : String

abbrev pub nudge_message : String
nudge_message = "message"

abbrev pub nudge_reaction : String
nudge_reaction = "reaction"

abbrev pub default_nudge_emoji : String
default_nudge_emoji = "🤝"

abbrev pub or_default : String → String → String
or_default s d = if same_text s "" then d else s

unfoldable pub resolve : Nudge → Nudge
resolve n = record n {
  mode = or_default n.mode nudge_message;
  emoji = or_default n.emoji default_nudge_emoji;
}

-- The keys of an `AdminSet`.
unfoldable pub is_admin : List String → String → Bool
is_admin [] id = false
is_admin (a ∷ rest) id = same_text a id || is_admin rest id

pub new_admin_set : List String → List String
new_admin_set [] = []
new_admin_set (id ∷ rest) =
    let others = new_admin_set rest in
    if same_text (trim_space id) "" then others else trim_space id ∷ others

-- `base` is the embedded English pack, which a build embeds.
pub record Catalog : Type 0 where
  pub strings : Map String
  pub base : Map String

abbrev or_blank : Option String → String
or_blank none = ""
or_blank (some s) = s

-- `Strings.Get`
pub get : Catalog → String → String
get c key =
    let own = or_blank (lookup key c.strings) in
    if same_text own "" then or_blank (lookup key c.base) else own

-- The settings of `Policy`. The memory buffer, the transcript and the eraser are among the services.
pub record Policy : Type 0 where
  pub admins : List String
  pub nudge : Nudge
  pub inject : ℕ
  pub followup_window : ℤ
  pub strings : Catalog
  pub memory_derive : Bool
  pub consent_ack : String
