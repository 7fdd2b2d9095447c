-- ===== src/Store/Normalize.antt =====
-- `normalizeKey` of internal/store/normalize.go. NFKC and the tables of package unicode are parameters.
use Prim.Native.Char.{Char, code}
use yaad_grove.Base.{ℕ, ◌-◌, Bool, true, false, ◌&&◌, ◌||◌, String, if◌then◌else◌, leb, ◌==◌}
use yaad_grove.Base.Text.{is_space, trim_space}

pub record Script : Type 0 where
  pub nfkc : String → String
  pub to_lower : Char → Char
  pub is_punct : Char → Bool
  pub is_symbol : Char → Bool

-- The Arabic letters that have a Persian form.
persian_fold : Char → Char
persian_fold c =
    let k = code c in
    if k == 0x64a || k == 0x649
    then Char.char 0x6cc tt
    else if k == 0x643
    then Char.char 0x6a9 tt
    else if k == 0x629 || k == 0x6c0 || k == 0x6c1
    then Char.char 0x647 tt
    else c

removed : Char → Bool
removed c =
    let k = code c in
    k == 0x200c || k == 0x200d || (leb 0x64b k && leb k 0x652) || k == 0x670 || k == 0x640

digit : ℕ → Char
digit n =
    if n == 0
    then "0"
    else if n == 1
    then "1"
    else if n == 2
    then "2"
    else if n == 3
    then "3"
    else if n == 4
    then "4"
    else if n == 5
    then "5"
    else if n == 6
    then "6"
    else if n == 7
    then "7"
    else if n == 8
    then "8"
    else "9"

fold_digit : Char → Char
unfolding digit
fold_digit c =
    let k = code c in
    if leb 0x660 k && leb k 0x669
    then digit (k - 0x660)
    else if leb 0x6f0 k && leb k 0x6f9
    then digit (k - 0x6f0)
    else c

module _ (script : Script) where
  -- The loop of `normalizeKey`.
  fold_letters : String → String
  unfolding removed persian_fold fold_digit
  fold_letters String.[] = ""
  fold_letters (String.◌∷◌ c s) =
      let rest = fold_letters s in
      if removed c then rest else String.◌∷◌ (script.to_lower (fold_digit (persian_fold c))) rest

  unfoldable pub separator : Char → Bool
  separator c = is_space c || code c == 45 || script.is_punct c || script.is_symbol c

  -- `started` says that something is written, `in_sep` that a separator came since.
  unfoldable pub collapse_from : Bool → Bool → String → String
  collapse_from started in_sep String.[] = ""
  collapse_from started in_sep (String.◌∷◌ c s) =
      let skipped = collapse_from started true s in
      let rest = collapse_from true false s in
      if separator c
      then skipped
      else if in_sep && started
      then String.◌∷◌ " " (String.◌∷◌ c rest)
      else String.◌∷◌ c rest

  unfoldable pub collapse_separators : String → String
  unfolding collapse_from
  collapse_separators s = collapse_from false false s

  unfoldable pub normalize_key : String → String
  unfolding fold_letters collapse_separators
  normalize_key s = collapse_separators (trim_space (fold_letters (script.nfkc s)))
