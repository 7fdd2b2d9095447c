-- ===== src/Memory/Select.antt =====
-- internal/memory/select.go: which turns of a conversation enter a prompt. The tables of Go's package
-- unicode are the parameter `Unicode`.
use Prim.Native.Char.{Char}
use Prim.Native.String.{len}
use yaad_grove.Base.{
  ℕ, ◌+◌, Bool, false, not, ◌&&◌, ◌||◌, String, Option, none, some, List, [], ◌∷◌, if◌then◌else◌,
  ltb, leb, ◌==◌, same_text, length, min, All, Bool-cases, inl, inr,
}
use yaad_grove.Base.Int.{ℤ, pos_part, neg_part}
use yaad_grove.Memory.{Turn, Buffer, enabled, convo}

pub record Unicode : Type 0 where
  pub to_lower : Char → Char
  pub is_letter : Char → Bool
  pub is_digit : Char → Bool

abbrev pub recency_floor : ℕ
recency_floor = 3

module _ (u : Unicode) where
  lower : String → String
  lower String.[] = String.[]
  lower (String.◌∷◌ c s) = String.◌∷◌ (u.to_lower c) (lower s)

  not_word : Char → Bool
  not_word c = not (u.is_letter c) && not (u.is_digit c)

  -- Ends the word begun, if there is one.
  abbrev flush : String → List String → List String
  flush word rest = if same_text word "" then rest else word ∷ rest

  snoc : String → Char → String
  snoc String.[] c = String.◌∷◌ c String.[]
  snoc (String.◌∷◌ d s) c = String.◌∷◌ d (snoc s c)

  -- strings.FieldsFunc(s, notWord), with the word begun so far.
  fields : String → String → List String
  unfolding not_word snoc
  fields word String.[] = flush word []
  fields word (String.◌∷◌ c s) =
      let broken = flush word (fields "" s) in
      let longer = fields (snoc word c) s in if not_word c then broken else longer

  contains : String → List String → Bool
  contains w [] = false
  contains w (x ∷ xs) = same_text x w || contains w xs

  -- The keys of the map that `terms` fills, each once. `len` counts bytes.
  distinct_long : List String → List String
  unfolding contains
  distinct_long [] = []
  distinct_long (w ∷ ws) =
      let rest = distinct_long ws in if ltb 2 (len w) && not (contains w ws) then w ∷ rest else rest

  unfoldable pub terms : String → List String
  unfolding distinct_long fields lower
  terms q = distinct_long (fields "" (lower q))

  count_in : List String → List String → ℕ
  unfolding contains
  count_in words [] = 0
  count_in words (t ∷ ts) =
      let rest = count_in words ts in if contains t words then rest + 1 else rest

  unfoldable pub score : String → List String → ℕ
  unfolding count_in fields lower
  score text qterms = count_in (fields "" (lower text)) qterms

-- Is the sender mid-conversation: a turn of theirs, not the bot's, later than `now` less the window?
unfoldable pub mid_conversation : String → ℕ → ℤ → List Turn → Bool
mid_conversation sender now window [] = false
mid_conversation sender now window (t ∷ ts) =
    (not t.bot
      && same_text t.speaker_id sender
      && ltb (now + neg_part window) (t.time + pos_part window))
    || mid_conversation sender now window ts

unfoldable pub member : ℕ → List ℕ → Bool
member i [] = false
member i (j ∷ js) = i == j || member i js

-- The indices `i`, `i + 1`, … of the last `floor` of `n` turns.
unfoldable pub floor_indices : ℕ → ℕ → ℕ → List Turn → List ℕ
floor_indices n floor i [] = []
floor_indices n floor i (t ∷ ts) =
    let rest = floor_indices n floor (i + 1) ts in if leb n (i + floor) then i ∷ rest else rest

-- The scored turns that are not chosen yet, with their indices.
pub ranked_from : Unicode → List String → List ℕ → ℕ → List Turn → List (ℕ × ℕ)
unfolding member
ranked_from u qterms chosen i [] = []
ranked_from u qterms chosen i (t ∷ ts) =
    let rest = ranked_from u qterms chosen (i + 1) ts in
    let s = score u t.text qterms in
    if not (member i chosen) && ltb 0 s then (i, s) ∷ rest else rest

-- sort.SliceStable by falling score.
place : ℕ × ℕ → List (ℕ × ℕ) → List (ℕ × ℕ)
place (i, s) [] = (i, s) ∷ []
place (i, s) ((j, t) ∷ rest) =
    if leb t s then (i, s) ∷ (j, t) ∷ rest else (j, t) ∷ place (i, s) rest

pub by_score : List (ℕ × ℕ) → List (ℕ × ℕ)
unfolding place
by_score [] = []
by_score (r ∷ rest) = place r (by_score rest)

unfoldable pub fill : ℕ → List ℕ → List (ℕ × ℕ) → List ℕ
fill n chosen [] = chosen
fill n chosen ((i, s) ∷ rest) =
    let more = fill n (i ∷ chosen) rest in if leb n (length chosen) then chosen else more

-- The chosen turns in the buffer's order.
unfoldable pub emit : List ℕ → ℕ → List Turn → List Turn
unfolding member
emit chosen i [] = []
emit chosen i (t ∷ ts) =
    let rest = emit chosen (i + 1) ts in if member i chosen then t ∷ rest else rest

unfoldable pub choose : Unicode → String → ℕ → List Turn → List ℕ
unfolding floor_indices ranked_from by_score fill
choose u query inject_n turns =
    let chosen = floor_indices (length turns) (min recency_floor inject_n) 0 turns in
    if ltb (length chosen) inject_n
    then fill inject_n chosen (by_score (ranked_from u (terms u query) chosen 0 turns))
    else chosen

unfoldable pub select_turns : Unicode → String → String → Bool → ℕ → ℤ → ℕ → List Turn → List Turn
unfolding choose emit mid_conversation
select_turns u query sender is_reply inject_n window now turns =
    if not is_reply && not (mid_conversation sender now window turns)
    then []
    else emit (choose u query inject_n turns) 0 turns

-- `Select` at the time `now`. An `inject_n` of 0 stands for every one that is not positive; no
-- conversation and a conversation without turns both give nothing.
unfoldable pub select :
    Unicode → String → String → String → Bool → ℕ → ℤ → ℕ → Option Buffer → List Turn
unfolding select_turns
select u chat query sender is_reply inject_n window now none = []
select u chat query sender is_reply inject_n window now (some b) =
    if not (enabled (some b)) || leb inject_n 0
    then []
    else select_turns u query sender is_reply inject_n window now (convo chat b)

emit-All :
    (P : Turn → Type 0) (chosen : List ℕ) (i : ℕ) (l : List Turn)
    → All P l
    → All P (emit chosen i l)
unfolding emit
emit-All P chosen i [] h = h
emit-All P chosen i (t ∷ ts) h = elim (Bool-cases (member i chosen)) [
  | inl is_in ↦ rw is_in (h.0, emit-All P chosen (i + 1) ts h.1)
  | inr out ↦ rw out (emit-All P chosen (i + 1) ts h.1)
]

-- What is selected for a prompt has whatever every turn of the conversation has; in particular it is
-- none of a speaker's whom the conversation does not hold.
pub select-All :
    (P : Turn → Type 0) (u : Unicode) (chat query sender : String) (is_reply : Bool) (inject_n : ℕ)
    (window : ℤ) (now : ℕ) (b : Buffer)
    → All P (convo chat b)
    → All P (select u chat query sender is_reply inject_n window now (some b))
unfolding select
select-All P u chat query sender is_reply inject_n window now b h =
    elim (Bool-cases (not (enabled (some b)) || leb inject_n 0)) [
      | inl off ↦ rw off tt
      | inr on ↦
          elim (Bool-cases
            (not is_reply && not (mid_conversation sender now window (convo chat b)))) [
              | inl alone ↦ rw (on, alone) tt
              | inr following ↦
                  rw (on, following)
                    (emit-All P (choose u query inject_n (convo chat b)) 0 (convo chat b) h)
            ]
    ]
