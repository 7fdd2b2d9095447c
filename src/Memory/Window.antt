-- ===== src/Memory/Window.antt =====
-- internal/memory/select.go: how many turns a prompt gets, and that the latest are among them.
use yaad_grove.Base.{
  ℕ, suc, ◌+◌, ◌-◌, ◌≤◌, ◌<◌, ◌≡◌, refl, ap, Bool, true, false, not, ◌&&◌, ◌||◌, String, Option,
  none, some, List, [], ◌∷◌, ◌++◌, if◌then◌else◌, ltb, leb, length, drop, min, arith, Bool-cases,
  inl, inr,
}
use yaad_grove.Base.Int.{ℤ}
use yaad_grove.Memory.{Turn, Buffer, enabled, convo}
use yaad_grove.Memory.Select.{
  Unicode, recency_floor, terms, mid_conversation, member, floor_indices, ranked_from, by_score,
  fill, emit, choose, select_turns, select,
}

-- How many of the indices are `i` or more.
abbrev count_from : ℕ → List ℕ → ℕ
count_from i [] = 0
count_from i (j ∷ js) = let rest = count_from i js in if leb i j then rest + 1 else rest

count_from_suc : (i : ℕ) (js : List ℕ) → count_from (i + 1) js ≤ count_from i js
count_from_suc i [] = omega arith
count_from_suc i (j ∷ js) = ground (arith, count_from_suc i js)

count_from-member :
    (i : ℕ) (js : List ℕ) → member i js ≡ true → count_from (i + 1) js + 1 ≤ count_from i js
unfolding member
count_from-member i [] h = cc h
count_from-member i (j ∷ js) h = ground (arith, count_from_suc i js, count_from-member i js)

count_from-length : (i : ℕ) (js : List ℕ) → count_from i js ≤ length js
count_from-length i [] = omega arith
count_from-length i (j ∷ js) = ground (arith, count_from-length i js)

length-emit :
    (chosen : List ℕ) (i : ℕ) (ts : List Turn) → length (emit chosen i ts) ≤ count_from i chosen
unfolding emit
length-emit chosen i [] = omega arith
length-emit chosen i (t ∷ ts) =
    ground
      (arith, length-emit chosen (i + 1) ts, count_from_suc i chosen, count_from-member i chosen)

length-floor_indices :
    (n f i : ℕ) (ts : List Turn)
    → n ≡ i + length ts
    → (length (floor_indices n f i ts) ≤ f) × (length (floor_indices n f i ts) ≤ length ts)
unfolding floor_indices
length-floor_indices n f i [] e = (omega arith, omega arith)
length-floor_indices n f i (t ∷ ts) e =
    let ih = length-floor_indices n f (i + 1) ts (omega arith) in ground (arith, ih)

length-fill :
    (n : ℕ) (chosen : List ℕ) (rs : List (ℕ × ℕ))
    → length chosen ≤ n
    → length (fill n chosen rs) ≤ n
unfolding fill
length-fill n chosen [] h = h
length-fill n chosen ((i, s) ∷ rs) h = ground (arith, length-fill n (i ∷ chosen) rs)

length-choose :
    (u : Unicode) (query : String) (n : ℕ) (ts : List Turn) → length (choose u query n ts) ≤ n
unfolding choose
length-choose u query n ts =
    let few = length-floor_indices (length ts) (min recency_floor n) 0 ts (omega arith) in
    elim (Bool-cases (ltb (length (floor_indices (length ts) (min recency_floor n) 0 ts)) n)) [
      | inl room ↦ rw room (
          length-fill n (floor_indices (length ts) (min recency_floor n) 0 ts)
            (by_score (
              ranked_from u (terms u query) (floor_indices (length ts) (min recency_floor n) 0 ts) 0
                ts))
            (omega arith))
      | inr full ↦ rw full (omega arith)
    ]

member-floor_indices :
    (n f i k : ℕ) (ts : List Turn)
    → n ≡ i + length ts
    → i ≤ k
    → k < n
    → n ≤ k + f
    → member k (floor_indices n f i ts) ≡ true
unfolding member floor_indices
member-floor_indices n f i k [] e low high near = absurd (omega arith)
member-floor_indices n f i k (t ∷ ts) e low high near = elim (Bool-cases (ltb i k)) [
  | inl past ↦
      let ih = member-floor_indices n f (i + 1) k ts (omega arith) (ground arith) high near in
      ground (arith, ih)
  | inr here ↦ ground arith
]

member-fill :
    (n k : ℕ) (chosen : List ℕ) (rs : List (ℕ × ℕ))
    → member k chosen ≡ true
    → member k (fill n chosen rs) ≡ true
unfolding member fill
member-fill n k chosen [] h = h
member-fill n k chosen ((i, s) ∷ rs) h = ground (arith, member-fill n k (i ∷ chosen) rs)

-- Every index from `i` on is chosen.
emit_full :
    (chosen : List ℕ) (i : ℕ) (ts : List Turn)
    → ((k : ℕ) → i ≤ k → k < i + length ts → member k chosen ≡ true)
    → emit chosen i ts ≡ ts
unfolding emit
emit_full chosen i [] h = refl
emit_full chosen i (t ∷ ts) h =
    rw
      (
        h i (omega arith) (omega arith),
        emit_full chosen (i + 1) ts (λ k low high. h k (omega arith) (omega arith)),
      )
      refl

-- The latest `f` turns are chosen.
emit_latest :
    (chosen : List ℕ) (f i : ℕ) (ts : List Turn)
    → ((k : ℕ) → i ≤ k → k < i + length ts → i + length ts ≤ k + f → member k chosen ≡ true)
    → (before : List Turn) × (emit chosen i ts ≡ before ++ drop (length ts - f) ts)
unfolding emit
emit_latest chosen f i [] h = ([], let e : 0 - f ≡ 0 = omega arith in rw e refl)
emit_latest chosen f i (t ∷ ts) h = elim (Bool-cases (leb (length (t ∷ ts)) f)) [
  | inl few ↦ (
    [],
    let small : length (t ∷ ts) ≤ f = ground arith in
        let e : suc (length ts) - f ≡ 0 = omega arith in
        rw e (emit_full chosen i (t ∷ ts) (λ k low high. h k low high (omega arith))),
  )
  | inr many ↦
      let (before, e) =
        emit_latest chosen f (i + 1) ts
          (λ k low high near. h k (omega arith) (omega arith) (omega arith)) in
      let large : f ≤ length ts = ground arith in
      let m : suc (length ts) - f ≡ suc (length ts - f) = omega arith in
      elim (Bool-cases (member i chosen)) [
        | inl is_in ↦ (t ∷ before, rw (is_in, m) (ap (λ l. t ∷ l) e))
        | inr out ↦ (before, rw (out, m) e)
      ]
]

choose-latest :
    (u : Unicode) (query : String) (n k : ℕ) (ts : List Turn)
    → k < length ts
    → length ts ≤ k + min recency_floor n
    → member k (choose u query n ts) ≡ true
unfolding choose
choose-latest u query n k ts high near =
    let first = floor_indices (length ts) (min recency_floor n) 0 ts in
    let is_in =
      member-floor_indices (length ts) (min recency_floor n) 0 k ts (omega arith) (omega arith) high
        near in
    elim (Bool-cases (ltb (length first) n)) [
      | inl room ↦
          rw room
            (member-fill n k first (by_score (ranked_from u (terms u query) first 0 ts)) is_in)
      | inr full ↦ rw full is_in
    ]

-- A prompt gets at most `inject_n` turns, whatever the chat holds and whatever is asked.
pub length-select :
    (u : Unicode) (chat query sender : String) (is_reply : Bool) (inject_n : ℕ) (window : ℤ)
    (now : ℕ) (b : Option Buffer)
    → length (select u chat query sender is_reply inject_n window now b) ≤ inject_n
unfolding select select_turns
length-select u chat query sender is_reply inject_n window now none = omega arith
length-select u chat query sender is_reply inject_n window now (some b) =
    let l = convo chat b in
    let few = length-emit (choose u query inject_n l) 0 l in
    let fits = length-choose u query inject_n l in
    let all = count_from-length 0 (choose u query inject_n l) in
    elim (Bool-cases (not (enabled (some b)) || leb inject_n 0)) [
      | inl off ↦ rw off (omega arith)
      | inr on ↦ elim (Bool-cases (not is_reply && not (mid_conversation sender now window l))) [
        | inl alone ↦ rw (on, alone) (omega arith)
        | inr following ↦ rw (on, following) (omega arith)
      ]
    ]

-- What a reply gets ends with the latest turns of the chat, three of them or as many as are to be
-- injected or as there are, in order and unbroken; what is picked for its words comes before them. A
-- message that is no reply gets the same where its sender is mid-conversation, and nothing elsewhere.
pub select_latest :
    (u : Unicode) (chat query sender : String) (is_reply : Bool) (inject_n : ℕ) (window : ℤ)
    (now : ℕ) (b : Buffer)
    → enabled (some b) ≡ true
    → 0 < inject_n
    → (before : List Turn) × (select u chat query sender is_reply inject_n window now (some b) ≡ (
        if is_reply || mid_conversation sender now window (convo chat b)
        then before ++ drop (length (convo chat b) - min recency_floor inject_n) (convo chat b)
        else []))
unfolding select select_turns
select_latest u chat query sender is_reply inject_n window now b on some_turns =
    let l = convo chat b in
    let asked : leb inject_n 0 ≡ false = ground arith in
    elim (Bool-cases (is_reply || mid_conversation sender now window l)) [
      | inl follows ↦
          let gate : not is_reply && not (mid_conversation sender now window l) ≡ false =
            ground arith in
          let (before, e) =
            emit_latest (choose u query inject_n l) (min recency_floor inject_n) 0 l
              (λ k low high near. choose-latest u query inject_n k l (omega arith) (omega arith)) in
          (before, rw (on, asked, gate, follows) e)
      | inr alone ↦
          let gate : not is_reply && not (mid_conversation sender now window l) ≡ true =
            ground arith in
          ([], rw (on, asked, gate, alone) refl)
    ]
