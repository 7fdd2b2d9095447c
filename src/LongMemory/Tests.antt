-- ===== src/LongMemory/Tests.antt =====
-- An erasure over a list of what is held, with a turn under way.
use yaad_grove.Base.{
  ℕ, ◌≡◌, refl, Bool, false, ◌&&◌, ◌||◌, String, none, List, [], ◌∷◌, lookup, arith, same_text,
  same_text_ne, All, inl, inr, ap, ◌≢◌, if◌then◌else◌,
}
use yaad_grove.Runtime.Services.{erased}
use yaad_grove.LongMemory.{Backend, LongMemory, KeptTurn, withdrawals, erase}
use yaad_grove.LongMemory.Erasure.{IsBackend, UnderWay, ended, erased_for_good}

-- Who is held where.
abbrev Held : Type 0
Held = List (String × String)

without : String → String → Held → Held
without ns user [] = []
without ns user ((n, u) ∷ l) =
    let rest = without ns user l in
    if same_text n ns && same_text u user then rest else (n, u) ∷ rest

holds : String → String → Held → Bool
holds ns user [] = false
holds ns user ((n, u) ∷ l) = (same_text n ns && same_text u user) || holds ns user l

abbrev backend : Backend ℕ Held
backend = record {
  append = λ ns subject session kind text d. (none, (ns, subject) ∷ d);
  delete_subject = λ ns user d. (none, without ns user d);
}

without_gone : (ns user : String) (d : Held) → holds ns user (without ns user d) ≡ false
unfolding holds without
without_gone ns user [] = refl
without_gone ns user ((n, u) ∷ d) = ground (arith, without_gone ns user d)

without_clean :
    (ns user j other : String) (d : Held)
    → holds j other d ≡ false
    → holds j other (without ns user d) ≡ false
unfolding holds without
without_clean ns user j other [] h = refl
without_clean ns user j other ((n, u) ∷ d) h = ground (arith, without_clean ns user j other d)

append_clean :
    (store user j other : String) (d : Held)
    → user ≢ other
    → holds j other d ≡ false
    → holds j other ((store, user) ∷ d) ≡ false
unfolding holds
append_clean store user j other d apart h =
    let ne = same_text_ne user other apart in ground (arith, ne, h)

backend-IsBackend : IsBackend backend holds
backend-IsBackend = record {
  deleted = λ ns user d h. without_gone ns user d;
  delete_keeps = λ ns user j other d h. without_clean ns user j other d h;
  append_others = λ store subject session kind text d j other apart h.
      append_clean store subject j other d apart h;
}

abbrev start : LongMemory
start = record { store = "main"; groups = []; window = 3600; withdrawn = ("ann", 2) ∷ [] }

abbrev turn : KeptTurn
turn = record { store = "main"; subject = "ann"; session = "room/ann/0"; withdrawn = 2 }

abbrev held : Held
held = ("main", "ann") ∷ ("old", "bob") ∷ ("old", "ann") ∷ []

-- Bob's turn ends too, in the namespace that is erased first.
abbrev bobs : KeptTurn
bobs = record { store = "main"; subject = "bob"; session = "room/bob/0"; withdrawn = 0 }

abbrev endings : List (KeptTurn × String × String)
endings = (turn, "hi", "hello") ∷ (bobs, "hey", "hello") ∷ []

abbrev ann : String
ann = "ann"

not-ann : bobs.subject ≢ ann
not-ann e = cc (ap (λ s. same_text s ann) e)

endings-UnderWay : All (λ e. UnderWay "ann" start e.0) endings
unfolding withdrawals lookup
endings-UnderWay = (inl (refl, refl), (inr not-ann, tt))

erased_for_good_example :
    let (results, m', d') =
      erase backend
        (λ m n. ended backend holds backend-IsBackend (λ s. s) endings m)
        ("main" ∷ "old" ∷ [])
        ("main" ∷ "old" ∷ [])
        "ann"
        start
        held in
    holds "old" "ann" (ended backend holds backend-IsBackend (λ s. s) endings m' d') ≡ false
erased_for_good_example =
    erased_for_good backend holds backend-IsBackend (λ s. s) ("main" ∷ "old" ∷ [])
      ("main" ∷ "old" ∷ []) "old" "ann" (λ n. endings) endings start held
      (unfold withdrawals lookup in omega arith) (λ n. endings-UnderWay) endings-UnderWay
      (unfold erase erased without in refl) refl
