-- ===== src/LongMemory/Erasure.antt =====
-- What an erasure leaves of a user, and what a turn that was under way may still keep.
use yaad_grove.Base.{
  subst, sym, All, ◌⊎◌, ◌≢◌, Option-cases, ℕ, ◌+◌, ◌%◌, ◌^◌, ◌<◌, ◌≡◌, refl, ◌∙◌, ap, Bool, true,
  false, String, Option, none, some, List, [], ◌∷◌, map, lookup-insert, if◌then◌else◌, ◌==◌,
  same_text, same_text_iff, Bool-cases, inl, inr, arith,
}
use yaad_grove.Runtime.Services.{EraseResult, erased}
use yaad_grove.LongMemory.{
  Backend, LongMemory, KeptTurn, EraseError, withdrawals, withdraw, or_zero, keep, keep_answer,
  failure, Kind, by_user, by_model, erase_in, erase_loop, erase,
}

-- Withdrawals, one after the other.
unfoldable pub withdraw_all : List String → LongMemory → LongMemory
withdraw_all [] m = m
withdraw_all (u ∷ us) m = withdraw_all us (withdraw u m)

-- How many of them are the user's.
abbrev pub times : String → List String → ℕ
times user [] = 0
times user (u ∷ us) = let rest = times user us in if same_text u user then rest + 1 else rest

withdrawals-withdraw :
    (user u : String) (m : LongMemory)
    → withdrawals user (withdraw u m)
      ≡ (if same_text u user then (withdrawals u m + 1) % 2 ^ 64 else withdrawals user m)
unfolding withdrawals withdraw
withdrawals-withdraw user u m =
    ap or_zero (lookup-insert u user ((withdrawals u m + 1) % 2 ^ 64) m.withdrawn)
    ∙ elim (Bool-cases (same_text u user)) [ inl same ↦ rw same refl | inr other ↦ rw other refl ]

withdrawals-withdraw_all :
    (user : String) (us : List String) (m : LongMemory)
    → withdrawals user m < 2 ^ 64
    → withdrawals user (withdraw_all us m) ≡ (withdrawals user m + times user us) % 2 ^ 64
unfolding withdraw_all
withdrawals-withdraw_all user [] m h = omega arith
withdrawals-withdraw_all user (u ∷ us) m h =
    let c = withdrawals-withdraw user u m in
    elim (Bool-cases (same_text u user)) [
      | inl same ↦
          let e : u ≡ user = (same_text_iff u user).0 same in
          let c' : withdrawals user (withdraw u m) ≡ (withdrawals user m + 1) % 2 ^ 64 =
            rw same at c ∙ ap (λ x. (withdrawals x m + 1) % 2 ^ 64) e in
          let ih = withdrawals-withdraw_all user us (withdraw u m) (omega (arith, c')) in
          rw same (omega (arith, ih, c'))
      | inr other ↦
          let c' : withdrawals user (withdraw u m) ≡ withdrawals user m = rw other at c in
          let ih = withdrawals-withdraw_all user us (withdraw u m) (omega (arith, c', h)) in
          rw other (omega (arith, ih, c'))
    ]

-- A turn of another user, or one of the user that began at the count of withdrawals.
abbrev pub UnderWay : String → LongMemory → KeptTurn → Type 0
UnderWay user m t = ((t.subject ≡ user) × (t.withdrawn ≡ withdrawals user m)) ⊎ (t.subject ≢ user)

module _ {E D : Type 0} (b : Backend E D) where
  -- A turn that was under way when its user withdrew keeps nothing, whoever else withdraws before or
  -- after; the user is taken to withdraw fewer than 2 ^ 64 times meanwhile.
  pub stale_turn_unkept :
      (scrub : String → String) (t : KeptTurn) (message answer : String) (us : List String)
      (m : LongMemory) (d : D)
      → t.withdrawn ≡ withdrawals t.subject m
      → withdrawals t.subject m < 2 ^ 64
      → 0 < times t.subject us
      → times t.subject us < 2 ^ 64
      → keep b scrub (some t) message answer (withdraw_all us m) d ≡ d
  unfolding keep
  stale_turn_unkept scrub t message answer us m d begun fits some_time few =
      let now = withdrawals-withdraw_all t.subject us m fits in
      let apart : (withdrawals t.subject (withdraw_all us m) == t.withdrawn) ≡ false =
        ground (arith, now) in
      rw apart refl

  -- What erasing relies on in the stores: a deletion that went through leaves nothing of the subject in
  -- that namespace, none adds anything, and an append adds to its own subject only.
  pub record IsBackend (holds : String → String → D → Bool) : Type 0 where
    pub deleted :
        (ns user : String) (d : D)
        → (b.delete_subject ns user d).0 ≡ none
        → holds ns user (b.delete_subject ns user d).1 ≡ false
    pub delete_keeps :
        (ns user j other : String) (d : D)
        → holds j other d ≡ false
        → holds j other (b.delete_subject ns user d).1 ≡ false
    pub append_others :
        (store subject session : String) (kind : Kind) (text : String) (d : D) (j other : String)
        → subject ≢ other
        → holds j other d ≡ false
        → holds j other (b.append store subject session kind text d).1 ≡ false

  -- The namespace is among the names.
  abbrev pub among : String → List String → Bool
  among ns [] = false
  among ns (n ∷ names) = let rest = among ns names in if same_text n ns then true else rest

  module _ (holds : String → String → D → Bool) (laws : IsBackend holds) where
    failure-none : (o : Option E) → failure b o ≡ none → o ≡ none
    failure-none none h = refl
    failure-none (some e) h = cc h

    erase_in-clean :
        (open_stores : List String) (user ns j : String) (d : D)
        → holds j user d ≡ false
        → holds j user (erase_in b open_stores user ns d).1 ≡ false
    unfolding erase_in
    erase_in-clean [] user ns j d h = h
    erase_in-clean (n ∷ open_stores) user ns j d h = elim (Bool-cases (same_text n ns)) [
      | inl same ↦ rw same (laws.delete_keeps ns user j user d h)
      | inr other ↦ rw other (erase_in-clean open_stores user ns j d h)
    ]

    erase_in-done :
        (open_stores : List String) (user ns : String) (d : D)
        → (erase_in b open_stores user ns d).0 ≡ none
        → holds ns user (erase_in b open_stores user ns d).1 ≡ false
    unfolding erase_in
    erase_in-done [] user ns d h = cc h
    erase_in-done (n ∷ open_stores) user ns d h = elim (Bool-cases (same_text n ns)) [
      | inl same ↦
          rw same
            (laws.deleted ns user d (failure-none (b.delete_subject ns user d).0 (rw same at h)))
      | inr other ↦ rw other (erase_in-done open_stores user ns d (rw other at h))
    ]

    module _ (meanwhile : String → D → D) (user j : String)
        (calm : (ns : String) (d : D)
          → holds j user d ≡ false
          → holds j user (meanwhile ns d) ≡ false) where
      erase_loop-clean :
          (open_stores names : List String) (d : D)
          → holds j user d ≡ false
          → holds j user (erase_loop b meanwhile open_stores names user d).1 ≡ false
      unfolding erase_loop
      erase_loop-clean open_stores [] d h = h
      erase_loop-clean open_stores (ns ∷ names) d h =
          let d' = meanwhile ns d in
          erase_loop-clean open_stores names (erase_in b open_stores user ns d').1
            (erase_in-clean open_stores user ns j d' (calm ns d h))

    erased_cons :
        (E' : Type 0) (r : EraseResult E') (rest : List (EraseResult E'))
        → erased (r ∷ rest) ≡ true
        → (r.error ≡ none) × (erased rest ≡ true)
    unfolding erased
    erased_cons E' r rest h = elim (Option-cases r.error) [
      | inl fine ↦ (fine, rw fine at h)
      | inr (e, failed) ↦ absurd (let f : false ≡ true = rw failed at h in cc f)
    ]

    erase_loop-done :
        (meanwhile : String → D → D) (open_stores names : List String) (user ns : String) (d : D)
        → ((n : String) (d : D) → holds ns user d ≡ false → holds ns user (meanwhile n d) ≡ false)
        → erased (erase_loop b meanwhile open_stores names user d).0 ≡ true
        → among ns names ≡ true
        → holds ns user (erase_loop b meanwhile open_stores names user d).1 ≡ false
    unfolding erase_loop
    erase_loop-done meanwhile open_stores [] user ns d calm h is_in = cc is_in
    erase_loop-done meanwhile open_stores (n ∷ names) user ns d calm h is_in =
        let (e, d') = erase_in b open_stores user n (meanwhile n d) in
        let (first, others) =
          erased_cons (EraseError E) (record { namespace = n; error = e })
            (erase_loop b meanwhile open_stores names user d').0 h in
        elim (Bool-cases (same_text n ns)) [
          | inl same ↦
              let at = (same_text_iff n ns).0 same in
              erase_loop-clean meanwhile user ns calm open_stores names d' (
                subst (λ x. holds x user d' ≡ false) at
                  (erase_in-done open_stores user n (meanwhile n d) first))
          | inr other ↦
              erase_loop-done meanwhile open_stores names user ns d' calm others (rw other at is_in)
        ]

    keep_answer-clean :
        (t : KeptTurn) (answer ns user : String) (o : Option E × D)
        → t.subject ≢ user
        → holds ns user o.1 ≡ false
        → holds ns user (keep_answer b t answer o) ≡ false
    unfolding keep_answer
    keep_answer-clean t answer ns user (some e, d) other h = h
    keep_answer-clean t answer ns user (none, d) other h =
        laws.append_others t.store t.subject t.session by_model answer d ns user other h

    module _ (scrub : String → String) where
      -- The turns end, one after the other: each is a turn, its message and its answer.
      unfoldable pub ended : List (KeptTurn × String × String) → LongMemory → D → D
      ended [] m d = d
      ended ((t, message, answer) ∷ turns) m d =
          ended turns m (keep b scrub (some t) message answer m d)

      keep-clean :
          (t : KeptTurn) (message answer ns user : String) (m : LongMemory) (d : D)
          → withdrawals user m < 2 ^ 64
          → UnderWay user m t
          → holds ns user d ≡ false
          → holds ns user (keep b scrub (some t) message answer (withdraw user m) d) ≡ false
      unfolding withdraw_all
      keep-clean t message answer ns user m d fits (inl (self, begun)) h =
          let one : times t.subject (user ∷ []) ≡ 1 =
            rw ((same_text_iff user t.subject).1 (sym self)) refl in
          let unkept =
            stale_turn_unkept scrub t message answer (user ∷ []) m d
              (begun ∙ ap (λ u. withdrawals u m) (sym self))
              (subst (λ u. withdrawals u m < 2 ^ 64) (sym self) fits) (omega (arith, one))
              (omega (arith, one)) in
          rw unkept h
      keep-clean t message answer ns user m d fits (inr other) h =
          unfold keep in
          elim (Bool-cases (withdrawals t.subject (withdraw user m) == t.withdrawn)) [
            | inl now ↦ rw now (
                keep_answer-clean t (scrub answer) ns user
                  (b.append t.store t.subject t.session by_user (scrub message) d) other
                  (laws.append_others t.store t.subject t.session by_user (scrub message) d ns user
                    other h))
            | inr gone ↦ rw gone h
          ]

      ended-clean :
          (turns : List (KeptTurn × String × String)) (ns user : String) (m : LongMemory) (d : D)
          → withdrawals user m < 2 ^ 64
          → All (λ e. UnderWay user m e.0) turns
          → holds ns user d ≡ false
          → holds ns user (ended turns (withdraw user m) d) ≡ false
      unfolding ended
      ended-clean [] ns user m d fits under_way h = h
      ended-clean ((t, message, answer) ∷ turns) ns user m d fits under_way h =
          ended-clean turns ns user m (keep b scrub (some t) message answer (withdraw user m) d)
            fits under_way.1 (keep-clean t message answer ns user m d fits under_way.0 h)

      -- When an erasure reports every namespace erased, no recorded namespace holds anything of the user,
      -- whichever turns end between its deletions (`during`, by the namespace deleted next) and after it
      -- (`after`): turns of other users, and turns of the user that were under way when it began. The memory
      -- stores have the laws of `IsBackend`, and the count of withdrawals fits a uint64.
      pub erased_for_good :
          (open_stores names : List String) (ns user : String)
          (during : String → List (KeptTurn × String × String))
          (after : List (KeptTurn × String × String)) (m : LongMemory) (d : D)
          → withdrawals user m < 2 ^ 64
          → ((n : String) → All (λ e. UnderWay user m e.0) (during n))
          → All (λ e. UnderWay user m e.0) after
          → erased (erase b (λ m' n. ended (during n) m') open_stores names user m d).0 ≡ true
          → among ns names ≡ true
          → let (results, m', d') =
              erase b (λ m' n. ended (during n) m') open_stores names user m d in
            holds ns user (ended after m' d') ≡ false
      unfolding erase
      erased_for_good open_stores names ns user during after m d fits stale stale_after done is_in =
          let m' = withdraw user m in
          let d' = (erase_loop b (λ n. ended (during n) m') open_stores names user d).1 in
          ended-clean after ns user m d' fits stale_after (
            erase_loop-done (λ n. ended (during n) m') open_stores names user ns d
              (λ n d h. ended-clean (during n) ns user m d fits (stale n) h) done is_in)

  erase_loop-namespaces :
      (meanwhile : String → D → D) (open_stores names : List String) (user : String) (d : D)
      → map (λ r. r.namespace) (erase_loop b meanwhile open_stores names user d).0 ≡ names
  unfolding erase_loop
  erase_loop-namespaces meanwhile open_stores [] user d = refl
  erase_loop-namespaces meanwhile open_stores (n ∷ names) user d =
      ap (λ l. n ∷ l)
        (erase_loop-namespaces meanwhile open_stores names user
          (erase_in b open_stores user n (meanwhile n d)).1)

  -- Every recorded namespace is tried, in order, whichever fail, and the withdrawal is counted.
  pub erase-namespaces :
      (meanwhile : LongMemory → String → D → D) (open_stores names : List String) (user : String)
      (m : LongMemory) (d : D)
      → (map (λ r. r.namespace) (erase b meanwhile open_stores names user m d).0 ≡ names)
        × ((erase b meanwhile open_stores names user m d).1 ≡ withdraw user m)
  unfolding erase
  erase-namespaces meanwhile open_stores names user m d =
      (erase_loop-namespaces (meanwhile (withdraw user m)) open_stores names user d, refl)
