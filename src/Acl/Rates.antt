-- ===== src/Acl/Rates.antt =====
-- The rate limit: how often a user is served within one window.
use native.Mathlib.Nat.{mul-add, mul-one}
use yaad_grove.Base.{
  ◌*◌, All, ℕ, ◌+◌, ◌<◌, ◌≤◌, ◌≡◌, refl, ◌∙◌, sym, ap, inl, inr, Bool, true, false, String, Option,
  none, some, List, [], ◌∷◌, same_text, same_text_iff, arith, if◌then◌else◌, Bool-cases, Result, ok,
  err,
}
use yaad_grove.Acl.{
  Record, Store, Gate, GateInput, rate_window, windowed, over_rate, allowance_for, resolve_tier,
  check_read,
}
use yaad_grove.Acl.Laws.{IsStore}
use yaad_grove.Acl.Decisions.{kept, counted, read_Outcome}
use yaad_grove.Acl.Overlap.{
  InWindow, windowed-open, InWindow-after, under_rate, not_serve, Pending, Step, reads, goes_on,
  take_out, overtake, tallied, OutAll, take_out-All, def_tier-read, ended, serves, AllWithin,
}
use yaad_grove.Acl.Counts.{Mine, Held, InWindow-gate, gate-Held, overtake-Held}

module _ {E S : Type 0} (store : Store E S) (view : S → String → Record)
    (laws : IsStore store view) where
  module _ (id : String) (a w : ℕ) (pos_w : 0 < w) where
    Bound : ℕ × ℕ → ℕ → Type 0
    Bound (n, k) c = n + c ≤ a + a * k

    tallied-Bound :
        (overtaken : Bool) (x : ℕ × ℕ) (c c' : ℕ)
        → c ≤ a
        → 1 ≤ c'
        → (overtaken ≡ false → c' ≡ c + 1)
        → Bound x c'
        → Bound (tallied true overtaken x) c
    unfolding Bound
    tallied-Bound false (n, k) c c' le some_count next h = let e = next refl in omega (arith, h, e)
    tallied-Bound true (n, k) c c' le some_count next h =
        omega (arith, h, le, some_count, mul-add a k 1, mul-one a)

    untallied-Bound :
        (overtaken : Bool) (x : ℕ × ℕ) (c : ℕ) → Bound x c → Bound (tallied false overtaken x) c
    untallied-Bound overtaken (n, k) c h = h

    -- What is read now is current.
    read_now :
        (i : GateInput) (g : Gate) (s : S) (c : ℕ)
        → c ≤ a
        → InWindow a w c g (view s id)
        → Held id a w g c (record { input = i; got = store.get i.user.id s; overtaken = false })
    unfolding Held Mine
    read_now i g s c le win r e =
        let r_eq = laws.get_view s i.user.id e in
        (
          ap (λ (x : Record). x.user_id) r_eq ∙ laws.user_id-view s i.user.id,
          λ own.
              let seen : r ≡ view s id = r_eq ∙ ap (view s) own in
              let count : r.rate_count ≡ c = ap (λ (x : Record). x.rate_count) seen ∙ win.count in
              (
                record {
                  start = ap (λ (x : Record). x.rate_window_start) seen ∙ win.start;
                  count = refl;
                  allowed = ap (λ x. allowance_for (resolve_tier x g)) seen ∙ win.allowed;
                },
                omega (arith, count, le),
                λ fresh. count,
              ),
        )

    -- Whatever the state, the rest of the steps keep to the bound.
    Keeps : (List (Pending E) → Gate → S → ℕ × ℕ) → Type 0
    Keeps next =
        (ps : List (Pending E)) (g : Gate) (s : S) (c : ℕ)
        → c ≤ a
        → InWindow a w c g (view s id)
        → All (Held id a w g c) ps
        → Bound (next ps g s) c

    served-Bound :
        (next : List (Pending E) → Gate → S → ℕ × ℕ) (now : ℕ) (p : Pending E)
        (qs : List (Pending E)) (g g' : Gate) (s' : S) (c : ℕ) (before r : Record)
        → Keeps next
        → now < w + rate_window
        → c ≤ a
        → InWindow a w c g before
        → ((r.user_id ≡ p.input.user.id) × (p.input.user.id ≡ id → Mine id a w g c p r))
        → All (Held id a w g c) qs
        → g'.def_tier ≡ g.def_tier
        → over_rate (allowance_for (resolve_tier r g)) (windowed now r).rate_count ≡ false
        → view s' id ≡ (
            if same_text p.input.user.id id
            then record (windowed now r) { rate_count = (windowed now r).rate_count + 1 }
            else before)
        → let k = p.input.user.id in
          Bound (tallied (same_text k id) p.overtaken (next (overtake k qs) g' s')) c
    unfolding Keeps Mine
    served-Bound next now p qs g g' s' c before r keeps early le win mine held same under v =
        let k = p.input.user.id in
        elim (Bool-cases (same_text k id)) [
          | inl own ↦
              let user = (same_text_iff k id).0 own in
              let (win_r, le_r, current) = mine.1 user in
              let opened = windowed-open now w r win_r.start pos_w early in
              let under_r : over_rate (some a) r.rate_count ≡ false =
                sym (ap (λ x. over_rate x r.rate_count) win_r.allowed)
                ∙ ap (λ (x : Record). over_rate (allowance_for (resolve_tier r g)) x.rate_count)
                    (sym opened)
                ∙ under in
              let next_r : Record = record r { rate_count = r.rate_count + 1 } in
              let r_eq : view s' id ≡ next_r = v ∙ rw (own, opened) refl in
              let win' : InWindow a w (r.rate_count + 1) g' (view s' id) = rw r_eq (
                InWindow-after a w r.rate_count (r.rate_count + 1) g g' r next_r win_r win_r.start
                  refl refl same) in
              let bound =
                keeps (overtake k qs) g' s' (r.rate_count + 1) (under_rate a r.rate_count under_r)
                  win' (overtake-Held id a w k g g' c (r.rate_count + 1) qs same (inl user) held) in
              rw own (
                tallied-Bound p.overtaken (next (overtake k qs) g' s') c (r.rate_count + 1) le
                  (omega arith) (λ fresh. ap (λ x. x + 1) (current fresh)) bound)
          | inr other ↦
              let r_eq : view s' id ≡ before = v ∙ rw other refl in
              let win' : InWindow a w c g' (view s' id) =
                rw r_eq (InWindow-gate a w c g g' before same win) in
              rw other (
                untallied-Bound p.overtaken (next (overtake k qs) g' s') c (
                  keeps (overtake k qs) g' s' c le win'
                    (overtake-Held id a w k g g' c c qs same (inr refl) held)))
        ]

    got-Bound :
        (next : List (Pending E) → Gate → S → ℕ × ℕ) (now : ℕ) (p : Pending E)
        (qs ps : List (Pending E)) (g : Gate) (s : S) (c : ℕ) (got : Result E Record)
        → p.got ≡ got
        → Keeps next
        → now < w + rate_window
        → c ≤ a
        → InWindow a w c g (view s id)
        → Held id a w g c p
        → All (Held id a w g c) qs
        → Bound (ended store id next now (some (p, qs)) ps g s) c
    unfolding Held
    got-Bound next now p qs ps g s c (err x) is keeps early le win h held =
        rw is (unfold check_read Keeps in keeps qs g s c le win held)
    got-Bound next now p qs ps g s c (ok r) is keeps early le win h held =
        let mine = h r is in
        let after = check_read store p.input now (ok r) g s in
        let same = def_tier-read store p.input now (ok r) g s in
        rw is (elim (read_Outcome store view laws p.input now g s r mine.0) [
          | kept other unchanged ↦ rw (not_serve after.0 other) (
              unfold Keeps in
              keeps qs after.1 after.2 c le
                (rw (unchanged id) (InWindow-gate a w c g after.1 (view s id) same win))
                (gate-Held id a w g after.1 c qs same held))
          | counted ok_serve under v ↦ rw ok_serve (
              served-Bound next now p qs g after.1 after.2 c (view s id) r keeps early le win mine
                held same under (v id))
        ])

    ended-Bound :
        (next : List (Pending E) → Gate → S → ℕ × ℕ) (now : ℕ)
        (o : Option (Pending E × List (Pending E))) (ps : List (Pending E)) (g : Gate) (s : S)
        (c : ℕ)
        → Keeps next
        → now < w + rate_window
        → c ≤ a
        → InWindow a w c g (view s id)
        → All (Held id a w g c) ps
        → OutAll (Held id a w g c) o
        → Bound (ended store id next now o ps g s) c
    ended-Bound next now none ps g s c keeps early le win held out =
        unfold Keeps in keeps ps g s c le win held
    ended-Bound next now (some (p, qs)) ps g s c keeps early le win held out =
        got-Bound next now p qs ps g s c p.got refl keeps early le win out.0 out.1

    serves-Keeps : (l : List Step) → AllWithin (w + rate_window) l → Keeps (serves store id l)
    unfolding Keeps serves
    serves-Keeps [] within ps g s c le win held = unfold Bound in omega (arith, le)
    serves-Keeps (reads i ∷ l) within ps g s c le win held =
        serves-Keeps l within
          (record { input = i; got = store.get i.user.id s; overtaken = false } ∷ ps) g s c le win
          (read_now i g s c le win, held)
    serves-Keeps (goes_on n now ∷ l) within ps g s c le win held =
        ended-Bound (serves store id l) now (take_out n ps) ps g s c (serves-Keeps l within.1)
          within.0 le win held (take_out-All (Held id a w g c) n ps held)

  -- Checks overlap in any order: each reads its sender's record in one step and goes on to its end in a
  -- later one. Within an open rate window, the messages served to a user by checks that begin and end in it,
  -- with the `n` counted before, are at most the allowance of the user's tier, and once more the
  -- allowance for each message served by a check that another served one of the user overtook since
  -- its read. So they never pass the allowance where no check of the user overlaps another that serves. Nothing but
  -- checks changes the records meanwhile, and the store has the laws of `IsStore`.
  pub serves_bounded :
      (id : String) (a w n : ℕ) (l : List Step) (g : Gate) (s : S)
      → 0 < w
      → AllWithin (w + rate_window) l
      → n ≤ a
      → InWindow a w n g (view s id)
      → let (count, overtaken) = serves store id l [] g s in count + n ≤ a + a * overtaken
  serves_bounded id a w n l g s pos_w within le win =
      unfold Keeps Bound in serves-Keeps id a w pos_w l within [] g s n le win tt
