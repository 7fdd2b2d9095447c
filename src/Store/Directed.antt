-- ===== src/Store/Directed.antt =====
-- The walk of Ordered of internal/store/memory.go over a sorted list of entries.
use mathlib.Core.List.{Perm}
use mathlib.Core.List.Perm
use yaad_grove.Base.{
  Bool, true, false, not, ◌&&◌, ◌||◌, List, [], ◌∷◌, ◌++◌, append_nil, All, All-append, All-imp,
  All-both, Bool-cases, inl, inr, ◌≡◌, refl, sym, subst, ◌∙◌, arith,
}
use yaad_grove.Base.Int.{ℤ, ltb_ℤ}
use yaad_grove.Base.Sort.{
  IsOrder, IsSorted, IsSorted-append, perm_middle, text_le, text_le_total, text_le_trans,
}
use yaad_grove.Store.Ordered.{
  Direction, OrderedEntry, entry_less, entry_le, same_key, walk_groups, backwards, walk_back,
  directed,
}

-- By the key in the asked direction, and under one key by the path, ascending in both.
unfoldable pub stands_before : Direction → OrderedEntry → OrderedEntry → Bool
stands_before Direction.ascending a b =
    ltb_ℤ a.key b.key || (not (ltb_ℤ b.key a.key) && text_le a.ref.path b.ref.path)
stands_before Direction.descending a b =
    ltb_ℤ b.key a.key || (not (ltb_ℤ a.key b.key) && text_le a.ref.path b.ref.path)

pub entry_le-IsOrder : IsOrder entry_le
unfolding entry_le entry_less
entry_le-IsOrder = record {
  total = λ a b h. ground (arith, text_le_total a.ref.path b.ref.path, h);
  trans = λ a b c h k. ground (arith, text_le_trans a.ref.path b.ref.path c.ref.path, h, k);
}

entry_le-stands : (a b : OrderedEntry) → entry_le a b ≡ stands_before Direction.ascending a b
unfolding entry_le entry_less stands_before
entry_le-stands a b = ground arith

walk_groups-same :
    (key : ℤ) (e : OrderedEntry) (group rest : List OrderedEntry)
    → same_key e.key key ≡ true
    → walk_groups key group (e ∷ rest) ≡ walk_groups key (e ∷ group) rest
unfolding walk_groups
walk_groups-same key e group rest h = rw (h, walk_groups) refl

walk_groups-other :
    (key : ℤ) (e : OrderedEntry) (group rest : List OrderedEntry)
    → same_key e.key key ≡ false
    → walk_groups key group (e ∷ rest) ≡ group ++ walk_groups e.key (e ∷ []) rest
unfolding walk_groups
walk_groups-other key e group rest h = rw (h, walk_groups) refl

-- The walk rearranges its entries.
walk_groups-perm :
    (key : ℤ) (group rest : List OrderedEntry) → Perm (walk_groups key group rest) (group ++ rest)
unfolding walk_groups
walk_groups-perm key group [] = rw (append_nil group) Perm.rfl
walk_groups-perm key group (e ∷ rest) = elim (Bool-cases (same_key e.key key)) [
  | inl same ↦ rw (walk_groups-same key e group rest same) (
      Perm.trans (walk_groups-perm key (e ∷ group) rest)
        (Perm.symm (perm_middle entry_le e group rest)))
  | inr other ↦
      rw (walk_groups-other key e group rest other)
        (Perm.append_left group (walk_groups-perm e.key (e ∷ []) rest))
]

backwards-perm : (es done : List OrderedEntry) → Perm (backwards es done) (es ++ done)
unfolding backwards
backwards-perm [] done = Perm.rfl
backwards-perm (e ∷ es) done =
    Perm.trans (backwards-perm es (e ∷ done)) (perm_middle entry_le e es done)

walk_back-perm : (es : List OrderedEntry) → Perm (walk_back es) es
walk_back-perm [] = Perm.rfl
walk_back-perm (e ∷ rest) = walk_groups-perm e.key (e ∷ []) rest

pub directed-perm : (dir : Direction) (es : List OrderedEntry) → Perm (directed dir es) es
unfolding directed
directed-perm Direction.ascending es = Perm.rfl
directed-perm Direction.descending es =
    Perm.trans (walk_back-perm (backwards es []))
      (subst (λ l. Perm (backwards es []) l) (append_nil es) (backwards-perm es []))

abbrev after : OrderedEntry → OrderedEntry → Bool
after a b = entry_le b a

backwards-IsSorted :
    (es done : List OrderedEntry)
    → IsSorted entry_le es
    → IsSorted after done
    → All (λ d. All (λ e. entry_le d e ≡ true) es) done
    → IsSorted after (backwards es done)
unfolding backwards
backwards-IsSorted [] done s t h = t
backwards-IsSorted (e ∷ es) done s t h =
    let Front : OrderedEntry → Type 0 = λ d. All (λ x. entry_le d x ≡ true) (e ∷ es) in
    backwards-IsSorted es (e ∷ done) s.1
      (All-imp Front (λ d. entry_le d e ≡ true) (λ d all. all.0) done h, t)
      (s.0, All-imp Front (λ d. All (λ x. entry_le d x ≡ true) es) (λ d all. all.1) done h)

abbrev desc : OrderedEntry → OrderedEntry → Bool
desc = stands_before Direction.descending

desc_same :
    (key : ℤ) (a b : OrderedEntry)
    → same_key a.key key ≡ true
    → same_key b.key key ≡ true
    → entry_le a b ≡ true
    → desc a b ≡ true
unfolding same_key entry_le entry_less stands_before
desc_same key a b h k le = ground (arith, h, k, le)

desc_lower :
    (key : ℤ) (g e x : OrderedEntry)
    → same_key g.key key ≡ true
    → same_key e.key key ≡ false
    → entry_le e g ≡ true
    → entry_le x e ≡ true
    → desc g x ≡ true
unfolding same_key entry_le entry_less stands_before
desc_lower key g e x h k le lx = ground (arith, h, k, le, lx)

entry_le_refl : (e : OrderedEntry) → entry_le e e ≡ true
unfolding entry_le entry_less
entry_le_refl e = ground (arith, text_le_total e.ref.path e.ref.path)

same_key_refl : (k : ℤ) → same_key k k ≡ true
unfolding same_key
same_key_refl k = ground arith

All-walk_groups :
    (P : OrderedEntry → Type 0) (key : ℤ) (group rest : List OrderedEntry)
    → All P group
    → All P rest
    → All P (walk_groups key group rest)
unfolding walk_groups
All-walk_groups P key group [] g r = g
All-walk_groups P key group (e ∷ rest) g r = elim (Bool-cases (same_key e.key key)) [
  | inl same ↦
      rw (walk_groups-same key e group rest same)
        (All-walk_groups P key (e ∷ group) rest (r.0, g) r.1)
  | inr other ↦ rw (walk_groups-other key e group rest other) (
      All-append P group (walk_groups e.key (e ∷ []) rest) g
        (All-walk_groups P e.key (e ∷ []) rest (r.0, tt) r.1))
]

walk_groups-IsSorted :
    (key : ℤ) (group rest : List OrderedEntry)
    → All (λ g. same_key g.key key ≡ true) group
    → IsSorted desc group
    → IsSorted after rest
    → All (λ e. All (λ g. entry_le e g ≡ true) group) rest
    → IsSorted desc (walk_groups key group rest)
unfolding walk_groups
walk_groups-IsSorted key group [] g s r x = s
walk_groups-IsSorted key group (e ∷ rest) g s r x = elim (Bool-cases (same_key e.key key)) [
  | inl same ↦
      let Known : OrderedEntry → Type 0 =
        λ b. (same_key b.key key ≡ true) × (entry_le e b ≡ true) in
      let known =
        All-both (λ b. same_key b.key key ≡ true) (λ b. entry_le e b ≡ true) group g x.0 in
      let placed =
        All-imp Known (λ b. desc e b ≡ true) (λ b h. desc_same key e b same h.0 h.1) group known in
      rw (walk_groups-same key e group rest same) (
        walk_groups-IsSorted key (e ∷ group) rest (same, g) (placed, s) r.1
          (All-both (λ y. entry_le y e ≡ true) (λ y. All (λ b. entry_le y b ≡ true) group) rest r.0
            x.1))
  | inr other ↦
      let later = walk_groups e.key (e ∷ []) rest in
      let below =
        All-walk_groups (λ y. entry_le y e ≡ true) e.key (e ∷ []) rest (entry_le_refl e, tt) r.0 in
      let Known : OrderedEntry → Type 0 =
        λ b. (same_key b.key key ≡ true) × (entry_le e b ≡ true) in
      let known =
        All-both (λ b. same_key b.key key ≡ true) (λ b. entry_le e b ≡ true) group g x.0 in
      rw (walk_groups-other key e group rest other) (
        IsSorted-append desc group later s
          (walk_groups-IsSorted e.key (e ∷ []) rest (same_key_refl e.key, tt) (tt, tt) r.1
            (All-imp (λ y. entry_le y e ≡ true) (λ y. (entry_le y e ≡ true) × Unit) (λ y h. (h, tt))
              rest r.0))
          (All-imp Known (λ b. All (λ y. desc b y ≡ true) later)
            (λ b h.
              All-imp (λ y. entry_le y e ≡ true) (λ y. desc b y ≡ true)
                (λ y hy. desc_lower key b e y h.0 other h.1 hy) later below)
            group known))
]

stands_ascending :
    (es : List OrderedEntry)
    → IsSorted entry_le es
    → IsSorted (stands_before Direction.ascending) es
stands_ascending [] s = tt
stands_ascending (e ∷ es) s = (
  All-imp (λ x. entry_le e x ≡ true) (λ x. stands_before Direction.ascending e x ≡ true)
      (λ x h. sym (entry_le-stands e x) ∙ h) es s.0,
  stands_ascending es s.1,
)

walk_back-IsSorted : (es : List OrderedEntry) → IsSorted after es → IsSorted desc (walk_back es)
walk_back-IsSorted [] s = tt
walk_back-IsSorted (e ∷ rest) s =
    walk_groups-IsSorted e.key (e ∷ []) rest (same_key_refl e.key, tt) (tt, tt) s.1
      (All-imp (λ y. entry_le y e ≡ true) (λ y. (entry_le y e ≡ true) × Unit) (λ y h. (h, tt)) rest
        s.0)

pub directed-IsSorted :
    (dir : Direction) (es : List OrderedEntry)
    → IsSorted entry_le es
    → IsSorted (stands_before dir) (directed dir es)
unfolding directed
directed-IsSorted Direction.ascending es s = stands_ascending es s
directed-IsSorted Direction.descending es s =
    walk_back-IsSorted (backwards es []) (backwards-IsSorted es [] s tt tt)
