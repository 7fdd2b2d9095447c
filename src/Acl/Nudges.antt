-- ===== src/Acl/Nudges.antt =====
-- The nudge cooldown.
use yaad_grove.Base.{
  ℕ, ◌+◌, ◌<◌, ◌≡◌, refl, ◌∙◌, sym, Bool-cases, ap, false, not, String, Option, none, some, List,
  [], ◌∷◌, Map, lookup, insert, lookup-insert, keep_values, lookup-keep_values, keep-IsDistinct,
  insert-IsDistinct, IsDistinct, filtered, same_text, same_text_iff, same_text_refl, arith,
  if◌then◌else◌, ltb, Option-cases, inl, inr,
}
use yaad_grove.Base.Int.{pos, half64, since, since_le, leb_ℤ}
use yaad_grove.Acl.{Gate, Decision, nudged, silent, nudge}

-- A cooldown that is on, over a map that holds each user once.
pub record IsCooling (c : ℕ) (g : Gate) : Type 0 where
  pub cooldown_eq : g.cooldown ≡ pos c
  pub cooldown_pos : 0 < c
  pub cooldown_fits : c < half64
  pub distinct : IsDistinct g.nudges

-- When the user was last nudged, if the cooldown has not passed since.
abbrev pub open_window : ℕ → ℕ → Option ℕ → Option ℕ
open_window c now none = none
open_window c now (some at) = if ltb now (at + c) then some at else none

abbrev windows : ℕ → Gate → Map ℕ
windows now g = keep_values (λ at. not (leb_ℤ g.cooldown (since now at))) g.nudges

filtered-open :
    (c now : ℕ) (g : Gate) (o : Option ℕ)
    → IsCooling c g
    → filtered (λ at. not (leb_ℤ g.cooldown (since now at))) o ≡ open_window c now o
filtered-open c now g none k = refl
filtered-open c now g (some at) k =
    rw (k.cooldown_eq, since_le now at c k.cooldown_pos k.cooldown_fits) (ground arith)

lookup-windows :
    (c now : ℕ) (g : Gate) (j : String)
    → IsCooling c g
    → lookup j (windows now g) ≡ open_window c now (lookup j g.nudges)
lookup-windows c now g j k =
    lookup-keep_values (λ at. not (leb_ℤ g.cooldown (since now at))) j g.nudges k.distinct
    ∙ filtered-open c now g (lookup j g.nudges) k

abbrev decided : Option ℕ → Decision
decided none = nudged
decided (some at) = silent

-- The windows after a nudge decision.
abbrev pub opened : String → String → ℕ → Option ℕ → Option ℕ → Option ℕ
opened id j now (some at) mine = mine
opened id j now none mine = if same_text id j then some now else mine

cooling : (c : ℕ) (g : Gate) → IsCooling c g → leb_ℤ g.cooldown (pos 0) ≡ false
cooling c g k = rw k.cooldown_eq (let h = k.cooldown_pos in ground arith)

nudge_closed :
    (c now : ℕ) (id : String) (g : Gate)
    → IsCooling c g
    → lookup id (windows now g) ≡ none
    → nudge id now g ≡ (nudged, record g { nudges = insert id now (windows now g) })
unfolding nudge
nudge_closed c now id g k e = rw (cooling c g k, e) refl

nudge_opened :
    (c now at : ℕ) (id : String) (g : Gate)
    → IsCooling c g
    → lookup id (windows now g) ≡ some at
    → nudge id now g ≡ (silent, record g { nudges = windows now g })
unfolding nudge
nudge_opened c now at id g k e = rw (cooling c g k, e) refl

IsCooling-windows :
    (c now : ℕ) (g : Gate) (m : Map ℕ)
    → IsCooling c g
    → IsDistinct m
    → IsCooling c (record g { nudges = m })
IsCooling-windows c now g m k d = record {
  cooldown_eq = k.cooldown_eq;
  cooldown_pos = k.cooldown_pos;
  cooldown_fits = k.cooldown_fits;
  distinct = d;
}

-- With a cooldown set, an unconsented directed message is nudged exactly when its sender has not been
-- nudged within the cooldown. A nudge opens the sender's window, and a window that has passed is gone
-- from the map, whosever it is.
pub nudge_exact :
    (c now : ℕ) (id j : String) (g : Gate)
    → IsCooling c g
    → let mine = open_window c now (lookup id g.nudges) in
      ((nudge id now g).0 ≡ decided mine)
      × (lookup j (nudge id now g).1.nudges
          ≡ opened id j now mine (open_window c now (lookup j g.nudges)))
      × IsCooling c (nudge id now g).1
nudge_exact c now id j g k =
    let d = keep-IsDistinct (λ at. not (leb_ℤ g.cooldown (since now at))) g.nudges k.distinct in
    elim (Option-cases (lookup id (windows now g))) [
      | inl e ↦
          let mine = sym (lookup-windows c now g id k) ∙ e in
          rw (nudge_closed c now id g k e, mine)
            (
              refl,
              lookup-insert id j now (windows now g)
                  ∙ ap (λ o. if same_text id j then some now else o) (lookup-windows c now g j k),
              IsCooling-windows c now g _ k (insert-IsDistinct id now (windows now g) d),
            )
      | inr (at, e) ↦
          let mine = sym (lookup-windows c now g id k) ∙ e in
          rw (nudge_opened c now at id g k e, mine)
            (refl, lookup-windows c now g j k, IsCooling-windows c now g _ k d)
    ]

opened_other :
    (id j : String) (now : ℕ) (m mine : Option ℕ)
    → same_text id j ≡ false
    → opened id j now m mine ≡ mine
opened_other id j now none mine h = rw h refl
opened_other id j now (some at) mine h = refl

nudge-open :
    (c now t : ℕ) (id u : String) (g : Gate)
    → IsCooling c g
    → lookup u g.nudges ≡ some t
    → now < t + c
    → IsCooling c (nudge id now g).1 × (lookup u (nudge id now g).1.nudges ≡ some t)
nudge-open c now t id u g k e early =
    let (d, v, k') = nudge_exact c now id u g k in
    let still : open_window c now (some t) ≡ some t = ground arith in
    (
      k',
      v ∙ elim (Bool-cases (same_text id u)) [
        | inl same ↦ rw ((same_text_iff id u).0 same, e, still) refl
        | inr other ↦ opened_other id u now _ _ other ∙ ap (open_window c now) e ∙ still
      ],
    )

-- Nudge decisions one after the other.
pub nudge_all : List (String × ℕ) → Gate → Gate
nudge_all [] g = g
nudge_all ((id, now) ∷ rest) g = nudge_all rest (nudge id now g).1

abbrev pub AllBefore : ℕ → List (String × ℕ) → Type 0
AllBefore t [] = Unit
AllBefore t ((id, now) ∷ rest) = (now < t) × AllBefore t rest

nudge_all-open :
    (c t : ℕ) (u : String) (l : List (String × ℕ)) (g : Gate)
    → IsCooling c g
    → lookup u g.nudges ≡ some t
    → AllBefore (t + c) l
    → IsCooling c (nudge_all l g) × (lookup u (nudge_all l g).nudges ≡ some t)
unfolding nudge_all
nudge_all-open c t u [] g k e before = (k, e)
nudge_all-open c t u ((id, now) ∷ rest) g k e before =
    let (k', e') = nudge-open c now t id u g k e before.0 in
    nudge_all-open c t u rest (nudge id now g).1 k' e' before.1

decided_nudged : (o : Option ℕ) → decided o ≡ nudged → o ≡ none
decided_nudged none h = refl
decided_nudged (some at) h = cc

-- A user who was nudged is not nudged again within the cooldown, whatever other users direct at the
-- bot in between.
pub nudged_once :
    (c t now : ℕ) (id : String) (l : List (String × ℕ)) (g : Gate)
    → IsCooling c g
    → (nudge id t g).0 ≡ nudged
    → AllBefore (t + c) l
    → now < t + c
    → (nudge id now (nudge_all l (nudge id t g).1)).0 ≡ silent
nudged_once c t now id l g k was before early =
    let (d, v, k') = nudge_exact c t id id g k in
    let none_open = decided_nudged (open_window c t (lookup id g.nudges)) (sym d ∙ was) in
    let e : lookup id (nudge id t g).1.nudges ≡ some t =
      v ∙ rw (none_open, same_text_refl id) refl in
    let g' = nudge_all l (nudge id t g).1 in
    let (k2, e') = nudge_all-open c t id l (nudge id t g).1 k' e before in
    let (d', v', k3) = nudge_exact c now id id g' k2 in d' ∙ rw e' (ground arith)
