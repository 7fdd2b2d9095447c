-- ===== src/Acl.antt =====
-- internal/acl/acl.go and internal/acl/authority.go: the consent gate, the rate limit, the nudge
-- cooldown, and the tiers of authority. The store is the interface `Store` of acl.go over a type `S`;
-- each reading of the clock is an argument.
pub mod Tiers
pub mod Decisions
pub mod Nudges
pub mod Overlap
pub mod Counts
pub mod Rates
pub mod Writes
pub mod Laws
mod Tests
use yaad_grove.Base.{
  [], ℕ, ◌+◌, Bool, true, false, not, ◌&&◌, ◌||◌, String, Option, none, some, Map, lookup, insert,
  keep_values, if◌then◌else◌, ltb, leb, ◌==◌, same_text, Result, ok, err,
}
use yaad_grove.Base.Int.{ℤ, pos, negsuc, since, leb_ℤ, ltb_ℤ}
use yaad_grove.Core.{User, Surface}

-- `Tier` is a string type; these are its constants.
abbrev pub Tier : Type 0
Tier = String

abbrev pub tier_unlimited : Tier
tier_unlimited = "unlimited"

abbrev pub tier_trusted : Tier
tier_trusted = "trusted"

abbrev pub tier_default : Tier
tier_default = "default"

abbrev pub tier_throttled : Tier
tier_throttled = "throttled"

abbrev pub tier_admin : Tier
tier_admin = "admin"

pub data Consent : Type 0 where
  unknown granted declined : Consent

pub record Record : Type 0 where
  pub user_id : String
  pub tier : Tier
  pub consent : Consent
  pub rate_count : ℕ
  pub rate_window_start : ℕ

-- A first-seen user's record.
abbrev pub zero_record : String → Record
zero_record id = record {
  user_id = id;
  tier = "";
  consent = unknown;
  rate_count = 0;
  rate_window_start = 0;
}

pub record Store (E S : Type 0) : Type 0 where
  pub get : String → S → Result E Record
  pub put : Record → S → Option E × S
  pub update : String → (Record → Result E Record) → S → Option E × S

pub data Decision : Type 0 where
  serve log_only nudged refuse rate_limited silent : Decision

-- The gate without its store: the settings, and when each unconsented user was last nudged.
pub record Gate : Type 0 where
  pub def_tier : Tier
  pub cooldown : ℤ
  pub nudges : Map ℕ

pub new_gate : Tier → Gate
new_gate t = record { def_tier = t; cooldown = pos 0; nudges = [] }

pub with_nudge_cooldown : ℤ → Gate → Gate
with_nudge_cooldown d g = record g { cooldown = d }

-- `Gate.nudge`
unfoldable pub nudge : String → ℕ → Gate → Decision × Gate
nudge id now g =
    if leb_ℤ g.cooldown (pos 0)
    then (nudged, g)
    else (let open_windows = keep_values (λ at. not (leb_ℤ g.cooldown (since now at))) g.nudges in
        elim (lookup id open_windows) [
          | some at ↦ (silent, record g { nudges = open_windows })
          | none ↦ (nudged, record g { nudges = insert id now open_windows })
        ])

-- `rateWindow`, an hour in nanoseconds.
abbrev pub rate_window : ℕ
rate_window = 3600000000000

-- `tierAllowance`; `unlimitedRate` is `none`.
unfoldable pub allowance_for : Tier → Option ℕ
allowance_for t =
    if same_text t tier_unlimited
    then none
    else if same_text t tier_admin
    then none
    else if same_text t tier_trusted
    then some 120
    else if same_text t tier_default
    then some 30
    else if same_text t tier_throttled
    then some 5
    else some 30

unfoldable pub resolve_tier : Record → Gate → Tier
resolve_tier rec g = if not (same_text rec.tier "") then rec.tier else g.def_tier

pub record GateInput : Type 0 where
  pub user : User
  pub surface : Surface
  pub directed : Bool

-- The record with its rate window begun anew if it has passed.
unfoldable pub windowed : ℕ → Record → Record
windowed now rec =
    if rec.rate_window_start == 0 || leb_ℤ (pos rate_window) (since now rec.rate_window_start)
    then record rec { rate_window_start = now; rate_count = 0 }
    else rec

-- `allow != unlimitedRate && rec.RateCount >= allow`
unfoldable pub over_rate : Option ℕ → ℕ → Bool
over_rate none n = false
over_rate (some allow) n = leb allow n

module _ {E S : Type 0} where
  -- What `Check` returns for the outcome of its last `Put`.
  served : Option E × S → Gate → Result E Decision × Gate × S
  served (none, s) g = (ok serve, g, s)
  served (some e, s) g = (err e, g, s)

  -- The rate limit of a consented, directed message.
  unfoldable pub check_rate : Store E S → ℕ → Record → Gate → S → Result E Decision × Gate × S
  unfolding served windowed over_rate allowance_for resolve_tier
  check_rate store now rec g s =
      let rec' = windowed now rec in
      if over_rate (allowance_for (resolve_tier rec g)) rec'.rate_count
      then (ok rate_limited, g, s)
      else served (store.put (record rec' { rate_count = rec'.rate_count + 1 }) s) g

  -- `Check` after the record is read; `DecideRefuse` goes with every error.
  unfoldable pub check_read :
      Store E S → GateInput → ℕ → Result E Record → Gate → S → Result E Decision × Gate × S
  check_read store i now (err e) g s = (err e, g, s)
  check_read store i now (ok rec) g s = elim rec.consent [
    | declined ↦ (ok silent, g, s)
    | unknown ↦
        if i.directed
        then (let (d, g') = nudge i.user.id now g in (ok d, g', s))
        else (ok silent, g, s)
    | granted ↦ if not i.directed then (ok log_only, g, s) else check_rate store now rec g s
  ]

  -- A check that no other write of the store comes into. `Check` holds no lock between its two steps, the
  -- read (`get`) and the rest (`check_read`); in Overlap and Writes other steps come between them.
  unfoldable pub check : Store E S → GateInput → ℕ → Gate → S → Result E Decision × Gate × S
  unfolding check_read
  check store i now g s = check_read store i now (store.get i.user.id s) g s

-- `tierAuthority`: the rank of a known tier.
unfoldable pub tier_authority : Tier → Option ℕ
tier_authority t =
    if same_text t tier_throttled
    then some 0
    else if same_text t tier_default
    then some 1
    else if same_text t tier_trusted
    then some 2
    else if same_text t tier_unlimited
    then some 3
    else if same_text t tier_admin
    then some 4
    else none

-- A map read of a missing key is 0.
abbrev pub rank_or_zero : Option ℕ → ℕ
rank_or_zero none = 0
rank_or_zero (some n) = n

abbrev is_known : Option ℕ → Bool
is_known none = false
is_known (some n) = true

unfoldable pub valid_tier : Tier → Bool
unfolding tier_authority
valid_tier t = is_known (tier_authority t)

at_least_rank : ℕ → Option ℕ → Bool
at_least_rank have none = false
at_least_rank have (some w) = leb w have

unfoldable pub at_least : Tier → Tier → Bool
unfolding tier_authority at_least_rank
at_least have want = at_least_rank (rank_or_zero (tier_authority have)) (tier_authority want)

pub data SetTierError (E : Type 0) : Type 0 where
  unknown_tier : SetTierError E
  store_failed : E → SetTierError E

module _ {E : Type 0} where
  unfoldable pub authorize_read : Result E Record → Tier → Gate → Result E Bool
  unfolding at_least resolve_tier
  authorize_read (err e) min_tier g = err e
  authorize_read (ok rec) min_tier g = ok (at_least (resolve_tier rec g) min_tier)

  consent_read : Result E Record → Result E Consent
  consent_read (err e) = err e
  consent_read (ok rec) = ok rec.consent

module _ {E S : Type 0} where
  unfoldable pub authorize : Store E S → User → Tier → Gate → S → Result E Bool
  unfolding authorize_read
  authorize store u min_tier g s = authorize_read (store.get u.id s) min_tier g

  unfoldable pub set_consent : Store E S → String → Consent → S → Option E × S
  set_consent store id c s = store.update id (λ r. ok (record r { consent = c })) s

  unfoldable pub consent_of : Store E S → String → S → Result E Consent
  unfolding consent_read
  consent_of store id s = consent_read (store.get id s)

  wrapped : Option E × S → Option (SetTierError E) × S
  wrapped (none, s) = (none, s)
  wrapped (some e, s) = (some (store_failed e), s)

  unfoldable pub set_tier : Store E S → String → Tier → S → Option (SetTierError E) × S
  unfolding valid_tier wrapped
  set_tier store id t s =
      if not (valid_tier t)
      then (some unknown_tier, s)
      else wrapped (store.update id (λ r. ok (record r { tier = t })) s)
