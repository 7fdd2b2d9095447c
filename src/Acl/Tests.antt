-- ===== src/Acl/Tests.antt =====
-- Messages through the gate of acl.go, over a table of records.
use yaad_grove.Base.{
  ℕ, ◌+◌, ◌*◌, ◌≤◌, ◌≡◌, refl, Bool, true, String, List, [], ◌∷◌, Map, lookup, insert, arith, ok,
}
use yaad_grove.Base.Int.{pos, since}
use yaad_grove.Core.{group}
use yaad_grove.Acl.{
  resolve_tier, allowance_for, tier_default, Record, granted, declined, Store, Gate, GateInput,
  serve, nudged, rate_limited, nudge, check, check_read, check_rate, set_consent, new_gate,
  with_nudge_cooldown,
}
use yaad_grove.Acl.Laws.{table_store, table_view, table_store-IsStore}
use yaad_grove.Acl.Writes.{withdrawal_lost}
use yaad_grove.Acl.Decisions.{Justified, check-Justified, checks}
use yaad_grove.Acl.Nudges.{IsCooling}
use yaad_grove.Acl.Overlap.{Step, reads, goes_on, serves}
use yaad_grove.Acl.Rates.{serves_bounded}

abbrev store : Store ℕ (Map Record)
store = table_store

abbrev ann : Record
ann = record {
  user_id = "ann";
  tier = "throttled";
  consent = granted;
  rate_count = 4;
  rate_window_start = 1000;
}

abbrev bob : Record
bob = record {
  user_id = "bob";
  tier = "";
  consent = declined;
  rate_count = 0;
  rate_window_start = 0;
}

abbrev table : Map Record
table = ("ann", ann) ∷ ("bob", bob) ∷ []

abbrev gate : Gate
gate = record { def_tier = tier_default; cooldown = pos 600; nudges = [] }

abbrev says : String → Bool → GateInput
says id directed = record {
  user = record { id = id; display = "" };
  surface = group;
  directed = directed;
}

abbrev chatter : List (GateInput × ℕ)
chatter = (says "ann" true, 2000) ∷ (says "bob" true, 2100) ∷ (says "ann" true, 2200) ∷ []

fifth_served : (check store (says "ann" true) 2000 gate table).0 ≡ ok serve
unfolding check check_rate table_store lookup insert since
fifth_served = refl

sixth_limited :
    (check store
      (says "ann" true)
      2200
      (checks store table_view table_store-IsStore chatter gate table).0
      (checks store table_view table_store-IsStore chatter gate table).1).0
    ≡ ok rate_limited
unfolding checks check check_rate table_store lookup insert since
sixth_limited = refl

stranger_nudged : (check store (says "cyd" true) 2000 gate table).0 ≡ ok nudged
unfolding check check_rate table_store lookup insert since nudge
stranger_nudged = refl

new_gate_lem : with_nudge_cooldown (pos 600) (new_gate tier_default) ≡ gate
unfolding with_nudge_cooldown new_gate
new_gate_lem = refl

withdrawal_lost_example :
    let after = (set_consent store "ann" declined table).1 in
    ((table_view after "ann").consent ≡ declined)
    × ((table_view (check_rate store 2000 (table_view table "ann") gate after).2 "ann").consent
        ≡ granted)
withdrawal_lost_example =
    withdrawal_lost store table_view table_store-IsStore "ann" 2000 gate table
      (unfold lookup in refl) (unfold set_consent table_store lookup in refl)
      (unfold check_rate set_consent table_store lookup insert since in refl)

check-Justified_example : Justified serve (table_view table "ann").consent true
check-Justified_example =
    check-Justified store table_view table_store-IsStore (says "ann" true) 2000 gate table serve
      fifth_served

gate-IsCooling : IsCooling 600 gate
gate-IsCooling = record {
  cooldown_eq = refl;
  cooldown_pos = omega arith;
  cooldown_fits = omega arith;
  distinct = tt;
}

-- Two messages of ann, whose checks overlap, and one of bob in between.
abbrev overlapping : List Step
overlapping =
    reads (says "ann" true)
    ∷ reads (says "bob" true)
    ∷ reads (says "ann" true)
    ∷ goes_on 0 2000
    ∷ goes_on 0 2100
    ∷ goes_on 0 2200
    ∷ []

serves_bounded_example :
    let (count, overtaken) = serves store "ann" overlapping [] gate table in
    count + 4 ≤ 5 + 5 * overtaken
serves_bounded_example =
    serves_bounded store table_view table_store-IsStore "ann" 5 1000 4 overlapping gate table
      (omega arith) (omega arith) (omega arith)
      (record {
        start = unfold lookup in refl;
        count = unfold lookup in refl;
        allowed = unfold lookup resolve_tier allowance_for in refl;
      })

-- Both are served, though one message was left of the allowance.
both_served : serves store "ann" overlapping [] gate table ≡ (2, 1)
unfolding serves check_read check_rate table_store lookup insert since
both_served = refl
