-- ===== src/Acl/Tiers.antt =====
-- The order of authority.
use yaad_grove.Base.{
  ◌&&◌, Bool-cases, inl, inr, ℕ, ◌≤◌, ◌≡◌, refl, ◌↔◌, true, false, Option, none, some,
  same_text_iff, arith,
}
use yaad_grove.Acl.{
  is_known, Tier, tier_admin, tier_authority, at_least, at_least_rank, rank_or_zero, valid_tier,
}

at_least_rank_trans :
    (a : ℕ) (b c : Option ℕ)
    → at_least_rank a b ≡ true
    → at_least_rank (rank_or_zero b) c ≡ true
    → at_least_rank a c ≡ true
unfolding at_least_rank
at_least_rank_trans a none c h k = cc
at_least_rank_trans a (some x) none h k = cc
at_least_rank_trans a (some x) (some y) h k = ground arith

-- Authority is transitive: who has at least the authority of a tier has that of every tier below it.
pub at_least_trans :
    (a b c : Tier) → at_least a b ≡ true → at_least b c ≡ true → at_least a c ≡ true
unfolding at_least
at_least_trans a b c h k =
    at_least_rank_trans (rank_or_zero (tier_authority a)) (tier_authority b) (tier_authority c) h k

rank_of_admin : (have : Tier) → 4 ≤ rank_or_zero (tier_authority have) → have ≡ tier_admin
unfolding tier_authority
rank_of_admin have h = ground (arith, same_text_iff have tier_admin)

at_least_rank_refl : (o : Option ℕ) → at_least_rank (rank_or_zero o) o ≡ is_known o
unfolding at_least_rank
at_least_rank_refl none = refl
at_least_rank_refl (some n) = ground arith

at_least_rank_unknown : (n : ℕ) (o : Option ℕ) → is_known o ≡ false → at_least_rank n o ≡ false
unfolding at_least_rank
at_least_rank_unknown n none h = refl
at_least_rank_unknown n (some w) h = cc

at_least-admin : (have : Tier) → at_least have tier_admin ≡ true → have ≡ tier_admin
unfolding at_least
at_least-admin have h = rank_of_admin have (ground arith)

admin_at_least : at_least tier_admin tier_admin ≡ true
unfolding at_least
admin_at_least = refl

-- Only the admin tier has the authority of an admin, every known tier has its own, and a requirement
-- that is no known tier is met by no one.
pub at_least_lem :
    (have want : Tier)
    → ((at_least have tier_admin ≡ true) ↔ (have ≡ tier_admin))
      × (at_least want want ≡ valid_tier want)
      × (at_least have want ≡ (valid_tier want && at_least have want))
at_least_lem have want = (
  (at_least-admin have, λ e. rw e admin_at_least),
  (unfold at_least valid_tier in at_least_rank_refl (tier_authority want)),
  (elim (Bool-cases (valid_tier want)) [
    | inl known ↦ rw known refl
    | inr strange ↦
        let unmet : at_least have want ≡ false =
          unfold at_least in
          at_least_rank_unknown (rank_or_zero (tier_authority have)) (tier_authority want)
            (unfold valid_tier in strange) in
        rw (strange, unmet) refl
  ]),
)
