-- ===== src/Cluster/Staleness.antt =====
-- `Ord for Staleness` of chitchat/src/state.rs as an order.
use Prim.Native.Nat.{Ordering}
use Prim.Native.Nat.Ordering.{lt, eq, gt}
use scuttlebutt.Prelude.{◌≡◌, ◌≢◌, refl, inl, inr, ◌⊎◌, arith}
use scuttlebutt.Prelude.Order.{reverse}
use scuttlebutt.Cluster.Stale.{Staleness, staleness_cmp}

pub staleness_swap : (a b : Staleness) → staleness_cmp b a ≡ reverse (staleness_cmp a b)
unfolding staleness_cmp
staleness_swap a b = ground arith

pub staleness_refl : (a : Staleness) → staleness_cmp a a ≡ eq
unfolding staleness_cmp
staleness_refl a = ground arith

pub lt_not_gt : lt ≢ gt
lt_not_gt h = ground (arith, h)

pub lt_not_eq : lt ≢ eq
lt_not_eq h = ground (arith, h)

pub staleness_trans :
    (a b c : Staleness) → staleness_cmp a b ≡ lt → staleness_cmp b c ≡ lt → staleness_cmp a c ≡ lt
unfolding staleness_cmp
staleness_trans a b c h k = ground arith

pub staleness_same :
    (a b c : Staleness) → staleness_cmp a b ≡ eq → staleness_cmp a c ≡ staleness_cmp b c
unfolding staleness_cmp
staleness_same a b c h = ground arith

pub cmp_cases : (o : Ordering) → ((o ≡ lt) ⊎ (o ≡ eq)) ⊎ (o ≡ gt)
cmp_cases lt = inl (inl refl)
cmp_cases eq = inl (inr refl)
cmp_cases gt = inr refl
