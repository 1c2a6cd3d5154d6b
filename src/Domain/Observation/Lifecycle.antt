-- ===== src/Domain/Observation/Lifecycle.antt =====
-- The lifecycle of an observation over time.
use routevane.Common.{ℕ, ◌+◌, ◌≤◌, ◌<◌, ◌≡◌, Bool, true, false, arith, ◌⊎◌}
use routevane.Domain.Kind.{Validity, valid, stale, archived, invalid, other_validity}
use routevane.Domain.Resource.{resource_is_valid}
use routevane.Domain.Observation.{Sighting, is_fresh, lifecycle_at, stale_retention}

-- The interval of each state.
abbrev pub Phase : Validity → ℕ → ℕ → Bool → Type 0
Phase valid valid_until cutoff bad = (bad ≡ false) × (cutoff < valid_until)
Phase stale valid_until cutoff bad =
    (bad ≡ false)
    × (0 < valid_until)
    × (valid_until ≤ cutoff)
    × (cutoff < valid_until + stale_retention)
Phase archived valid_until cutoff bad =
    (bad ≡ false) × (0 < valid_until) × (valid_until + stale_retention ≤ cutoff)
Phase invalid valid_until cutoff bad = (bad ≡ true) ⊎ (valid_until ≡ 0)
Phase (other_validity t) valid_until cutoff bad = ⊥

-- Each state has its interval: valid before the expiry, stale from it on, archived from the end of
-- the retention on; an observation that is bad or has no expiry is invalid.
pub lifecycle_at-Phase :
    (valid_until cutoff : ℕ) (bad : Bool)
    → Phase (lifecycle_at valid_until cutoff bad) valid_until cutoff bad
unfolding lifecycle_at
lifecycle_at-Phase valid_until cutoff bad = ground arith

-- How far an observation has come.
abbrev pub age : Validity → ℕ
age valid = 0
age stale = 1
age archived = 2
age invalid = 3
age (other_validity t) = 4

-- As the cutoff moves on, an observation never goes back to an earlier state.
pub lifecycle_monotone :
    (valid_until now later : ℕ) (bad : Bool)
    → now ≤ later
    → age (lifecycle_at valid_until now bad) ≤ age (lifecycle_at valid_until later bad)
unfolding lifecycle_at
lifecycle_monotone valid_until now later bad h = ground arith

-- The state of an observation that is still in use.
abbrev pub is_current : Validity → Bool
is_current valid = true
is_current _ = false

-- A sighting that carries its lifecycle state is fresh exactly when that state is `valid`, where
-- its resource is valid.
pub fresh_of_lifecycle :
    (s : Sighting) (cutoff : ℕ)
    → resource_is_valid s.resource ≡ true
    → s.validity ≡ lifecycle_at s.valid_until cutoff false
    → is_fresh s cutoff ≡ is_current s.validity
unfolding is_fresh lifecycle_at
fresh_of_lifecycle s cutoff r e = ground arith
