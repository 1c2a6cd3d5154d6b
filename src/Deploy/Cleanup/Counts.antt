-- ===== src/Deploy/Cleanup/Counts.antt =====
-- `routeCounts` of internal/application/device_cleanup.go. A map that Go keys by the text of a prefix
-- is keyed by the prefix.
use routevane.Common.{
  ℕ, ◌+◌, suc, Bool, true, false, not, List, [], ◌∷◌, Option, none, some, if◌then◌else◌, any, ◌≡◌,
  refl, length, keep, arith, Bool-cases, inl, inr,
}
use routevane.Common.Text.{Text, text_eq, Text-discrete}
use routevane.Common.Keyed.{lookup, store}
use routevane.Netip.{Prefix, Prefix-discrete}
use routevane.Deploy.Routes.Ledger.{
  ManagedRoute, ManagedRouteClaim, ManagedRouteOwnership, prefix_eq,
}

pub record DeviceRouteCounts : Type 0 where
  pub claimed : ℕ
  pub removable : ℕ
  pub shared : ℕ
  pub preexisting : ℕ

-- `created[p]` of the map that the routes fill in their order.
unfoldable pub created_of : List (Prefix × Bool) → List ManagedRoute → List (Prefix × Bool)
unfolding store Prefix-discrete
created_of m [] = m
created_of m (r ∷ routes) =
    created_of (store Prefix-discrete r.prefix r.created_by_routevane m) routes

abbrev pub is_created : Option Bool → Bool
is_created none = false
is_created (some b) = b

abbrev pub claimed_by : Text → ManagedRouteClaim → Bool
claimed_by output c = text_eq c.output_id output

-- `others[p]`
abbrev pub claimed_by_other : Text → List ManagedRouteClaim → Prefix → Bool
claimed_by_other output claims p =
    any (λ c. prefix_eq c.prefix p) (keep (λ c. not (claimed_by output c)) claims)

abbrev pub no_counts : DeviceRouteCounts
no_counts = record { claimed = 0; removable = 0; shared = 0; preexisting = 0 }

-- One claim of the output: whether Routevane created its route, and whether another output claims it.
abbrev pub note_claim : (created other : Bool) → DeviceRouteCounts → DeviceRouteCounts
note_claim false other n = record n { claimed = n.claimed + 1; preexisting = n.preexisting + 1 }
note_claim true true n = record n { claimed = n.claimed + 1; shared = n.shared + 1 }
note_claim true false n = record n { claimed = n.claimed + 1; removable = n.removable + 1 }

module _ (output : Text) (created : Prefix → Bool) (other : Prefix → Bool) where
  unfoldable pub count_claims : List ManagedRouteClaim → DeviceRouteCounts
  unfolding Text-discrete
  count_claims [] = no_counts
  count_claims (c ∷ claims) =
      let rest = count_claims claims in
      if claimed_by output c then note_claim (created c.prefix) (other c.prefix) rest else rest

unfoldable pub route_counts : ManagedRouteOwnership → Text → DeviceRouteCounts
unfolding count_claims created_of lookup Prefix-discrete Text-discrete
route_counts o output =
    count_claims output (λ p. is_created (lookup Prefix-discrete p (created_of [] o.routes)))
      (claimed_by_other output o.claims) o.claims

-- The parts of `n` make up its claims, which are `k`.
abbrev Split : DeviceRouteCounts → ℕ → Type 0
Split n k = (n.claimed ≡ n.removable + n.shared + n.preexisting) × (n.claimed ≡ k)

noted-Split :
    (created other : Bool) (n : DeviceRouteCounts) (k : ℕ)
    → Split n k
    → Split (note_claim created other n) (suc k)
noted-Split false other n k (e, f) = (omega arith, omega arith)
noted-Split true true n k (e, f) = (omega arith, omega arith)
noted-Split true false n k (e, f) = (omega arith, omega arith)

counted-Split :
    (output : Text) (created other : Prefix → Bool) (claims : List ManagedRouteClaim)
    → Split (count_claims output created other claims) (length (keep (claimed_by output) claims))
unfolding count_claims
counted-Split output created other [] = (refl, refl)
counted-Split output created other (c ∷ claims) = elim (Bool-cases (claimed_by output c)) [
  | inl e ↦ rw e (
      noted-Split (created c.prefix) (other c.prefix) (count_claims output created other claims)
        (length (keep (claimed_by output) claims)) (counted-Split output created other claims))
  | inr e ↦ rw e (counted-Split output created other claims)
]

-- The claims that are counted on a surface are those of the output, no other's, and their number is the
-- sum of the removable, the shared and the preexisting ones.
pub route_counts_sum :
    (o : ManagedRouteOwnership) (output : Text)
    → ((route_counts o output).claimed
        ≡ (route_counts o output).removable
          + (route_counts o output).shared
          + (route_counts o output).preexisting)
      × ((route_counts o output).claimed ≡ length (keep (claimed_by output) o.claims))
unfolding route_counts
route_counts_sum o output =
    counted-Split output (λ p. is_created (lookup Prefix-discrete p (created_of [] o.routes)))
      (claimed_by_other output o.claims) o.claims
