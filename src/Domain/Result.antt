-- ===== src/Domain/Result.antt =====
-- Errors as values: the sentinels of internal/domain/resource.go, and the errors that the
-- constructors and the planner make with `fmt.Errorf`.
use routevane.Common.{◌≡◌, refl}

pub data Error : Type 0 where
  invalid_domain invalid_addr invalid_prefix invalid_slug : Error
  invalid_domain_rule_kind unsupported_seed_kind : Error
  unknown_component not_routable_kind : Error
  no_list_id no_target_id zero_cutoff no_components : Error
  empty_list_set invalid_list_identity duplicate_list_identity mixed_catalog_revisions : Error

-- The pair of a value and an `error`: the error, or the value where it is nil.
pub data Result {κ} (V : Type κ) : Type κ where
  err : Error → Result V
  ok : V → Result V

infixl 4 ◌>>=◌
abbrev pub ◌>>=◌ {κ ι} :
    {V : Type κ} {W : Type ι} → (first : Result V) (next : V → Result W) → Result W
err why >>= next = err why
ok v >>= next = next v

-- The parts of a chain that succeeds.
pub bind-eq-ok {κ ι} :
    {V : Type κ} {W : Type ι} (first : Result V) (next : V → Result W) {w : W}
    → (first >>= next) ≡ ok w
    → (v : V) × (first ≡ ok v) × (next v ≡ ok w)
bind-eq-ok (err why) next h = cc
bind-eq-ok (ok v) next h = (v, refl, h)

pub ok-injective {κ} : {V : Type κ} {v w : V} → ok v ≡ ok w → v ≡ w
ok-injective h = cc
