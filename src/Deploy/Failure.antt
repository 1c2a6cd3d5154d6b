-- ===== src/Deploy/Failure.antt =====
-- The sentinels of internal/application/deploy.go that a failed delivery wraps, and the code that
-- the journal keeps of it.
use routevane.Common.{Bool, List, [], ◌∷◌, Option, none, some, if◌then◌else◌, any, holds, ◌≡◌, refl}
use routevane.Common.Text.{Text, codes}

pub data Sentinel : Type 0 where
  rollback_failed fqdn_ownership_conflict connection_invalid device_incompatible : Sentinel
  backup_required verify_failed deployer_unavailable confirmation_required : Sentinel
  device_auth_rejected device_interface_missing device_unreachable : Sentinel
  device_command_rejected device_answer_invalid : Sentinel
  deploy_failed deploy_composition device_unchanged ownership_persist : Sentinel
  removal_unsupported device_cleanup_unavailable no_credential_check : Sentinel
  profile_archived profile_not_archived : Sentinel

unfoldable pub Sentinel-discrete : Discrete Sentinel
Sentinel-discrete = hlevel

-- An error by the sentinels that it wraps; `none` is nil.
abbrev pub Chain : Type 0
Chain = List Sentinel

-- `errors.Is`
abbrev pub error_is : Sentinel → Chain → Bool
error_is s chain = any (λ t. holds (Sentinel-discrete s t)) chain

-- The cases of the switch, in order.
abbrev pub coded : List (Sentinel × Text)
coded =
    (rollback_failed, codes "rollback_failed")
    ∷ (fqdn_ownership_conflict, codes "fqdn_ownership_conflict")
    ∷ (connection_invalid, codes "connection_invalid")
    ∷ (device_incompatible, codes "device_incompatible")
    ∷ (backup_required, codes "backup_unavailable")
    ∷ (verify_failed, codes "verify_failed")
    ∷ (deployer_unavailable, codes "deployer_unavailable")
    ∷ (confirmation_required, codes "confirmation_required")
    ∷ (device_auth_rejected, codes "device_auth_rejected")
    ∷ (device_interface_missing, codes "device_interface_missing")
    ∷ (device_unreachable, codes "device_unreachable")
    ∷ (device_command_rejected, codes "device_command_rejected")
    ∷ (device_answer_invalid, codes "device_answer_invalid")
    ∷ []

unfoldable pub first_code : List (Sentinel × Text) → Chain → Text
unfolding Sentinel-discrete
first_code [] chain = codes "deploy_failed"
first_code ((s, code) ∷ rest) chain =
    let later = first_code rest chain in if error_is s chain then code else later

-- `DeploymentFailureCode`
unfoldable pub failure_code : Option Chain → Text
failure_code none = []
failure_code (some chain) = first_code coded chain

outranks_test :
    failure_code (some (device_unreachable ∷ rollback_failed ∷ [])) ≡ codes "rollback_failed"
unfolding failure_code first_code Sentinel-discrete
outranks_test = refl
