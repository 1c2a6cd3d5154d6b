-- ===== src/Examples/Delivery.antt =====
-- The theorems on the deployment service at concrete inputs.
use routevane.Common.{◌∷◌, ◌≡◌, refl, true, false, [], none, some}
use routevane.Common.Text.{codes, Text-discrete}
use routevane.Common.Assoc.{get}
use routevane.Deploy.Attempt.{DeployCommand}
use routevane.Deploy.Calls.{DeployRequest}
use routevane.Deploy.Delivery.{
  ArtifactPayload, Device, DeploymentConfig, DeviceSource, found, artifact_target, request_for,
  request_of, resolve, resolve_saved, resolve_device_connection, saved_command, deploy_command,
}
use routevane.Deploy.Delivery.Delivered.{Delivered, deploy_command-Delivered, request-Sendable}
use routevane.Deploy.Delivery.Saved.{SavedDelivery, saved-SavedDelivery}
use routevane.Deploy.Delivery.Plan.{plan_deployment, retire_managed_routes, nil_repository}
use routevane.Deploy.Delivery.Plan.Planned.{Agrees, plan_deployment-Agrees}
use routevane.Deploy.Prepare.Quiet.{QuietPart}
use routevane.Deploy.Routes.Ledger.{valid_managed_route_scope}
use routevane.Encoding.Utf8.{valid_from, rune_count}
use routevane.Examples.{target}
use routevane.Examples.Routes.{output, routed, deployer, store_backup, registry}

abbrev artifact : ArtifactPayload
artifact = record {
  id = codes "a";
  output_id = output;
  renderer_id = codes "raw";
  artifact_hash = codes "h";
  plan_snapshot_id = codes "s";
  payload = codes "x";
  size_bytes = 1;
}

abbrev config : DeploymentConfig
config = record {
  artifacts = record {
    artifact = λ id. found artifact;
    output_target = λ id. found target.id;
    snapshot_hash = λ id. found (codes "p");
    target_definition = λ id. found target;
  };
  deployers = registry;
  backups = store_backup;
  managed_routes = none;
  managed_fqdn = none;
}

abbrev router : Device
router = record {
  id = codes "d";
  target_id = target.id;
  address = codes "http://192.168.1.1";
  account = codes "admin";
  interface_name = codes "Wg0";
  credential_stored = false;
  created_at = 1;
}

abbrev devices : DeviceSource
devices = record { device = λ id. found router; credential = λ id. found (codes "secret") }

abbrev command : DeployCommand
command = record {
  artifact_id = codes "a";
  device_id = codes "d";
  expected_connection = some record {
    address = router.address;
    account = router.account;
    interface_name = router.interface_name;
  };
  connection = record { url = []; username = []; password = codes "once"; interface_name = [] };
  confirm = true;
  saved_device_id = [];
}

abbrev saved : DeployCommand
saved = saved_command command router (codes "once")

deploy_command-Delivered_example : Delivered config saved (deploy_command config saved)
deploy_command-Delivered_example = deploy_command-Delivered config saved

resolved : resolve_device_connection config devices command ≡ found saved
unfolding resolve_device_connection resolve_saved artifact_target get Text-discrete
resolved = refl

abbrev sent : DeployRequest
sent =
    request_of config saved (record { payload = artifact; target = target; deployer = deployer })
      (codes "p")

requested : request_for config saved ≡ found sent
unfolding request_for resolve artifact_target get Text-discrete
requested = refl

saved-SavedDelivery_example : SavedDelivery devices command sent
saved-SavedDelivery_example =
    saved-SavedDelivery config devices command saved sent refl resolved
      (request-Sendable config saved sent requested)

plan_deployment-Agrees_example : QuietPart (Agrees config saved) (plan_deployment config saved)
plan_deployment-Agrees_example = plan_deployment-Agrees config saved

-- A repository of routes that is nil, beside one of groups, is called.
abbrev routes_nil : DeploymentConfig
routes_nil = record config {
  deployers = (codes "raw", routed) ∷ [];
  managed_fqdn = some record {
    read = λ cs e o. (record { endpoint = e; output_id = o; groups = [] }, none);
    replace = λ cs o. none;
    retire = λ e i. none;
    parse_url = λ u. none;
  };
}

nil_is_called : retire_managed_routes routes_nil target.id saved.connection ≡ nil_repository
unfolding retire_managed_routes get valid_managed_route_scope valid_from rune_count Text-discrete
nil_is_called = refl
