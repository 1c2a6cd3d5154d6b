-- ===== src/Examples/Cleanup.antt =====
-- The theorems on the removal before a retirement at concrete inputs.
use routevane.Deploy.Cleanup.Retire.{delete_profile}
use routevane.Deploy.Cleanup.{Output}
use routevane.Deploy.Calls.{Calls, Deployer, applied_routes}
use routevane.Deploy.Cleanup.Retire.{CleanupPublication, remove_output}
use routevane.Deploy.Routes.Ledger.{ManagedRouteSpec}
use routevane.Common.{List, ◌+◌, length, true, [], ◌∷◌, none, some}
use routevane.Common.Text.{codes}
use routevane.Deploy.Delivery.{Device, found}
use routevane.Deploy.Cleanup.{DeviceCleanupConfig, CleanupEntry, unblocked}
use routevane.Deploy.Cleanup.Counts.{route_counts}
use routevane.Deploy.Cleanup.Act.{clean, Cleanup}
use routevane.Deploy.Cleanup.Act.Safe.{Safe}
use routevane.Examples.{target}
use routevane.Examples.Routes.{spec, output, routed, owned, scope, store_backup}

abbrev router : Device
router = record {
  id = codes "d";
  target_id = target.id;
  address = scope.endpoint;
  account = codes "admin";
  interface_name = scope.interface_name;
  credential_stored = true;
  created_at = 1;
}

abbrev config : DeviceCleanupConfig
config = record {
  target_definition = λ id. found target;
  device_cards = found (router ∷ []);
  credential = λ id. found (codes "secret");
  deployers = λ h c. (codes "raw", routed) ∷ [];
  backups = λ h. store_backup;
  managed_routes =
      λ h. record { read = λ cs s. (owned, none); replace = λ cs o. none; retire = λ s. none };
  managed_fqdn = λ h. record {
    read = λ cs e o. (record { endpoint = e; output_id = o; groups = [] }, none);
    replace = λ cs o. none;
    retire = λ e i. none;
    parse_url = λ u. none;
  };
  fqdn_endpoints = λ id. found [];
  route_scopes = λ id. found (scope ∷ []);
  random_id = λ h. found output;
  now = λ h. 1 + length h;
  begin = λ made a. none;
  complete = λ made a. none;
}

abbrev entry : CleanupEntry
entry = record {
  objects = record {
    output_id = output;
    target_id = target.id;
    endpoint = scope.endpoint;
    interface_name = scope.interface_name;
    connection = some router;
    cleanable = true;
    blocked_by = unblocked;
    fqdn_groups = none;
    routes = some (route_counts owned output);
  };
  target = target;
  device = router;
  needs_credential = true;
}

-- A router that holds the route until a change of routes has been applied.
abbrev holds_route : Calls → List ManagedRouteSpec
holds_route [] = spec ∷ []
holds_route (applied_routes m ∷ cs) = []
holds_route (c ∷ cs) = holds_route cs

abbrev obedient : Deployer
obedient = record routed {
  managed_routes = some record {
    scope = (scope, none);
    desired = λ a. ([], none);
    current = λ cs. (holds_route cs, none);
    apply_changes = λ cs m. none;
  };
}

abbrev retiring : DeviceCleanupConfig
retiring = record config { deployers = λ h c. (codes "raw", obedient) ∷ [] }

abbrev format : Output
format = record { id = output; profile_id = codes "l"; target_id = target.id; device_id = [] }

abbrev publication : CleanupPublication
publication = record {
  output = λ id. found format;
  profile = λ id. found (record { id = id; archived_at = 0 });
  outputs = λ id. found (format ∷ []);
  remove_output = λ c id. found 9;
  delete_profile = λ c id. found 9;
}

abbrev output_cleanup : Cleanup
output_cleanup = clean retiring (format ∷ [])

abbrev archived : CleanupPublication
archived = record publication { profile = λ id. found (record { id = id; archived_at = 5 }) }
