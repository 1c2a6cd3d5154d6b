-- ===== src/Examples/Routes.antt =====
-- The theorems on managed routes and on a whole delivery at concrete inputs.
use routevane.Common.{
  All, false, ◌≡◌, refl, ap, sym, subst, true, [], ◌∷◌, none, some, ◌⊎◌, inl, inr, In,
}
use routevane.Common.Text.{Text, codes}
use routevane.Common.Sort.{compact_by}
use routevane.Common.Keyed.{lookup}
use routevane.Netip.{Prefix, v4, prefix_from, Prefix-discrete}
use routevane.Deploy.Routes.Ledger.{ManagedRouteScope, ManagedRouteSpec, ManagedRouteOwnership}
use routevane.Deploy.Routes.Reconcile.{
  ManagedRouteMutation, reconcile_managed_routes, reconciled, current_spec_map, verify_mutation,
  matches, SpecMap, spec_at, next_ownership, labels_of_claims, next_claims, routes_by_prefix,
  mutation_for,
}
use routevane.Deploy.Routes.Reconcile.Owned.{
  KeptClaim, removes_no_foreign, writes_no_foreign, Own, Claimed, OnDevice,
}
use routevane.Deploy.Routes.Reconcile.Settled.{reconcile-matches, Applied}
use routevane.Deploy.Progress.{Ended}
use routevane.Deploy.Removal.{remove_from_device}
use routevane.Deploy.Removal.Settled.{removal-Removed, Removed}
use routevane.Deploy.Calls.{
  RemovalRequest, Deployer, plain, DeployRequest, DeployerRegistry, BackupStore,
}
use routevane.Deploy.Attempt.{no_device, no_backup}
use routevane.Deploy.Lifecycle.{deploy_to_device}
use routevane.Deploy.Lifecycle.Ordered.{deploy-Ordered, Ordered}
use routevane.Deploy.Lifecycle.Recovered.{deploy-Settled, Settled}
use routevane.Examples.{target}

abbrev pub output : Text
output = codes "0123456789abcdef0123456789abcdef"

abbrev net : Prefix
net = prefix_from (v4 0x08080000) 16

abbrev pub spec : ManagedRouteSpec
spec = record { prefix = net; description = codes "(web/main)"; labels = codes "(web/main)" ∷ [] }

abbrev pub scope : ManagedRouteScope
scope = record {
  endpoint = codes "http://192.168.1.1";
  target_id = codes "raw";
  interface_name = codes "Wg0";
}

abbrev no_ownership : ManagedRouteOwnership
no_ownership = record { scope = scope; routes = []; claims = [] }

abbrev pub owned : ManagedRouteOwnership
owned = record {
  scope = scope;
  routes =
      record { prefix = net; description = spec.description; created_by_routevane = true } ∷ [];
  claims =
      record {
        output_id = output;
        prefix = net;
        description = spec.description;
        labels = spec.labels;
      }
      ∷ [];
}

abbrev add_route : ManagedRouteMutation
add_route = record { upsert = spec ∷ []; remove = [] }

abbrev drop_route : ManagedRouteMutation
drop_route = record { upsert = []; remove = net ∷ [] }

added : reconcile_managed_routes no_ownership output (spec ∷ []) [] ≡ reconciled add_route owned
unfolding reconcile_managed_routes compact_by next_ownership labels_of_claims next_claims
    routes_by_prefix mutation_for
added = refl

dropped : reconcile_managed_routes owned output [] (spec ∷ []) ≡ reconciled drop_route no_ownership
unfolding reconcile_managed_routes compact_by next_ownership labels_of_claims next_claims
    routes_by_prefix mutation_for
dropped = refl

removes_no_foreign_example :
    Own owned net
    × (Claimed no_ownership net → ⊥)
    × OnDevice (spec ∷ []) net
    × All (KeptClaim output no_ownership net) owned.claims
removes_no_foreign_example =
    removes_no_foreign owned output [] (spec ∷ []) drop_route no_ownership net dropped (inl refl)

writes_no_foreign_example : Claimed owned net × ((OnDevice [] net → ⊥) ⊎ Own no_ownership net)
writes_no_foreign_example =
    writes_no_foreign no_ownership output (spec ∷ []) [] add_route owned spec added (inl refl)

abbrev after : SpecMap
after = (net, spec) ∷ []

read_after : current_spec_map (spec ∷ []) [] ≡ some after
unfolding current_spec_map
read_after = refl

read_before : current_spec_map [] [] ≡ some []
unfolding current_spec_map
read_before = refl

spec_there : spec_at net after ≡ some spec
unfolding lookup Prefix-discrete
spec_there = refl

written_there :
    (s : ManagedRouteSpec)
    → In s (spec ∷ [])
    → (t : ManagedRouteSpec) × (spec_at s.prefix after ≡ some t) × (t.description ≡ s.description)
written_there s (inl e) = (
  spec,
  subst (λ k. spec_at k.prefix after ≡ some spec) (sym e) spec_there,
  ap (λ k. k.description) (sym e),
)
written_there s (inr i) = absurd i

none_before : (p : Prefix) (s : ManagedRouteSpec) → spec_at p [] ≡ some s → ⊥
unfolding lookup
none_before p s h = cc

device_applies : Applied add_route [] after
device_applies = record {
  written = written_there;
  gone = λ p i. absurd i;
  kept = λ p s e f g. absurd (none_before p s e);
}

reconcile-matches_example : verify_mutation owned add_route (spec ∷ []) ≡ matches
reconcile-matches_example =
    reconcile-matches no_ownership output (spec ∷ []) [] (spec ∷ []) add_route owned [] after added
      read_before read_after device_applies

-- A device that accepts everything.
abbrev pub deployer : Deployer
deployer = record {
  id = codes "raw";
  needs_credential = false;
  connection_fault = λ c. none;
  stored_connection_fault = λ c. none;
  probe = λ cs. (record no_device { format_key = codes "raw" }, none);
  take_backup = λ cs. (record { ref = no_backup; payload = codes "config" }, none);
  write = plain (λ cs a. none);
  verify = λ cs a. none;
  rollback = λ cs b. none;
  managed_routes = none;
  managed_fqdn = none;
  fqdn_remover = none;
}

abbrev pub store_backup : BackupStore
store_backup cs id payload = (
  record { id = codes "b"; path = codes "p"; hash = codes "h"; size_bytes = 6; created_at = 9 },
  none,
)

abbrev pub registry : DeployerRegistry
registry = (codes "raw", deployer) ∷ []

abbrev request : DeployRequest
request = record {
  target = target;
  connection = record {
    url = codes "http://192.168.1.1";
    username = [];
    password = [];
    interface_name = [];
  };
  artifact = record {
    artifact_id = output;
    renderer_id = codes "raw";
    artifact_hash = codes "h";
    payload = codes "x";
    routing_plan_hash = codes "p";
    owned_fqdn_groups = [];
  };
  output_id = output;
  managed_routes = none;
  managed_fqdn = none;
}

deploy-Ordered_example : Ordered (deploy_to_device request registry store_backup).progress.calls
deploy-Ordered_example = deploy-Ordered request registry store_backup

deploy-Settled_example : Settled (deploy_to_device request registry store_backup)
deploy-Settled_example = deploy-Settled request registry store_backup

-- A device that holds the one route of `owned`, and a ledger that names it.
abbrev pub routed : Deployer
routed = record deployer {
  managed_routes = some record {
    scope = (scope, none);
    desired = λ a. ([], none);
    current = λ cs. (spec ∷ [], none);
    apply_changes = λ cs m. none;
  };
}

abbrev removal_request : RemovalRequest
removal_request = record {
  target = target;
  connection = request.connection;
  output_id = output;
  managed_routes =
      some record { read = λ cs s. (owned, none); replace = λ cs o. none; retire = λ s. none };
  managed_fqdn = none;
}

abbrev removed : Ended
removed = remove_from_device removal_request ((codes "raw", routed) ∷ []) store_backup

removal-Removed_example :
    Removed removal_request ((codes "raw", routed) ∷ []) removed × Ordered removed.progress.calls
removal-Removed_example = removal-Removed removal_request ((codes "raw", routed) ∷ []) store_backup
