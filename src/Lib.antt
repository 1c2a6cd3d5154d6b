-- ===== src/Lib.antt =====
-- Routevane: the planner, which turns catalog lists and observations into a routing plan, with the
-- domain values and the address policy that it stands on, and the delivery of what is built to a
-- device.
--
-- Parts and files:
--   * Common: tests, lists, orders, texts, sorting and maps with text keys. A Go string is a list of
--     bytes (`Text`), a Go map with string keys is an association list (`Assoc`), a stable sort is an
--     insertion sort (`Sort`), of which Sort/Laws has the laws.
--   * Netip: the part of Go's net/netip that the code uses, on values written out as numbers: an
--     address is its family, its value and its zone. Netip/Parse reads addresses and prefixes,
--     Netip/Print writes them, and Netip/Masks has the laws of `Contains` and `Overlaps`.
--   * Domain (internal/domain): resource.go is Names (ValidateSlug, NormalizeDomain, ParseAddr,
--     ParsePrefix) and Resource; the string enumerations are Kind; plan.go is Rule (NewDomainRule,
--     NewAddrRule, NewPrefixRule, CanonicalValue, IsValid) and Plan (StableStrings); observation.go
--     is Observation (IsFresh, Fingerprint, LifecycleAt); catalog.go is Catalog (Seed.Normalize);
--     target.go is Target. Result holds the errors as values.
--   * Netpolicy (internal/netpolicy/netpolicy.go): RoutableDestination, RoutablePrefix,
--     PublicUnicast, LocalHostname and their tables; Netpolicy/Cover says what a prefix covers.
--     Netpolicy/Device is DeviceDestination of device.go, as a release build has it, and Device/Url its
--     ValidateDeviceURL.
--   * Planner (internal/planner): Admission is admissionOrder, routableValue, admissibleValue,
--     admissibleUnderGrace and declaredNetwork; Candidates is seedRule and sightingRule; Build is
--     buildPlan, whose loop bodies are Build/Judge and whose warnings and coverage are
--     Build/Summary; Dedupe is dedupeRules and sortRules; Collapse is collapseObserved and reduce.go;
--     Canonical is canonical.go; PlanSet is BuildPlanSetWith; Overlaps is overlaps.go, with the report
--     in Overlaps/Report; Priority is
--     ApplyListPriority. The files below Build (but for Judge and Summary), Admission, Candidates,
--     Dedupe, Overlaps (but for Report), PlanSet and Priority hold proofs.
--   * Encoding: what the code uses of encoding/hex, unicode/utf8 and strings, with the validators of
--     identities (isHexID, validID, validHash, validDeploymentAttemptID).
--   * Deploy (internal/application, internal/infrastructure/sqlite): Failure and Attempt are the
--     values of deploy.go and deployment_attempt.go; Journal is the table of
--     sqlite/deployment_attempts.go; Service is DeploymentAttemptService, and Service/Machine its
--     processes as a step relation; Routes is managed_routes.go, in Routes/Labels, Routes/Ledger and
--     Routes/Reconcile; Calls is the interfaces that a delivery calls; Progress, Prepare, Change and
--     Lifecycle are DeployToDevice; Groups is the validity of a ledger of groups (managed_fqdn.go);
--     Surface and Removal are device_removal.go, on the same interfaces; Delivery is Deploy and
--     ResolveDeviceConnection of deployment_service.go, and Delivery/Plan its other methods. Cleanup is device_cleanup.go: what the
--     ledgers name and routeCounts, Cleanup/Match its match and entries, Cleanup/Act its clean and
--     attempt, Cleanup/Retire its RemoveOutput and DeleteProfile; Cleanup/Surfaces
--     and Cleanup/Reached hold proofs on the entries of a cleanup. The service's `execute` stands for the deployment service, which
--     ends in DeployToDevice; the lifecycle ends in the reconciliation and the verification of Routes.
--   * Application (internal/application): Preflight is preflight.go; Schedule is schedule.go: the rules, Schedule/Settings
--     what an operator sets and Schedule/Run a tick (RunDueRefreshes), with the record of a run
--     (internal/infrastructure/sqlite/settings.go, RecordProfileRefreshResult); Gate is
--     delivery_gate.go as a step relation on its clients.
--   * Examples: each theorem at a concrete input.
--
-- How they interact: PlanSet calls Build for each list and checks the composed plan. Build makes
-- candidates of seeds and sightings (Candidates, on the constructors of Domain.Rule), judges each
-- (Build/Judge, on Admission and Netpolicy), reduces what it accepted (Dedupe, Collapse), applies the
-- rule limit and puts the plan in canonical form (Canonical). Priority runs on a finished plan, with
-- the groups of Overlaps.
--
-- State: a loop's variables are the record that the loop passes on (`Intake` has accepted, excluded
-- and domainSufficient), a `continue` is a verdict, and an error is a value of `Result` or `SetResult`.
-- An instant is a number of nanoseconds from Go's zero time, so `IsZero` is the test for 0; limits
-- that the code compares with 0 are natural numbers. All loops are structural, so there is no fuel.
--
-- Not modelled: SHA-256, the JSON encoding of the hash and the prefix set of go4.org/netipx are
-- parameters (`Externals`, `digest`), of which nothing is assumed. The texts of error messages are
-- left out, and an error is its kind.
-- A device, a backup store and a ledger are arbitrary functions of the calls before, so that the
-- theorems on deliveries hold for any of them; a statement of the journal that fails is a flag of the
-- call. The duration of an audited step is left out.
-- Renderers, the rest of storage, discovery, the sessions with devices, the plugin protocol and the
-- clients are other parts of the repository.
pub mod Common
pub mod Netip
pub mod Domain
pub mod Netpolicy
pub mod Planner
pub mod Application
pub mod Deploy
pub mod Encoding
pub mod Examples
