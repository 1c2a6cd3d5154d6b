-- ===== src/Deploy/Routes.antt =====
-- internal/application/managed_routes.go: the ledger of routes that outputs share on one device,
-- the labels of a route, and the changes that bring the device to what the outputs want.
pub mod Labels
pub mod Ledger
pub mod Reconcile
