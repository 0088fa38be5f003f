-- ===== src/Reconcile.antt =====
-- internal/core/reconcile.go: drift from the canonical set of exposed hosts, which is derived from live
-- state, and its correction. `Canonical` has that set, `Routes` and `Records` the drift of edges and of
-- DNS providers with what corrects it, `Converging` the flow; the other children hold the proofs.
pub mod Canonical
pub mod Routes
pub mod Records
pub mod Converging
pub mod Quiet
pub mod Rerendered
pub mod Boundary
pub mod Unwritten
