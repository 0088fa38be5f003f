-- ===== src/Declarative.antt =====
-- internal/core/declarative.go: the apply of a file of exposures. `Exposures` has the file and what
-- becomes of an exposure at an edge, `Planning` the plan, `Converging` the flow; the other children
-- hold the proofs.
pub mod Exposures
pub mod Planning
pub mod Converging
pub mod Pruned
pub mod Shown
pub mod Converged
pub mod Placed
pub mod Everywhere
pub mod Handled
