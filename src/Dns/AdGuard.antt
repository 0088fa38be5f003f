-- ===== src/Dns/AdGuard.antt =====
-- internal/drivers/dns/adguard: the driver of the rewrites of an AdGuard resolver. `Rewrites` has its
-- names and the change of `Diff`, `Driver` its operations; the other children hold the proofs.
pub mod Rewrites
pub mod Driver
pub mod Resolver
pub mod Confined
pub mod Names
pub mod Calls
pub mod Restore
pub mod Conflict
