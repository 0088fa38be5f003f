-- ===== src/Dns/Cloudflare.antt =====
-- internal/drivers/dns/cloudflare: the driver that changes single records of a zone through the
-- Cloudflare API. `Records` has what it reads and writes, `Api` the calls, `Driver` its operations;
-- the other children hold the proofs.
pub mod Records
pub mod Api
pub mod Service
pub mod Surgery
pub mod Marker
pub mod Driver
pub mod Listing
pub mod Ttl
pub mod Moves
pub mod Reliable
pub mod Partition
pub mod Placed
pub mod Calls
pub mod Converge
pub mod Surgical
pub mod Ids
pub mod Foreign
pub mod Flow
