-- ===== src/Dns.antt =====
-- internal/drivers/dns: the drivers of DNS providers.
mod Ip
mod Texts
pub mod Cloudflare
pub mod AdGuard
pub use Ip.{Family, ipv4, ipv6, no_address}
unfoldable pub use Ip.{family_of}
