-- ===== src/Dns/Cloudflare/Ttl.antt =====
-- internal/drivers/dns/cloudflare/cloudflare.go: the TTL of the records that the driver writes.
use crenel.Prelude.{ℤ, pos, negsuc, ◌≤ℤ◌, Bool, true, false, ◌≡◌, arith}
use crenel.Model.{Record}
use crenel.Dns.Cloudflare.Records.{
  CfRecord, Config, ttl_or_auto, ttl_for_proxied, new_record, changed_record,
}

-- What the API takes: a TTL that is at least 1, and 1 for a proxied record
abbrev pub TtlAccepted : CfRecord → Type 0
TtlAccepted r = (pos 1 ≤ℤ r.ttl) × (r.proxied ≡ true → r.ttl ≡ pos 1)

ttl_for_proxied-bounds :
    (ttl : ℤ) (proxied : Bool)
    → (pos 1 ≤ℤ ttl_for_proxied ttl proxied)
      × (proxied ≡ true → ttl_for_proxied ttl proxied ≡ pos 1)
unfolding ttl_for_proxied ttl_or_auto
ttl_for_proxied-bounds ttl true = ground arith
ttl_for_proxied-bounds (pos n) false = ground arith
ttl_for_proxied-bounds (negsuc n) false = ground arith

-- The body of every create, and of every update of whatever live record, has a TTL of at least 1,
-- and the automatic TTL 1 if it is proxied, for whatever TTL is configured or live, zero and negative
-- ones too.
pub written-TtlAccepted :
    (cfg : Config) (live : CfRecord) (r : Record)
    → TtlAccepted (new_record cfg r) × TtlAccepted (changed_record cfg live r)
unfolding new_record changed_record
written-TtlAccepted cfg live r =
    (ttl_for_proxied-bounds cfg.ttl cfg.proxied, ttl_for_proxied-bounds live.ttl live.proxied)
