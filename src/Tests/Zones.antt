-- ===== src/Tests/Zones.antt =====
-- A zone that answers every request, and the driver's theorems on it.
use crenel.Prelude.{
  ℕ, pos, negsuc, suc, zero, ◌-◌, ◌≤◌, true, false, ◌≡◌, ◌≢◌, refl, sym, ap, ◌∙◌, subst, inl, inr,
  List, [], ◌∷◌, ◌++◌, append-nil, Option, none, some, Text, codes, In, here, there, In-cons_cases,
  length, length-append, arith, text_eq, to_upper, to_lower, trim_space, trim_suffix, has_suffix,
  has_prefix, equal_fold, Result, ok,
}
use crenel.Model.{
  ChangeSet, zero_edge_change, Record, public, DnsChange, plain_op, expose, dns_change_empty,
  no_dns_change, internal,
}
use crenel.Engine.{Engine}
use crenel.Ports.{DnsProvider}
use crenel.Dns.Cloudflare.Ttl.{TtlAccepted, written-TtlAccepted}
use crenel.Apply.{apply_planned}
use crenel.Dns.Cloudflare.Flow.{flow-Surgical}
use crenel.Dns.Cloudflare.Records.{
  CfRecord, Config, CfError, new_record, changed_record, fqdn, partition, at_name, norm_name, owned,
  guard, render_preview, under_zone, validate_content,
}
use crenel.Dns.Cloudflare.Api.{
  zones_named, records_page, post_record, put_record, remove_record, Body, envelope, Doer, Answer,
  read_answer, list_zone, read_pages, resolve_zone_id, api, delete_record, Driver, Session,
}
use crenel.Dns.Cloudflare.Service.{Service, with_id, replaced, dropped}
use crenel.Dns.Cloudflare.Reliable.{Reliable, page_at, concat, list_zone_complete}
use crenel.Dns.Cloudflare.Driver.{apply, diff, provider}
use crenel.Dns.Cloudflare.Surgery.{guard_all, change_for, additions}
use crenel.Dns.Cloudflare.Placed.{Settled}
use crenel.Dns.Cloudflare.Converge.{expose-Converges}
use crenel.Dns.{family_of}
use crenel.Dns.Cloudflare.Surgical.{Surgical, IdsDistinct}
use crenel.Dns.Cloudflare.Foreign.{apply-Surgical}

abbrev Zone : Type 0
Zone = List CfRecord

abbrev zone_pages : Zone → List (List CfRecord)
zone_pages [] = []
zone_pages (r ∷ rs) = (r ∷ rs) ∷ []

abbrev all_ids : Zone → Text
all_ids [] = []
all_ids (r ∷ rs) = r.id ++ all_ids rs

abbrev fresh_id : Zone → Text
fresh_id rs = b'n' ∷ all_ids rs

abbrev answer : Option (List CfRecord) → ℕ → Result Text (ℕ × Body)
answer recs total = ok (
  200,
  envelope (record {
    success = true;
    errors = [];
    payload = record { as_zones = none; as_records = recs };
    total_pages = some total;
  }),
)

abbrev zone_doer : Doer Zone
zone_doer (zones_named name) w = (w, answer none 0)
zone_doer (records_page zone page) w =
    (w, answer (some (page_at (page - 1) (zone_pages w))) (length (zone_pages w)))
zone_doer (post_record zone r) w = (w ++ (with_id (fresh_id w) r ∷ []), answer none 0)
zone_doer (put_record zone id r) w = (replaced id r w, answer none 0)
zone_doer (remove_record zone id) w = (dropped id w, answer none 0)

page_at-In : (page : ℕ) (w : Zone) (r : CfRecord) → In r (page_at page (zone_pages w)) → In r w
page_at-In page [] r m = elim m [ ]
page_at-In zero (x ∷ w) r m = m
page_at-In (suc page) (x ∷ w) r m = elim m [ ]

fresh_id_long : (w : Zone) (x : CfRecord) → In x w → length x.id ≤ length (all_ids w)
fresh_id_long (x ∷ w) y m = elim (In-cons_cases m) [
  | inl e ↦ rw e (omega (arith, length-append x.id (all_ids w)))
  | inr n ↦ omega (arith, length-append x.id (all_ids w), fresh_id_long w y n)
]
fresh_id_long [] y m = elim m [ ]

answer-ok : {x a : Answer} → ◌≡◌ {A = Result CfError Answer} (ok x) (ok a) → x ≡ a
answer-ok e = ground arith

some-rs : {xs ys : List CfRecord} → some xs ≡ some ys → xs ≡ ys
some-rs e = ground arith

zone_service : Service zone_doer
unfolding read_answer
zone_service = record {
  records = λ w. w;
  zones_read = λ name w. refl;
  page_reads = λ zone page w. refl;
  page_shows = λ zone page w a rs e f r m. page_at-In (page - 1) w r (
      subst (In r) (sym (some-rs (ap (λ (x : Answer). x.payload.as_records) (answer-ok e) ∙ f))) m);
  new_id = λ zone r w. fresh_id w;
  new_id_fresh = λ zone r w x m e. omega (arith, fresh_id_long w x m, ap length e);
  posts = λ zone r w. inl refl;
  puts = λ zone id r w. inl refl;
  removes = λ zone id w. inl refl;
}

abbrev page_result : ℕ → Zone → Answer
page_result page w = record {
  total_pages = some (length (zone_pages w));
  payload = record { as_zones = none; as_records = some (page_at (page - 1) (zone_pages w)) };
}

zone_whole : (w : Zone) → concat (zone_pages w) ≡ w
zone_whole [] = refl
zone_whole (r ∷ w) = ap (λ (t : Zone). r ∷ t) (append-nil w)

zone_full : (page : ℕ) (w : Zone) → 1 ≤ page → length (zone_pages w) ≤ page
zone_full page [] h = ground arith
zone_full page (r ∷ w) h = ground arith

zone_reliable : Reliable zone_service
unfolding read_answer zone_service
zone_reliable = record {
  pages = zone_pages;
  whole = zone_whole;
  page_answer = page_result;
  page_answered = λ zone page w. refl;
  page_shown = λ page w. refl;
  pages_counted = λ page w. refl;
  page_full = λ page w h e. zone_full page w h;
  pages_kept = λ zone page w. refl;
  post_answered = λ zone r w. refl;
  put_answered = λ zone id r w. refl;
}

zone_limit : (w : Zone) → length (zone_pages w) ≤ 3
zone_limit [] = ground arith
zone_limit (r ∷ w) = ground arith

abbrev config : Config
config = record {
  zone_name = codes "h.io";
  zone_id = codes "z1";
  scope = public;
  edge_addr = codes "10.0.0.1";
  proxied = false;
  ttl = pos 300;
  zone_in_name = false;
}

abbrev cf_driver : Driver Zone
cf_driver = record { cfg = config; doer = zone_doer; page_limit = 3 }

abbrev cf_record : Text → Text → Text → CfRecord
cf_record id name comment = record {
  id = id;
  record_type = codes "A";
  name = name;
  content = codes "10.9.9.9";
  ttl = pos 1;
  proxied = false;
  comment = comment;
}

abbrev zone_records : Zone
zone_records =
    cf_record (codes "1") (codes "www.h.io") (codes "by hand")
    ∷ cf_record (codes "2") (codes "app.h.io") (codes "managed-by:crenel host=app.h.io")
    ∷ []

abbrev session : Session Zone
session = record { zone_id = codes "z1"; world = zone_records }

abbrev want : Record
want = record {
  name = codes "app.h.io";
  record_type = codes "A";
  value = codes "10.0.0.1";
  scope = public;
  ttl = pos 0;
  proxied = false;
}

-- The ids of two records differ.
two_ids : (a b : CfRecord) → a.id ≢ b.id → IdsDistinct (a ∷ b ∷ [])
two_ids a b h x y here here e = refl
two_ids a b h x y here (there here) e = elim (h e) [ ]
two_ids a b h x y (there here) here e = elim (h (sym e)) [ ]
two_ids a b h x y (there here) (there here) e = refl
two_ids a b h x y here (there (there n)) e = elim n [ ]
two_ids a b h x y (there here) (there (there n)) e = elim n [ ]
two_ids a b h x y (there (there m)) n e = elim m [ ]

zone_ids : IdsDistinct zone_records
zone_ids = two_ids _ _ (λ e. ground arith)

-- the change that adds a record for `www`, which is not ours, and takes the one of `app` away
abbrev swap : DnsChange
swap = record {
  scope = public;
  add = record want { name = codes "www.h.io" } ∷ [];
  remove = want ∷ [];
  managed = [];
  rendered = [];
}

swap-refused :
    (apply cf_driver swap session).0.world
    ≡ cf_record (codes "1") (codes "www.h.io") (codes "by hand") ∷ []
unfolding apply list_zone read_pages resolve_zone_id api partition at_name fqdn norm_name
    delete_record owned dropped to_upper to_lower trim_space trim_suffix has_suffix has_prefix
    read_answer
swap-refused = refl

apply-Surgical_example : Surgical zone_records (apply cf_driver swap session).0.world
unfolding zone_service
apply-Surgical_example = apply-Surgical cf_driver zone_service swap session zone_ids

-- `app` points elsewhere: the expose is an update.
abbrev update : DnsChange
update = record {
  scope = public;
  add = want ∷ [];
  remove = [];
  managed = want ∷ [];
  rendered = codes "+ CREATE/UPDATE A app.h.io -> 10.0.0.1 [managed-by:crenel]" ++ (10 ∷ []);
}

expose-Converges_example :
    let applied : Session Zone × Result CfError (Unit {0}) =
      apply cf_driver update
        (diff cf_driver (plain_op expose (codes "app") (codes "app.h.io")) (want ∷ []) session).0 in
    (applied.1 ≡ ok tt)
    × Settled want (partition config applied.0.world want.name want.record_type)
    × ((again : DnsChange) × ((diff cf_driver
            (plain_op expose (codes "app") (codes "app.h.io"))
            (want ∷ [])
            applied.0).1
          ≡ ok again)
        × (dns_change_empty again ≡ true))
unfolding diff list_zone read_pages resolve_zone_id api partition at_name fqdn norm_name owned
    guard_all guard change_for additions render_preview under_zone validate_content family_of
    to_upper to_lower trim_space trim_suffix has_suffix has_prefix read_answer zone_service
    zone_reliable equal_fold
expose-Converges_example =
    expose-Converges cf_driver zone_service zone_reliable (λ w. zone_limit w) (ground arith)
      (plain_op expose (codes "app") (codes "app.h.io")) want session update refl
      (λ e. ground arith) zone_ids refl refl refl

list_zone_complete_example : (list_zone cf_driver session).1 ≡ ok zone_records
unfolding zone_service zone_reliable
list_zone_complete_example =
    list_zone_complete cf_driver zone_service zone_reliable session (λ e. ground arith)
      (ground arith) (zone_limit zone_records)

-- a provider of another zone, which is never reached
abbrev idle : DnsProvider (Session Zone)
idle = record {
  name = codes "idle";
  scope = internal;
  desired_records = λ op. ok [];
  diff = λ op ds w. ok (no_dns_change internal);
  apply = λ c w. (w, none);
  live_records = λ w. ok [];
  managed_zone = none;
  residency_target = none;
  owns_all_live_records = none;
  coverage_records = none;
}

abbrev zone_engine : Engine (Session Zone)
zone_engine = record {
  edges = [];
  dns = idle ∷ provider (λ e. []) cf_driver ∷ idle ∷ [];
  zone = codes "h.io";
  rollback = true;
  force = false;
  allow_unverified = false;
  read_only = false;
  internal_scope = [];
}

abbrev zone_set : ChangeSet
zone_set = record {
  op = plain_op expose (codes "app") (codes "app.h.io");
  edge = zero_edge_change;
  edges = [];
  dns = no_dns_change internal ∷ update ∷ no_dns_change internal ∷ [];
  new_public = codes "app.h.io" ∷ [];
}

flow-Surgical_example :
    Surgical zone_records
      (apply_planned zone_engine zone_set.op zone_set (λ cs. ok true) session).0.world
unfolding zone_service
flow-Surgical_example =
    flow-Surgical cf_driver zone_service (λ e. []) zone_engine (idle ∷ []) (idle ∷ []) zone_set.op
      zone_set (λ cs. ok true) session refl tt ((λ c w. refl), tt) ((λ c w. refl), tt) zone_ids

-- a negative TTL in the settings
abbrev below_zero : Config
below_zero = record config { ttl = negsuc 4 }

written-TtlAccepted_example :
    TtlAccepted (new_record below_zero want)
    × TtlAccepted (changed_record below_zero (cf_record (codes "2") (codes "app.h.io") []) want)
written-TtlAccepted_example =
    written-TtlAccepted below_zero (cf_record (codes "2") (codes "app.h.io") []) want
