-- ===== src/Tests/Drifted.antt =====
-- A reconcile of a small world whose proxy exposes a host that the zone does not have, and whose zone
-- has a record of a host that no edge exposes.
use crenel.Prelude.{
  true, false, ◌≡◌, ◌↔◌, refl, List, [], ◌∷◌, Option, none, some, codes, Text, Result, ok, All,
}
use crenel.Model.{
  http_proxy, public, Record, EdgePlan, zero_edge_change, plain_op, expose, change_set_empty,
}
use crenel.Ports.{DnsProvider}
use crenel.Reconcile.Canonical.{
  Drift, missing_dns, stale_dns, no_record, exposed_nowhere, points_at, ReconcilePlan, Canonical,
}
use crenel.Reconcile.Records.{plan_reconcile, lacking, owns_all}
use crenel.Reconcile.Converging.{provider_verdict}
use crenel.Reconcile.Rerendered.{InDomain, PlanRerenders}
use crenel.Reconcile.Boundary.{AllStale, plan_reconcile-Bounded}
use crenel.Reconcile.Quiet.{plan_reconcile-drifts_iff}
use crenel.Reconcile.Unwritten.{verify-passes_unwritten}
use crenel.Tests.World.{World, small, good_zone, host, route_of_host, record_of}

abbrev drifted : World
drifted = record {
  routes = route_of_host host [] ∷ [];
  records = record_of (codes "b.io") public ∷ [];
}

abbrev entries : List Canonical
entries =
    record { key = host; host = host; mode = http_proxy; auth = []; from_terminal = true } ∷ []

abbrev drift_at : Text → Drift
drift_at name = record {
  kind = stale_dns;
  host = name;
  target = codes "zone/public";
  detail = exposed_nowhere;
}

abbrev correction : ReconcilePlan
correction = record {
  drift =
      record { kind = missing_dns; host = host; target = codes "zone/public"; detail = no_record }
      ∷ drift_at (codes "b.io")
      ∷ [];
  change = record {
    op = plain_op expose [] [];
    edge = zero_edge_change;
    edges = [];
    dns =
        record {
          scope = public;
          add = record_of host public ∷ [];
          remove = record_of (codes "b.io") public ∷ [];
          managed = record_of host public ∷ [];
          rendered = [];
        }
        ∷ [];
    new_public = [];
  };
}

planned_correction : plan_reconcile small drifted ≡ ok (correction, entries)
unfolding plan_reconcile crenel.Reconcile.Canonical.note_route crenel.Reconcile.Canonical.by_key
    crenel.Reconcile.Canonical.mode_value crenel.Reconcile.Canonical.mode_of
    crenel.Reconcile.Canonical.any_fronts crenel.Reconcile.Canonical.note_routes
    crenel.Reconcile.Canonical.read_views crenel.Reconcile.Routes.wildcard_route_covering
    crenel.Reconcile.Routes.canonical_route crenel.Reconcile.Routes.fix_host
    crenel.Reconcile.Routes.fix_edge crenel.Reconcile.Routes.fix_edges
    crenel.Reconcile.Records.wildcard_covering crenel.Reconcile.Records.exact_coverage_match
    crenel.Reconcile.Records.lack_absent crenel.Reconcile.Records.lack_value
    crenel.Reconcile.Records.lacking crenel.Reconcile.Records.writes_for
    crenel.Reconcile.Records.dns_coverage_records crenel.Reconcile.Records.wanted
    crenel.Reconcile.Records.is_stale crenel.Reconcile.Records.fix_provider
    crenel.Reconcile.Records.fix_providers crenel.Gate.text_less crenel.Checks.route_of
    crenel.Engine.service_of crenel.Engine.fronts_service crenel.Chain.role_for
    crenel.Model.edge_change_empty crenel.Model.same_key crenel.Engine.dns_covers_host
    crenel.Engine.zone_covers crenel.Engine.dns_zone crenel.Engine.internal_scoped
    crenel.Follow.is_wildcard_name crenel.Follow.wildcard_pattern_covers
    crenel.Declarative.Planning.has_key crenel.Checks.same_dns_value crenel.Checks.record_at_key
    crenel.Prelude.to_lower crenel.Prelude.trim_suffix crenel.Prelude.has_suffix
    crenel.Prelude.has_prefix crenel.Prelude.equal_fold crenel.Prelude.sort_stable
    crenel.Prelude.trim_space
planned_correction = refl

plan_reconcile-Bounded_example :
    All (InDomain small) entries
    × All (PlanRerenders small small.edges entries) correction.change.edges
    × All (AllStale small entries small.dns drifted) correction.change.dns
plan_reconcile-Bounded_example =
    plan_reconcile-Bounded small drifted correction entries planned_correction

plan_reconcile-drifts_iff_example :
    (correction.drift ≡ []) ↔ (change_set_empty correction.change ≡ true)
plan_reconcile-drifts_iff_example =
    plan_reconcile-drifts_iff small drifted correction entries planned_correction

-- the zone as a provider that lists its own records only
abbrev owning_zone : DnsProvider World
owning_zone = record good_zone { owns_all_live_records = some true }

abbrev moved : Record
moved = record (record_of (codes "b.io") public) { value = codes "10.0.0.2" }

wrong_value :
    lacking (owns_all owning_zone) drifted.records drifted.records moved
    ≡ some (points_at (codes "10.0.0.1") (codes "10.0.0.2"))
unfolding lacking crenel.Reconcile.Records.lack_value crenel.Declarative.Planning.has_key
    crenel.Checks.record_at_key crenel.Checks.same_dns_value crenel.Model.same_key
    crenel.Prelude.to_lower crenel.Prelude.trim_space crenel.Prelude.equal_fold
wrong_value = refl

verify-passes_unwritten_example :
    (provider_verdict owning_zone (moved ∷ []) [] drifted).passed ≡ true
verify-passes_unwritten_example =
    verify-passes_unwritten owning_zone drifted drifted.records drifted.records moved
      (codes "10.0.0.1") (codes "10.0.0.2") refl wrong_value
