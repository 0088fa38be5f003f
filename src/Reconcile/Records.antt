-- ===== src/Reconcile/Records.antt =====
-- internal/core/reconcile.go: the drift of the DNS providers, and the plan as a whole.
use crenel.Prelude.{
  Bool, false, not, ◌&&◌, ◌||◌, List, [], ◌∷◌, ◌++◌, map, any, find, keep_if, Option, none, some,
  Text, ◌==◌, text_eq, to_lower, if◌then◌else◌, Result, ok, ◌>>=◌, map_err,
}
use crenel.Model.{
  expose, plain_op, public, scope_eq, Record, same_key, DnsChange, EdgePlan, zero_edge_change,
}
use crenel.Reports.{Error, desired_records_failed, read_live_dns_failed, read_coverage_failed}
use crenel.Ports.{DnsProvider}
use crenel.Engine.{Engine, service_of, internal_scoped, dns_covers_host}
use crenel.Follow.{is_wildcard_name, wildcard_pattern_covers}
use crenel.Steps.{dns_label}
use crenel.Checks.{record_at_key, same_dns_value}
use crenel.Declarative.Planning.{has_key}
use crenel.Reconcile.Canonical.{
  Drift, missing_dns, stale_dns, value_dns, DriftDetail, wildcard_answers, no_record,
  exposed_nowhere, points_at, ReconcilePlan, Canonical, by_key, any_fronts, read_views,
}
use crenel.Reconcile.Routes.{fix_edges}

-- `wildcardCovering` of internal/core/audit.go, over the records themselves
unfoldable pub wildcard_covering : List Record → Text → Option Record
wildcard_covering coverage name =
    find (λ r. is_wildcard_name r.name && wildcard_pattern_covers (to_lower r.name) name) coverage

-- `exactCoverageMatch` of internal/core/dns_coverage.go, over the answers at the key
unfoldable pub exact_coverage_match : List Record → Record → Bool
exact_coverage_match coverage d = any (λ r. same_key r d && same_dns_value r.value d.value) coverage

-- what a record that is not among the owned ones lacks, if anything
unfoldable pub lack_absent : List Record → Record → Option DriftDetail
lack_absent coverage d =
    if exact_coverage_match coverage d then none else elim (wildcard_covering coverage d.name) [
      | none ↦ some no_record
      | some w ↦
          if same_dns_value w.value d.value
          then none
          else some (wildcard_answers (to_lower w.name) w.value d.value)
    ]

unfoldable pub lack_value : List Record → Record → Option DriftDetail
lack_value live d = elim (record_at_key live d) [
  | none ↦ none
  | some r ↦ if same_dns_value r.value d.value then none else some (points_at r.value d.value)
]

-- the records to add, with the drift that each corrects
abbrev pub Writes : Type 0
Writes = List (Record × Drift)

abbrev dns_drift : Text → Text → DriftDetail → Drift
dns_drift label host (points_at found target) = record {
  kind = value_dns;
  host = host;
  target = label;
  detail = points_at found target;
}
dns_drift label host detail = record {
  kind = missing_dns;
  host = host;
  target = label;
  detail = detail;
}

unfoldable pub lacking : Bool → List Record → List Record → Record → Option DriftDetail
lacking owns_all live coverage d =
    if not (has_key live d)
    then lack_absent coverage d
    else if owns_all
    then lack_value live d
    else none

unfoldable pub writes_for : Text → Text → (Record → Option DriftDetail) → List Record → Writes
writes_for label host lack [] = []
writes_for label host lack (d ∷ ds) =
    let rest = writes_for label host lack ds in
    elim (lack d) [ none ↦ rest | some why ↦ (d, dns_drift label host why) ∷ rest ]

abbrev pub stale_drift : Text → Record → Drift
stale_drift label r = record {
  kind = stale_dns;
  host = r.name;
  target = label;
  detail = exposed_nowhere;
}

-- whether the canonical state has a display host at the key
abbrev pub is_canonical : List Canonical → Text → Bool
is_canonical canon key = any (λ c. c.key == key && not (c.host == [])) canon

abbrev pub all_wanted : List (Canonical × List Record) → List Record
all_wanted [] = []
all_wanted ((c, ds) ∷ rest) = ds ++ all_wanted rest

abbrev pub all_writes :
    Text → (Record → Option DriftDetail) → List (Canonical × List Record) → Writes
all_writes label lack [] = []
all_writes label lack ((c, ds) ∷ rest) =
    writes_for label c.host lack ds ++ all_writes label lack rest

abbrev pub reconcile_plan : List Drift × List EdgePlan → List Drift × List DnsChange → ReconcilePlan
reconcile_plan edges dns = record {
  drift = edges.0 ++ dns.0;
  change = record {
    op = plain_op expose [] [];
    edge = zero_edge_change;
    edges = edges.1;
    dns = dns.1;
    new_public = [];
  };
}

module _ {W : Type 0} where
  -- `dnsCoverageRecords` of internal/core/dns_coverage.go
  unfoldable pub dns_coverage_records : DnsProvider W → List Record → W → Result Error (List Record)
  dns_coverage_records p owned w = elim p.coverage_records [
    | none ↦ ok owned
    | some f ↦ map_err (read_coverage_failed p.name) (f w)
  ]

  abbrev pub owns_all : DnsProvider W → Bool
  owns_all p = elim p.owns_all_live_records [ none ↦ false | some yes_ ↦ yes_ ]

  -- Canonical hosts that a provider holds no records for
  abbrev pub unasked : Engine W → DnsProvider W → Canonical → Bool
  unasked e p c =
      not (dns_covers_host p c.host)
      || (p.scope == public && internal_scoped e (service_of e c.host))

  -- what a provider should hold, by canonical host
  unfoldable pub wanted :
      Engine W → DnsProvider W → List Canonical → Result Error (List (Canonical × List Record))
  wanted e p [] = ok []
  wanted e p (c ∷ cs) =
      (if unasked e p c
        then ok []
        else map_err (desired_records_failed p.name)
            (p.desired_records (plain_op expose (service_of e c.host) c.host)))
      >>= λ ds. wanted e p cs >>= λ rest. ok ((c, ds) ∷ rest)

  -- A live record that no wildcard is, of a service that some edge fronts, for a host that is exposed
  -- nowhere
  unfoldable pub is_stale : Engine W → List Canonical → List Record → Record → Bool
  is_stale e canon desired r =
      not (is_wildcard_name r.name)
      && any_fronts e (service_of e r.name)
      && not (is_canonical canon (to_lower r.name))
      && not (has_key desired r)

  abbrev pub stale_records : Engine W → List Canonical → List Record → List Record → List Record
  stale_records e canon desired live = keep_if (is_stale e canon desired) live

  abbrev pub writes_of :
      DnsProvider W → List Record → List Record → List (Canonical × List Record) → Writes
  writes_of p live coverage hosts =
      all_writes (dns_label p) (lacking (owns_all p) live coverage) hosts

  abbrev change_of : DnsProvider W → Writes → List Record → List Record → DnsChange
  change_of p writes stale managed = record {
    scope = p.scope;
    add = map (λ x. x.0) writes;
    remove = stale;
    managed = managed;
    rendered = [];
  }

  -- what one provider contributes
  unfoldable pub fix_provider :
      Engine W → List Canonical → DnsProvider W → W → Result Error (List Drift × DnsChange)
  fix_provider e canon p w = map_err (read_live_dns_failed p.name) (p.live_records w) >>= λ live.
      dns_coverage_records p live w >>= λ coverage. wanted e p canon >>= λ hosts.
      let writes = writes_of p live coverage hosts in
      let stale = stale_records e canon (all_wanted hosts) live in
      ok (
        map (λ x. x.1) writes ++ map (stale_drift (dns_label p)) stale,
        change_of p writes stale (all_wanted hosts),
      )

  unfoldable pub fix_providers :
      Engine W
      → List Canonical
      → List (DnsProvider W)
      → W
      → Result Error (List Drift × List DnsChange)
  fix_providers e canon [] w = ok ([], [])
  fix_providers e canon (p ∷ ps) w = fix_provider e canon p w >>= λ f.
      fix_providers e canon ps w >>= λ rest. ok (f.0 ++ rest.0, f.1 ∷ rest.1)

  -- `planReconcile`
  unfoldable pub plan_reconcile : Engine W → W → Result Error (ReconcilePlan × List Canonical)
  plan_reconcile e w = read_views e e.edges [] w >>= λ seen.
      let canon = by_key seen.1 in
      fix_edges e canon seen.0 >>= λ edges.
      fix_providers e canon e.dns w >>= λ dns. ok (reconcile_plan edges dns, canon)
