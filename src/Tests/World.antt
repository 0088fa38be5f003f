-- ===== src/Tests/World.antt =====
-- A small world for the tests: the routes of one proxy and the records of one zone, with providers
-- that read and change them.
use crenel.Prelude.{
  pos, Bool, true, false, not, List, [], ◌∷◌, ◌++◌, map, contains, keep_if, Option, none, some,
  Text, codes, ◌==◌, text_eq, if◌then◌else◌, Result, ok,
}
use crenel.Model.{
  Op, expose, unexpose, rename, plain_op, http_proxy, Scope, public, Route, direct_backend,
  own_crenel, LiveEdgeState, unset_ingress, durable_file, Record, EdgeChange, DnsChange, EdgePlan,
  ChangeSet, zero_edge_change, has_host,
}
use crenel.Reports.{Error}
use crenel.Ports.{EdgeProvider, DnsProvider}
use crenel.Engine.{EdgeBinding, Engine}
use crenel.Chain.{kept_deny}

pub record World : Type 0 where
  pub routes : List Route
  pub records : List Record

abbrev pub host : Text
host = codes "a.io"

abbrev pub route_of_host : Text → Text → Route
route_of_host name auth = record {
  host = name;
  upstream = record {
    kind = direct_backend;
    mode = http_proxy;
    address = codes "10.0.0.5:80";
    tls_passthrough = false;
    server_name = [];
    upstream_tls = false;
    auth = auth;
  };
  managed = true;
  ownership = own_crenel;
  chain = none;
}

abbrev pub record_of : Text → Scope → Record
record_of name scope = record {
  name = name;
  record_type = codes "A";
  value = codes "10.0.0.1";
  scope = scope;
  ttl = pos 60;
  proxied = false;
}

abbrev pub live_of : List Route → LiveEdgeState
live_of routes = record {
  routes = routes;
  deny_catch_all_present = true;
  unparsed = [];
  generator = [];
  ingress_kind = unset_ingress;
  persistence = durable_file;
  raw = [];
}

abbrev without : List Text → List Route → List Route
without hosts routes = keep_if (λ r. not (contains hosts r.host)) routes

abbrev pub change_edge : EdgeChange → World → World
change_edge c w = record w { routes = c.add_routes ++ without c.remove_hosts w.routes }

abbrev plan_change : Op → LiveEdgeState → EdgeChange
plan_change op live = elim op.verb [
  | expose ↦
      if has_host live op.host
      then kept_deny [] []
      else kept_deny (route_of_host op.host op.auth ∷ []) []
  | unexpose ↦ kept_deny [] (if has_host live op.host then op.host ∷ [] else [])
  | rename ↦ kept_deny [] []
]

abbrev change_set_of : Op → EdgeChange → ChangeSet
change_set_of op c = record { op = op; edge = c; edges = []; dns = []; new_public = [] }

abbrev pub proxy : EdgeProvider World
proxy = record {
  identity = 1;
  name = codes "proxy";
  read_live_state = λ w. ok (live_of w.routes);
  plan = λ op live. ok (change_set_of op (plan_change op live));
  apply = λ cs w. (change_edge cs.edge w, none);
  healthy = none;
  persist = none;
  persistence_model = none;
  acker = none;
  locator_acker = none;
  adopter = none;
  verify_runtime = none;
}

abbrev pub edge_named : Text → Option (Text → Bool) → Text → EdgeBinding World
edge_named name fronts downstream = record {
  name = name;
  provider = proxy;
  fronts = fronts;
  auth_downstream = false;
  ingress_kind = unset_ingress;
  ingress_detected = λ w. unset_ingress;
  downstream_edge = downstream;
  downstream_address = codes "10.0.0.5:443";
  downstream_scheme = [];
}

abbrev drop_records : List Record → List Record → List Record
drop_records gone records = keep_if (λ r. not (contains (map (λ x. x.name) gone) r.name)) records

abbrev change_dns : DnsChange → World → World
change_dns c w = record w { records = c.add ++ drop_records c.remove w.records }

abbrev pub dns_change : Scope → List Record → List Record → DnsChange
dns_change scope add remove = record {
  scope = scope;
  add = add;
  remove = remove;
  managed = [];
  rendered = [];
}

-- A zone whose writes fail with `failure`, if there is one.
abbrev pub zone_of : Scope → Option Error → DnsProvider World
zone_of scope failure = record {
  name = codes "zone";
  scope = scope;
  desired_records = λ op. ok (record_of op.host scope ∷ []);
  diff = λ op ds w. elim op.verb [
    | expose ↦ ok (dns_change scope ds [])
    | unexpose ↦ ok (dns_change scope [] ds)
    | rename ↦ ok (dns_change scope [] [])
  ];
  apply = λ c w. elim failure [ some x ↦ (w, some x) | none ↦ (change_dns c w, none) ];
  live_records = λ w. ok w.records;
  managed_zone = some (codes "io");
  residency_target = none;
  owns_all_live_records = none;
  coverage_records = none;
}

abbrev pub engine : List (EdgeBinding World) → List (DnsProvider World) → List Text → Engine World
engine edges dns internal_scope = record {
  edges = edges;
  dns = dns;
  zone = codes "io";
  rollback = true;
  force = false;
  allow_unverified = false;
  read_only = false;
  internal_scope = internal_scope;
}

abbrev pub one_edge : EdgeBinding World
one_edge = edge_named (codes "e") none []

abbrev pub good_zone : DnsProvider World
good_zone = zone_of public none

-- one edge that fronts everything, and a zone
abbrev pub small : Engine World
small = engine (one_edge ∷ []) (good_zone ∷ []) []

-- a chain: the edge `f` forwards to the edge `b`, which fronts the service `a.io`
abbrev pub front : EdgeBinding World
front = edge_named (codes "f") (some (λ s. false)) (codes "b")

abbrev pub back : EdgeBinding World
back = edge_named (codes "b") (some (λ s. s == host)) []

abbrev pub chained : Engine World
chained = engine (front ∷ back ∷ []) [] []

abbrev pub expose_op : Op
expose_op = plain_op expose host host

abbrev pub nothing : World
nothing = record { routes = []; records = [] }

abbrev pub exposed : World
exposed = record { routes = route_of_host host [] ∷ []; records = record_of host public ∷ [] }

abbrev pub edge_plan_for : Text → List Route → EdgePlan
edge_plan_for edge routes = record {
  edge = edge;
  driver = codes "proxy";
  change = kept_deny routes [];
}

-- what `Plan` has for `expose_op` on `small`
abbrev pub expose_set : ChangeSet
expose_set = record {
  op = expose_op;
  edge = zero_edge_change;
  edges = edge_plan_for (codes "e") (route_of_host host [] ∷ []) ∷ [];
  dns = dns_change public (record_of host public ∷ []) [] ∷ [];
  new_public = host ∷ [];
}

abbrev pub yes_always : ChangeSet → Result Error Bool
yes_always cs = ok true
