-- ===== src/Tests/Declared.antt =====
-- The apply of a file with one exposure, on a small world with another host, which is pruned.
use crenel.Prelude.{
  true, false, ◌≡◌, refl, List, [], ◌∷◌, In, here, Option, none, some, codes, Result, ok, All,
}
use crenel.Model.{http_proxy, public, EdgePlan, zero_edge_change, plain_op, expose}
use crenel.Reports.{Error}
use crenel.Chain.{kept_deny}
use crenel.Declarative.Exposures.{Exposure, Options, DeclarativePlan}
use crenel.Declarative.Planning.{plan_declarative}
use crenel.Declarative.Pruned.{PrunedAt, plan_declarative-PrunesOwned}
use crenel.Declarative.Handled.{Handled, plan_declarative-Handled}
use crenel.Tests.World.{World, one_edge, small, host, route_of_host, record_of}

abbrev the_exposure : Exposure
the_exposure = record {
  host = host;
  service = codes "a";
  mode = http_proxy;
  auth = [];
  edges = [];
  scopes = [];
  residency = [];
}

abbrev the_file : List Exposure
the_file = the_exposure ∷ []

abbrev pruning : Options
pruning = record { adopt = false; prune = true }

abbrev stale : World
stale = record {
  routes = route_of_host (codes "b.io") [] ∷ [];
  records = record_of (codes "b.io") public ∷ [];
}

abbrev file_plan : DeclarativePlan
file_plan = record {
  change = record {
    op = plain_op expose [] [];
    edge = zero_edge_change;
    edges =
        record {
          edge = codes "e";
          driver = codes "proxy";
          change = kept_deny (route_of_host host [] ∷ []) (codes "b.io" ∷ []);
        }
        ∷ [];
    dns =
        record {
          scope = public;
          add = record_of host public ∷ [];
          remove = record_of (codes "b.io") public ∷ [];
          managed = record_of host public ∷ [];
          rendered = [];
        }
        ∷ [];
    new_public = [];
  };
  new_public = host ∷ [];
  adopt = [];
  prune = codes "b.io" ∷ [];
  blocked = [];
}

planned_file : plan_declarative small the_file pruning stale ≡ ok file_plan
unfolding crenel.Declarative.Planning.plan_declarative crenel.Declarative.Planning.owned_absent
    crenel.Declarative.Planning.removals_at crenel.Declarative.Planning.routes_at
    crenel.Declarative.Planning.read_lives crenel.Declarative.Planning.place_all
    crenel.Declarative.Planning.place_exposure crenel.Declarative.Planning.place_at
    crenel.Declarative.Planning.adoptions crenel.Declarative.Planning.conflicts
    crenel.Declarative.Planning.has_key crenel.Declarative.Planning.add_names
    crenel.Declarative.Planning.desired_hosts crenel.Declarative.Planning.prune_edges
    crenel.Declarative.Planning.edge_plans crenel.Declarative.Planning.wanted_records
    crenel.Declarative.Planning.dns_changes crenel.Declarative.Planning.declarative_new_public
    crenel.Declarative.Exposures.live_at crenel.Declarative.Exposures.addr_of
    crenel.Declarative.Exposures.exposure_host crenel.Declarative.Exposures.target_edges
    crenel.Declarative.Exposures.place_present crenel.Declarative.Exposures.place
    crenel.Import.sort_texts crenel.Model.edge_change_empty crenel.Engine.edge_selected
    crenel.Model.validate_auth crenel.Engine.residency_supported crenel.Engine.service_of
    crenel.Plan.public_record_names crenel.Plan.edge_hosts crenel.Engine.fronts_service
    crenel.Engine.scope_selected crenel.Engine.dns_covers_host crenel.Engine.zone_covers
    crenel.Engine.dns_zone crenel.Prelude.to_lower crenel.Prelude.trim_suffix
    crenel.Prelude.has_suffix crenel.Prelude.equal_fold crenel.Prelude.sort_stable
    crenel.Model.has_host crenel.Model.same_key
planned_file = refl

plan_declarative-PrunesOwned_example :
    All
      (λ (ep : EdgePlan).
        All (PrunedAt small the_file pruning stale ep.edge) ep.change.remove_hosts)
      file_plan.change.edges
plan_declarative-PrunesOwned_example =
    plan_declarative-PrunesOwned small the_file pruning stale file_plan planned_file

plan_declarative-Handled_example : Handled small pruning stale file_plan the_exposure one_edge
unfolding crenel.Declarative.Exposures.target_edges crenel.Engine.edge_selected
    crenel.Engine.fronts_service
plan_declarative-Handled_example =
    plan_declarative-Handled small the_file pruning stale file_plan planned_file the_exposure here
      one_edge here
