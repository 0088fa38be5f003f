-- ===== src/Tests/Adoptions.antt =====
-- An import of a route that was written by hand, at the proxy of the small world.
use crenel.Prelude.{
  true, false, ◌≡◌, refl, List, [], ◌∷◌, map, contains, none, some, Text, codes, text_eq, ok, All,
  trim_suffix, to_lower, equal_fold, sort_stable, ◌||◌,
}
use crenel.Model.{
  Route, own_unmanaged, LiveEdgeState, has_host, reachable, is_mutable, ownership_from_marker,
}
use crenel.Reports.{verified}
use crenel.Engine.{EdgeBinding, Engine, service_of, fronts_service, gate_read_only}
use crenel.Import.{
  ImportPlan, AdoptCandidate, plan_import, import_edges, classify_routes, classify, desired_addr,
  sort_texts, import_routes, adopt_edges, verify_import, is_managed,
}
use crenel.Import.Adoptable.{Adoptable, plan_import-Adoptable}
use crenel.Import.Stamped.{StampedAt, import_routes-Stamped}
use crenel.Tests.World.{World, proxy, one_edge, engine, route_of_host, host}

abbrev stamped : List Text → Route → Route
stamped hosts r = record r { managed = r.managed || contains hosts r.host }

abbrev adopting : EdgeBinding World
adopting = record one_edge {
  provider = record proxy {
    adopter = some (λ hosts w. (record w { routes = map (stamped hosts) w.routes }, none));
  };
}

abbrev adopting_engine : Engine World
adopting_engine = engine (adopting ∷ []) [] []

abbrev by_hand : World
by_hand = record {
  routes = record (route_of_host host []) { managed = false; ownership = own_unmanaged } ∷ [];
  records = [];
}

abbrev candidates_of : List AdoptCandidate
candidates_of =
    record {
      edge = codes "e";
      driver = codes "proxy";
      host = host;
      service = codes "a";
      address = codes "10.0.0.5:80";
      mode = crenel.Model.http_proxy;
    }
    ∷ []

abbrev import_plan : ImportPlan
import_plan = record { adopt = candidates_of; conflicts = []; already_managed = [] }

planned_import : plan_import adopting_engine by_hand ≡ ok import_plan
unfolding plan_import import_edges classify_routes classify desired_addr sort_texts sort_stable
    crenel.Gate.text_less service_of fronts_service has_host trim_suffix
planned_import = refl

plan_import-Adoptable_example : All (Adoptable adopting_engine.edges by_hand) candidates_of
plan_import-Adoptable_example =
    plan_import-Adoptable adopting_engine by_hand import_plan planned_import

import_routes-Stamped_example :
    All
      (StampedAt
        (import_routes adopting_engine (λ p. ok true) by_hand).1.plan.adopt
        (import_routes adopting_engine (λ p. ok true) by_hand).0)
      adopting_engine.edges
unfolding import_routes plan_import import_edges classify_routes classify desired_addr sort_texts
    sort_stable crenel.Gate.text_less service_of fronts_service has_host trim_suffix gate_read_only
    adopt_edges verify_import is_managed reachable equal_fold to_lower verified
import_routes-Stamped_example =
    import_routes-Stamped adopting_engine (λ p. ok true) by_hand refl refl
