-- ===== src/Tests/Locators.antt =====
-- Triage in a small world, and the theorems on it.
use crenel.Prelude.{◌≡◌, refl, [], ◌∷◌, none, some, ok, codes}
use crenel.Model.{LiveEdgeState, Unparsed, acknowledged_unknown, handler_unrecognized}
use crenel.Ports.{EdgeProvider, LocatorAcker}
use crenel.Engine.{EdgeBinding, Engine}
use crenel.Triage.{
  TriageItem, item_of, acknowledged_at, edges_named, ack_route, unack_route, not_understood,
}
use crenel.Tests.World.{World, nothing, proxy, one_edge, live_of, engine}

abbrev known : Unparsed
known = record {
  locator = codes "r1";
  kind = acknowledged_unknown;
  reason = codes "crenel-ack:known-ok";
  raw_excerpt = [];
}

abbrev strange : Unparsed
strange = record {
  locator = codes "r2";
  kind = handler_unrecognized;
  reason = [];
  raw_excerpt = [];
}

abbrev accepting : LocatorAcker World
accepting = record {
  ack_locator = λ l r w. (w, none);
  unack_locator = λ l w. (w, none);
  route_raw_json = λ l w. ok [];
}

abbrev shown : World → LiveEdgeState
shown w = record (live_of w.routes) { unparsed = known ∷ strange ∷ [] }

abbrev marked_proxy : EdgeProvider World
marked_proxy = record proxy { read_live_state = λ w. ok (shown w); locator_acker = some accepting }

abbrev marked_edge : EdgeBinding World
marked_edge = record one_edge { provider = marked_proxy }

abbrev marked : Engine World
marked = engine (marked_edge ∷ []) [] []

ack_route_run : (ack_route marked [] (codes "r1") (codes "known-ok") nothing).1 ≡ none
unfolding ack_route crenel.Engine.gate_read_only edges_named crenel.Triage.on_locator_ackers
    crenel.Ack.any_entry acknowledged_at
ack_route_run = refl

unack_route_run : (unack_route marked [] (codes "r2") nothing).1 ≡ none
unfolding unack_route crenel.Engine.gate_read_only edges_named crenel.Triage.on_locator_ackers
    crenel.Ack.any_entry acknowledged_at
unack_route_run = refl

listing_run : not_understood marked [] nothing ≡ ok (item_of marked_edge strange ∷ [])
unfolding not_understood edges_named crenel.Triage.triage_items
listing_run = refl
