-- ===== src/Tests/Undone.antt =====
-- A flow that takes a host away, fails in its read-back and is rolled back.
use crenel.Prelude.{
  true, false, none, ◌∙◌, ◌≡◌, ◌≢◌, refl, sym, ap, subst, List, [], ◌∷◌, All, Ordered, Result, ok,
  codes, arith,
}
use crenel.Model.{
  Op, plain_op, unexpose, public, Route, Record, LiveEdgeState, EdgeChange, EdgePlan, DnsChange,
  ChangeSet, zero_edge_change,
}
use crenel.Reports.{Error}
use crenel.Ports.{DnsProvider}
use crenel.Engine.{Engine}
use crenel.Chain.{kept_deny}
use crenel.Steps.{invert_edge}
use crenel.Steps.Sources.{from_edge, from_dns, origins}
use crenel.Apply.{apply_planned}
use crenel.Apply.Reversal.{Undoes, Apart}
use crenel.Apply.Atomic.{apply_planned-atomic}
use crenel.Tests.World.{
  World, host, engine, one_edge, good_zone, exposed, yes_always, record_of, live_of, change_edge,
  dns_change,
}

-- a zone that says that it wrote, and did not
abbrev stuck_zone : DnsProvider World
stuck_zone = record good_zone { apply = λ c w. (w, none) }

abbrev stuck_engine : Engine World
stuck_engine = engine (one_edge ∷ []) (stuck_zone ∷ []) []

abbrev unexpose_op : Op
unexpose_op = plain_op unexpose host host

abbrev route_removal : EdgeChange
route_removal = kept_deny [] (host ∷ [])

abbrev removal_plan : EdgePlan
removal_plan = record { edge = codes "e"; driver = codes "proxy"; change = route_removal }

abbrev zone_change : DnsChange
zone_change = dns_change public [] (record_of host public ∷ [])

abbrev unexpose_set : ChangeSet
unexpose_set = record {
  op = unexpose_op;
  edge = zero_edge_change;
  edges = removal_plan ∷ [];
  dns = zone_change ∷ [];
  new_public = [];
}

unexpose_run : (apply_planned stuck_engine unexpose_op unexpose_set yes_always exposed).2 ≢ none
unfolding apply_planned crenel.Model.change_set_empty crenel.Gate.gate_ownership
    crenel.Gate.gate_chain_ownership crenel.Chain.role_for crenel.Engine.fronts_service
    crenel.Gate.gate_plans crenel.Gate.gate_plan crenel.Engine.binding crenel.Gate.touched_hosts
    crenel.Prelude.sort_stable crenel.Gate.distinct crenel.Follow.indexed_route
    crenel.Steps.snapshots crenel.Apply.execute crenel.Steps.build_steps crenel.Steps.step_less
    crenel.Steps.dns_rank crenel.Chain.chain_depth crenel.Chain.relax_loop crenel.Chain.relax_edges
    crenel.Chain.relax_edge crenel.Steps.invert_edge crenel.Steps.invert_dns crenel.Verify.verify
    crenel.Verify.verify_edge crenel.Verify.verify_read crenel.Verify.verify_provider
    crenel.Checks.verify_artifact crenel.Checks.verify_verb crenel.Checks.verify_edge_host
    crenel.Checks.verify_edge_auth crenel.Checks.verify_edge_forward_tls crenel.Checks.route_of
    crenel.Checks.normalize_auth_presence crenel.Checks.verify_dns crenel.Checks.verify_present
    crenel.Checks.record_at_key crenel.Model.same_key crenel.Checks.same_dns_value
    crenel.Prelude.trim_space crenel.Prelude.equal_fold crenel.Prelude.to_lower
    crenel.Model.has_host crenel.Model.reachable crenel.Reports.verified
    crenel.Reports.runtime_unconfirmed_results crenel.Apply.accept crenel.Apply.persist_edges
    crenel.Apply.persist_edge crenel.Engine.scope_selected crenel.Engine.dns_covers_host
    crenel.Engine.zone_covers crenel.Engine.dns_zone crenel.Prelude.trim_suffix
    crenel.Prelude.has_suffix crenel.Rollback.rollback crenel.Rollback.unwind
    crenel.Rollback.unwind_one crenel.Rollback.is_wedged crenel.Rollback.wedge_of
    crenel.Rollback.probe_edge crenel.Steps.prior_routes crenel.Apply.settle
    crenel.Apply.after_steps crenel.Apply.run_steps
unexpose_run = λ h. cc

unexpose_errors :
    (apply_planned stuck_engine unexpose_op unexpose_set yes_always
      exposed).1.outcome.rollback_errors
    ≡ []
unfolding apply_planned crenel.Model.change_set_empty crenel.Gate.gate_ownership
    crenel.Gate.gate_chain_ownership crenel.Chain.role_for crenel.Engine.fronts_service
    crenel.Gate.gate_plans crenel.Gate.gate_plan crenel.Engine.binding crenel.Gate.touched_hosts
    crenel.Prelude.sort_stable crenel.Gate.distinct crenel.Follow.indexed_route
    crenel.Steps.snapshots crenel.Apply.execute crenel.Steps.build_steps crenel.Steps.step_less
    crenel.Steps.dns_rank crenel.Chain.chain_depth crenel.Chain.relax_loop crenel.Chain.relax_edges
    crenel.Chain.relax_edge crenel.Steps.invert_edge crenel.Steps.invert_dns crenel.Verify.verify
    crenel.Verify.verify_edge crenel.Verify.verify_read crenel.Verify.verify_provider
    crenel.Checks.verify_artifact crenel.Checks.verify_verb crenel.Checks.verify_edge_host
    crenel.Checks.verify_edge_auth crenel.Checks.verify_edge_forward_tls crenel.Checks.route_of
    crenel.Checks.normalize_auth_presence crenel.Checks.verify_dns crenel.Checks.verify_present
    crenel.Checks.record_at_key crenel.Model.same_key crenel.Checks.same_dns_value
    crenel.Prelude.trim_space crenel.Prelude.equal_fold crenel.Prelude.to_lower
    crenel.Model.has_host crenel.Model.reachable crenel.Reports.verified
    crenel.Reports.runtime_unconfirmed_results crenel.Apply.accept crenel.Apply.persist_edges
    crenel.Apply.persist_edge crenel.Engine.scope_selected crenel.Engine.dns_covers_host
    crenel.Engine.zone_covers crenel.Engine.dns_zone crenel.Prelude.trim_suffix
    crenel.Prelude.has_suffix crenel.Rollback.rollback crenel.Rollback.unwind
    crenel.Rollback.unwind_one crenel.Rollback.is_wedged crenel.Rollback.wedge_of
    crenel.Rollback.probe_edge crenel.Steps.prior_routes crenel.Apply.settle
    crenel.Apply.after_steps crenel.Apply.run_steps
unexpose_errors = refl

-- The route that was removed is added again, from the live state.
put_back :
    (routes : List Route) (records : List Record)
    → routes ≡ exposed.routes
    → change_edge
        (invert_edge route_removal (live_of exposed.routes))
        (change_edge route_removal (record { routes = routes; records = records }))
      ≡ record { routes = routes; records = records }
unfolding invert_edge crenel.Steps.prior_routes
put_back routes records h =
    subst
      (λ (rs : List Route).
        change_edge (invert_edge route_removal (live_of exposed.routes))
          (change_edge route_removal (record { routes = rs; records = records }))
        ≡ record { routes = rs; records = records })
      (sym h) refl

same_live : {a b : LiveEdgeState} → ◌≡◌ {A = Result Error LiveEdgeState} (ok a) (ok b) → a ≡ b
same_live e = ground arith

proxy-Undoes : Undoes unexpose_op exposed (from_edge removal_plan one_edge)
proxy-Undoes live v before now = (
  (λ failed. absurd (failed refl)),
  λ _ _.
      let start = same_live before in
      let here_ = same_live now in
      subst
        (λ (l : LiveEdgeState).
          change_edge (invert_edge route_removal l) (change_edge route_removal v) ≡ v)
        start
        (put_back v.routes v.records (
          ap (λ (l : LiveEdgeState). l.routes) here_
          ∙ ap (λ (l : LiveEdgeState). l.routes) (sym start))),
)

stuck-Undoes : All (Undoes unexpose_op exposed) (origins stuck_engine unexpose_set)
unfolding crenel.Steps.Sources.edge_origins crenel.Steps.Sources.dns_origins crenel.Engine.binding
    crenel.Model.edge_change_empty crenel.Model.dns_change_empty
stuck-Undoes = (proxy-Undoes, ((λ v _. ((λ failed. absurd (failed refl)), λ _ _. refl)), tt))

stuck-Apart : Ordered (Apart unexpose_op) (origins stuck_engine unexpose_set)
unfolding crenel.Steps.Sources.edge_origins crenel.Steps.Sources.dns_origins crenel.Engine.binding
    crenel.Model.edge_change_empty crenel.Model.dns_change_empty
stuck-Apart = ((((λ v. refl), (λ v. refl)), tt), (tt, tt))

apply_planned-atomic_example :
    (apply_planned stuck_engine unexpose_op unexpose_set yes_always exposed).0 ≡ exposed
apply_planned-atomic_example =
    apply_planned-atomic stuck_engine unexpose_op unexpose_set yes_always exposed refl stuck-Undoes
      stuck-Apart unexpose_run unexpose_errors
